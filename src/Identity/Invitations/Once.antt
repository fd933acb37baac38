-- ===== src/Identity/Invitations/Once.antt =====
-- An invitation of backend/app/api/v1/invitations.py is good for one acceptance.
use apex_ai.Prelude.{
  find?-filter, find?-passes, ℕ, ◌+◌, ◌≡◌, ◌∙◌, refl, sym, ap, Bool, true, false, not, ◌||◌, some,
  List, [], ◌∷◌, String, ◌==◌, ==_iff, nat_eq, string_eq, filter, any, find?, Result, ok, err,
  guard, >>=-eq-ok, ok-injective, arith,
}
use mathlib.Core.Path.{subst}
use apex_ai.Access.{OrgRole}
use apex_ai.Identity.{Invitation, InvitationStatus, is_pending, Db, Claims, Platform, Draw, kept}
use apex_ai.Identity.Tables.{ApiError, require, insert_row, modify}
use apex_ai.Identity.Tables.Spent.{
  Spent, insert_row-Spent, modify-Spent, modify-Spent_self, filter-modify_found,
}
use apex_ai.Identity.Auth.Inversion.{guard_lem, require_lem}
use apex_ai.Identity.Orgs.{is_org}
use apex_ai.Identity.Invitations.{
  InvitationRequest, invites, revokes, accepts, serve, serve_all, is_invitation,
  has_invitation_token, is_open, require_inviter, create_invitation, revoke_invitation,
  accept_invitation,
}
use apex_ai.Identity.Invitations.Accepts.{accept-eq-ok, finalized}

abbrev is_final : Invitation → Bool
is_final i = not (is_pending i.status)

any_or {ℓ} :
    {A : Type ℓ} (p q : A → Bool) (xs : List A) → any q xs ≡ true → any (λ x. p x || q x) xs ≡ true
any_or p q [] h = cc
any_or p q (x ∷ xs) h = ground (arith, any_or p q xs)

is_open-pending : (now : ℕ) (i : Invitation) → is_open now i ≡ true → is_final i ≡ false
unfolding is_open
is_open-pending now i h = ground arith

abbrev revoked : Invitation → Invitation
revoked i = record i { status = InvitationStatus.revoked }

revoke-eq-ok :
    (user : Claims) (id : ℕ) (db : Db) {db' : Db}
    → revoke_invitation user id db ≡ ok db'
    → (i : Invitation) × (find? (is_invitation id) db.invitations ≡ some i)
      × (is_pending i.status ≡ true)
      × (db'.invitations ≡ modify (is_invitation id) revoked db.invitations)
unfolding revoke_invitation
revoke-eq-ok user id db h =
    let (i, e1, h1) =
      >>=-eq-ok (require (find? (is_invitation id) db.invitations) (ApiError.http 404)) _ h in
    let (_, e2, h2) = >>=-eq-ok (require_inviter db user i.org_id) _ h1 in
    let (_, e3, h3) = >>=-eq-ok (guard (is_pending i.status) (ApiError.http 400)) _ h2 in
    (
      i,
      require_lem (find? (is_invitation id) db.invitations) (ApiError.http 404) e1,
      guard_lem (is_pending i.status) (ApiError.http 400) e3,
      sym (ap (λ (x : Db). x.invitations) (ok-injective h3)),
    )

is_pending_lem : (s : InvitationStatus) → is_pending s ≡ true → s ≡ InvitationStatus.pending
is_pending_lem s h = ground arith

module _ (platform : Platform) where
  open platform use {sha256}

  -- The invitation with the token was accepted or revoked.
  abbrev pub IsFinalized : String → List Invitation → Type 0
  IsFinalized plain invitations = Spent (has_invitation_token (sha256 plain)) is_final invitations

  create-IsFinalized :
      (plain : String) (d : Draw) (user : Claims) (org_id : ℕ) (email : String) (role : OrgRole)
      (team_ids : List ℕ) (db : Db) {db' : Db}
      → IsFinalized plain db.invitations
      → create_invitation platform d user org_id email role team_ids db ≡ ok db'
      → IsFinalized plain db'.invitations
  unfolding create_invitation
  create-IsFinalized plain d user org_id email role team_ids db spent h =
      let (_, e1, h1) = >>=-eq-ok (require_inviter db user org_id) _ h in
      let (org, e2, h2) =
        >>=-eq-ok (require (find? (is_org org_id) db.orgs) (ApiError.http 404)) _ h1 in
      let row : Invitation = record {
        id = d.new_id;
        org_id = org_id;
        email = email;
        role = role;
        team_ids = team_ids;
        token_hash = sha256 d.plain;
        expires_at = d.now + platform.invite_ttl;
        status = InvitationStatus.pending;
        invited_by = user.sub;
      } in
      let clashes : Invitation → Bool =
        λ i. is_invitation d.new_id i || has_invitation_token (sha256 d.plain) i in
      let (rows, e3, h3) = >>=-eq-ok (insert_row clashes row db.invitations) _ h2 in
      let clash : (sha256 d.plain == sha256 plain) ≡ true
          → any (has_invitation_token (sha256 plain)) db.invitations ≡ true
          → any clashes db.invitations ≡ true =
        λ same known.
          any_or (is_invitation d.new_id) (has_invitation_token (sha256 d.plain)) db.invitations (
            ap (λ t. any (has_invitation_token t) db.invitations)
              ((==_iff (sha256 d.plain) (sha256 plain)).0 same)
            ∙ known) in
      subst (λ (x : Db). IsFinalized plain x.invitations) (ok-injective h3)
        (insert_row-Spent (has_invitation_token (sha256 plain)) is_final clashes row db.invitations
          spent e3 clash)

  revoke-IsFinalized :
      (plain : String) (user : Claims) (id : ℕ) (db : Db) {db' : Db}
      → IsFinalized plain db.invitations
      → revoke_invitation user id db ≡ ok db'
      → IsFinalized plain db'.invitations
  revoke-IsFinalized plain user id db spent h =
      let (i, found, pending, rows) = revoke-eq-ok user id db h in
      rw rows (
        modify-Spent (has_invitation_token (sha256 plain)) is_final (is_invitation id) revoked
          db.invitations i spent found (ap not pending) refl)

  accept-IsFinalized :
      (plain : String) (d : Draw) (used password full_name : String) (db : Db) {r : Db × ℕ}
      → IsFinalized plain db.invitations
      → accept_invitation platform d used password full_name db ≡ ok r
      → IsFinalized plain r.0.invitations
  accept-IsFinalized plain d used password full_name db spent h =
      let (i, single, opened, members, rows) =
        accept-eq-ok platform d used password full_name db h in
      let first = find?-filter (has_invitation_token (sha256 used)) db.invitations i [] single in
      rw rows (
        modify-Spent (has_invitation_token (sha256 plain)) is_final
          (has_invitation_token (sha256 used)) finalized db.invitations i spent first
          (is_open-pending d.now i opened) refl)

  -- What was accepted is finalized.
  accept-finalizes :
      (plain : String) (d : Draw) (password full_name : String) (db : Db) {r : Db × ℕ}
      → accept_invitation platform d plain password full_name db ≡ ok r
      → IsFinalized plain r.0.invitations
  accept-finalizes plain d password full_name db h =
      let (i, single, opened, members, rows) =
        accept-eq-ok platform d plain password full_name db h in
      let has_hash = has_invitation_token (sha256 plain) in
      let passes =
        find?-passes has_hash db.invitations i (find?-filter has_hash db.invitations i [] single) in
      rw rows (modify-Spent_self has_hash is_final finalized db.invitations i single passes refl)

  -- What is revoked is finalized, by its token.
  revoke-finalizes :
      (plain : String) (user : Claims) (i : Invitation) (db : Db) {db' : Db}
      → filter (has_invitation_token (sha256 plain)) db.invitations ≡ i ∷ []
      → find? (is_invitation i.id) db.invitations ≡ some i
      → revoke_invitation user i.id db ≡ ok db'
      → IsFinalized plain db'.invitations
  revoke-finalizes plain user i db single keyed h =
      let (i', found, pending, rows) = revoke-eq-ok user i.id db h in
      let has_hash = has_invitation_token (sha256 plain) in
      rw rows (
        revoked i,
        filter-modify_found has_hash (is_invitation i.id) revoked db.invitations i single keyed
            refl,
        refl,
      )

  accept-refused :
      (plain : String) (d : Draw) (password full_name : String) (db : Db)
      → IsFinalized plain db.invitations
      → accept_invitation platform d plain password full_name db ≡ err (ApiError.http 400)
  unfolding accept_invitation is_open
  accept-refused plain d password full_name db (i, single, final) = rw (single) (ground arith)

  kept-IsFinalized {ℓ} :
      {A : Type ℓ} (plain : String) (tables : A → Db) (db : Db) (r : Result ApiError A)
      → IsFinalized plain db.invitations
      → ((a : A) → r ≡ ok a → IsFinalized plain (tables a).invitations)
      → IsFinalized plain (kept tables db r).invitations
  kept-IsFinalized plain tables db (ok a) spent done = done a refl
  kept-IsFinalized plain tables db (err e) spent done = spent

  serve-IsFinalized :
      (plain : String) (d : Draw) (request : InvitationRequest) (db : Db)
      → IsFinalized plain db.invitations
      → IsFinalized plain (serve platform d request db).invitations
  unfolding serve
  serve-IsFinalized plain d (invites user org_id email role team_ids) db spent =
      kept-IsFinalized plain (λ r. r) db
        (create_invitation platform d user org_id email role team_ids db) spent
        (λ r h. create-IsFinalized plain d user org_id email role team_ids db spent h)
  serve-IsFinalized plain d (revokes user id) db spent =
      kept-IsFinalized plain (λ r. r) db (revoke_invitation user id db) spent
        (λ r h. revoke-IsFinalized plain user id db spent h)
  serve-IsFinalized plain d (accepts used password name) db spent =
      kept-IsFinalized plain (λ r. r.0) db (accept_invitation platform d used password name db)
        spent (λ r h. accept-IsFinalized plain d used password name db spent h)

  serve_all-IsFinalized :
      (plain : String) (later : List (Draw × InvitationRequest)) (db : Db)
      → IsFinalized plain db.invitations
      → IsFinalized plain (serve_all platform later db).invitations
  serve_all-IsFinalized plain [] db spent = spent
  serve_all-IsFinalized plain ((d, request) ∷ later) db spent =
      serve_all-IsFinalized plain later (serve platform d request db)
        (serve-IsFinalized plain d request db spent)

-- An invitation can be accepted once: after that, whatever invitations are created, revoked and accepted, the
-- acceptance with the same token raises 400.
pub accept-once :
    (platform : Platform) (d d' : Draw) (plain password full_name password' full_name' : String)
    (db : Db) (r : Db × ℕ) (later : List (Draw × InvitationRequest))
    → accept_invitation platform d plain password full_name db ≡ ok r
    → accept_invitation platform d' plain password' full_name' (serve_all platform later r.0)
      ≡ err (ApiError.http 400)
accept-once platform d d' plain password full_name password' full_name' db r later h =
    accept-refused platform plain d' password' full_name' (serve_all platform later r.0) (
      serve_all-IsFinalized platform plain later r.0
        (accept-finalizes platform plain d password full_name db h))

-- An invitation that was revoked, which only the pending ones can be, cannot be accepted any more, whatever
-- invitations are created, revoked and accepted. The identifiers of invitations are keys.
pub revoke-refused :
    (platform : Platform) (d : Draw) (plain password full_name : String) (user : Claims)
    (i : Invitation) (db db' : Db) (later : List (Draw × InvitationRequest))
    → filter (has_invitation_token (platform.sha256 plain)) db.invitations ≡ i ∷ []
    → find? (is_invitation i.id) db.invitations ≡ some i
    → revoke_invitation user i.id db ≡ ok db'
    → (i.status ≡ InvitationStatus.pending)
      × (accept_invitation platform d plain password full_name (serve_all platform later db')
          ≡ err (ApiError.http 400))
revoke-refused platform d plain password full_name user i db db' later single keyed h =
    let (i', found, pending, rows) = revoke-eq-ok user i.id db h in
    let e : i' ≡ i = ground arith in
    (
      is_pending_lem i.status (rw (← e) pending),
      accept-refused platform plain d password full_name (serve_all platform later db') (
          serve_all-IsFinalized platform plain later db'
            (revoke-finalizes platform plain user i db single keyed h)),
    )
