-- ===== src/Identity/Invitations/Accepts.antt =====
-- What the acceptance of an invitation changes.
use apex_ai.Prelude.{
  filter_none, filter_some, ℕ, ◌≡◌, ◌∙◌, refl, sym, ap, Bool, true, false, some, List, [], ◌∷◌,
  ◌++◌, String, ==_refl, nat_eq, string_eq, filter, any, all, ok, err, guard, >>=-eq-ok,
  filter-append, ok-injective, arith,
}
use apex_ai.Identity.{
  OrgMembership, MembershipStatus, Invitation, InvitationStatus, Db, Claims, Platform, Draw,
  add_user,
}
use apex_ai.Identity.Tables.{ApiError, one_or_none, require, modify, one_or_none-some}
use apex_ai.Identity.Auth.Inversion.{guard_lem, require_lem}
use apex_ai.Identity.Orgs.{is_team, is_membership, require_org_member}
use apex_ai.Identity.Invitations.{
  has_invitation_token, is_open, invited_user, joined, accept_invitation,
}

-- The acceptance adds or changes a user first, and no row of another table.
pub invited_user-tables :
    (platform : Platform) (d : Draw) (email password full_name : String) (db : Db) {user_id : ℕ}
    {db' : Db}
    → invited_user platform d email password full_name db ≡ ok (user_id, db')
    → (db'.org_memberships ≡ db.org_memberships)
      × (db'.invitations ≡ db.invitations)
      × (db'.teams ≡ db.teams)
unfolding invited_user add_user
invited_user-tables platform d email password full_name db h = ground arith

abbrev pub finalized : Invitation → Invitation
finalized i = record i { status = InvitationStatus.accepted }

pub accept-eq-ok :
    (platform : Platform) (d : Draw) (plain password full_name : String) (db : Db) {r : Db × ℕ}
    → accept_invitation platform d plain password full_name db ≡ ok r
    → (i : Invitation) × (filter (has_invitation_token (platform.sha256 plain)) db.invitations
        ≡ i ∷ [])
      × (is_open d.now i ≡ true)
      × (r.0.org_memberships ≡ db.org_memberships ++ joined d i r.1 ∷ [])
      × (r.0.invitations
          ≡ modify (has_invitation_token (platform.sha256 plain)) finalized db.invitations)
unfolding accept_invitation
accept-eq-ok platform d plain password full_name db {r} h =
    let has_hash = has_invitation_token (platform.sha256 plain) in
    let (found, e1, h1) = >>=-eq-ok (one_or_none (filter has_hash db.invitations)) _ h in
    let (i, e2, h2) = >>=-eq-ok (require found (ApiError.http 400)) _ h1 in
    let (_, e3, h3) = >>=-eq-ok (guard (is_open d.now i) (ApiError.http 400)) _ h2 in
    let (u, e4, h4) = >>=-eq-ok (invited_user platform d i.email password full_name db) _ h3 in
    let (_, e5, h5) =
      >>=-eq-ok
        (guard (all (λ team_id. any (is_team team_id) u.1.teams) i.team_ids)
          ApiError.integrity_error)
        _ h4 in
    let e : found ≡ some i = require_lem found (ApiError.http 400) e2 in
    let (members, invitations, teams) =
      invited_user-tables platform d i.email password full_name db e4 in
    let row = one_or_none-some has_hash db.invitations i (cc e) in
    let opened = guard_lem (is_open d.now i) (ApiError.http 400) e3 in
    let e6 = ok-injective h5 in
    let new_members : u.1.org_memberships ++ joined d i u.0 ∷ [] ≡ r.0.org_memberships =
      ap (λ r. r.0.org_memberships) e6 in
    let new_invitations : modify has_hash finalized u.1.invitations ≡ r.0.invitations =
      ap (λ r. r.0.invitations) e6 in
    let user_id : u.0 ≡ r.1 = ap (λ r. r.1) e6 in
    (
      i,
      row,
      opened,
      sym new_members
          ∙ ap (λ m. m ++ joined d i u.0 ∷ []) members
          ∙ ap (λ (n : ℕ). db.org_memberships ++ joined d i n ∷ []) user_id,
      sym new_invitations ∙ ap (λ x. modify has_hash finalized x) invitations,
    )

-- The query for a membership after one more row.
one_more :
    (p : OrgMembership → Bool) (xs : List OrgMembership) (m : OrgMembership)
    → p m ≡ true
    → filter p (xs ++ m ∷ []) ≡ filter p xs ++ m ∷ []
one_more p xs m h = filter-append p xs (m ∷ []) ∙ ap (λ t. filter p xs ++ t) (rw h)

several :
    (m : OrgMembership) (xs : List OrgMembership) (n : OrgMembership)
    → one_or_none ((m ∷ xs) ++ n ∷ []) ≡ err ApiError.multiple_results
several m [] n = refl
several m (x ∷ xs) n = refl

-- The user of an accepted invitation, if no administrator of the platform, is an active member of the organisation with the role of the invitation, if the
-- user had no membership there. A user who had one, of any status, has two from then on, and every check for a
-- member of the organisation raises, since its query finds several rows.
pub accept-require_org_member :
    (platform : Platform) (d : Draw) (plain password full_name : String) (db : Db) (r : Db × ℕ)
    (current_user : Claims)
    → accept_invitation platform d plain password full_name db ≡ ok r
    → current_user.sub ≡ r.1
    → current_user.is_platform_admin ≡ false
    → (i : Invitation) × (filter (has_invitation_token (platform.sha256 plain)) db.invitations
        ≡ i ∷ [])
      × (any (is_membership i.org_id r.1) db.org_memberships ≡ false
          → require_org_member r.0 current_user i.org_id
            ≡ ok (record {
              org_id = i.org_id;
              user_id = r.1;
              role = i.role;
              status = MembershipStatus.active;
              joined_at = some d.now;
            }))
      × (any (is_membership i.org_id r.1) db.org_memberships ≡ true
          → require_org_member r.0 current_user i.org_id ≡ err ApiError.multiple_results)
unfolding require_org_member
accept-require_org_member platform d plain password full_name db r current_user h sub ordinary =
    let (i, row, opened, members, invitations) =
      accept-eq-ok platform d plain password full_name db h in
    let is_own = is_membership i.org_id r.1 in
    let passes : is_own (joined d i r.1) ≡ true = rw (==_refl i.org_id, ==_refl r.1) in
    let query : filter is_own r.0.org_memberships
        ≡ filter is_own db.org_memberships ++ joined d i r.1 ∷ [] =
      ap (filter is_own) members ∙ one_more is_own db.org_memberships (joined d i r.1) passes in
    (
      i,
      row,
      λ new. rw (ordinary, sub, query, filter_none is_own db.org_memberships new),
      λ known.
          let (m, rest, e) = filter_some is_own db.org_memberships known in
          rw (ordinary, sub, query, e, several m rest (joined d i r.1)),
    )
