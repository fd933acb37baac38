-- ===== src/Identity/Isolation/Requests.antt =====
-- Each request on another organisation leaves an organisation as it is.
use apex_ai.Prelude.{
  find?-passes, ℕ, ◌≡◌, ◌∙◌, ◌+◌, refl, Bool, false, ◌||◌, Option, List, [], ◌∷◌, String, ◌==◌,
  ==_iff, nat_eq, string_eq, filter, find?, Result, ok, err, guard, >>=-eq-ok, ok-injective, All,
  arith,
}
use mathlib.Core.Path.{subst}
use apex_ai.Access.{OrgRole}
use apex_ai.Identity.{
  Org, Invitation, InvitationStatus, Db, Claims, Platform, Draw, kept, is_pending,
}
use apex_ai.Identity.Tables.{
  ApiError, require, insert_row, modify, filter-modify, filter-insert_row,
}
use apex_ai.Identity.Auth.Inversion.{guard_lem, require_lem}
use apex_ai.Identity.Orgs.{is_org, require_org_admin, create_org, update_org, delete_org, or_else}
use apex_ai.Identity.Invitations.{
  require_inviter, is_invitation, has_invitation_token, create_invitation, revoke_invitation,
}
use apex_ai.Identity.Isolation.{
  OrgRequest, creates_org, updates_org, deletes_org, creates_team, updates_team, deletes_team,
  invites, revokes, answer, answer_all, IsOutsider, IsUntouched, admin_elsewhere, inviter_elsewhere,
}
use apex_ai.Identity.Isolation.Teams.{
  teams_elsewhere, team_updates_elsewhere, team_deletes_elsewhere,
}

module _ (org_id : ℕ) (user : Claims) (db : Db)
    (outsider : IsOutsider org_id db.org_memberships user) where
  -- The organisation's rows of one table are the same.
  new_orgs :
      (orgs : List Org) {db' : Db}
      → filter (is_org org_id) orgs ≡ filter (is_org org_id) db.orgs
      → record db { orgs = orgs } ≡ db'
      → IsUntouched org_id db db'
  new_orgs orgs h e = subst (IsUntouched org_id db) e (h, refl, refl, refl, refl, refl)

  new_invitations :
      (invitations : List Invitation) {db' : Db}
      → filter (λ i. i.org_id == org_id) invitations
        ≡ filter (λ i. i.org_id == org_id) db.invitations
      → record db { invitations = invitations } ≡ db'
      → IsUntouched org_id db db'
  new_invitations invitations h e =
      subst (IsUntouched org_id db) e (refl, refl, h, refl, refl, refl)

  updates_elsewhere :
      (other : ℕ) (name status : Option String) {db' : Db}
      → update_org user other name status db ≡ ok db'
      → IsUntouched org_id db db'
  unfolding update_org
  updates_elsewhere other name status h =
      let (m, e1, h1) = >>=-eq-ok (require_org_admin db user other) _ h in
      let (org, e2, h2) =
        >>=-eq-ok (require (find? (is_org other) db.orgs) (ApiError.http 404)) _ h1 in
      let found = require_lem (find? (is_org other) db.orgs) (ApiError.http 404) e2 in
      let own : org.id ≡ other =
        (==_iff org.id other).0 (find?-passes (is_org other) db.orgs org found) in
      let differs : (org.id == org_id) ≡ false =
        rw own (admin_elsewhere org_id user db outsider other e1) in
      let change : Org → Org =
        λ o. record o { name = or_else name o.name; status = or_else status o.status } in
      new_orgs (modify (is_org other) change db.orgs)
        (filter-modify (is_org org_id) (is_org other) change db.orgs org found differs differs)
        (ok-injective h2)

  deletes_elsewhere :
      (other : ℕ) {db' : Db} → delete_org user other db ≡ ok db' → IsUntouched org_id db db'
  unfolding delete_org
  deletes_elsewhere other h =
      let (_, e1, h1) = >>=-eq-ok (guard user.is_platform_admin (ApiError.http 403)) _ h in
      let admin = guard_lem user.is_platform_admin (ApiError.http 403) e1 in
      absurd (cc (outsider.0))

  creates_elsewhere :
      (platform : Platform) (d : Draw) (slug name email full_name : String) {db' : Db}
      → create_org platform d user slug name email full_name db ≡ ok db'
      → IsUntouched org_id db db'
  unfolding create_org
  creates_elsewhere platform d slug name email full_name h = ground (arith, outsider.0)

  invites_elsewhere :
      (platform : Platform) (d : Draw) (other : ℕ) (email : String) (role : OrgRole)
      (team_ids : List ℕ) {db' : Db}
      → create_invitation platform d user other email role team_ids db ≡ ok db'
      → IsUntouched org_id db db'
  unfolding create_invitation
  invites_elsewhere platform d other email role team_ids h =
      let (_, e1, h1) = >>=-eq-ok (require_inviter db user other) _ h in
      let (org, e2, h2) =
        >>=-eq-ok (require (find? (is_org other) db.orgs) (ApiError.http 404)) _ h1 in
      let row : Invitation = record {
        id = d.new_id;
        org_id = other;
        email = email;
        role = role;
        team_ids = team_ids;
        token_hash = platform.sha256 d.plain;
        expires_at = d.now + platform.invite_ttl;
        status = InvitationStatus.pending;
        invited_by = user.sub;
      } in
      let clashes : Invitation → Bool =
        λ i. is_invitation d.new_id i || has_invitation_token (platform.sha256 d.plain) i in
      let (invitations, e3, h3) = >>=-eq-ok (insert_row clashes row db.invitations) _ h2 in
      new_invitations invitations
        (filter-insert_row (λ i. i.org_id == org_id) clashes row db.invitations e3
          (inviter_elsewhere org_id user db outsider other e1))
        (ok-injective h3)

  revokes_elsewhere :
      (id : ℕ) {db' : Db} → revoke_invitation user id db ≡ ok db' → IsUntouched org_id db db'
  unfolding revoke_invitation
  revokes_elsewhere id h =
      let (i, e1, h1) =
        >>=-eq-ok (require (find? (is_invitation id) db.invitations) (ApiError.http 404)) _ h in
      let (_, e2, h2) = >>=-eq-ok (require_inviter db user i.org_id) _ h1 in
      let (_, e3, h3) = >>=-eq-ok (guard (is_pending i.status) (ApiError.http 400)) _ h2 in
      let found = require_lem (find? (is_invitation id) db.invitations) (ApiError.http 404) e1 in
      let differs = inviter_elsewhere org_id user db outsider i.org_id e2 in
      let change : Invitation → Invitation = λ i. record i { status = InvitationStatus.revoked } in
      new_invitations (modify (is_invitation id) change db.invitations)
        (filter-modify (λ i. i.org_id == org_id) (is_invitation id) change db.invitations i found
          differs differs)
        (ok-injective h3)

  answer_elsewhere :
      (platform : Platform) (d : Draw) (request : OrgRequest) {db' : Db}
      → answer platform d user request db ≡ ok db'
      → IsUntouched org_id db db'
  unfolding answer
  answer_elsewhere platform d (creates_org slug name email full_name) h =
      creates_elsewhere platform d slug name email full_name h
  answer_elsewhere platform d (updates_org other name status) h =
      updates_elsewhere other name status h
  answer_elsewhere platform d (deletes_org other) h = deletes_elsewhere other h
  answer_elsewhere platform d (creates_team other name slug text) h =
      teams_elsewhere org_id user db outsider d other name slug text h
  answer_elsewhere platform d (updates_team other team_id name text) h =
      team_updates_elsewhere org_id user db outsider other team_id name text h
  answer_elsewhere platform d (deletes_team other team_id) h =
      team_deletes_elsewhere org_id user db outsider other team_id h
  answer_elsewhere platform d (invites other email role team_ids) h =
      invites_elsewhere platform d other email role team_ids h
  answer_elsewhere platform d (revokes id) h = revokes_elsewhere id h

  kept_elsewhere :
      (r : Result ApiError Db)
      → ((db' : Db) → r ≡ ok db' → IsUntouched org_id db db')
      → IsUntouched org_id db (kept (λ db'. db') db r)
  kept_elsewhere (ok db') h = h db' refl
  kept_elsewhere (err e) h = (refl, refl, refl, refl, refl, refl)

IsUntouched-trans :
    (org_id : ℕ) (a b c : Db)
    → IsUntouched org_id a b
    → IsUntouched org_id b c
    → IsUntouched org_id a c
IsUntouched-trans org_id a b c h k =
    (k.0 ∙ h.0, k.1 ∙ h.1, k.2 ∙ h.2, k.3 ∙ h.3, k.4 ∙ h.4, k.5 ∙ h.5)

-- Users who administer neither the platform nor an organisation may ask, in any order, to create, change
-- and delete organisations and teams, and to create and revoke invitations, of any organisation: the row
-- of that one, its teams and its invitations stay as they are, and so do all users and memberships.
pub answer_all-IsUntouched :
    (platform : Platform) (org_id : ℕ) (requests : List (Draw × Claims × OrgRequest)) (db : Db)
    → All (λ r. IsOutsider org_id db.org_memberships r.1) requests
    → IsUntouched org_id db (answer_all platform requests db)
answer_all-IsUntouched platform org_id [] db h = (refl, refl, refl, refl, refl, refl)
answer_all-IsUntouched platform org_id ((d, user, request) ∷ rest) db h =
    let next : Db = kept (λ db'. db') db (answer platform d user request db) in
    let one : IsUntouched org_id db next =
      kept_elsewhere org_id user db h.0 (answer platform d user request db)
        (λ db' e. answer_elsewhere org_id user db h.0 platform d request e) in
    let still : All (λ r. IsOutsider org_id next.org_memberships r.1) rest = rw (one.3) (h.1) in
    IsUntouched-trans org_id db next (answer_all platform rest next) one
      (answer_all-IsUntouched platform org_id rest next still)
