-- ===== src/Identity/Isolation.antt =====
-- Organisations do not reach one another through the handlers of backend/app/api/v1/orgs.py and
-- backend/app/api/v1/invitations.py.
pub mod Teams
pub mod Requests
use apex_ai.Prelude.{
  find?-filter, find?-passes, ℕ, ◌≡◌, ◌∙◌, refl, sym, ap, inl, inr, Bool, true, false, not, ◌&&◌,
  ◌||◌, Option, none, some, List, [], ◌∷◌, ◌++◌, String, ◌==◌, ==_iff, nat_eq, string_eq,
  if◌then◌else◌, filter, any, all, find?, Result, ok, err, guard, ◌>>=◌, ◌>>◌, >>=-eq-ok,
  Bool-cases, Result-cases, All, arith,
}
use apex_ai.Access.{OrgRole, org_role_eq, org_role-beq_iff}
use apex_ai.Identity.{
  Org, Team, OrgMembership, Invitation, is_active_status, Db, Claims, Platform, Draw, kept,
  is_pending, InvitationStatus,
}
use apex_ai.Identity.Tables.{
  ApiError, one_or_none, require, insert_row, modify, remove_first, one_or_none-some, filter-modify,
  filter-remove_first, filter-insert_row,
}
use apex_ai.Identity.Tables.Spent.{any-filter}
use apex_ai.Identity.Auth.Inversion.{guard_lem, require_lem}
use apex_ai.Identity.Orgs.{
  is_org, is_team, is_membership, require_org_member, require_org_admin, create_org, update_org,
  delete_org, create_team, team_in_org, update_team, delete_team, or_else,
}
use apex_ai.Identity.Invitations.{
  require_inviter, is_invitation, has_invitation_token, create_invitation, revoke_invitation,
}

-- The requests on organisations, teams and invitations.
pub data OrgRequest : Type 0 where
  creates_org : (slug name admin_email admin_full_name : String) → OrgRequest
  updates_org : ℕ → (name status : Option String) → OrgRequest
  deletes_org : ℕ → OrgRequest
  creates_team : ℕ → (name slug : String) → Option String → OrgRequest
  updates_team : (org_id team_id : ℕ) → (name description : Option String) → OrgRequest
  deletes_team : (org_id team_id : ℕ) → OrgRequest
  invites : ℕ → String → OrgRole → List ℕ → OrgRequest
  revokes : ℕ → OrgRequest

unfoldable pub answer : Platform → Draw → Claims → OrgRequest → Db → Result ApiError Db
answer platform d user (creates_org slug name email full_name) db =
    create_org platform d user slug name email full_name db
answer platform d user (updates_org org_id name status) db = update_org user org_id name status db
answer platform d user (deletes_org org_id) db = delete_org user org_id db
answer platform d user (creates_team org_id name slug text) db =
    create_team d user org_id name slug text db
answer platform d user (updates_team org_id team_id name text) db =
    update_team user org_id team_id name text db
answer platform d user (deletes_team org_id team_id) db = delete_team user org_id team_id db
answer platform d user (invites org_id email role team_ids) db =
    create_invitation platform d user org_id email role team_ids db
answer platform d user (revokes invitation_id) db = revoke_invitation user invitation_id db

abbrev pub answer_all : Platform → List (Draw × Claims × OrgRequest) → Db → Db
answer_all platform [] db = db
answer_all platform ((d, user, request) ∷ rest) db =
    answer_all platform rest (kept (λ db'. db') db (answer platform d user request db))

-- An active administrator of the organisation.
abbrev pub is_admin_row : ℕ → ℕ → OrgMembership → Bool
is_admin_row org_id user_id m =
    is_membership org_id user_id m && (is_active_status m.status && m.role == OrgRole.admin)

-- Neither a platform administrator nor an active administrator of the organisation.
abbrev pub IsOutsider : ℕ → List OrgMembership → Claims → Type 0
IsOutsider org_id memberships user =
    (user.is_platform_admin ≡ false) × (any (is_admin_row org_id user.sub) memberships ≡ false)

-- What belongs to the organisation is the same, and so are all users and memberships.
abbrev pub IsUntouched : ℕ → Db → Db → Type 0
IsUntouched org_id db db' =
    (filter (is_org org_id) db'.orgs ≡ filter (is_org org_id) db.orgs)
    × (filter (λ t. t.org_id == org_id) db'.teams ≡ filter (λ t. t.org_id == org_id) db.teams)
    × (filter (λ i. i.org_id == org_id) db'.invitations
        ≡ filter (λ i. i.org_id == org_id) db.invitations)
    × (db'.org_memberships ≡ db.org_memberships)
    × (db'.team_memberships ≡ db.team_memberships)
    × (db'.users ≡ db.users)

any_of_filter {ℓ} :
    {A : Type ℓ} (p q : A → Bool) (xs : List A) (x : A) (rest : List A)
    → filter p xs ≡ x ∷ rest
    → q x ≡ true
    → any (λ y. p y && q y) xs ≡ true
any_of_filter p q [] x rest h passes = cc
any_of_filter p q (y ∷ xs) x rest h passes = elim (Bool-cases (p y)) [
  | inl hit ↦ let e : y ≡ x = ground arith in let b : q y ≡ true = rw e passes in rw (hit, b)
  | inr miss ↦ rw miss (any_of_filter p q xs x rest (rw (miss) at h) passes)
]

module _ (user_id : ℕ) where
  -- Both handlers ask for the same rows.
  any_admin :
      (org_id : ℕ) (xs : List OrgMembership)
      → any
          (λ m.
            is_membership org_id user_id m && is_active_status m.status && m.role == OrgRole.admin)
          xs
        ≡ any (is_admin_row org_id user_id) xs
  any_admin org_id [] = refl
  any_admin org_id (m ∷ xs) = ground (arith, any_admin org_id xs)

module _ (org_id : ℕ) (user : Claims) (db : Db)
    (outsider : IsOutsider org_id db.org_memberships user) where
  other_org :
      (other : ℕ) (m : OrgMembership)
      → one_or_none (filter (is_membership other user.sub) db.org_memberships) ≡ ok (some m)
      → is_active_status m.status ≡ true
      → (m.role == OrgRole.admin) ≡ true
      → (other == org_id) ≡ false
  other_org other m found active admin = elim (Bool-cases (other == org_id)) [
    | inr differs ↦ differs
    | inl same ↦
        let e : other ≡ org_id = (==_iff other org_id).0 same in
        let row = one_or_none-some (is_membership other user.sub) db.org_memberships m found in
        let hit : any (is_admin_row other user.sub) db.org_memberships ≡ true =
          any_of_filter (is_membership other user.sub)
            (λ m. is_active_status m.status && m.role == OrgRole.admin) db.org_memberships m [] row
            (ground arith) in
        let hit' : any (is_admin_row org_id user.sub) db.org_memberships ≡ true = rw (← e) hit in cc
  ]

  member_row :
      (other : ℕ) {m : OrgMembership}
      → require_org_member db user other ≡ ok m
      → (one_or_none (filter (is_membership other user.sub) db.org_memberships) ≡ ok (some m))
        × (is_active_status m.status ≡ true)
  unfolding require_org_member
  member_row other {m} h =
      let h' = rw (outsider.0) at h in
      let (found, e1, h1) =
        >>=-eq-ok (one_or_none (filter (is_membership other user.sub) db.org_memberships)) _ h' in
      let (m', e2, h2) = >>=-eq-ok (require found (ApiError.http 403)) _ h1 in
      let (_, e3, h3) = >>=-eq-ok (guard (is_active_status m'.status) (ApiError.http 403)) _ h2 in
      let active = guard_lem (is_active_status m'.status) (ApiError.http 403) e3 in
      let e : m' ≡ m = cc in (cc (require_lem found (ApiError.http 403) e2), rw (← e) active)

  pub admin_elsewhere :
      (other : ℕ) {m : OrgMembership}
      → require_org_admin db user other ≡ ok m
      → (other == org_id) ≡ false
  unfolding require_org_admin
  admin_elsewhere other {m} h =
      let (m', e1, h1) = >>=-eq-ok (require_org_member db user other) _ h in
      let (_, e2, h2) =
        >>=-eq-ok (guard (m'.role == OrgRole.admin || user.is_platform_admin) (ApiError.http 403)) _
          h1 in
      let (row, active) = member_row other e1 in
      let admin =
        guard_lem (m'.role == OrgRole.admin || user.is_platform_admin) (ApiError.http 403) e2 in
      other_org other m' row active (ground (arith, outsider.0))

  pub inviter_elsewhere :
      (other : ℕ) {u : Unit {0}} → require_inviter db user other ≡ ok u → (other == org_id) ≡ false
  unfolding require_inviter
  inviter_elsewhere other h =
      let h' = rw (outsider.0) at h in
      let active_row : OrgMembership → Bool =
        λ m. is_membership other user.sub m && is_active_status m.status in
      let (found, e1, h1) = >>=-eq-ok (one_or_none (filter active_row db.org_memberships)) _ h' in
      let (m, e2, h2) = >>=-eq-ok (require found (ApiError.http 403)) _ h1 in
      let e : found ≡ some m = require_lem found (ApiError.http 403) e2 in
      let row = one_or_none-some active_row db.org_memberships m (cc e) in
      let admin = guard_lem (m.role == OrgRole.admin) (ApiError.http 403) h2 in
      elim (Bool-cases (other == org_id)) [
        | inr differs ↦ differs
        | inl same ↦
            let e' : other ≡ org_id = (==_iff other org_id).0 same in
            let hit =
              any_of_filter active_row (λ m. m.role == OrgRole.admin) db.org_memberships m [] row
                admin in
            let hit' : any (is_admin_row other user.sub) db.org_memberships ≡ true =
              sym (any_admin user.sub other db.org_memberships) ∙ hit in
            let hit'' : any (is_admin_row org_id user.sub) db.org_memberships ≡ true =
              rw (← e') hit' in
            cc
      ]
