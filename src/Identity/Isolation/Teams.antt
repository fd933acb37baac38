-- ===== src/Identity/Isolation/Teams.antt =====
-- Each request on the teams of another organisation leaves an organisation as it is.
use apex_ai.Prelude.{
  ℕ, ◌≡◌, refl, false, not, Option, none, some, List, String, ◌==◌, ==_iff, nat_eq, string_eq,
  filter, any, find?, ok, guard, >>=-eq-ok, ok-injective,
}
use mathlib.Core.Path.{subst}
use apex_ai.Identity.{Team, OrgMembership, Db, Claims, Draw}
use apex_ai.Identity.Tables.{
  ApiError, require, insert_row, modify, remove_first, filter-modify, filter-remove_first,
  filter-insert_row,
}
use apex_ai.Identity.Auth.Inversion.{guard_lem, require_lem}
use apex_ai.Identity.Orgs.{
  is_org, is_team, require_org_admin, create_team, team_in_org, update_team, delete_team, or_else,
}
use apex_ai.Identity.Isolation.{IsOutsider, IsUntouched, admin_elsewhere}

module _ (org_id : ℕ) (user : Claims) (db : Db)
    (outsider : IsOutsider org_id db.org_memberships user) where
  new_teams :
      (teams : List Team) {db' : Db}
      → filter (λ t. t.org_id == org_id) teams ≡ filter (λ t. t.org_id == org_id) db.teams
      → record db { teams = teams } ≡ db'
      → IsUntouched org_id db db'
  new_teams teams h e = subst (IsUntouched org_id db) e (refl, h, refl, refl, refl, refl)

  pub teams_elsewhere :
      (d : Draw) (other : ℕ) (name slug : String) (text : Option String) {db' : Db}
      → create_team d user other name slug text db ≡ ok db'
      → IsUntouched org_id db db'
  unfolding create_team
  teams_elsewhere d other name slug text h =
      let (m, e1, h1) = >>=-eq-ok (require_org_admin db user other) _ h in
      let team : Team = record {
        id = d.new_id;
        org_id = other;
        name = name;
        slug = slug;
        description = text;
        created_by = some user.sub;
      } in
      let (_, e2, h2) =
        >>=-eq-ok (guard (any (is_org other) db.orgs) ApiError.integrity_error) _ h1 in
      let (teams, e3, h3) = >>=-eq-ok (insert_row (is_team d.new_id) team db.teams) _ h2 in
      new_teams teams
        (filter-insert_row (λ t. t.org_id == org_id) (is_team d.new_id) team db.teams e3
          (admin_elsewhere org_id user db outsider other e1))
        (ok-injective h3)

  -- A team of another organisation.
  team_elsewhere :
      (other team_id : ℕ) {m : OrgMembership} {team : Team}
      → require_org_admin db user other ≡ ok m
      → team_in_org other team_id db ≡ ok team
      → (find? (is_team team_id) db.teams ≡ some team) × ((team.org_id == org_id) ≡ false)
  unfolding team_in_org
  team_elsewhere other team_id {m} {team} e h =
      let (t, e1, h1) =
        >>=-eq-ok (require (find? (is_team team_id) db.teams) (ApiError.http 404)) _ h in
      let (_, e2, h2) = >>=-eq-ok (guard (t.org_id == other) (ApiError.http 404)) _ h1 in
      let found = require_lem (find? (is_team team_id) db.teams) (ApiError.http 404) e1 in
      let own = (==_iff t.org_id other).0 (guard_lem (t.org_id == other) (ApiError.http 404) e2) in
      let same : t ≡ team = ok-injective h2 in
      let differs : (t.org_id == org_id) ≡ false =
        rw own (admin_elsewhere org_id user db outsider other e) in
      (cc, subst (λ (x : Team). (x.org_id == org_id) ≡ false) same differs)

  pub team_updates_elsewhere :
      (other team_id : ℕ) (name text : Option String) {db' : Db}
      → update_team user other team_id name text db ≡ ok db'
      → IsUntouched org_id db db'
  unfolding update_team
  team_updates_elsewhere other team_id name text h =
      let (m, e1, h1) = >>=-eq-ok (require_org_admin db user other) _ h in
      let (team, e2, h2) = >>=-eq-ok (team_in_org other team_id db) _ h1 in
      let (found, differs) = team_elsewhere other team_id e1 e2 in
      let described : Team → Option String =
        λ t. elim text [ none ↦ t.description | some new ↦ some new ] in
      let change : Team → Team =
        λ t. record t { name = or_else name t.name; description = described t } in
      new_teams (modify (is_team team_id) change db.teams)
        (filter-modify (λ t. t.org_id == org_id) (is_team team_id) change db.teams team found
          differs differs)
        (ok-injective h2)

  pub team_deletes_elsewhere :
      (other team_id : ℕ) {db' : Db}
      → delete_team user other team_id db ≡ ok db'
      → IsUntouched org_id db db'
  unfolding delete_team
  team_deletes_elsewhere other team_id h =
      let (m, e1, h1) = >>=-eq-ok (require_org_admin db user other) _ h in
      let (team, e2, h2) = >>=-eq-ok (team_in_org other team_id db) _ h1 in
      let (_, e3, h3) =
        >>=-eq-ok
          (guard (not (any (λ t. t.team_id == team_id) db.team_memberships))
            ApiError.integrity_error)
          _ h2 in
      let (found, differs) = team_elsewhere other team_id e1 e2 in
      new_teams (remove_first (is_team team_id) db.teams)
        (filter-remove_first (λ t. t.org_id == org_id) (is_team team_id) db.teams team found
          differs)
        (ok-injective h3)
