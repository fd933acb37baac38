-- ===== src/Identity/Keys.antt =====
-- backend/app/api/v1/keys.py: AI keys and integration credentials. The two halves of the file differ in the
-- table, the folder of the vault and the name of one column, so both are instances of the same functions. The
-- vault is a dictionary by path; a path is made of its owner, its folder and the row's identifier.
pub mod Resolve
use apex_ai.Prelude.{
  ℕ, ◌≡◌, ◌↔◌, Bool, true, false, not, ◌&&◌, ◌||◌, Option, none, some, List, [], ◌∷◌, ◌++◌, String,
  Eq, ◌==◌, nat_eq, nat_beq, string_eq, if◌then◌else◌, filter, find?, Result, ok, err, guard, ◌>>=◌,
  ◌>>◌, arith,
}
use apex_ai.Access.{OrgRole, org_role_eq}
use apex_ai.Identity.{OrgMembership, is_active_status, Claims}
use apex_ai.Identity.Tables.{ApiError, one_or_none, require, insert_row, modify, remove_first}
use apex_ai.Identity.Orgs.{is_membership}

-- The two tables: `ApiKey` and `IntegrationCredential`, with their folders.
pub data Folder : Type 0 where
  ai_keys integrations : Folder

pub data Owner : Type 0 where
  org user : ℕ → Owner

pub record VaultPath : Type 0 where
  pub owner : Owner
  pub folder : Folder
  pub id : ℕ

-- A row; `provider` is the column `integration_type` of an integration. A row has exactly one owner.
pub record Credential : Type 0 where
  pub id : ℕ
  pub owner : Owner
  pub provider : String
  pub label : String
  pub vault_path : VaultPath
  pub is_active : Bool
  pub last_used_at : Option ℕ

-- The two tables and the vault.
pub record KeyStore : Type 0 where
  pub rows : Folder → List Credential
  pub vault : VaultPath → Option String
  pub org_memberships : List OrgMembership

abbrev pub folder_code : Folder → ℕ
folder_code ai_keys = 0
folder_code integrations = 1

abbrev pub is_folder : Folder → Folder → Bool
is_folder a b = nat_beq (folder_code a) (folder_code b)

abbrev pub owned_by : Owner → Owner → Bool
owned_by (org a) (org b) = a == b
owned_by (user a) (user b) = a == b
owned_by _ _ = false

abbrev pub same_path : VaultPath → VaultPath → Bool
same_path p q = owned_by p.owner q.owner && (is_folder p.folder q.folder && p.id == q.id)

abbrev pub set_rows : Folder → List Credential → KeyStore → KeyStore
set_rows folder new s = record s { rows = λ f. if is_folder folder f then new else s.rows f }

abbrev pub set_secret : VaultPath → Option String → KeyStore → KeyStore
set_secret path value s = record s { vault = λ p. if same_path path p then value else s.vault p }

-- `_require_org_admin`
unfoldable pub require_key_admin : KeyStore → Claims → ℕ → Result ApiError (Unit {0})
require_key_admin s current_user org_id = if current_user.is_platform_admin then ok tt else do
  membership ← one_or_none (
      filter
        (λ m.
          is_membership org_id current_user.sub m
          && (is_active_status m.status && m.role == OrgRole.admin))
        s.org_memberships)
  m ← require membership (ApiError.http 403)
  ok tt

-- The owner of a new row, and the check that it asks for.
unfoldable pub new_owner : KeyStore → Claims → Option ℕ → Result ApiError Owner
unfolding require_key_admin
new_owner s current_user none = ok (user current_user.sub)
new_owner s current_user (some org_id) = do require_key_admin s current_user org_id; ok (org org_id)

abbrev pub has_credential_id : ℕ → Credential → Bool
has_credential_id id k = k.id == id

-- `create_ai_key` and `create_integration`: the secret is written before the row; `writes` says whether the vault
-- takes it.
unfoldable pub create_credential :
    Folder
    → Bool
    → ℕ
    → Claims
    → Option ℕ
    → (provider label value : String) → KeyStore
    → KeyStore × Result ApiError Credential
create_credential folder writes new_id current_user org_id provider label value s =
    elim (new_owner s current_user org_id) [
      | err e ↦ (s, err e)
      | ok owner ↦
          let path : VaultPath = record { owner = owner; folder = folder; id = new_id } in
          let row : Credential = record {
            id = new_id;
            owner = owner;
            provider = provider;
            label = label;
            vault_path = path;
            is_active = true;
            last_used_at = none;
          } in
          let written = set_secret path (some value) s in
          if not writes
          then (s, err (ApiError.http 500))
          else elim (insert_row (has_credential_id new_id) row (s.rows folder)) [
            | err e ↦ (written, err e)
            | ok rows ↦ (set_rows folder rows written, ok row)
          ]
    ]

-- Whether a user may see or delete what an owner has; the error differs by the owner.
unfoldable pub may_manage : KeyStore → Claims → Owner → Result ApiError (Unit {0})
unfolding require_key_admin
may_manage s current_user (org org_id) = require_key_admin s current_user org_id
may_manage s current_user (user user_id) = guard (user_id == current_user.sub) (ApiError.http 403)

-- `list_ai_keys` and `list_integrations`, without their order.
unfoldable pub list_credentials :
    Folder → Claims → Option ℕ → KeyStore → Result ApiError (List Credential)
unfolding new_owner
list_credentials folder current_user org_id s = do
  owner ← new_owner s current_user org_id
  ok (filter (λ k. owned_by k.owner owner) (s.rows folder))

-- `delete_ai_key` and `delete_integration`; `deletes` says whether the vault deletes, its exceptions are ignored.
unfoldable pub delete_credential : Folder → Bool → ℕ → Claims → KeyStore → Result ApiError KeyStore
unfolding may_manage
delete_credential folder deletes id current_user s = do
  row ← require (find? (has_credential_id id) (s.rows folder)) (ApiError.http 404)
  may_manage s current_user row.owner
  let wiped = if deletes then set_secret row.vault_path none s else s
  ok (set_rows folder (remove_first (has_credential_id id) (s.rows folder)) wiped)

-- The handlers of the two tables.
abbrev pub create_ai_key :
    Bool
    → ℕ
    → Claims
    → Option ℕ
    → (provider label value : String) → KeyStore
    → KeyStore × Result ApiError Credential
create_ai_key = create_credential ai_keys

abbrev pub create_integration :
    Bool
    → ℕ
    → Claims
    → Option ℕ
    → (provider label value : String) → KeyStore
    → KeyStore × Result ApiError Credential
create_integration = create_credential integrations

abbrev pub list_ai_keys : Claims → Option ℕ → KeyStore → Result ApiError (List Credential)
list_ai_keys = list_credentials ai_keys

abbrev pub list_integrations : Claims → Option ℕ → KeyStore → Result ApiError (List Credential)
list_integrations = list_credentials integrations

abbrev pub delete_ai_key : Bool → ℕ → Claims → KeyStore → Result ApiError KeyStore
delete_ai_key = delete_credential ai_keys

abbrev pub delete_integration : Bool → ℕ → Claims → KeyStore → Result ApiError KeyStore
delete_integration = delete_credential integrations

-- An active key of an owner for a provider.
abbrev pub serves : Owner → String → Credential → Bool
serves owner provider k = owned_by k.owner owner && (k.provider == provider && k.is_active)

module _ (order : List Credential → List Credential) where
  -- `keys[0]`
  abbrev pub first_key : List Credential → Option Credential
  first_key [] = none
  first_key (k ∷ _) = some k

  abbrev pub key_of : Owner → String → KeyStore → Option Credential
  key_of owner provider s = first_key (order (filter (serves owner provider) (s.rows ai_keys)))

  -- The secret of a row, whose time of use is set first. A path that the vault does not hold raises.
  unfoldable pub read_secret : ℕ → Credential → KeyStore → KeyStore × Result ApiError String
  read_secret now k s =
      let used =
        set_rows ai_keys
          (modify (has_credential_id k.id) (λ r. record r { last_used_at = some now })
            (s.rows ai_keys))
          s in
      elim (s.vault k.vault_path) [
        | none ↦ (used, err (ApiError.http 500))
        | some value ↦ (used, ok value)
      ]

  -- `resolve_ai_key`
  unfoldable pub resolve_ai_key :
      ℕ → (org_id user_id : ℕ) → String → KeyStore → KeyStore × Result ApiError String
  unfolding read_secret
  resolve_ai_key now org_id user_id provider s = elim (key_of (user user_id) provider s) [
    | some k ↦ read_secret now k s
    | none ↦ elim (key_of (org org_id) provider s) [
      | some k ↦ read_secret now k s
      | none ↦ (s, err (ApiError.http 404))
    ]
  ]
