-- ===== src/Identity/Keys/Resolve.antt =====
-- Which secret `resolve_ai_key` of backend/app/api/v1/keys.py returns.
use apex_ai.Prelude.{
  ℕ, ◌≡◌, ◌∙◌, refl, ap, inl, inr, ◌⊎◌, Bool, true, false, none, some, List, [], ◌∷◌, ◌++◌, String,
  ==_iff, ==_refl, nat_eq, string_eq, filter, any, Result, ok, err, List-cases, Bool-cases, arith,
}
use mathlib.Core.List.{Memᴰ}
use mathlib.Core.Path.{subst}
use apex_ai.Identity.{Claims}
use apex_ai.Identity.Tables.{ApiError, insert_row}
use apex_ai.Identity.Keys.{
  ai_keys, Owner, org, user, VaultPath, Credential, KeyStore, owned_by, set_rows, set_secret,
  new_owner, has_credential_id, create_credential, serves, key_of, read_secret, resolve_ai_key,
}

module _ {ℓ} {A : Type ℓ} (q : A → Bool) where
  any_mem : (xs : List A) (x : A) → Memᴰ x xs → q x ≡ true → any q xs ≡ true
  any_mem [] x m h = elim m [ ]
  any_mem (y ∷ xs) x (Memᴰ.head e) h = rw (← e, h)
  any_mem (y ∷ xs) x (Memᴰ.tail m) h = ground (arith, any_mem xs x m h)

  filter_mem : (xs : List A) (x : A) → Memᴰ x (filter q xs) → Memᴰ x xs × (q x ≡ true)
  filter_mem [] x m = elim m [ ]
  filter_mem (y ∷ xs) x m = elim (Bool-cases (q y)) [
    | inr miss ↦ let (k, p) = filter_mem xs x (rw (miss) at m) in (Memᴰ.tail k, p)
    | inl hit ↦
        let m' : Memᴰ x (y ∷ filter q xs) = rw (hit) at m in
        elim m' [
          | Memᴰ.head e ↦ (Memᴰ.head e, rw e hit)
          | Memᴰ.tail rest ↦ let (k, p) = filter_mem xs x rest in (Memᴰ.tail k, p)
        ]
  ]

  filter_empty : (xs : List A) → filter q xs ≡ [] → any q xs ≡ false
  filter_empty [] h = refl
  filter_empty (y ∷ xs) h = ground (arith, filter_empty xs)

mem_last {ℓ} : {A : Type ℓ} (xs : List A) (x : A) → Memᴰ x (xs ++ x ∷ [])
mem_last [] x = Memᴰ.head refl
mem_last (y ∷ xs) x = Memᴰ.tail (mem_last xs x)

mem_snoc {ℓ} : {A : Type ℓ} (xs : List A) (y x : A) → Memᴰ x (xs ++ y ∷ []) → Memᴰ x xs ⊎ (x ≡ y)
mem_snoc [] y x (Memᴰ.head e) = inr e
mem_snoc [] y x (Memᴰ.tail m) = elim m [ ]
mem_snoc (z ∷ xs) y x (Memᴰ.head e) = inl (Memᴰ.head e)
mem_snoc (z ∷ xs) y x (Memᴰ.tail m) = elim (mem_snoc xs y x m) [
  | inl old ↦ inl (Memᴰ.tail old)
  | inr e ↦ inr e
]

-- The order of a query: it returns nothing new, and something if there is something.
pub record IsOrder (order : List Credential → List Credential) : Type 0 where
  pub only : (xs : List Credential) (k : Credential) → Memᴰ k (order xs) → Memᴰ k xs
  pub some_row : (xs : List Credential) → order xs ≡ [] → xs ≡ []

owned_by_lem : (a b : Owner) → owned_by a b ≡ true → a ≡ b
owned_by_lem (org a) (org b) h = ap org ((==_iff a b).0 h)
owned_by_lem (org a) (user b) h = cc
owned_by_lem (user a) (org b) h = cc
owned_by_lem (user a) (user b) h = ap user ((==_iff a b).0 h)

owned_by_refl : (a : Owner) → owned_by a a ≡ true
owned_by_refl (org a) = ==_refl a
owned_by_refl (user a) = ==_refl a

serves_lem :
    (owner : Owner) (provider : String) (k : Credential)
    → serves owner provider k ≡ true
    → (k.owner ≡ owner) × (k.provider ≡ provider) × (k.is_active ≡ true)
serves_lem owner provider k h = (
  owned_by_lem k.owner owner (ground arith),
  (==_iff k.provider provider).0 (ground arith),
  ground arith,
)

-- A key that answers for the user, or for the organisation.
abbrev pub IsResolved : (org_id user_id : ℕ) → String → KeyStore → Credential → Type 0
IsResolved org_id user_id provider s k =
    Memᴰ k (s.rows ai_keys)
    × (k.provider ≡ provider)
    × (k.is_active ≡ true)
    × ((k.owner ≡ user user_id)
        ⊎ ((k.owner ≡ org org_id)
            × (any (serves (user user_id) provider) (s.rows ai_keys) ≡ false)))

module _ (order : List Credential → List Credential) (sorted : IsOrder order) where
  key_of-cases :
      (owner : Owner) (provider : String) (s : KeyStore)
      → ((key_of order owner provider s ≡ none)
          × (any (serves owner provider) (s.rows ai_keys) ≡ false))
        ⊎ ((k : Credential) × (key_of order owner provider s ≡ some k)
            × Memᴰ k (s.rows ai_keys)
            × (serves owner provider k ≡ true))
  key_of-cases owner provider s =
      let own = filter (serves owner provider) (s.rows ai_keys) in
      elim (List-cases (order own)) [
        | inl empty ↦ inl (
          rw empty,
          filter_empty (serves owner provider) (s.rows ai_keys) (sorted.some_row own empty),
        )
        | inr (k, rest, e) ↦
            let first : Memᴰ k (order own) = rw (e) (Memᴰ.head refl) in
            let (m, p) =
              filter_mem (serves owner provider) (s.rows ai_keys) k (sorted.only own k first) in
            inr (k, rw e, m, p)
      ]

  read_secret_lem :
      (now : ℕ) (k : Credential) (s : KeyStore) {s' : KeyStore} {value : String}
      → read_secret order now k s ≡ (s', ok value)
      → s.vault k.vault_path ≡ some value
  unfolding read_secret
  read_secret_lem now k s h = ground arith

  resolves_lem :
      (now org_id user_id : ℕ) (provider : String) (s : KeyStore) {s' : KeyStore} {value : String}
      → resolve_ai_key order now org_id user_id provider s ≡ (s', ok value)
      → (k : Credential) × IsResolved org_id user_id provider s k
        × (s.vault k.vault_path ≡ some value)
  unfolding resolve_ai_key
  resolves_lem now org_id user_id provider s {s'} {value} h =
      elim (key_of-cases (user user_id) provider s) [
        | inr (k, found, m, p) ↦
            let h' : read_secret order now k s ≡ (s', ok value) = rw (found, resolve_ai_key) at h in
            let (own, named, active) = serves_lem (user user_id) provider k p in
            (k, (m, named, active, inl own), read_secret_lem now k s h')
        | inl (none_, no_key) ↦ elim (key_of-cases (org org_id) provider s) [
          | inl (none', _) ↦
              let h' : ◌≡◌ {A = KeyStore × Result ApiError String} (s, err (ApiError.http 404))
                  (s', ok value) =
                rw (none_, none', resolve_ai_key) at h in
              cc
          | inr (k, found, m, p) ↦
              let h' : read_secret order now k s ≡ (s', ok value) =
                rw (none_, found, resolve_ai_key) at h in
              let (own, named, active) = serves_lem (org org_id) provider k p in
              (k, (m, named, active, inr (own, no_key)), read_secret_lem now k s h')
        ]
      ]

  read_secret-ok :
      (now : ℕ) (k : Credential) (s : KeyStore) (value : String)
      → s.vault k.vault_path ≡ some value
      → (read_secret order now k s).1 ≡ ok value
  unfolding read_secret
  read_secret-ok now k s value h = rw (h, read_secret)

  module _ (new_id : ℕ) (current_user : Claims) (provider label value : String) (s : KeyStore) where
    abbrev new_path : VaultPath
    new_path = record { owner = user current_user.sub; folder = ai_keys; id = new_id }

    abbrev new_row : Credential
    new_row = record {
      id = new_id;
      owner = user current_user.sub;
      provider = provider;
      label = label;
      vault_path = new_path;
      is_active = true;
      last_used_at = none;
    }

    abbrev after_create : KeyStore
    after_create =
        set_rows ai_keys (s.rows ai_keys ++ new_row ∷ []) (set_secret new_path (some value) s)

    created :
        {s' : KeyStore} {row : Credential}
        → create_credential ai_keys true new_id current_user none provider label value s
          ≡ (s', ok row)
        → after_create ≡ s'
    unfolding create_credential new_owner insert_row
    created {s'} {row} h = elim (Bool-cases (any (has_credential_id new_id) (s.rows ai_keys))) [
      | inl clash ↦
          let h' : ◌≡◌ {A = KeyStore × Result ApiError Credential}
              (set_secret new_path (some value) s, err ApiError.integrity_error) (s', ok row) =
            rw (clash) at h in
          cc
      | inr new ↦
          let h' : ◌≡◌ {A = KeyStore × Result ApiError Credential} (after_create, ok new_row)
              (s', ok row) =
            rw (new) at h in
          ap (λ r. r.0) h'
    ]

    new_secret : after_create.vault new_path ≡ some value
    new_secret = rw (==_refl current_user.sub, ==_refl new_id)

    finds_new :
        (now org_id : ℕ)
        → any (serves (user current_user.sub) provider) (s.rows ai_keys) ≡ false
        → (resolve_ai_key order now org_id current_user.sub provider after_create).1 ≡ ok value
    unfolding resolve_ai_key
    finds_new now org_id no_key =
        let own = serves (user current_user.sub) provider in
        let passes : own new_row ≡ true = rw (==_refl current_user.sub, ==_refl provider) in
        elim (key_of-cases (user current_user.sub) provider after_create) [
          | inl (_, none_) ↦
              let hit =
                any_mem own (s.rows ai_keys ++ new_row ∷ []) new_row
                  (mem_last (s.rows ai_keys) new_row) passes in
              absurd (cc)
          | inr (k, found, m, p) ↦ elim (mem_snoc (s.rows ai_keys) new_row k m) [
            | inl old ↦ let hit = any_mem own (s.rows ai_keys) k old p in absurd (cc)
            | inr e ↦
                let secret : after_create.vault k.vault_path ≡ some value =
                  ap (λ (c : Credential). after_create.vault c.vault_path) e ∙ new_secret in
                rw (found, resolve_ai_key) (read_secret-ok now k after_create value secret)
          ]
        ]

-- A secret that is returned stands in the vault for an active key of the provider, which is the user's, or, if
-- the user has no active one, the organisation's. The order of the query may be any that returns rows of the
-- table, and some if there are some.
pub resolve_ai_key-owned :
    (order : List Credential → List Credential)
    → IsOrder order
    → (now org_id user_id : ℕ) (provider : String) (s s' : KeyStore) (value : String)
    → resolve_ai_key order now org_id user_id provider s ≡ (s', ok value)
    → (k : Credential) × IsResolved org_id user_id provider s k
      × (s.vault k.vault_path ≡ some value)
resolve_ai_key-owned order sorted now org_id user_id provider s s' value h =
    resolves_lem order sorted now org_id user_id provider s h

-- A user who had no active key of a provider and creates one gets its value back, in whatever organisation.
pub resolve_ai_key-create_credential :
    (order : List Credential → List Credential)
    → IsOrder order
    → (now new_id org_id : ℕ) (current_user : Claims) (provider label value : String)
      (s s' : KeyStore) (row : Credential)
    → create_credential ai_keys true new_id current_user none provider label value s ≡ (s', ok row)
    → any (serves (user current_user.sub) provider) (s.rows ai_keys) ≡ false
    → (resolve_ai_key order now org_id current_user.sub provider s').1 ≡ ok value
resolve_ai_key-create_credential order sorted now new_id org_id current_user provider label value s
      s' row h no_key =
    subst
      (λ (t : KeyStore). (resolve_ai_key order now org_id current_user.sub provider t).1 ≡ ok value)
      (created order sorted new_id current_user provider label value s h)
      (finds_new order sorted new_id current_user provider label value s now org_id no_key)
