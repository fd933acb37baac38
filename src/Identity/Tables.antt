-- ===== src/Identity/Tables.antt =====
-- Tables as lists of rows, and the calls of a session that backend/app/api/v1/ makes on them.
pub mod Spent
use apex_ai.Prelude.{
  ℕ, ◌≡◌, refl, ap, inl, inr, Bool, true, false, not, Option, none, some, List, [], ◌∷◌, ◌++◌,
  if◌then◌else◌, filter, any, find?, Result, ok, err, guard, ◌>>=◌, ◌>>◌, Bool-cases, arith,
  filter-append, append-nil, find?-filter, find?-passes,
}

-- The exceptions of a handler: a status of HTTP, a query with several rows, a broken constraint.
pub data ApiError : Type 0 where
  http : ℕ → ApiError
  multiple_results : ApiError
  integrity_error : ApiError

module _ {ℓ} {A : Type ℓ} where
  -- `scalar_one_or_none`
  abbrev pub one_or_none : List A → Result ApiError (Option A)
  one_or_none [] = ok none
  one_or_none (x ∷ []) = ok (some x)
  one_or_none (x ∷ y ∷ xs) = err ApiError.multiple_results

  -- `if not row: raise`
  abbrev pub require : Option A → ApiError → Result ApiError A
  require none e = err e
  require (some row) e = ok row

  -- A new row, unless a unique column clashes.
  unfoldable pub insert_row : (A → Bool) → A → List A → Result ApiError (List A)
  insert_row clashes row rows =
      if any clashes rows then err ApiError.integrity_error else ok (rows ++ row ∷ [])

  -- The change of the row that a query has found: the first that passes.
  abbrev pub modify : (A → Bool) → (A → A) → List A → List A
  modify p change [] = []
  modify p change (x ∷ xs) =
      let rest = modify p change xs in if p x then change x ∷ xs else x ∷ rest

  -- `session.delete(row)`
  abbrev pub remove_first : (A → Bool) → List A → List A
  remove_first p [] = []
  remove_first p (x ∷ xs) = let rest = remove_first p xs in if p x then xs else x ∷ rest

module _ {ℓ} {A : Type ℓ} where
  pub one_or_none-some :
      (p : A → Bool) (xs : List A) (x : A)
      → one_or_none (filter p xs) ≡ ok (some x)
      → filter p xs ≡ x ∷ []
  one_or_none-some p xs x h = single (filter p xs) h
    where
      single : (ys : List A) → one_or_none ys ≡ ok (some x) → ys ≡ x ∷ []
      single [] h = cc
      single (y ∷ []) h = cc
      single (y ∷ z ∷ ys) h = cc

  -- The rows that pass `q` stay the same if the row that changes does not pass it, before and after.
  pub filter-modify :
      (q p : A → Bool) (change : A → A) (xs : List A) (x : A)
      → find? p xs ≡ some x
      → q x ≡ false
      → q (change x) ≡ false
      → filter q (modify p change xs) ≡ filter q xs
  filter-modify q p change [] x found before after = cc
  filter-modify q p change (y ∷ xs) x found before after = elim (Bool-cases (p y)) [
    | inl hit ↦
        let e : y ≡ x = ground arith in
        let b : q y ≡ false = rw e before in
        let a : q (change y) ≡ false = rw e after in rw (hit, b, a)
    | inr miss ↦
        let ih = filter-modify q p change xs x (rw (miss) at found) before after in rw (miss, ih)
  ]

  pub filter-remove_first :
      (q p : A → Bool) (xs : List A) (x : A)
      → find? p xs ≡ some x
      → q x ≡ false
      → filter q (remove_first p xs) ≡ filter q xs
  filter-remove_first q p [] x found before = cc
  filter-remove_first q p (y ∷ xs) x found before = elim (Bool-cases (p y)) [
    | inl hit ↦ let e : y ≡ x = ground arith in let b : q y ≡ false = rw e before in rw (hit, b)
    | inr miss ↦ let ih = filter-remove_first q p xs x (rw (miss) at found) before in rw (miss, ih)
  ]

  pub filter-insert_row :
      (q clashes : A → Bool) (row : A) (xs : List A) {ys : List A}
      → insert_row clashes row xs ≡ ok ys
      → q row ≡ false
      → filter q ys ≡ filter q xs
  unfolding insert_row
  filter-insert_row q clashes row xs {ys} h other = elim (Bool-cases (any clashes xs)) [
    | inl clash ↦ let e = rw (clash, insert_row) at h in cc
    | inr new ↦
        let e : xs ++ row ∷ [] ≡ ys = ground arith in
        rw (← e, filter-append q xs (row ∷ []), other, append-nil)
  ]
