-- ===== src/Identity/Tables/Spent.antt =====
-- A unique row that is done with: it stays so while rows are added and other rows change.
use apex_ai.Prelude.{
  find?-filter, find?-passes, ◌≡◌, ◌∙◌, ap, inl, inr, Bool, true, false, some, List, [], ◌∷◌,
  filter, any, find?, ok, Bool-cases, arith,
}
use apex_ai.Identity.Tables.{insert_row, modify, filter-insert_row, filter-modify}

module _ {ℓ} {A : Type ℓ} where
  -- Exactly one row passes `q`, and it is done with.
  abbrev pub Spent : (A → Bool) → (A → Bool) → List A → Type ℓ
  Spent q done xs = (t : A) × (filter q xs ≡ t ∷ []) × (done t ≡ true)

  pub any-filter : (q : A → Bool) (xs : List A) (t : A) → filter q xs ≡ t ∷ [] → any q xs ≡ true
  any-filter q [] t h = cc
  any-filter q (x ∷ xs) t h = ground (arith, any-filter q xs t)

  filter_found :
      (q p : A → Bool) (xs : List A) (x : A)
      → find? p xs ≡ some x
      → q x ≡ true
      → (rest : List A) × (y : A) × (filter q xs ≡ y ∷ rest)
  filter_found q p [] x found passes = cc
  filter_found q p (z ∷ xs) x found passes = elim (Bool-cases (q z)) [
    | inl hit ↦ (filter q xs, z, rw hit)
    | inr miss ↦ elim (Bool-cases (p z)) [
      | inl here ↦ let e : z ≡ x = ground arith in cc
      | inr there ↦ rw miss (filter_found q p xs x (rw (there) at found) passes)
    ]
  ]

  -- The row that is found and passes `q` is the only one that does.
  found_unique :
      (q p : A → Bool) (xs : List A) (x t : A)
      → find? p xs ≡ some x
      → q x ≡ true
      → filter q xs ≡ t ∷ []
      → x ≡ t
  found_unique q p [] x t found passes single = cc
  found_unique q p (z ∷ xs) x t found passes single = elim (Bool-cases (p z)) [
    | inl here ↦ ground arith
    | inr there ↦
        let later : find? p xs ≡ some x = rw (there) at found in
        elim (Bool-cases (q z)) [
          | inl hit ↦ let (rest, y, e) = filter_found q p xs x later passes in ground arith
          | inr miss ↦ found_unique q p xs x t later passes (rw (miss) at single)
        ]
  ]

  pub insert_row-Spent :
      (q done clashes : A → Bool) (row : A) (xs : List A) {ys : List A}
      → Spent q done xs
      → insert_row clashes row xs ≡ ok ys
      → (q row ≡ true → any q xs ≡ true → any clashes xs ≡ true)
      → Spent q done ys
  unfolding insert_row
  insert_row-Spent q done clashes row xs (t, single, ended) h same = elim (Bool-cases (q row)) [
    | inr other ↦ (t, filter-insert_row q clashes row xs h other ∙ single, ended)
    | inl hit ↦ let e = same hit (any-filter q xs t single) in ground arith
  ]

  pub modify-Spent :
      (q done p : A → Bool) (change : A → A) (xs : List A) (x : A)
      → Spent q done xs
      → find? p xs ≡ some x
      → done x ≡ false
      → q (change x) ≡ q x
      → Spent q done (modify p change xs)
  modify-Spent q done p change xs x (t, single, ended) found open_ keeps = elim (Bool-cases (q x)) [
    | inl hit ↦ let e = found_unique q p xs x t found hit single in cc
    | inr miss ↦ (t, filter-modify q p change xs x found miss (keeps ∙ miss) ∙ single, ended)
  ]

  filter-modify_self :
      (p : A → Bool) (change : A → A) (xs : List A) (x : A)
      → filter p xs ≡ x ∷ []
      → p (change x) ≡ true
      → filter p (modify p change xs) ≡ change x ∷ []
  filter-modify_self p change [] x single passes = cc
  filter-modify_self p change (y ∷ xs) x single passes = elim (Bool-cases (p y)) [
    | inl hit ↦
        let e : y ≡ x = ground arith in
        let r : filter p xs ≡ [] = ground arith in
        let a : p (change y) ≡ true = rw e passes in rw (hit, a, r) (ap (λ z. change z ∷ []) e)
    | inr miss ↦
        let ih = filter-modify_self p change xs x (rw (miss) at single) passes in
        rw (miss, ih, miss)
  ]

  pub modify-Spent_self :
      (p done : A → Bool) (change : A → A) (xs : List A) (x : A)
      → filter p xs ≡ x ∷ []
      → p (change x) ≡ true
      → done (change x) ≡ true
      → Spent p done (modify p change xs)
  modify-Spent_self p done change xs x single passes ended =
      (change x, filter-modify_self p change xs x single passes, ended)

  -- The row that is found passes `q` before and after its change.
  pub filter-modify_found :
      (q p : A → Bool) (change : A → A) (xs : List A) (x : A)
      → filter q xs ≡ x ∷ []
      → find? p xs ≡ some x
      → q (change x) ≡ q x
      → filter q (modify p change xs) ≡ change x ∷ []
  filter-modify_found q p change [] x single found keeps = cc
  filter-modify_found q p change (y ∷ xs) x single found keeps = elim (Bool-cases (p y)) [
    | inl hit ↦
        let e : y ≡ x = ground arith in
        let own : q x ≡ true = find?-passes q (y ∷ xs) x (find?-filter q (y ∷ xs) x [] single) in
        let own' : q y ≡ true = rw e own in
        let alone : filter q xs ≡ [] = ground arith in
        let a : q (change y) ≡ true = rw e (keeps ∙ own) in
        rw (hit, a, alone) (ap (λ z. change z ∷ []) e)
    | inr miss ↦
        let later : find? p xs ≡ some x = rw (miss) at found in
        elim (Bool-cases (q y)) [
          | inl here ↦ let e : y ≡ x = ground arith in let passes = find?-passes p xs x later in cc
          | inr there ↦
              let ih = filter-modify_found q p change xs x (rw (there) at single) later keeps in
              rw (miss, there) ih
        ]
  ]
