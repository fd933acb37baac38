-- ===== src/Tasks/Descendants/Reach.antt =====
-- What the rounds of the recursive query have found, and that a round finds all children.
use apex_ai.Prelude.{
  ℕ, suc, zero, ◌≡◌, refl, inl, inr, Bool, true, not, ◌&&◌, ◌||◌, some, List, [], ◌∷◌, ◌++◌, map,
  ◌==◌, ==_iff, ==_refl, nat_eq, filter, contains, Bool-cases, Option-cases, arith,
}
use mathlib.Core.List.{Memᴰ}
use apex_ai.Tasks.{Task}
use apex_ai.Tasks.Descendants.{id_of, is_new_child, next_round, rounds}

-- A task below the root, by the column `parent_id`.
pub data Descends (tasks : List Task) (root_id : ℕ) : ℕ → Type 0 where
  here : Descends tasks root_id root_id
  child :
      {parent_id id : ℕ} (t : Task)
      → Memᴰ t tasks
      → t.id ≡ id
      → t.parent_id ≡ some parent_id
      → Descends tasks root_id parent_id
      → Descends tasks root_id id

pub contains-append :
    (a : ℕ) (xs ys : List ℕ) → contains (xs ++ ys) a ≡ (contains xs a || contains ys a)
contains-append a [] ys = refl
contains-append a (x ∷ xs) ys = ground (arith, contains-append a xs ys)

pub contains_ids :
    (q : Task → Bool) (tasks : List Task) (t : Task)
    → Memᴰ t tasks
    → q t ≡ true
    → contains (map id_of (filter q tasks)) t.id ≡ true
contains_ids q [] t m h = elim m [ ]
contains_ids q (x ∷ xs) t (Memᴰ.head e) h = rw (← e, h, ==_refl t.id)
contains_ids q (x ∷ xs) t (Memᴰ.tail m) h = elim (Bool-cases (q x)) [
  | inl hit ↦ rw hit (ground (arith, contains_ids q xs t m h))
  | inr miss ↦ rw miss (contains_ids q xs t m h)
]

pub ids_contain :
    (q : Task → Bool) (tasks : List Task) (a : ℕ)
    → contains (map id_of (filter q tasks)) a ≡ true
    → (t : Task) × Memᴰ t tasks × (q t ≡ true) × (t.id ≡ a)
ids_contain q [] a h = cc
ids_contain q (x ∷ xs) a h = elim (Bool-cases (q x)) [
  | inr miss ↦ let (t, m, p, e) = ids_contain q xs a (rw (miss) at h) in (t, Memᴰ.tail m, p, e)
  | inl hit ↦
      let h' : (x.id == a || contains (map id_of (filter q xs)) a) ≡ true = rw (hit) at h in
      elim (Bool-cases (x.id == a)) [
        | inl same ↦ (x, Memᴰ.head refl, hit, (==_iff x.id a).0 same)
        | inr other ↦ let (t, m, p, e) = ids_contain q xs a (ground arith) in (t, Memᴰ.tail m, p, e)
      ]
]

module _ (tasks : List Task) (root_id : ℕ) where
  -- All identifiers are below the root.
  abbrev pub AllDescend : List ℕ → Type 0
  AllDescend ids = (a : ℕ) → contains ids a ≡ true → Descends tasks root_id a

  pub append-AllDescend : (xs ys : List ℕ) → AllDescend xs → AllDescend ys → AllDescend (xs ++ ys)
  append-AllDescend xs ys h k a e = elim (Bool-cases (contains xs a)) [
    | inl left ↦ h a left
    | inr right ↦ k a (ground (arith, contains-append a xs ys))
  ]

  pub next_round-AllDescend :
      (found last : List ℕ) → AllDescend last → AllDescend (next_round tasks found last)
  unfolding next_round
  next_round-AllDescend found last h a e =
      let (t, m, p, own) = ids_contain (is_new_child found last) tasks a e in
      elim (Option-cases t.parent_id) [
        | inl none_ ↦ let p' = rw (none_) at p in cc
        | inr (parent, up) ↦
            let p' : (contains last parent && not (contains found t.id)) ≡ true = rw (up) at p in
            child t m own up (h parent (ground arith))
      ]

  pub rounds-AllDescend :
      (fuel : ℕ) (found last : List ℕ)
      → AllDescend found
      → AllDescend last
      → AllDescend (rounds fuel tasks found last)
  unfolding rounds
  rounds-AllDescend zero found last h k = h
  rounds-AllDescend (suc fuel) found [] h k = h
  rounds-AllDescend (suc fuel) found (id ∷ ids) h k =
      let next = next_round tasks found (id ∷ ids) in
      let below = next_round-AllDescend found (id ∷ ids) k in
      rounds-AllDescend fuel (found ++ next) next (append-AllDescend found next h below) below
