-- ===== src/Tasks/Descendants/Closure.antt =====
-- The rounds end with every task below the root.
use apex_ai.Prelude.{
  ℕ, suc, zero, ◌≤◌, ◌<◌, ◌≡◌, ◌∙◌, refl, sym, ap, inl, inr, ◌⊎◌, true, false, not, List, [], ◌∷◌,
  ◌++◌, ==_refl, nat_eq, filter, contains, length, List-cases, Bool-cases, Option-cases, arith,
}
use mathlib.Core.List.{Memᴰ}
use mathlib.Core.Path.{subst}
use apex_ai.Tasks.{Task}
use apex_ai.Tasks.Descendants.{is_child, is_new_child, next_round, rounds}
use apex_ai.Tasks.Descendants.Reach.{
  Descends, here, child, contains-append, contains_ids, ids_contain,
}

-- How many rows were not found yet.
abbrev pub unseen : List ℕ → List Task → ℕ
unseen ids tasks = length (filter (λ t. not (contains ids t.id)) tasks)

unseen_le :
    (found next : List ℕ) (tasks : List Task) → unseen (found ++ next) tasks ≤ unseen found tasks
unseen_le found next [] = omega arith
unseen_le found next (t ∷ tasks) =
    ground (arith, unseen_le found next tasks, contains-append t.id found next)

unseen_lt :
    (found next : List ℕ) (tasks : List Task) (t : Task)
    → Memᴰ t tasks
    → contains found t.id ≡ false
    → contains next t.id ≡ true
    → unseen (found ++ next) tasks < unseen found tasks
unseen_lt found next [] t m old new = elim m [ ]
unseen_lt found next (x ∷ tasks) t (Memᴰ.head e) old new =
    let o : contains found x.id ≡ false = rw (← e) old in
    let n : contains next x.id ≡ true = rw (← e) new in
    ground (arith, unseen_le found next tasks, contains-append x.id found next)
unseen_lt found next (x ∷ tasks) t (Memᴰ.tail m) old new =
    ground (arith, unseen_lt found next tasks t m old new, contains-append x.id found next)

module _ (tasks : List Task) where
  -- The children of what was found were found too, or are children of the last round.
  abbrev pub IsPending : List ℕ → List ℕ → Type 0
  IsPending found last =
      (t : Task)
      → Memᴰ t tasks
      → is_child found t.parent_id ≡ true
      → (is_child last t.parent_id ≡ true) ⊎ (contains found t.id ≡ true)

  abbrev pub IsClosed : List ℕ → Type 0
  IsClosed found =
      (t : Task) → Memᴰ t tasks → is_child found t.parent_id ≡ true → contains found t.id ≡ true

  next_round-IsPending :
      (found last : List ℕ)
      → IsPending found last
      → IsPending (found ++ next_round tasks found last) (next_round tasks found last)
  unfolding next_round
  next_round-IsPending found last pending t m e = elim (Option-cases t.parent_id) [
    | inl root ↦ let e' = rw (root) at e in cc
    | inr (p, up) ↦
        let next = next_round tasks found last in
        let e' : contains (found ++ next) p ≡ true = rw (up) at e in
        elim (Bool-cases (contains next p)) [
          | inl late ↦ inl (rw up late)
          | inr early ↦
              let old : is_child found t.parent_id ≡ true =
                rw (up) (ground (arith, contains-append p found next)) in
              elim (Bool-cases (contains found t.id)) [
                | inl known ↦ inr (ground (arith, contains-append t.id found next))
                | inr unknown ↦ elim (pending t m old) [
                  | inr known ↦ inr (ground (arith, contains-append t.id found next))
                  | inl of_last ↦
                      let new : contains next t.id ≡ true =
                        contains_ids (is_new_child found last) tasks t m (ground arith) in
                      inr (ground (arith, contains-append t.id found next))
                ]
              ]
        ]
  ]

  rounds-nil : (fuel : ℕ) (found : List ℕ) → rounds fuel tasks found [] ≡ found
  unfolding rounds
  rounds-nil zero found = refl
  rounds-nil (suc fuel) found = refl

  nil-IsClosed : (found : List ℕ) → IsPending found [] → IsClosed found
  nil-IsClosed found pending t m e = elim (pending t m e) [
    | inr known ↦ known
    | inl none_left ↦ elim (Option-cases t.parent_id) [
      | inl root ↦ let e' = rw (root) at e in cc
      | inr (p, up) ↦ let e' = rw (up) at none_left in cc
    ]
  ]

  -- A round that finds something leaves fewer rows.
  next_round-unseen :
      (found last rest : List ℕ) (a : ℕ)
      → next_round tasks found last ≡ a ∷ rest
      → unseen (found ++ next_round tasks found last) tasks < unseen found tasks
  unfolding next_round
  next_round-unseen found last rest a e =
      let next = next_round tasks found last in
      let hit : contains next a ≡ true = rw (e, ==_refl a) in
      let (t, m, p, own) = ids_contain (is_new_child found last) tasks a hit in
      unseen_lt found next tasks t m (ground arith) (rw own hit)

  pub rounds-IsClosed :
      (fuel : ℕ) (found last : List ℕ)
      → IsPending found last
      → unseen found tasks < fuel
      → IsClosed (rounds fuel tasks found last)
  unfolding rounds
  rounds-IsClosed zero found last pending h = absurd (omega arith)
  rounds-IsClosed (suc fuel) found [] pending h = nil-IsClosed found pending
  rounds-IsClosed (suc fuel) found (id ∷ ids) pending h =
      let next = next_round tasks found (id ∷ ids) in
      let after = next_round-IsPending found (id ∷ ids) pending in
      elim (List-cases next) [
        | inl done ↦
            let stays : rounds fuel tasks (found ++ next) next ≡ found ++ next =
              ap (rounds fuel tasks (found ++ next)) done ∙ rounds-nil fuel (found ++ next) in
            subst IsClosed (sym stays)
              (nil-IsClosed (found ++ next) (subst (IsPending (found ++ next)) done after))
        | inr (a, rest, more) ↦
            rounds-IsClosed fuel (found ++ next) next after
              (omega (arith, next_round-unseen found (id ∷ ids) rest a more))
      ]

  pub rounds-found :
      (fuel : ℕ) (found last : List ℕ) (a : ℕ)
      → contains found a ≡ true
      → contains (rounds fuel tasks found last) a ≡ true
  unfolding rounds
  rounds-found zero found last a h = h
  rounds-found (suc fuel) found [] a h = h
  rounds-found (suc fuel) found (id ∷ ids) a h =
      let next = next_round tasks found (id ∷ ids) in
      rounds-found fuel (found ++ next) next a (ground (arith, contains-append a found next))

  pub Descends-found :
      (root_id : ℕ) (found : List ℕ) {a : ℕ}
      → IsClosed found
      → contains found root_id ≡ true
      → Descends tasks root_id a
      → contains found a ≡ true
  Descends-found root_id found closed root here = root
  Descends-found root_id found closed root (child t m own up below) =
      let parent = Descends-found root_id found closed root below in
      rw (← own) (closed t m (rw up parent))
