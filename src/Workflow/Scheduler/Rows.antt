-- ===== src/Workflow/Scheduler/Rows.antt =====
-- The rows of the schedules: identifiers are keys.
use apex_ai.Prelude.{
  ℕ, ◌≡◌, ◌∙◌, refl, inl, inr, Bool, false, ◌||◌, not, none, some, List, [], ◌∷◌, ◌++◌, ◌==◌,
  ==_iff, nat_eq, if◌then◌else◌, filter, any, find?, Bool-cases, arith,
}
use apex_ai.Workflow.Scheduler.{ScheduledProcess, is_schedule, with_enabled, change_row}

-- Identifiers are keys.
abbrev pub IsKeyed : List ScheduledProcess → Type 0
IsKeyed [] = Unit
IsKeyed (s ∷ rows) = (any (is_schedule s.id) rows ≡ false) × IsKeyed rows

pub find_none {ℓ} : {A : Type ℓ} (p : A → Bool) (xs : List A) → any p xs ≡ false → find? p xs ≡ none
find_none p [] h = refl
find_none p (x ∷ xs) h = ground (arith, find_none p xs)

-- What the changes of the table do to the row with an identifier.
module _ (k : ℕ) where
  pub find_append :
      (rows : List ScheduledProcess) (s : ScheduledProcess)
      → any (is_schedule s.id) rows ≡ false
      → find? (is_schedule k) (rows ++ s ∷ [])
        ≡ (if s.id == k then some s else find? (is_schedule k) rows)
  find_append [] s h = ground arith
  find_append (r ∷ rows) s h =
      ground (arith, find_append rows s, ==_iff r.id k, ==_iff s.id k, ==_iff r.id s.id)

  pub find_delete :
      (id : ℕ) (rows : List ScheduledProcess)
      → find? (is_schedule k) (filter (λ r. not (is_schedule id r)) rows)
        ≡ (if id == k then none else find? (is_schedule k) rows)
  find_delete id [] = ground arith
  find_delete id (r ∷ rows) =
      ground (arith, find_delete id rows, ==_iff r.id k, ==_iff r.id id, ==_iff id k)

  pub find_change :
      (id : ℕ) (enabled : Bool) (rows : List ScheduledProcess) (row : ScheduledProcess)
      → find? (is_schedule id) rows ≡ some row
      → find? (is_schedule k) (change_row id (with_enabled enabled) rows)
        ≡ (if id == k then some (with_enabled enabled row) else find? (is_schedule k) rows)
  unfolding change_row
  find_change id enabled [] row h = cc
  find_change id enabled (r ∷ rows) row h =
      ground (arith, find_change id enabled rows row, ==_iff r.id k, ==_iff r.id id, ==_iff id k)

  any_append :
      (rows : List ScheduledProcess) (s : ScheduledProcess)
      → any (is_schedule k) (rows ++ s ∷ []) ≡ (any (is_schedule k) rows || s.id == k)
  any_append [] s = ground arith
  any_append (r ∷ rows) s = ground (arith, any_append rows s)

  any_delete :
      (id : ℕ) (rows : List ScheduledProcess)
      → any (is_schedule k) rows ≡ false
      → any (is_schedule k) (filter (λ r. not (is_schedule id r)) rows) ≡ false
  any_delete id [] h = refl
  any_delete id (r ∷ rows) h = ground (arith, any_delete id rows)

  any_change :
      (id : ℕ) (enabled : Bool) (rows : List ScheduledProcess)
      → any (is_schedule k) (change_row id (with_enabled enabled) rows) ≡ any (is_schedule k) rows
  unfolding change_row
  any_change id enabled [] = refl
  any_change id enabled (r ∷ rows) = ground (arith, any_change id enabled rows)

pub append-IsKeyed :
    (rows : List ScheduledProcess) (s : ScheduledProcess)
    → IsKeyed rows
    → any (is_schedule s.id) rows ≡ false
    → IsKeyed (rows ++ s ∷ [])
append-IsKeyed [] s h new = (refl, tt)
append-IsKeyed (r ∷ rows) s (own, h) new = (
  any_append r.id rows s ∙ ground (arith, ==_iff r.id s.id, ==_iff s.id r.id),
  append-IsKeyed rows s h (ground arith),
)

pub delete-IsKeyed :
    (id : ℕ) (rows : List ScheduledProcess)
    → IsKeyed rows
    → IsKeyed (filter (λ r. not (is_schedule id r)) rows)
delete-IsKeyed id [] h = tt
delete-IsKeyed id (r ∷ rows) (own, h) = elim (Bool-cases (is_schedule id r)) [
  | inl hit ↦ rw hit (delete-IsKeyed id rows h)
  | inr miss ↦ rw miss (any_delete r.id id rows own, delete-IsKeyed id rows h)
]

pub change-IsKeyed :
    (id : ℕ) (enabled : Bool) (rows : List ScheduledProcess)
    → IsKeyed rows
    → IsKeyed (change_row id (with_enabled enabled) rows)
unfolding change_row
change-IsKeyed id enabled [] h = tt
change-IsKeyed id enabled (r ∷ rows) (own, h) = elim (Bool-cases (is_schedule id r)) [
  | inl hit ↦ rw hit (own, h)
  | inr miss ↦ rw miss (any_change r.id id enabled rows ∙ own, change-IsKeyed id enabled rows h)
]
