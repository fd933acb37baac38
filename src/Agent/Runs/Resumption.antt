-- ===== src/Agent/Runs/Resumption.antt =====
-- What the loop is given when a run is resumed.
use apex_ai.Prelude.{
  ◌+◌, ◌≤◌, ◌<◌, ◌≡◌, ◌↔◌, ◌⊎◌, ◌∙◌, refl, ap, sym, inl, inr, List, [], ◌∷◌, ◌++◌, map, String, All,
  arith,
}
use mathlib.Core.List.{Memᴰ}
use mathlib.Core.List.Memᴰ
use apex_ai.Agent.Memory.{Message}
use apex_ai.Agent.Memory.Store.{Row, get_messages}
use apex_ai.Agent.Runs.{max_sequence, resumed_rows, resume_message}

abbrev pub IsSorted : List Row → Type 0
IsSorted [] = Unit
IsSorted (x ∷ xs) = All (λ (y : Row). x.sequence ≤ y.sequence) xs × IsSorted xs

-- `ORDER BY sequence`: these are the rows, in some order that their sequences increase in.
abbrev pub IsOrdered : List Row → List Row → Type 0
IsOrdered rows ordered = ((row : Row) → Memᴰ row ordered ↔ Memᴰ row rows) × IsSorted ordered

-- A row that is above all others stands last.
greatest_last :
    (m : Row) (xs : List Row)
    → IsSorted xs
    → ((x : Row) → Memᴰ x xs → (x.sequence < m.sequence) ⊎ (x ≡ m))
    → Memᴰ m xs
    → (older : List Row) × (xs ≡ older ++ m ∷ [])
greatest_last m [] sorted above h = elim h [ ]
greatest_last m (x ∷ []) sorted above (Memᴰ.head e) = ([], ap (λ t. t ∷ []) (sym e))
greatest_last m (x ∷ []) sorted above (Memᴰ.tail h) = elim h [ ]
greatest_last m (x ∷ y ∷ ys) (least, sorted) above h =
    let later : Memᴰ m (y ∷ ys) = elim h [
      | Memᴰ.tail i ↦ i
      | Memᴰ.head e ↦ elim (above y (Memᴰ.tail (Memᴰ.head refl))) [
        | inr same ↦ Memᴰ.head (sym same)
        | inl less ↦
            let absurd : ⊥ = omega (arith, less, least.0, ap (λ r. r.sequence) e) in elim absurd [ ]
      ]
    ] in
    let (older, split) = greatest_last m (y ∷ ys) sorted (λ z i. above z (Memᴰ.tail i)) later in
    (x ∷ older, ap (λ t. x ∷ t) split)

max_sequence-le : (rows : List Row) {x : Row} → Memᴰ x rows → x.sequence ≤ max_sequence rows
unfolding max_sequence
max_sequence-le [] h = elim h [ ]
max_sequence-le (row ∷ rows) {x} (Memᴰ.head e) = ground (arith, ap (λ r. r.sequence) e)
max_sequence-le (row ∷ rows) {x} (Memᴰ.tail h) = ground (arith, max_sequence-le rows h)

added_row : (rows : List Row) (m x : Row) → Memᴰ x (rows ++ m ∷ []) → Memᴰ x rows ⊎ (x ≡ m)
added_row [] m x (Memᴰ.head e) = inr e
added_row [] m x (Memᴰ.tail h) = elim h [ ]
added_row (r ∷ rows) m x (Memᴰ.head e) = inl (Memᴰ.head e)
added_row (r ∷ rows) m x (Memᴰ.tail h) = elim (added_row rows m x h) [
  | inl old ↦ inl (Memᴰ.tail old)
  | inr new ↦ inr new
]

map-append {ℓ κ} :
    {A : Type ℓ} {B : Type κ} (f : A → B) (xs ys : List A) → map f (xs ++ ys) ≡ map f xs ++ map f ys
map-append f [] ys = refl
map-append f (x ∷ xs) ys = ap (λ t. f x ∷ t) (map-append f xs ys)

-- Where the database returns the rows in the order of their sequences, the message that `resume_run` adds is
-- the last one of the conversation that is loaded.
resumed_rows-last :
    (by_sequence : List Row → List Row) (rows : List Row) (approval_comment : String)
    → let added = resumed_rows rows approval_comment in
      IsOrdered added (by_sequence added)
      → (older : List Message) × (get_messages by_sequence (resumed_rows rows approval_comment)
          ≡ older ++ resume_message approval_comment ∷ [])
unfolding get_messages resumed_rows
resumed_rows-last by_sequence rows comment (same, sorted) =
    let m : Row = record { sequence = max_sequence rows + 1; message = resume_message comment } in
    let above : (x : Row)
        → Memᴰ x (by_sequence (rows ++ m ∷ []))
        → (x.sequence < m.sequence) ⊎ (x ≡ m) =
      λ x h. elim (added_row rows m x ((same x).0 h)) [
        | inl old ↦ inl (omega (arith, max_sequence-le rows old))
        | inr new ↦ inr new
      ] in
    let (older, split) =
      greatest_last m (by_sequence (rows ++ m ∷ [])) sorted above
        ((same m).1 (Memᴰ.append_right rows (Memᴰ.head refl))) in
    (
      map (λ (r : Row). r.message) older,
      ap (map (λ (r : Row). r.message)) split ∙ map-append (λ (r : Row). r.message) older (m ∷ []),
    )
