-- ===== src/Agent/Parser/Braces.antt =====
-- The scan for balanced braces in backend/app/agent/tool_parser.py: what the last tier returns.
use apex_ai.Prelude.{
  ℕ, ◌+◌, ◌<◌, ◌≡◌, refl, ap, sym, ◌≢◌, ◌⊎◌, true, false, ◌&&◌, ◌||◌, false≢true, ==_iff, Option,
  none, some, [], ◌∷◌, ◌++◌, ◌==◌, nat_eq, if◌then◌else◌, Bool-cases, Option-cases, inl, inr, drop,
  arith,
}
use mathlib.Core.Path.{subst}
use apex_ai.Workflow.Json.{Json, Fields, get_field, nonempty}
use apex_ai.Agent.Parser.{
  Syntax, Text, try_parse_json, next_depth, closing, object_here, has_key, scan,
  extract_balanced_json,
}

abbrev pub occurrences : ℕ → Text → ℕ
occurrences c [] = 0
occurrences c (d ∷ text) = (if d == c then 1 else 0) + occurrences c text

abbrev pub Group : ℕ → Text → Text → Type 0
Group depth text group =
    ((after : Text) × (text ≡ group ++ after))
    × (depth + occurrences b'{' group ≡ occurrences b'}' group)

-- One code point before a group.
next_depth-Group :
    (depth c : ℕ) (text group : Text)
    → 0 < depth
    → Group (next_depth depth c) text group
    → Group depth (c ∷ text) (c ∷ group)
unfolding next_depth
next_depth-Group depth c text group h ((after, split), sum) =
    ((after, ap (λ t. c ∷ t) split), ground (arith, sum))

-- The brace that ends the group.
last_brace-Group :
    (depth c : ℕ) (text : Text)
    → 0 < depth
    → (c == b'}' && next_depth depth c == 0) ≡ true
    → Group depth (c ∷ text) (c ∷ [])
unfolding next_depth
last_brace-Group depth c text h ends = ((text, refl), ground (arith, ends))

next_depth-pos :
    (depth c : ℕ)
    → 0 < depth
    → (c == b'}' && next_depth depth c == 0) ≡ false
    → 0 < next_depth depth c
unfolding next_depth
next_depth-pos depth c h goes_on = ground (arith, goes_on)

closing-Group :
    (depth : ℕ) (text group : Text)
    → 0 < depth
    → closing depth text ≡ some group
    → Group depth text group
unfolding closing
closing-Group depth [] group h e = cc
closing-Group depth (c ∷ text) group h e =
    let next = next_depth depth c in
    elim (Bool-cases (c == b'}' && next == 0)) [
      | inl ends ↦
          let e' = rw (ends) at e in
          let same : ◌≡◌ {A = Text} (c ∷ []) group = cc in
          subst (Group depth (c ∷ text)) same (last_brace-Group depth c text h ends)
      | inr goes_on ↦ elim (Option-cases (closing next text)) [
        | inl none_left ↦ let e' = rw (goes_on, none_left) at e in cc
        | inr (rest, closed) ↦
            let e' = rw (goes_on, closed) at e in
            let same : ◌≡◌ {A = Text} (c ∷ rest) group = cc in
            let inner = closing-Group next text rest (next_depth-pos depth c h goes_on) closed in
            subst (Group depth (c ∷ text)) same (next_depth-Group depth c text rest h inner)
      ]
    ]

-- The first brace opens the group.
closing-start :
    (text group : Text) → closing 0 (b'{' ∷ text) ≡ some group → Group 0 (b'{' ∷ text) group
unfolding closing next_depth
closing-start text group e = elim (Option-cases (closing 1 text)) [
  | inl none_left ↦ let e' = rw (none_left) at e in cc
  | inr (rest, closed) ↦
      let e' = rw (closed) at e in
      let same : ◌≡◌ {A = Text} (b'{' ∷ rest) group = cc in
      let ((after, split), sum) = closing-Group 1 text rest (omega arith) closed in
      subst (Group 0 (b'{' ∷ text)) same ((after, ap (λ t. b'{' ∷ t) split), omega (arith, sum))
]

-- What the scan takes at a start.
abbrev pub IsTaken : Syntax → Text → Fields → Type 0
IsTaken syntax text o =
    (group : Text) × (after : Text) × (text ≡ group ++ after)
    × (occurrences b'{' group ≡ occurrences b'}' group)
    × (try_parse_json syntax group ≡ some o)
    × ((get_field "name" o ≢ none) ⊎ (get_field "tool" o ≢ none))

has_key-ne-none : (value : Option Json) → has_key value ≡ true → value ≢ none
has_key-ne-none value h e = let h' = rw (e) at h in false≢true h'

either_key : (a b : Option Json) → (has_key a || has_key b) ≡ true → (a ≢ none) ⊎ (b ≢ none)
either_key (some x) b h = inl (has_key-ne-none (some x) refl)
either_key none b h = inr (has_key-ne-none b h)

object_here-IsTaken :
    (syntax : Syntax) (text : Text) (o : Fields)
    → object_here syntax text ≡ some o
    → IsTaken syntax text o
unfolding object_here
object_here-IsTaken syntax [] o e = cc
object_here-IsTaken syntax (c ∷ text) o e = elim (Bool-cases (c == b'{')) [
  | inr other ↦ let e' = rw (other) at e in cc
  | inl brace ↦ elim (Option-cases (closing 0 (c ∷ text))) [
    | inl unclosed ↦ let e' = rw (brace, unclosed) at e in cc
    | inr (group, closed) ↦ elim (Option-cases (try_parse_json syntax group)) [
      | inl unread ↦ let e' = rw (brace, closed, unread) at e in cc
      | inr (read, parsed) ↦
          elim (Bool-cases (
            nonempty read
            && (has_key (get_field "name" read) || has_key (get_field "tool" read)))) [
              | inr nameless ↦ let e' = rw (brace, closed, parsed, nameless) at e in cc
              | inl callable ↦
                  let e' = rw (brace, closed, parsed, callable) at e in
                  let same : ◌≡◌ {A = Fields} read o = cc in
                  let start = (==_iff c b'{').0 brace in
                  let ((after, split), sum) =
                    subst (λ x. closing 0 (x ∷ text) ≡ some group → Group 0 (x ∷ text) group)
                      (sym start) (closing-start text group) closed in
                  let keys =
                    either_key (get_field "name" read) (get_field "tool" read)
                      (ground (arith, callable)) in
                  subst (IsTaken syntax (c ∷ text)) same
                    (group, after, split, omega (arith, sum), parsed, keys)
            ]
    ]
  ]
]

abbrev or_best : Option Fields → Option Fields → Option Fields
or_best none best = best
or_best (some o) best = some o

or_best-some :
    (later : Option Fields) (o : Fields) (best : Option Fields)
    → or_best later (some o) ≡ or_best (or_best later (some o)) best
or_best-some none o best = refl
or_best-some (some p) o best = refl

-- A start that the scan takes replaces the object it had.
scan-best :
    (syntax : Syntax) (best : Option Fields) (text : Text)
    → scan syntax best text ≡ or_best (scan syntax none text) best
unfolding scan
scan-best syntax best [] = refl
scan-best syntax best (c ∷ text) = elim (Option-cases (object_here syntax (c ∷ text))) [
  | inl nothing ↦ rw (nothing) (scan-best syntax best text)
  | inr (o, taken) ↦
      rw (taken, scan-best syntax (some o) text) (or_best-some (scan syntax none text) o best)
]

-- The last tier takes an object that stands in the text between braces, as many opening as closing ones,
-- that `json.loads` reads, and that has a name or a tool; and in the text after the brace at which it starts,
-- also inside the object itself, the scan finds no other: it is the last one that starts in the text.
pub extract_balanced_json-last :
    (syntax : Syntax) (text : Text) (o : Fields)
    → extract_balanced_json syntax text ≡ some o
    → (before start : Text) × (text ≡ before ++ start)
      × IsTaken syntax start o
      × (extract_balanced_json syntax (drop 1 start) ≡ none)
unfolding scan
extract_balanced_json-last syntax [] o e = cc
extract_balanced_json-last syntax (c ∷ text) o e =
    let best = elim (object_here syntax (c ∷ text)) as (λ x. Option Fields) [
      | none ↦ none
      | some o ↦ some o
    ] in
    elim (Option-cases (scan syntax none text)) [
      | inr (p, later) ↦
          let e' = rw (scan-best syntax best text, later) at e in
          let same : ◌≡◌ {A = Fields} p o = cc in
          let (before, start, split, taken, last) =
            extract_balanced_json-last syntax text o
              (subst (λ x. scan syntax none text ≡ some x) same later) in
          (c ∷ before, start, ap (λ t. c ∷ t) split, taken, last)
      | inl no_later ↦
          let e' = rw (scan-best syntax best text, no_later) at e in
          elim (Option-cases (object_here syntax (c ∷ text))) [
            | inl nothing ↦ let e'' = rw (nothing) at e' in cc
            | inr (p, taken) ↦
                let e'' = rw (taken) at e' in
                let same : ◌≡◌ {A = Fields} p o = cc in
                (
                  [],
                  c ∷ text,
                  refl,
                  object_here-IsTaken syntax (c ∷ text) o
                      (subst (λ x. object_here syntax (c ∷ text) ≡ some x) same taken),
                  no_later,
                )
          ]
    ]
