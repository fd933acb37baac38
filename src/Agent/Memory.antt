-- ===== src/Agent/Memory.antt =====
-- Messages of backend/app/agent/memory.py, without their identifiers, and `trim`.
pub mod Summary
pub mod Store
pub mod Tokens
use apex_ai.Prelude.{
  ℕ, ◌-◌, ◌≤◌, ◌<◌, ◌≡◌, refl, ap, Bool, true, false, not, List, [], ◌∷◌, ◌++◌, Option, none,
  String, ◌==◌, string_eq, nat_eq, if◌then◌else◌, leb, length, length-filter-le, append-nil,
  length-drop, filter, drop, take, all, zero, suc, Bool-cases, inl, inr, arith, all-filter,
  all-drop, filter-append, filter_all_lem, filter_not_all_lem, filter-filter-not,
}
use apex_ai.Workflow.Json.{Json, Fields}

pub record Message : Type 0 where
  pub role : String
  pub content : String
  pub tool_calls : List Fields
  pub tool_call_id : Option Json
  pub tool_name : Option String
  pub input_tokens : ℕ
  pub output_tokens : ℕ

-- `Message(role=role, content=content)`
abbrev pub plain_message : String → String → Message
plain_message role content = record {
  role = role;
  content = content;
  tool_calls = [];
  tool_call_id = none;
  tool_name = none;
  input_tokens = 0;
  output_tokens = 0;
}

unfoldable pub is_system : Message → Bool
is_system m = m.role == "system"

-- `xs[-n:]`, which is the whole list for 0.
abbrev pub last_of {ℓ} : {A : Type ℓ} → ℕ → List A → List A
last_of n xs = if n == 0 then xs else drop (length xs - n) xs

-- `trim`
unfoldable pub trim : List Message → ℕ → List Message
trim messages max_messages =
    let system = filter is_system messages in
    let non_system = filter (λ m. not (is_system m)) messages in
    if leb (length messages) max_messages
    then messages
    else system ++ last_of max_messages non_system

take-append-drop {ℓ} : {A : Type ℓ} (n : ℕ) (xs : List A) → take n xs ++ drop n xs ≡ xs
take-append-drop zero xs = refl
take-append-drop (suc n) [] = refl
take-append-drop (suc n) (x ∷ xs) = ap (λ t. x ∷ t) (take-append-drop n xs)

abbrev pub is_other : Message → Bool
is_other m = not (is_system m)

-- The two kinds of messages in a list that was cut.
cut_kinds :
    (n : ℕ) (ms : List Message)
    → let cut = filter is_system ms ++ drop n (filter is_other ms) in
      (filter is_system cut ≡ filter is_system ms)
      × (filter is_other cut ≡ drop n (filter is_other ms))
cut_kinds n ms =
    let rest = drop n (filter is_other ms) in
    let others = all-drop is_other n (filter is_other ms) (all-filter is_other ms) in
    (
      rw
          (
            filter-append is_system (filter is_system ms) rest,
            filter_all_lem is_system (filter is_system ms) (all-filter is_system ms),
            filter_not_all_lem is_system rest others,
          )
          (append-nil (filter is_system ms)),
      rw (filter-append is_other (filter is_system ms) rest, filter-filter-not is_system ms)
          (filter_all_lem is_other rest others),
    )

-- For a positive limit, trimming keeps every system message, and of the others it keeps the newest, in
-- their order and at most `max_messages` of them.
trim-newest :
    (messages : List Message) (max_messages : ℕ)
    → 0 < max_messages
    → let trimmed = trim messages max_messages in
      (filter is_system trimmed ≡ filter is_system messages)
      × (length (filter is_other trimmed) ≤ max_messages)
      × ((older : List Message) × (older ++ filter is_other trimmed ≡ filter is_other messages))
unfolding trim
trim-newest messages max_messages h =
    let others = filter is_other messages in
    elim (Bool-cases (leb (length messages) max_messages)) [
      | inl short ↦
          rw short (refl, ground (arith, short, length-filter-le is_other messages), ([], refl))
      | inr long ↦
          let positive : (max_messages == 0) ≡ false = ground arith in
          let kinds = cut_kinds (length others - max_messages) messages in
          rw (long, positive, kinds.0, kinds.1)
            (
              refl,
              omega (arith, length-drop (length others - max_messages) others),
              (
                take (length others - max_messages) others,
                take-append-drop (length others - max_messages) others,
              ),
            )
    ]
