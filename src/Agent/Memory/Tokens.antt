-- ===== src/Agent/Memory/Tokens.antt =====
-- `token_aware_trim` of backend/app/agent/memory.py. The number of tokens of a text is that of a library:
-- the argument `count_tokens`; `dumps` prints tool calls, and `summary_text` is the text of a summary.
use mathlib.Core.List.{reverse, reverse-cons, reverse-append, reverse-reverse}
use apex_ai.Prelude.{
  ℕ, ◌+◌, ◌-◌, ◌≤◌, ◌≡◌, refl, ap, sym, ◌∙◌, Bool, true, false, List, [], ◌∷◌, ◌++◌, String,
  if◌then◌else◌, ltb, leb, length, all, append-nil, all-filter, filter-append, filter_all_lem,
  filter_not_all_lem, filter-filter-not, filter, take, Bool-cases, inl, inr, arith,
}
use Prim.Native.String
use mathlib.Core.Path.{subst}
use apex_ai.Workflow.Json.{Fields}
use apex_ai.Agent.Memory.{Message, plain_message, is_system, is_other}

-- `xs[: -n]`, which is empty for 0.
abbrev pub all_but_last {ℓ} : {A : Type ℓ} → ℕ → List A → List A
all_but_last n xs = if leb n 0 then [] else take (length xs - n) xs

module _ (count_tokens : String → ℕ) (dumps : List Fields → String)
    (summary_text : List Message → String) where
  abbrev call_text : List Fields → String
  call_text [] = ""
  call_text (c ∷ cs) = dumps (c ∷ cs)

  -- `count_message_tokens`
  unfoldable pub count_message_tokens : List Message → ℕ
  count_message_tokens [] = 0
  count_message_tokens (m ∷ ms) =
      4 + count_tokens (String.◌++◌ m.content (call_text m.tool_calls)) + count_message_tokens ms

  -- The loop over the messages, the newest one first, up to the first that does not fit.
  unfoldable pub take_newest : ℕ → ℕ → List Message → List Message
  take_newest max_tokens used [] = []
  take_newest max_tokens used (m ∷ older) =
      let cost = 4 + count_tokens m.content in
      let rest = take_newest max_tokens (used + cost) older in
      if ltb max_tokens (used + cost) then [] else m ∷ rest

  -- `token_aware_trim`
  unfoldable pub token_aware_trim : List Message → ℕ → List Message
  unfolding count_message_tokens take_newest
  token_aware_trim messages max_tokens =
      let system = filter is_system messages in
      let non_system = filter is_other messages in
      let kept =
        reverse (take_newest max_tokens (count_message_tokens system) (reverse non_system)) in
      let summary =
        plain_message "system" (summary_text (all_but_last (length kept) non_system)) ∷ [] in
      if leb (count_message_tokens messages) max_tokens
      then messages
      else system ++ (if ltb (length kept) (length non_system) then summary else []) ++ kept

  -- What the loop counts for the messages that it keeps.
  abbrev pub content_cost : List Message → ℕ
  content_cost [] = 0
  content_cost (m ∷ ms) = 4 + count_tokens m.content + content_cost ms

  content_cost-append :
      (xs ys : List Message) → content_cost (xs ++ ys) ≡ content_cost xs + content_cost ys
  content_cost-append [] ys = omega arith
  content_cost-append (x ∷ xs) ys = omega (arith, content_cost-append xs ys)

  content_cost-reverse : (xs : List Message) → content_cost (reverse xs) ≡ content_cost xs
  content_cost-reverse [] = refl
  content_cost-reverse (x ∷ xs) =
      ap content_cost (reverse-cons x xs)
      ∙ content_cost-append (reverse xs) (x ∷ [])
      ∙ omega (arith, content_cost-reverse xs)

  take_newest-prefix :
      (max_tokens used : ℕ) (xs : List Message)
      → let taken = take_newest max_tokens used xs in
        ((rest : List Message) × (taken ++ rest ≡ xs))
        × (used ≤ max_tokens → used + content_cost taken ≤ max_tokens)
  unfolding take_newest
  take_newest-prefix max_tokens used [] = (([], refl), λ h. omega (arith, h))
  take_newest-prefix max_tokens used (m ∷ older) =
      let cost = 4 + count_tokens m.content in
      let ((rest, split), fits) = take_newest-prefix max_tokens (used + cost) older in
      elim (Bool-cases (ltb max_tokens (used + cost))) [
        | inl over ↦ rw (over) ((m ∷ older, refl), λ h. omega (arith, h))
        | inr within ↦
            rw (within) ((rest, ap (λ t. m ∷ t) split), λ h. ground (arith, within, fits))
      ]

  -- What the loop keeps, in the order of the conversation.
  abbrev pub kept_messages : List Message → ℕ → List Message
  kept_messages messages max_tokens = reverse (
      take_newest max_tokens (count_message_tokens (filter is_system messages))
        (reverse (filter is_other messages)))

  kept_messages-suffix :
      (messages : List Message) (max_tokens : ℕ)
      → let kept = kept_messages messages max_tokens in
        let system = count_message_tokens (filter is_system messages) in
        ((older : List Message) × (older ++ kept ≡ filter is_other messages))
        × (system ≤ max_tokens → system + content_cost kept ≤ max_tokens)
  kept_messages-suffix messages max_tokens =
      let others = filter is_other messages in
      let system = count_message_tokens (filter is_system messages) in
      let taken = take_newest max_tokens system (reverse others) in
      let ((rest, split), fits) = take_newest-prefix max_tokens system (reverse others) in
      (
        (reverse rest, sym (reverse-append taken rest) ∙ ap reverse split ∙ reverse-reverse others),
        λ h. omega (arith, fits h, content_cost-reverse taken),
      )

all-suffix {ℓ} :
    {A : Type ℓ} (q : A → Bool) (xs ys : List A) → all q (xs ++ ys) ≡ true → all q ys ≡ true
all-suffix q [] ys h = h
all-suffix q (x ∷ xs) ys h = all-suffix q xs ys (ground (arith, h))

-- The two kinds of messages in a trimmed list.
trimmed_kinds :
    (ms added kept : List Message)
    → filter is_system added ≡ added
    → filter is_other added ≡ []
    → all is_other kept ≡ true
    → let trimmed = filter is_system ms ++ added ++ kept in
      (filter is_system trimmed ≡ filter is_system ms ++ added) × (filter is_other trimmed ≡ kept)
trimmed_kinds ms added kept s o k =
    let system = filter is_system ms in
    (
      rw
          (
            filter-append is_system (system ++ added) kept,
            filter-append is_system system added,
            filter_all_lem is_system system (all-filter is_system ms),
            s,
            filter_not_all_lem is_system kept k,
          )
          (append-nil (system ++ added)),
      rw
          (
            filter-append is_other (system ++ added) kept,
            filter-append is_other system added,
            filter-filter-not is_system ms,
            o,
          )
          (filter_all_lem is_other kept k),
    )

module _ (count_tokens : String → ℕ) (dumps : List Fields → String)
    (summary_text : List Message → String) where
  -- A conversation with too many tokens is trimmed to its system messages, at most one summary behind them,
  -- and the newest of the other messages, in their order. Where the system messages fit, they and the texts of
  -- the messages that are kept have at most `max_tokens` tokens, the tool calls of these not counted.
  pub token_aware_trim-newest :
      (messages : List Message) (max_tokens : ℕ)
      → leb (count_message_tokens count_tokens dumps summary_text messages) max_tokens ≡ false
      → let trimmed = token_aware_trim count_tokens dumps summary_text messages max_tokens in
        let kept = filter is_other trimmed in
        let system =
          count_message_tokens count_tokens dumps summary_text (filter is_system messages) in
        ((added : List Message) × (filter is_system trimmed ≡ filter is_system messages ++ added)
          × (length added ≤ 1))
        × ((older : List Message) × (older ++ kept ≡ filter is_other messages))
        × (system ≤ max_tokens
            → system + content_cost count_tokens dumps summary_text kept ≤ max_tokens)
  unfolding token_aware_trim is_system
  token_aware_trim-newest messages max_tokens long =
      let kept = kept_messages count_tokens dumps summary_text messages max_tokens in
      let ((older, split), fits) =
        kept_messages-suffix count_tokens dumps summary_text messages max_tokens in
      let others : all is_other kept ≡ true =
        all-suffix is_other older kept
          (subst (λ xs. all is_other xs ≡ true) (sym split) (all-filter is_other messages)) in
      elim (Bool-cases (ltb (length kept) (length (filter is_other messages)))) [
        | inl drops ↦
            let summary =
              plain_message "system"
                (summary_text (all_but_last (length kept) (filter is_other messages)))
              ∷ [] in
            let (s, o) = trimmed_kinds messages summary kept refl refl others in
            rw (long, drops, token_aware_trim, s, o)
              ((summary, refl, omega arith), (older, split), fits)
        | inr keeps ↦
            let (s, o) = trimmed_kinds messages [] kept refl refl others in
            rw (long, keeps, token_aware_trim, s, o) (([], refl, omega arith), (older, split), fits)
      ]
