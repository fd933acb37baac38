-- ===== src/Agent/Loop/Usage.antt =====
-- The tokens that a run of the agent uses.
use apex_ai.Prelude.{
  ℕ, zero, suc, length, ltb, err, ◌∷◌, ◌==◌, string_eq, if◌then◌else◌, Bool-cases, List-cases,
  Result-cases, ◌+◌, ◌≤◌, ◌≡◌, refl, inl, inr, Option, some, List, String, ok, arith,
}
use apex_ai.Agent.Roles.{Role}
use apex_ai.Agent.Memory.{Message}
use apex_ai.Agent.Memory.Store.{Row}
use apex_ai.Agent.Safety.Budget.{total, record_tokens, default_run_limit}
use apex_ai.Agent.Loop.State.{Services, LoopState, LlmResponse}
use apex_ai.Agent.Loop.Rounds.{
  go_on, stopped, raised, respond, keep_response, begin_step, step, run_steps,
}
use apex_ai.Agent.Parser.{codes, parse_tool_calls}
use apex_ai.Agent.Loop.Round.{step-IsEnded, after_calls-IsEnded, begin_step-frame}
use apex_ai.Agent.Loop.Steps.{is_go_on, is_stopped, is_raised, end_view, run_steps_induction}
use apex_ai.Agent.Loop.Resume.{prepare-budget}
use apex_ai.Agent.Loop.Run.{LoopConfig, Past, effective_max_steps, prepare, run_agent}

-- No response of the model has more tokens.
abbrev pub IsBounded : Services → ℕ → Type 0
IsBounded w most =
    (moment : ℕ) (messages : List Message) (r : LlmResponse)
    → w.completion moment messages ≡ ok r
    → r.input_tokens + r.output_tokens ≤ most

abbrev IsWithin : ℕ → ℕ → LoopState → Type 0
IsWithin limit most s = (s.budget.per_run_limit ≡ limit) × (total s.budget.usage ≤ limit + most)

step-IsWithin :
    (w : Services) (limit most : ℕ) (s : LoopState)
    → IsBounded w most
    → IsWithin limit 0 s
    → IsWithin limit most (step w s).0
unfolding record_tokens
step-IsWithin w limit most s bounded (keeps, within) = elim (step-IsEnded w s).2 [
  | inl same ↦ rw (same) (keeps, omega (arith, within))
  | inr (moment, messages, r, answers, more) ↦
      rw (more) (keeps, omega (arith, within, bounded moment messages r answers))
]

step-stays :
    (w : Services) (limit most : ℕ) (s : LoopState)
    → IsBounded w most
    → IsWithin limit 0 s
    → (step w s).1 ≡ go_on
    → IsWithin limit 0 (step w s).0
step-stays w limit most s bounded p goes =
    let keeps = (step-IsWithin w limit most s bounded p).0 in
    let fit = ((step-IsEnded w s).3.0 goes).0.1 in (keeps, omega (arith, keeps, fit))

run_steps-IsWithin :
    (w : Services) (max_steps fuel limit most : ℕ) (s r : LoopState)
    → IsBounded w most
    → IsWithin limit 0 s
    → run_steps w max_steps fuel s ≡ some r
    → IsWithin limit most r
run_steps-IsWithin w max_steps fuel limit most s r bounded =
    run_steps_induction w max_steps (IsWithin limit 0) (IsWithin limit most)
      (λ s below p goes. step-stays w limit most s bounded p goes)
      (λ s below p stops. step-IsWithin w limit most s bounded p)
      (λ s e below p raises. step-IsWithin w limit most s bounded p)
      (λ s p reached. (p.0, omega (arith, p.1))) fuel s r

-- The tokens of the response that a round gets from the model.
abbrev pub round_tokens : Services → LoopState → ℕ
round_tokens w s =
    let begun = begin_step w s in
    elim (w.completion (length begun.stored) begun.messages) [
      | err e ↦ 0
      | ok r ↦ r.input_tokens + r.output_tokens
    ]

-- The tokens of all responses that the rounds of the loop get.
unfoldable pub received : Services → ℕ → ℕ → LoopState → ℕ
received w max_steps zero s = 0
received w max_steps (suc fuel) s =
    let rest = received w max_steps fuel (step w s).0 in
    if ltb s.steps max_steps
    then round_tokens w s + elim ((step w s).1) [ go_on ↦ rest | stopped ↦ 0 | raised e ↦ 0 ]
    else 0

-- A round after which the loop goes on has counted the tokens of its response.
step-round_tokens :
    (w : Services) (s : LoopState)
    → (step w s).1 ≡ go_on
    → total (step w s).0.budget.usage ≡ total s.budget.usage + round_tokens w s
unfolding step respond keep_response record_tokens
step-round_tokens w s goes =
    let begun = begin_step w s in
    let keeps = (begin_step-frame w s).1 in
    elim (Result-cases (w.completion (length begun.stored) begun.messages)) [
      | inr (e, fails) ↦ let stuck = rw (fails, step) at goes in cc
      | inl (r, answers) ↦ elim (Bool-cases (r.finish_reason == "error")) [
        | inl failed ↦ let stuck = rw (answers, failed, step, respond) at goes in cc
        | inr fine ↦ elim (List-cases (parse_tool_calls w.syntax (codes r.content) r.tool_calls)) [
          | inl silent ↦ let stuck = rw (answers, fine, silent, step, respond) at goes in cc
          | inr (call, calls, parsed) ↦
              let spends = (after_calls-IsEnded w (keep_response begun r) (call ∷ calls)).0.1 in
              rw (answers, fine, parsed, step, respond, round_tokens)
                (rw (spends, keeps) (omega arith))
        ]
      ]
    ]

round_tokens-le :
    (w : Services) (most : ℕ) (s : LoopState) → IsBounded w most → round_tokens w s ≤ most
round_tokens-le w most s bounded =
    let begun = begin_step w s in
    let moment = length begun.stored in
    elim (Result-cases (w.completion moment begun.messages)) [
      | inr (e, fails) ↦ rw (fails, round_tokens) (omega arith)
      | inl (r, answers) ↦ rw (answers, round_tokens) (bounded moment begun.messages r answers)
    ]

received-le :
    (w : Services) (max_steps fuel limit most : ℕ) (s : LoopState)
    → IsBounded w most
    → IsWithin limit 0 s
    → total s.budget.usage + received w max_steps fuel s ≤ limit + most
unfolding received
received-le w max_steps zero limit most s bounded p = omega (arith, p.1)
received-le w max_steps (suc fuel) limit most s bounded p =
    let one = round_tokens-le w most s bounded in
    elim (Bool-cases (ltb s.steps max_steps)) [
      | inr above ↦ rw (above, received) (omega (arith, p.1))
      | inl below ↦ elim (end_view (step w s).1) [
        | is_go_on h ↦
            let rest =
              received-le w max_steps fuel limit most (step w s).0 bounded
                (step-stays w limit most s bounded p h) in
            rw (below, h, received) (omega (arith, rest, step-round_tokens w s h))
        | is_stopped h ↦ rw (below, h, received) (omega (arith, p.1, one))
        | is_raised text h ↦ rw (below, h, received) (omega (arith, p.1, one))
      ]
    ]

-- Where no response has more than `most` tokens, the responses that a run gets from the model, the last one
-- and one that reports an error included, have together at most the limit of a run and the tokens of one more
-- response; so has the count that the run keeps.
pub run_agent-usage :
    (w : Services) (system_prompt : Role → String) (by_sequence : List Row → List Row)
    (config : LoopConfig) (past : Option Past) (most : ℕ) (r : LoopState)
    → IsBounded w most
    → run_agent w system_prompt by_sequence config past ≡ some r
    → let limit = effective_max_steps config in
      (received w limit limit (prepare w system_prompt by_sequence config past)
        ≤ default_run_limit + most)
      × (total r.budget.usage ≤ default_run_limit + most)
unfolding run_agent
run_agent-usage w system_prompt by_sequence config past most r bounded e =
    let limit = effective_max_steps config in
    let start = prepare w system_prompt by_sequence config past in
    let fresh = prepare-budget w system_prompt by_sequence config past in
    let begins : IsWithin default_run_limit 0 start = rw (fresh) (refl, omega arith) in
    (
      omega (arith, received-le w limit limit default_run_limit most start bounded begins),
      (run_steps-IsWithin w limit limit default_run_limit most start r bounded begins e).1,
    )
