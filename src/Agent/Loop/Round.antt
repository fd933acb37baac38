-- ===== src/Agent/Loop/Round.antt =====
-- What one round of the agent loop does to the counter, the budget and the finish reason.
use apex_ai.Prelude.{
  ℕ, ◌+◌, ◌%◌, ◌≤◌, ◌≡◌, ◌≢◌, refl, ◌∙◌, ap, Bool, true, false, Option, none, some, List, ◌∷◌,
  String, ◌==◌, length, string_eq, nat_eq, Bool-cases, Result-cases, List-cases, inl, inr, ◌⊎◌, ok,
  ltb, arith,
}
use apex_ai.Workflow.Json.{Json}
use apex_ai.Agent.Results.{FinishReason}
use apex_ai.Agent.Memory.{Message}
use apex_ai.Agent.Parser.{ParsedToolCall, codes, parse_tool_calls}
use apex_ai.Agent.Safety.{Guidance}
use apex_ai.Agent.Safety.Budget.{TokenBudgetEnforcer, total, record_tokens, check_budget}
use apex_ai.Agent.Loop.State.{Services, LoopState, LlmResponse}
use apex_ai.Agent.Loop.Calls.{CallsEnd, add_message, run_calls}
use apex_ai.Agent.Loop.Frame.{IsFrame, IsFrame-trans, run_calls-IsFrame}
use apex_ai.Agent.Loop.Rounds.{
  StepEnd, go_on, stopped, guards_tripped, guidance_of, or_max_steps, tell_guidance, trip_safety,
  check_guards, keep_response, after_calls, respond, begin_step, step,
}

-- The reasons with which a round ends the loop.
abbrev pub is_final : Option FinishReason → Bool
is_final (some FinishReason.finished) = true
is_final (some FinishReason.safety_tripped) = true
is_final (some FinishReason.budget_exceeded) = true
is_final (some FinishReason.error) = true
is_final _ = false

abbrev pub IsFit : LoopState → Type 0
IsFit s = (guards_tripped s ≡ false) × (total s.budget.usage ≤ s.budget.per_run_limit)

-- How a state and the end of its round go together.
abbrev pub IsEnded : LoopState → StepEnd → Type 0
IsEnded s e =
    (e ≡ go_on → IsFit s × (s.finish_reason ≢ none))
    × (e ≡ stopped → is_final s.finish_reason ≡ true)

tell_guidance-IsFrame :
    (w : Services) (s : LoopState) (g : Option Guidance) → IsFrame s (tell_guidance w s g)
unfolding tell_guidance add_message
tell_guidance-IsFrame w s none = (refl, refl, refl)
tell_guidance-IsFrame w s (some g) = (refl, refl, refl)

check_budget-limit :
    (parse_int : String → Option ℕ) (budget : TokenBudgetEnforcer) (setting : Option Json)
    (summed_today : ℕ)
    → check_budget parse_int budget setting summed_today ≡ ok tt
    → total budget.usage ≤ budget.per_run_limit
unfolding check_budget
check_budget-limit parse_int budget setting summed_today passed =
    elim (Bool-cases (ltb budget.per_run_limit (total budget.usage))) [
      | inl over ↦ let e = rw (over, check_budget) at passed in cc
      | inr within ↦ ground (arith, within)
    ]

or_max_steps-ne-none : (reason : Option FinishReason) → or_max_steps reason ≢ none
or_max_steps-ne-none none e = cc
or_max_steps-ne-none (some reason) e = cc

check_guards-IsEnded :
    (w : Services) (s : LoopState)
    → IsFrame s (check_guards w s).0 × IsEnded (check_guards w s).0 (check_guards w s).1
unfolding check_guards trip_safety
check_guards-IsEnded w s = elim (Bool-cases (guards_tripped s)) [
  | inl trips ↦
      rw (trips, check_guards) (tell_guidance-IsFrame w s (guidance_of s), (λ e. cc, λ e. refl))
  | inr clear ↦
      let check =
        check_budget w.parse_int s.budget w.org_setting (w.summed_today (length s.stored)) in
      elim (Result-cases check) [
        | inr (exceeded, over) ↦
            rw (clear, over, check_guards) ((refl, refl, refl), (λ e. cc, λ e. refl))
        | inl (unit, passed) ↦
            rw (clear, passed, check_guards)
              (
                (refl, refl, refl),
                (
                  λ e. (
                    (
                      clear,
                      check_budget-limit w.parse_int s.budget w.org_setting
                          (w.summed_today (length s.stored)) passed,
                    ),
                    or_max_steps-ne-none s.finish_reason,
                  ),
                  λ e. cc,
                ),
              )
      ]
]

-- The budget of a round: that before it, or with the tokens of a response of the model.
abbrev pub IsSpent : Services → LoopState → LoopState → Type 0
IsSpent w s s' =
    (s'.budget ≡ s.budget)
    ⊎ ((moment : ℕ) × (messages : List Message) × (r : LlmResponse) × (w.completion moment messages
          ≡ ok r)
        × (s'.budget ≡ record_tokens s.budget r.input_tokens r.output_tokens))

data CallsEndView (e : CallsEnd) : Type 0 where
  is_done : e ≡ CallsEnd.done → CallsEndView e
  is_finished : e ≡ CallsEnd.finish_accepted → CallsEndView e
  is_raised : (text : String) → e ≡ CallsEnd.raised text → CallsEndView e

calls_end_view : (e : CallsEnd) → CallsEndView e
calls_end_view CallsEnd.done = is_done refl
calls_end_view CallsEnd.finish_accepted = is_finished refl
calls_end_view (CallsEnd.raised text) = is_raised text refl

pub after_calls-IsEnded :
    (w : Services) (s : LoopState) (calls : List ParsedToolCall)
    → IsFrame s (after_calls w (run_calls w s calls)).0
      × IsEnded (after_calls w (run_calls w s calls)).0 (after_calls w (run_calls w s calls)).1
unfolding after_calls
after_calls-IsEnded w s calls =
    let s' = (run_calls w s calls).0 in
    let (frame, reason) = run_calls-IsFrame w s calls in
    elim (calls_end_view (run_calls w s calls).1) [
      | is_done h ↦
          let (kept, ended) = check_guards-IsEnded w s' in
          rw (h, after_calls) (IsFrame-trans s s' (check_guards w s').0 frame kept, ended)
      | is_finished h ↦ rw (h, after_calls) (frame, (λ e. cc, λ e. rw (reason h) refl))
      | is_raised text h ↦ rw (h, after_calls) (frame, (λ e. cc, λ e. cc))
    ]

respond-IsEnded :
    (w : Services) (s : LoopState) (r : LlmResponse)
    → ((respond w s r).0.steps ≡ s.steps)
      × ((respond w s r).0.checkpoints ≡ s.checkpoints)
      × (((respond w s r).0.budget ≡ s.budget)
          ⊎ ((respond w s r).0.budget ≡ record_tokens s.budget r.input_tokens r.output_tokens))
      × IsEnded (respond w s r).0 (respond w s r).1
unfolding respond keep_response
respond-IsEnded w s r = elim (Bool-cases (r.finish_reason == "error")) [
  | inl failed ↦ rw (failed, respond) (refl, refl, inl refl, (λ e. cc, λ e. refl))
  | inr answered ↦
      let kept = keep_response s r in
      elim (List-cases (parse_tool_calls w.syntax (codes r.content) r.tool_calls)) [
        | inl silent ↦ rw (answered, silent, respond) (refl, refl, inr refl, (λ e. cc, λ e. refl))
        | inr (call, calls, parsed) ↦
            let ((steps, spends, saved), ended) = after_calls-IsEnded w kept (call ∷ calls) in
            rw (answered, parsed, respond) (steps, saved, inr spends, ended)
      ]
]

pub begin_step-frame :
    (w : Services) (s : LoopState)
    → ((begin_step w s).steps ≡ s.steps + 1) × ((begin_step w s).budget ≡ s.budget)
unfolding begin_step
begin_step-frame w s = elim (Bool-cases ((s.steps + 1) % 5 == 0)) [
  | inl fifth ↦ rw (fifth, begin_step) (refl, refl)
  | inr other ↦ rw (other, begin_step) (refl, refl)
]

-- A round counts one step, spends at most the tokens of one response, writes no checkpoint after its start,
-- and goes on only with clear guards and within the budget, with a reason set.
pub step-IsEnded :
    (w : Services) (s : LoopState)
    → ((step w s).0.steps ≡ s.steps + 1)
      × ((step w s).0.checkpoints ≡ (begin_step w s).checkpoints)
      × IsSpent w s (step w s).0
      × IsEnded (step w s).0 (step w s).1
unfolding step
step-IsEnded w s =
    let begun = begin_step w s in
    let (counts, keeps) = begin_step-frame w s in
    let moment = length begun.stored in
    elim (Result-cases (w.completion moment begun.messages)) [
      | inr (e, fails) ↦ rw (fails, step) (counts, refl, inl keeps, (λ e. cc, λ e. cc))
      | inl (r, answers) ↦
          let (steps, saved, spends, ended) = respond-IsEnded w begun r in
          rw (answers, step)
            (
              steps ∙ counts,
              saved,
              elim spends [
                | inl same ↦ inl (same ∙ keeps)
                | inr more ↦ inr (
                  moment,
                  begun.messages,
                  r,
                  answers,
                  more ∙ ap (λ b. record_tokens b r.input_tokens r.output_tokens) keeps,
                )
              ],
              ended,
            )
    ]
