-- ===== src/Agent/Loop/Ends.antt =====
-- How a run of the agent ends.
use apex_ai.Prelude.{
  ℕ, ◌≤◌, ◌≡◌, ◌≢◌, ◌↔◌, refl, ◌⊎◌, inl, inr, true, false, Option, none, some, List, String,
}
use mathlib.Core.Path.{subst}
use apex_ai.Agent.Results.{FinishReason}
use apex_ai.Agent.Roles.{Role}
use apex_ai.Agent.Memory.Store.{Row}
use apex_ai.Agent.Loop.State.{Services, LoopState}
use apex_ai.Agent.Loop.Rounds.{run_steps}
use apex_ai.Agent.Loop.Round.{is_final, step-IsEnded}
use apex_ai.Agent.Loop.Steps.{run_steps_induction}
use apex_ai.Agent.Loop.Run.{
  LoopConfig, Past, effective_max_steps, prepare, run_agent, report, final_status, is_finished,
}

-- A round has set a reason, or there was none.
abbrev IsBegun : LoopState → LoopState → Type 0
IsBegun start s = (s.finish_reason ≢ none) ⊎ (s ≡ start)

abbrev IsOver : ℕ → LoopState → LoopState → Type 0
IsOver max_steps start r =
    (is_final r.finish_reason ≡ true) ⊎ ((max_steps ≤ r.steps) × IsBegun start r)

run_steps-IsOver :
    (w : Services) (max_steps fuel : ℕ) (s r : LoopState)
    → run_steps w max_steps fuel s ≡ some r
    → IsOver max_steps s r
run_steps-IsOver w max_steps fuel s r e =
    run_steps_induction w max_steps (IsBegun s) (IsOver max_steps s)
      (λ t below begun goes. inl (((step-IsEnded w t).3.0 goes).1))
      (λ t below begun stops. inl ((step-IsEnded w t).3.1 stops))
      (λ t e below begun raises. inl refl) (λ t begun limit. inr (limit, begun)) fuel s r (inr refl)
      e

-- A run ends before its limit of steps only because it has finished, a guard was tripped, its budget was
-- exceeded, or something failed: a run that ends with any other reason, also one that awaits an approval,
-- has counted all its steps.
pub run_agent-limit :
    (w : Services) (system_prompt : Role → String) (by_sequence : List Row → List Row)
    (config : LoopConfig) (past : Option Past) (r : LoopState)
    → run_agent w system_prompt by_sequence config past ≡ some r
    → is_final r.finish_reason ≡ false
    → effective_max_steps config ≤ r.steps
unfolding run_agent
run_agent-limit w system_prompt by_sequence config past r e other =
    let limit = effective_max_steps config in
    let start = prepare w system_prompt by_sequence config past in
    elim (run_steps-IsOver w limit limit start r e) [
      | inl final ↦ let absurd = rw (other) at final in cc
      | inr (reached, begun) ↦ reached
    ]

final_status_finished :
    (reason : Option FinishReason)
    → is_finished (final_status reason) ≡ true
    → (reason ≡ some FinishReason.finished) ⊎ (reason ≡ none)
final_status_finished none e = inr refl
final_status_finished (some FinishReason.finished) e = inl refl
final_status_finished (some FinishReason.max_steps) e = cc
final_status_finished (some FinishReason.safety_tripped) e = cc
final_status_finished (some FinishReason.budget_exceeded) e = cc
final_status_finished (some FinishReason.error) e = cc
final_status_finished (some FinishReason.awaiting_approval) e = cc

-- A run that returns reports a success exactly if its last reason is that it has finished, or if it was
-- resumed at its limit of steps, and has done nothing.
pub report-success_iff :
    (w : Services) (system_prompt : Role → String) (by_sequence : List Row → List Row)
    (config : LoopConfig) (past : Option Past) (agent_run_id : ℕ) (r : LoopState)
    → run_agent w system_prompt by_sequence config past ≡ some r
    → let start = prepare w system_prompt by_sequence config past in
      ((report agent_run_id r).success ≡ true) ↔ (
        (r.finish_reason ≡ some FinishReason.finished)
        ⊎ ((r.finish_reason ≡ none) × (r ≡ start) × (effective_max_steps config ≤ start.steps)))
unfolding run_agent report
report-success_iff w system_prompt by_sequence config past agent_run_id r e =
    let limit = effective_max_steps config in
    let start = prepare w system_prompt by_sequence config past in
    (
      λ succeeds. elim (final_status_finished r.finish_reason succeeds) [
        | inl finishes ↦ inl finishes
        | inr no_reason ↦ elim (run_steps-IsOver w limit limit start r e) [
          | inl final ↦ let absurd = rw (no_reason) at final in cc
          | inr (reached, begun) ↦ elim begun [
            | inl reason ↦ elim (reason no_reason) [ ]
            | inr same ↦
                inr (no_reason, same, subst (λ (x : LoopState). limit ≤ x.steps) same reached)
          ]
        ]
      ],
      λ ends. elim ends [
        | inl finishes ↦ rw (finishes) refl
        | inr (no_reason, same, reached) ↦ rw (no_reason) refl
      ],
    )
