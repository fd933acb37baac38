-- ===== src/Agent/Loop/Frame.antt =====
-- What the calls of a response leave as it is, in `AgentLoop.run` of backend/app/agent/runtime.py.
use apex_ai.Prelude.{
  ◌≡◌, refl, ◌∙◌, ◌&&◌, Option, some, List, [], ◌∷◌, String, ◌==◌, length, string_eq, Bool-cases,
  Option-cases, inl, inr,
}
use apex_ai.Workflow.Json.{Json, get_field}
use apex_ai.Agent.Results.{FinishReason}
use apex_ai.Agent.Parser.{ParsedToolCall}
use apex_ai.Agent.Gates.{evaluate_migration_gate}
use apex_ai.Agent.Loop.State.{Services, LoopState, ToolResult}
use apex_ai.Agent.Loop.Calls.{
  CallEnd, CallsEnd, execute_tool, record_result, record_repetition, await_approval, command_text,
  check_command, run_call, run_calls, add_message,
}

-- The counter, the budget and the checkpoints.
abbrev pub IsFrame : LoopState → LoopState → Type 0
IsFrame s s' = (s'.steps ≡ s.steps) × (s'.budget ≡ s.budget) × (s'.checkpoints ≡ s.checkpoints)

pub IsFrame-trans : (a b c : LoopState) → IsFrame a b → IsFrame b c → IsFrame a c
IsFrame-trans a b c (x, y, z) (x', y', z') = (x' ∙ x, y' ∙ y, z' ∙ z)

record_result-IsFrame :
    (s : LoopState) (call : ParsedToolCall) (result : ToolResult)
    → IsFrame s (record_result s call result)
unfolding record_result add_message
record_result-IsFrame s call result = elim (Bool-cases result.is_ok) [
  | inl good ↦ rw (good) (refl, refl, refl)
  | inr bad ↦ rw (bad) (refl, refl, refl)
]

check_command-IsFrame :
    (w : Services) (s : LoopState) (command : Option Json) → IsFrame s (check_command w s command).0
unfolding check_command await_approval add_message
check_command-IsFrame w s command = elim (Option-cases (command_text command)) [
  | inl other ↦ rw (other, check_command) (refl, refl, refl)
  | inr (text, is_text) ↦ elim (Bool-cases (evaluate_migration_gate w.is_migration text).trip) [
    | inl trips ↦ rw (is_text, trips, check_command) (refl, refl, refl)
    | inr passes ↦ rw (is_text, passes, check_command) (refl, refl, refl)
  ]
]

run_call-IsFrame :
    (w : Services) (s : LoopState) (call : ParsedToolCall) → IsFrame s (run_call w s call).0
unfolding run_call record_repetition
run_call-IsFrame w s call =
    let result = execute_tool w (length s.stored) call in
    let told = record_result s call result in
    let kept = record_result-IsFrame s call result in
    elim (Option-cases (w.tools call.name)) [
      | inl unknown ↦ rw (unknown, run_call) kept
      | inr (tool, known) ↦ elim (Bool-cases (call.name == "run_command" && result.is_ok)) [
        | inl commands ↦
            let noted = record_repetition w told call tool result in
            let checked = check_command-IsFrame w noted (get_field "command" call.arguments) in
            rw (known, commands, run_call)
              (IsFrame-trans s noted (check_command w noted (get_field "command" call.arguments)).0
                kept checked)
        | inr calls ↦ rw (known, calls, run_call) kept
      ]
    ]

data CallEndView (e : CallEnd) : Type 0 where
  is_next : e ≡ CallEnd.next → CallEndView e
  is_stop : e ≡ CallEnd.stop_calls → CallEndView e
  is_raised : (text : String) → e ≡ CallEnd.raised text → CallEndView e

call_end_view : (e : CallEnd) → CallEndView e
call_end_view CallEnd.next = is_next refl
call_end_view CallEnd.stop_calls = is_stop refl
call_end_view (CallEnd.raised text) = is_raised text refl

-- The calls of a response keep the counter, the budget and the checkpoints, and the loop over them is left
-- by `finish` only with the reason of `finish`.
pub run_calls-IsFrame :
    (w : Services) (s : LoopState) (calls : List ParsedToolCall)
    → IsFrame s (run_calls w s calls).0
      × ((run_calls w s calls).1 ≡ CallsEnd.finish_accepted
          → (run_calls w s calls).0.finish_reason ≡ some FinishReason.finished)
unfolding run_calls add_message
run_calls-IsFrame w s [] = ((refl, refl, refl), λ e. cc)
run_calls-IsFrame w s (call ∷ calls) =
    let kept = run_call-IsFrame w s call in
    let s' = (run_call w s call).0 in
    elim (Bool-cases (call.name == "finish")) [
      | inl finishes ↦ rw (finishes, run_calls) ((refl, refl, refl), λ e. refl)
      | inr other ↦ elim (call_end_view (run_call w s call).1) [
        | is_next h ↦
            let (frame, reason) = run_calls-IsFrame w s' calls in
            rw (other, h, run_calls)
              (IsFrame-trans s s' (run_calls w s' calls).0 kept frame, reason)
        | is_stop h ↦ rw (other, h, run_calls) (kept, λ e. cc)
        | is_raised text h ↦ rw (other, h, run_calls) (kept, λ e. cc)
      ]
    ]
