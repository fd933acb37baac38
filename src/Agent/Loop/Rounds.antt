-- ===== src/Agent/Loop/Rounds.antt =====
-- The `while` loop of `AgentLoop.run` in backend/app/agent/runtime.py, a round being one execution of its
-- body.
use apex_ai.Prelude.{
  ℕ, zero, suc, ◌+◌, ◌%◌, Bool, true, false, ◌||◌, Option, none, some, List, [], ◌∷◌, ◌++◌, String,
  ◌==◌, string_eq, nat_eq, if◌then◌else◌, ltb, length, ok, err,
}
use apex_ai.Workflow.Json.{str, num, arr, Items, nil, cons, Fields, end, field}
use apex_ai.Workflow.Executor.Execute.{text_take}
use apex_ai.Agent.Results.{FinishReason}
use apex_ai.Agent.Memory.{Message, plain_message, trim}
use apex_ai.Agent.Memory.Summary.{maybe_summarize}
use apex_ai.Agent.Memory.Store.{append_row}
use apex_ai.Agent.Parser.{codes, parse_tool_calls}
use apex_ai.Agent.Safety.{Guidance}
use apex_ai.Agent.Safety.Circuit.{breaker_tripped}
use apex_ai.Agent.Safety.Repetition.{detector_tripped}
use apex_ai.Agent.Safety.Budget.{record_tokens, check_budget}
use apex_ai.Agent.Loop.State.{LlmResponse, Services, LoopState}
use apex_ai.Agent.Loop.Calls.{add_message, CallsEnd, run_calls}

-- How a step ends.
pub data StepEnd : Type 0 where
  go_on stopped : StepEnd
  raised : String → StepEnd

abbrev pub guards_tripped : LoopState → Bool
guards_tripped s =
    breaker_tripped s.circuit || (detector_tripped s.repetition || s.edit_tracker.tripped)

abbrev or_guidance : Option Guidance → Option Guidance → Option Guidance
or_guidance none other = other
or_guidance (some g) other = some g

-- The first guidance that a guard has.
abbrev pub guidance_of : LoopState → Option Guidance
guidance_of s =
    or_guidance (or_guidance s.circuit.guidance s.repetition.guidance) s.edit_tracker.guidance

-- The guidance as a message and as the error of the run.
unfoldable pub tell_guidance : Services → LoopState → Option Guidance → LoopState
tell_guidance w s none = s
tell_guidance w s (some g) = record (add_message s (plain_message "system" (w.guidance_text g))) {
  error_msg = some (w.strip (w.guidance_text g));
}

-- The end that the guards make.
unfoldable pub trip_safety : Services → LoopState → LoopState
unfolding tell_guidance
trip_safety w s = record (tell_guidance w s (guidance_of s)) {
  finish_reason = some FinishReason.safety_tripped;
}

abbrev pub or_max_steps : Option FinishReason → Option FinishReason
or_max_steps none = some FinishReason.max_steps
or_max_steps (some reason) = some reason

-- The guards and the budget after the calls of a step.
unfoldable pub check_guards : Services → LoopState → LoopState × StepEnd
unfolding trip_safety
check_guards w s =
    if guards_tripped s
    then (trip_safety w s, StepEnd.stopped)
    else elim (check_budget w.parse_int s.budget w.org_setting (w.summed_today (length s.stored))) [
      | err e ↦ (
        record s {
          finish_reason = some FinishReason.budget_exceeded;
          error_msg = some (w.exceeded_text e);
        },
        StepEnd.stopped,
      )
      | ok _ ↦ (record s { finish_reason = or_max_steps s.finish_reason }, StepEnd.go_on)
    ]

-- The assistant's message, its tokens, and `_persist_assistant`.
unfoldable pub keep_response : LoopState → LlmResponse → LoopState
keep_response s r =
    let message : Message = record {
      role = "assistant";
      content = r.content;
      tool_calls = r.tool_calls;
      tool_call_id = none;
      tool_name = none;
      input_tokens = r.input_tokens;
      output_tokens = r.output_tokens;
    } in
    record s {
      budget = record_tokens s.budget r.input_tokens r.output_tokens;
      stored = append_row s.stored message s.steps;
      messages = s.messages ++ message ∷ [];
      last_content = r.content;
    }

-- The step after the calls of its response.
unfoldable pub after_calls : Services → LoopState × CallsEnd → LoopState × StepEnd
unfolding check_guards
after_calls w (s, CallsEnd.done) = check_guards w s
after_calls w (s, CallsEnd.finish_accepted) = (s, StepEnd.stopped)
after_calls w (s, CallsEnd.raised e) = (s, StepEnd.raised e)

-- The step from its response on. A response without a call ends the run as `finish` does.
unfoldable pub respond : Services → LoopState → LlmResponse → LoopState × StepEnd
unfolding keep_response run_calls after_calls parse_tool_calls
respond w s r =
    let kept = keep_response s r in
    if r.finish_reason == "error"
    then (
      record s { finish_reason = some FinishReason.error; error_msg = some r.content },
      StepEnd.stopped,
    )
    else elim (parse_tool_calls w.syntax (codes r.content) r.tool_calls) [
      | [] ↦ (record kept { finish_reason = some FinishReason.finished }, StepEnd.stopped)
      | call ∷ calls ↦ after_calls w (run_calls w kept (call ∷ calls))
    ]

abbrev pub text_items : List String → Items
text_items [] = nil
text_items (s ∷ ss) = cons (str s) (text_items ss)

-- The state of a checkpoint.
unfoldable pub checkpoint_state : LoopState → Fields
unfolding text_take
checkpoint_state s = field "input_tokens" (num s.budget.usage.input_tokens) (
    field "output_tokens" (num s.budget.usage.output_tokens) (
      field "intentional_files" (arr (text_items s.all_intentional))
        (field "last_assistant_content_preview" (str (text_take 200 s.last_content)) end)))

-- The start of a step: the counter, the messages that are kept, and every fifth time a checkpoint.
unfoldable pub begin_step : Services → LoopState → LoopState
unfolding trim maybe_summarize checkpoint_state
begin_step w s =
    let begun = record s {
      steps = s.steps + 1;
      messages = maybe_summarize w.summary_text (trim s.messages 30) 50;
    } in
    if begun.steps % 5 == 0
    then record begun {
      checkpoints =
          begun.checkpoints ++ (record { step = begun.steps; state = checkpoint_state begun }) ∷ [];
    }
    else begun

-- The body of the `while` loop.
unfoldable pub step : Services → LoopState → LoopState × StepEnd
unfolding begin_step respond
step w s =
    let begun = begin_step w s in
    elim (w.completion (length begun.stored) begun.messages) [
      | err e ↦ (begun, StepEnd.raised e)
      | ok r ↦ respond w begun r
    ]

abbrev pub crash : LoopState → String → LoopState
crash s e = record s { finish_reason = some FinishReason.error; error_msg = some e }

-- `while steps < max_steps`, on fuel, with what `except` does.
unfoldable pub run_steps : Services → ℕ → ℕ → LoopState → Option LoopState
unfolding step
run_steps w max_steps zero s = if ltb s.steps max_steps then none else some s
run_steps w max_steps (suc fuel) s =
    let (s', ending) = step w s in
    elim (ltb s.steps max_steps) [
      | false ↦ some s
      | true ↦ elim ending [
        | go_on ↦ run_steps w max_steps fuel s'
        | stopped ↦ some s'
        | raised e ↦ some (crash s' e)
      ]
    ]
