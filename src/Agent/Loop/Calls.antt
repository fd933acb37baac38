-- ===== src/Agent/Loop/Calls.antt =====
-- The loop over the tool calls of a response in `AgentLoop.run` of backend/app/agent/runtime.py.
use apex_ai.Prelude.{
  ℕ, true, false, not, ◌&&◌, Option, none, some, List, [], ◌∷◌, ◌++◌, String, ◌==◌, string_eq,
  nat_eq, if◌then◌else◌, length, ok, err,
}
use Prim.Native.String
use apex_ai.Workflow.Json.{Json, str, get_field}
use apex_ai.Agent.Results.{FinishReason}
use apex_ai.Agent.Memory.{Message, plain_message}
use apex_ai.Agent.Memory.Store.{append_row}
use apex_ai.Agent.Parser.{ParsedToolCall}
use apex_ai.Agent.Gates.{Gate, gate_reason, gate_guidance, evaluate_migration_gate}
use apex_ai.Agent.Safety.Circuit.{break_failure, break_success}
use apex_ai.Agent.Safety.Edits.{track_failure, track_success}
use apex_ai.Agent.Safety.Repetition.{record_use}
use apex_ai.Agent.Loop.State.{ToolResult, Tool, Services, LoopState}

-- `messages.append` with `_persist(messages[-1:], sequence=len(messages))`.
unfoldable pub add_message : LoopState → Message → LoopState
add_message s m =
    let messages = s.messages ++ m ∷ [] in
    record s { messages = messages; stored = append_row s.stored m (length messages) }

abbrev pub failed_result : String → ToolResult
failed_result message = record {
  is_ok = false;
  output = "";
  error = message;
  intentional = false;
  path = "";
}

-- `_execute_tool`
unfoldable pub execute_tool : Services → ℕ → ParsedToolCall → ToolResult
execute_tool w moment call = elim (w.tools call.name) [
  | none ↦ failed_result (String.◌++◌ "Unknown tool: " (w.repr call.name))
  | some tool ↦ elim (tool.handler moment call.arguments) [
    | ok result ↦ result
    | err e ↦
        failed_result
          (String.◌++◌ "Tool " (String.◌++◌ (w.repr call.name) (String.◌++◌ " raised: " e)))
  ]
]

abbrev pub tool_message : ParsedToolCall → String → Message
tool_message call content = record {
  role = "tool";
  content = content;
  tool_calls = [];
  tool_call_id = call.id;
  tool_name = some call.name;
  input_tokens = 0;
  output_tokens = 0;
}

-- The answer of a tool, and what the breaker and the tracker of edits record.
unfoldable pub record_result : LoopState → ParsedToolCall → ToolResult → LoopState
unfolding add_message
record_result s call result =
    let content = if result.is_ok then result.output else String.◌++◌ "ERROR: " result.error in
    let told = add_message s (tool_message call content) in
    if result.is_ok
    then record told {
      circuit = break_success told.circuit call.name;
      edit_tracker = track_success told.edit_tracker call.name;
    }
    else record told {
      circuit = break_failure told.circuit call.name;
      edit_tracker = track_failure told.edit_tracker call.name;
    }

-- The detector of repetitions, and the path of an intentional change.
unfoldable pub record_repetition :
    Services → LoopState → ParsedToolCall → Tool → ToolResult → LoopState
record_repetition w s call tool result = record s {
  repetition =
      record_use w.args_hash s.repetition
        (record { tool_name = call.name; args = call.arguments; is_mutating = tool.is_mutating });
  all_intentional =
      if result.intentional && not (result.path == "")
      then s.all_intentional ++ result.path ∷ []
      else s.all_intentional;
}

-- How a call, or the calls of a response, end.
pub data CallEnd : Type 0 where
  next stop_calls : CallEnd
  raised : String → CallEnd

pub data CallsEnd : Type 0 where
  done finish_accepted : CallsEnd
  raised : String → CallsEnd

-- A command that needs approval. The loop marks the run, and goes on.
unfoldable pub await_approval : LoopState → LoopState
await_approval s = record (add_message s (plain_message "system" (gate_guidance Gate.migration))) {
  error_msg = some (gate_reason Gate.migration);
  finish_reason = some FinishReason.awaiting_approval;
  run_status = "awaiting_approval";
}

-- `tc.arguments.get("command", "")`, where it is a text.
abbrev pub command_text : Option Json → Option String
command_text none = some ""
command_text (some (str command)) = some command
command_text (some _) = none

-- The migration gate, and the end of the loop over the calls.
unfoldable pub check_command : Services → LoopState → Option Json → LoopState × CallEnd
unfolding await_approval
check_command w s command = elim (command_text command) [
  | none ↦ (s, CallEnd.raised "expected string or bytes-like object")
  | some text ↦ (
    if (evaluate_migration_gate w.is_migration text).trip then await_approval s else s,
    CallEnd.stop_calls,
  )
]

-- A call that is not `finish`. A tool that is not registered has no entry in the dictionary of the tools.
unfoldable pub run_call : Services → LoopState → ParsedToolCall → LoopState × CallEnd
unfolding execute_tool record_result record_repetition check_command
run_call w s call =
    let result = execute_tool w (length s.stored) call in
    let told = record_result s call result in
    elim (w.tools call.name) [
      | none ↦ (told, CallEnd.raised (w.repr call.name))
      | some tool ↦
          let noted = record_repetition w told call tool result in
          if call.name == "run_command" && result.is_ok
          then check_command w noted (get_field "command" call.arguments)
          else (noted, CallEnd.next)
    ]

-- The loop over the calls of a response.
unfoldable pub run_calls : Services → LoopState → List ParsedToolCall → LoopState × CallsEnd
unfolding run_call add_message
run_calls w s [] = (s, CallsEnd.done)
run_calls w s (call ∷ calls) =
    let (s', ending) = run_call w s call in
    elim (call.name == "finish") [
      | true ↦ (
        record (add_message s (tool_message call "finish accepted")) {
          finish_reason = some FinishReason.finished;
        },
        CallsEnd.finish_accepted,
      )
      | false ↦ elim ending [
        | next ↦ run_calls w s' calls
        | stop_calls ↦ (s', CallsEnd.done)
        | raised e ↦ (s', CallsEnd.raised e)
      ]
    ]
