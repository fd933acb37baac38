-- ===== src/Tests/Runs.antt =====
-- The theorems on the parser of tool calls, the runs and the cache of the agent at concrete inputs.
use apex_ai.Prelude.{
  err, ℕ, ◌+◌, ◌≡◌, refl, true, Option, none, some, List, [], ◌∷◌, ◌++◌, map, String, ◌==◌,
  string_eq, nat_eq, if◌then◌else◌, ltb, drop, length,
}
use apex_ai.Workflow.Json.{str, obj, Fields, end, field, get_field}
use apex_ai.Agent.Roles.{Role}
use apex_ai.Agent.Parser.{
  Syntax, Text, codes, ParsedToolCall, parse_tool_calls, extract_balanced_json, scan, object_here,
  closing, next_depth, try_parse_json,
}
use apex_ai.Agent.Parser.Shapes.{Shape, write_calls, parse_tool_calls-write_calls}
use apex_ai.Agent.Parser.Braces.{IsTaken, extract_balanced_json-last}
use apex_ai.Agent.Loop.Run.{Past}
use apex_ai.Agent.Runs.{AgentRun}
use apex_ai.Agent.Cache.{Redis, LlmCache, cache_get, cache_set, effective_ttl, response_fields}
use apex_ai.Agent.Cache.Expiry.{cache_get-cache_set}
use apex_ai.Tests.Loop.{response}

abbrev inner : Fields
inner = field "name" (str "bob") end

abbrev outer : Fields
outer = field "name" (str "create_user") (field "arguments" (obj inner) end)

-- A syntax in which the texts of two and of four characters are objects.
abbrev nested : Syntax
nested = record {
  loads = λ text.
      if length text == 2
      then some (obj inner)
      else if length text == 4
      then some (obj outer)
      else none;
  tool_call_blocks = λ text. [];
  json_blocks = λ text. [];
}

-- The object inside the arguments is taken for the call.
extract_balanced_json-last_example :
    (before start : Text) × (codes "{{}}" ≡ before ++ start)
    × IsTaken nested start inner
    × (extract_balanced_json nested (drop 1 start) ≡ none)
unfolding scan object_here closing next_depth try_parse_json get_field
extract_balanced_json-last_example = extract_balanced_json-last nested (codes "{{}}") inner refl

abbrev dumps : Fields → String
dumps fields = "{}"

abbrev call : ParsedToolCall
call = record { name = "create_user"; arguments = inner; id = some (str "c1") }

abbrev calls : List (Shape × ParsedToolCall)
calls = (Shape.input_object, record { name = "finish"; arguments = inner; id = none }) ∷ []

parse_tool_calls-write_calls_example :
    parse_tool_calls nested (codes "ok") (write_calls dumps ((Shape.arguments_text, call) ∷ calls))
    ≡ map (λ c. c.1) ((Shape.arguments_text, call) ∷ calls)
parse_tool_calls-write_calls_example =
    parse_tool_calls-write_calls nested dumps refl (codes "ok") (Shape.arguments_text, call) calls
      ((refl, refl, refl), ((refl, refl, refl), tt))

abbrev test_run : ℕ → String → AgentRun
test_run started_at status = record {
  id = 1;
  org_id = none;
  role = Role.qa;
  status = status;
  error = none;
  started_at = started_at;
  finished_at = none;
}

abbrev crashed : AgentRun → String
crashed run = "crashed"

abbrev no_past : Past
no_past = record { rows = []; checkpoints = [] }

-- A client whose calls raise.
abbrev no_redis : Redis
no_redis = record {
  State = Unit;
  read = λ state key. err "refused";
  write = λ state key payload ttl. err "refused";
  delete_all = λ state. state;
}

abbrev loads : String → Option Fields
loads text = some (response_fields (response []))

abbrev cache : LlmCache no_redis dumps loads
cache = record { default_ttl = 3600; enabled = true; client = some tt; mem_cache = λ key. none }

abbrev key : String
key = "k"

cache_get-cache_set_example :
    (cache_get no_redis dumps loads 20
      (cache_set no_redis dumps loads 10 cache key (response []) none)
      key).1
    ≡ (if key == key
        then (if ltb 20 (10 + effective_ttl cache.default_ttl none)
            then some (response [])
            else none)
        else (cache_get no_redis dumps loads 20 cache key).1)
cache_get-cache_set_example =
    cache_get-cache_set no_redis dumps loads cache refl
      (λ key. ("refused", refl), λ key payload ttl. ("refused", refl)) 10 20 key key (response [])
      none refl
