-- ===== src/Agent/Parser/Shapes.antt =====
-- The shapes of a call that `_normalize_tool_call` of backend/app/agent/tool_parser.py accepts.
use apex_ai.Prelude.{
  ◌≡◌, ◌≢◌, refl, ap, Bool, true, false, Option, none, some, List, [], ◌∷◌, map, String, ◌==◌,
  ==_iff, string_eq, All, arith,
}
use mathlib.Core.Path.{subst}
use apex_ai.Workflow.Json.{Json, str, obj, Fields, end, field, get_field}
use apex_ai.Agent.Parser.{
  Syntax, ParsedToolCall, Text, codes, truthy, or_else, try_parse_json, only_object, as_arguments,
  normalize_tool_call, name_of, arguments_of, id_of, normalize_all, parse_tool_calls,
}

pub data Shape : Type 0 where
  arguments_object parameters_object input_object arguments_text : Shape

abbrev pub id_field : Option Json → Fields
id_field none = end
id_field (some id) = field "id" id end

-- The call as a model writes it; `dumps` prints the arguments.
abbrev pub write_call : (Fields → String) → Shape → ParsedToolCall → Fields
write_call dumps Shape.arguments_object c =
    field "name" (str c.name) (field "arguments" (obj c.arguments) (id_field c.id))
write_call dumps Shape.parameters_object c =
    field "name" (str c.name) (field "parameters" (obj c.arguments) (id_field c.id))
write_call dumps Shape.input_object c =
    field "tool" (str c.name) (field "input" (obj c.arguments) (id_field c.id))
write_call dumps Shape.arguments_text c =
    field "name" (str c.name) (field "arguments" (str (dumps c.arguments)) (id_field c.id))

abbrev pub none_or_true : Option Json → Bool
none_or_true none = true
none_or_true (some id) = truthy id

-- The call has a name, and no identifier or one that is true, and `loads` reads its arguments back.
abbrev pub IsReadable : Syntax → (Fields → String) → ParsedToolCall → Type 0
IsReadable syntax dumps c =
    ((c.name == "") ≡ false)
    × (none_or_true c.id ≡ true)
    × (syntax.loads (codes (dumps c.arguments)) ≡ some (obj c.arguments))

named : (s : String) → s ≢ "" → (s == "") ≡ false
named s h = ground (arith, ==_iff s "")

-- Other keys than the identifier's are not in its field.
id_field_lem :
    (id : Option Json) (key : String) → ("id" == key) ≡ false → get_field key (id_field id) ≡ none
unfolding get_field
id_field_lem none key h = refl
id_field_lem (some id) key h = rw (h) refl

name_of-write_call :
    (dumps : Fields → String) (shape : Shape) (c : ParsedToolCall)
    → (c.name == "") ≡ false
    → name_of (write_call dumps shape c) ≡ some c.name
unfolding name_of get_field
name_of-write_call dumps Shape.arguments_object c h = simp (h)
name_of-write_call dumps Shape.parameters_object c h = simp (h)
name_of-write_call dumps Shape.input_object c h = simp (h, id_field_lem c.id "name" refl)
name_of-write_call dumps Shape.arguments_text c h = simp (h)

-- The identifier that is found beside the other fields.
id_of-id_field :
    (id : Option Json)
    → none_or_true id ≡ true
    → or_else (get_field "id" (id_field id)) (get_field "tool_call_id" (id_field id)) ≡ id
unfolding get_field
id_of-id_field none h = refl
id_of-id_field (some j) h = simp (h)

id_of-write_call :
    (dumps : Fields → String) (shape : Shape) (c : ParsedToolCall)
    → none_or_true c.id ≡ true
    → id_of (write_call dumps shape c) ≡ c.id
unfolding id_of get_field
id_of-write_call dumps Shape.arguments_object c h = id_of-id_field c.id h
id_of-write_call dumps Shape.parameters_object c h = id_of-id_field c.id h
id_of-write_call dumps Shape.input_object c h = id_of-id_field c.id h
id_of-write_call dumps Shape.arguments_text c h = id_of-id_field c.id h

abbrev pub write_calls : (Fields → String) → List (Shape × ParsedToolCall) → List Fields
write_calls dumps [] = []
write_calls dumps ((shape, c) ∷ cs) = write_call dumps shape c ∷ write_calls dumps cs

module _ (syntax : Syntax) (dumps : Fields → String) (no_value : syntax.loads [] ≡ none) where
  dumped : (a : Fields) → syntax.loads (codes (dumps a)) ≡ some (obj a) → dumps a ≢ ""
  dumped a reads e =
      let read = subst (λ (s : String). syntax.loads (codes s) ≡ some (obj a)) e reads in cc

  parsed :
      (a : Fields)
      → syntax.loads (codes (dumps a)) ≡ some (obj a)
      → try_parse_json syntax (codes (dumps a)) ≡ some a
  unfolding try_parse_json
  parsed a reads = ap only_object reads

  arguments_of-fields :
      (shape : Shape) (n : String) (a : Fields) (id : Option Json)
      → syntax.loads (codes (dumps a)) ≡ some (obj a)
      → arguments_of syntax (write_call dumps shape (record { name = n; arguments = a; id = id }))
        ≡ a
  unfolding arguments_of as_arguments get_field
  arguments_of-fields Shape.arguments_object n end id reads =
      simp (
        id_field_lem id "parameters" refl,
        id_field_lem id "input" refl,
        id_field_lem id "args" refl,
      )
  arguments_of-fields Shape.arguments_object n (field k v rest) id reads = refl
  arguments_of-fields Shape.parameters_object n end id reads =
      simp (
        id_field_lem id "arguments" refl,
        id_field_lem id "input" refl,
        id_field_lem id "args" refl,
      )
  arguments_of-fields Shape.parameters_object n (field k v rest) id reads =
      simp (id_field_lem id "arguments" refl)
  arguments_of-fields Shape.input_object n end id reads = simp (
    id_field_lem id "arguments" refl,
    id_field_lem id "parameters" refl,
    id_field_lem id "args" refl,
  )
  arguments_of-fields Shape.input_object n (field k v rest) id reads =
      simp (id_field_lem id "arguments" refl, id_field_lem id "parameters" refl)
  arguments_of-fields Shape.arguments_text n a id reads =
      simp (named (dumps a) (dumped a reads), as_arguments) (rw (parsed a reads) refl)

  normalize-write_call :
      (shape : Shape) (c : ParsedToolCall)
      → IsReadable syntax dumps c
      → normalize_tool_call syntax (write_call dumps shape c) ≡ some c
  unfolding normalize_tool_call
  normalize-write_call shape c (h, i, reads) =
      rw
        (
          name_of-write_call dumps shape c h,
          arguments_of-fields shape c.name c.arguments c.id reads,
          id_of-write_call dumps shape c i,
          normalize_tool_call,
        )
        refl

  normalize_all-write_calls :
      (cs : List (Shape × ParsedToolCall))
      → All (λ (c : Shape × ParsedToolCall). IsReadable syntax dumps c.1) cs
      → normalize_all syntax (write_calls dumps cs) ≡ map (λ c. c.1) cs
  unfolding normalize_all
  normalize_all-write_calls [] h = refl
  normalize_all-write_calls ((shape, c) ∷ cs) h =
      rw (normalize-write_call shape c h.0, normalize_all)
        (ap (λ rest. c ∷ rest) (normalize_all-write_calls cs h.1))

-- Where `json.loads` fails on the empty text: calls that a model gives in the structured field, each with a
-- name, with no identifier or a true one, with arguments that `json.loads` reads from their text, and in any
-- of the four shapes (the arguments as an object under three keys, or as a text), are parsed to themselves,
-- in their order and whatever the text of the response is.
pub parse_tool_calls-write_calls :
    (syntax : Syntax) (dumps : Fields → String)
    → syntax.loads [] ≡ none
    → (text : Text) (c : Shape × ParsedToolCall) (cs : List (Shape × ParsedToolCall))
    → All (λ (call : Shape × ParsedToolCall). IsReadable syntax dumps call.1) (c ∷ cs)
    → parse_tool_calls syntax text (write_calls dumps (c ∷ cs)) ≡ map (λ call. call.1) (c ∷ cs)
unfolding parse_tool_calls
parse_tool_calls-write_calls syntax dumps no_value text c cs h =
    rw (normalize_all-write_calls syntax dumps no_value (c ∷ cs) h, parse_tool_calls) refl
