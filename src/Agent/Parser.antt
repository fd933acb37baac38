-- ===== src/Agent/Parser.antt =====
-- backend/app/agent/tool_parser.py. A text is the list of its code points. Of a `Syntax` the code uses
-- `json.loads`, where it succeeds, and the groups that its two regular expressions find.
pub mod Shapes
pub mod Braces
use apex_ai.Prelude.{
  ℕ, ◌+◌, ◌-◌, Bool, true, false, not, ◌&&◌, ◌||◌, Option, none, some, List, [], ◌∷◌, String, ◌==◌,
  string_eq, nat_eq, if◌then◌else◌,
}
use Prim.Native.Char.{code}
use Prim.Native.String
use apex_ai.Workflow.Json.{
  Json, null, bool, num, str, arr, obj, Items, nil, cons, Fields, get_field, nonempty,
}

abbrev pub Text : Type 0
Text = List ℕ

abbrev pub codes : String → Text
codes String.[] = []
codes (String.◌∷◌ c s) = code c ∷ codes s

pub record Syntax : Type 0 where
  pub loads : Text → Option Json
  -- The first groups of the matches of `_TOOL_CALL_BLOCK_RE` and of `_JSON_BLOCK_RE`.
  pub tool_call_blocks : Text → List Text
  pub json_blocks : Text → List Text

pub record ParsedToolCall : Type 0 where
  pub name : String
  pub arguments : Fields
  pub id : Option Json

-- `bool(value)`
abbrev pub truthy : Json → Bool
truthy null = false
truthy (bool b) = b
truthy (num n) = not (n == 0)
truthy (str s) = not (s == "")
truthy (arr nil) = false
truthy (arr (cons item items)) = true
truthy (obj fields) = nonempty fields

abbrev pub is_true : Option Json → Bool
is_true none = false
is_true (some value) = truthy value

-- `a or b`
abbrev pub or_else : Option Json → Option Json → Option Json
or_else a b = if is_true a then a else b

abbrev pub has_key : Option Json → Bool
has_key none = false
has_key (some value) = true

abbrev pub only_object : Option Json → Option Fields
only_object (some (obj fields)) = some fields
only_object _ = none

-- `_try_parse_json`
unfoldable pub try_parse_json : Syntax → Text → Option Fields
try_parse_json syntax text = only_object (syntax.loads text)

-- What becomes of the value that was found for the arguments.
unfoldable pub as_arguments : Syntax → Option Json → Fields
as_arguments syntax (some (obj fields)) = fields
as_arguments syntax (some (str s)) = elim (try_parse_json syntax (codes s)) [
  | none ↦ Fields.end
  | some fields ↦ fields
]
as_arguments syntax _ = Fields.end

-- The value that is found for the name, which has to be a text.
abbrev pub as_name : Option Json → Option String
as_name (some (str s)) = if s == "" then none else some s
as_name _ = none

unfoldable pub name_of : Fields → Option String
name_of o =
    as_name (or_else (or_else (get_field "name" o) (get_field "tool" o)) (get_field "tool_name" o))

unfoldable pub arguments_of : Syntax → Fields → Fields
unfolding as_arguments
arguments_of syntax o =
    let found =
      or_else
        (or_else (or_else (get_field "arguments" o) (get_field "parameters" o))
          (get_field "input" o))
        (get_field "args" o) in
    as_arguments syntax (if is_true found then found else none)

unfoldable pub id_of : Fields → Option Json
id_of o = or_else (get_field "id" o) (get_field "tool_call_id" o)

-- `_normalize_tool_call`
unfoldable pub normalize_tool_call : Syntax → Fields → Option ParsedToolCall
unfolding name_of arguments_of id_of
normalize_tool_call syntax o = elim (name_of o) [
  | none ↦ none
  | some name ↦ some (record { name = name; arguments = arguments_of syntax o; id = id_of o })
]

-- The number of open braces after a code point.
unfoldable pub next_depth : ℕ → ℕ → ℕ
next_depth depth c = if c == b'{' then depth + 1 else if c == b'}' then depth - 1 else depth

-- `text[: j + 1]` for the brace that closes the one at which the text starts; `depth` is the number of open
-- braces before the text.
unfoldable pub closing : ℕ → Text → Option Text
unfolding next_depth
closing depth [] = none
closing depth (c ∷ text) =
    let next = next_depth depth c in
    let rest = closing next text in
    if c == b'}' && next == 0
    then some (c ∷ [])
    else elim rest [ none ↦ none | some group ↦ some (c ∷ group) ]

-- The object at the start of a text, if the scan takes it.
unfoldable pub object_here : Syntax → Text → Option Fields
object_here syntax [] = none
object_here syntax (c ∷ text) = if not (c == b'{') then none else elim (closing 0 (c ∷ text)) [
  | none ↦ none
  | some candidate ↦ elim (try_parse_json syntax candidate) [
    | none ↦ none
    | some o ↦
        if nonempty o && (has_key (get_field "name" o) || has_key (get_field "tool" o))
        then some o
        else none
  ]
]

-- The loop of `_extract_balanced_json` over the starts, with the best object so far.
unfoldable pub scan : Syntax → Option Fields → Text → Option Fields
scan syntax best [] = best
scan syntax best (c ∷ text) =
    scan syntax (elim (object_here syntax (c ∷ text)) [ none ↦ best | some o ↦ some o ]) text

-- `_extract_balanced_json`
abbrev pub extract_balanced_json : Syntax → Text → Option Fields
extract_balanced_json syntax text = scan syntax none text

-- The loop of the first tier.
unfoldable pub normalize_all : Syntax → List Fields → List ParsedToolCall
normalize_all syntax [] = []
normalize_all syntax (o ∷ os) =
    let rest = normalize_all syntax os in
    elim (normalize_tool_call syntax o) [ none ↦ rest | some call ↦ call ∷ rest ]

-- The loops of the second and of the third tier.
unfoldable pub normalize_blocks : Syntax → List Text → List ParsedToolCall
normalize_blocks syntax [] = []
normalize_blocks syntax (block ∷ blocks) =
    let rest = normalize_blocks syntax blocks in
    elim (try_parse_json syntax block) [
      | none ↦ rest
      | some o ↦ elim (normalize_tool_call syntax o) [ none ↦ rest | some call ↦ call ∷ rest ]
    ]

abbrev or_next {ℓ} : {A : Type ℓ} → List A → List A → List A
or_next [] next = next
or_next (x ∷ xs) next = x ∷ xs

-- The last tier.
unfoldable pub balanced_call : Syntax → Text → List ParsedToolCall
balanced_call syntax text = elim (extract_balanced_json syntax text) [
  | none ↦ []
  | some o ↦ elim (normalize_tool_call syntax o) [ none ↦ [] | some call ↦ call ∷ [] ]
]

-- The tiers for the text.
unfoldable pub parse_text : Syntax → Text → List ParsedToolCall
parse_text syntax [] = []
parse_text syntax (c ∷ cs) =
    let text = c ∷ cs in
    or_next (normalize_blocks syntax (syntax.tool_call_blocks text))
      (or_next (normalize_blocks syntax (syntax.json_blocks text)) (balanced_call syntax text))

-- `parse_tool_calls`
unfoldable pub parse_tool_calls : Syntax → Text → List Fields → List ParsedToolCall
parse_tool_calls syntax text native_tool_calls =
    or_next (normalize_all syntax native_tool_calls) (parse_text syntax text)
