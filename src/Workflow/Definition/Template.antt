-- ===== src/Workflow/Definition/Template.antt =====
-- The template resolver of definition.py. The regular expression that finds `{{ path }}` is Python's `re`:
-- a template is the list of its literal parts and of its paths, split at the dots. `str(value)` is the
-- parameter `str_of`.
use apex_ai.Prelude.{
  ◌≡◌, refl, false, Option, none, some, List, [], ◌∷◌, ◌++◌, String, ◌==◌, string_eq, if◌then◌else◌,
  Result, ok, err, ◌>>=◌, Result-cases, inl, inr, arith,
}
use Prim.Native.String
use apex_ai.Workflow.Json.{Json, null, obj, Fields, get_field}

pub data Segment : Type 0 where
  literal : String → Segment
  variable : List String → Segment

pub data TemplateError : Type 0 where
  path_not_found bad_path unknown_root null_value : TemplateError
  not_executed : String → TemplateError

-- `key in cur` and `cur[key]` where `cur` is a dictionary.
abbrev child : String → Json → Result TemplateError Json
child key (obj fields) = elim (get_field key fields) [ none ↦ err path_not_found | some v ↦ ok v ]
child key _ = err path_not_found

-- `_dig`
unfoldable pub dig : Json → List String → Result TemplateError Json
dig cur [] = ok cur
dig cur (key ∷ path) = child key cur >>= λ next. dig next path

-- `step_outputs[name]`, where the dictionary has the name.
unfoldable pub outputs_of : String → List (String × Fields) → Option Fields
outputs_of name [] = none
outputs_of name ((key, outputs) ∷ rest) = if key == name then some outputs else outputs_of name rest

-- `sub_path[1:] if sub_path and sub_path[0] == "outputs"`
abbrev pub skip_outputs : List String → List String
skip_outputs [] = []
skip_outputs (key ∷ path) = if key == "outputs" then path else key ∷ path

abbrev not_null : Json → Result TemplateError Json
not_null null = err null_value
not_null v = ok v

-- The value of a path below `steps`: `parts[1]` is the step, and there is a third part.
unfoldable pub step_value : List (String × Fields) → List String → Result TemplateError Json
unfolding outputs_of dig
step_value step_outputs (name ∷ key ∷ path) = elim (outputs_of name step_outputs) [
  | none ↦ err (not_executed name)
  | some outputs ↦ dig (obj outputs) (skip_outputs (key ∷ path))
]
step_value step_outputs _ = err bad_path

-- The function `repl` up to `str(value)`.
unfoldable pub resolve_path :
    Fields → List (String × Fields) → List String → Result TemplateError Json
unfolding dig step_value
resolve_path process_inputs step_outputs [] = err unknown_root
resolve_path process_inputs step_outputs (root ∷ rest) =
    if root == "input"
    then (dig (obj process_inputs) rest >>= not_null)
    else if root == "steps"
    then (step_value step_outputs rest >>= not_null)
    else err unknown_root

module _ (str_of : Json → String) where
  -- `_TEMPLATE_RE.sub(repl, template)`
  unfoldable pub resolve_template :
      List Segment → Fields → List (String × Fields) → Result TemplateError String
  resolve_template [] process_inputs step_outputs = ok ""
  resolve_template (literal text ∷ segments) process_inputs step_outputs = do
    rest ← resolve_template segments process_inputs step_outputs
    ok (String.◌++◌ text rest)
  resolve_template (variable path ∷ segments) process_inputs step_outputs = do
    value ← resolve_path process_inputs step_outputs path
    rest ← resolve_template segments process_inputs step_outputs
    ok (String.◌++◌ (str_of value) rest)

-- Digging along a path in two parts is digging twice.
dig-append :
    (cur : Json) (p q : List String) → dig cur (p ++ q) ≡ (dig cur p >>= λ next. dig next q)
unfolding dig
dig-append cur [] q = refl
dig-append cur (key ∷ p) q = elim (Result-cases (child key cur)) [
  | inl (v, e) ↦ rw e (dig-append v p q)
  | inr (x, e) ↦ rw e
]

-- The `outputs` between the step and the key may be left out, unless the key itself is `outputs`.
resolve_path-skip_outputs :
    (inputs : Fields) (outs : List (String × Fields)) (name key : String) (path : List String)
    → (key == "outputs") ≡ false
    → resolve_path inputs outs ("steps" ∷ name ∷ "outputs" ∷ key ∷ path)
      ≡ resolve_path inputs outs ("steps" ∷ name ∷ key ∷ path)
unfolding resolve_path
resolve_path-skip_outputs inputs outs name key path h = ground arith
