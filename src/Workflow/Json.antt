-- ===== src/Workflow/Json.antt =====
-- The JSON objects that processes and steps carry (`dict[str, Any]` in backend/app/models/process.py).
use apex_ai.Prelude.{
  ℕ, Bool, true, false, Option, none, some, String, ◌==◌, string_eq, if◌then◌else◌,
}

mutual
  pub data Json : Type 0 where
    null : Json
    bool : Bool → Json
    num : ℕ → Json
    str : String → Json
    arr : Items → Json
    obj : Fields → Json

  pub data Items : Type 0 where
    nil : Items
    cons : Json → Items → Items

  pub data Fields : Type 0 where
    end : Fields
    field : String → Json → Fields → Fields

-- `d.get(key)` on the fields of an object.
unfoldable pub get_field : String → Fields → Option Json
get_field key end = none
get_field key (field name value rest) = if name == key then some value else get_field key rest

-- A dictionary is true if it has a field.
abbrev pub nonempty : Fields → Bool
nonempty end = false
nonempty (field name value rest) = true

-- `d[key] = value`
unfoldable pub put_field : String → Json → Fields → Fields
put_field key value end = field key value end
put_field key value (field name old rest) =
    if name == key then field name value rest else field name old (put_field key value rest)

-- `{**a, **b}`
unfoldable pub merge : Fields → Fields → Fields
unfolding put_field
merge a end = a
merge a (field name value rest) = merge (put_field name value a) rest
