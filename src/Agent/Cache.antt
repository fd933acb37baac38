-- ===== src/Agent/Cache.antt =====
-- `LLMCache` of backend/app/agent/cache.py. The client of Redis is a type with its operations, each of which
-- may raise; `dumps` and `loads` are the functions of `json`. The clock is an argument. The dictionary of
-- the process is a function, with nothing for a missing key.
pub mod Expiry
use apex_ai.Prelude.{
  ℕ, ◌+◌, Bool, true, false, not, Option, none, some, List, [], ◌∷◌, String, ◌==◌, string_eq,
  nat_eq, if◌then◌else◌, ltb, Result, ok, err,
}
use Prim.Native.String
use apex_ai.Kahn.{update}
use apex_ai.Workflow.Json.{
  Json, null, num, str, arr, obj, Items, nil, cons, Fields, end, field, get_field,
}
use apex_ai.Agent.Loop.State.{LlmResponse}

abbrev pub object_items : List Fields → Items
object_items [] = nil
object_items (o ∷ os) = cons (obj o) (object_items os)

abbrev pub objects : Items → List Fields
objects nil = []
objects (cons (obj o) items) = o ∷ objects items
objects (cons _ items) = objects items

-- The dictionary of `_serialize`.
unfoldable pub response_fields : LlmResponse → Fields
response_fields r = field "content" (str r.content) (
    field "tool_calls" (arr (object_items r.tool_calls)) (
      field "finish_reason" (str r.finish_reason) (
        field "input_tokens" (num r.input_tokens) (
          field "output_tokens" (num r.output_tokens)
            (field "cost_usd" r.cost_usd (field "model" (str r.model) end))))))

abbrev text_or : String → Option Json → String
text_or default (some (str s)) = s
text_or default _ = default

abbrev number_or_0 : Option Json → ℕ
number_or_0 (some (num n)) = n
number_or_0 _ = 0

abbrev objects_or_empty : Option Json → List Fields
objects_or_empty (some (arr items)) = objects items
objects_or_empty _ = []

abbrev value_or_0 : Option Json → Json
value_or_0 none = num 0
value_or_0 (some value) = value

-- The response of `_deserialize`. The values have the types that `_serialize` gives them.
unfoldable pub response_of : Fields → LlmResponse
response_of d = record {
  content = text_or "" (get_field "content" d);
  tool_calls = objects_or_empty (get_field "tool_calls" d);
  finish_reason = text_or "stop" (get_field "finish_reason" d);
  input_tokens = number_or_0 (get_field "input_tokens" d);
  output_tokens = number_or_0 (get_field "output_tokens" d);
  cost_usd = value_or_0 (get_field "cost_usd" d);
  model = text_or "" (get_field "model" d);
}

pub record Redis : Type 1 where
  pub State : Type 0
  pub read : State → String → Result String (Option String)
  pub write : State → String → String → ℕ → Result String State
  -- The scan and the deletions of `clear`, as far as they get.
  pub delete_all : State → State

-- What one entry of `_mem_cache` holds, and when it expires.
pub record Entry : Type 0 where
  pub payload : Fields
  pub expires_at : ℕ

-- `ttl_seconds or self._default_ttl`
abbrev pub effective_ttl : ℕ → Option ℕ → ℕ
effective_ttl default_ttl none = default_ttl
effective_ttl default_ttl (some ttl) = if ttl == 0 then default_ttl else ttl

module _ (redis : Redis) (dumps : Fields → String) (loads : String → Option Fields) where
  pub record LlmCache : Type 0 where
    pub default_ttl : ℕ
    pub enabled : Bool
    pub client : Option redis.State
    pub mem_cache : String → Option Entry

  abbrev deserialized : Option Fields → Option LlmResponse
  deserialized none = none
  deserialized (some d) = some (response_of d)

  -- `_deserialize`, where `json.loads` does not raise.
  unfoldable pub deserialize : String → Option LlmResponse
  unfolding response_of
  deserialize raw = deserialized (loads raw)

  -- `_serialize`
  unfoldable pub serialize : LlmResponse → String
  unfolding response_fields
  serialize r = dumps (response_fields r)

  -- What Redis answers. An error is caught, and an empty text is passed over.
  unfoldable pub from_redis : Option redis.State → String → Option LlmResponse
  unfolding deserialize
  from_redis none key = none
  from_redis (some client) key = elim (redis.read client (String.◌++◌ "llm:" key)) [
    | err e ↦ none
    | ok none ↦ none
    | ok (some raw) ↦ if raw == "" then none else deserialize raw
  ]

  -- `get`
  unfoldable pub cache_get : ℕ → LlmCache → String → LlmCache × Option LlmResponse
  unfolding from_redis
  cache_get now cache key = elim cache.enabled [
    | false ↦ (cache, none)
    | true ↦ elim (from_redis cache.client key) [
      | some r ↦ (cache, some r)
      | none ↦ elim (cache.mem_cache key) [
        | none ↦ (cache, none)
        | some entry ↦
            if ltb now entry.expires_at
            then (cache, deserialize (dumps entry.payload))
            else (record cache { mem_cache = update cache.mem_cache key none }, none)
      ]
    ]
  ]

  abbrev pub write_redis : Option redis.State → String → String → ℕ → Option redis.State
  write_redis none key payload ttl = none
  write_redis (some client) key payload ttl =
      elim (redis.write client (String.◌++◌ "llm:" key) payload ttl) [
        | err e ↦ none
        | ok s ↦ some s
      ]

  abbrev payload_of : Option Fields → Fields
  payload_of none = end
  payload_of (some d) = d

  -- `set`; `json.loads` reads what `json.dumps` has written.
  unfoldable pub cache_set : ℕ → LlmCache → String → LlmResponse → Option ℕ → LlmCache
  unfolding serialize
  cache_set now cache key r ttl_seconds =
      let ttl = effective_ttl cache.default_ttl ttl_seconds in
      let payload = serialize r in
      if not cache.enabled then cache else elim (write_redis cache.client key payload ttl) [
        | some client ↦ record cache { client = some client }
        | none ↦ record cache {
          mem_cache =
              update cache.mem_cache key
                (some (record { payload = payload_of (loads payload); expires_at = now + ttl }));
        }
      ]

  -- `clear`
  unfoldable pub cache_clear : LlmCache → LlmCache
  cache_clear cache = record cache {
    mem_cache = λ _. none;
    client = elim cache.client [ none ↦ none | some client ↦ some (redis.delete_all client) ];
  }
