-- ===== src/Agent/Cache/Expiry.antt =====
-- What the cache of backend/app/agent/cache.py returns when Redis is not reachable.
use apex_ai.Prelude.{
  err, ℕ, ◌+◌, ◌≡◌, refl, ap, sym, ◌∙◌, inl, inr, true, Option, none, some, List, [], ◌∷◌, String,
  ◌==◌, string_eq, if◌then◌else◌, ltb, Bool-cases, Option-cases,
}
use Prim.Native.String
use apex_ai.Kahn.{update}
use apex_ai.Workflow.Json.{Fields, get_field}
use apex_ai.Agent.Loop.State.{LlmResponse}
use apex_ai.Agent.Cache.{
  Redis, Entry, LlmCache, object_items, objects, response_fields, response_of, deserialize,
  serialize, from_redis, write_redis, cache_get, cache_set, effective_ttl,
}

objects-object_items : (os : List Fields) → objects (object_items os) ≡ os
objects-object_items [] = refl
objects-object_items (o ∷ os) = ap (λ rest. o ∷ rest) (objects-object_items os)

response_of-response_fields : (r : LlmResponse) → response_of (response_fields r) ≡ r
unfolding response_of response_fields get_field
response_of-response_fields r =
    ap (λ calls. record r { tool_calls = calls }) (objects-object_items r.tool_calls)

-- What a cache without Redis returns for a key.
abbrev pub held : (Fields → Option LlmResponse) → ℕ → Option Entry → Option LlmResponse
held read now none = none
held read now (some entry) = if ltb now entry.expires_at then read entry.payload else none

-- Redis is not reachable: there is no client, or each of its calls raises.
abbrev pub IsUnreachable : (redis : Redis) → Option redis.State → Type 0
IsUnreachable redis none = Unit
IsUnreachable redis (some client) =
    ((key : String) → (e : String) × (redis.read client key ≡ err e))
    × ((key payload : String) (ttl : ℕ)
        → (e : String) × (redis.write client key payload ttl ≡ err e))

module _ (redis : Redis) (dumps : Fields → String) (loads : String → Option Fields) where
  read_back : Fields → Option LlmResponse
  read_back payload = deserialize redis dumps loads (dumps payload)

  from_redis-none :
      (client : Option redis.State) (key : String)
      → IsUnreachable redis client
      → from_redis redis dumps loads client key ≡ none
  unfolding from_redis
  from_redis-none none key h = refl
  from_redis-none (some client) key h = rw ((h.0 (String.◌++◌ "llm:" key)).1, from_redis) refl

  write_redis-none :
      (client : Option redis.State) (key payload : String) (ttl : ℕ)
      → IsUnreachable redis client
      → write_redis redis dumps loads client key payload ttl ≡ none
  write_redis-none none key payload ttl h = refl
  write_redis-none (some client) key payload ttl h =
      rw ((h.1 (String.◌++◌ "llm:" key) payload ttl).1, write_redis) refl

  cache_get-held :
      (now : ℕ) (cache : LlmCache redis dumps loads) (key : String)
      → cache.enabled ≡ true
      → IsUnreachable redis cache.client
      → (cache_get redis dumps loads now cache key).1 ≡ held read_back now (cache.mem_cache key)
  unfolding cache_get read_back
  cache_get-held now cache key on unreachable =
      let local = from_redis-none cache.client key unreachable in
      elim (Option-cases (cache.mem_cache key)) [
        | inl missing ↦ rw (on, local, missing, cache_get) refl
        | inr (entry, found) ↦ elim (Bool-cases (ltb now entry.expires_at)) [
          | inl fresh ↦ rw (on, local, found, fresh, cache_get) refl
          | inr old ↦ rw (on, local, found, old, cache_get) refl
        ]
      ]

  cache_set-local :
      (now : ℕ) (cache : LlmCache redis dumps loads) (key : String) (r : LlmResponse)
      (ttl_seconds : Option ℕ)
      → cache.enabled ≡ true
      → IsUnreachable redis cache.client
      → loads (serialize redis dumps loads r) ≡ some (response_fields r)
      → let cache' = cache_set redis dumps loads now cache key r ttl_seconds in
        (cache'.enabled ≡ true)
        × (cache'.client ≡ cache.client)
        × (cache'.mem_cache
            ≡ update cache.mem_cache key (
                some (record {
                  payload = response_fields r;
                  expires_at = now + effective_ttl cache.default_ttl ttl_seconds;
                })))
  unfolding cache_set
  cache_set-local now cache key r ttl_seconds on unreachable reads =
      let local =
        write_redis-none cache.client key (serialize redis dumps loads r)
          (effective_ttl cache.default_ttl ttl_seconds) unreachable in
      rw (on, local, reads, cache_set) (on, refl, refl)

  read_back-response_fields :
      (r : LlmResponse)
      → loads (dumps (response_fields r)) ≡ some (response_fields r)
      → read_back (response_fields r) ≡ some r
  unfolding read_back deserialize
  read_back-response_fields r reads =
      rw (reads, deserialize) (ap some (response_of-response_fields r))

-- Where the cache is enabled, Redis is not reachable (there is no client, or each of its calls raises), and
-- `json.loads` reads what `json.dumps` writes of a response: after `set` at one time, `get` returns the response
-- for its key until the time to live has passed, and nothing from then on; for other keys it returns what
-- it would have returned without the `set`.
pub cache_get-cache_set :
    (redis : Redis) (dumps : Fields → String) (loads : String → Option Fields)
    (cache : LlmCache redis dumps loads)
    → cache.enabled ≡ true
    → IsUnreachable redis cache.client
    → (now later : ℕ) (key other : String) (r : LlmResponse) (ttl_seconds : Option ℕ)
    → loads (dumps (response_fields r)) ≡ some (response_fields r)
    → (cache_get redis dumps loads later
        (cache_set redis dumps loads now cache key r ttl_seconds)
        other).1
      ≡ (if key == other
          then (if ltb later (now + effective_ttl cache.default_ttl ttl_seconds)
              then some r
              else none)
          else (cache_get redis dumps loads later cache other).1)
unfolding serialize
cache_get-cache_set redis dumps loads cache on local now later key other r ttl_seconds read =
    let cache' = cache_set redis dumps loads now cache key r ttl_seconds in
    let (on', local', written) =
      cache_set-local redis dumps loads now cache key r ttl_seconds on local read in
    let still : IsUnreachable redis cache'.client = rw (local') local in
    let gets = cache_get-held redis dumps loads later cache' other on' still in
    let got = cache_get-held redis dumps loads later cache other on local in
    gets
    ∙ ap (λ (d : String → Option Entry). held (read_back redis dumps loads) later (d other)) written
    ∙ (elim (Bool-cases (key == other)) [
      | inl same ↦ rw (same, read_back-response_fields redis dumps loads r read) refl
      | inr different ↦ rw (different) (sym got)
    ])
