-- ===== src/Agent/Safety/Repetition.antt =====
-- `RepetitionDetector` of backend/app/agent/safety.py. `json.dumps` of the arguments, with its keys sorted,
-- is not under the repository: `_args_hash` is the argument `args_hash`.
use apex_ai.Prelude.{
  ℕ, ◌+◌, ◌<◌, ◌≡◌, refl, Bool, true, false, not, ◌&&◌, ◌||◌, ◌↔◌, ◌⊎◌, inl, inr, Option, none,
  some, List, [], ◌∷◌, String, ◌==◌, ==_iff, ==_refl, string_eq, nat_eq, if◌then◌else◌, ltb,
  Bool-cases, arith,
}
use apex_ai.Kahn.{update}
use apex_ai.Workflow.Json.{Fields}
use apex_ai.Agent.Safety.{Guidance, mutates_too_often, reads_too_often, is_set}

pub record RepetitionDetector : Type 0 where
  pub read_limit : ℕ
  pub mutating_limit : ℕ
  pub read_calls : String → String → ℕ
  pub mutating_calls : String → ℕ
  pub tripped_for : Option String
  pub guidance : Option Guidance

-- `READ_LIMIT` and `MUTATING_LIMIT`
abbrev pub default_read_limit : ℕ
default_read_limit = 6

abbrev pub default_mutating_limit : ℕ
default_mutating_limit = 12

-- `RepetitionDetector()`, which is also the state after `reset`.
abbrev pub fresh_detector : RepetitionDetector
fresh_detector = record {
  read_limit = default_read_limit;
  mutating_limit = default_mutating_limit;
  read_calls = λ _ _. 0;
  mutating_calls = λ _. 0;
  tripped_for = none;
  guidance = none;
}

-- `tripped`
abbrev pub detector_tripped : RepetitionDetector → Bool
detector_tripped d = is_set d.tripped_for

-- A recorded call.
pub record ToolUse : Type 0 where
  pub tool_name : String
  pub args : Fields
  pub is_mutating : Bool

module _ (args_hash : Fields → String) where
  -- The branch of `record` for a mutating tool.
  unfoldable pub record_mutating : RepetitionDetector → String → RepetitionDetector
  record_mutating d tool_name =
      let times = d.mutating_calls tool_name + 1 in
      let trips = ltb d.mutating_limit times in
      record d {
        mutating_calls = update d.mutating_calls tool_name times;
        tripped_for = if trips then some tool_name else d.tripped_for;
        guidance = if trips then some (mutates_too_often tool_name times) else d.guidance;
      }

  -- The branch of `record` for a tool that only reads, with the pair of names as its key.
  unfoldable pub record_read : RepetitionDetector → String → String → RepetitionDetector
  record_read d tool_name hash =
      let times = d.read_calls tool_name hash + 1 in
      let trips = ltb d.read_limit times in
      record d {
        read_calls = update d.read_calls tool_name (update (d.read_calls tool_name) hash times);
        tripped_for = if trips then some tool_name else d.tripped_for;
        guidance = if trips then some (reads_too_often tool_name times) else d.guidance;
      }

  -- `record`
  unfoldable pub record_use : RepetitionDetector → ToolUse → RepetitionDetector
  unfolding record_mutating record_read
  record_use d u =
      if u.is_mutating
      then record_mutating d u.tool_name
      else record_read d u.tool_name (args_hash u.args)

  -- The detector after the calls of a run, the last one first.
  abbrev pub detect_run : List ToolUse → RepetitionDetector
  detect_run [] = fresh_detector
  detect_run (u ∷ past) = record_use (detect_run past) u

  -- How often the run has called a mutating tool, and a reading tool with arguments of the same text.
  abbrev pub mutations : String → List ToolUse → ℕ
  mutations t [] = 0
  mutations t (u ∷ past) = (if u.is_mutating && u.tool_name == t then 1 else 0) + mutations t past

  abbrev pub reads : String → String → List ToolUse → ℕ
  reads t hash [] = 0
  reads t hash (u ∷ past) =
      (if not u.is_mutating && (u.tool_name == t && args_hash u.args == hash) then 1 else 0)
      + reads t hash past

  -- Some call of the run is one too many.
  abbrev pub has_excess : List ToolUse → Bool
  has_excess [] = false
  has_excess (u ∷ past) =
      (if u.is_mutating
        then ltb default_mutating_limit (mutations u.tool_name (u ∷ past))
        else ltb default_read_limit (reads u.tool_name (args_hash u.args) (u ∷ past)))
      || has_excess past

  abbrev Tells : List ToolUse → RepetitionDetector → Type 0
  Tells past d =
      (d.read_limit ≡ default_read_limit)
      × (d.mutating_limit ≡ default_mutating_limit)
      × ((t : String) → d.mutating_calls t ≡ mutations t past)
      × ((t hash : String) → d.read_calls t hash ≡ reads t hash past)
      × (is_set d.tripped_for ≡ has_excess past)

  detect_run-Tells : (past : List ToolUse) → Tells past (detect_run past)
  unfolding record_use record_mutating record_read
  detect_run-Tells [] = (refl, refl, λ t. refl, λ t hash. refl, refl)
  detect_run-Tells (u ∷ past) =
      let (read, mutating, writes, looks, trips) = detect_run-Tells past in
      let hash = args_hash u.args in
      (
        ground (arith, read),
        ground (arith, mutating),
        λ t. ground (arith, ==_iff u.tool_name t, writes t, writes u.tool_name),
        λ t h. ground (
          arith,
          ==_iff u.tool_name t,
          ==_iff hash h,
          looks t h,
          looks u.tool_name h,
          looks u.tool_name hash,
        ),
        ground (
          arith,
          read,
          mutating,
          ==_refl u.tool_name,
          ==_refl hash,
          writes u.tool_name,
          looks u.tool_name hash,
          trips,
        ),
      )

  -- A mutating tool called too often, or a reading tool called too often with the same arguments.
  abbrev pub Excess : List ToolUse → Type 0
  Excess past =
      ((t : String) × (default_mutating_limit < mutations t past))
      ⊎ ((t : String) × (hash : String) × (default_read_limit < reads t hash past))

  grow : (u : ToolUse) (past : List ToolUse) → Excess past → Excess (u ∷ past)
  grow u past (inl (t, h)) = inl (t, omega arith)
  grow u past (inr (t, hash, h)) = inr (t, hash, omega arith)

  has_excess-Excess : (past : List ToolUse) → has_excess past ≡ true → Excess past
  has_excess-Excess [] h = cc
  has_excess-Excess (u ∷ past) h = elim (Bool-cases (has_excess past)) [
    | inl before ↦ grow u past (has_excess-Excess past before)
    | inr none_before ↦ elim (Bool-cases u.is_mutating) [
      | inl writes ↦ inl (u.tool_name, ground (arith, writes, none_before))
      | inr looks ↦ inr (u.tool_name, args_hash u.args, ground (arith, looks, none_before))
    ]
  ]

  Excess-has_excess : (past : List ToolUse) → Excess past → has_excess past ≡ true
  Excess-has_excess [] (inl (t, h)) = absurd (omega arith)
  Excess-has_excess [] (inr (t, hash, h)) = absurd (omega arith)
  Excess-has_excess (u ∷ past) (inl (t, h)) =
      let ih =
        λ (p : default_mutating_limit < mutations t past). Excess-has_excess past (inl (t, p)) in
      ground (arith, ==_iff u.tool_name t, ih)
  Excess-has_excess (u ∷ past) (inr (t, hash, h)) =
      let ih =
        λ (p : default_read_limit < reads t hash past). Excess-has_excess past (inr (t, hash, p)) in
      ground (arith, ==_iff u.tool_name t, ==_iff (args_hash u.args) hash, ih)

  -- The detector is tripped exactly if a mutating tool has been called more than `MUTATING_LIMIT` times, or
  -- a reading tool more than `READ_LIMIT` times with arguments of the same text.
  pub detect_run-tripped_iff :
      (past : List ToolUse)
      → (is_set (detect_run past).tripped_for ≡ true) ↔ (
          ((t : String) × (default_mutating_limit < mutations t past))
          ⊎ ((t : String) × (hash : String) × (default_read_limit < reads t hash past)))
  detect_run-tripped_iff past =
      let (read, mutating, writes, looks, trips) = detect_run-Tells past in
      (
        λ h. has_excess-Excess past (rw (trips) at h),
        λ excess. rw (trips) (Excess-has_excess past excess),
      )
