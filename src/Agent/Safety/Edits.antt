-- ===== src/Agent/Safety/Edits.antt =====
-- `EditFailureTracker` of backend/app/agent/safety.py. Its dictionary of failures per tool, which nothing
-- reads, is left out.
use apex_ai.Prelude.{
  ℕ, ◌+◌, ◌<◌, ◌≡◌, refl, Bool, true, false, not, ◌&&◌, Option, none, some, List, [], ◌∷◌, String,
  string_eq, nat_eq, if◌then◌else◌, leb, contains, arith,
}
use apex_ai.Agent.Safety.{Guidance, edits_keep_failing}
use apex_ai.Agent.Safety.Circuit.{Outcome}

-- `_EDIT_TOOLS`
abbrev pub edit_tools : List String
edit_tools = "write_file" ∷ "edit_file" ∷ "apply_patch" ∷ []

-- `tool_name in _EDIT_TOOLS`
unfoldable pub is_edit_tool : String → Bool
is_edit_tool tool_name = contains edit_tools tool_name

pub record EditFailureTracker : Type 0 where
  pub limit : ℕ
  pub total_failures : ℕ
  pub tripped : Bool
  pub guidance : Option Guidance

-- `EditFailureTracker(limit)`, which is also the state after `reset`.
abbrev pub fresh_tracker : ℕ → EditFailureTracker
fresh_tracker limit = record { limit = limit; total_failures = 0; tripped = false; guidance = none }

-- `record_failure`
unfoldable pub track_failure : EditFailureTracker → String → EditFailureTracker
track_failure tracker tool_name =
    let total = tracker.total_failures + 1 in
    let trips = leb tracker.limit total && not tracker.tripped in
    if not (is_edit_tool tool_name) then tracker else record tracker {
      total_failures = total;
      tripped = if trips then true else tracker.tripped;
      guidance = if trips then some (edits_keep_failing total) else tracker.guidance;
    }

-- `record_success`
abbrev pub track_success : EditFailureTracker → String → EditFailureTracker
track_success tracker tool_name = tracker

-- The tracker after the calls of a run, the last one first.
abbrev pub track_run : ℕ → List Outcome → EditFailureTracker
track_run limit [] = fresh_tracker limit
track_run limit (o ∷ past) =
    let tracker = track_run limit past in
    if o.succeeded then track_success tracker o.tool_name else track_failure tracker o.tool_name

abbrev pub edit_failures : List Outcome → ℕ
edit_failures [] = 0
edit_failures (o ∷ past) =
    (if not o.succeeded && is_edit_tool o.tool_name then 1 else 0) + edit_failures past

abbrev Tells : ℕ → List Outcome → EditFailureTracker → Type 0
Tells limit past tracker =
    (tracker.limit ≡ limit)
    × (tracker.total_failures ≡ edit_failures past)
    × (tracker.tripped ≡ leb limit (edit_failures past))
    × (tracker.guidance
        ≡ (if leb limit (edit_failures past) then some (edits_keep_failing limit) else none))

track_run-Tells :
    (limit : ℕ) (past : List Outcome) → 0 < limit → Tells limit past (track_run limit past)
unfolding track_failure
track_run-Tells limit [] h = (refl, refl, ground arith, ground arith)
track_run-Tells limit (o ∷ past) h =
    let (keeps, total, trips, says) = track_run-Tells limit past h in
    (
      ground (arith, keeps),
      ground (arith, total),
      ground (arith, keeps, total, trips),
      ground (arith, keeps, total, trips, says),
    )

-- For a positive limit, the tracker is tripped exactly if the run has had at least `limit` failures of an
-- edit tool, whatever succeeded in between, and its message is the one of the failure that reached the
-- limit.
track_run-tripped_iff :
    (limit : ℕ) (past : List Outcome)
    → 0 < limit
    → ((track_run limit past).tripped ≡ leb limit (edit_failures past))
      × ((track_run limit past).guidance
          ≡ (if leb limit (edit_failures past) then some (edits_keep_failing limit) else none))
track_run-tripped_iff limit past h =
    let (keeps, total, trips, says) = track_run-Tells limit past h in (trips, says)
