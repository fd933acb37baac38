-- ===== src/Workflow/State/Replay.antt =====
-- The event log of a process against the status in its row.
use text.Mathlib.Text.{starts_with}
use apex_ai.Prelude.{
  ℕ, ◌≡◌, refl, ◌⊎◌, inl, inr, Option, List, [], ◌∷◌, ◌++◌, String, ok, if◌then◌else◌, Result-cases,
  arith, ◌∙◌,
}
use apex_ai.Workflow.Json.{Fields}
use apex_ai.Workflow.Records.{ProcessStatus, Process, ProcessEvent, process_status_text}
use apex_ai.Workflow.State.{
  transition_process, process_event_type, after_dot, derive_from, derive_process_status_from_events,
}
use apex_ai.Workflow.State.Traces.{Request, Logged, request, requests}

event_type_text :
    (latest : String) (status : ProcessStatus)
    → (if starts_with (process_event_type status) "process."
        then after_dot (process_event_type status)
        else latest)
      ≡ process_status_text status
event_type_text latest ProcessStatus.draft = refl
event_type_text latest ProcessStatus.queued = refl
event_type_text latest ProcessStatus.running = refl
event_type_text latest ProcessStatus.paused = refl
event_type_text latest ProcessStatus.completed = refl
event_type_text latest ProcessStatus.failed = refl
event_type_text latest ProcessStatus.cancelled = refl
event_type_text latest ProcessStatus.stuck = refl

-- What an accepted change returns: the new status, under the event type that names it.
transition_process-eq-ok :
    (now : ℕ) (p : Process) (target : ProcessStatus) (actor_id : Option String) (payload : Fields)
    {p' : Process} {ev : ProcessEvent}
    → transition_process now p target actor_id payload ≡ ok (p', ev)
    → (p'.status ≡ target) × (ev.event_type ≡ process_event_type target)
unfolding transition_process
transition_process-eq-ok now p target actor_id payload h = ground arith

derive_from_snoc :
    (latest : String) (events : List ProcessEvent) (ev : ProcessEvent) (status : ProcessStatus)
    → ev.event_type ≡ process_event_type status
    → derive_from latest (events ++ ev ∷ []) ≡ process_status_text status
unfolding derive_from
derive_from_snoc latest [] ev status h = rw h (event_type_text latest status)
derive_from_snoc latest (e ∷ events) ev status h =
    derive_from_snoc
      (if starts_with e.event_type "process." then after_dot e.event_type else latest) events ev
      status h

abbrev IsReplayed : Logged → Type 0
IsReplayed s = derive_process_status_from_events s.events ≡ process_status_text s.process.status

request-IsReplayed : (s : Logged) (r : Request) → (request s r ≡ s) ⊎ IsReplayed (request s r)
unfolding request derive_process_status_from_events
request-IsReplayed s r =
    elim (Result-cases (transition_process r.now s.process r.target r.actor_id r.payload)) [
      | inl ((p, ev), h) ↦
          let (e1, e2) = transition_process-eq-ok r.now s.process r.target r.actor_id r.payload h in
          let next : request s r ≡ record { process = p; events = s.events ++ ev ∷ [] } =
            rw (h, request) in
          inr (rw (next, e1) (derive_from_snoc "draft" s.events ev r.target e2))
      | inr (x, h) ↦ inl (rw (h, request))
    ]

-- Replaying the log gives the status in the row, whatever was logged before, as soon as one of the
-- requests has been accepted; if none was, nothing has changed.
pub requests-IsReplayed :
    (s : Logged) (rs : List Request)
    → (requests s rs ≡ s)
      ⊎ (derive_process_status_from_events (requests s rs).events
          ≡ process_status_text (requests s rs).process.status)
unfolding requests
requests-IsReplayed s [] = inl refl
requests-IsReplayed s (r ∷ rs) = elim (requests-IsReplayed (request s r) rs) [
  | inl e ↦ elim (request-IsReplayed s r) [ inl e' ↦ inl (e ∙ e') | inr q ↦ inr (rw e q) ]
  | inr q ↦ inr q
]
