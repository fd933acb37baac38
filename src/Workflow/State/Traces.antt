-- ===== src/Workflow/State/Traces.antt =====
-- What holds of a process over every sequence of status changes that is asked for.
use apex_ai.Prelude.{
  ℕ, ◌≡◌, refl, ◌⊎◌, true, false, Option, some, List, [], ◌∷◌, ◌++◌, String, ok, err, arith,
  contains,
}
use apex_ai.Workflow.Json.{Fields}
use apex_ai.Workflow.Records.{ProcessStatus, Process, ProcessEvent, process_status_eq}
use apex_ai.Workflow.State.{transition_process, finishing, is_none}

-- A request as the API, the worker and the executor make it.
pub record Request : Type 0 where
  pub now : ℕ
  pub target : ProcessStatus
  pub actor_id : Option String
  pub payload : Fields

-- A process with its event log.
pub record Logged : Type 0 where
  pub process : Process
  pub events : List ProcessEvent

-- One request: a refused one changes nothing.
unfoldable pub request : Logged → Request → Logged
request s r = elim (transition_process r.now s.process r.target r.actor_id r.payload) [
  | ok (process, event) ↦ record { process = process; events = s.events ++ event ∷ [] }
  | err _ ↦ s
]

unfoldable pub requests : Logged → List Request → Logged
unfolding request
requests s [] = s
requests s (r ∷ rs) = requests (request s r) rs

-- The terminal statuses of the diagram in the module's docstring.
abbrev pub IsTerminal : ProcessStatus → Type 0
IsTerminal s =
    (s ≡ ProcessStatus.completed) ⊎ (s ≡ ProcessStatus.failed) ⊎ (s ≡ ProcessStatus.cancelled)

request-terminal : (s : Logged) (r : Request) → IsTerminal s.process.status → request s r ≡ s
unfolding request transition_process
request-terminal s r h = ground arith

-- A terminal process never changes and logs nothing more.
requests-terminal :
    (s : Logged) (rs : List Request) → IsTerminal s.process.status → requests s rs ≡ s
unfolding requests
requests-terminal s [] h = refl
requests-terminal s (r ∷ rs) h =
    let e : request s r ≡ s = request-terminal s r h in rw e (requests-terminal s rs h)

-- What the times of a process say of its status.
pub record IsTimed (p : Process) : Type 0 where
  pub ran : p.status ≡ ProcessStatus.running → is_none p.started_at ≡ false
  pub paused_ran : p.status ≡ ProcessStatus.paused → is_none p.started_at ≡ false
  pub completed_ran : p.status ≡ ProcessStatus.completed → is_none p.started_at ≡ false
  pub failed_ran : p.status ≡ ProcessStatus.failed → is_none p.started_at ≡ false
  pub ended : contains finishing p.status ≡ true → is_none p.finished_at ≡ false
  pub fresh : p.status ≡ ProcessStatus.draft → is_none p.started_at ≡ true

request-IsTimed : (s : Logged) (r : Request) → IsTimed s.process → IsTimed (request s r).process
unfolding request transition_process
request-IsTimed s r h = ground arith

-- Every sequence of requests keeps what `IsTimed` says, which holds of a fresh draft: a process that runs,
-- is paused, or has completed or failed has a start time, one that is completed, failed, cancelled or
-- stuck has an end time, and a draft has no start time.
requests-IsTimed :
    (s : Logged) (rs : List Request) → IsTimed s.process → IsTimed (requests s rs).process
unfolding requests
requests-IsTimed s [] h = h
requests-IsTimed s (r ∷ rs) h = requests-IsTimed (request s r) rs (request-IsTimed s r h)

request-started_at :
    (s : Logged) (r : Request) {t : ℕ}
    → s.process.started_at ≡ some t
    → (request s r).process.started_at ≡ some t
unfolding request transition_process
request-started_at s r h = ground arith

-- The start time is written once: no later request, a resumption included, changes it.
requests-started_at :
    (s : Logged) (rs : List Request) {t : ℕ}
    → s.process.started_at ≡ some t
    → (requests s rs).process.started_at ≡ some t
unfolding requests
requests-started_at s [] h = h
requests-started_at s (r ∷ rs) h = requests-started_at (request s r) rs (request-started_at s r h)
