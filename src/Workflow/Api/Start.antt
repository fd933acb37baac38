-- ===== src/Workflow/Api/Start.antt =====
-- What a started process offers to the workers.
use apex_ai.Prelude.{
  ℕ, ◌+◌, ◌≡◌, refl, false, not, Option, some, List, [], ◌∷◌, String, ==_refl, nat_eq, string_eq,
  contains, ok, All, mem-All, ok-injective, arith,
}
use mathlib.Core.Path.{subst}
use mathlib.Core.List.{Memᴰ}
use apex_ai.Workflow.Json.{Fields}
use apex_ai.Workflow.Records.{ProcessStatus, ProcessStep, step_status_eq, process_status_eq}
use apex_ai.Workflow.Definition.{StepDef, ProcessDefinition, root_steps, def_names}
use apex_ai.Workflow.State.{transition_process}
use apex_ai.Workflow.Executor.{Db}
use apex_ai.Workflow.Queue.{is_claimable, claim_ready_steps}
use apex_ai.Workflow.Queue.Claims.{IsClaim, AllClaims, claim_ready_steps-AllClaims}
use apex_ai.Workflow.Api.{create_rows, create_process, queue_roots, start_process}

abbrev pub root_names : ProcessDefinition → List String
root_names pdef = def_names (root_steps pdef)

-- A row that a worker may claim exactly if its step is not a root step.
abbrev pub IsInverted : ProcessDefinition → ProcessStep → Type 0
IsInverted pdef s = is_claimable s.status ≡ not (contains (root_names pdef) s.step_name)

created_then_queued :
    (now process_id id : ℕ) (roots : List String) (ss : List StepDef)
    → All
        (λ s. is_claimable s.status ≡ not (contains roots s.step_name))
        (queue_roots process_id roots (create_rows now process_id id ss))
unfolding create_rows queue_roots
created_then_queued now process_id id roots [] = tt
created_then_queued now process_id id roots (s ∷ ss) =
    (ground (arith, ==_refl process_id), created_then_queued now process_id (id + 1) roots ss)

-- A process that was created and then started is queued, and among its steps exactly those that are not
-- root steps may be claimed: the root steps have the status "queued", which no claim takes.
start_process-IsInverted :
    (now then_ process_id first_id : ℕ) (org_id user_id actor_id : Option String) (name : String)
    (inputs : Fields) (pdef : ProcessDefinition) {db : Db}
    → start_process then_ actor_id pdef
        (create_process now process_id first_id org_id user_id name inputs pdef)
      ≡ ok db
    → (db.process.status ≡ ProcessStatus.queued) × All (IsInverted pdef) db.steps
unfolding start_process create_process transition_process
start_process-IsInverted now then_ process_id first_id org_id user_id actor_id name inputs pdef {db}
      h =
    subst (λ (d : Db). (d.process.status ≡ ProcessStatus.queued) × All (IsInverted pdef) d.steps)
      (ok-injective h)
      (refl, created_then_queued now process_id first_id (root_names pdef) pdef.steps)

IsClaim-inner :
    (pdef : ProcessDefinition) (db : Db) (lock : ℕ → Option ProcessStep) (now : ℕ) (s : ProcessStep)
    → ((id : ℕ) (old : ProcessStep) → lock id ≡ some old → Memᴰ old db.steps)
    → All (IsInverted pdef) db.steps
    → IsClaim lock now s
    → contains (root_names pdef) s.step_name ≡ false
IsClaim-inner pdef db lock now s honest h c =
    let inverted = mem-All (IsInverted pdef) db.steps h (honest c.step_id c.old c.locked) in
    rw (c.marked) (ground (arith, c.claimable, inverted))

AllClaims-inner :
    (pdef : ProcessDefinition) (db : Db) (lock : ℕ → Option ProcessStep) (now : ℕ)
    (ss : List ProcessStep)
    → ((id : ℕ) (old : ProcessStep) → lock id ≡ some old → Memᴰ old db.steps)
    → All (IsInverted pdef) db.steps
    → AllClaims lock now ss
    → All (λ s. contains (root_names pdef) s.step_name ≡ false) ss
AllClaims-inner pdef db lock now [] honest h c = tt
AllClaims-inner pdef db lock now (s ∷ ss) honest h c = (
  IsClaim-inner pdef db lock now s honest h c.0,
  AllClaims-inner pdef db lock now ss honest h c.1,
)

-- As long as the rows are as `start_process` left them, no worker ever claims a root step of the started
-- process, whatever the order of the query and the locks of other workers, if a lock only returns rows of
-- the process.
pub started-claims-no_root :
    (now then_ process_id first_id : ℕ) (org_id user_id actor_id : Option String) (name : String)
    (inputs : Fields) (pdef : ProcessDefinition) (db : Db)
    → start_process then_ actor_id pdef
        (create_process now process_id first_id org_id user_id name inputs pdef)
      ≡ ok db
    → (order_by_created_at : List ProcessStep → List ProcessStep) (lock : ℕ → Option ProcessStep)
    → ((id : ℕ) (old : ProcessStep) → lock id ≡ some old → Memᴰ old db.steps)
    → (at_ limit : ℕ)
    → All
        (λ s. contains (root_names pdef) s.step_name ≡ false)
        (claim_ready_steps order_by_created_at lock at_ limit db.steps)
started-claims-no_root now then_ process_id first_id org_id user_id actor_id name inputs pdef db h
      order_by_created_at lock honest at_ limit =
    let (queued, inverted) =
      start_process-IsInverted now then_ process_id first_id org_id user_id actor_id name inputs
        pdef h in
    AllClaims-inner pdef db lock at_ _ honest inverted
      (claim_ready_steps-AllClaims order_by_created_at lock at_ limit db.steps).0
