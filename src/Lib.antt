-- ===== src/Lib.antt =====
-- Verification of the ApexAI backend (backend/app): the workflow engine, the tasks, the agent loop, and the
-- roles of users.
--
-- The program. A process is a graph of named steps. The API (backend/app/workflow/api/routes.py) creates a
-- process from a definition, starts, cancels and resumes it, and replays dead letters. Workers claim
-- ready steps from the queue (workflow/queue.py) and hand them to the executor (workflow/executor.py),
-- which resolves the step's prompt, runs an agent, records the outcome, queues the steps that depend on
-- the step, and ends the process. The status of a process changes by the state machine of
-- workflow/state.py, which also logs the change; of the steps' statuses only the cancellation does, the
-- others are written by the queue, the executor and the API directly. Tasks (workflow/task_subdeps.py,
-- workflow/task_service.py) are the users' side of the work, with their own dependencies and statuses. An
-- agent (agent/runtime.py) asks a model for its next tool calls, runs them, and goes on until the model
-- finishes, a guard is tripped, or its steps or tokens are used up; it saves checkpoints, and a run can be
-- resumed.
--
-- The files.
--   Prelude            numbers, lists, equality, results; the names that all files share.
--   Kahn               Kahn's algorithm, which workflow/dag.py, workflow/definition.py and
--                      workflow/task_subdeps.py each write out: `relax` is the inner loop, `drain` the
--                      `while queue` loop, `kahn` the whole. Kahn/Degrees and Kahn/Relax say what the
--                      dictionaries hold, Kahn/Invariant and Kahn/Order what the loop keeps, Kahn/Loop that
--                      it ends, Kahn/Rank and Kahn/Counter what its result says of cycles.
--   Workflow/Dag       workflow/dag.py: `validate_dag`, `find_root_steps`.
--   Workflow/Definition  workflow/definition.py: the validator, the queries, and in Template the prompts;
--                      Agreement compares the validator with `validate_dag`.
--   Workflow/Json, Workflow/Records  the JSON values and the rows of models/process.py.
--   Workflow/State     workflow/state.py: both transition tables, `transition_process`,
--                      `transition_step` and the status that the log gives.
--   Workflow/Queue     workflow/queue.py: claims, completions, failures, retries.
--   Workflow/Executor  workflow/executor.py: `_enqueue_downstream`,
--                      `_maybe_complete_or_fail_process`, and in Execute the method `execute`.
--   Workflow/Api       the handlers of workflow/api/routes.py that change state.
--   Tasks              models/task.py and workflow/task_subdeps.py (Dependencies, Subtasks,
--                      Descendants); in Service workflow/task_service.py:
--                      the changes of status, in Edits and Update the creation and the changes of tasks.
--   Agent              Results and Roles are what a run reports and what a role may use (agent/roles.py);
--                      Safety the four guards of agent/safety.py; Memory `trim`, `maybe_summarize` and the
--                      store of agent/memory.py; Parser agent/tool_parser.py; Gates agent/gates.py; Loop
--                      agent/runtime.py: Calls are the tool calls of a response, Rounds the `while` loop,
--                      Run what comes before and after it; Runs the rows of runs: agent/cleanup.py,
--                      agent/checkpoint.py, `resume_run` and `cancel_run` of agent/api/routes.py; Cache
--                      agent/cache.py.
--   Workflow/Scheduler  workflow/scheduler.py: the schedules and their jobs.
--   Identity           api/v1/auth.py (Auth), api/v1/orgs.py (Orgs), api/v1/invitations.py (Invitations) and
--                      api/v1/keys.py (Keys), with
--                      the rows of models/; Tables are what a session does with them, and Isolation says what
--                      the requests on one organisation do to another.
--   Cost               cost/budget.py: the daily alert; Router cost/heuristic.py and cost/composite.py.
--   Testing            testing/flakiness.py: which tests are flaky.
--   Access             enums.py and core/rbac.py: roles, permissions and their checks.
--   Tests              the theorems at concrete inputs.
--
-- Conventions. Identifiers and times are numbers, a clock is an argument, a row of a table is a
-- record with the columns that the modelled code uses. Code that raises returns a `Result` or an `Option`.
-- `execute` is told whether its session holds the step it is given; the worker gives it one that no session
-- holds, since the session of the claim is closed by then. Dictionaries
-- are functions or lists of pairs. What the repository does not hold is a parameter: what Pydantic
-- reads, the split of a template by `re`, `str.strip`, `sorted`, `json.dumps`, `str(value)`, the order of
-- a query, the row locks of other workers, the order in which Python iterates over a set. The numbers are
-- unbounded, as Python's are.
--
-- Bounds. The loop of Kahn's algorithm runs on fuel, as much as there are nodes: each round visits a node
-- that was not visited before, so the fuel is enough, and no validator returns its extra error for fuel. The
-- loop of the agent runs on as much fuel as it may count steps: each round counts one. All other loops are
-- recursions on lists or texts.
--
-- Services. What the agent loop calls is one record: the model, the tools with their handlers, `json.loads`
-- and regular expressions, the texts of messages. A call is told how many rows the conversation has, so a
-- model or a tool may answer the same call differently later, and it may fail.
--
-- Not modelled: HTTP, the encoding of access tokens, row-level security of the database, the look-up of
-- rows and the serialisation of responses, the texts of messages and summaries, the audit logs, the
-- polling of the worker, the tools and clients of the agent with the sandbox, the templates of processes, the settings, the semantic and
-- LLM routers, the notification services, the runner of tests, and the frontend.
pub mod Prelude
pub mod Kahn
pub mod Workflow
pub mod Tasks
pub mod Agent
pub mod Access
pub mod Testing
pub mod Cost
pub mod Identity
pub mod Tests
