-- ===== src/Agent/Loop/Resume.antt =====
-- What a resumed run of the agent starts with.
use apex_ai.Prelude.{
  ◌+◌, ◌%◌, ◌<◌, ◌++◌, ◌==◌, nat_eq, map, All, true, arith, ◌≡◌, refl, ap, inl, inr, Option, none,
  some, List, [], ◌∷◌, String, Bool-cases, Option-cases,
}
use apex_ai.Workflow.Json.{Fields, get_field, nonempty}
use apex_ai.Agent.Roles.{Role}
use apex_ai.Agent.Memory.{trim}
use apex_ai.Agent.Memory.Summary.{maybe_summarize}
use apex_ai.Agent.Memory.Store.{Row, get_messages}
use apex_ai.Agent.Safety.Budget.{TokenBudgetEnforcer, default_run_limit}
use apex_ai.Agent.Loop.State.{Services, LoopState, Checkpoint}
use apex_ai.Agent.Loop.Rounds.{text_items, checkpoint_state, begin_step}
use apex_ai.Agent.Loop.Run.{
  LoopConfig, Past, load_latest_checkpoint, fresh_state, restored_step, texts, seed, new_state,
  prepare,
}

abbrev pub fresh_budget : LoopConfig → TokenBudgetEnforcer
fresh_budget config = record {
  per_run_limit = default_run_limit;
  has_org = config.has_org;
  usage = record { input_tokens = 0; output_tokens = 0 };
}

seed-budget : (w : Services) (state : Fields) (s : LoopState) → (seed w state s).budget ≡ s.budget
unfolding seed
seed-budget w state s = elim (Option-cases (restored_step w.parse_int (get_field "step" state))) [
  | inl unread ↦ rw (unread, seed) refl
  | inr (n, read) ↦ rw (read, seed) refl
]

module _ (w : Services) (system_prompt : Role → String) (by_sequence : List Row → List Row) where
  pub prepare-budget :
      (config : LoopConfig) (past : Option Past)
      → (prepare w system_prompt by_sequence config past).budget ≡ fresh_budget config
  unfolding prepare new_state
  prepare-budget config none = refl
  prepare-budget config (some past) =
      elim (Option-cases (load_latest_checkpoint past.checkpoints)) [
        | inl nothing ↦ rw (nothing, prepare) refl
        | inr (checkpoint, latest) ↦ elim (Bool-cases (nonempty checkpoint.state)) [
          | inl full ↦
              rw (latest, full, prepare)
                (seed-budget w checkpoint.state (
                  fresh_state config (get_messages by_sequence past.rows) past.rows
                    past.checkpoints))
          | inr empty ↦ rw (latest, empty, prepare) refl
        ]
      ]

texts-text_items : (files : List String) → texts (text_items files) ≡ files
texts-text_items [] = refl
texts-text_items (f ∷ files) = ap (λ rest. f ∷ rest) (texts-text_items files)

prepare-checkpoint_state :
    (w : Services) (system_prompt : Role → String) (by_sequence : List Row → List Row)
    (config : LoopConfig) (past : Past) (checkpoint : Checkpoint) (saved : LoopState)
    → load_latest_checkpoint past.checkpoints ≡ some checkpoint
    → checkpoint.state ≡ checkpoint_state saved
    → let start = prepare w system_prompt by_sequence config (some past) in
      (start.messages ≡ map (λ r. r.message) (by_sequence past.rows))
      × (start.all_intentional ≡ saved.all_intentional)
      × (start.steps ≡ 0)
      × (start.budget ≡ fresh_budget config)
unfolding prepare checkpoint_state seed get_field get_messages
prepare-checkpoint_state w system_prompt by_sequence config past checkpoint saved latest same =
    rw (latest, same, prepare) (refl, texts-text_items saved.all_intentional, refl, refl)

load_latest_checkpoint-last :
    (cs : List Checkpoint) (c : Checkpoint)
    → All (λ x. x.step < c.step) cs
    → load_latest_checkpoint (cs ++ c ∷ []) ≡ some c
unfolding load_latest_checkpoint
load_latest_checkpoint-last [] c h = refl
load_latest_checkpoint-last (x ∷ cs) c h =
    rw (load_latest_checkpoint-last cs c h.1, load_latest_checkpoint) (ground (arith, h.0))

-- A step whose number is a multiple of 5, and greater than those of the checkpoints so far, saves a
-- checkpoint, and a run that is resumed from the rows and the checkpoints at that time starts from it: with
-- the messages of the conversation's rows, in the order of the query, and the intentional files that were
-- kept, but its steps and its tokens are counted from 0 again.
pub prepare-begin_step :
    (w : Services) (system_prompt : Role → String) (by_sequence : List Row → List Row)
    (config : LoopConfig) (s : LoopState)
    → ((s.steps + 1) % 5 == 0) ≡ true
    → All (λ c. c.step < s.steps + 1) s.checkpoints
    → let saved = begin_step w s in
      let start =
        prepare w system_prompt by_sequence config
          (some (record { rows = saved.stored; checkpoints = saved.checkpoints })) in
      (start.messages ≡ map (λ r. r.message) (by_sequence s.stored))
      × (start.all_intentional ≡ s.all_intentional)
      × (start.steps ≡ 0)
      × (start.budget.usage ≡ record { input_tokens = 0; output_tokens = 0 })
unfolding begin_step
prepare-begin_step w system_prompt by_sequence config s fifth newest =
    let begun = record s {
      steps = s.steps + 1;
      messages = maybe_summarize w.summary_text (trim s.messages 30) 50;
    } in
    let checkpoint : Checkpoint = record { step = s.steps + 1; state = checkpoint_state begun } in
    let past : Past = record { rows = s.stored; checkpoints = s.checkpoints ++ checkpoint ∷ [] } in
    let (messages, files, steps, budget) =
      prepare-checkpoint_state w system_prompt by_sequence config past checkpoint begun
        (load_latest_checkpoint-last s.checkpoints checkpoint newest) refl in
    rw (fifth, begin_step) (messages, files, steps, ap (λ b. b.usage) budget)
