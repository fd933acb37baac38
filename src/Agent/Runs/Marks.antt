-- ===== src/Agent/Runs/Marks.antt =====
-- What marking the old runs does, and which marked runs can be resumed.
use apex_ai.Prelude.{
  ℕ, ◌+◌, ◌≡◌, ap, sym, ==_iff, refl, Bool, true, false, some, List, [], ◌∷◌, String, ◌==◌,
  string_eq, Bool-cases, inl, inr, filter, length, err, arith,
}
use mathlib.Core.Path.{subst}
use apex_ai.Agent.Roles.{Role}
use apex_ai.Agent.Memory.Store.{Row}
use apex_ai.Agent.Loop.State.{Services}
use apex_ai.Agent.Loop.Run.{Past}
use apex_ai.Agent.Runs.{
  AgentRun, is_old, mark_row, mark_rows, mark_stuck_runs, mark_stuck_runs_interrupted, is_listed,
  is_resumable, resume_run, cannot_resume,
}

abbrev pub has_status : String → AgentRun → Bool
has_status status run = run.status == status

module _ (now threshold : ℕ) (text : AgentRun → String) where
  marks :
      (run : AgentRun)
      → is_old now threshold run ≡ true
      → mark_row "stuck" text now threshold run
        ≡ record run { status = "stuck"; error = some (text run); finished_at = some now }
  unfolding mark_row
  marks run old = rw (old, mark_row) refl

  keeps :
      (run : AgentRun)
      → is_old now threshold run ≡ false
      → mark_row "stuck" text now threshold run ≡ run
  unfolding mark_row
  keeps run young = rw (young, mark_row) refl

  not_stuck : (run : AgentRun) → is_old now threshold run ≡ true → has_status "stuck" run ≡ false
  unfolding is_old
  not_stuck run old =
      let running : (run.status == "running") ≡ true = ground (arith, old) in
      subst (λ (status : String). (status == "stuck") ≡ false)
        (sym ((==_iff run.status "running").0 running)) refl

  mark_rows_settled :
      (runs : List AgentRun)
      → let marked = mark_rows "stuck" text now threshold runs in
        (filter (is_old now threshold) marked ≡ [])
        × (length (filter (has_status "stuck") marked)
            ≡ length (filter (has_status "stuck") runs)
              + length (filter (is_old now threshold) runs))
  unfolding is_old
  mark_rows_settled [] = (refl, omega arith)
  mark_rows_settled (run ∷ runs) =
      let (none_left, counts) = mark_rows_settled runs in
      elim (Bool-cases (is_old now threshold run)) [
        | inl old ↦ rw (marks run old, old, not_stuck run old) (none_left, omega (arith, counts))
        | inr young ↦
            rw (keeps run young, young)
              (
                none_left,
                elim (Bool-cases (has_status "stuck" run)) [
                  | inl stuck ↦ rw (stuck) (omega (arith, counts))
                  | inr other ↦ rw (other) counts
                ],
              )
      ]

  nothing_old :
      (runs : List AgentRun)
      → filter (is_old now threshold) runs ≡ []
      → mark_rows "stuck" text now threshold runs ≡ runs
  nothing_old [] h = refl
  nothing_old (run ∷ runs) h = elim (Bool-cases (is_old now threshold run)) [
    | inl old ↦ let h' = rw (old) at h in cc
    | inr young ↦
        rw (keeps run young) (ap (λ rest. run ∷ rest) (nothing_old runs (rw (young) at h)))
  ]

-- After the cleanup no run is running that started more than an hour before, the number that it returns is
-- that of the runs that have become stuck, and a second cleanup at the same time changes nothing.
mark_stuck_runs-settled :
    (now : ℕ) (runs : List AgentRun)
    → let marked = (mark_stuck_runs now runs).0 in
      (filter (is_old now 3600) marked ≡ [])
      × (length (filter (has_status "stuck") marked)
          ≡ length (filter (has_status "stuck") runs) + (mark_stuck_runs now runs).1)
      × (mark_stuck_runs now marked ≡ (marked, 0))
unfolding mark_stuck_runs
mark_stuck_runs-settled now runs =
    let text : AgentRun → String = λ run. "Marked stuck by cleanup (running > 1 hour)" in
    let (none_left, counts) = mark_rows_settled now 3600 text runs in
    (
      none_left,
      counts,
      rw
          (
            nothing_old now 3600 text (mark_rows "stuck" text now 3600 runs) none_left,
            none_left,
            mark_stuck_runs,
          )
          refl,
    )

-- A run that the start of the application marks as interrupted is listed as one that can be resumed, but
-- `resume_run` refuses it.
interrupted-refused :
    (text : AgentRun → String) (now threshold_seconds : ℕ) (run : AgentRun)
    → is_old now threshold_seconds run ≡ true
    → (w : Services) (system_prompt : Role → String) (by_sequence : List Row → List Row)
      (past : Past) (approval_comment : String)
    → (marked : AgentRun) × ((mark_stuck_runs_interrupted text now threshold_seconds (run ∷ [])).0
        ≡ marked ∷ [])
      × (is_listed marked ≡ true)
      × (resume_run w system_prompt by_sequence marked past approval_comment
          ≡ err (cannot_resume "interrupted"))
unfolding mark_stuck_runs_interrupted mark_row is_listed resume_run is_resumable
interrupted-refused text now threshold run old w system_prompt by_sequence past comment = (
  record run { status = "interrupted"; error = some (text run); finished_at = some now },
  rw (old, mark_stuck_runs_interrupted, mark_row) refl,
  refl,
  refl,
)
