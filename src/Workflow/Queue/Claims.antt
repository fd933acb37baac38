-- ===== src/Workflow/Queue/Claims.antt =====
-- What a claim takes.
use apex_ai.Prelude.{
  nat_eq, none, ℕ, ◌+◌, ◌≤◌, ◌<◌, ◌≡◌, refl, ◌⊎◌, inl, inr, true, false, ◌&&◌, Option, some, List,
  [], ◌∷◌, ◌++◌, length, length-append, leb, Bool-cases, Option-cases, arith,
}
use apex_ai.Workflow.Records.{StepStatus, ProcessStep, step_status_eq}
use apex_ai.Workflow.Queue.{
  is_claimable, is_due, mark_running, candidate_ids, claim_loop, claim_ready_steps,
}

-- A claimed row: some row that the lock returned, pending or retrying and with no retry time ahead, now
-- running with one attempt more, the time of the claim and no retry time, and else as it was.
pub record IsClaim (lock : ℕ → Option ProcessStep) (now : ℕ) (s : ProcessStep) : Type 0 where
  pub old : ProcessStep
  pub step_id : ℕ
  pub locked : lock step_id ≡ some old
  pub claimable : (old.status ≡ StepStatus.pending) ⊎ (old.status ≡ StepStatus.retrying)
  pub due : (t : ℕ) → old.next_retry_at ≡ some t → t ≤ now
  pub marked : s ≡ record old {
    status = StepStatus.running;
    attempt = old.attempt + 1;
    started_at = some now;
    next_retry_at = none;
  }

due_lem : (now : ℕ) (at : Option ℕ) → is_due now at ≡ true → (t : ℕ) → at ≡ some t → t ≤ now
due_lem now none h t e = cc
due_lem now (some u) h t e = ground arith

IsClaim-mark_running :
    (lock : ℕ → Option ProcessStep) (now step_id : ℕ) (old : ProcessStep)
    → lock step_id ≡ some old
    → (is_claimable old.status && is_due now old.next_retry_at) ≡ true
    → IsClaim lock now (mark_running now old)
unfolding mark_running
IsClaim-mark_running lock now step_id old e fit = record {
  old = old;
  step_id = step_id;
  locked = e;
  claimable = ground arith;
  due = due_lem now old.next_retry_at (ground arith);
  marked = refl;
}

abbrev pub AllClaims : (ℕ → Option ProcessStep) → ℕ → List ProcessStep → Type 0
AllClaims lock now [] = Unit
AllClaims lock now (s ∷ ss) = IsClaim lock now s × AllClaims lock now ss

AllClaims-snoc :
    (lock : ℕ → Option ProcessStep) (now : ℕ) (xs : List ProcessStep) (s : ProcessStep)
    → AllClaims lock now xs
    → IsClaim lock now s
    → AllClaims lock now (xs ++ s ∷ [])
AllClaims-snoc lock now [] s h c = (c, tt)
AllClaims-snoc lock now (x ∷ xs) s h c = (h.0, AllClaims-snoc lock now xs s h.1 c)

module _ (order_by_created_at : List ProcessStep → List ProcessStep) (lock : ℕ → Option ProcessStep)
    (now limit : ℕ) where
  -- One round of the loop over the candidates.
  pub data Round (claimed : List ProcessStep) (step_id : ℕ) (ids : List ℕ) (r : List ProcessStep)
      : Type 0 where
    skipped :
        ((old : ProcessStep)
          → lock step_id ≡ some old
          → (is_claimable old.status && is_due now old.next_retry_at) ≡ false)
        → r ≡ claim_loop order_by_created_at lock now limit claimed ids
        → Round claimed step_id ids r
    stopped :
        (old : ProcessStep)
        → IsClaim lock now (mark_running now old)
        → limit ≤ length r
        → r ≡ claimed ++ mark_running now old ∷ []
        → Round claimed step_id ids r
    taken :
        (old : ProcessStep)
        → lock step_id ≡ some old
        → IsClaim lock now (mark_running now old)
        → length claimed + 1 < limit
        → r
          ≡ claim_loop order_by_created_at lock now limit (claimed ++ mark_running now old ∷ []) ids
        → Round claimed step_id ids r

  pub claim_loop-Round :
      (claimed : List ProcessStep) (step_id : ℕ) (ids : List ℕ)
      → Round claimed step_id ids
          (claim_loop order_by_created_at lock now limit claimed (step_id ∷ ids))
  unfolding claim_loop
  claim_loop-Round claimed step_id ids = elim (Option-cases (lock step_id)) [
    | inl e ↦ skipped (λ old h. cc) (rw (e, claim_loop))
    | inr (old, e) ↦ elim (Bool-cases (is_claimable old.status && is_due now old.next_retry_at)) [
      | inr unfit ↦ skipped (λ old' h. ground arith) (rw (e, claim_loop) (ground arith))
      | inl fit ↦
          let c : IsClaim lock now (mark_running now old) =
            IsClaim-mark_running lock now step_id old e fit in
          elim (Bool-cases (leb limit (length (claimed ++ mark_running now old ∷ [])))) [
            | inl full ↦
                let r : claim_loop order_by_created_at lock now limit claimed (step_id ∷ ids)
                    ≡ claimed ++ mark_running now old ∷ [] =
                  rw (e, claim_loop) (ground arith) in
                stopped old c (rw r (ground arith)) r
            | inr room ↦
                taken old e c (ground (arith, length-append claimed (mark_running now old ∷ [])))
                  (rw (e, claim_loop) (ground arith))
          ]
    ]
  ]

  loop-AllClaims :
      (claimed : List ProcessStep) (ids : List ℕ)
      → AllClaims lock now claimed
      → AllClaims lock now (claim_loop order_by_created_at lock now limit claimed ids)
  unfolding claim_loop
  loop-AllClaims claimed [] h = h
  loop-AllClaims claimed (step_id ∷ ids) h = elim (claim_loop-Round claimed step_id ids) [
    | skipped why e ↦ rw e (loop-AllClaims claimed ids h)
    | stopped old c l e ↦ rw e (AllClaims-snoc lock now claimed (mark_running now old) h c)
    | taken old here c l e ↦ rw e (
        loop-AllClaims (claimed ++ mark_running now old ∷ []) ids
          (AllClaims-snoc lock now claimed (mark_running now old) h c))
  ]

  length-loop :
      (claimed : List ProcessStep) (ids : List ℕ)
      → length claimed < limit
      → length (claim_loop order_by_created_at lock now limit claimed ids) ≤ limit
  unfolding claim_loop
  length-loop claimed [] h = omega arith
  length-loop claimed (step_id ∷ ids) h = elim (claim_loop-Round claimed step_id ids) [
    | skipped why e ↦ rw e (length-loop claimed ids h)
    | stopped old c l e ↦ rw e (omega (arith, length-append claimed (mark_running now old ∷ [])))
    | taken old here c l e ↦ rw e (
        length-loop (claimed ++ mark_running now old ∷ []) ids
          (omega (arith, length-append claimed (mark_running now old ∷ []))))
  ]

  no_candidates :
      (steps : List ProcessStep)
      → limit ≡ 0
      → candidate_ids order_by_created_at lock now limit steps ≡ []
  unfolding candidate_ids
  no_candidates steps e = rw e

  length-claims :
      (steps : List ProcessStep)
      → length (claim_ready_steps order_by_created_at lock now limit steps) ≤ limit
  unfolding claim_ready_steps
  length-claims steps = elim (Bool-cases (leb limit 0)) [
    | inl nothing ↦ rw (no_candidates steps (ground arith)) (omega arith)
    | inr some_room ↦
        length-loop [] (candidate_ids order_by_created_at lock now limit steps) (ground arith)
  ]

  -- Every claimed row was locked, pending or retrying, and due; it is now running, with one attempt more
  -- and no retry time. No more than `limit` rows are claimed.
  pub claim_ready_steps-AllClaims :
      (steps : List ProcessStep)
      → AllClaims lock now (claim_ready_steps order_by_created_at lock now limit steps)
        × (length (claim_ready_steps order_by_created_at lock now limit steps) ≤ limit)
  unfolding claim_ready_steps
  claim_ready_steps-AllClaims steps = (
    loop-AllClaims [] (candidate_ids order_by_created_at lock now limit steps) tt,
    length-claims steps,
  )
