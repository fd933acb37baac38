-- ===== src/Workflow/Queue/Takes.antt =====
-- What a claim does not pass over.
use mathlib.Core.List.{Memᴰ}
use mathlib.Core.List.Memᴰ
use apex_ai.Prelude.{
  nat_eq, ◌==◌, ==_iff, ==_refl, ap, sym, zero, suc, ◌*◌, ◌||◌, ◌∙◌, Bool, none, map, filter, take,
  ℕ, ◌+◌, ◌≤◌, ◌<◌, ◌≡◌, refl, inl, inr, true, ◌&&◌, Option, some, List, [], ◌∷◌, ◌++◌, length, leb,
  contains, Bool-cases, Option-cases, arith,
}
use apex_ai.Workflow.Records.{StepStatus, ProcessStep, step_status_eq}
use apex_ai.Workflow.Queue.{
  is_claimable, is_due, mark_running, candidate_ids, claim_loop, claim_ready_steps,
}
use apex_ai.Workflow.Queue.Claims.{skipped, stopped, taken, claim_loop-Round}

module _ (order_by_created_at : List ProcessStep → List ProcessStep) (lock : ℕ → Option ProcessStep)
    (now limit : ℕ) where
  loop_keeps :
      (claimed : List ProcessStep) (ids : List ℕ) (s : ProcessStep)
      → Memᴰ s claimed
      → Memᴰ s (claim_loop order_by_created_at lock now limit claimed ids)
  unfolding claim_loop
  loop_keeps claimed [] s h = h
  loop_keeps claimed (step_id ∷ ids) s h =
      elim (claim_loop-Round order_by_created_at lock now limit claimed step_id ids) [
        | skipped why e ↦ rw e (loop_keeps claimed ids s h)
        | stopped old c l e ↦ rw e (Memᴰ.append_left _ h)
        | taken old here c l e ↦
            rw e (loop_keeps (claimed ++ mark_running now old ∷ []) ids s (Memᴰ.append_left _ h))
      ]

  loop_takes :
      (claimed : List ProcessStep) (ids : List ℕ) (id : ℕ) (old : ProcessStep)
      → contains ids id ≡ true
      → lock id ≡ some old
      → (is_claimable old.status && is_due now old.next_retry_at) ≡ true
      → length (claim_loop order_by_created_at lock now limit claimed ids) < limit
      → Memᴰ (mark_running now old) (claim_loop order_by_created_at lock now limit claimed ids)
  loop_takes claimed [] id old m l fit short = cc
  loop_takes claimed (step_id ∷ ids) id old m l fit short =
      elim (claim_loop-Round order_by_created_at lock now limit claimed step_id ids) [
        | skipped why e ↦ rw e (
            loop_takes claimed ids id old (ground (arith, why old, ==_iff step_id id)) l fit
              (rw e at short))
        | stopped old' c full e ↦ absurd (omega arith)
        | taken old' here c room e ↦ elim (Bool-cases (step_id == id)) [
          | inl same ↦
              let e' : old' ≡ old = ground (arith, ==_iff step_id id) in
              rw e (
                loop_keeps (claimed ++ mark_running now old' ∷ []) ids (mark_running now old)
                  (Memᴰ.append_right claimed (Memᴰ.head (ap (mark_running now) (sym e')))))
          | inr other ↦ rw e (
              loop_takes (claimed ++ mark_running now old' ∷ []) ids id old (ground arith) l fit
                (rw e at short))
        ]
      ]

abbrev not_ahead : ℕ → Option ℕ → Bool
not_ahead now none = true
not_ahead now (some t) = leb t now

mem-filter :
    (p : ProcessStep → Bool) (xs : List ProcessStep) (s : ProcessStep)
    → Memᴰ s xs
    → p s ≡ true
    → Memᴰ s (filter p xs)
mem-filter p [] s m h = elim m [ ]
mem-filter p (x ∷ xs) s (Memᴰ.head e) h =
    let hit : p x ≡ true = rw (sym e) h in rw hit (Memᴰ.head e)
mem-filter p (x ∷ xs) s (Memᴰ.tail m) h = elim (Bool-cases (p x)) [
  | inl hit ↦ rw hit (Memᴰ.tail (mem-filter p xs s m h))
  | inr miss ↦ rw miss (mem-filter p xs s m h)
]

filter-same :
    (p q : ProcessStep → Bool)
    → ((s : ProcessStep) → p s ≡ q s)
    → (xs : List ProcessStep) → filter p xs ≡ filter q xs
filter-same p q h [] = refl
filter-same p q h (x ∷ xs) = rw (h x, filter-same p q h xs)

take-all : (n : ℕ) (xs : List ProcessStep) → length xs ≤ n → take n xs ≡ xs
take-all zero [] h = refl
take-all zero (x ∷ xs) h = absurd (omega arith)
take-all (suc n) [] h = refl
take-all (suc n) (x ∷ xs) h = ap (λ rest. x ∷ rest) (take-all n xs (omega arith))

contains-map :
    (xs : List ProcessStep) (s : ProcessStep)
    → Memᴰ s xs
    → contains (map (λ x. x.id) xs) s.id ≡ true
contains-map [] s m = elim m [ ]
contains-map (x ∷ xs) s (Memᴰ.head e) = rw (e, ==_refl x.id)
contains-map (x ∷ xs) s (Memᴰ.tail m) = ground (arith, contains-map xs s m)

-- A row that may be run: pending or waiting for a retry, with no retry time ahead.
abbrev pub is_ready : ℕ → ProcessStep → Bool
is_ready now s =
    (s.status == StepStatus.pending || s.status == StepStatus.retrying)
    && not_ahead now s.next_retry_at

is_ready_lem :
    (now : ℕ) (s : ProcessStep)
    → (is_claimable s.status && is_due now s.next_retry_at) ≡ is_ready now s
is_ready_lem now s = elim (Option-cases s.next_retry_at) [
  | inl e ↦ rw e (ground arith)
  | inr (t, e) ↦ rw e (ground arith)
]

module _ (order_by_created_at : List ProcessStep → List ProcessStep)
    (whole : (xs : List ProcessStep) (s : ProcessStep)
      → Memᴰ s xs
      → Memᴰ s (order_by_created_at xs))
    (same_length : (xs : List ProcessStep) → length (order_by_created_at xs) ≡ length xs)
    (lock : ℕ → Option ProcessStep) (now limit : ℕ) where
  -- While the ready rows are at most three times the limit, each of them is a candidate.
  candidate_of_ready :
      (steps : List ProcessStep) (s : ProcessStep)
      → Memᴰ s steps
      → is_ready now s ≡ true
      → length (filter (is_ready now) steps) ≤ limit * 3
      → contains (candidate_ids order_by_created_at lock now limit steps) s.id ≡ true
  unfolding candidate_ids
  candidate_of_ready steps s m ready few =
      let code : ProcessStep → Bool = λ x. is_claimable x.status && is_due now x.next_retry_at in
      let same : filter code steps ≡ filter (is_ready now) steps =
        filter-same code (is_ready now) (is_ready_lem now) steps in
      let ordered = order_by_created_at (filter code steps) in
      let fits : length ordered ≤ limit * 3 = rw (same_length (filter code steps), same) few in
      rw (take-all (limit * 3) ordered fits) (
        contains-map ordered s
          (whole (filter code steps) s (mem-filter code steps s m (is_ready_lem now s ∙ ready))))

  -- No ready row is passed over while there is room: where the ready rows are at most three times the
  -- limit, and fewer than `limit` rows were claimed, every ready row that the lock returns as a ready one is
  -- claimed, and now running. The order of the query may be any that loses and repeats nothing.
  pub claim_ready_steps_takes :
      (steps : List ProcessStep) (s old : ProcessStep)
      → Memᴰ s steps
      → is_ready now s ≡ true
      → length (filter (is_ready now) steps) ≤ limit * 3
      → lock s.id ≡ some old
      → is_ready now old ≡ true
      → length (claim_ready_steps order_by_created_at lock now limit steps) < limit
      → Memᴰ
          (record old {
            status = StepStatus.running;
            attempt = old.attempt + 1;
            started_at = some now;
            next_retry_at = none;
          })
          (claim_ready_steps order_by_created_at lock now limit steps)
  unfolding claim_ready_steps mark_running candidate_ids
  claim_ready_steps_takes steps s old m ready few locked fit short =
      loop_takes order_by_created_at lock now limit []
        (candidate_ids order_by_created_at lock now limit steps) s.id old
        (candidate_of_ready steps s m ready few) locked (is_ready_lem now old ∙ fit) short
