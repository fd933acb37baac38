-- ===== src/Agent/Loop/Steps.antt =====
-- Induction over the rounds of the agent loop, and that the loop ends.
use apex_ai.Prelude.{
  ℕ, zero, suc, ◌+◌, ◌≤◌, ◌<◌, List, ◌≡◌, refl, Option, some, String, ltb, Bool-cases, inl, inr,
  arith,
}
use mathlib.Core.Path.{subst}
use Prim.Native.Nat.{max}
use apex_ai.Agent.Roles.{Role}
use apex_ai.Agent.Memory.Store.{Row}
use apex_ai.Agent.Loop.State.{Services, LoopState}
use apex_ai.Agent.Loop.Round.{step-IsEnded}
use apex_ai.Agent.Loop.Run.{LoopConfig, Past, effective_max_steps, prepare, run_agent}
use apex_ai.Agent.Loop.Rounds.{StepEnd, go_on, stopped, raised, step, crash, run_steps}

pub data EndView (e : StepEnd) : Type 0 where
  is_go_on : e ≡ go_on → EndView e
  is_stopped : e ≡ stopped → EndView e
  is_raised : (text : String) → e ≡ raised text → EndView e

pub end_view : (e : StepEnd) → EndView e
end_view go_on = is_go_on refl
end_view stopped = is_stopped refl
end_view (raised text) = is_raised text refl

-- What holds of every state that a round goes on from, and then of the state that the loop ends in.
module _ (w : Services) (max_steps : ℕ) (P Q : LoopState → Type 0)
    (goes : (s : LoopState) → s.steps < max_steps → P s → (step w s).1 ≡ go_on → P (step w s).0)
    (stops : (s : LoopState) → s.steps < max_steps → P s → (step w s).1 ≡ stopped → Q (step w s).0)
    (raises : (s : LoopState) (e : String)
      → s.steps < max_steps
      → P s
      → (step w s).1 ≡ raised e
      → Q (crash (step w s).0 e))
    (limit : (s : LoopState) → P s → max_steps ≤ s.steps → Q s) where
  pub run_steps_induction :
      (fuel : ℕ) (s r : LoopState) → P s → run_steps w max_steps fuel s ≡ some r → Q r
  unfolding run_steps
  run_steps_induction zero s r p e = elim (Bool-cases (ltb s.steps max_steps)) [
    | inl below ↦ let e' = rw (below, run_steps) at e in cc
    | inr above ↦
        let e' = rw (above, run_steps) at e in
        let same : ◌≡◌ {A = LoopState} s r = cc in subst Q same (limit s p (ground (arith, above)))
  ]
  run_steps_induction (suc fuel) s r p e = elim (Bool-cases (ltb s.steps max_steps)) [
    | inr above ↦
        let e' = rw (above, run_steps) at e in
        let same : ◌≡◌ {A = LoopState} s r = cc in subst Q same (limit s p (ground (arith, above)))
    | inl below ↦ elim (end_view (step w s).1) [
      | is_go_on h ↦
          run_steps_induction fuel (step w s).0 r (goes s (ground (arith, below)) p h)
            (rw (below, h, run_steps) at e)
      | is_stopped h ↦
          let e' = rw (below, h, run_steps) at e in
          let same : ◌≡◌ {A = LoopState} (step w s).0 r = cc in
          subst Q same (stops s (ground (arith, below)) p h)
      | is_raised text h ↦
          let e' = rw (below, h, run_steps) at e in
          let same : ◌≡◌ {A = LoopState} (crash (step w s).0 text) r = cc in
          subst Q same (raises s text (ground (arith, below)) p h)
    ]
  ]

-- The loop returns a state whenever its fuel is at least what is left of the steps.
enough_fuel :
    (w : Services) (max_steps fuel : ℕ) (s : LoopState)
    → max_steps ≤ s.steps + fuel
    → (r : LoopState) × (run_steps w max_steps fuel s ≡ some r)
unfolding run_steps
enough_fuel w max_steps zero s h = elim (Bool-cases (ltb s.steps max_steps)) [
  | inl below ↦ let impossible : ⊥ = ground (arith, below) in elim impossible [ ]
  | inr above ↦ rw (above, run_steps) (s, refl)
]
enough_fuel w max_steps (suc fuel) s h = elim (Bool-cases (ltb s.steps max_steps)) [
  | inr above ↦ rw (above, run_steps) (s, refl)
  | inl below ↦ elim (end_view (step w s).1) [
    | is_go_on e ↦
        rw (below, e, run_steps)
          (enough_fuel w max_steps fuel (step w s).0 (omega (arith, (step-IsEnded w s).0)))
    | is_stopped e ↦ rw (below, e, run_steps) ((step w s).0, refl)
    | is_raised text e ↦ rw (below, e, run_steps) (crash (step w s).0 text, refl)
  ]
]

-- No round starts at the limit, so that the counter ends at most there.
run_steps-le :
    (w : Services) (max_steps fuel bound : ℕ) (s r : LoopState)
    → max_steps ≤ bound
    → s.steps ≤ bound
    → run_steps w max_steps fuel s ≡ some r
    → r.steps ≤ bound
run_steps-le w max_steps fuel bound s r m =
    let counts : LoopState → Type 0 = λ s. s.steps ≤ bound in
    let grows : (s : LoopState) → s.steps < max_steps → (step w s).0.steps ≤ bound =
      λ s below. omega (arith, m, below, (step-IsEnded w s).0) in
    run_steps_induction w max_steps counts counts (λ s below p e. grows s below)
      (λ s below p e. grows s below) (λ s e below p raises. grows s below) (λ s p limit. p) fuel s r

-- A run of the agent always ends, and no run counts more steps than its limit or, if it is resumed further
-- on, than those that it starts with.
pub run_agent-total :
    (w : Services) (system_prompt : Role → String) (by_sequence : List Row → List Row)
    (config : LoopConfig) (past : Option Past)
    → (r : LoopState) × (run_agent w system_prompt by_sequence config past ≡ some r)
      × (r.steps
          ≤ max
              (effective_max_steps config)
              (prepare w system_prompt by_sequence config past).steps)
unfolding run_agent
run_agent-total w system_prompt by_sequence config past =
    let limit = effective_max_steps config in
    let s = prepare w system_prompt by_sequence config past in
    let (r, e) = enough_fuel w limit limit s (omega arith) in
    (r, e, run_steps-le w limit limit (max limit s.steps) s r (omega arith) (omega arith) e)
