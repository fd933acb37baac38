-- ===== src/Cost/Router.antt =====
-- backend/app/cost/heuristic.py and backend/app/cost/composite.py: which tier of models answers a prompt. A
-- confidence is counted in hundredths. The regular expressions, the length of a text, and the semantic and LLM
-- routers are arguments.
use apex_ai.Prelude.{
  ℕ, ◌≡◌, ◌↔◌, Bool, true, false, Option, none, some, String, if◌then◌else◌, ltb, leb, arith,
  Bool-cases, inl, inr, ◌⊎◌, ◌≤◌,
}

-- `Tier`
pub data Tier : Type 0 where
  cheap standard premium : Tier

-- A score of a router.
pub record Score : Type 0 where
  pub tier : Tier
  pub confidence : ℕ
  pub reason : String

-- `decided_by`
pub data DecidedBy : Type 0 where
  manual heuristic semantic llm manual_fallback : DecidedBy

pub record TierDecision : Type 0 where
  pub tier : Tier
  pub decided_by : DecidedBy
  pub model : String
  pub confidence : ℕ

-- What the routers call. `matches` says whether one of the patterns of a tier is found in the text.
pub record Routers : Type 0 where
  pub len : String → ℕ
  pub matches : Tier → String → Bool
  pub semantic_score : String → Score
  pub llm_score : String → Score
  pub is_classified : String → Bool
  pub get_model_for_tier : Tier → String

-- `_length_signal`
unfoldable pub length_signal : ℕ → Tier × ℕ
length_signal n =
    if ltb n 80
    then (Tier.cheap, 60)
    else if ltb n 600
    then (Tier.standard, 60)
    else if ltb n 2000
    then (Tier.standard, 70)
    else (Tier.premium, 70)

module _ (r : Routers) where
  -- `_keyword_signal`
  unfoldable pub keyword_signal : String → Option (Tier × ℕ)
  keyword_signal prompt =
      if r.matches Tier.cheap prompt
      then some (Tier.cheap, 95)
      else if r.matches Tier.premium prompt
      then some (Tier.premium, 95)
      else if r.matches Tier.standard prompt
      then some (Tier.standard, 85)
      else none

  -- `HeuristicRouter.score`
  unfoldable pub heuristic_score : String → Tier × ℕ
  unfolding length_signal keyword_signal
  heuristic_score prompt = elim (keyword_signal prompt) [
    | some found ↦ found
    | none ↦ length_signal (r.len prompt)
  ]

  abbrev decision : DecidedBy → Tier → ℕ → TierDecision
  decision by tier confidence = record {
    tier = tier;
    decided_by = by;
    model = r.get_model_for_tier tier;
    confidence = confidence;
  }

  -- `CompositeRouter.tier_for`
  unfoldable pub tier_for : String → Option Tier → TierDecision
  unfolding heuristic_score
  tier_for prompt (some tier) = decision manual tier 100
  tier_for prompt none =
      let (tier, confidence) = heuristic_score prompt in
      let s = r.semantic_score prompt in
      let l = r.llm_score prompt in
      if leb 80 confidence
      then decision heuristic tier confidence
      else if leb 70 s.confidence
      then decision semantic s.tier s.confidence
      else decision (if r.is_classified l.reason then llm else manual_fallback) l.tier l.confidence

  length_signal-le : (n : ℕ) → (length_signal n).1 ≤ 70
  unfolding length_signal
  length_signal-le n = ground arith

  keyword_found :
      (prompt : String)
      → ((t : Tier) × (r.matches t prompt ≡ true)
          × (c : Tier × ℕ) × (keyword_signal prompt ≡ some c)
          × (80 ≤ c.1))
        ⊎ ((keyword_signal prompt ≡ none) × ((t : Tier) → r.matches t prompt ≡ false))
  unfolding keyword_signal
  keyword_found prompt = elim (Bool-cases (r.matches Tier.cheap prompt)) [
    | inl yes_ ↦ inl (Tier.cheap, yes_, (Tier.cheap, 95), rw yes_, omega arith)
    | inr no1 ↦ elim (Bool-cases (r.matches Tier.premium prompt)) [
      | inl yes_ ↦ inl (Tier.premium, yes_, (Tier.premium, 95), rw (no1, yes_), omega arith)
      | inr no2 ↦ elim (Bool-cases (r.matches Tier.standard prompt)) [
        | inl yes_ ↦
            inl (Tier.standard, yes_, (Tier.standard, 85), rw (no1, no2, yes_), omega arith)
        | inr no3 ↦ inr (
          rw (no1, no2, no3),
          λ t. elim t as (λ k. r.matches k prompt ≡ false) [
            | Tier.cheap ↦ no1
            | Tier.premium ↦ no2
            | Tier.standard ↦ no3
          ],
        )
      ]
    ]
  ]

  decided_by_keyword :
      (prompt : String)
      → ((tier_for prompt none).decided_by ≡ heuristic) ↔ ((t : Tier) × (r.matches t prompt ≡ true))
  unfolding tier_for heuristic_score
  decided_by_keyword prompt = elim (keyword_found prompt) [
    | inl (t, hit, c, e, sure) ↦ (λ _. (t, hit), λ _. ground (arith, e))
    | inr (e, miss) ↦ (
      λ h. absurd (ground (arith, e, length_signal-le (r.len prompt))),
      λ h. let m = miss h.0 in absurd (cc (h.1)),
    )
  ]

-- A keyword always decides, and a length never does: without an override, the heuristic router has the last
-- word exactly if a pattern of some tier is found in the prompt.
pub tier_for-heuristic_iff :
    (r : Routers) (prompt : String)
    → ((tier_for r prompt none).decided_by ≡ heuristic) ↔ ((t : Tier) × (r.matches t prompt ≡ true))
tier_for-heuristic_iff r prompt = decided_by_keyword r prompt
