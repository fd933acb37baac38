-- ===== src/Tests/Cost.antt =====
-- The theorem about backend/app/cost/composite.py at a concrete input.
use apex_ai.Prelude.{◌≡◌, ◌↔◌, Bool, true, false, none, String, ◌==◌, string_eq}
use apex_ai.Cost.Router.{Tier, Score, Routers, heuristic, tier_for, tier_for-heuristic_iff}

abbrev matches : Tier → String → Bool
matches Tier.cheap text = text == "define tier"
matches Tier.standard text = text == "fix it"
matches Tier.premium text = false

abbrev unsure : Score
unsure = record { tier = Tier.standard; confidence = 20; reason = "" }

abbrev routers : Routers
routers = record {
  len = λ _. 6;
  matches = matches;
  semantic_score = λ _. unsure;
  llm_score = λ _. unsure;
  is_classified = λ _. false;
  get_model_for_tier = λ _. "model";
}

tier_for-heuristic_iff_example :
    ((tier_for routers "fix it" none).decided_by ≡ heuristic)
    ↔ ((t : Tier) × (matches t "fix it" ≡ true))
tier_for-heuristic_iff_example = tier_for-heuristic_iff routers "fix it"
