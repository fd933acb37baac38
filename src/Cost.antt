-- ===== src/Cost.antt =====
-- `check_and_record_daily_alert` of backend/app/cost/budget.py. The quotient of two numbers is a float in the
-- code: whether it is at least a threshold is the argument `reaches`.
pub mod Alerts
pub mod Router
use apex_ai.Prelude.{
  ℕ, Bool, true, false, not, ◌&&◌, ◌||◌, Option, none, some, List, [], ◌∷◌, ◌++◌, String, ◌==◌,
  string_eq, nat_eq, if◌then◌else◌, any,
}

-- `THRESHOLDS`
pub data Threshold : Type 0 where
  half ninety whole : Threshold

-- `_THRESHOLD_KIND`
abbrev pub alert_kind : Threshold → String
alert_kind Threshold.half = "daily_50"
alert_kind Threshold.ninety = "daily_90"
alert_kind Threshold.whole = "daily_100"

-- A row of the alerts; the period is a day, and `actual` the quotient of the tokens and the cap.
pub record BudgetAlert : Type 0 where
  pub org_id : String
  pub kind : String
  pub threshold : Threshold
  pub period : String
  pub tokens_used : ℕ
  pub cap : ℕ

-- The condition of the query for an alert of the same kind.
unfoldable pub is_same_alert : String → String → String → BudgetAlert → Bool
is_same_alert org_id kind period a = a.org_id == org_id && (a.kind == kind && a.period == period)

-- A call: the day, and the tokens that the organisation has used by then.
pub record DailyCheck : Type 0 where
  pub org_id : String
  pub daily_cap : ℕ
  pub period : String
  pub used_today : ℕ

module _ (reaches : Threshold → ℕ → ℕ → Bool) where
  -- The loop over the thresholds, in their order; the last one that is reached stays.
  unfoldable pub crossed_from : ℕ → ℕ → Option Threshold → List Threshold → Option Threshold
  crossed_from used cap crossed [] = crossed
  crossed_from used cap crossed (t ∷ ts) =
      crossed_from used cap (if reaches t used cap then some t else crossed) ts

  abbrev pub crossed : ℕ → ℕ → Option Threshold
  crossed used cap =
      crossed_from used cap none (Threshold.half ∷ Threshold.ninety ∷ Threshold.whole ∷ [])

  -- The alert of a threshold, if there is none of its kind for the day.
  unfoldable pub record_alert :
      DailyCheck → List BudgetAlert → Threshold → List BudgetAlert × Option BudgetAlert
  unfolding is_same_alert
  record_alert c alerts t =
      let alert : BudgetAlert = record {
        org_id = c.org_id;
        kind = alert_kind t;
        threshold = t;
        period = c.period;
        tokens_used = c.used_today;
        cap = c.daily_cap;
      } in
      if any (is_same_alert c.org_id (alert_kind t) c.period) alerts
      then (alerts, none)
      else (alerts ++ alert ∷ [], some alert)

  -- `check_and_record_daily_alert`: the alerts after the call, and the new one.
  unfoldable pub check_and_record_daily_alert :
      DailyCheck → List BudgetAlert → List BudgetAlert × Option BudgetAlert
  unfolding crossed_from record_alert
  check_and_record_daily_alert c alerts =
      if c.org_id == "" || c.daily_cap == 0
      then (alerts, none)
      else elim (crossed c.used_today c.daily_cap) [
        | none ↦ (alerts, none)
        | some t ↦ record_alert c alerts t
      ]
