-- ===== src/Cost/Alerts.antt =====
-- How often an alert of backend/app/cost/budget.py is recorded.
use apex_ai.Prelude.{
  ℕ, ◌≤◌, ◌≡◌, refl, inl, inr, Bool, true, false, ◌||◌, List, [], ◌∷◌, ◌++◌, String, ◌==◌, ==_iff,
  string_eq, nat_eq, any, filter, length, filter-append, length-append, append-nil, Bool-cases,
  Option-cases, arith,
}
use apex_ai.Cost.{
  Threshold, alert_kind, BudgetAlert, DailyCheck, is_same_alert, crossed, record_alert,
  check_and_record_daily_alert,
}

-- How many alerts of a kind an organisation has for a day.
unfoldable pub alert_count : String → String → String → List BudgetAlert → ℕ
alert_count org_id kind period alerts = length (filter (is_same_alert org_id kind period) alerts)

none_counted {ℓ} :
    {A : Type ℓ} (q : A → Bool) (xs : List A) → any q xs ≡ false → length (filter q xs) ≡ 0
none_counted q [] h = refl
none_counted q (x ∷ xs) h = ground (arith, h, none_counted q xs)

abbrev pub AtMostOnce : List BudgetAlert → Type 0
AtMostOnce alerts = (org_id kind period : String) → alert_count org_id kind period alerts ≤ 1

is_same_alert-eq :
    (org_id kind period : String) (a : BudgetAlert)
    → is_same_alert org_id kind period a ≡ true
    → (a.org_id ≡ org_id) × (a.kind ≡ kind) × (a.period ≡ period)
unfolding is_same_alert
is_same_alert-eq org_id kind period a h = (
  ground (arith, h, ==_iff a.org_id org_id),
  ground (arith, h, ==_iff a.kind kind),
  ground (arith, h, ==_iff a.period period),
)

-- An alert of which there was none.
new_alert-AtMostOnce :
    (alert : BudgetAlert) (alerts : List BudgetAlert)
    → AtMostOnce alerts
    → any (is_same_alert alert.org_id alert.kind alert.period) alerts ≡ false
    → AtMostOnce (alerts ++ alert ∷ [])
unfolding alert_count
new_alert-AtMostOnce alert alerts once new org_id kind period =
    let q = is_same_alert org_id kind period in
    let whole = length-append (filter q alerts) (filter q (alert ∷ [])) in
    rw (filter-append q alerts (alert ∷ [])) (elim (Bool-cases (q alert)) [
      | inr other ↦ rw (other, append-nil (filter q alerts)) (once org_id kind period)
      | inl same ↦
          let (o, k, p) = is_same_alert-eq org_id kind period alert same in
          let fresh : any q alerts ≡ false = cc in
          rw (same) (
            omega
              (arith, length-append (filter q alerts) (alert ∷ []), none_counted q alerts fresh))
    ])

module _ (reaches : Threshold → ℕ → ℕ → Bool) where
  record_alert-AtMostOnce :
      (c : DailyCheck) (alerts : List BudgetAlert) (t : Threshold)
      → AtMostOnce alerts
      → AtMostOnce (record_alert reaches c alerts t).0
  unfolding record_alert
  record_alert-AtMostOnce c alerts t once =
      elim (Bool-cases (any (is_same_alert c.org_id (alert_kind t) c.period) alerts)) [
        | inl known ↦ rw (known, record_alert) once
        | inr new ↦
            let alert : BudgetAlert = record {
              org_id = c.org_id;
              kind = alert_kind t;
              threshold = t;
              period = c.period;
              tokens_used = c.used_today;
              cap = c.daily_cap;
            } in
            rw (new, record_alert) (new_alert-AtMostOnce alert alerts once new)
      ]

  check-AtMostOnce :
      (c : DailyCheck) (alerts : List BudgetAlert)
      → AtMostOnce alerts
      → AtMostOnce (check_and_record_daily_alert reaches c alerts).0
  unfolding check_and_record_daily_alert
  check-AtMostOnce c alerts once = elim (Bool-cases (c.org_id == "" || c.daily_cap == 0)) [
    | inl skips ↦ rw (skips, check_and_record_daily_alert) once
    | inr counts ↦ elim (Option-cases (crossed reaches c.used_today c.daily_cap)) [
      | inl below ↦ rw (counts, below, check_and_record_daily_alert) once
      | inr (t, reached) ↦
          rw (counts, reached, check_and_record_daily_alert)
            (record_alert-AtMostOnce c alerts t once)
    ]
  ]

  -- The alerts after the calls, the last one first.
  abbrev pub check_run : List DailyCheck → List BudgetAlert
  check_run [] = []
  check_run (c ∷ past) = (check_and_record_daily_alert reaches c (check_run past)).0

  check_run-AtMostOnce : (past : List DailyCheck) → AtMostOnce (check_run past)
  unfolding alert_count
  check_run-AtMostOnce [] = λ org_id kind period. omega arith
  check_run-AtMostOnce (c ∷ past) = check-AtMostOnce c (check_run past) (check_run-AtMostOnce past)

-- However often the daily check is called, one call after the other and from no alerts, an organisation gets an alert of one kind for one day at most once.
check_run-once :
    (reaches : Threshold → ℕ → ℕ → Bool) (past : List DailyCheck) (org_id kind period : String)
    → alert_count org_id kind period (check_run reaches past) ≤ 1
check_run-once reaches past = check_run-AtMostOnce reaches past
