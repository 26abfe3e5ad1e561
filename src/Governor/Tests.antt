-- ===== src/Governor/Tests.antt =====
-- The governor's definitions run on small inputs, and its theorems at them.
use field_platform.Prelude.{ℕ, ◌*◌, ◌≤◌, ◌<◌, none, some, List, [], ◌∷◌, ◌≡◌, ◌↔◌, ◌⊎◌, refl, arith}
use field_platform.Governor.Cap.{
  ok, escalate, block, SpendCapConfig, cents, within_limits, crossed, evaluate,
}
use field_platform.Governor.Cap.Verdict.{Reached, evaluate-eq-block}
use field_platform.Governor.Actions.{Group, action_totals}
use field_platform.Governor.Actions.Exact.{IsCounted, action_totals-IsCounted}
use field_platform.Governor.Window.{
  Row, total, window_retry_after, sort_rows, shed_until, one_second,
}
use field_platform.Governor.Window.Retry.{LeastWait, window_retry_after-least}
use field_platform.Governor.Period.{
  parse_rate_period, unit_seconds, max_rate_period_seconds, parse_rate_period-bounds,
}

abbrev cap : SpendCapConfig
cap = record {
  agent_id = "a";
  currency = "USD";
  limit_cents = some 1000;
  token_limit = none;
  action_limit = some 10;
  period = "daily";
  escalate_at_pct = 80;
  on_breach = "block";
}

below : evaluate cap 799 0 7 0 ≡ (ok, within_limits)
unfolding evaluate
below = refl

at_threshold : evaluate cap 800 0 7 0 ≡ (escalate, crossed cents 800 1000 80)
unfolding evaluate
at_threshold = refl

evaluate-eq-block_example :
    ((evaluate cap 1000 0 0 0).0 ≡ block)
    ↔ (Reached 1000 cap.limit_cents ⊎ (Reached 0 cap.token_limit ⊎ Reached 0 cap.action_limit))
evaluate-eq-block_example = evaluate-eq-block cap 1000 0 0 0

abbrev none_open : ℕ
none_open = 0

-- Both sides see three mails; the sentinel alone sees a delete, the agent alone an unnamed action.
abbrev groups : List Group
groups =
    (some "mail", "agent", 3)
    ∷ (some "mail", "sentinel", 3)
    ∷ (some "delete", "sentinel", 1)
    ∷ (none, "agent", 2)
    ∷ []

groups_counted : action_totals groups ≡ (5, 4, 6)
unfolding action_totals
groups_counted = refl

action_totals-IsCounted_example :
    let (self_total, metered_total, counted) = action_totals groups in
    IsCounted groups self_total metered_total counted
action_totals-IsCounted_example = action_totals-IsCounted groups

-- Two actions ten seconds apart, in a window of a minute, at second twenty.
abbrev rows : List Row
rows = (10 * one_second, 1) ∷ (0, 1) ∷ []

rows_wait : window_retry_after rows 2 60 (20 * one_second) ≡ some (2, some 40)
unfolding window_retry_after sort_rows shed_until
rows_wait = refl

window_retry_after-least_example :
    ((total rows < 2) × (window_retry_after rows 2 60 (20 * one_second) ≡ some (total rows, none)))
    ⊎ ((2 ≤ total rows)
        × ((wait : ℕ) × (window_retry_after rows 2 60 (20 * one_second)
              ≡ some (total rows, some wait))
            × LeastWait rows 2 (60 * one_second) (20 * one_second) wait))
window_retry_after-least_example =
    window_retry_after-least rows 2 60 (20 * one_second) (omega arith) (omega arith) refl

unit_of_m : unit_seconds b'm' ≡ some 60
unfolding unit_seconds
unit_of_m = refl

fifteen_minutes : parse_rate_period "15m" ≡ some (some 900)
unfolding parse_rate_period
fifteen_minutes = refl

parse_rate_period-bounds_example : (1 ≤ 900) × (900 ≤ max_rate_period_seconds)
parse_rate_period-bounds_example = parse_rate_period-bounds "15m" 900 fifteen_minutes
