-- ===== src/Governor/StoreTests.antt =====
-- The governor's tables and handlers run on small inputs, and their theorems at them.
use field_platform.Prelude.{
  ℕ, ◌*◌, String, true, false, none, some, List, [], ◌∷◌, ◌≡◌, ◌⊎◌, refl, All, str_eq, ◌≢◌, ◌++◌,
  str_eq_iff, arith, if◌then◌else◌,
}
use field_platform.Governor.Cap.{cents, tokens}
use field_platform.Governor.Window.{window_retry_after, sort_rows, shed_until, one_second}
use field_platform.Governor.Period.{parse_rate_period}
use field_platform.Governor.Store.{
  GovernorStore, SpendEvent, Escalation, add_escalation_if_none_open, resolve_escalation_once,
  find_escalation, mark_resolved,
}
use field_platform.Governor.Throttle.{
  RateLimitRow, ThrottleInfo, throttle, windows, exhausted, longest_of,
}
use field_platform.Governor.Throttle.Least.{HasRoom, LeastForAll, throttle-least}
use field_platform.Governor.Throttle.Rows.{IsLimit}
use field_platform.Governor.Limits.{
  RateLimitEntry, LimitTable, is_valid, is_entry, is_repeated, set_rate_limits, get_rate_limits,
  rows_of, delete_for,
}
use field_platform.Governor.Limits.Stored.{IsRead, set_rate_limits-IsLimit}
use field_platform.Governor.Resolve.{
  App, appended, found_200, conflict_409, resolve, answer_with, resolve-final,
}
use field_platform.Governor.Store.Escalations.{
  IsOneOpen, add_escalation-IsOneOpen, resolve_escalation-first,
}

abbrev spend : String → ℕ → SpendEvent
spend id c = record {
  event_id = id;
  agent_id = "a";
  ts = 0;
  cents = c;
  tokens = 0;
  actions = 1;
  note = none;
  action = none;
  source = "agent";
}

abbrev escalation : Escalation
escalation = record {
  escalation_id = "e1";
  agent_id = "a";
  ts = 5;
  kind = cents;
  spent = 800;
  limit = 1000;
  pct = 80;
  resolved = false;
  resolved_by = none;
}

abbrev store : GovernorStore
store = record { caps = []; spend = []; escalations = escalation ∷ [] }

store_one : IsOneOpen store.escalations
store_one agent kind = ground arith

add_escalation-IsOneOpen_example :
    IsOneOpen
      (add_escalation_if_none_open
        (record escalation { escalation_id = "e2"; kind = tokens })
        store).1.escalations
add_escalation-IsOneOpen_example =
    add_escalation-IsOneOpen (record escalation { escalation_id = "e2"; kind = tokens }) store
      store_one

abbrev resolved_escalation : Escalation
resolved_escalation = record escalation { resolved = true; resolved_by = some "ann" }

store_resolved : (resolve_escalation_once "e1" "ann" store).0 ≡ some (resolved_escalation, true)
unfolding resolve_escalation_once find_escalation mark_resolved
store_resolved = refl

resolve_escalation-first_example :
    let s' = (resolve_escalation_once "e1" "ann" store).1 in
    (resolved_escalation.resolved ≡ true)
    × (resolved_escalation.resolved_by ≡ some "ann")
    × (resolve_escalation_once "e1" "bob" s' ≡ (some (resolved_escalation, false), s'))
resolve_escalation-first_example =
    resolve_escalation-first "e1" "ann" "bob" store resolved_escalation store_resolved

abbrev limits : List RateLimitRow
limits = record { action = "mail"; max_count = 2; period = "60s"; period_seconds = some 60 } ∷ []

limits_valid : All IsLimit limits
limits_valid = ((omega arith, λ s e. ground (arith, e)), tt)

abbrev mail : String → ℕ → SpendEvent
mail id t = record (spend id 0) { ts = t * one_second; action = some "mail" }

abbrev mails : List SpendEvent
mails = mail "x" 100 ∷ mail "y" 110 ∷ []

throttled_mail :
    throttle "a" (some "mail") (120 * one_second) mails [] limits none
    ≡ some (
        some (
          record {
            action = some "mail";
            count = 2;
            max_count = 2;
            period = some "60s";
            period_seconds = 60;
          },
          40,
        ))
unfolding throttle windows exhausted longest_of window_retry_after sort_rows shed_until
throttled_mail = refl

throttle-least_example :
    let ws = windows "a" (some "mail") (120 * one_second) mails [] limits none in
    let answer = throttle "a" (some "mail") (120 * one_second) mails [] limits none in
    ((answer ≡ some none) × HasRoom (120 * one_second) 0 ws)
    ⊎ ((info : ThrottleInfo) × (wait : ℕ) × (answer ≡ some (some (info, wait)))
        × LeastForAll ws (120 * one_second) wait)
throttle-least_example =
    throttle-least "a" (some "mail") (120 * one_second) mails [] limits none limits_valid tt

abbrev entries : List RateLimitEntry
entries = record { action = "mail"; max_count = 2; period = "15m" } ∷ []

abbrev limit_table : LimitTable
limit_table =
    ("a", record { action = "call"; max_count = 9; period = "session"; period_seconds = none }) ∷ []

entries_valid : is_valid [] entries ≡ true
unfolding is_valid is_entry parse_rate_period
entries_valid = refl

duplicate_refused : is_valid [] (entries ++ entries) ≡ false
unfolding is_valid is_entry is_repeated parse_rate_period
duplicate_refused = refl

set_rate_limits-IsLimit_example :
    (table' : LimitTable) × (set_rate_limits "a" entries limit_table ≡ some table')
    × IsRead entries (get_rate_limits "a" table')
    × All IsLimit (get_rate_limits "a" table')
set_rate_limits-IsLimit_example = set_rate_limits-IsLimit "a" entries limit_table entries_valid

abbrev stored_table : LimitTable
stored_table =
    ("a", record { action = "call"; max_count = 9; period = "session"; period_seconds = none })
    ∷ ("b", record { action = "mail"; max_count = 2; period = "15m"; period_seconds = some 900 })
    ∷ []

entries_stored : set_rate_limits "b" entries limit_table ≡ some stored_table
unfolding set_rate_limits rows_of delete_for parse_rate_period
entries_stored = refl

abbrev agent_a : String
agent_a = "a"

abbrev agent_b : String
agent_b = "b"

b_is_not_a : agent_b ≢ agent_a
b_is_not_a e = ground (arith, (str_eq_iff "b" "a").1 e)

abbrev escalated : App
escalated = record { store = store; ledger = []; ledger_dropped = 0 }

ann_resolves : (resolve appended "e1" "ann" escalated).0 ≡ found_200 resolved_escalation
unfolding resolve answer_with resolve_escalation_once find_escalation mark_resolved
ann_resolves = refl

resolve-final_example :
    let app' = (resolve appended "e1" "ann" escalated).1 in
    (resolved_escalation.resolved_by ≡ some "ann")
    × (resolve appended "e1" "bob" app' ≡ (
      if str_eq "ann" "bob"
          then found_200 resolved_escalation
          else conflict_409 resolved_escalation,
      app',
    ))
resolve-final_example =
    resolve-final appended appended "e1" "ann" "bob" escalated resolved_escalation ann_resolves
