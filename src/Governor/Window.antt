-- ===== src/Governor/Window.antt =====
-- The rolling windows of core.py: which rows count, and how long a throttled caller has to wait.
pub mod Sorted
pub mod Retry
use field_platform.Prelude.{
  ℕ, suc, ◌+◌, ◌-◌, ◌*◌, ◌/◌, max, min, String, Bool, Option, none, some, List, [], ◌∷◌, leb, ltb,
  str_eq, if◌then◌else◌,
}

-- An instant in microseconds since year 1, and an amount.
abbrev pub Row : Type 0
Row = ℕ × ℕ

abbrev pub one_second : ℕ
one_second = 1000000

abbrev pub max_retry_period_seconds : ℕ
max_retry_period_seconds = 10000000000

-- The rows of one side of `window_action_rows`.
unfoldable pub metered_rows : List (ℕ × String × ℕ) → List Row
metered_rows [] = []
metered_rows ((ts, source, n) ∷ rows) =
    let rest = metered_rows rows in if str_eq source "sentinel" then (ts, n) ∷ rest else rest

unfoldable pub self_rows : List (ℕ × String × ℕ) → List Row
self_rows [] = []
self_rows ((ts, source, n) ∷ rows) =
    let rest = self_rows rows in if str_eq source "sentinel" then rest else (ts, n) ∷ rest

unfoldable pub window_action_rows : List (ℕ × String × ℕ) → List Row
unfolding metered_rows self_rows
window_action_rows rows = elim (metered_rows rows) [ [] ↦ self_rows rows | r ∷ rs ↦ r ∷ rs ]

-- `sorted(…, key=ts)`, which keeps the order of rows at one instant.
abbrev pub insert_row : Row → List Row → List Row
insert_row r [] = r ∷ []
insert_row r (s ∷ rows) = if leb r.0 s.0 then r ∷ s ∷ rows else s ∷ insert_row r rows

unfoldable pub sort_rows : List Row → List Row
sort_rows [] = []
sort_rows (r ∷ rows) = insert_row r (sort_rows rows)

abbrev pub total : List Row → ℕ
total [] = 0
total ((ts, n) ∷ rows) = n + total rows

-- Whole seconds, rounded up and at least 1, until `instant`.
unfoldable pub wait_until : (instant now : ℕ) → ℕ
wait_until instant now = max 1 ((instant - now + (one_second - 1)) / one_second)

-- The loop over the ordered rows; `none` is the AssertionError behind it.
unfoldable pub shed_until : (must_shed shed period now : ℕ) → List Row → Option ℕ
unfolding wait_until
shed_until must_shed shed period now [] = none
shed_until must_shed shed period now ((ts, amount) ∷ rows) =
    if leb must_shed (shed + amount)
    then some (wait_until (ts + period) now)
    else shed_until must_shed (shed + amount) period now rows

-- `(count, retry_after_seconds)`; `none` is the AssertionError.
unfoldable pub window_retry_after :
    List Row → (limit period_seconds now : ℕ) → Option (ℕ × Option ℕ)
window_retry_after rows limit period_seconds now =
    let ordered = sort_rows rows in
    let count = total ordered in
    let period = min period_seconds max_retry_period_seconds * one_second in
    if ltb count limit
    then some (count, none)
    else elim (shed_until (count + 1 - limit) 0 period now ordered) [
      | none ↦ none
      | some wait ↦ some (count, some wait)
    ]

-- `rolling_window_start`: the subtraction stops at the earliest instant.
unfoldable pub rolling_window_start : (now seconds : ℕ) → ℕ
rolling_window_start now seconds = now - seconds * one_second
