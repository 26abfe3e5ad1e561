-- ===== src/Governor/Throttle.antt =====
-- `_throttle` of services/spend-governor/src/spend_governor/api.py over the rate limits, the usage
-- policy and the rows of core.py: the exhausted rolling window with the longest wait.
pub mod Rows
pub mod Least
use field_platform.Prelude.{
  ℕ, ◌-◌, ◌*◌, String, Bool, false, ◌&&◌, Option, none, some, List, [], ◌∷◌, ◌++◌, ltb, str_eq,
  if◌then◌else◌,
}
use field_platform.Governor.Store.{SpendEvent}
use field_platform.Governor.Window.{
  Row, one_second, window_action_rows, window_retry_after, rolling_window_start,
}

pub record RateLimitRow : Type 0 where
  pub action : String
  pub max_count : ℕ
  pub period : String
  pub period_seconds : Option ℕ

-- The part of the usage policy that throttles.
pub record UsagePolicy : Type 0 where
  pub token_rate_limit : Option ℕ
  pub rate_window_seconds : ℕ

pub record UsageRecord : Type 0 where
  pub agent_id : String
  pub ts : ℕ
  pub tokens : ℕ

-- The period of an action's window in the source's words, none for the token window.
pub record ThrottleInfo : Type 0 where
  pub action : Option String
  pub count : ℕ
  pub max_count : ℕ
  pub period : Option String
  pub period_seconds : ℕ

abbrev pub is_action : Option String → String → Bool
is_action none action = false
is_action (some a) action = str_eq a action

-- `… AND action=? AND ts>? AND actions>0`, in the order of the table: the rows are sorted later.
unfoldable pub action_rows_after :
    (agent action : String) → ℕ → List SpendEvent → List (ℕ × String × ℕ)
action_rows_after agent action after [] = []
action_rows_after agent action after (e ∷ es) =
    let rest = action_rows_after agent action after es in
    if str_eq e.agent_id agent && is_action e.action action && ltb after e.ts && ltb 0 e.actions
    then (e.ts, e.source, e.actions) ∷ rest
    else rest

unfoldable pub token_rows_after : String → ℕ → List UsageRecord → List Row
token_rows_after agent after [] = []
token_rows_after agent after (r ∷ rs) =
    let rest = token_rows_after agent after rs in
    if str_eq r.agent_id agent && ltb after r.ts then (r.ts, r.tokens) ∷ rest else rest

-- A window to check: its rows, its limit and what a throttled status says of it.
pub record Window : Type 0 where
  pub rows : List Row
  pub limit : ℕ
  pub seconds : ℕ
  pub action : Option String
  pub period : Option String

-- The loop over `get_rate_limits`: limits on the action itself, with a window.
unfoldable pub action_windows :
    (agent action : String) (now : ℕ) → List SpendEvent → List RateLimitRow → List Window
unfolding window_action_rows action_rows_after rolling_window_start
action_windows agent action now spend [] = []
action_windows agent action now spend (l ∷ limits) =
    let rest = action_windows agent action now spend limits in
    if str_eq l.action action
    then elim l.period_seconds [
      | none ↦ rest
      | some seconds ↦
          record {
            rows =
                window_action_rows
                  (action_rows_after agent action (rolling_window_start now seconds) spend);
            limit = l.max_count;
            seconds = seconds;
            action = some action;
            period = some l.period;
          }
          ∷ rest
    ]
    else rest

unfoldable pub token_windows : String → ℕ → List UsageRecord → Option UsagePolicy → List Window
unfolding token_rows_after rolling_window_start
token_windows agent now usage none = []
token_windows agent now usage (some policy) = elim policy.token_rate_limit [
  | none ↦ []
  | some limit ↦
      record {
        rows = token_rows_after agent (rolling_window_start now policy.rate_window_seconds) usage;
        limit = limit;
        seconds = policy.rate_window_seconds;
        action = none;
        period = none;
      }
      ∷ []
]

abbrev pub info_of : Window → ℕ → ThrottleInfo
info_of w count = record {
  action = w.action;
  count = count;
  max_count = w.limit;
  period = w.period;
  period_seconds = w.seconds;
}

abbrev pub add_exhausted :
    Window
    → Option (ℕ × Option ℕ)
    → Option (List (ℕ × ThrottleInfo))
    → Option (List (ℕ × ThrottleInfo))
add_exhausted w none rest = none
add_exhausted w (some (count, retry)) none = none
add_exhausted w (some (count, none)) (some found) = some found
add_exhausted w (some (count, some retry)) (some found) = some ((retry, info_of w count) ∷ found)

-- The list `exhausted`; `none` is the AssertionError of `window_retry_after`.
unfoldable pub exhausted : ℕ → List Window → Option (List (ℕ × ThrottleInfo))
exhausted now [] = some []
exhausted now (w ∷ ws) =
    add_exhausted w (window_retry_after w.rows w.limit w.seconds now) (exhausted now ws)

-- `max(exhausted, key=…)`: of equal waits the first.
unfoldable pub longest : ℕ × ThrottleInfo → List (ℕ × ThrottleInfo) → ℕ × ThrottleInfo
longest best [] = best
longest best (x ∷ xs) = if ltb best.0 x.0 then longest x xs else longest best xs

unfoldable pub longest_of : List (ℕ × ThrottleInfo) → Option (ThrottleInfo × ℕ)
unfolding longest
longest_of [] = none
longest_of (x ∷ xs) = let best = longest x xs in some (best.1, best.0)

abbrev pub then_longest : Option (List (ℕ × ThrottleInfo)) → Option (Option (ThrottleInfo × ℕ))
then_longest none = none
then_longest (some found) = some (longest_of found)

-- The windows that a status read with this action looks at.
unfoldable pub windows :
    (agent : String) (action : Option String) (now : ℕ)
    → List SpendEvent
    → List UsageRecord
    → List RateLimitRow
    → Option UsagePolicy
    → List Window
unfolding action_windows token_windows
windows agent none now spend usage limits policy = token_windows agent now usage policy
windows agent (some action) now spend usage limits policy =
    action_windows agent action now spend limits ++ token_windows agent now usage policy

-- `limits` and `policy` are the agent's.
unfoldable pub throttle :
    (agent : String) (action : Option String) (now : ℕ)
    → List SpendEvent
    → List UsageRecord
    → List RateLimitRow
    → Option UsagePolicy
    → Option (Option (ThrottleInfo × ℕ))
throttle agent action now spend usage limits policy =
    then_longest (exhausted now (windows agent action now spend usage limits policy))
