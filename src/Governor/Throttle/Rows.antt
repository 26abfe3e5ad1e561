-- ===== src/Governor/Throttle/Rows.antt =====
-- The rows that the queries of a status read return are all inside their window.
use field_platform.Prelude.{
  ℕ, ◌*◌, ◌≤◌, ◌<◌, String, Option, none, some, List, [], ◌∷◌, ◌++◌, ◌≡◌, refl, inl, inr, arith,
  All, Bool-cases, Option-cases, str_eq,
}
use field_platform.Governor.Window.{
  Row, one_second, max_retry_period_seconds, window_action_rows, metered_rows, self_rows,
  rolling_window_start,
}
use field_platform.Governor.Window.Retry.{InWindow}
use field_platform.Governor.Store.{SpendEvent}
use field_platform.Governor.Throttle.{
  Window, RateLimitRow, UsagePolicy, UsageRecord, action_rows_after, token_rows_after,
  action_windows, token_windows, windows,
}

-- A window with a limit, whose rows are all inside it.
abbrev pub IsWindow : ℕ → Window → Type 0
IsWindow now w =
    (1 ≤ w.limit)
    × (w.seconds ≤ max_retry_period_seconds)
    × InWindow (w.seconds * one_second) now w.rows

-- The rows are all younger than the window.
abbrev AllAfter : ℕ → List Row → Type 0
AllAfter after rows = All (λ r. after < r.0) rows

AllAfter-InWindow :
    (now seconds : ℕ) (rows : List Row)
    → AllAfter (rolling_window_start now seconds) rows
    → InWindow (seconds * one_second) now rows
unfolding rolling_window_start
AllAfter-InWindow now seconds [] h = refl
AllAfter-InWindow now seconds (r ∷ rows) h = ground (arith, AllAfter-InWindow now seconds rows h.1)

abbrev AllTriples : ℕ → List (ℕ × String × ℕ) → Type 0
AllTriples after rows = All (λ r. after < r.0) rows

action_rows_after-AllTriples :
    (agent action : String) (after : ℕ) (es : List SpendEvent)
    → AllTriples after (action_rows_after agent action after es)
unfolding action_rows_after
action_rows_after-AllTriples agent action after [] = tt
action_rows_after-AllTriples agent action after (e ∷ es) =
    ground (arith, action_rows_after-AllTriples agent action after es)

metered_rows-AllAfter :
    (after : ℕ) (rows : List (ℕ × String × ℕ))
    → AllTriples after rows
    → AllAfter after (metered_rows rows)
unfolding metered_rows
metered_rows-AllAfter after [] h = tt
metered_rows-AllAfter after (r ∷ rows) h = ground (arith, metered_rows-AllAfter after rows h.1)

self_rows-AllAfter :
    (after : ℕ) (rows : List (ℕ × String × ℕ))
    → AllTriples after rows
    → AllAfter after (self_rows rows)
unfolding self_rows
self_rows-AllAfter after [] h = tt
self_rows-AllAfter after (r ∷ rows) h = ground (arith, self_rows-AllAfter after rows h.1)

window_action_rows-AllAfter :
    (after : ℕ) (rows : List (ℕ × String × ℕ))
    → AllTriples after rows
    → AllAfter after (window_action_rows rows)
unfolding window_action_rows
window_action_rows-AllAfter after rows h =
    ground (arith, metered_rows-AllAfter after rows h, self_rows-AllAfter after rows h)

token_rows_after-AllAfter :
    (agent : String) (after : ℕ) (rs : List UsageRecord)
    → AllAfter after (token_rows_after agent after rs)
unfolding token_rows_after
token_rows_after-AllAfter agent after [] = tt
token_rows_after-AllAfter agent after (r ∷ rs) =
    ground (arith, token_rows_after-AllAfter agent after rs)

-- A limit of at least one, and a window of at most 10^10 seconds where there is one.
abbrev pub IsLimit : RateLimitRow → Type 0
IsLimit l = (1 ≤ l.max_count) × ((s : ℕ) → l.period_seconds ≡ some s → s ≤ max_retry_period_seconds)

abbrev pub IsPolicy : Option UsagePolicy → Type 0
IsPolicy none = Unit
IsPolicy (some p) =
    ((n : ℕ) → p.token_rate_limit ≡ some n → 1 ≤ n)
    × (p.rate_window_seconds ≤ max_retry_period_seconds)

action_windows-IsWindow :
    (agent action : String) (now : ℕ) (spend : List SpendEvent) (limits : List RateLimitRow)
    → All IsLimit limits
    → All (IsWindow now) (action_windows agent action now spend limits)
unfolding action_windows
action_windows-IsWindow agent action now spend [] v = tt
action_windows-IsWindow agent action now spend (l ∷ limits) v =
    let rest = action_windows-IsWindow agent action now spend limits v.1 in
    elim (Bool-cases (str_eq l.action action)) [
      | inr other ↦ rw other rest
      | inl same ↦ elim (Option-cases l.period_seconds) [
        | inl declared ↦ rw (same, declared) rest
        | inr (s, enforced) ↦
            rw (same, enforced)
              (
                (
                  v.0.0,
                  v.0.1 s enforced,
                  AllAfter-InWindow now s _ (
                      window_action_rows-AllAfter _ _
                        (action_rows_after-AllTriples agent action _ spend)),
                ),
                rest,
              )
      ]
    ]

token_windows-IsWindow :
    (agent : String) (now : ℕ) (usage : List UsageRecord) (policy : Option UsagePolicy)
    → IsPolicy policy
    → All (IsWindow now) (token_windows agent now usage policy)
unfolding token_windows
token_windows-IsWindow agent now usage none v = tt
token_windows-IsWindow agent now usage (some p) v = elim (Option-cases p.token_rate_limit) [
  | inl off ↦ rw off tt
  | inr (n, on) ↦ rw on (
    (
      v.0 n on,
      v.1,
      AllAfter-InWindow now p.rate_window_seconds _ (token_rows_after-AllAfter agent _ usage),
    ),
    tt,
  )
]

All-append :
    (now : ℕ) (xs ys : List Window)
    → All (IsWindow now) xs
    → All (IsWindow now) ys
    → All (IsWindow now) (xs ++ ys)
All-append now [] ys h k = k
All-append now (x ∷ xs) ys h k = (h.0, All-append now xs ys h.1 k)

pub windows-IsWindow :
    (agent : String) (action : Option String) (now : ℕ) (spend : List SpendEvent)
    (usage : List UsageRecord) (limits : List RateLimitRow) (policy : Option UsagePolicy)
    → All IsLimit limits
    → IsPolicy policy
    → All (IsWindow now) (windows agent action now spend usage limits policy)
unfolding windows
windows-IsWindow agent none now spend usage limits policy v p =
    token_windows-IsWindow agent now usage policy p
windows-IsWindow agent (some action) now spend usage limits policy v p =
    All-append now (action_windows agent action now spend limits)
      (token_windows agent now usage policy)
      (action_windows-IsWindow agent action now spend limits v)
      (token_windows-IsWindow agent now usage policy p)
