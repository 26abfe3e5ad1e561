-- ===== src/Governor/Cap/Verdict.antt =====
-- When `evaluate` blocks, escalates and lets pass, and that more spend never relaxes the verdict.
use field_platform.Prelude.{ℕ, ◌*◌, ◌≤◌, Option, none, some, ◌≡◌, ◌↔◌, ◌⊎◌, arith}
use field_platform.Governor.Cap.{
  SpendState, ok, escalate, throttled, block, SpendCapConfig, evaluate,
}

-- A limit that is set and reached.
abbrev pub Reached : ℕ → Option ℕ → Type 0
Reached spent none = ⊥
Reached spent (some limit) = limit ≤ spent

-- A limit that is set and of which `spent` is at least `pct` per cent.
abbrev pub Crossed : ℕ → ℕ → Option ℕ → Type 0
Crossed pct spent none = ⊥
Crossed pct spent (some limit) = limit * pct ≤ spent * 100

module _ (cap : SpendCapConfig) (c t a n : ℕ) where
  -- The verdict is block exactly when one of the limits that are set is reached.
  pub evaluate-eq-block :
      ((evaluate cap c t a n).0 ≡ block)
      ↔ (Reached c cap.limit_cents ⊎ (Reached t cap.token_limit ⊎ Reached a cap.action_limit))
  unfolding evaluate
  evaluate-eq-block = ground arith

  -- The verdict is ok exactly when no limit that is set is reached or crossed in the configured
  -- percentage, and no escalation is open.
  pub evaluate-eq-ok : ((evaluate cap c t a n).0 ≡ ok) ↔ (
      ¬ (Reached c cap.limit_cents)
      × ¬ (Reached t cap.token_limit)
      × ¬ (Reached a cap.action_limit)
      × ¬ (Crossed cap.escalate_at_pct c cap.limit_cents)
      × ¬ (Crossed cap.escalate_at_pct t cap.token_limit)
      × ¬ (Crossed cap.escalate_at_pct a cap.action_limit)
      × (n ≡ 0))
  unfolding evaluate
  evaluate-eq-ok = ground arith

-- The order of precedence of the states in `_status_full`.
abbrev pub severity : SpendState → ℕ
severity ok = 0
severity escalate = 1
severity throttled = 2
severity block = 3

-- Under one cap, a verdict on totals and open escalations that are at least as large is at least
-- as severe.
pub evaluate_mono :
    (cap : SpendCapConfig) (c t a n c' t' a' n' : ℕ)
    → c ≤ c'
    → t ≤ t'
    → a ≤ a'
    → n ≤ n'
    → severity (evaluate cap c t a n).0 ≤ severity (evaluate cap c' t' a' n').0
unfolding evaluate
evaluate_mono cap c t a n c' t' a' n' hc ht ha hn = ground arith
