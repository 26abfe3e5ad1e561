-- ===== src/Governor/Cap.antt =====
-- The cap of an agent and `evaluate` of core.py, the decision on the metered totals.
pub mod Verdict
use field_platform.Prelude.{
  ℕ, ◌*◌, String, Option, none, some, List, [], ◌∷◌, leb, ltb, if◌then◌else◌,
}

pub data SpendState : Type 0 where
  ok escalate throttled block : SpendState

-- What is metered; `usage` holds the texts that follow "usage:" in the escalations of /usage.
pub data Kind : Type 0 where
  cents tokens actions : Kind
  usage : String → Kind

pub record SpendCapConfig : Type 0 where
  pub agent_id : String
  pub currency : String
  pub limit_cents : Option ℕ
  pub token_limit : Option ℕ
  pub action_limit : Option ℕ
  pub period : String
  pub escalate_at_pct : ℕ
  pub on_breach : String

-- The text beside a verdict, by what it is made of.
pub data Detail : Type 0 where
  cap_reached : Kind → ℕ → ℕ → Detail
  crossed : Kind → ℕ → ℕ → ℕ → Detail
  unresolved : ℕ → Detail
  within_limits : Detail

-- A row of `pairs`: what is metered, the total and the limit.
abbrev pub Metered : Type 0
Metered = Kind × ℕ × Option ℕ

unfoldable pub first_reached : List Metered → Option Detail
first_reached [] = none
first_reached ((kind, spent, none) ∷ pairs) = first_reached pairs
first_reached ((kind, spent, some limit) ∷ pairs) =
    if leb limit spent then some (cap_reached kind spent limit) else first_reached pairs

-- The threshold in whole numbers: spent * 100 >= limit * pct.
unfoldable pub first_crossed : ℕ → List Metered → Option Detail
first_crossed pct [] = none
first_crossed pct ((kind, spent, none) ∷ pairs) = first_crossed pct pairs
first_crossed pct ((kind, spent, some limit) ∷ pairs) =
    if leb (limit * pct) (spent * 100)
    then some (crossed kind spent limit pct)
    else first_crossed pct pairs

abbrev pub pairs_of : SpendCapConfig → ℕ → ℕ → ℕ → List Metered
pairs_of cap c t a =
    (cents, c, cap.limit_cents) ∷ (tokens, t, cap.token_limit) ∷ (actions, a, cap.action_limit) ∷ []

unfoldable pub evaluate : SpendCapConfig → ℕ → ℕ → ℕ → ℕ → SpendState × Detail
unfolding first_reached first_crossed
evaluate cap spent_cents spent_tokens spent_actions open_escalations =
    let pairs = pairs_of cap spent_cents spent_tokens spent_actions in
    elim (first_reached pairs) [
      | some detail ↦ (block, detail)
      | none ↦ elim (first_crossed cap.escalate_at_pct pairs) [
        | some detail ↦ (escalate, detail)
        | none ↦
            if ltb 0 open_escalations
            then (escalate, unresolved open_escalations)
            else (ok, within_limits)
      ]
    ]
