-- ===== src/Governor/Usage.antt =====
-- Usage policies and the rogue signals of the spend governor: evaluate_rogue of usage.py, and the
-- tables of policies and of usage of core.py, under services/spend-governor/src/spend_governor. A
-- finding is its kind; canonical models and whether one has a price are arguments.
use field_platform.Prelude.{
  ℕ, ◌+◌, ◌≤◌, String, Bool, true, false, ◌&&◌, ◌||◌, not, Option, none, some, List, [], ◌∷◌, ◌++◌,
  ◌≡◌, refl, ◌↔◌, leb, ltb, str_eq, elem_of, if◌then◌else◌, leb→le, Bool-cases, inl, inr, arith,
}
use field_platform.Prelude.Dict.{Dict, lookup, insert, lookup-insert}
use field_platform.Governor.Store.{max_amount}
use field_platform.Governor.Period.{max_rate_period_seconds}
use field_platform.Governor.Throttle.{UsageRecord}

-- `UsagePolicy`, with the agent as the key of its table.
pub record Policy : Type 0 where
  pub allowed_models : List String
  pub token_rate_limit : Option ℕ
  pub rate_window_seconds : ℕ

pub data RogueKind : Type 0 where
  rogue_model rogue_burst unpriced : RogueKind

abbrev pub is_empty : List String → Bool
is_empty [] = true
is_empty (m ∷ ms) = false

-- The model is outside a list that names any.
abbrev pub is_outside : String → Policy → Bool
is_outside model p = not (is_empty p.allowed_models) && not (elem_of model p.allowed_models)

abbrev pub reaches : Option ℕ → ℕ → Bool
reaches none tokens = false
reaches (some limit) tokens = leb limit tokens

abbrev pub found_if : Bool → RogueKind → List RogueKind
found_if true k = k ∷ []
found_if false k = []

abbrev pub of_policy : Option Policy → String → ℕ → List RogueKind
of_policy none model tokens = []
of_policy (some p) model tokens =
    found_if (is_outside model p) rogue_model
    ++ found_if (reaches p.token_rate_limit tokens) rogue_burst

unfoldable pub evaluate_rogue : Option Policy → String → Bool → ℕ → List RogueKind
evaluate_rogue policy model priced window_tokens_after =
    found_if (not priced) unpriced ++ of_policy policy model window_tokens_after

-- `record_usage`: one more row.
unfoldable pub record_usage : UsageRecord → List UsageRecord → List UsageRecord
record_usage r rows = rows ++ r ∷ []

-- `SELECT COALESCE(SUM(input_tokens+output_tokens),0) … WHERE agent_id=? AND ts>=?`
unfoldable pub window_tokens : String → ℕ → List UsageRecord → ℕ
window_tokens agent since [] = 0
window_tokens agent since (r ∷ rows) =
    let rest = window_tokens agent since rows in
    if str_eq r.agent_id agent && leb since r.ts then r.tokens + rest else rest

-- `INSERT OR REPLACE`
unfoldable pub set_policy : String → Policy → Dict Policy → Dict Policy
unfolding insert
set_policy agent p table = insert agent p table

abbrev pub capped : Option ℕ → Option ℕ
capped none = none
capped (some limit) = if ltb max_amount limit then some max_amount else some limit

-- A row from before the bounds is served with the limit lowered and the window kept.
abbrev pub served : Policy → Policy
served p = record p { token_rate_limit = capped p.token_rate_limit }

unfoldable pub get_policy : String → Dict Policy → Option Policy
unfolding lookup
get_policy agent table = elim (lookup agent table) [ none ↦ none | some p ↦ some (served p) ]

-- `_policy_fields_over_bound` is not empty.
abbrev pub is_over : Option ℕ → ℕ → Bool
is_over none window = ltb max_rate_period_seconds window
is_over (some limit) window = ltb max_amount limit || ltb max_rate_period_seconds window

unfoldable pub count_policies_over_bound : Dict Policy → ℕ
count_policies_over_bound [] = 0
count_policies_over_bound ((agent, p) ∷ table) =
    let rest = count_policies_over_bound table in
    if is_over p.token_rate_limit p.rate_window_seconds then 1 + rest else rest

abbrev pub same_kind_of : RogueKind → RogueKind → Bool
same_kind_of rogue_model rogue_model = true
same_kind_of rogue_burst rogue_burst = true
same_kind_of unpriced unpriced = true
same_kind_of _ _ = false

abbrev pub is_found : RogueKind → List RogueKind → Bool
is_found k [] = false
is_found k (j ∷ ks) = same_kind_of k j || is_found k ks

-- What the last stored policy says of the agent.
abbrev pub IsOutside : String → Option Policy → Type 0
IsOutside model none = ⊥
IsOutside model (some p) =
    (is_empty p.allowed_models ≡ false) × (elem_of model p.allowed_models ≡ false)

abbrev pub IsBurst : ℕ → Option Policy → Type 0
IsBurst tokens none = ⊥
IsBurst tokens (some p) = (limit : ℕ) × (p.token_rate_limit ≡ some limit) × (limit ≤ tokens)

reaches_iff :
    (o : Option ℕ) (tokens : ℕ)
    → (reaches o tokens ≡ true) ↔ ((limit : ℕ) × (o ≡ some limit) × (limit ≤ tokens))
reaches_iff none tokens = (λ e. cc, λ h. absurd (cc h.1))
reaches_iff (some limit) tokens = (
  λ e. (limit, refl, leb→le limit tokens e),
  λ (l, e, h). let same : limit ≡ l = cc in ground arith,
)

-- The three tests decide what is found.
findings : Bool → Bool → Bool → List RogueKind
findings a b c = found_if a unpriced ++ (found_if b rogue_model ++ found_if c rogue_burst)

findings_lem :
    (a b c : Bool)
    → (is_found unpriced (findings a b c) ≡ a)
      × (is_found rogue_model (findings a b c) ≡ b)
      × (is_found rogue_burst (findings a b c) ≡ c)
unfolding findings
findings_lem a b c = ground arith

outside_iff :
    (model : String) (p : Policy)
    → (is_outside model p ≡ true)
      ↔ ((is_empty p.allowed_models ≡ false) × (elem_of model p.allowed_models ≡ false))
outside_iff model p = ground arith

not_iff : (b : Bool) → (not b ≡ true) ↔ (b ≡ false)
not_iff b = ground arith

-- Each rogue signal is raised exactly when it should be: an unpriced model, a model outside a list of
-- the policy that names any, and a window whose tokens have reached the policy's limit.
pub evaluate_rogue_iff :
    (policy : Option Policy) (model : String) (priced : Bool) (tokens : ℕ)
    → ((is_found unpriced (evaluate_rogue policy model priced tokens) ≡ true) ↔ (priced ≡ false))
      × ((is_found rogue_model (evaluate_rogue policy model priced tokens) ≡ true)
          ↔ IsOutside model policy)
      × ((is_found rogue_burst (evaluate_rogue policy model priced tokens) ≡ true)
          ↔ IsBurst tokens policy)
unfolding evaluate_rogue findings
evaluate_rogue_iff none model priced tokens = ground arith
evaluate_rogue_iff (some p) model priced tokens =
    let (u, m, b) =
      findings_lem (not priced) (is_outside model p) (reaches p.token_rate_limit tokens) in
    rw (u, m, b) (not_iff priced, outside_iff model p, reaches_iff p.token_rate_limit tokens)

capped_within : (o : Option ℕ) (window : ℕ) → is_over o window ≡ false → capped o ≡ o
capped_within none window h = refl
capped_within (some limit) window h = ground arith

reaches-capped :
    (o : Option ℕ) (tokens : ℕ) → reaches o tokens ≡ true → reaches (capped o) tokens ≡ true
reaches-capped none tokens h = h
reaches-capped (some limit) tokens h = ground arith

served_within :
    (p : Policy) → is_over p.token_rate_limit p.rate_window_seconds ≡ false → served p ≡ p
served_within p h = rw (capped_within p.token_rate_limit p.rate_window_seconds h) refl

pub get_policy-set_policy :
    (agent other : String) (p : Policy) (table : Dict Policy)
    → (get_policy other (set_policy agent p table)
        ≡ (if str_eq agent other then some (served p) else get_policy other table))
      × (is_over p.token_rate_limit p.rate_window_seconds ≡ false → served p ≡ p)
      × ((tokens : ℕ)
          → reaches p.token_rate_limit tokens ≡ true
          → reaches (served p).token_rate_limit tokens ≡ true)
unfolding get_policy set_policy
get_policy-set_policy agent other p table = (
  rw (lookup-insert agent other p table, get_policy)
      (elim (Bool-cases (str_eq agent other)) [ inl e ↦ rw e refl | inr e ↦ rw e refl ]),
  served_within p,
  reaches-capped p.token_rate_limit,
)
