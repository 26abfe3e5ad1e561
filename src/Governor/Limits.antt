-- ===== src/Governor/Limits.antt =====
-- The rate limits of core.py: RateLimitEntry, RateLimitSet, set_rate_limits and get_rate_limits, and
-- the PUT /rate-limits handler's validation.
pub mod Stored
use Prim.Native.Nat.{Ordering}
use Prim.Native.String.{compare as compare_text}
use field_platform.Prelude.{
  ℕ, String, Bool, true, false, ◌&&◌, ◌||◌, not, Option, none, some, List, [], ◌∷◌, ◌++◌, leb,
  str_eq, if◌then◌else◌,
}
use field_platform.Governor.Period.{parse_rate_period}
use field_platform.Governor.Store.{max_amount}
use field_platform.Governor.Throttle.{RateLimitRow}

pub record RateLimitEntry : Type 0 where
  pub action : String
  pub max_count : ℕ
  pub period : String

-- The bounds of the fields.
unfoldable pub is_entry : RateLimitEntry → Bool
is_entry e =
    not (str_eq e.action "")
    && leb 1 e.max_count
    && leb e.max_count max_amount
    && not (str_eq e.period "")

-- `key in seen`
unfoldable pub is_repeated : RateLimitEntry → List RateLimitEntry → Bool
is_repeated e [] = false
is_repeated e (f ∷ seen) =
    (str_eq e.action f.action && str_eq e.period f.period) || is_repeated e seen

abbrev pub is_known : Option (Option ℕ) → Bool
is_known none = false
is_known (some window) = true

-- `_known_periods_no_duplicates` behind the bounds of the fields; false is the refusal with 422.
unfoldable pub is_valid : List RateLimitEntry → List RateLimitEntry → Bool
unfolding is_entry is_repeated
is_valid seen [] = true
is_valid seen (e ∷ entries) =
    is_entry e
    && is_known (parse_rate_period e.period)
    && not (is_repeated e seen)
    && is_valid (e ∷ seen) entries

-- A row of the table: whose it is, and the limit.
abbrev pub LimitTable : Type 0
LimitTable = List (String × RateLimitRow)

-- `DELETE FROM rate_limits WHERE agent_id=?`
unfoldable pub delete_for : String → LimitTable → LimitTable
delete_for agent [] = []
delete_for agent ((owner, row) ∷ table) =
    let rest = delete_for agent table in if str_eq owner agent then rest else (owner, row) ∷ rest

abbrev pub rate_row : RateLimitEntry → Option ℕ → RateLimitRow
rate_row e seconds = record {
  action = e.action;
  max_count = e.max_count;
  period = e.period;
  period_seconds = seconds;
}

abbrev pub add_row :
    String → RateLimitEntry → Option (Option ℕ) → Option LimitTable → Option LimitTable
add_row agent e none rest = none
add_row agent e (some seconds) none = none
add_row agent e (some seconds) (some rest) = some ((agent, rate_row e seconds) ∷ rest)

-- The rows to insert; `none` is the UnknownRatePeriodError.
unfoldable pub rows_of : String → List RateLimitEntry → Option LimitTable
rows_of agent [] = some []
rows_of agent (e ∷ entries) = add_row agent e (parse_rate_period e.period) (rows_of agent entries)

-- The whole set is replaced, or nothing is.
unfoldable pub set_rate_limits : String → List RateLimitEntry → LimitTable → Option LimitTable
set_rate_limits agent entries table = elim (rows_of agent entries) [
  | none ↦ none
  | some rows ↦ some (delete_for agent table ++ rows)
]

-- `ORDER BY action, period`
abbrev pub is_ordered : RateLimitRow → RateLimitRow → Bool
is_ordered a b = elim (compare_text a.action b.action) [
  | Ordering.lt ↦ true
  | Ordering.gt ↦ false
  | Ordering.eq ↦ elim (compare_text a.period b.period) [ Ordering.gt ↦ false | _ ↦ true ]
]

abbrev pub insert_ordered : RateLimitRow → List RateLimitRow → List RateLimitRow
insert_ordered a [] = a ∷ []
insert_ordered a (b ∷ rows) = if is_ordered a b then a ∷ b ∷ rows else b ∷ insert_ordered a rows

unfoldable pub get_rate_limits : String → LimitTable → List RateLimitRow
get_rate_limits agent [] = []
get_rate_limits agent ((owner, row) ∷ table) =
    let rest = get_rate_limits agent table in
    if str_eq owner agent then insert_ordered row rest else rest
