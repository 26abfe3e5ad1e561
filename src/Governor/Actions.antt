-- ===== src/Governor/Actions.antt =====
-- `action_totals` of core.py: self-reported and sentinel-metered counts, each action counted once.
pub mod Sums
pub mod Counted
pub mod Exact
use field_platform.Prelude.{
  ℕ, ◌+◌, max, String, Bool, Option, none, some, List, [], ◌∷◌, ◌++◌, str_eq, elem_of,
  if◌then◌else◌,
}
use field_platform.Prelude.Dict.{Dict, lookup, insert}

-- `(action, source, count)`
abbrev pub Group : Type 0
Group = Option String × String × ℕ

abbrev pub or_zero : Option ℕ → ℕ
or_zero none = 0
or_zero (some n) = n

-- `bucket.get(action, 0)`
unfoldable pub count_of : String → Dict ℕ → ℕ
unfolding lookup
count_of a d = or_zero (lookup a d)

pub record Tally : Type 0 where
  pub self_by : Dict ℕ
  pub metered_by : Dict ℕ
  pub self_total : ℕ
  pub metered_total : ℕ
  pub unattributed : ℕ

abbrev pub no_tally : Tally
no_tally = record {
  self_by = [];
  metered_by = [];
  self_total = 0;
  metered_total = 0;
  unattributed = 0;
}

unfoldable pub add_group : Tally → Group → Tally
unfolding count_of insert
add_group t (none, source, n) =
    if str_eq source "sentinel"
    then record t { metered_total = t.metered_total + n; unattributed = t.unattributed + n }
    else record t { self_total = t.self_total + n; unattributed = t.unattributed + n }
add_group t (some a, source, n) =
    if str_eq source "sentinel"
    then record t {
      metered_total = t.metered_total + n;
      metered_by = insert a (count_of a t.metered_by + n) t.metered_by;
    }
    else record t {
      self_total = t.self_total + n;
      self_by = insert a (count_of a t.self_by + n) t.self_by;
    }

unfoldable pub tally_from : Tally → List Group → Tally
unfolding add_group
tally_from t [] = t
tally_from t (g ∷ gs) = tally_from (add_group t g) gs

abbrev pub keys : Dict ℕ → List String
keys [] = []
keys ((k, n) ∷ d) = k ∷ keys d

-- The items of `ys` that are not in `xs`.
unfoldable pub minus : List String → List String → List String
minus [] xs = []
minus (y ∷ ys) xs = let rest = minus ys xs in if elem_of y xs then rest else y ∷ rest

unfoldable pub sum_over : List String → (String → ℕ) → ℕ
sum_over [] f = 0
sum_over (k ∷ ks) f = f k + sum_over ks f

-- The sum over `set(self_by) | set(metered_by)`, whose order does not matter.
unfoldable pub counted_of : Tally → ℕ
unfolding count_of sum_over minus
counted_of t =
    t.unattributed
    + sum_over (keys t.self_by ++ minus (keys t.metered_by) (keys t.self_by))
        (λ a. max (count_of a t.self_by) (count_of a t.metered_by))

-- `(self_total, metered_total, counted)`
unfoldable pub action_totals : List Group → ℕ × ℕ × ℕ
unfolding tally_from counted_of
action_totals groups =
    let t = tally_from no_tally groups in (t.self_total, t.metered_total, counted_of t)
