-- ===== src/Governor/Actions/Counted.antt =====
-- What the counted total of `action_totals` is worth beside the two totals.
use field_platform.Prelude.{
  ℕ, ◌+◌, ◌≤◌, max, String, none, some, List, [], ◌∷◌, ◌++◌, ◌≡◌, refl, arith, str_eq, str_eq_iff,
  elem_of, Bool-cases, ◌||◌, inl, inr,
}
use field_platform.Prelude.Dict.{Dict, insert}
use field_platform.Governor.Actions.{
  Group, Tally, no_tally, count_of, keys, minus, sum_over, add_group, tally_from, counted_of,
  action_totals,
}
use field_platform.Governor.Actions.Sums.{IsNodup, total, sum_over-cover, sum_over-keys}

pub elem_of-keys-insert :
    (x k : String) (n : ℕ) (d : Dict ℕ)
    → elem_of x (keys (insert k n d)) ≡ (elem_of x (keys d) || str_eq x k)
unfolding insert
elem_of-keys-insert x k n [] = ground arith
elem_of-keys-insert x k n ((j, m) ∷ d) =
    ground (arith, str_eq_iff j k, str_eq_iff x j, str_eq_iff x k, elem_of-keys-insert x k n d)

keys-insert-IsNodup :
    (k : String) (n : ℕ) (d : Dict ℕ) → IsNodup (keys d) → IsNodup (keys (insert k n d))
unfolding insert
keys-insert-IsNodup k n [] u = (refl, tt)
keys-insert-IsNodup k n ((j, m) ∷ d) u =
    ground (arith, str_eq_iff j k, elem_of-keys-insert j k n d, keys-insert-IsNodup k n d)

-- To add to the count of an action adds to the total.
total-insert :
    (k : String) (n : ℕ) (d : Dict ℕ) → total (insert k (count_of k d + n) d) ≡ total d + n
unfolding insert count_of
total-insert k n [] = omega arith
total-insert k n ((j, m) ∷ d) = ground (arith, total-insert k n d)

-- The dicts hold each action once, and add up to the totals but for the unattributed rows.
pub record IsTally (t : Tally) : Type 0 where
  pub self_nodup : IsNodup (keys t.self_by)
  pub metered_nodup : IsNodup (keys t.metered_by)
  pub self_le : t.self_total ≤ total t.self_by + t.unattributed
  pub metered_le : t.metered_total ≤ total t.metered_by + t.unattributed
  pub adds_up :
      total t.self_by + total t.metered_by + t.unattributed ≡ t.self_total + t.metered_total

add_group-IsTally : (t : Tally) (g : Group) → IsTally t → IsTally (add_group t g)
unfolding add_group
add_group-IsTally t (none, source, n) h = ground arith
add_group-IsTally t (some a, source, n) h = elim (Bool-cases (str_eq source "sentinel")) [
  | inl metered ↦ rw metered (
      ground (
        arith,
        total-insert a n t.metered_by,
        keys-insert-IsNodup a (count_of a t.metered_by + n) t.metered_by,
      ))
  | inr reported ↦ rw reported (
      ground (
        arith,
        total-insert a n t.self_by,
        keys-insert-IsNodup a (count_of a t.self_by + n) t.self_by,
      ))
]

pub tally_from-IsTally : (t : Tally) (gs : List Group) → IsTally t → IsTally (tally_from t gs)
unfolding tally_from
tally_from-IsTally t [] h = h
tally_from-IsTally t (g ∷ gs) h = tally_from-IsTally (add_group t g) gs (add_group-IsTally t g h)

sum_over-max :
    (f g : String → ℕ) (ks : List String)
    → (sum_over ks f ≤ sum_over ks (λ k. max (f k) (g k)))
      × (sum_over ks g ≤ sum_over ks (λ k. max (f k) (g k)))
      × (sum_over ks (λ k. max (f k) (g k)) ≤ sum_over ks f + sum_over ks g)
unfolding sum_over
sum_over-max f g [] = omega arith
sum_over-max f g (k ∷ ks) = omega (arith, sum_over-max f g ks)

-- The counted total is no less than what either side reported, and no more than both together.
pub action_totals-bounds :
    (gs : List Group)
    → let (self_total, metered_total, counted) = action_totals gs in
      (self_total ≤ counted) × (metered_total ≤ counted) × (counted ≤ self_total + metered_total)
unfolding action_totals counted_of
action_totals-bounds gs =
    let t = tally_from no_tally gs in
    let h : IsTally t = tally_from-IsTally no_tally gs (omega arith) in
    let rest = minus (keys t.metered_by) (keys t.self_by) in
    omega (
      arith,
      sum_over-max (λ a. count_of a t.self_by) (λ a. count_of a t.metered_by)
          (keys t.self_by ++ rest),
      sum_over-keys t.self_by (keys t.metered_by) h.self_nodup,
      sum_over-cover (keys t.self_by) t.metered_by h.self_nodup h.metered_nodup,
      h.self_le,
      h.metered_le,
      h.adds_up,
    )
