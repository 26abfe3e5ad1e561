-- ===== src/Governor/Actions/Exact.antt =====
-- What `action_totals` counts: for each action the larger of what was reported and what was metered of it.
use field_platform.Prelude.{
  ℕ, ◌+◌, max, String, Option, none, some, List, [], ◌∷◌, ◌++◌, ◌≡◌, refl, arith, str_eq,
  str_eq_iff, Bool, true, false, ◌&&◌, ◌||◌, not, if◌then◌else◌, ap, ◌∙◌, fun_ext, elem_of,
  Bool-cases, inl, inr,
}
use field_platform.Prelude.Dict.{Dict, insert, lookup, lookup-insert}
use field_platform.Governor.Actions.{
  Group, Tally, no_tally, count_of, keys, minus, sum_over, add_group, tally_from, counted_of,
  action_totals,
}
use field_platform.Governor.Actions.Counted.{elem_of-keys-insert, IsTally, tally_from-IsTally}
use field_platform.Governor.Actions.Sums.{IsNodup}

-- What the groups say of one action, and of no action, by their source.
abbrev pub is_metered : String → Bool
is_metered source = str_eq source "sentinel"

abbrev pub is_for : String → Option String → Bool
is_for a none = false
is_for a (some b) = str_eq b a

abbrev pub share : Bool → ℕ → ℕ
share true n = n
share false n = 0

-- The sum of the counts of the groups that pass a test.
unfoldable pub sum_of_groups : (Option String → String → Bool) → List Group → ℕ
sum_of_groups test [] = 0
sum_of_groups test ((action, source, n) ∷ gs) = share (test action source) n + sum_of_groups test gs

abbrev pub is_reported_for : String → Option String → String → Bool
is_reported_for a action source = is_for a action && not (is_metered source)

abbrev pub is_metered_for : String → Option String → String → Bool
is_metered_for a action source = is_for a action && is_metered source

abbrev pub is_unnamed : Option String → String → Bool
is_unnamed none source = true
is_unnamed (some a) source = false

unfoldable pub is_named : String → List Group → Bool
is_named a [] = false
is_named a ((action, source, n) ∷ gs) = is_for a action || is_named a gs

count_of-insert :
    (a k : String) (n : ℕ) (d : Dict ℕ)
    → count_of a (insert k n d) ≡ (if str_eq k a then n else count_of a d)
unfolding count_of
count_of-insert a k n d =
    rw (lookup-insert k a n d)
      (elim (Bool-cases (str_eq k a)) [ inl same ↦ rw same refl | inr other ↦ rw other refl ])

-- What a tally is after a run of groups.
record Adds (t : Tally) (gs : List Group) (u : Tally) : Type 0 where
  self_of :
      (a : String)
      → count_of a u.self_by ≡ count_of a t.self_by + sum_of_groups (is_reported_for a) gs
  metered_of :
      (a : String)
      → count_of a u.metered_by ≡ count_of a t.metered_by + sum_of_groups (is_metered_for a) gs
  names :
      (a : String)
      → (elem_of a (keys u.self_by) || elem_of a (keys u.metered_by))
        ≡ ((elem_of a (keys t.self_by) || elem_of a (keys t.metered_by)) || is_named a gs)
  unnamed : u.unattributed ≡ t.unattributed + sum_of_groups is_unnamed gs
  self_sum :
      u.self_total ≡ t.self_total + sum_of_groups (λ action source. not (is_metered source)) gs
  metered_sum :
      u.metered_total ≡ t.metered_total + sum_of_groups (λ action source. is_metered source) gs

add_group-Adds : (t : Tally) (g : Group) → Adds t (g ∷ []) (add_group t g)
unfolding add_group sum_of_groups is_named
add_group-Adds t (none, source, n) = elim (Bool-cases (str_eq source "sentinel")) [
  | inl metered ↦ rw metered (record {
    self_of = λ a. ground arith;
    metered_of = λ a. ground arith;
    names = λ a. ground arith;
    unnamed = ground arith;
    self_sum = ground arith;
    metered_sum = ground arith;
  })
  | inr reported ↦ rw reported (record {
    self_of = λ a. ground arith;
    metered_of = λ a. ground arith;
    names = λ a. ground arith;
    unnamed = ground arith;
    self_sum = ground arith;
    metered_sum = ground arith;
  })
]
add_group-Adds t (some k, source, n) = elim (Bool-cases (str_eq source "sentinel")) [
  | inl metered ↦ rw metered (record {
    self_of = λ a. ground arith;
    metered_of = λ a.
        ground
          (arith, count_of-insert a k (count_of k t.metered_by + n) t.metered_by, str_eq_iff k a);
    names = λ a. ground (
      arith,
      elem_of-keys-insert a k (count_of k t.metered_by + n) t.metered_by,
      str_eq_iff k a,
      str_eq_iff a k,
    );
    unnamed = ground arith;
    self_sum = ground arith;
    metered_sum = ground arith;
  })
  | inr reported ↦ rw reported (record {
    self_of = λ a.
        ground (arith, count_of-insert a k (count_of k t.self_by + n) t.self_by, str_eq_iff k a);
    metered_of = λ a. ground arith;
    names = λ a. ground (
      arith,
      elem_of-keys-insert a k (count_of k t.self_by + n) t.self_by,
      str_eq_iff k a,
      str_eq_iff a k,
    );
    unnamed = ground arith;
    self_sum = ground arith;
    metered_sum = ground arith;
  })
]

zero_more : (n : ℕ) (test : Option String → String → Bool) → n ≡ n + sum_of_groups test []
unfolding sum_of_groups
zero_more n test = omega arith

none_more : (a : String) (b : Bool) → b ≡ (b || is_named a [])
unfolding is_named
none_more a true = refl
none_more a false = refl

joined :
    (t u v one gs all : Bool) → u ≡ (t || one) → v ≡ (u || gs) → all ≡ (one || gs) → v ≡ (t || all)
joined t u v one gs all h k l = ground arith

sum_of_groups-first :
    (test : Option String → String → Bool) (g : Group) (gs : List Group)
    → sum_of_groups test (g ∷ gs) ≡ sum_of_groups test (g ∷ []) + sum_of_groups test gs
unfolding sum_of_groups
sum_of_groups-first test (action, source, n) gs = omega arith

is_named-first :
    (a : String) (g : Group) (gs : List Group)
    → is_named a (g ∷ gs) ≡ (is_named a (g ∷ []) || is_named a gs)
unfolding is_named
is_named-first a (action, source, n) gs = ground arith

tally_from-Adds : (t : Tally) (gs : List Group) → Adds t gs (tally_from t gs)
unfolding tally_from
tally_from-Adds t [] = record {
  self_of = λ a. zero_more _ (is_reported_for a);
  metered_of = λ a. zero_more _ (is_metered_for a);
  names = λ a. none_more a (elem_of a (keys t.self_by) || elem_of a (keys t.metered_by));
  unnamed = zero_more _ is_unnamed;
  self_sum = zero_more _ _;
  metered_sum = zero_more _ _;
}
tally_from-Adds t (g ∷ gs) =
    let one = add_group-Adds t g in
    let rest = tally_from-Adds (add_group t g) gs in
    record {
      self_of = λ a.
          omega
            (arith, one.self_of a, rest.self_of a, sum_of_groups-first (is_reported_for a) g gs);
      metered_of = λ a.
          omega (
            arith,
            one.metered_of a,
            rest.metered_of a,
            sum_of_groups-first (is_metered_for a) g gs,
          );
      names = λ a. joined _ _ _ _ _ _ (one.names a) (rest.names a) (is_named-first a g gs);
      unnamed = omega (arith, one.unnamed, rest.unnamed, sum_of_groups-first is_unnamed g gs);
      self_sum = omega (
        arith,
        one.self_sum,
        rest.self_sum,
        sum_of_groups-first (λ action source. not (is_metered source)) g gs,
      );
      metered_sum = omega (
        arith,
        one.metered_sum,
        rest.metered_sum,
        sum_of_groups-first (λ action source. is_metered source) g gs,
      );
    }

elem_of-append :
    (a : String) (xs ys : List String) → elem_of a (xs ++ ys) ≡ (elem_of a xs || elem_of a ys)
elem_of-append a [] ys = refl
elem_of-append a (x ∷ xs) ys = ground (arith, elem_of-append a xs ys)

elem_of-rest :
    (a : String) (ys xs : List String)
    → elem_of a (minus ys xs) ≡ (elem_of a ys && not (elem_of a xs))
unfolding minus
elem_of-rest a [] xs = refl
elem_of-rest a (y ∷ ys) xs = elim (Bool-cases (elem_of y xs)) [
  | inl old ↦ rw old (ground (arith, elem_of-rest a ys xs, str_eq_iff a y))
  | inr new ↦ rw new (ground (arith, elem_of-rest a ys xs, str_eq_iff a y))
]

minus-IsNodup : (ys xs : List String) → IsNodup ys → IsNodup (minus ys xs)
unfolding minus
minus-IsNodup [] xs u = tt
minus-IsNodup (y ∷ ys) xs u = elim (Bool-cases (elem_of y xs)) [
  | inl old ↦ rw old (minus-IsNodup ys xs u.1)
  | inr new ↦ rw new (ground (arith, elem_of-rest y ys xs, u.0), minus-IsNodup ys xs u.1)
]

apart-IsNodup :
    (xs ys : List String)
    → IsNodup xs
    → IsNodup ys
    → ((a : String) → elem_of a xs ≡ true → elem_of a ys ≡ false)
    → IsNodup (xs ++ ys)
apart-IsNodup [] ys u v apart = v
apart-IsNodup (x ∷ xs) ys u v apart = (
  ground (arith, elem_of-append x xs ys, u.0, apart x, str_eq_iff x x),
  apart-IsNodup xs ys u.1 v (λ a h. apart a (ground (arith, h))),
)

drop_zero : (a b : ℕ) → a ≡ 0 + b → a ≡ b
drop_zero a b h = omega arith

-- What is counted of one action: the larger of what was reported and what was metered.
abbrev pub larger_of : List Group → String → ℕ
larger_of gs a = max (sum_of_groups (is_reported_for a) gs) (sum_of_groups (is_metered_for a) gs)

tally_larger : Tally → String → ℕ
tally_larger t a = max (count_of a t.self_by) (count_of a t.metered_by)

larger : (gs : List Group) (t : Tally) → Adds no_tally gs t → tally_larger t ≡ larger_of gs
unfolding count_of lookup tally_larger
larger gs t sums = fun_ext (λ a.
    ap (λ n. max n (count_of a t.metered_by)) (drop_zero _ _ (sums.self_of a))
    ∙ ap (max (sum_of_groups (is_reported_for a) gs)) (drop_zero _ _ (sums.metered_of a)))

-- The actions that are named, each once, with what is counted of them.
abbrev pub IsCounted : List Group → (self_total metered_total counted : ℕ) → Type 0
IsCounted gs self_total metered_total counted =
    (self_total ≡ sum_of_groups (λ action source. not (is_metered source)) gs)
    × (metered_total ≡ sum_of_groups (λ action source. is_metered source) gs)
    × (names : List String) × IsNodup names
    × ((a : String) → elem_of a names ≡ is_named a gs)
    × (counted ≡ sum_of_groups is_unnamed gs + sum_over names (larger_of gs))

-- The two totals are the sums over the groups that the sentinel has not, and has, metered. The counted total
-- is the sum of what names no action and, over the distinct actions that the groups name, of the larger of the
-- two sums for the action: none is left out, and none is counted twice.
pub action_totals-IsCounted :
    (gs : List Group)
    → let (self_total, metered_total, counted) = action_totals gs in
      IsCounted gs self_total metered_total counted
unfolding action_totals counted_of tally_larger
action_totals-IsCounted gs =
    let t = tally_from no_tally gs in
    let h : IsTally t = tally_from-IsTally no_tally gs (omega arith) in
    let sums = tally_from-Adds no_tally gs in
    let rest = minus (keys t.metered_by) (keys t.self_by) in
    (
      drop_zero _ _ sums.self_sum,
      drop_zero _ _ sums.metered_sum,
      keys t.self_by ++ rest,
      apart-IsNodup (keys t.self_by) rest h.self_nodup
          (minus-IsNodup (keys t.metered_by) (keys t.self_by) h.metered_nodup)
          (λ a own. ground (arith, own, elem_of-rest a (keys t.metered_by) (keys t.self_by))),
      λ a. ground (
        arith,
        elem_of-append a (keys t.self_by) rest,
        elem_of-rest a (keys t.metered_by) (keys t.self_by),
        sums.names a,
      ),
      omega (arith, sums.unnamed, ap (sum_over (keys t.self_by ++ rest)) (larger gs t sums)),
    )
