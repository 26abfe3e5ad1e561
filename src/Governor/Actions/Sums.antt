-- ===== src/Governor/Actions/Sums.antt =====
-- Sums of counts over lists of distinct actions.
use field_platform.Prelude.{
  ℕ, ◌+◌, String, false, true, List, [], ◌∷◌, ◌++◌, ◌≡◌, refl, inl, inr, arith, str_eq, subst,
  str_eq_iff, elem_of, Bool-cases,
}
use field_platform.Prelude.Dict.{Dict}
use field_platform.Governor.Actions.{count_of, keys, minus, sum_over}

-- The items are distinct.
abbrev pub IsNodup : List String → Type 0
IsNodup [] = Unit
IsNodup (x ∷ xs) = (elem_of x xs ≡ false) × IsNodup xs

-- The sum of the values of a dict.
abbrev pub total : Dict ℕ → ℕ
total [] = 0
total ((k, n) ∷ d) = n + total d

pub sum_over-append :
    (f : String → ℕ) (xs ys : List String) → sum_over (xs ++ ys) f ≡ sum_over xs f + sum_over ys f
unfolding sum_over
sum_over-append f [] ys = omega arith
sum_over-append f (x ∷ xs) ys = omega (arith, sum_over-append f xs ys)

count_of-miss : (a : String) (d : Dict ℕ) → elem_of a (keys d) ≡ false → count_of a d ≡ 0
unfolding count_of
count_of-miss a [] h = refl
count_of-miss a ((k, n) ∷ d) h = ground (arith, str_eq_iff a k, str_eq_iff k a, count_of-miss a d)

-- An entry whose key is not summed over does not count.
sum_over-skip :
    (a : String) (n : ℕ) (d : Dict ℕ) (xs : List String)
    → elem_of a xs ≡ false
    → sum_over xs (λ k. count_of k ((a, n) ∷ d)) ≡ sum_over xs (λ k. count_of k d)
unfolding sum_over count_of
sum_over-skip a n d [] h = refl
sum_over-skip a n d (x ∷ xs) h = ground (arith, sum_over-skip a n d xs, str_eq_iff a x)

-- An entry whose key is summed over once counts once.
sum_over-once :
    (a : String) (n : ℕ) (d : Dict ℕ) (xs : List String)
    → elem_of a xs ≡ true
    → IsNodup xs
    → count_of a d ≡ 0
    → sum_over xs (λ k. count_of k ((a, n) ∷ d)) ≡ n + sum_over xs (λ k. count_of k d)
unfolding sum_over count_of
sum_over-once a n d [] h u z = cc
sum_over-once a n d (x ∷ xs) h u z = elim (Bool-cases (str_eq a x)) [
  | inl same ↦ ground (arith, sum_over-skip a n d xs, str_eq_iff a x)
  | inr other ↦ ground (arith, sum_over-once a n d xs, str_eq_iff a x)
]

elem_of-minus :
    (a : String) (ys xs : List String) → elem_of a ys ≡ false → elem_of a (minus ys xs) ≡ false
unfolding minus
elem_of-minus a [] xs h = refl
elem_of-minus a (y ∷ ys) xs h = ground (arith, elem_of-minus a ys xs)

sum_over-empty : (xs : List String) → sum_over xs (λ k. count_of k []) ≡ 0
unfolding sum_over count_of
sum_over-empty [] = refl
sum_over-empty (x ∷ xs) = omega (arith, sum_over-empty xs)

count_of-head : (a : String) (n : ℕ) (d : Dict ℕ) → count_of a ((a, n) ∷ d) ≡ n
unfolding count_of
count_of-head a n d = ground (arith, str_eq_iff a a)

-- One more entry under a new key adds its count to the sum over a cover.
cover-step :
    (a : String) (n : ℕ) (d : Dict ℕ) (xs : List String)
    → IsNodup xs
    → elem_of a (keys d) ≡ false
    → sum_over (xs ++ minus (a ∷ keys d) xs) (λ k. count_of k ((a, n) ∷ d))
      ≡ n + sum_over (xs ++ minus (keys d) xs) (λ k. count_of k d)
unfolding minus sum_over
cover-step a n d xs u fresh =
    let f : String → ℕ = λ k. count_of k ((a, n) ∷ d) in
    let g : String → ℕ = λ k. count_of k d in
    let rest = minus (keys d) xs in
    let absent = elem_of-minus a (keys d) xs fresh in
    elim (Bool-cases (elem_of a xs)) [
      | inl old ↦
          rw (minus, old, sum_over-append f xs rest, sum_over-append g xs rest)
            (omega (
              arith,
              sum_over-once a n d xs old u (count_of-miss a d fresh),
              sum_over-skip a n d rest absent,
            ))
      | inr new ↦
          rw (minus, new, sum_over-append f xs (a ∷ rest), sum_over-append g xs rest)
            (omega (
              arith,
              count_of-head a n d,
              sum_over-skip a n d xs new,
              sum_over-skip a n d rest absent,
            ))
    ]

-- Over any distinct keys and then the remaining keys of a dict, the counts add up to its total.
pub sum_over-cover :
    (xs : List String) (d : Dict ℕ)
    → IsNodup xs
    → IsNodup (keys d)
    → sum_over (xs ++ minus (keys d) xs) (λ k. count_of k d) ≡ total d
unfolding minus sum_over
sum_over-cover xs [] u v =
    rw (sum_over-append (λ k. count_of k []) xs []) (rw (sum_over-empty xs) (sum_over-empty []))
sum_over-cover xs ((a, n) ∷ d) u v =
    omega (arith, cover-step a n d xs u v.0, sum_over-cover xs d u v.1)

minus-nil : (ys : List String) → minus ys [] ≡ ys
unfolding minus
minus-nil [] = refl
minus-nil (y ∷ ys) = rw (minus-nil ys)

sum_over-minus :
    (ys : List String) (d : Dict ℕ) → sum_over (minus ys (keys d)) (λ k. count_of k d) ≡ 0
unfolding minus sum_over
sum_over-minus [] d = refl
sum_over-minus (y ∷ ys) d = ground (arith, sum_over-minus ys d, count_of-miss y d)

-- The keys of a dict followed by others that it lacks add up to its total too.
pub sum_over-keys :
    (d : Dict ℕ) (ys : List String)
    → IsNodup (keys d)
    → sum_over (keys d ++ minus ys (keys d)) (λ k. count_of k d) ≡ total d
sum_over-keys d ys u =
    let whole : sum_over (keys d) (λ k. count_of k d) ≡ total d =
      subst (λ ks. sum_over ks (λ k. count_of k d) ≡ total d) (minus-nil (keys d))
        (sum_over-cover [] d tt u) in
    omega (
      arith,
      whole,
      sum_over-append (λ k. count_of k d) (keys d) (minus ys (keys d)),
      sum_over-minus ys d,
    )
