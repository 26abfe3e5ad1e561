-- ===== src/Governor/Store/Sums.antt =====
-- The split sums are sums.
use field_platform.Prelude.{ℕ, ◌+◌, List, [], ◌∷◌, ◌≡◌, refl, arith}
use field_platform.Governor.Store.{SpendEvent, join_sum}

-- The sum of a column.
abbrev pub sum_of : (SpendEvent → ℕ) → List SpendEvent → ℕ
sum_of col [] = 0
sum_of col (e ∷ es) = col e + sum_of col es

-- To sum the high and the low 32 bits of a column apart and to recombine them gives its sum, of
-- whatever size.
pub join_sum-eq-sum_of :
    (col : SpendEvent → ℕ) (es : List SpendEvent) → join_sum col es ≡ sum_of col es
unfolding join_sum
join_sum-eq-sum_of col [] = refl
join_sum-eq-sum_of col (e ∷ es) = omega (arith, join_sum-eq-sum_of col es)
