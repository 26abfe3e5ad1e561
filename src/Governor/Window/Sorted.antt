-- ===== src/Governor/Window/Sorted.antt =====
-- Sorting the rows keeps what they add up to, and what of them is left at an instant.
use field_platform.Prelude.{ℕ, ◌+◌, ◌≤◌, List, [], ◌∷◌, ◌≡◌, refl, arith, if◌then◌else◌, ltb}
use field_platform.Governor.Window.{Row, insert_row, sort_rows, total}

-- What is left in a window of length `period` at the instant `now`.
abbrev pub left_at : (period now : ℕ) → List Row → ℕ
left_at period now [] = 0
left_at period now ((ts, n) ∷ rows) =
    (if ltb now (ts + period) then n else 0) + left_at period now rows

-- No row is older than `b`.
abbrev pub IsFrom : ℕ → List Row → Type 0
IsFrom b [] = Unit
IsFrom b ((ts, n) ∷ rows) = (b ≤ ts) × IsFrom b rows

abbrev pub IsSorted : List Row → Type 0
IsSorted [] = Unit
IsSorted ((ts, n) ∷ rows) = IsFrom ts rows × IsSorted rows

total-insert_row : (r : Row) (rows : List Row) → total (insert_row r rows) ≡ r.1 + total rows
total-insert_row r [] = refl
total-insert_row r (s ∷ rows) = ground (arith, total-insert_row r rows)

pub total-sort_rows : (rows : List Row) → total (sort_rows rows) ≡ total rows
unfolding sort_rows
total-sort_rows [] = refl
total-sort_rows (r ∷ rows) =
    omega (arith, total-insert_row r (sort_rows rows), total-sort_rows rows)

module _ (period now : ℕ) where
  left_at-insert_row :
      (r : Row) (rows : List Row)
      → left_at period now (insert_row r rows)
        ≡ (if ltb now (r.0 + period) then r.1 else 0) + left_at period now rows
  left_at-insert_row r [] = refl
  left_at-insert_row r (s ∷ rows) = ground (arith, left_at-insert_row r rows)

  pub left_at-sort_rows :
      (rows : List Row) → left_at period now (sort_rows rows) ≡ left_at period now rows
  unfolding sort_rows
  left_at-sort_rows [] = refl
  left_at-sort_rows (r ∷ rows) =
      omega (arith, left_at-insert_row r (sort_rows rows), left_at-sort_rows rows)

  pub left_at-le-total : (rows : List Row) → left_at period now rows ≤ total rows
  left_at-le-total [] = omega arith
  left_at-le-total (r ∷ rows) = ground (arith, left_at-le-total rows)

IsFrom-insert_row :
    (b : ℕ) (r : Row) (rows : List Row) → b ≤ r.0 → IsFrom b rows → IsFrom b (insert_row r rows)
IsFrom-insert_row b r [] h f = (h, tt)
IsFrom-insert_row b r (s ∷ rows) h f = ground (arith, IsFrom-insert_row b r rows)

pub IsFrom-le : (a b : ℕ) (rows : List Row) → a ≤ b → IsFrom b rows → IsFrom a rows
IsFrom-le a b [] h f = tt
IsFrom-le a b (s ∷ rows) h f = ground (arith, IsFrom-le a b rows)

insert_row-IsSorted : (r : Row) (rows : List Row) → IsSorted rows → IsSorted (insert_row r rows)
insert_row-IsSorted r [] h = (tt, tt)
insert_row-IsSorted r (s ∷ rows) h =
    ground (arith, IsFrom-insert_row s.0 r rows, insert_row-IsSorted r rows, IsFrom-le r.0 s.0 rows)

pub sort_rows-IsSorted : (rows : List Row) → IsSorted (sort_rows rows)
unfolding sort_rows
sort_rows-IsSorted [] = tt
sort_rows-IsSorted (r ∷ rows) = insert_row-IsSorted r (sort_rows rows) (sort_rows-IsSorted rows)

-- Before the oldest row of a sorted list leaves, nothing has left.
pub left_at-eq-total :
    (period now b : ℕ) (rows : List Row)
    → IsFrom b rows
    → now + 1 ≤ b + period
    → left_at period now rows ≡ total rows
left_at-eq-total period now b [] f h = refl
left_at-eq-total period now b (s ∷ rows) f h = ground (arith, left_at-eq-total period now b rows)
