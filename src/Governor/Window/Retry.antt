-- ===== src/Governor/Window/Retry.antt =====
-- `window_retry_after` quotes the least wait after which the window is below its limit.
use field_platform.Prelude.{
  ℕ, ◌+◌, ◌-◌, ◌*◌, ◌≤◌, ◌<◌, min, none, some, List, [], ◌∷◌, ◌≡◌, ◌⊎◌, inl, inr, arith, leb, ltb,
  Bool-cases,
}
use field_platform.Governor.Window.{
  Row, one_second, max_retry_period_seconds, sort_rows, total, wait_until, shed_until,
  window_retry_after,
}
use field_platform.Governor.Window.Sorted.{
  left_at, IsFrom, IsSorted, total-sort_rows, left_at-sort_rows, left_at-le-total,
  sort_rows-IsSorted, left_at-eq-total,
}

module _ (must period now : ℕ) where
  -- The row at which enough has been shed: from the instant it leaves at most
  -- `total - must` is left, and before that instant more than that is.
  abbrev Sheds : (shed : ℕ) → List Row → Type 0
  Sheds shed rows =
      (ts : ℕ) × (shed_until must shed period now rows ≡ some (wait_until (ts + period) now))
      × ((b : ℕ) → IsFrom b rows → b ≤ ts)
      × ((t : ℕ) → ts + period ≤ t → left_at period t rows + must ≤ shed + total rows)
      × ((t : ℕ) → t < ts + period → shed + total rows < left_at period t rows + must)

  shed_until-Sheds :
      (shed : ℕ) (rows : List Row)
      → IsSorted rows
      → shed < must
      → must ≤ shed + total rows
      → Sheds shed rows
  unfolding shed_until
  shed_until-Sheds shed [] s lt le = absurd (omega arith)
  shed_until-Sheds shed ((ts, n) ∷ rows) s lt le = elim (Bool-cases (leb must (shed + n))) [
    | inl enough ↦ (
      ts,
      rw enough,
      λ b f. f.0,
      λ t h. ground (arith, left_at-le-total period t rows),
      λ t h. ground (arith, left_at-eq-total period t ts rows s.0),
    )
    | inr more ↦
        let (at, found, from, upper, lower) =
          shed_until-Sheds (shed + n) rows s.1 (ground arith) (ground arith) in
        (
          at,
          rw more found,
          λ b f. from b f.1,
          λ t h. ground (arith, upper t, from ts s.0),
          λ t h. ground (arith, lower t),
        )
  ]

-- The quoted seconds reach the instant, and no fewer do.
wait_until_least :
    (instant now : ℕ)
    → now < instant
    → (1 ≤ wait_until instant now)
      × (instant ≤ now + wait_until instant now * one_second)
      × ((q : ℕ) → q < wait_until instant now → now + q * one_second < instant)
unfolding wait_until
wait_until_least instant now h = (omega arith, omega arith, λ q lt. omega arith)

-- Every row is still in its window at `now`.
abbrev pub InWindow : (period now : ℕ) → List Row → Type 0
InWindow period now rows = left_at period now rows ≡ total rows

-- The answer for a window that is exhausted: the least whole number of seconds, at least one,
-- after which less than the limit is left in it.
abbrev pub LeastWait : (rows : List Row) (limit period now wait : ℕ) → Type 0
LeastWait rows limit period now wait =
    (1 ≤ wait)
    × (left_at period (now + wait * one_second) rows < limit)
    × ((q : ℕ) → q < wait → limit ≤ left_at period (now + q * one_second) rows)

module _ (rows : List Row) (limit period_seconds now : ℕ)
    (short : period_seconds ≤ max_retry_period_seconds) where
  period : ℕ
  period = period_seconds * one_second

  retry_below :
      total rows < limit
      → window_retry_after rows limit period_seconds now ≡ some (total rows, none)
  unfolding window_retry_after
  retry_below h = ground (arith, total-sort_rows rows)

  retry_full :
      (wait : ℕ)
      → limit ≤ total rows
      → shed_until (total rows + 1 - limit) 0 period now (sort_rows rows) ≡ some wait
      → window_retry_after rows limit period_seconds now ≡ some (total rows, some wait)
  unfolding window_retry_after period
  retry_full wait h found =
      let clipped : min period_seconds max_retry_period_seconds ≡ period_seconds = omega arith in
      elim (Bool-cases (ltb (total rows) limit)) [
        | inl below ↦ absurd (ground arith)
        | inr e ↦ rw (total-sort_rows rows, clipped, found, e, total-sort_rows rows)
      ]

  -- The wait for the row at which enough is shed is the least that suffices.
  retry_least :
      1 ≤ limit
      → limit ≤ total rows
      → InWindow period now rows
      → (s : Sheds (total rows + 1 - limit) period now 0 (sort_rows rows))
      → LeastWait rows limit period now (wait_until (s.0 + period) now)
  retry_least pos full inside (ts, found, from, upper, lower) =
      let left = λ (t : ℕ). left_at-sort_rows period t rows in
      let sum = total-sort_rows rows in
      let open_now : now < ts + period = elim (Bool-cases (leb (ts + period) now)) [
        | inl gone ↦ absurd (ground (arith, upper now, left now, sum))
        | inr open_now ↦ ground arith
      ] in
      let (pos_wait, reaches, least) = wait_until_least (ts + period) now open_now in
      let wait = wait_until (ts + period) now in
      (
        pos_wait,
        omega (arith, upper (now + wait * one_second) reaches, left (now + wait * one_second), sum),
        λ q lt.
            omega
              (arith, lower (now + q * one_second) (least q lt), left (now + q * one_second), sum),
      )

-- Below the limit no wait is quoted. Otherwise, for rows that are all still in a window of at most
-- 10^10 seconds and a limit of at least one, the least sufficient wait is quoted. In neither case
-- is the AssertionError reached.
pub window_retry_after-least :
    (rows : List Row) (limit period_seconds now : ℕ)
    → 1 ≤ limit
    → period_seconds ≤ max_retry_period_seconds
    → InWindow (period_seconds * one_second) now rows
    → ((total rows < limit)
        × (window_retry_after rows limit period_seconds now ≡ some (total rows, none)))
      ⊎ ((limit ≤ total rows)
          × ((wait : ℕ) × (window_retry_after rows limit period_seconds now
                ≡ some (total rows, some wait))
              × LeastWait rows limit (period_seconds * one_second) now wait))
unfolding period
window_retry_after-least rows limit period_seconds now pos short inside =
    elim (Bool-cases (ltb (total rows) limit)) [
      | inl below ↦
          inl (ground arith, retry_below rows limit period_seconds now short (ground arith))
      | inr full ↦
          let le : limit ≤ total rows = ground arith in
          let sheds =
            shed_until-Sheds (total rows + 1 - limit) (period_seconds * one_second) now 0
              (sort_rows rows) (sort_rows-IsSorted rows) (omega arith)
              (omega (arith, total-sort_rows rows)) in
          inr (
            le,
            (
              wait_until (sheds.0 + period_seconds * one_second) now,
              retry_full rows limit period_seconds now short _ le sheds.1,
              retry_least rows limit period_seconds now short pos le inside sheds,
            ),
          )
    ]
