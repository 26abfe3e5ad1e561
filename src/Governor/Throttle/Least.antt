-- ===== src/Governor/Throttle/Least.antt =====
-- The wait that a throttled status quotes.
use field_platform.Prelude.{
  ℕ, ◌+◌, ◌*◌, ◌≤◌, ◌<◌, max, String, Option, none, some, List, [], ◌∷◌, ◌≡◌, refl, ◌⊎◌, inl, inr,
  arith, subst, ltb, All, Bool-cases,
}
use field_platform.Governor.Window.{Row, total, one_second}
use field_platform.Governor.Window.Sorted.{left_at}
use field_platform.Governor.Window.Retry.{LeastWait, window_retry_after-least}
use field_platform.Governor.Store.{SpendEvent}
use field_platform.Governor.Throttle.{
  Window, ThrottleInfo, RateLimitRow, UsagePolicy, UsageRecord, exhausted, longest, longest_of,
  info_of, windows, throttle, then_longest,
}
use field_platform.Governor.Throttle.Rows.{IsWindow, IsLimit, IsPolicy, windows-IsWindow}

-- What is left in a window `t` seconds after `now`.
abbrev pub left_in : Window → (now t : ℕ) → ℕ
left_in w now t = left_at (w.seconds * one_second) (now + t * one_second) w.rows

abbrev pub HasRoom : (now t : ℕ) → List Window → Type 0
HasRoom now t ws = All (λ w. left_in w now t < w.limit) ws

abbrev pub SomeFull : (now t : ℕ) → List Window → Type 0
SomeFull now t [] = ⊥
SomeFull now t (w ∷ ws) = (w.limit ≤ left_in w now t) ⊎ SomeFull now t ws

abbrev max_of : List (ℕ × ThrottleInfo) → ℕ
max_of [] = 0
max_of ((wait, info) ∷ xs) = max wait (max_of xs)

-- The waits of the windows that are full, in order.
abbrev Quoted : ℕ → List Window → List (ℕ × ThrottleInfo) → Type 0
Quoted now [] xs = xs ≡ []
Quoted now (w ∷ ws) xs =
    ((total w.rows < w.limit) × Quoted now ws xs)
    ⊎ ((wait : ℕ) × (rest : List (ℕ × ThrottleInfo)) × (xs
          ≡ (wait, info_of w (total w.rows)) ∷ rest)
        × LeastWait w.rows w.limit (w.seconds * one_second) now wait
        × Quoted now ws rest)

exhausted-Quoted :
    (now : ℕ) (ws : List Window)
    → All (IsWindow now) ws
    → (xs : List (ℕ × ThrottleInfo)) × (exhausted now ws ≡ some xs) × Quoted now ws xs
unfolding exhausted
exhausted-Quoted now [] v = ([], refl, refl)
exhausted-Quoted now (w ∷ ws) v =
    let (rest, found, quoted) = exhausted-Quoted now ws v.1 in
    elim (window_retry_after-least w.rows w.limit w.seconds now v.0.0 v.0.1 v.0.2) [
      | inl (below, answer) ↦ (rest, rw (answer, found) refl, inl (below, quoted))
      | inr (full, (wait, answer, least)) ↦ (
        (wait, info_of w (total w.rows)) ∷ rest,
        rw (answer, found) refl,
        inr (wait, rest, refl, least, quoted),
      )
    ]

left_at-antitone :
    (period a b : ℕ) (rows : List Row) → a ≤ b → left_at period b rows ≤ left_at period a rows
left_at-antitone period a b [] h = omega arith
left_at-antitone period a b (r ∷ rows) h = ground (arith, left_at-antitone period a b rows)

left_at-le_total : (period now : ℕ) (rows : List Row) → left_at period now rows ≤ total rows
left_at-le_total period now [] = omega arith
left_at-le_total period now (r ∷ rows) = ground (arith, left_at-le_total period now rows)

Quoted-HasRoom :
    (now t : ℕ) (ws : List Window) (xs : List (ℕ × ThrottleInfo))
    → Quoted now ws xs
    → max_of xs ≤ t
    → HasRoom now t ws
Quoted-HasRoom now t [] xs q le = tt
Quoted-HasRoom now t (w ∷ ws) xs (inl (below, q)) le = (
  omega (arith, below, left_at-le_total (w.seconds * one_second) (now + t * one_second) w.rows),
  Quoted-HasRoom now t ws xs q le,
)
Quoted-HasRoom now t (w ∷ ws) xs (inr (wait, rest, e, least, q)) le =
    let bound : max wait (max_of rest) ≤ t = subst (λ l. max_of l ≤ t) e le in
    (
      omega (
        arith,
        least.1,
        left_at-antitone (w.seconds * one_second) (now + wait * one_second) (now + t * one_second)
            w.rows (omega arith),
      ),
      Quoted-HasRoom now t ws rest q (omega arith),
    )

Quoted-SomeFull :
    (now t : ℕ) (ws : List Window) (xs : List (ℕ × ThrottleInfo))
    → Quoted now ws xs
    → t < max_of xs
    → SomeFull now t ws
Quoted-SomeFull now t [] xs q lt = absurd (omega (arith, subst (λ l. t < max_of l) q lt))
Quoted-SomeFull now t (w ∷ ws) xs (inl (below, q)) lt = inr (Quoted-SomeFull now t ws xs q lt)
Quoted-SomeFull now t (w ∷ ws) xs (inr (wait, rest, e, least, q)) lt =
    let bound : t < max wait (max_of rest) = subst (λ l. t < max_of l) e lt in
    elim (Bool-cases (ltb t wait)) [
      | inl early ↦ inl (least.2 t (ground arith))
      | inr late ↦ inr (Quoted-SomeFull now t ws rest q (ground arith))
    ]

longest-max_of :
    (best : ℕ × ThrottleInfo) (xs : List (ℕ × ThrottleInfo))
    → (longest best xs).0 ≡ max best.0 (max_of xs)
unfolding longest
longest-max_of best [] = omega arith
longest-max_of best (x ∷ xs) = ground (arith, longest-max_of x xs, longest-max_of best xs)

-- The quoted wait is the least whole number of seconds after which all the windows have room.
abbrev pub LeastForAll : (ws : List Window) (now wait : ℕ) → Type 0
LeastForAll ws now wait =
    (1 ≤ wait) × HasRoom now wait ws × ((q : ℕ) → q < wait → SomeFull now q ws)

Quoted-pos :
    (now : ℕ) (ws : List Window) (x : ℕ × ThrottleInfo) (xs : List (ℕ × ThrottleInfo))
    → Quoted now ws (x ∷ xs)
    → 1 ≤ x.0
Quoted-pos now [] x xs q = absurd (ground arith)
Quoted-pos now (w ∷ ws) x xs (inl (below, q)) = Quoted-pos now ws x xs q
Quoted-pos now (w ∷ ws) x xs (inr (wait, rest, e, least, q)) = ground (arith, e, least.0)

-- The check for rolling windows never reaches the AssertionError: either every window that the read
-- looks at has room now and nothing is throttled, or the quoted wait is the least whole number of
-- seconds, at least one, after which every one of them has room. The limits are at least one and the
-- windows at most 10^10 seconds long.
pub throttle-least :
    (agent : String) (action : Option String) (now : ℕ) (spend : List SpendEvent)
    (usage : List UsageRecord) (limits : List RateLimitRow) (policy : Option UsagePolicy)
    → All IsLimit limits
    → IsPolicy policy
    → let ws = windows agent action now spend usage limits policy in
      let answer = throttle agent action now spend usage limits policy in
      ((answer ≡ some none) × HasRoom now 0 ws)
      ⊎ ((info : ThrottleInfo) × (wait : ℕ) × (answer ≡ some (some (info, wait)))
          × LeastForAll ws now wait)
unfolding throttle longest_of
throttle-least agent action now spend usage limits policy v p =
    let ws = windows agent action now spend usage limits policy in
    let (xs, found, quoted) =
      exhausted-Quoted now ws (windows-IsWindow agent action now spend usage limits policy v p) in
    verdict ws xs found quoted
  where
    verdict :
        (ws : List Window) (xs : List (ℕ × ThrottleInfo))
        → exhausted now ws ≡ some xs
        → Quoted now ws xs
        → ((then_longest (exhausted now ws) ≡ some none) × HasRoom now 0 ws)
          ⊎ ((info : ThrottleInfo) × (wait : ℕ) × (then_longest (exhausted now ws)
                ≡ some (some (info, wait)))
              × LeastForAll ws now wait)
    verdict ws [] found q = inl (rw found refl, Quoted-HasRoom now 0 ws [] q (omega arith))
    verdict ws (x ∷ xs) found q =
        let best = longest x xs in
        let e = longest-max_of x xs in
        let pos = Quoted-pos now ws x xs q in
        inr (
          best.1,
          best.0,
          rw found refl,
          (
            omega arith,
            Quoted-HasRoom now best.0 ws (x ∷ xs) q (omega arith),
            λ t lt. Quoted-SomeFull now t ws (x ∷ xs) q (omega arith),
          ),
        )
