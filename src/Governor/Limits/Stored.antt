-- ===== src/Governor/Limits/Stored.antt =====
-- What stands in the table of rate limits after a set is replaced.
use field_platform.Prelude.{
  ℕ, ◌≤◌, String, true, false, Option, some, List, [], ◌∷◌, ◌++◌, ◌≡◌, ◌≢◌, refl, inl, inr, arith,
  subst, sym, ap, ◌∙◌, none, ◌⊎◌, ◌+◌, All, Bool-cases, Option-cases, str_eq, str_eq_iff,
}
use field_platform.Governor.Period.{parse_rate_period, parse_rate_period-bounds}
use field_platform.Governor.Throttle.{RateLimitRow}
use field_platform.Governor.Throttle.Rows.{IsLimit}
use field_platform.Governor.Limits.{
  RateLimitEntry, is_entry, is_valid, LimitTable, delete_for, rate_row, rows_of, set_rate_limits,
  is_ordered, insert_ordered, get_rate_limits,
}

insert_ordered-All :
    (row : RateLimitRow) (rows : List RateLimitRow)
    → IsLimit row
    → All IsLimit rows
    → All IsLimit (insert_ordered row rows)
insert_ordered-All row [] h k = (h, tt)
insert_ordered-All row (r ∷ rows) h k = elim (Bool-cases (is_ordered row r)) [
  | inl first ↦ rw first (h, k)
  | inr later ↦ rw later (k.0, insert_ordered-All row rows h k.1)
]

-- The rows of other agents count for nothing, those of the agent are valid.
abbrev AllOwn : String → LimitTable → Type 0
AllOwn agent table = All (λ r. r.0 ≡ agent → IsLimit r.1) table

get_rate_limits-All :
    (agent : String) (table : LimitTable)
    → AllOwn agent table
    → All IsLimit (get_rate_limits agent table)
unfolding get_rate_limits
get_rate_limits-All agent [] h = tt
get_rate_limits-All agent ((owner, row) ∷ table) h = elim (Bool-cases (str_eq owner agent)) [
  | inl own ↦ rw own (
      insert_ordered-All row (get_rate_limits agent table) (h.0 ((str_eq_iff owner agent).0 own))
        (get_rate_limits-All agent table h.1))
  | inr other ↦ rw other (get_rate_limits-All agent table h.1)
]

rate_row-IsLimit :
    (e : RateLimitEntry) (seconds : Option ℕ)
    → 1 ≤ e.max_count
    → parse_rate_period e.period ≡ some seconds
    → IsLimit (rate_row e seconds)
rate_row-IsLimit e seconds pos parsed =
    (pos, λ s at. omega (arith, (parse_rate_period-bounds e.period s (cc (parsed, at))).1))

rows_of-AllOwn :
    (agent : String) (seen entries : List RateLimitEntry) (rows : LimitTable)
    → is_valid seen entries ≡ true
    → rows_of agent entries ≡ some rows
    → AllOwn agent rows
unfolding rows_of is_valid is_entry
rows_of-AllOwn agent seen [] rows v h =
    let none_made : [] ≡ rows = ground arith in subst (AllOwn agent) none_made tt
rows_of-AllOwn agent seen (e ∷ entries) rows v h =
    elim (Option-cases (parse_rate_period e.period)) [
      | inl unknown ↦ absurd (ground arith)
      | inr (seconds, parsed) ↦ elim (Option-cases (rows_of agent entries)) [
        | inl refused ↦ absurd (ground arith)
        | inr (rest, made) ↦
            let last : (agent, rate_row e seconds) ∷ rest ≡ rows = ground arith in
            subst (AllOwn agent) last (
              (λ own. rate_row-IsLimit e seconds (ground arith) parsed),
              rows_of-AllOwn agent (e ∷ seen) entries rest (ground arith) made,
            )
      ]
    ]

delete_for-AllOwn :
    (agent : String) (table : LimitTable) (rows : LimitTable)
    → AllOwn agent rows
    → AllOwn agent (delete_for agent table ++ rows)
unfolding delete_for
delete_for-AllOwn agent [] rows h = h
delete_for-AllOwn agent ((owner, row) ∷ table) rows h = elim (Bool-cases (str_eq owner agent)) [
  | inl own ↦ rw own (delete_for-AllOwn agent table rows h)
  | inr other ↦ rw other (
    (λ own. absurd (cc (other, (str_eq_iff owner agent).1 own))),
    delete_for-AllOwn agent table rows h,
  )
]

-- A set that the handler accepts is stored.
rows_of-some :
    (agent : String) (seen entries : List RateLimitEntry)
    → is_valid seen entries ≡ true
    → (rows : LimitTable) × (rows_of agent entries ≡ some rows)
unfolding rows_of is_valid
rows_of-some agent seen [] v = ([], refl)
rows_of-some agent seen (e ∷ entries) v = elim (Option-cases (parse_rate_period e.period)) [
  | inl unknown ↦ absurd (ground arith)
  | inr (seconds, parsed) ↦
      let (rest, made) = rows_of-some agent (e ∷ seen) entries (ground arith) in
      ((agent, rate_row e seconds) ∷ rest, rw (parsed, made) refl)
]

abbrev pub Has : RateLimitRow → List RateLimitRow → Type 0
Has r [] = ⊥
Has r (x ∷ rows) = (x ≡ r) ⊎ Has r rows

abbrev pub size {ℓ} : {A : Type ℓ} → List A → ℕ
size [] = 0
size (x ∷ xs) = 1 + size xs

abbrev window_of : Option (Option ℕ) → Option ℕ
window_of none = none
window_of (some window) = window

-- The row of an entry: its action, count and period, and the period's length.
abbrev pub entry_row : RateLimitEntry → RateLimitRow
entry_row e = rate_row e (window_of (parse_rate_period e.period))

insert_ordered-here :
    (row : RateLimitRow) (rows : List RateLimitRow) → Has row (insert_ordered row rows)
insert_ordered-here row [] = inl refl
insert_ordered-here row (b ∷ rows) = elim (Bool-cases (is_ordered row b)) [
  | inl first ↦ rw first (inl refl)
  | inr later ↦ rw later (inr (insert_ordered-here row rows))
]

insert_ordered-Has :
    (row r : RateLimitRow) (rows : List RateLimitRow) → Has r rows → Has r (insert_ordered row rows)
insert_ordered-Has row r [] h = elim h [ ]
insert_ordered-Has row r (b ∷ rows) h = elim (Bool-cases (is_ordered row b)) [
  | inl first ↦ rw first (inr h)
  | inr later ↦
      rw later
        (elim h [ inl same ↦ inl same | inr more ↦ inr (insert_ordered-Has row r rows more) ])
]

insert_ordered-size :
    (row : RateLimitRow) (rows : List RateLimitRow) → size (insert_ordered row rows) ≡ 1 + size rows
insert_ordered-size row [] = refl
insert_ordered-size row (b ∷ rows) = elim (Bool-cases (is_ordered row b)) [
  | inl first ↦ rw first refl
  | inr later ↦ rw (later, insert_ordered-size row rows) refl
]

get-replaced :
    (agent : String) (table rows : LimitTable)
    → get_rate_limits agent (delete_for agent table ++ rows) ≡ get_rate_limits agent rows
unfolding delete_for get_rate_limits
get-replaced agent [] rows = refl
get-replaced agent ((owner, row) ∷ table) rows = elim (Bool-cases (str_eq owner agent)) [
  | inl own ↦ rw own (get-replaced agent table rows)
  | inr other ↦ rw (other, other) (get-replaced agent table rows)
]

-- Each entry's row is among those that are read, and there are no others.
abbrev pub IsRead : List RateLimitEntry → List RateLimitRow → Type 0
IsRead entries rows = All (λ e. Has (entry_row e) rows) entries × (size rows ≡ size entries)

entries_kept :
    (row : RateLimitRow) (rows : List RateLimitRow) (entries : List RateLimitEntry)
    → All (λ e. Has (entry_row e) rows) entries
    → All (λ e. Has (entry_row e) (insert_ordered row rows)) entries
entries_kept row rows [] h = tt
entries_kept row rows (e ∷ entries) h =
    (insert_ordered-Has row (entry_row e) rows h.0, entries_kept row rows entries h.1)

get-own :
    (agent : String) (row : RateLimitRow) (rest : LimitTable)
    → get_rate_limits agent ((agent, row) ∷ rest) ≡ insert_ordered row (get_rate_limits agent rest)
unfolding get_rate_limits
get-own agent row rest =
    let own : str_eq agent agent ≡ true = (str_eq_iff agent agent).1 refl in rw own refl

more-IsRead :
    (e : RateLimitEntry) (row : RateLimitRow) (entries : List RateLimitEntry)
    (rows : List RateLimitRow)
    → row ≡ entry_row e
    → IsRead entries rows
    → IsRead (e ∷ entries) (insert_ordered row rows)
more-IsRead e row entries rows same h = (
  (
    subst (λ x. Has x (insert_ordered row rows)) same (insert_ordered-here row rows),
    entries_kept row rows entries h.0,
  ),
  insert_ordered-size row rows ∙ ap (λ n. 1 + n) h.1,
)

rows_of-IsRead :
    (agent : String) (entries : List RateLimitEntry) (rows : LimitTable)
    → rows_of agent entries ≡ some rows
    → IsRead entries (get_rate_limits agent rows)
unfolding rows_of get_rate_limits
rows_of-IsRead agent [] rows h =
    let none_made : [] ≡ rows = ground arith in
    subst (λ r. IsRead [] (get_rate_limits agent r)) none_made (tt, refl)
rows_of-IsRead agent (e ∷ entries) rows h = elim (Option-cases (parse_rate_period e.period)) [
  | inl unknown ↦ absurd (ground arith)
  | inr (seconds, parsed) ↦ elim (Option-cases (rows_of agent entries)) [
    | inl refused ↦ absurd (ground arith)
    | inr (rest, made) ↦
        let last : (agent, rate_row e seconds) ∷ rest ≡ rows = ground arith in
        subst (λ r. IsRead (e ∷ entries) (get_rate_limits agent r)) last
          (subst (IsRead (e ∷ entries)) (sym (get-own agent (rate_row e seconds) rest)) (
            more-IsRead e (rate_row e seconds) entries (get_rate_limits agent rest) (rw parsed refl)
              (rows_of-IsRead agent entries rest made)))
  ]
]

-- A set of limits that the request's validation accepts replaces the agent's: what is then read for the
-- agent are the rows of the entries, as many as there are entries, and every one has a count of at least one
-- and a window of at most 10^10 seconds, if any.
pub set_rate_limits-IsLimit :
    (agent : String) (entries : List RateLimitEntry) (table : LimitTable)
    → is_valid [] entries ≡ true
    → (table' : LimitTable) × (set_rate_limits agent entries table ≡ some table')
      × IsRead entries (get_rate_limits agent table')
      × All IsLimit (get_rate_limits agent table')
unfolding set_rate_limits
set_rate_limits-IsLimit agent entries table v =
    let (rows, made) = rows_of-some agent [] entries v in
    (
      delete_for agent table ++ rows,
      rw (made, set_rate_limits) refl,
      subst (IsRead entries) (sym (get-replaced agent table rows))
          (rows_of-IsRead agent entries rows made),
      get_rate_limits-All agent (delete_for agent table ++ rows)
          (delete_for-AllOwn agent table rows (rows_of-AllOwn agent [] entries rows v made)),
    )

rows_of_other :
    (agent other : String) (entries : List RateLimitEntry) (rows : LimitTable)
    → str_eq agent other ≡ false
    → rows_of agent entries ≡ some rows
    → get_rate_limits other rows ≡ []
unfolding rows_of get_rate_limits
rows_of_other agent other [] rows ne h =
    let none_made : [] ≡ rows = ground arith in
    subst (λ r. get_rate_limits other r ≡ []) none_made refl
rows_of_other agent other (e ∷ entries) rows ne h =
    elim (Option-cases (parse_rate_period e.period)) [
      | inl unknown ↦ absurd (ground arith)
      | inr (seconds, parsed) ↦ elim (Option-cases (rows_of agent entries)) [
        | inl refused ↦ absurd (ground arith)
        | inr (rest, made) ↦
            let last : (agent, rate_row e seconds) ∷ rest ≡ rows = ground arith in
            subst (λ r. get_rate_limits other r ≡ []) last
              (rw ne (rows_of_other agent other entries rest ne made))
      ]
    ]

replace_other :
    (agent other : String) (table rows : LimitTable)
    → str_eq agent other ≡ false
    → get_rate_limits other rows ≡ []
    → get_rate_limits other (delete_for agent table ++ rows) ≡ get_rate_limits other table
unfolding delete_for get_rate_limits
replace_other agent other [] rows ne h = h
replace_other agent other ((owner, row) ∷ table) rows ne h = ground (
  arith,
  replace_other agent other table rows ne h,
  str_eq_iff owner agent,
  str_eq_iff owner other,
  str_eq_iff agent other,
)

-- Whatever set is stored for one agent, what is read for another agent stays the same.
pub set_rate_limits_other :
    (agent other : String) (entries : List RateLimitEntry) (table table' : LimitTable)
    → agent ≢ other
    → set_rate_limits agent entries table ≡ some table'
    → get_rate_limits other table' ≡ get_rate_limits other table
unfolding set_rate_limits
set_rate_limits_other agent other entries table table' ne h =
    elim (Option-cases (rows_of agent entries)) [
      | inl refused ↦ absurd (ground arith)
      | inr (rows, made) ↦
          let apart : str_eq agent other ≡ false = ground (arith, str_eq_iff agent other, ne) in
          let stored : delete_for agent table ++ rows ≡ table' = ground arith in
          subst (λ t. get_rate_limits other t ≡ get_rate_limits other table) stored
            (replace_other agent other table rows apart
              (rows_of_other agent other entries rows apart made))
    ]
