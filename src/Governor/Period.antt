-- ===== src/Governor/Period.antt =====
-- `parse_rate_period` of core.py, the grammar of rate-limit periods.
use Prim.Native.Char.{code}
use field_platform.Prelude.{
  ℕ, zero, suc, ◌+◌, ◌-◌, ◌*◌, ◌≤◌, ◌<◌, String, true, false, ◌&&◌, Option, none, some, List, [],
  ◌∷◌, ◌++◌, ◌≡◌, refl, ap, inl, inr, arith, leb, ltb, ◌==◌, str_eq, str_eq_iff, if◌then◌else◌,
  length, All, Bool-cases, Option-cases,
}

abbrev pub max_rate_period_seconds : ℕ
max_rate_period_seconds = 366 * 86400

abbrev pub codes : String → List ℕ
codes String.[] = []
codes (String.◌∷◌ c s) = code c ∷ codes s

-- `_RATE_UNIT_SECONDS`
unfoldable pub unit_seconds : ℕ → Option ℕ
unit_seconds c =
    if c == b's'
    then some 1
    else if c == b'm'
    then some 60
    else if c == b'h'
    then some 3600
    else if c == b'd'
    then some 86400
    else none

abbrev with_count : ℕ → Option ℕ → Option (ℕ × ℕ)
with_count n none = none
with_count n (some unit) = some (n, unit)

-- The rest of `_RATE_PERIOD_RE` behind the digits read so far: at most `left` more, then a unit.
match_rest : (left acc : ℕ) → List ℕ → Option (ℕ × ℕ)
unfolding unit_seconds
match_rest left acc [] = none
match_rest left acc (c ∷ []) = with_count acc (unit_seconds c)
match_rest zero acc (c ∷ d ∷ rest) = none
match_rest (suc left) acc (c ∷ d ∷ rest) =
    if leb b'0' c && leb c b'9' then match_rest left (acc * 10 + (c - b'0')) (d ∷ rest) else none

-- `_RATE_PERIOD_RE.fullmatch`
match_period : List ℕ → Option (ℕ × ℕ)
unfolding match_rest
match_period [] = none
match_period (c ∷ rest) = if leb b'1' c && leb c b'9' then match_rest 8 (c - b'0') rest else none

-- `none` is the UnknownRatePeriodError of a window longer than 366 days.
abbrev bounded : Option (ℕ × ℕ) → Option (Option ℕ)
bounded none = none
bounded (some (n, unit)) =
    if ltb max_rate_period_seconds (n * unit) then none else some (some (n * unit))

-- `none` is the UnknownRatePeriodError, `some none` a declared period with no window.
unfoldable pub parse_rate_period : String → Option (Option ℕ)
unfolding match_period
parse_rate_period period =
    if str_eq period "session"
    then some none
    else if str_eq period "hourly"
    then some (some 3600)
    else if str_eq period "daily"
    then some (some 86400)
    else if str_eq period "monthly"
    then some (some (30 * 86400))
    else bounded (match_period (codes period))

unit_seconds_pos : (c u : ℕ) → unit_seconds c ≡ some u → 1 ≤ u
unfolding unit_seconds
unit_seconds_pos c u h = ground arith

match_rest_pos :
    (left acc : ℕ) (cs : List ℕ) (n u : ℕ)
    → 1 ≤ acc
    → match_rest left acc cs ≡ some (n, u)
    → (1 ≤ n) × (1 ≤ u)
unfolding match_rest
match_rest_pos left acc [] n u p h = cc
match_rest_pos left acc (c ∷ []) n u p h = elim (Option-cases (unit_seconds c)) [
  | inl other ↦ cc (h, ap (with_count acc) other)
  | inr (v, e) ↦ ground (arith, h, e, unit_seconds_pos c v e)
]
match_rest_pos zero acc (c ∷ d ∷ rest) n u p h = cc
match_rest_pos (suc left) acc (c ∷ d ∷ rest) n u p h =
    ground (arith, match_rest_pos left (acc * 10 + (c - b'0')) (d ∷ rest) n u)

match_period_pos : (cs : List ℕ) (n u : ℕ) → match_period cs ≡ some (n, u) → (1 ≤ n) × (1 ≤ u)
unfolding match_period
match_period_pos [] n u h = cc
match_period_pos (c ∷ rest) n u h = ground (arith, match_rest_pos 8 (c - b'0') rest n u)

bounded_range :
    (m : Option (ℕ × ℕ)) (s : ℕ)
    → ((n u : ℕ) → m ≡ some (n, u) → (1 ≤ n) × (1 ≤ u))
    → bounded m ≡ some (some s)
    → (1 ≤ s) × (s ≤ max_rate_period_seconds)
bounded_range none s pos h = cc
bounded_range (some (n, u)) s pos h = let (p, q) = pos n u refl in grind arith

-- A period with a window has one of at least a second and at most 366 days.
pub parse_rate_period-bounds :
    (period : String) (s : ℕ)
    → parse_rate_period period ≡ some (some s)
    → (1 ≤ s) × (s ≤ max_rate_period_seconds)
unfolding parse_rate_period
parse_rate_period-bounds period s h =
    ground (arith, bounded_range (match_period (codes period)) s (match_period_pos (codes period)))

-- The number that digits spell behind what has been read.
abbrev pub digits_value : ℕ → List ℕ → ℕ
digits_value acc [] = acc
digits_value acc (d ∷ ds) = digits_value (acc * 10 + d) ds

abbrev pub digit_codes : List ℕ → List ℕ
digit_codes [] = []
digit_codes (d ∷ ds) = (d + b'0') ∷ digit_codes ds

is_digit_code : (d : ℕ) → d ≤ 9 → (leb b'0' (d + b'0') && leb (d + b'0') b'9') ≡ true
is_digit_code d h = ground arith

code_value : (d : ℕ) → d + b'0' - b'0' ≡ d
code_value d = omega arith

match_rest-digits :
    (left acc unit : ℕ) (ds : List ℕ)
    → All (λ d. d ≤ 9) ds
    → length ds ≤ left
    → match_rest left acc (digit_codes ds ++ unit ∷ [])
      ≡ with_count (digits_value acc ds) (unit_seconds unit)
unfolding match_rest
match_rest-digits left acc unit [] h le = refl
match_rest-digits zero acc unit (d ∷ ds) h le = absurd (omega arith)
match_rest-digits (suc left) acc unit (d ∷ []) h le = rw (is_digit_code d h.0, code_value d)
match_rest-digits (suc left) acc unit (d ∷ e ∷ ds) h le =
    rw (is_digit_code d h.0, code_value d)
      (match_rest-digits left (acc * 10 + d) unit (e ∷ ds) h.1 (omega arith))

start_value : (d : ℕ) → 0 * 10 + d ≡ d
start_value d = omega arith

abbrev head_code : List ℕ → ℕ
head_code [] = 0
head_code (c ∷ cs) = c

-- A text that starts with a digit is none of the named periods.
not_named :
    (period name : String) (c : ℕ) (cs : List ℕ)
    → codes period ≡ c ∷ cs
    → b'9' < head_code (codes name)
    → c ≤ b'9'
    → str_eq period name ≡ false
not_named period name c cs spelled late digit = elim (Bool-cases (str_eq period name)) [
  | inr other ↦ other
  | inl same ↦ absurd (
      omega (
        arith,
        ap head_code spelled,
        ap (λ p. head_code (codes p)) ((str_eq_iff period name).0 same),
      ))
]

-- A digit from 1 to 9, up to eight more digits and a unit letter are read as that many units,
-- unless they come to more than 366 days.
pub parse_rate_period-digits :
    (period : String) (d : ℕ) (ds : List ℕ) (unit u : ℕ)
    → codes period ≡ digit_codes (d ∷ ds) ++ unit ∷ []
    → 1 ≤ d
    → d ≤ 9
    → All (λ e. e ≤ 9) ds
    → length ds ≤ 8
    → unit_seconds unit ≡ some u
    → parse_rate_period period ≡ (
        if ltb max_rate_period_seconds (digits_value 0 (d ∷ ds) * u)
        then none
        else some (some (digits_value 0 (d ∷ ds) * u)))
unfolding parse_rate_period match_period
parse_rate_period-digits period d ds unit u spelled pos digit digits short is_unit =
    let rest = digit_codes ds ++ unit ∷ [] in
    let first_digit : (leb b'1' (d + b'0') && leb (d + b'0') b'9') ≡ true = ground arith in
    let named = λ (name : String) (late : b'9' < head_code (codes name)).
      not_named period name (d + b'0') rest spelled late (omega arith) in
    rw (
      named "session" (omega arith),
      named "hourly" (omega arith),
      named "daily" (omega arith),
      named "monthly" (omega arith),
      spelled,
      first_digit,
      code_value d,
      match_rest-digits 8 d unit ds digits short,
      is_unit,
      start_value d,
    )
