-- ===== src/Rotation/Journal.antt =====
-- The journal of one rotation target, journal.py: what it says of the last run, and what may be
-- appended. An entry is what the reader makes of a line; the text, its encoding, the sequence
-- number, the clock and the file are not modelled. `clean` is the verdict of the secret checks.
pub mod Order
use field_platform.Prelude.{
  ℕ, String, Bool, true, false, ◌&&◌, not, Option, none, some, List, [], ◌∷◌, ◌++◌, if◌then◌else◌,
}
use field_platform.Rotation.{State, planned, halted, same_state, is_terminal, check_transition}

pub record Fields : Type 0 where
  pub run_id : Option String
  pub cred_old : Option String
  pub cred_new : Option String
  pub reason : Option String
  pub leaves_new_in_place : Option Bool
  pub snapshot : Option (List String)
  pub ttl_days : Option ℕ
  pub ref : Option String

pub data Entry : Type 0 where
  transition : State → Fields → Entry
  note : String → Fields → Entry
  halt_cleared : String → Entry

-- The last transition entry.
unfoldable pub last_transition : List Entry → Option (State × Fields)
last_transition [] = none
last_transition (e ∷ es) = elim (last_transition es) [
  | some last ↦ some last
  | none ↦ elim e [ transition s f ↦ some (s, f) | note r f ↦ none | halt_cleared r ↦ none ]
]

-- The loop of `pending`: the last transition, and whether a halt was cleared behind it.
unfoldable pub pending_from :
    Option (State × Fields) → Bool → List Entry → Option (State × Fields) × Bool
pending_from last cleared [] = (last, cleared)
pending_from last cleared (transition s f ∷ es) = pending_from (some (s, f)) false es
pending_from last cleared (note r f ∷ es) = pending_from last cleared es
pending_from last cleared (halt_cleared r ∷ es) = pending_from last true es

abbrev pub pending_of : Option (State × Fields) → Bool → Option (State × Fields)
pending_of none cleared = none
pending_of (some (s, f)) cleared =
    if same_state s halted
    then (if cleared then none else some (s, f))
    else (if is_terminal s then none else some (s, f))

-- The last transition while its run is unfinished, or halted and not cleared.
unfoldable pub pending : List Entry → Option (State × Fields)
pending es = let (last, cleared) = pending_from none false es in pending_of last cleared

unfoldable pub is_halted : List Entry → Bool
is_halted es = elim (pending es) [ none ↦ false | some (s, f) ↦ same_state s halted ]

-- The loop of `append`: the state of the last transition, and whether a halt is open.
unfoldable pub scan : Option State → Bool → List Entry → Option State × Bool
unfolding same_state
scan prev halted_open [] = (prev, halted_open)
scan prev halted_open (transition s f ∷ es) = scan (some s) (same_state s halted) es
scan prev halted_open (note r f ∷ es) = scan prev halted_open es
scan prev halted_open (halt_cleared r ∷ es) = scan prev false es

-- A finished run counts as none: a new one may start.
unfoldable pub reset : Option State → Option State
unfolding is_terminal
reset none = none
reset (some s) = if is_terminal s then none else some s

pub data Appended : Type 0 where
  ok : List Entry → Appended
  secret_error journal_error illegal_transition : Appended

unfoldable pub append_transition : State → Fields → List Entry → Appended
append_transition s f es =
    let (prev, halted_open) = scan none false es in
    if halted_open
    then journal_error
    else (if check_transition (reset prev) s
        then ok (es ++ transition s f ∷ [])
        else illegal_transition)

unfoldable pub append : Bool → Entry → List Entry → Appended
append clean e es =
    if clean
    then elim e [
      | transition s f ↦ append_transition s f es
      | note r f ↦ ok (es ++ note r f ∷ [])
      | halt_cleared r ↦ ok (es ++ halt_cleared r ∷ [])
    ]
    else secret_error
