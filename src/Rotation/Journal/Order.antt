-- ===== src/Rotation/Journal/Order.antt =====
-- The order of states that a journal can show, and when a new run may start.
use field_platform.Prelude.{
  String, Bool, true, false, ◌&&◌, not, Option, none, some, List, [], ◌∷◌, ◌++◌, ◌≡◌, refl, ◌↔◌,
  ◌⊎◌, arith, if◌then◌else◌, subst,
}
use field_platform.Rotation.{
  State, planned, minted, installed, verified, old_revoked, done, rolled_back, halted, same_state,
  check_transition,
}
use field_platform.Rotation.Journal.{
  Fields, Entry, transition, note, halt_cleared, pending_from, pending_of, pending, scan, reset, ok,
  journal_error, illegal_transition, append_transition, append,
}

-- What may stand before a state: the new credential is installed before it is verified, and the old
-- one is recorded as revoked only behind a verification.
abbrev pub Follows : Option State → State → Type 0
Follows prev planned =
    (prev ≡ none) ⊎ ((prev ≡ some done) ⊎ ((prev ≡ some rolled_back) ⊎ (prev ≡ some halted)))
Follows prev minted = prev ≡ some planned
Follows prev installed = prev ≡ some minted
Follows prev verified = prev ≡ some installed
Follows prev old_revoked = prev ≡ some verified
Follows prev done = prev ≡ some old_revoked
Follows prev rolled_back = (prev ≡ some planned) ⊎ ((prev ≡ some minted) ⊎ (prev ≡ some installed))
Follows prev halted =
    (prev ≡ some planned)
    ⊎ ((prev ≡ some minted)
        ⊎ ((prev ≡ some installed) ⊎ ((prev ≡ some verified) ⊎ (prev ≡ some old_revoked))))

-- Every transition follows what stands before it, and none stands behind a halt that no human has
-- cleared. `prev` and `blocked` describe the entries before the list.
abbrev pub IsOrdered : Option State → Bool → List Entry → Type 0
IsOrdered prev blocked [] = Unit
IsOrdered prev blocked (transition s f ∷ es) =
    (blocked ≡ false) × Follows prev s × IsOrdered (some s) (same_state s halted) es
IsOrdered prev blocked (note r f ∷ es) = IsOrdered prev blocked es
IsOrdered prev blocked (halt_cleared r ∷ es) = IsOrdered prev false es

-- The check of `append` passes exactly the transitions that follow the state before them.
pub check-Follows :
    (prev : Option State) (s : State) → (check_transition (reset prev) s ≡ true) ↔ Follows prev s
unfolding check_transition reset same_state
check-Follows none planned = ground arith
check-Follows none _ = ground arith
check-Follows (some planned) s = ground arith
check-Follows (some _) s = ground arith

-- A transition at the end of an ordered list.
IsOrdered-last :
    (prev : Option State) (blocked : Bool) (es : List Entry) (s : State) (f : Fields)
    → IsOrdered prev blocked es
    → (scan prev blocked es).1 ≡ false
    → Follows (scan prev blocked es).0 s
    → IsOrdered prev blocked (es ++ transition s f ∷ [])
unfolding scan
IsOrdered-last prev blocked [] s f h o follows = (o, follows, tt)
IsOrdered-last prev blocked (transition t g ∷ es) s f h o follows =
    (h.0, h.1, IsOrdered-last (some t) (same_state t halted) es s f h.2 o follows)
IsOrdered-last prev blocked (note r g ∷ es) s f h o follows =
    IsOrdered-last prev blocked es s f h o follows
IsOrdered-last prev blocked (halt_cleared r ∷ es) s f h o follows =
    IsOrdered-last prev false es s f h o follows

IsOrdered-remark :
    (prev : Option State) (blocked : Bool) (es : List Entry) (r : String) (g : Fields)
    → IsOrdered prev blocked es
    → IsOrdered prev blocked (es ++ note r g ∷ [])
      × IsOrdered prev blocked (es ++ halt_cleared r ∷ [])
IsOrdered-remark prev blocked [] r g h = (tt, tt)
IsOrdered-remark prev blocked (transition t k ∷ es) r g h =
    let (a, b) = IsOrdered-remark (some t) (same_state t halted) es r g h.2 in
    ((h.0, h.1, a), (h.0, h.1, b))
IsOrdered-remark prev blocked (note q k ∷ es) r g h = IsOrdered-remark prev blocked es r g h
IsOrdered-remark prev blocked (halt_cleared q ∷ es) r g h = IsOrdered-remark prev false es r g h

append_transition-IsOrdered :
    (s : State) (f : Fields) (es es' : List Entry)
    → IsOrdered none false es
    → append_transition s f es ≡ ok es'
    → IsOrdered none false es'
unfolding append_transition
append_transition-IsOrdered s f es es' h added =
    let blocked : (scan none false es).1 ≡ false = ground arith in
    let passed : check_transition (reset (scan none false es).0) s ≡ true = ground arith in
    let last : es ++ transition s f ∷ [] ≡ es' = ground arith in
    subst (IsOrdered none false) last (
      IsOrdered-last none false es s f h blocked
        ((check-Follows (scan none false es).0 s).0 passed))

abbrev no_fields : Fields
no_fields = record {
  run_id = none;
  cred_old = none;
  cred_new = none;
  reason = none;
  leaves_new_in_place = none;
  snapshot = none;
  ttl_days = none;
  ref = none;
}

-- What `append` accepts keeps the journal in order, whatever the entry.
pub append-IsOrdered :
    (clean : Bool) (e : Entry) (es es' : List Entry)
    → IsOrdered none false es
    → append clean e es ≡ ok es'
    → IsOrdered none false es'
unfolding append
append-IsOrdered false e es es' h added = cc
append-IsOrdered true (transition s f) es es' h added =
    append_transition-IsOrdered s f es es' h added
append-IsOrdered true (note r g) es es' h added =
    let last : es ++ note r g ∷ [] ≡ es' = cc in
    subst (IsOrdered none false) last (IsOrdered-remark none false es r g h).0
append-IsOrdered true (halt_cleared r) es es' h added =
    let last : es ++ halt_cleared r ∷ [] ≡ es' = cc in
    subst (IsOrdered none false) last (IsOrdered-remark none false es r no_fields h).1

abbrev state_of : Option (State × Fields) → Option State
state_of none = none
state_of (some (s, f)) = some s

abbrev halt_of : Option (State × Fields) → Bool
halt_of none = false
halt_of (some (s, f)) = same_state s halted

and-true : (b : Bool) → (b && true) ≡ b
and-true b = ground arith

and-false : (b : Bool) → (b && false) ≡ false
and-false b = ground arith

-- The two loops over the entries agree on the last state and on whether a halt is open.
scan-pending_from :
    (last : Option (State × Fields)) (cleared : Bool) (es : List Entry)
    → scan (state_of last) (halt_of last && not cleared) es
      ≡ (let (l, c) = pending_from last cleared es in (state_of l, halt_of l && not c))
unfolding scan pending_from
scan-pending_from last cleared [] = refl
scan-pending_from last cleared (transition s f ∷ es) =
    rw (← and-true (same_state s halted)) (scan-pending_from (some (s, f)) false es)
scan-pending_from last cleared (note r f ∷ es) = scan-pending_from last cleared es
scan-pending_from last cleared (halt_cleared r ∷ es) =
    rw (← and-false (halt_of last)) (scan-pending_from last true es)

start_cases :
    (f : Fields) (es : List Entry) (last : Option (State × Fields)) (cleared : Bool)
    → ((if halt_of last && not cleared
          then journal_error
          else (if check_transition (reset (state_of last)) planned
              then ok (es ++ transition planned f ∷ [])
              else illegal_transition))
        ≡ ok (es ++ transition planned f ∷ []))
      ↔ (pending_of last cleared ≡ none)
unfolding check_transition reset same_state
start_cases f es none cleared = ground arith
start_cases f es (some (s, g)) cleared = ground arith

-- A clean `planned` is accepted exactly when no run is pending: an unfinished run and a halt that no
-- human has cleared block every later run.
pub append-planned :
    (f : Fields) (es : List Entry)
    → (append true (transition planned f) es ≡ ok (es ++ transition planned f ∷ []))
      ↔ (pending es ≡ none)
unfolding append append_transition pending
append-planned f es =
    rw (scan-pending_from none false es)
      (start_cases f es (pending_from none false es).0 (pending_from none false es).1)
