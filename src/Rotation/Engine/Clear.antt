-- ===== src/Rotation/Engine/Clear.antt =====
-- `clear_halt` and `tidy` of rotation.py: what a human does about a halted journal, and the stage
-- files of a run that has ended. Both are a process of their own.
use field_platform.Prelude.{
  String, Bool, true, false, ◌||◌, not, Option, none, some, List, [], ◌∷◌, ◌++◌, if◌then◌else◌,
  str_eq, elem_of,
}
use field_platform.Rotation.{State, planned, same_state}
use field_platform.Rotation.Journal.{
  Fields, Entry, transition, note, halt_cleared, pending, is_halted, last_transition,
}
use field_platform.Rotation.Engine.{
  Env, M, pure, gets, ◌>>=◌, ◌>>◌, case_option, attempt, ask, cleanup, write,
}
use field_platform.Rotation.Engine.Handlers.{ref, describe, is_state}
use field_platform.Rotation.Engine.Rotate.{or_missing}

-- The errors of `clear_halt`; `no_run` is the `max` of no line.
pub data ClearError : Type 0 where
  not_acknowledged not_halted no_run unverified still_live : ClearError

abbrev pub is_planned : Entry → Bool
unfolding same_state
is_planned (transition s f) = same_state s planned
is_planned _ = false

-- `entries[start:]`: the lines from the last `planned` on.
unfoldable pub last_run : List Entry → Option (List Entry)
last_run [] = none
last_run (e ∷ es) = elim (last_run es) [
  | some run ↦ some run
  | none ↦ (if is_planned e then some (e ∷ es) else none)
]

abbrev pub orphan_note : String
orphan_note = "orphan minted by this run could not be revoked"

abbrev pub with_ref : Option String → Option (List String) → Option (List String)
with_ref (some id) (some ids) = some (id ∷ ids)
with_ref _ _ = none

-- The refs of the orphan notes; `none` is a note that has no `ref`.
unfoldable pub orphan_refs : List Entry → Option (List String)
orphan_refs [] = some []
orphan_refs (note r f ∷ es) =
    let rest = orphan_refs es in if str_eq r orphan_note then with_ref f.ref rest else rest
orphan_refs (e ∷ es) = orphan_refs es

abbrev pub is_true : Option Bool → Bool
is_true (some true) = true
is_true _ = false

abbrev pub given : Option String → List String
given none = []
given (some id) = if str_eq id "" then [] else id ∷ []

-- The new credential of the last row, unless that halt left it in place on purpose.
unfoldable pub left_new : Option (State × Fields) → List String
left_new none = []
left_new (some (s, f)) = if is_true f.leaves_new_in_place then [] else given f.cred_new

abbrev pub meets : List String → List String → Bool
meets [] live = false
meets (id ∷ ids) live = elem_of id live || meets ids live

module _ {W : Type 0} (env : Env W) where
  unfoldable pub live_refs : List String → M W (List String)
  live_refs [] = pure []
  live_refs (id ∷ ids) = do
    info ← describe env id
    secrets ← gets (λ s. s.secrets)
    rest ← live_refs ids
    pure (if is_state "active" info then ref env secrets id ∷ rest else rest)

  -- Why the provider's credentials stand against clearing.
  unfoldable pub check_tracked : List String → M W (Option ClearError)
  check_tracked [] = pure none
  check_tracked (id ∷ ids) = do
    live ← attempt (do all ← ask env.list_credentials; live_refs all)
    case_option live (pure (some unverified))
        (λ refs. pure (if meets (id ∷ ids) refs then some still_live else none))

  unfoldable pub clear_run : String → List Entry → M W (Option ClearError)
  clear_run approval es = case_option (last_run es) (pure (some no_run)) (λ run. do
    orphans ← or_missing (orphan_refs run)
    problem ← check_tracked (left_new (last_transition es) ++ orphans)
    case_option problem (do write env (halt_cleared approval); pure none) (λ e. pure (some e)))

  -- `clear_halt`: the error, or nothing once the journal has its line.
  unfoldable pub clear_halt : String → Bool → M W (Option ClearError)
  clear_halt approval acknowledged = if not acknowledged then pure (some not_acknowledged) else (do
    es ← gets (λ s. s.journal)
    if not (is_halted es) then pure (some not_halted) else clear_run approval es)

module _ {W : Type 0} where
  -- `tidy`, once the lock is held: whether it has cleaned.
  unfoldable pub tidy : M W Bool
  tidy = do
    pend ← gets (λ s. pending s.journal)
    case_option pend (do cleanup; pure true) (λ p. pure false)
