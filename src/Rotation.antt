-- ===== src/Rotation.antt =====
-- The rotate-then-verify-then-revoke state machine of the deployment agent,
-- tools/deployment_agent/states.py; its journal, journal.py, is in the child modules.
pub mod Journal
pub mod Refuse
pub mod Engine
mod Tests
mod EngineTests
use field_platform.Prelude.{Bool, true, false, Option, none, some, List, [], ◌∷◌, ◌||◌}

pub data State : Type 0 where
  planned minted installed verified old_revoked done rolled_back halted : State

-- The values of `TRANSITIONS`.
unfoldable pub transitions : State → List State
transitions planned = minted ∷ rolled_back ∷ halted ∷ []
transitions minted = installed ∷ rolled_back ∷ halted ∷ []
transitions installed = verified ∷ rolled_back ∷ halted ∷ []
transitions verified = old_revoked ∷ halted ∷ []
transitions old_revoked = done ∷ halted ∷ []
transitions done = []
transitions rolled_back = []
transitions halted = []

-- `s is t`
unfoldable pub same_state : State → State → Bool
same_state planned planned = true
same_state minted minted = true
same_state installed installed = true
same_state verified verified = true
same_state old_revoked old_revoked = true
same_state done done = true
same_state rolled_back rolled_back = true
same_state halted halted = true
same_state _ _ = false

abbrev pub is_among : State → List State → Bool
unfolding same_state
is_among s [] = false
is_among s (t ∷ ts) = same_state s t || is_among s ts

-- `s in TERMINAL`: a state with no way on.
unfoldable pub is_terminal : State → Bool
unfolding transitions
is_terminal s = elim (transitions s) [ [] ↦ true | t ∷ ts ↦ false ]

-- False is IllegalTransition; no journal may only enter `planned`.
unfoldable pub check_transition : Option State → State → Bool
unfolding transitions is_among
check_transition none dst = same_state dst planned
check_transition (some src) dst = is_among dst (transitions src)
