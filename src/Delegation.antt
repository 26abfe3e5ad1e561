-- ===== src/Delegation.antt =====
-- Delegation tokens: the model of packages/field-core/src/field_core/delegation.py. The service
-- around it, services/delegation-authority/src/delegation_authority, is in the child modules.
-- An instant is a number of microseconds; `max_spend_usd` is only stored and compared, so a figure
-- is a number that stands for it.
pub mod Doa
pub mod Store
pub mod Mint
pub mod Revoke
mod Tests
use field_platform.Prelude.{
  ℕ, String, Bool, true, false, Option, none, some, List, leb, elem_of, if◌then◌else◌,
}

pub data TokenStatus : Type 0 where
  active expired revoked : TokenStatus

pub record DelegationToken : Type 0 where
  pub token_id : String
  pub agent_id : String
  pub granted_by : String
  pub scope : List String
  pub issued_at : ℕ
  pub expires_at : ℕ
  pub revoked : Bool
  pub revocation_id : Option String
  pub revoked_at : Option ℕ
  pub max_spend_usd : Option ℕ

unfoldable pub status : DelegationToken → ℕ → TokenStatus
status t now = if t.revoked then revoked else if leb t.expires_at now then expired else active

abbrev pub is_status_active : TokenStatus → Bool
is_status_active active = true
is_status_active _ = false

unfoldable pub is_active : DelegationToken → ℕ → Bool
unfolding status
is_active t now = is_status_active (status t now)

-- `uuid4` is the fresh revocation id.
unfoldable pub revoke : (uuid4 : String) (now : ℕ) → DelegationToken → DelegationToken
revoke uuid4 now t = record t { revoked = true; revocation_id = some uuid4; revoked_at = some now }

unfoldable pub covers : DelegationToken → String → Bool
covers t action = elem_of action t.scope
