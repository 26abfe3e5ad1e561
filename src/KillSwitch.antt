-- ===== src/KillSwitch.antt =====
-- The kill switch, services/kill-switch/src/kill_switch: its state, what it asks of others, and the
-- exceptions of its routes (api.py, store.py). The registry, the ledger and the agents' endpoints are
-- functions on a world; `requests` records what was sent to an endpoint, for the statements. Times
-- that only measure are left out.
pub mod Keeps
pub mod Walk
pub mod Registered
pub mod Signal
pub mod Kill
pub mod Routes
pub mod Drill
pub mod Safe
pub mod Ends
pub mod Killed
pub mod Restored
pub mod Domain
pub mod Returns
pub mod Client
pub mod Beats
mod Tests
use field_platform.Prelude.{
  ℕ, suc, ◌+◌, String, Bool, true, false, Option, none, some, List, [], ◌∷◌, ◌++◌, if◌then◌else◌,
}
use field_platform.Prelude.Dict.{Dict, lookup, insert}
use field_platform.Registry.{AgentStatus, AgentRecord}

-- The registry client: the record, AgentNotRegisteredError, RegistryUnreachableError.
pub data Fetched : Type 0 where
  found : AgentRecord → Fetched
  unregistered unreachable : Fetched

pub data Written : Type 0 where
  written not_registered not_reachable : Written

pub data Outcome : Type 0 where
  called failed skipped : Outcome

pub data Why : Type 0 where
  no_reason self_endpoint no_manifest_ref manifest_unresolved no_endpoint non_http_endpoint
        allowlist_unset :
      Why
  host_not_allowlisted unsupported_method transport_error http_redirect http_error : Why

pub record EndpointResult : Type 0 where
  pub outcome : Outcome
  pub why : Why
  pub endpoint_host : Option String

-- A manifest's kill endpoint, as `urlsplit` takes it apart; `malformed` is a text that it refuses.
pub record Endpoint : Type 0 where
  pub url : String
  pub scheme : String
  pub hostname : Option String
  pub path : String
  pub method : String

pub data Resolution : Type 0 where
  resolved : Endpoint → Resolution
  no_ref unresolved malformed : Resolution

-- The ledger's events.
pub data Event : Type 0 where
  kill_agent : (agent_id operator : String) → AgentStatus → Event
  kill_domain : (domain operator : String) → (killed skipped_retired : List String) → Event
  kill_revive drill_start drill_complete restore_failed : (agent_id operator : String) → Event
  endpoint_signal : (agent_id : String) → EndpointResult → Event

-- `call` answers with the HTTP status, or raises; `resolve`, `is_self_endpoint` and `parse_method` read
-- texts of a manifest; `refuses` is what the operator layer says of a manifest's operators.
pub record Env (W : Type 0) : Type 0 where
  pub get_agent : String → W → Fetched × W
  pub set_status : String → AgentStatus → W → Written × W
  pub list_agents :
      (domain : Option String) → Option AgentStatus → W → Option (List AgentRecord) × W
  pub append : Event → W → Bool × W
  pub call : (method url : String) → W → Option (Option ℕ) × W
  pub now : W → ℕ × W
  pub resolve : Option String → Resolution
  pub is_self_endpoint : (path agent_id : String) → Bool
  pub parse_method : String → Option String
  pub allowlist : List String
  pub refuses : (action : String) → Option String → Bool
  pub is_bad_id : String → Bool

pub record Beat : Type 0 where
  pub last_seen : ℕ
  pub status : Option AgentStatus
  pub checkins : ℕ

-- A request to an endpoint: its host.
pub record App (W : Type 0) : Type 0 where
  pub world : W
  pub heartbeats : Dict Beat
  pub ledger : List Event
  pub ledger_note_failures : ℕ
  pub requests : List (Option String)

-- HTTPException by its status, OperatorRefused, and the exceptions that no route catches.
pub data Error : Type 0 where
  http_404 http_409 http_422 http_500 http_502 operator_refused : Error
  agent_not_registered registry_unreachable value_error : Error

pub data Exit (A : Type 0) : Type 0 where
  returned : A → Exit A
  raised : Error → Exit A

abbrev pub M : Type 0 → Type 0 → Type 0
M W A = App W → Exit A × App W

abbrev pub is_http : Error → Bool
is_http agent_not_registered = false
is_http registry_unreachable = false
is_http value_error = false
is_http _ = true

module _ {W A : Type 0} where
  unfoldable pub pure : A → M W A
  pure a s = (returned a, s)

  unfoldable pub raise : Error → M W A
  raise e s = (raised e, s)

  abbrev pub caught_http : Exit A × App W → Exit (Option A) × App W
  caught_http (returned a, s) = (returned (some a), s)
  caught_http (raised e, s) = if is_http e then (returned none, s) else (raised e, s)

  -- `try: … except HTTPException`
  unfoldable pub attempt_http : M W A → M W (Option A)
  attempt_http m s = caught_http (m s)

  -- What `finally` stands behind.
  unfoldable pub outcome_of : M W A → M W (Exit A)
  outcome_of m s = let (r, s') = m s in (returned r, s')

  unfoldable pub of_exit : Exit A → M W A
  of_exit r s = (r, s)

  -- A call of the registry, the ledger, an endpoint or the clock.
  unfoldable pub ask : (W → A × W) → M W A
  ask f s = let (a, w) = f s.world in (returned a, record s { world = w })

module _ {W A B : Type 0} where
  abbrev pub continue : Exit A → (A → M W B) → M W B
  continue (returned a) f s = f a s
  continue (raised e) f s = (raised e, s)

  infixl 10 ◌>>=◌ ◌>>◌
  unfoldable pub ◌>>=◌ : M W A → (A → M W B) → M W B
  ◌>>=◌ m f s = let (r, s') = m s in continue r f s'

  abbrev pub ◌>>◌ : M W A → M W B → M W B
  m >> n = m >>= λ _. n

  abbrev pub case_option : Option A → M W B → (A → M W B) → M W B
  case_option none m f = m
  case_option (some a) m f = f a

abbrev pub checkins_of : Option Beat → ℕ
checkins_of none = 0
checkins_of (some b) = b.checkins

module _ {W : Type 0} where
  abbrev pub noted : Event → Bool → M W (Unit {0})
  noted e true s = (returned tt, record s { ledger = s.ledger ++ e ∷ [] })
  noted e false s = (returned tt, record s { ledger_note_failures = suc s.ledger_note_failures })

  -- `_ledger_note`: the action has happened, so a failure is only counted.
  unfoldable pub ledger_note : Env W → Event → M W (Unit {0})
  unfolding ask ◌>>=◌
  ledger_note env e = do ok ← ask (env.append e); noted e ok

  -- One outbound halt signal.
  unfoldable pub send : Env W → (method url : String) → Option String → M W (Option (Option ℕ))
  unfolding ask
  send env method url host s = ask (env.call method url) (record s { requests = host ∷ s.requests })

  -- `HeartbeatStore.record`
  unfoldable pub record_beat : String → ℕ → Option AgentStatus → M W (Unit {0})
  unfolding lookup insert
  record_beat id seen status s = (
    returned tt,
    record s {
      heartbeats =
          insert id
            (record {
              last_seen = seen;
              status = status;
              checkins = checkins_of (lookup id s.heartbeats) + 1;
            })
            s.heartbeats;
    },
  )

  unfoldable pub all_beats : M W (Dict Beat)
  all_beats s = (returned s.heartbeats, s)

  -- The operators of the agent's manifest.
  unfoldable pub check_authorized : Env W → (action : String) → AgentRecord → M W (Unit {0})
  unfolding raise pure
  check_authorized env action r =
      if env.refuses action r.manifest_ref then raise operator_refused else pure tt
