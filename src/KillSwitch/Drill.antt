-- ===== src/KillSwitch/Drill.antt =====
-- The route POST /drill/{agent_id} of api.py, behind its guard: a real kill, and the restore.
use field_platform.Prelude.{
  ℕ, zero, suc, String, Bool, true, false, not, Option, none, some, if◌then◌else◌,
}
use field_platform.Registry.{AgentStatus, killed, AgentRecord, is_retired, same_status}
use field_platform.KillSwitch.{
  Env, EndpointResult, Fetched, found, unregistered, unreachable, Written, written, not_registered,
  not_reachable, drill_start, drill_complete, restore_failed, http_404, http_409, http_500,
  agent_not_registered, registry_unreachable, Exit, returned, raised, M, pure, raise, ◌>>=◌, ◌>>◌,
  ask, outcome_of, of_exit, ledger_note, check_authorized,
}
use field_platform.KillSwitch.Kill.{is_killed}
use field_platform.KillSwitch.Routes.{heartbeat_for}
use field_platform.KillSwitch.Signal.{signal_and_ledger}

pub record DrillReport : Type 0 where
  pub agent_id : String
  pub restored_status : AgentStatus
  pub endpoint_result : EndpointResult

module _ {W : Type 0} (env : Env W) where
  -- No exception of the client is caught in the drill itself.
  abbrev pub status_answer : Written → M W (Unit {0})
  status_answer written = pure tt
  status_answer not_registered = raise agent_not_registered
  status_answer not_reachable = raise registry_unreachable

  unfoldable pub put_status : String → AgentStatus → M W (Unit {0})
  put_status id status = do answer ← ask (env.set_status id status); status_answer answer

  abbrev pub record_answer : Fetched → M W AgentRecord
  record_answer (found r) = pure r
  record_answer unregistered = raise agent_not_registered
  record_answer unreachable = raise registry_unreachable

  unfoldable pub fetch : String → M W AgentRecord
  fetch id = do answer ← ask (env.get_agent id); record_answer answer

  -- `for _ in range(100)`: whether a look at the registry has shown the kill.
  unfoldable pub confirm : ℕ → String → M W Bool
  confirm zero id = pure false
  confirm (suc n) id = do r ← fetch id; if is_killed r.status then pure true else confirm n id

  abbrev pub tries : ℕ
  tries = 100

  -- The body of the `try`.
  unfoldable pub drill_body : (agent_id : String) → AgentRecord → Bool → M W EndpointResult
  drill_body id r origin = do
    put_status id killed
    confirmed ← confirm tries id
    if not confirmed then raise http_500 else (do
      beat ← heartbeat_for env id
      if not beat.is_killed then raise http_500 else signal_and_ledger env id r origin)

  unfoldable pub put_back : (agent_id : String) → AgentStatus → M W AgentStatus
  put_back id previous = do put_status id previous; r ← fetch id; pure r.status

  abbrev pub settle : (agent_id operator : String) → Exit AgentStatus → M W (Option AgentStatus)
  settle id operator (returned status) = pure (some status)
  settle id operator (raised e) = do ledger_note env (restore_failed id operator); pure none

  -- The `finally`: the status that the registry shows, or none where the restore has failed.
  unfoldable pub restore : (agent_id operator : String) → AgentStatus → M W (Option AgentStatus)
  restore id operator previous = do out ← outcome_of (put_back id previous); settle id operator out

  abbrev pub is_restored : AgentStatus → Option AgentStatus → Bool
  is_restored previous none = false
  is_restored previous (some status) = same_status status previous

  unfoldable pub report_drill :
      (agent_id operator : String)
      → AgentStatus
      → Option AgentStatus
      → EndpointResult
      → M W DrillReport
  report_drill id operator previous status result = do
    ledger_note env (drill_complete id operator)
    if is_restored previous status
        then pure (record { agent_id = id; restored_status = previous; endpoint_result = result })
        else raise http_500

  unfoldable pub drill_found : (agent_id operator : String) → Bool → AgentRecord → M W DrillReport
  drill_found id operator origin r = do
    check_authorized env "drill" r
    if is_retired r.status then raise http_409 else (do
      ledger_note env (drill_start id operator)
      out ← outcome_of (drill_body id r origin)
      status ← restore id operator r.status
      result ← of_exit out
      report_drill id operator r.status status result)

  abbrev pub drill_fetched : (agent_id operator : String) → Bool → Fetched → M W DrillReport
  drill_fetched id operator origin (found r) = drill_found id operator origin r
  drill_fetched id operator origin unregistered = raise http_404
  drill_fetched id operator origin unreachable = raise registry_unreachable

  -- `drill`
  unfoldable pub drill : (agent_id operator : String) → Bool → M W DrillReport
  drill id operator origin = do
    answer ← ask (env.get_agent id)
    drill_fetched id operator origin answer
