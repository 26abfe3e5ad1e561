-- ===== src/KillSwitch/Kill.antt =====
-- `_kill_one`, and the routes POST /kill/{agent_id} and POST /kill/domain/{domain} of api.py, behind their
-- guards. `operator` is the name that the operator layer has bound.
use field_platform.Prelude.{
  String, Bool, true, false, ◌&&◌, ◌||◌, not, Option, none, some, List, [], ◌∷◌, if◌then◌else◌,
}
use field_platform.Registry.{AgentStatus, killed, AgentRecord, is_retired}
use field_platform.KillSwitch.{
  Env, EndpointResult, Fetched, found, unregistered, unreachable, Written, written, not_registered,
  not_reachable, kill_agent, kill_domain, http_404, http_409, http_502, agent_not_registered, M,
  pure, raise, ◌>>=◌, ◌>>◌, case_option, ask, attempt_http, ledger_note, check_authorized,
}
use field_platform.KillSwitch.Signal.{signal_and_ledger}

pub record KillReport : Type 0 where
  pub agent_id : String
  pub previous_status : AgentStatus
  pub endpoint_result : EndpointResult

pub data AgentOutcome : Type 0 where
  newly_killed already_killed skipped_retired error : AgentOutcome

pub record DomainAgentResult : Type 0 where
  pub agent_id : String
  pub outcome : AgentOutcome

abbrev pub is_killed : AgentStatus → Bool
is_killed killed = true
is_killed _ = false

abbrev pub is_skipped : AgentOutcome → Bool
is_skipped skipped_retired = true
is_skipped _ = false

abbrev pub is_error : AgentOutcome → Bool
is_error error = true
is_error _ = false

abbrev pub is_newly_killed : AgentOutcome → Bool
is_newly_killed newly_killed = true
is_newly_killed _ = false

-- The ids of the results with an outcome, in their order.
abbrev pub ids_of : (AgentOutcome → Bool) → List DomainAgentResult → List String
ids_of test [] = []
ids_of test (r ∷ rs) =
    let rest = ids_of test rs in if test r.outcome then r.agent_id ∷ rest else rest

abbrev pub any_attempt : List DomainAgentResult → Bool
any_attempt [] = false
any_attempt (r ∷ rs) = not (is_skipped r.outcome) || any_attempt rs

abbrev pub all_errors : List DomainAgentResult → Bool
all_errors [] = true
all_errors (r ∷ rs) = (is_skipped r.outcome || is_error r.outcome) && all_errors rs

abbrev pub outcome_at : AgentRecord → Option KillReport → AgentOutcome
outcome_at r none = error
outcome_at r (some report) = if is_killed r.status then already_killed else newly_killed

module _ {W : Type 0} (env : Env W) where
  -- The answer of the registry to a kill: AgentNotRegisteredError is not caught here.
  abbrev pub kill_answer : Written → M W (Unit {0})
  kill_answer written = pure tt
  kill_answer not_registered = raise agent_not_registered
  kill_answer not_reachable = raise http_502

  unfoldable pub flip : (agent_id : String) → AgentStatus → M W (Unit {0})
  flip id previous =
      if is_killed previous
      then pure tt
      else (do answer ← ask (env.set_status id killed); kill_answer answer)

  -- The part of `_kill_one` behind the look at the registry.
  unfoldable pub kill_found : (agent_id operator : String) → Bool → AgentRecord → M W KillReport
  kill_found id operator origin r = do
    check_authorized env "kill" r
    if is_retired r.status then raise http_409 else (do
      flip id r.status
      result ← signal_and_ledger env id r origin
      ledger_note env (kill_agent id operator r.status)
      pure (record { agent_id = id; previous_status = r.status; endpoint_result = result }))

  abbrev pub kill_fetched : (agent_id operator : String) → Bool → Fetched → M W KillReport
  kill_fetched id operator origin (found r) = kill_found id operator origin r
  kill_fetched id operator origin unregistered = raise http_404
  kill_fetched id operator origin unreachable = raise http_502

  -- `_kill_one`
  unfoldable pub kill_one : (agent_id operator : String) → Bool → M W KillReport
  kill_one id operator origin = do
    answer ← ask (env.get_agent id)
    kill_fetched id operator origin answer

  -- The loop of `kill_domain`, over the records as they were listed.
  unfoldable pub kill_each :
      (operator : String) → Bool → List AgentRecord → M W (List DomainAgentResult)
  kill_each operator origin [] = pure []
  kill_each operator origin (r ∷ rs) = do
    outcome ←
        (if is_retired r.status then pure skipped_retired else (do
          report ← attempt_http (kill_one r.agent_id operator origin)
          pure (outcome_at r report)))
    rest ← kill_each operator origin rs
    pure (record { agent_id = r.agent_id; outcome = outcome } ∷ rest)

  unfoldable pub kill_listed :
      (domain operator : String) → Bool → List AgentRecord → M W (List DomainAgentResult)
  kill_listed domain operator origin [] = raise http_404
  kill_listed domain operator origin (r ∷ rs) = do
    results ← kill_each operator origin (r ∷ rs)
    ledger_note env
        (kill_domain domain operator (ids_of is_newly_killed results) (ids_of is_skipped results))
    if any_attempt results && all_errors results then raise http_502 else pure results

  -- `kill_domain`: the results of its report.
  unfoldable pub kill_agents : (domain operator : String) → Bool → M W (List DomainAgentResult)
  kill_agents domain operator origin = do
    agents ← ask (env.list_agents (some domain) none)
    case_option agents (raise http_502) (λ rs. kill_listed domain operator origin rs)
