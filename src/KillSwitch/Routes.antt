-- ===== src/KillSwitch/Routes.antt =====
-- The routes POST /revive, GET and POST /heartbeat and GET /liveness of api.py, behind their guards.
use field_platform.Prelude.{
  ℕ, ◌+◌, String, Bool, true, false, not, Option, none, some, List, [], ◌∷◌, ◌==◌, leb,
  if◌then◌else◌,
}
use field_platform.Prelude.Dict.{Dict, lookup}
use field_platform.Registry.{AgentStatus, active, AgentRecord, is_retired}
use field_platform.KillSwitch.{
  Env, Fetched, found, unregistered, unreachable, Written, written, not_registered, not_reachable,
  kill_revive, Beat, http_404, http_409, http_422, http_502, registry_unreachable, M, pure, raise,
  ◌>>=◌, ◌>>◌, case_option, ask, ledger_note, check_authorized, record_beat, all_beats,
}

-- A status of none is `unregistered`.
pub record Heartbeat : Type 0 where
  pub agent_id : String
  pub status : Option AgentStatus
  pub is_killed : Bool
  pub last_seen : Option ℕ

pub record AgentLiveness : Type 0 where
  pub agent_id : String
  pub last_seen : Option ℕ

pub record LivenessReport : Type 0 where
  pub stale : List AgentLiveness
  pub live : List AgentLiveness

abbrev pub is_active : AgentStatus → Bool
is_active active = true
is_active _ = false

abbrev pub beat_of : String → AgentRecord → Heartbeat
beat_of id r = record {
  agent_id = id;
  status = some r.status;
  is_killed = not (is_active r.status);
  last_seen = none;
}

abbrev pub stop_beat : String → Heartbeat
stop_beat id = record { agent_id = id; status = none; is_killed = true; last_seen = none }

abbrev pub is_live : (now stale_after : ℕ) → Beat → Bool
is_live now stale_after b = leb now (b.last_seen + stale_after)

-- One agent of the report: no check-in, or one before the cutoff, is stale.
abbrev pub add_agent :
    (now stale_after : ℕ) → String → Option Beat → LivenessReport → LivenessReport
add_agent now stale_after id none r = record r {
  stale = record { agent_id = id; last_seen = none } ∷ r.stale;
}
add_agent now stale_after id (some b) r =
    if is_live now stale_after b
    then record r { live = record { agent_id = id; last_seen = some b.last_seen } ∷ r.live }
    else record r { stale = record { agent_id = id; last_seen = some b.last_seen } ∷ r.stale }

unfoldable pub report_on : (now stale_after : ℕ) → Dict Beat → List AgentRecord → LivenessReport
unfolding lookup
report_on now stale_after beats [] = record { stale = []; live = [] }
report_on now stale_after beats (r ∷ rs) =
    add_agent now stale_after r.agent_id (lookup r.agent_id beats)
      (report_on now stale_after beats rs)

module _ {W : Type 0} (env : Env W) where
  abbrev pub revive_answer : Written → M W (Unit {0})
  revive_answer written = pure tt
  revive_answer not_registered = raise http_404
  revive_answer not_reachable = raise http_502

  unfoldable pub revive_found : (agent_id operator : String) → AgentRecord → M W Heartbeat
  revive_found id operator r = do
    check_authorized env "revive" r
    if is_retired r.status then raise http_409 else (do
      answer ← ask (env.set_status id active)
      revive_answer answer
      ledger_note env (kill_revive id operator)
      pure (record { agent_id = id; status = some active; is_killed = false; last_seen = none }))

  abbrev pub revive_fetched : (agent_id operator : String) → Fetched → M W Heartbeat
  revive_fetched id operator (found r) = revive_found id operator r
  revive_fetched id operator unregistered = raise http_404
  revive_fetched id operator unreachable = raise http_502

  -- `revive`
  unfoldable pub revive : (agent_id operator : String) → M W Heartbeat
  revive id operator = do answer ← ask (env.get_agent id); revive_fetched id operator answer

  abbrev pub beat_fetched : String → Fetched → M W Heartbeat
  beat_fetched id (found r) = pure (beat_of id r)
  beat_fetched id unregistered = pure (stop_beat id)
  beat_fetched id unreachable = raise registry_unreachable

  -- `_heartbeat_for`, the read-only `heartbeat`
  unfoldable pub heartbeat_for : String → M W Heartbeat
  heartbeat_for id = do answer ← ask (env.get_agent id); beat_fetched id answer

  -- `checkin`
  unfoldable pub checkin : String → M W Heartbeat
  checkin id = if env.is_bad_id id then raise http_422 else (do
    beat ← heartbeat_for id
    seen ← ask env.now
    record_beat id seen beat.status
    pure (record beat { last_seen = some seen }))

  -- `liveness`; the time is in the clock's unit.
  unfoldable pub liveness : (stale_after : ℕ) → M W LivenessReport
  liveness stale_after = if stale_after == 0 then raise http_422 else (do
    agents ← ask (env.list_agents none (some active))
    case_option agents (raise http_502)
        (λ rs. do now ← ask env.now; beats ← all_beats; pure (report_on now stale_after beats rs)))
