-- ===== src/KillSwitch/Tests.antt =====
-- A registry with three agents, an endpoint that answers, a ledger that does not, and the theorems there.
use field_platform.Prelude.{
  suc, String, false, none, some, List, [], ◌∷◌, ◌≡◌, refl, str_eq, if◌then◌else◌,
}
use field_platform.Prelude.Dict.{lookup, insert}
use field_platform.Registry.{
  AgentStatus, active, killed, retired, AgentRecord, Table, get, update_with_previous, update_row,
}
use field_platform.KillSwitch.{
  Env, Endpoint, resolved, App, found, unreachable, unregistered, written, not_registered,
  not_reachable, ◌>>=◌, ask, pure, raise, ledger_note, send, check_authorized,
}
use field_platform.KillSwitch.Beats.{IsKept, checkin-IsKept}
use field_platform.KillSwitch.Client.{
  Fate, delivered, answer_lost, Net, get_by, set_by, over_registry, set_at, Http, statuses,
}
use field_platform.KillSwitch.Client.Backed.{over_registry-AnswersFor, over_registry-IsRegistry}
use field_platform.KillSwitch.Domain.{OfListed, kill_agents-Answers}
use field_platform.KillSwitch.Drill.{drill}
use field_platform.KillSwitch.Ends.{OnReturn}
use field_platform.KillSwitch.Kill.{flip, kill_found, kill_one, kill_agents}
use field_platform.KillSwitch.Killed.{IsKill, kill_one-IsKill}
use field_platform.KillSwitch.Registered.{AnswersFor, IsRegistry}
use field_platform.KillSwitch.Restored.{IsDrill, drill-IsDrill}
use field_platform.KillSwitch.Returns.{IsReturned, kill_one-IsReturned}
use field_platform.KillSwitch.Routes.{checkin}
use field_platform.KillSwitch.Safe.{serve_all-retired, AllListed, serve_all-AllListed}
use field_platform.KillSwitch.Signal.{signal_endpoint, signal_at, signal_and_ledger, call_endpoint}
use field_platform.KillSwitch.Walk.Routes.{
  kills, kills_domain, revives, drills, checks_in, serve_all,
}

abbrev agent : String → AgentStatus → AgentRecord
agent id status = record {
  agent_id = id;
  name = "Agent";
  owner = "Dana";
  domain = "finance";
  manifest_ref = some "agent.yaml";
  status = status;
  created_at = 1;
  updated_at = 2;
  attested_at = none;
  attested_by = none;
}

abbrev table : Table
table = ("a", agent "a" active) ∷ ("b", agent "b" killed) ∷ ("r", agent "r" retired) ∷ []

abbrev halt_url : Endpoint
halt_url = record {
  url = "http://bot.local/halt";
  scheme = "http";
  hostname = some "bot.local";
  path = "/halt";
  method = "POST";
}

-- The ledger drops every event.
abbrev others : Env Net
others = record {
  get_agent = λ id net. (unreachable, net);
  set_status = λ id st net. (not_reachable, net);
  list_agents = λ domain st net. (none, net);
  append = λ e net. (false, net);
  call = λ method url net. (some (some 200), net);
  now = λ net. (net.clock, record net { clock = suc net.clock });
  resolve = λ ref. resolved halt_url;
  is_self_endpoint = λ path id. false;
  parse_method = λ method. some method;
  allowlist = "bot.local" ∷ [];
  refuses = λ action ref. false;
  is_bad_id = λ id. false;
}

-- A path names the row of its id.
abbrev http : Http
http = record {
  reaches = λ id. some id;
  stray_get = λ id. unregistered;
  stray_set = λ id. not_registered;
}

-- A query is cut off.
abbrev rewrites : Http
rewrites = record http { reaches = λ id. some (if str_eq id "b?x" then "b" else id) }

abbrev env : Env Net
env = over_registry http others

abbrev start : List Fate → App Net
start fates = record {
  world = record { table = table; clock = 7; fates = fates };
  heartbeats = [];
  ledger = [];
  ledger_note_failures = 0;
  requests = [];
}

backed : IsRegistry env statuses
unfolding statuses
backed =
    over_registry-IsRegistry http others (λ id. refl) (λ e net id. refl) (λ method url net id. refl)
      (λ net id. refl)

over_registry-AnswersFor_example : AnswersFor (over_registry rewrites others) statuses "b"
over_registry-AnswersFor_example = over_registry-AnswersFor rewrites others "b" refl

-- The path of `b?x` names the row of `b`: the kill that it asks for is a kill of `b`.
strays : statuses (set_by rewrites delivered "b?x" active (start []).world).1 "b" ≡ some active
unfolding set_by set_at statuses update_with_previous update_row lookup insert
strays = refl

-- A lost answer, at the write.
kill_one-IsKill_example :
    IsKill env statuses backed "a"
      (start (delivered ∷ answer_lost ∷ []))
      (kill_one env "a" "Dana" false (start (delivered ∷ answer_lost ∷ [])))
kill_one-IsKill_example =
    kill_one-IsKill env statuses backed "a" "Dana" false (start (delivered ∷ answer_lost ∷ []))

shown_active : (env.get_agent "a" (start []).world).0 ≡ found (agent "a" active)
unfolding over_registry get_by get lookup
shown_active = refl

drill-IsDrill_example :
    IsDrill env statuses backed "a" (start []) (drill env "a" "Dana" false (start []))
drill-IsDrill_example = drill-IsDrill env statuses backed "a" "Dana" false (start [])

kill_agents-Answers_example :
    OnReturn
      (OfListed env statuses backed (env.list_agents (some "finance") none (start []).world).0)
      (kill_agents env "finance" "Dana" false (start []))
kill_agents-Answers_example =
    kill_agents-Answers env statuses backed "finance" "Dana" false (start [])

checkin-IsKept_example :
    OnReturn
      (IsKept env statuses backed "b" (statuses (start []).world "b"))
      (checkin env "b" (start []))
checkin-IsKept_example = checkin-IsKept env statuses backed "b" (start [])

retired_here : statuses (start []).world "r" ≡ some retired
unfolding statuses lookup
retired_here = refl

serve_all-retired_example :
    statuses
      (serve_all env
        (revives "r" "Dana" ∷ kills_domain "finance" "Dana" false ∷ drills "r" "Dana" false ∷ [])
        (start [])).world
      "r"
    ≡ some retired
serve_all-retired_example =
    serve_all-retired env statuses backed "r"
      (revives "r" "Dana" ∷ kills_domain "finance" "Dana" false ∷ drills "r" "Dana" false ∷ [])
      (start []) retired_here

serve_all-AllListed_example :
    AllListed env (serve_all env (kills "a" "Dana" false ∷ checks_in "a" ∷ []) (start []))
serve_all-AllListed_example =
    serve_all-AllListed env (kills "a" "Dana" false ∷ checks_in "a" ∷ []) (start []) tt

-- The registry that writes every status.
abbrev writer : Env Net
writer = record others {
  get_agent = λ id net. (found (agent id active), net);
  set_status = λ id st net. (written, net);
}

kill_one-IsReturned_example : IsReturned (kill_one writer "a" "Dana" false (start [])).0
kill_one-IsReturned_example =
    kill_one-IsReturned writer "a" (λ w. refl) "Dana" false (start []) (agent "a" active) refl refl
      refl tt

-- The kill of `a` returns, has reached the endpoint, and counts two events that the ledger dropped.
killed_a : (kill_one env "a" "Dana" false (start [])).1.ledger_note_failures ≡ 2
unfolding kill_one kill_found flip check_authorized signal_and_ledger signal_endpoint signal_at
    call_endpoint send ledger_note ◌>>=◌ ask pure raise over_registry get_by set_by set_at get
    update_with_previous update_row lookup insert
killed_a = refl
