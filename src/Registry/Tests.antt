-- ===== src/Registry/Tests.antt =====
-- A registry with a live and a decommissioned agent, and the theorems at it.
use field_platform.Prelude.{String, true, false, none, some, [], ◌∷◌, ◌≡◌, refl}
use field_platform.Prelude.Dict.{lookup}
use field_platform.Registry.{
  AgentStatus, active, killed, retired, AgentRecord, Table, err, retired_agent, status_only,
  update_with_previous, update_row, attest,
}
use field_platform.Registry.Kept.{Retained}
use field_platform.Registry.Steps.{begin, updated, attests, retired-Retained}
use field_platform.Registry.Api.{Request, enforce, delivered, App, update_agent}
use field_platform.Registry.Api.Allowed.{IsAnswered, update_agent-IsAnswered}

abbrev agent : String → AgentStatus → AgentRecord
agent id status = record {
  agent_id = id;
  name = "Agent";
  owner = "Dana";
  domain = "finance";
  manifest_ref = some "agent.yaml";
  status = status;
  created_at = 1;
  updated_at = 2;
  attested_at = none;
  attested_by = none;
}

abbrev table : Table
table = ("a", agent "a" active) ∷ ("r", agent "r" retired) ∷ []

reactivation : update_with_previous "r" (status_only active) 9 table ≡ (err retired_agent, table)
unfolding update_with_previous update_row lookup
reactivation = refl

found_retired : lookup "r" table ≡ some (agent "r" retired)
unfolding lookup
found_retired = refl

retired-Retained_example :
    Retained
      (agent "r" retired)
      (lookup "r" (attest "r" "Eve" 10 (update_with_previous "r" (status_only active) 9 table).1).1)
retired-Retained_example =
    retired-Retained "r" (agent "r" retired) table found_retired refl
      (attest "r" "Eve" 10 (update_with_previous "r" (status_only active) 9 table).1).1
      (attests "r" "Eve" 10 _ (updated "r" (status_only active) 9 table begin))

abbrev request : Request
request = record {
  mode = enforce;
  refuses = λ scope. false;
  refuses_record = λ ref. false;
  bypass = false;
  named = false;
  resolves = λ ref. true;
  delivery = delivered;
  authenticated = true;
  operator_delivery = delivered;
}

abbrev app : App
app = record { table = table; ledger = []; dropped_appends = 0 }

update_agent-IsAnswered_example :
    IsAnswered request "a"
      (status_only killed)
      9
      app
      (update_agent request "a" (status_only killed) 9 app).0
      (update_agent request "a" (status_only killed) 9 app).1
update_agent-IsAnswered_example = update_agent-IsAnswered request "a" (status_only killed) 9 app
