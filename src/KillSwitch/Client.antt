-- ===== src/KillSwitch/Client.antt =====
-- The registry client of field_core.clients over the registry's own table: the calls that the kill switch
-- makes, and what it relies on of them. A call that the registry's guard refuses counts as lost.
pub mod Backed
use field_platform.Prelude.{
  ℕ, String, Bool, true, false, ◌&&◌, not, Option, none, some, List, [], ◌∷◌, ◌≡◌, refl, ◌⊎◌, inl,
  inr, sym, subst, ◌∙◌, ap, arith, str_eq, str_eq_iff, Bool-cases, if◌then◌else◌,
}
use field_platform.Prelude.Dict.{lookup, insert, lookup-insert}
use field_platform.Registry.{
  AgentStatus, AgentRecord, Table, StoreError, not_found, retired_agent, Result, ok, err, get, list,
  update_row, update_with_previous, status_only, patched, is_retired,
}
use field_platform.KillSwitch.{
  Env, Fetched, found, unregistered, unreachable, Written, written, not_registered, not_reachable,
  Event,
}
use field_platform.KillSwitch.Registered.{Shown, Put, Untouched, IsRegistry}

-- What becomes of a request: it is answered, it does not arrive, or its answer does not.
pub data Fate : Type 0 where
  delivered lost answer_lost : Fate

-- The registry's table, the instant of its next write, and the fates of the requests to come.
pub record Net : Type 0 where
  pub table : Table
  pub clock : ℕ
  pub fates : List Fate

-- What becomes of the path `/agents/{agent_id}`, where the id stands as it is: the id of the row that it
-- names at the registry, if any, and the answer of any other route that it reaches.
pub record Http : Type 0 where
  pub reaches : String → Option String
  pub stray_get : String → Fetched
  pub stray_set : String → Written

abbrev pub next_fate : List Fate → Fate
next_fate [] = delivered
next_fate (f ∷ fs) = f

abbrev pub later : List Fate → List Fate
later [] = []
later (f ∷ fs) = fs

abbrev pub sent : Net → Net
sent net = record net { fates = later net.fates }

abbrev pub fetched_of : Option AgentRecord → Fetched
fetched_of none = unregistered
fetched_of (some r) = found r

-- The answer 404, or any other that is not 200.
abbrev pub written_of : Result (AgentRecord × AgentRecord) → Written
written_of (ok pair) = written
written_of (err not_found) = not_registered
written_of (err _) = not_reachable

abbrev pub get_at : Http → String → Option String → Net → Fetched
unfolding get
get_at http id none net = http.stray_get id
get_at http id (some row) net = fetched_of (get row net.table)

unfoldable pub get_by : Http → Fate → String → Net → Fetched × Net
unfolding get_at
get_by http delivered id net = (get_at http id (http.reaches id) net, sent net)
get_by http _ id net = (unreachable, sent net)

-- The registry's answer to a write that has arrived, and its table.
unfoldable pub set_at : Http → String → Option String → AgentStatus → Net → Written × Table
unfolding update_with_previous
set_at http id none st net = (http.stray_set id, net.table)
set_at http id (some row) st net =
    let (answer, table) = update_with_previous row (status_only st) net.clock net.table in
    (written_of answer, table)

unfoldable pub set_by : Http → Fate → String → AgentStatus → Net → Written × Net
unfolding set_at
set_by http delivered id st net =
    let (answer, table) = set_at http id (http.reaches id) st net in
    (answer, record (sent net) { table = table })
set_by http lost id st net = (not_reachable, sent net)
set_by http answer_lost id st net =
    let (answer, table) = set_at http id (http.reaches id) st net in
    (not_reachable, record (sent net) { table = table })

unfoldable pub list_by :
    Fate → Option String → Option AgentStatus → Net → Option (List AgentRecord) × Net
unfolding list
list_by delivered domain st net = (some (list st domain net.table), sent net)
list_by _ domain st net = (none, sent net)

-- `get_agent`, `set_status` and `list_agents` of the client; the other services as they are given.
unfoldable pub over_registry : Http → Env Net → Env Net
unfolding get_by set_by list_by
over_registry http rest = record rest {
  get_agent = λ id net. get_by http (next_fate net.fates) id net;
  set_status = λ id st net. set_by http (next_fate net.fates) id st net;
  list_agents = λ domain st net. list_by (next_fate net.fates) domain st net;
}

abbrev pub status_of : Option AgentRecord → Option AgentStatus
status_of none = none
status_of (some r) = some r.status

unfoldable pub statuses : Net → String → Option AgentStatus
unfolding lookup
statuses net id = status_of (lookup id net.table)
