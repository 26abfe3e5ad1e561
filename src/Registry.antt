-- ===== src/Registry.antt =====
-- The agent registry, services/agent-registry/src/agent_registry: the records of models.py and the
-- table of store.py. One method is one transaction under the store's lock, so it is one step. Instants
-- are numbers; what pydantic validates of a request is assumed of it.
pub mod Kept
pub mod Steps
pub mod Api
mod Tests
use field_platform.Prelude.{
  ℕ, String, Bool, true, false, ◌&&◌, ◌||◌, not, Option, none, some, List, [], ◌∷◌, str_eq, is_some,
  leb_text, if◌then◌else◌,
}
use field_platform.Prelude.Dict.{Dict, lookup, insert}

pub data AgentStatus : Type 0 where
  active killed retired : AgentStatus

pub record AgentRecord : Type 0 where
  pub agent_id : String
  pub name : String
  pub owner : String
  pub domain : String
  pub manifest_ref : Option String
  pub status : AgentStatus
  pub created_at : ℕ
  pub updated_at : ℕ
  pub attested_at : Option ℕ
  pub attested_by : Option String

pub record AgentCreate : Type 0 where
  pub agent_id : String
  pub name : String
  pub owner : String
  pub domain : String
  pub manifest_ref : Option String

-- `None` leaves the column.
pub record AgentUpdate : Type 0 where
  pub name : Option String
  pub owner : Option String
  pub domain : Option String
  pub manifest_ref : Option String
  pub status : Option AgentStatus

-- DuplicateAgentError, AgentNotFoundError, RetiredAgentError, RetiredAttestationError and
-- RetiredRecordFrozenError.
pub data StoreError : Type 0 where
  duplicate not_found retired_agent retired_attestation retired_frozen : StoreError

pub data Result (A : Type 0) : Type 0 where
  ok : A → Result A
  err : StoreError → Result A

abbrev pub Table : Type 0
Table = Dict AgentRecord

abbrev pub is_retired : AgentStatus → Bool
is_retired retired = true
is_retired _ = false

abbrev pub same_status : AgentStatus → AgentStatus → Bool
same_status active active = true
same_status killed killed = true
same_status retired retired = true
same_status _ _ = false

abbrev pub or_else : {A : Type 0} → Option A → A → A
or_else none a = a
or_else (some b) a = b

abbrev pub or_kept : {A : Type 0} → Option A → Option A → Option A
or_kept none old = old
or_kept (some b) old = some b

-- `add`, with its two readings of the clock.
unfoldable pub add : AgentCreate → (created updated : ℕ) → Table → Result AgentRecord × Table
unfolding lookup insert
add req created updated table =
    let record_of : AgentRecord = record {
      agent_id = req.agent_id;
      name = req.name;
      owner = req.owner;
      domain = req.domain;
      manifest_ref = req.manifest_ref;
      status = active;
      created_at = created;
      updated_at = updated;
      attested_at = none;
      attested_by = none;
    } in
    elim (lookup req.agent_id table) [
      | some old ↦ (err duplicate, table)
      | none ↦ (ok record_of, insert req.agent_id record_of table)
    ]

-- `none` is AgentNotFoundError.
unfoldable pub get : String → Table → Option AgentRecord
unfolding lookup
get id table = lookup id table

abbrev pub is_status : Option AgentStatus → AgentRecord → Bool
is_status none r = true
is_status (some s) r = same_status r.status s

abbrev pub is_domain : Option String → AgentRecord → Bool
is_domain none r = true
is_domain (some d) r = str_eq r.domain d

unfoldable pub insert_agent : AgentRecord → List AgentRecord → List AgentRecord
insert_agent r [] = r ∷ []
insert_agent r (q ∷ qs) =
    if leb_text r.agent_id q.agent_id then r ∷ q ∷ qs else q ∷ insert_agent r qs

-- `list`, by the id.
unfoldable pub list : Option AgentStatus → Option String → Table → List AgentRecord
unfolding insert_agent
list s d [] = []
list s d ((id, r) ∷ table) =
    let rest = list s d table in
    if is_status s r && is_domain d r then insert_agent r rest else rest

-- A status other than `retired` is asked for.
abbrev pub leaves_retired : AgentUpdate → Bool
leaves_retired p = elim p.status [ none ↦ false | some s ↦ not (is_retired s) ]

-- A column that a retired agent may no longer change.
abbrev pub edits_frozen : AgentUpdate → Bool
edits_frozen p = is_some p.owner || is_some p.domain || is_some p.manifest_ref

abbrev pub edits_any : AgentUpdate → Bool
edits_any p = is_some p.name || edits_frozen p || is_some p.status

abbrev pub patched : AgentUpdate → ℕ → AgentRecord → AgentRecord
patched p stamp r = record r {
  name = or_else p.name r.name;
  owner = or_else p.owner r.owner;
  domain = or_else p.domain r.domain;
  manifest_ref = or_kept p.manifest_ref r.manifest_ref;
  status = or_else p.status r.status;
  updated_at = stamp;
}

-- What `update_with_previous` does at the row.
unfoldable pub update_row :
    String → AgentUpdate → ℕ → AgentRecord → Table → Result (AgentRecord × AgentRecord) × Table
unfolding insert
update_row id p stamp before table =
    if leaves_retired p && is_retired before.status
    then (err retired_agent, table)
    else (if is_retired before.status && edits_frozen p
        then (err retired_frozen, table)
        else (if edits_any p
            then (ok (before, patched p stamp before), insert id (patched p stamp before) table)
            else (ok (before, before), table)))

-- `update_with_previous`: the row before and after.
unfoldable pub update_with_previous :
    String → AgentUpdate → ℕ → Table → Result (AgentRecord × AgentRecord) × Table
unfolding lookup update_row
update_with_previous id p stamp table = elim (lookup id table) [
  | none ↦ (err not_found, table)
  | some before ↦ update_row id p stamp before table
]

abbrev pub status_only : AgentStatus → AgentUpdate
status_only s = record {
  name = none;
  owner = none;
  domain = none;
  manifest_ref = none;
  status = some s;
}

abbrev pub attested : String → ℕ → AgentRecord → AgentRecord
attested by stamp r = record r {
  attested_at = some stamp;
  attested_by = some by;
  updated_at = stamp;
}

unfoldable pub attest : String → String → ℕ → Table → Result AgentRecord × Table
unfolding lookup insert
attest id by stamp table = elim (lookup id table) [
  | none ↦ (err not_found, table)
  | some r ↦
      (if is_retired r.status
        then (err retired_attestation, table)
        else (ok (attested by stamp r), insert id (attested by stamp r) table))
]
