-- ===== src/Registry/Api.antt =====
-- The handlers of services/agent-registry/src/agent_registry/api.py that write. What the operator layer,
-- the manifest directory and the ledger say of one request is the record `Request`.
pub mod Allowed
use field_platform.Prelude.{
  ℕ, suc, String, Bool, true, false, ◌&&◌, ◌||◌, not, Option, none, some, List, [], ◌∷◌, ◌++◌, ◌≡◌,
  refl, ◌⊎◌, inl, inr, is_some, if◌then◌else◌, Bool-cases, Option-cases, arith,
}
use field_platform.Registry.{
  AgentStatus, active, killed, retired, AgentRecord, AgentCreate, AgentUpdate, Table, StoreError,
  duplicate, not_found, retired_agent, retired_attestation, retired_frozen, Result, ok, err,
  is_retired, same_status, add, get, update_with_previous, attest, leaves_retired,
}

pub data Mode : Type 0 where
  off log_only enforce : Mode

abbrev pub is_off : Mode → Bool
is_off off = true
is_off _ = false

abbrev pub is_enforce : Mode → Bool
is_enforce enforce = true
is_enforce _ = false

pub data Delivery : Type 0 where
  no_ledger delivered dropped : Delivery

-- `refuses` is OperatorRefused for a scope, `refuses_record` for the operators of a manifest;
-- `bypass` is an authenticated identity with that scope, `named` that it names its operator;
-- `operator_delivery` is what becomes of the operator layer's own events, which are appended by a thread
-- of their own: the model has them in the order in which the code starts them.
pub record Request : Type 0 where
  pub mode : Mode
  pub refuses : String → Bool
  pub refuses_record : Option String → Bool
  pub bypass : Bool
  pub named : Bool
  pub resolves : Option String → Bool
  pub delivery : Delivery
  pub authenticated : Bool
  pub operator_delivery : Delivery

pub data Event : Type 0 where
  registered : AgentRecord → Event
  status_changed : String → AgentStatus → AgentStatus → Event
  updated : String → AgentUpdate → Event
  attested : String → Option String → Option ℕ → Event
  unauthenticated refused : (agent_id : String) → Event

pub record App : Type 0 where
  pub table : Table
  pub ledger : List Event
  pub dropped_appends : ℕ

-- `operator_refused` has the status that the operator layer gives it.
pub data HttpError : Type 0 where
  operator_refused not_found_404 conflict_409 unprocessable_422 : HttpError

pub data Answer : Type 0 where
  ok_200 : AgentRecord → Answer
  http_error : HttpError → Answer

unfoldable pub ledger_note : Delivery → Event → App → App
ledger_note no_ledger e app = app
ledger_note delivered e app = record app { ledger = app.ledger ++ e ∷ [] }
ledger_note dropped e app = record app { dropped_appends = suc app.dropped_appends }

-- An event of the operator layer, whose drops are counted elsewhere.
unfoldable pub operator_note : Delivery → Event → App → App
operator_note delivered e app = record app { ledger = app.ledger ++ e ∷ [] }
operator_note _ e app = app

-- `http_refusal`: under ENFORCE the refusal is an event.
unfoldable pub refusal_note : Request → String → HttpError → App → App
unfolding operator_note
refusal_note q id operator_refused app =
    if is_enforce q.mode then operator_note q.operator_delivery (refused id) app else app
refusal_note q id _ app = app

abbrev pub needs_of_status : Option AgentStatus → List String
needs_of_status none = []
needs_of_status (some active) = "revive" ∷ []
needs_of_status (some killed) = "kill" ∷ []
needs_of_status (some retired) = "decommission" ∷ []

abbrev pub needs : AgentUpdate → List String
needs p =
    needs_of_status p.status
    ++ (if is_some p.manifest_ref || (is_some p.owner || is_some p.domain)
        then "registry_edit" ∷ []
        else [])

abbrev pub any_refused : (String → Bool) → List String → Bool
any_refused refuses [] = false
any_refused refuses (s ∷ ss) = refuses s || any_refused refuses ss

abbrev pub is_needed : List String → Bool
is_needed [] = false
is_needed (s ∷ ss) = true

-- The checks of `update_agent` at a record, with the operator layer armed.
unfoldable pub check_record : Request → AgentUpdate → AgentRecord → Option HttpError
check_record q p current =
    if q.refuses_record current.manifest_ref
    then some operator_refused
    else (if is_some p.manifest_ref && not (q.resolves p.manifest_ref)
        then some unprocessable_422
        else (if leaves_retired p && is_retired current.status
            then some conflict_409
            else (if is_some p.status && (is_enforce q.mode && (q.bypass && not q.named))
                then some operator_refused
                else none)))

unfoldable pub check_armed : Request → String → AgentUpdate → Table → Option HttpError
unfolding get check_record
check_armed q id p table =
    if any_refused q.refuses (needs p)
    then some operator_refused
    else elim (get id table) [ none ↦ some not_found_404 | some current ↦ check_record q p current ]

unfoldable pub check_off : String → Table → Option HttpError
unfolding get
check_off id table = elim (get id table) [
  | none ↦ some not_found_404
  | some current ↦ (if is_retired current.status then some conflict_409 else none)
]

-- What stands against an update before the store is asked.
unfoldable pub check_update : Request → String → AgentUpdate → Table → Option HttpError
unfolding check_armed check_off
check_update q id p table =
    if is_needed (needs p) && not (is_off q.mode)
    then check_armed q id p table
    else (if leaves_retired p then check_off id table else none)

abbrev pub is_armed : Request → AgentUpdate → Bool
is_armed q p = is_needed (needs p) && not (is_off q.mode)

abbrev pub first_refused : (String → Bool) → List String → Bool
first_refused refuses [] = false
first_refused refuses (s ∷ ss) = refuses s

-- `authorize_sync`: a caller that LOG-ONLY lets pass without a credential is an event.
unfoldable pub authorize_note : Request → String → AgentUpdate → App → App
unfolding operator_note
authorize_note q id p app =
    if is_armed q p
      && not (first_refused q.refuses (needs p))
      && not (is_enforce q.mode)
      && not q.authenticated
    then operator_note q.operator_delivery (unauthenticated id) app
    else app

abbrev pub error_answer : StoreError → HttpError
error_answer not_found = not_found_404
error_answer _ = conflict_409

abbrev pub change_note : String → AgentUpdate → AgentRecord → AgentRecord → Event
change_note id p before after =
    if same_status after.status before.status
    then updated id p
    else status_changed id before.status after.status

abbrev pub update_answer :
    Request → String → AgentUpdate → Result (AgentRecord × AgentRecord) × Table → App → Answer × App
update_answer q id p (err e, table) app =
    (http_error (error_answer e), record app { table = table })
update_answer q id p (ok (before, after), table) app = (
  ok_200 after,
  ledger_note q.delivery (change_note id p before after) (record app { table = table }),
)

-- `update_agent`
unfoldable pub update_agent : Request → String → AgentUpdate → ℕ → App → Answer × App
unfolding check_update update_with_previous authorize_note refusal_note
update_agent q id p stamp app = elim (check_update q id p app.table) [
  | some e ↦ (http_error e, refusal_note q id e (authorize_note q id p app))
  | none ↦
      update_answer q id p (update_with_previous id p stamp app.table) (authorize_note q id p app)
]

abbrev pub add_answer : Request → Result AgentRecord × Table → App → Answer × App
add_answer q (err e, table) app = (http_error conflict_409, record app { table = table })
add_answer q (ok r, table) app =
    (ok_200 r, ledger_note q.delivery (registered r) (record app { table = table }))

-- `add_agent`, behind its guard.
unfoldable pub add_agent : Request → AgentCreate → (created stamp : ℕ) → App → Answer × App
unfolding add
add_agent q req created stamp app =
    if is_some req.manifest_ref && not (q.resolves req.manifest_ref)
    then (http_error unprocessable_422, app)
    else add_answer q (add req created stamp app.table) app

abbrev pub attest_answer : Request → String → Result AgentRecord × Table → App → Answer × App
attest_answer q id (err e, table) app = (http_error (error_answer e), record app { table = table })
attest_answer q id (ok r, table) app = (
  ok_200 r,
  ledger_note q.delivery (attested id r.attested_by r.attested_at) (record app { table = table }),
)

unfoldable pub check_attest : Request → String → Table → Option HttpError
unfolding get
check_attest q id table =
    if is_enforce q.mode
    then elim (get id table) [
      | none ↦ some not_found_404
      | some current ↦
          (if q.refuses_record current.manifest_ref then some operator_refused else none)
    ]
    else none

-- `attest_agent`, behind its guard; `by` is the operator that it bound.
unfoldable pub attest_agent : Request → (id by : String) → ℕ → App → Answer × App
unfolding check_attest attest refusal_note
attest_agent q id by stamp app = elim (check_attest q id app.table) [
  | some e ↦ (http_error e, refusal_note q id e app)
  | none ↦ attest_answer q id (attest id by stamp app.table) app
]
