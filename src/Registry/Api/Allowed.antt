-- ===== src/Registry/Api/Allowed.antt =====
-- What an update through the registry's API was allowed by, and what it leaves.
use field_platform.Prelude.{
  ℕ, String, Bool, true, false, ◌&&◌, not, none, some, ◌≡◌, refl, inl, inr, is_some, if◌then◌else◌,
  Bool-cases, Option-cases, arith, sym, ap, ◌∙◌, List, [], ◌∷◌, ◌++◌,
}
use field_platform.Prelude.Dict.{lookup}
use field_platform.Registry.{
  AgentRecord, AgentUpdate, Table, StoreError, duplicate, not_found, retired_agent,
  retired_attestation, retired_frozen, Result, ok, err, get, update_with_previous,
}
use field_platform.Registry.Steps.{IsUpdated, update-IsUpdated}
use field_platform.Registry.Api.{
  Delivery, no_ledger, delivered, dropped, Event, Request, App, Answer, ok_200, http_error,
  HttpError, unauthenticated, refused, operator_refused, not_found_404, conflict_409,
  unprocessable_422, operator_note, refusal_note, authorize_note, first_refused, is_armed,
  error_answer, ledger_note, needs, any_refused, is_needed, is_off, is_enforce, check_record,
  check_armed, check_update, change_note, update_answer, update_agent,
}

-- The operator layer, when it is armed and the update needs it, has let every scope, the operators of
-- the agent's manifest and a named bypass pass, and a new manifest resolves.
pub record IsAllowed (q : Request) (p : AgentUpdate) (current : AgentRecord) : Type 0 where
  pub scopes : any_refused q.refuses (needs p) ≡ false
  pub operators : q.refuses_record current.manifest_ref ≡ false
  pub manifest : (is_some p.manifest_ref && not (q.resolves p.manifest_ref)) ≡ false
  pub bypass : (is_some p.status && (is_enforce q.mode && (q.bypass && not q.named))) ≡ false

all_passed :
    (a b c d : Bool)
    → (if a
        then some operator_refused
        else (if b
            then some unprocessable_422
            else (if c then some conflict_409 else (if d then some operator_refused else none))))
      ≡ none
    → (a ≡ false) × (b ≡ false) × (d ≡ false)
all_passed a b c d h = ground arith

record-IsAllowed :
    (q : Request) (p : AgentUpdate) (current : AgentRecord)
    → any_refused q.refuses (needs p) ≡ false
    → check_record q p current ≡ none
    → IsAllowed q p current
unfolding check_record
record-IsAllowed q p current scopes passed =
    let (a, b, d) = all_passed _ _ _ _ passed in
    record { scopes = scopes; operators = a; manifest = b; bypass = d }

armed-IsAllowed :
    (q : Request) (id : String) (p : AgentUpdate) (table : Table) (current : AgentRecord)
    → lookup id table ≡ some current
    → check_armed q id p table ≡ none
    → IsAllowed q p current
unfolding check_armed get
armed-IsAllowed q id p table current found passed =
    elim (Bool-cases (any_refused q.refuses (needs p))) [
      | inl a ↦ cc (rw (a, check_armed) at passed)
      | inr a ↦ record-IsAllowed q p current a (rw (a, found, check_armed) at passed)
    ]

gate-IsAllowed :
    (q : Request) (id : String) (p : AgentUpdate) (table : Table) (current : AgentRecord)
    → lookup id table ≡ some current
    → check_update q id p table ≡ none
    → (is_needed (needs p) && not (is_off q.mode)) ≡ true
    → IsAllowed q p current
unfolding check_update
gate-IsAllowed q id p table current found passed armed =
    armed-IsAllowed q id p table current found (rw (armed, check_update) at passed)

-- The events of the operator layer about one update: of a caller that LOG-ONLY lets pass without a
-- credential, and of its own refusals under ENFORCE, where they reach the ledger.
abbrev pub is_delivered : Delivery → Bool
is_delivered delivered = true
is_delivered _ = false

abbrev pub event_if : Bool → Event → List Event
event_if true e = e ∷ []
event_if false e = []

abbrev pub caller_events : Request → String → AgentUpdate → List Event
caller_events q id p =
    event_if
      ((is_armed q p
          && not (first_refused q.refuses (needs p))
          && not (is_enforce q.mode)
          && not q.authenticated)
        && is_delivered q.operator_delivery)
      (unauthenticated id)

abbrev pub is_refusal : HttpError → Bool
is_refusal operator_refused = true
is_refusal _ = false

abbrev pub refusal_events : Request → String → HttpError → List Event
refusal_events q id e =
    event_if ((is_refusal e && is_enforce q.mode) && is_delivered q.operator_delivery) (refused id)

abbrev pub with_events : App → List Event → App
with_events app es = record app { ledger = app.ledger ++ es }

-- What an answer means of the state behind it.
abbrev pub IsAnswered : Request → String → AgentUpdate → ℕ → App → Answer → App → Type 0
IsAnswered q id p stamp app (ok_200 after) app' =
    (before : AgentRecord) × (lookup id app.table ≡ some before)
    × (update_with_previous id p stamp app.table ≡ (ok (before, after), app'.table))
    × (app'
        ≡ ledger_note q.delivery (change_note id p before after)
            (with_events (record app { table = app'.table }) (caller_events q id p)))
    × (is_armed q p ≡ true → IsAllowed q p before)
IsAnswered q id p stamp app (http_error e) app' =
    app' ≡ with_events app (caller_events q id p ++ refusal_events q id e)

append_nil : (es : List Event) → es ++ [] ≡ es
append_nil [] = refl
append_nil (e ∷ es) = ap (λ rest. e ∷ rest) (append_nil es)

append_assoc : (xs ys zs : List Event) → (xs ++ ys) ++ zs ≡ xs ++ (ys ++ zs)
append_assoc [] ys zs = refl
append_assoc (x ∷ xs) ys zs = ap (λ rest. x ∷ rest) (append_assoc xs ys zs)

noted_if :
    (b : Bool) (d : Delivery) (e : Event) (app : App)
    → (if b then operator_note d e app else app)
      ≡ with_events app (event_if (b && is_delivered d) e)
unfolding operator_note
noted_if true delivered e app = refl
noted_if true no_ledger e app = ap (λ l. record app { ledger = l }) (sym (append_nil app.ledger))
noted_if true dropped e app = ap (λ l. record app { ledger = l }) (sym (append_nil app.ledger))
noted_if false d e app = ap (λ l. record app { ledger = l }) (sym (append_nil app.ledger))

authorize_note-eq :
    (q : Request) (id : String) (p : AgentUpdate) (app : App)
    → authorize_note q id p app ≡ with_events app (caller_events q id p)
unfolding authorize_note
authorize_note-eq q id p app = noted_if _ q.operator_delivery (unauthenticated id) app

refusal_note-eq :
    (q : Request) (id : String) (e : HttpError) (app : App)
    → refusal_note q id e app ≡ with_events app (refusal_events q id e)
unfolding refusal_note
refusal_note-eq q id operator_refused app =
    noted_if (is_enforce q.mode) q.operator_delivery (refused id) app
refusal_note-eq q id not_found_404 app = noted_if false q.operator_delivery (refused id) app
refusal_note-eq q id conflict_409 app = noted_if false q.operator_delivery (refused id) app
refusal_note-eq q id unprocessable_422 app = noted_if false q.operator_delivery (refused id) app

refused-IsAnswered :
    (q : Request) (id : String) (p : AgentUpdate) (stamp : ℕ) (app : App) (e : HttpError)
    → IsAnswered q id p stamp app (http_error e) (refusal_note q id e (authorize_note q id p app))
refused-IsAnswered q id p stamp app e =
    refusal_note-eq q id e (authorize_note q id p app)
    ∙ ap (λ a. with_events a (refusal_events q id e)) (authorize_note-eq q id p app)
    ∙ ap (λ l. record app { ledger = l })
        (append_assoc app.ledger (caller_events q id p) (refusal_events q id e))

ledger_note-table : (d : Delivery) (e : Event) (app : App) → (ledger_note d e app).table ≡ app.table
unfolding ledger_note
ledger_note-table no_ledger e app = refl
ledger_note-table delivered e app = refl
ledger_note-table dropped e app = refl

-- An error of the store is no refusal of the operator layer.
error_events :
    (q : Request) (id : String) (e : StoreError) → refusal_events q id (error_answer e) ≡ []
error_events q id duplicate = refl
error_events q id not_found = refl
error_events q id retired_agent = refl
error_events q id retired_attestation = refl
error_events q id retired_frozen = refl

update_answer-IsAnswered :
    (q : Request) (id : String) (p : AgentUpdate) (stamp : ℕ) (app : App)
    → check_update q id p app.table ≡ none
    → (r : Result (AgentRecord × AgentRecord) × Table)
    → update_with_previous id p stamp app.table ≡ r
    → IsUpdated id p stamp app.table r.0 r.1
    → (let (answer, app') = update_answer q id p r (with_events app (caller_events q id p)) in
        IsAnswered q id p stamp app answer app')
update_answer-IsAnswered q id p stamp app passed (err e, table) at done =
    ap (λ t. with_events (record app { table = t }) (caller_events q id p)) done
    ∙ ap (λ es. with_events app es)
        (sym (
          ap (λ es. caller_events q id p ++ es) (error_events q id e)
          ∙ append_nil (caller_events q id p)))
update_answer-IsAnswered q id p stamp app passed (ok (before, after), table) at (found, a, b, c) =
    let noted = with_events (record app { table = table }) (caller_events q id p) in
    let kept = ledger_note-table q.delivery (change_note id p before after) noted in
    (
      before,
      found,
      at ∙ ap (λ (t : Table). (ok (before, after), t)) (sym kept),
      ap
          (λ (t : Table).
            ledger_note q.delivery (change_note id p before after)
              (with_events (record app { table = t }) (caller_events q id p)))
          (sym kept),
      gate-IsAllowed q id p app.table before found passed,
    )

pub update_agent-IsAnswered :
    (q : Request) (id : String) (p : AgentUpdate) (stamp : ℕ) (app : App)
    → IsAnswered q id p stamp app
        (update_agent q id p stamp app).0
        (update_agent q id p stamp app).1
unfolding update_agent
update_agent-IsAnswered q id p stamp app = elim (Option-cases (check_update q id p app.table)) [
  | inr (e, stopped) ↦ rw (stopped, update_agent) (refused-IsAnswered q id p stamp app e)
  | inl passed ↦
      rw (passed, update_agent, authorize_note-eq q id p app)
        (update_answer-IsAnswered q id p stamp app passed _ refl
          (update-IsUpdated id p stamp app.table))
]
