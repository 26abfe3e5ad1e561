-- ===== src/Governor/Resolve.antt =====
-- The POST /escalations/{id}/resolve handler of services/spend-governor/src/spend_governor/api.py and
-- `_ledger_note`. The operator's name is bound to the request before; what the ledger does with a
-- note is an argument.
use field_platform.Prelude.{
  ℕ, suc, String, Bool, true, false, Option, none, some, List, [], ◌∷◌, ◌++◌, ◌≡◌, ◌≢◌, refl,
  str_eq, str_eq_iff, ap, ◌∙◌, subst, sym, if◌then◌else◌,
}
use field_platform.Governor.Store.{GovernorStore, Escalation, resolve_escalation_once}
use field_platform.Governor.Store.Escalations.{resolve_escalation_again, resolve_escalation-first}

-- The `spend.escalation_resolved` event.
pub record Note : Type 0 where
  pub escalation_id : String
  pub resolved_by : String
  pub agent_id : String

-- No ledger is configured, the append succeeds, or it raises.
pub data LedgerAnswer : Type 0 where
  no_ledger appended dropped : LedgerAnswer

pub record App : Type 0 where
  pub store : GovernorStore
  pub ledger : List Note
  pub ledger_dropped : ℕ

unfoldable pub ledger_note : LedgerAnswer → Note → App → App
ledger_note no_ledger n app = app
ledger_note appended n app = record app { ledger = app.ledger ++ n ∷ [] }
ledger_note dropped n app = record app { ledger_dropped = suc app.ledger_dropped }

pub data Answer : Type 0 where
  found_200 conflict_409 : Escalation → Answer
  not_found_404 : Answer

abbrev pub is_by : String → Option String → Bool
is_by human none = false
is_by human (some other) = str_eq other human

unfoldable pub answer_with :
    LedgerAnswer → String → String → Option (Escalation × Bool) → App → Answer × App
unfolding ledger_note
answer_with reply id human none app = (not_found_404, app)
answer_with reply id human (some (e, true)) app = (
  found_200 e,
  ledger_note reply (record { escalation_id = id; resolved_by = human; agent_id = e.agent_id }) app,
)
answer_with reply id human (some (e, false)) app =
    (if is_by human e.resolved_by then found_200 e else conflict_409 e, app)

unfoldable pub resolve : LedgerAnswer → (id human : String) → App → Answer × App
resolve reply id human app =
    let (row, store) = resolve_escalation_once id human app.store in
    answer_with reply id human row (record app { store = store })

-- The answer for a row that was resolved before: 200 to its human of record, 409 to any other.
stale_answer :
    (l : LedgerAnswer) (id first later : String) (e : Escalation) (app : App)
    → e.resolved_by ≡ some first
    → answer_with l id later (some (e, false)) app
      ≡ (if str_eq first later then found_200 e else conflict_409 e, app)
unfolding answer_with
stale_answer l id first later e app h = rw h refl

later_answer :
    (l : LedgerAnswer) (id first later : String) (e : Escalation) (app : App)
    → e.resolved_by ≡ some first
    → resolve_escalation_once id later app.store ≡ (some (e, false), app.store)
    → resolve l id later app ≡ (if str_eq first later then found_200 e else conflict_409 e, app)
unfolding resolve
later_answer l id first later e app h again = rw again (stale_answer l id first later e app h)

noted_store : (l : LedgerAnswer) (n : Note) (app : App) → (ledger_note l n app).store ≡ app.store
unfolding ledger_note
noted_store no_ledger n app = refl
noted_store appended n app = refl
noted_store dropped n app = refl

chosen :
    (b : Bool) (e f : Escalation)
    → (if b then found_200 f else conflict_409 f) ≡ found_200 e
    → (b ≡ true) × (f ≡ e)
chosen true e f h = (refl, cc h)
chosen false e f h = cc h

is_by_human : (human : String) (o : Option String) → is_by human o ≡ true → o ≡ some human
is_by_human human none h = cc h
is_by_human human (some other) h = ap some ((str_eq_iff other human).0 h)

missing_answer :
    (l : LedgerAnswer) (id human : String) (e : Escalation) (app : App)
    → (answer_with l id human none app).0 ≢ found_200 e
unfolding answer_with
missing_answer l id human e app h = cc h

-- What a 200 says of the row, and that the answer leaves the table as the store has left it.
row_answer :
    (l : LedgerAnswer) (id human : String) (e f : Escalation) (now : Bool) (app : App)
    → (now ≡ true → f.resolved_by ≡ some human)
    → (answer_with l id human (some (f, now)) app).0 ≡ found_200 e
    → (f ≡ e)
      × (f.resolved_by ≡ some human)
      × ((answer_with l id human (some (f, now)) app).1.store ≡ app.store)
unfolding answer_with
row_answer l id human e f true app own h = (cc h, own refl, noted_store l _ app)
row_answer l id human e f false app own h =
    let (same_human, same) = chosen (is_by human f.resolved_by) e f h in
    (same, is_by_human human f.resolved_by same_human, refl)

-- The first human to resolve an escalation stays its human of record: once the handler has answered
-- 200 to somebody, every later request changes neither the table nor the ledger nor the count of
-- dropped notes, and answers 200 with that row to the same human and 409 with it to any other.
pub resolve-final :
    (l l' : LedgerAnswer) (id first later : String) (app : App) (e : Escalation)
    → (resolve l id first app).0 ≡ found_200 e
    → let app' = (resolve l id first app).1 in
      (e.resolved_by ≡ some first)
      × (resolve l' id later app'
          ≡ (if str_eq first later then found_200 e else conflict_409 e, app'))
unfolding resolve
resolve-final l l' id first later app e h =
    by_row (resolve_escalation_once id first app.store).0 refl h
  where
    s' : GovernorStore
    s' = (resolve_escalation_once id first app.store).1

    by_row :
        (row : Option (Escalation × Bool))
        → (resolve_escalation_once id first app.store).0 ≡ row
        → (answer_with l id first row (record app { store = s' })).0 ≡ found_200 e
        → let app' = (answer_with l id first row (record app { store = s' })).1 in
          (e.resolved_by ≡ some first)
          × (resolve l' id later app'
              ≡ (if str_eq first later then found_200 e else conflict_409 e, app'))
    by_row none found k = absurd (missing_answer l id first e _ k)
    by_row (some (f, now)) found k =
        let own : now ≡ true → f.resolved_by ≡ some first = λ q.
          (resolve_escalation-first id first later app.store f
            (found ∙ ap (λ b. some (f, b)) q)).1 in
        let (same, by, store) = row_answer l id first e f now (record app { store = s' }) own k in
        let again = resolve_escalation_again id first later app.store f now found in
        let app' = (answer_with l id first (some (f, now)) (record app { store = s' })).1 in
        let by_e : e.resolved_by ≡ some first = subst (λ g. g.resolved_by ≡ some first) same by in
        (
          by_e,
          later_answer l' id first later e app' by_e (
              subst (λ t. resolve_escalation_once id later t ≡ (some (e, false), t)) (sym store)
                (subst (λ g. resolve_escalation_once id later s' ≡ (some (g, false), s')) same
                  again)),
        )
