-- ===== src/KillSwitch/Client/Backed.antt =====
-- The registry's table, asked over a connection that loses requests and answers, is what the kill
-- switch relies on.
use field_platform.Prelude.{ℕ, String, Option, none, some, ◌≡◌, refl, inl, inr, sym, subst, ap, ◌∙◌}
use field_platform.Prelude.Dict.{lookup}
use field_platform.Registry.{
  AgentStatus, AgentRecord, Table, duplicate, not_found, retired_agent, retired_attestation,
  retired_frozen, Result, ok, err, get, status_only,
}
use field_platform.Registry.Steps.{IsUpdated, update-IsUpdated}
use field_platform.KillSwitch.{Env, not_reachable, Event}
use field_platform.KillSwitch.Client.{
  Fate, delivered, lost, answer_lost, Net, next_fate, fetched_of, written_of, get_by, get_at,
  set_at, set_by, Http, list_by, over_registry, status_of, statuses,
}
use field_platform.KillSwitch.Registered.{Shown, Put, Untouched, AnswersFor, IsRegistry}
use field_platform.KillSwitch.Registered.Leaves.{or_same}

found_status : (o : Option AgentRecord) → Shown (fetched_of o) (status_of o)
found_status none = refl
found_status (some r) = refl

get_by-Shown :
    (http : Http) (f : Fate) (id : String) (net : Net)
    → http.reaches id ≡ some id
    → Shown (get_by http f id net).0 (statuses net id)
unfolding get get_by statuses
get_by-Shown http delivered id net own =
    subst (λ o. Shown (get_at http id o net) (statuses net id)) (sym own)
      (found_status (lookup id net.table))
get_by-Shown http lost id net own = tt
get_by-Shown http answer_lost id net own = tt

get_by-kept :
    (http : Http) (f : Fate) (id : String) (net : Net)
    → Untouched statuses net (get_by http f id net).1
unfolding get_by statuses
get_by-kept http delivered id net other = refl
get_by-kept http lost id net other = refl
get_by-kept http answer_lost id net other = refl

list_by-kept :
    (f : Fate) (domain : Option String) (st : Option AgentStatus) (net : Net)
    → Untouched statuses net (list_by f domain st net).1
unfolding list_by statuses
list_by-kept delivered domain st net other = refl
list_by-kept lost domain st net other = refl
list_by-kept answer_lost domain st net other = refl

module _ (id : String) (st : AgentStatus) (stamp : ℕ) (t : Table) where
  -- What the answer and the table of an update say of the agent's status.
  answered :
      (out : Result (AgentRecord × AgentRecord)) (t' : Table)
      → IsUpdated id (status_only st) stamp t out t'
      → Put st (written_of out) (status_of (lookup id t)) (status_of (lookup id t'))
  answered (ok (before, after)) t' u = ap status_of u.1 ∙ ap (λ r. some r.status) u.2
  answered (err not_found) t' u = ap (λ d. status_of (lookup id d)) u
  answered (err duplicate) t' u = inl (ap (λ d. status_of (lookup id d)) u)
  answered (err retired_agent) t' u = inl (ap (λ d. status_of (lookup id d)) u)
  answered (err retired_attestation) t' u = inl (ap (λ d. status_of (lookup id d)) u)
  answered (err retired_frozen) t' u = inl (ap (λ d. status_of (lookup id d)) u)

  unanswered :
      (out : Result (AgentRecord × AgentRecord)) (t' : Table)
      → IsUpdated id (status_only st) stamp t out t'
      → Put st not_reachable (status_of (lookup id t)) (status_of (lookup id t'))
  unanswered (ok (before, after)) t' u = inr (ap status_of u.1 ∙ ap (λ r. some r.status) u.2)
  unanswered (err e) t' u = inl (ap (λ d. status_of (lookup id d)) u)

  elsewhere :
      (other : String) (out : Result (AgentRecord × AgentRecord)) (t' : Table)
      → ¬ (other ≡ id)
      → IsUpdated id (status_only st) stamp t out t'
      → status_of (lookup other t') ≡ status_of (lookup other t)
  elsewhere other (ok (before, after)) t' differs u =
      ap status_of (u.3 other (λ same. differs (sym same)))
  elsewhere other (err e) t' differs u = ap (λ d. status_of (lookup other d)) u

set_by-Put :
    (http : Http) (f : Fate) (id : String) (st : AgentStatus) (net : Net)
    → http.reaches id ≡ some id
    → Put st (set_by http f id st net).0 (statuses net id) (statuses (set_by http f id st net).1 id)
unfolding set_by statuses set_at
set_by-Put http delivered id st net own =
    subst
      (λ o.
        Put st (set_at http id o st net).0 (status_of (lookup id net.table))
          (status_of (lookup id (set_at http id o st net).1)))
      (sym own)
      (answered id st net.clock net.table _ _
        (update-IsUpdated id (status_only st) net.clock net.table))
set_by-Put http lost id st net own = inl refl
set_by-Put http answer_lost id st net own =
    subst
      (λ o.
        Put st not_reachable (status_of (lookup id net.table))
          (status_of (lookup id (set_at http id o st net).1)))
      (sym own)
      (unanswered id st net.clock net.table _ _
        (update-IsUpdated id (status_only st) net.clock net.table))

set_at-elsewhere :
    (http : Http) (id other : String) (st : AgentStatus) (net : Net)
    → http.reaches id ≡ some id
    → ¬ (other ≡ id)
    → status_of (lookup other (set_at http id (http.reaches id) st net).1)
      ≡ status_of (lookup other net.table)
unfolding set_at
set_at-elsewhere http id other st net own differs =
    subst
      (λ o.
        status_of (lookup other (set_at http id o st net).1) ≡ status_of (lookup other net.table))
      (sym own)
      (elsewhere id st net.clock net.table other _ _ differs
        (update-IsUpdated id (status_only st) net.clock net.table))

set_by-elsewhere :
    (http : Http) (f : Fate) (id other : String) (st : AgentStatus) (net : Net)
    → http.reaches id ≡ some id
    → ¬ (other ≡ id)
    → statuses (set_by http f id st net).1 other ≡ statuses net other
unfolding set_by statuses
set_by-elsewhere http delivered id other st net own differs =
    set_at-elsewhere http id other st net own differs
set_by-elsewhere http lost id other st net own differs = refl
set_by-elsewhere http answer_lost id other st net own differs =
    set_at-elsewhere http id other st net own differs

-- Where the path of an id names its own row at the registry, the client over the registry's table shows
-- the status of that row, and a write of a status leaves the row with that status or every row as it is,
-- whatever becomes of the requests and their answers: with it where the write is answered, as it is where
-- the answer is that there is no such agent. No other agent's status changes.
pub over_registry-AnswersFor :
    (http : Http) (rest : Env Net) (id : String)
    → http.reaches id ≡ some id
    → AnswersFor (over_registry http rest) statuses id
unfolding over_registry
over_registry-AnswersFor http rest id own = record {
  shown = λ net. get_by-Shown http (next_fate net.fates) id net own;
  get_kept = λ net. get_by-kept http (next_fate net.fates) id net;
  put = λ st net. set_by-Put http (next_fate net.fates) id st net own;
  others_kept = λ st net other.
      or_same other id
        (λ differs. set_by-elsewhere http (next_fate net.fates) id other st net own differs);
}

-- Where that holds of every id, and the ledger, the endpoints and the clock leave the table as it is, the
-- client is the registry that the kill switch relies on.
pub over_registry-IsRegistry :
    (http : Http) (rest : Env Net)
    → ((id : String) → http.reaches id ≡ some id)
    → ((e : Event) (net : Net) → Untouched statuses net (rest.append e net).1)
    → ((method url : String) (net : Net) → Untouched statuses net (rest.call method url net).1)
    → ((net : Net) → Untouched statuses net (rest.now net).1)
    → IsRegistry (over_registry http rest) statuses
unfolding over_registry
over_registry-IsRegistry http rest own appends calls times = record {
  shown = λ id net. get_by-Shown http (next_fate net.fates) id net (own id);
  get_kept = λ id net. get_by-kept http (next_fate net.fates) id net;
  put = λ id st net. set_by-Put http (next_fate net.fates) id st net (own id);
  others_kept = λ id other st net differs.
      set_by-elsewhere http (next_fate net.fates) id other st net (own id) differs;
  list_kept = λ domain st net. list_by-kept (next_fate net.fates) domain st net;
  append_kept = appends;
  call_kept = calls;
  now_kept = times;
}
