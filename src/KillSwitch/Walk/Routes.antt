-- ===== src/KillSwitch/Walk/Routes.antt =====
-- The remaining routes, and any sequence of requests, keep what their calls keep.
use field_platform.Prelude.{
  ℕ, zero, suc, String, Bool, false, Option, none, some, List, [], ◌∷◌, ◌≡◌, refl, not, ◌==◌,
}
use field_platform.Registry.{AgentStatus, active, killed, AgentRecord, is_retired}
use field_platform.KillSwitch.{
  Env, App, Fetched, found, unregistered, unreachable, Written, written, not_registered,
  not_reachable, Exit, returned, raised, M, pure, ◌>>◌, EndpointResult,
}
use field_platform.KillSwitch.Keeps.{
  Keeps, Leaves, Grants, Keeps-pure, Keeps-raise, Keeps-outcome_of, Keeps-of_exit, Keeps-if,
  Keeps-unless, Keeps-bind, Keeps-case, Keeps-ledger_note, Keeps-all_beats, Keeps-check_authorized,
}
use field_platform.KillSwitch.Walk.{
  Keeps-look, Keeps-signal_and_ledger, Keeps-kill_one, Keeps-kill_agents,
}
use field_platform.KillSwitch.Kill.{kill_one, kill_agents}
use field_platform.KillSwitch.Routes.{
  revive_answer, revive_found, revive_fetched, revive, beat_fetched, heartbeat_for, checkin,
  liveness,
}
use field_platform.KillSwitch.Drill.{
  status_answer, put_status, record_answer, fetch, confirm, drill_body, put_back, settle, restore,
  report_drill, drill_found, drill_fetched, drill, tries,
}

-- A request to the kill switch, behind its guard.
pub data Request : Type 0 where
  kills : (agent_id operator : String) → Bool → Request
  kills_domain : (domain operator : String) → Bool → Request
  revives : (agent_id operator : String) → Request
  asks_heartbeat checks_in : (agent_id : String) → Request
  asks_liveness : ℕ → Request
  drills : (agent_id operator : String) → Bool → Request

module _ {W : Type 0} (env : Env W) where
  abbrev pub done : {A : Type 0} → M W A → M W (Unit {0})
  done m = m >> pure tt

  unfoldable pub serve : Request → M W (Unit {0})
  serve (kills id operator origin) = done (kill_one env id operator origin)
  serve (kills_domain domain operator origin) = done (kill_agents env domain operator origin)
  serve (revives id operator) = done (revive env id operator)
  serve (asks_heartbeat id) = done (heartbeat_for env id)
  serve (checks_in id) = done (checkin env id)
  serve (asks_liveness stale_after) = done (liveness env stale_after)
  serve (drills id operator origin) = done (drill env id operator origin)

  -- Requests one after the other, each with its own answer.
  unfoldable pub serve_all : List Request → App W → App W
  serve_all [] s = s
  serve_all (q ∷ qs) s = serve_all qs (serve q s).1

module _ {W : Type 0} {env : Env W} {P : App W → Type 0} {May : String → AgentStatus → Type 0}
    (leaves : Leaves env P May) where
  Keeps-revive_answer : (a : Written) → Keeps P (revive_answer env a)
  Keeps-revive_answer written = Keeps-pure tt
  Keeps-revive_answer not_registered = Keeps-raise _
  Keeps-revive_answer not_reachable = Keeps-raise _

  Keeps-status_answer : (a : Written) → Keeps P (status_answer env a)
  Keeps-status_answer written = Keeps-pure tt
  Keeps-status_answer not_registered = Keeps-raise _
  Keeps-status_answer not_reachable = Keeps-raise _

  Keeps-record_answer : (a : Fetched) → Keeps P (record_answer env a)
  Keeps-record_answer (found r) = Keeps-pure r
  Keeps-record_answer unregistered = Keeps-raise _
  Keeps-record_answer unreachable = Keeps-raise _

  Keeps-beat_fetched : (id : String) (a : Fetched) → Keeps P (beat_fetched env id a)
  Keeps-beat_fetched id (found r) = Keeps-pure _
  Keeps-beat_fetched id unregistered = Keeps-pure _
  Keeps-beat_fetched id unreachable = Keeps-raise _

  Keeps-revive_found :
      (id operator : String) (r : AgentRecord)
      → (is_retired r.status ≡ false → May id active)
      → Keeps P (revive_found env id operator r)
  unfolding revive_found
  Keeps-revive_found id operator r may =
      Keeps-bind _ _ (Keeps-check_authorized leaves "revive" r) (λ _.
        Keeps-unless _ _ _ (Keeps-raise _) (λ live.
          Keeps-bind _ _ (leaves.sets id active (may live)) (λ answer.
            Keeps-bind _ _ (Keeps-revive_answer answer)
              (λ _. Keeps-bind _ _ (Keeps-ledger_note leaves _) (λ _. Keeps-pure _)))))

  Keeps-revive_fetched :
      (id operator : String) (a : Fetched)
      → ((r : AgentRecord) → a ≡ found r → is_retired r.status ≡ false → May id active)
      → Keeps P (revive_fetched env id operator a)
  Keeps-revive_fetched id operator (found r) may = Keeps-revive_found id operator r (may r refl)
  Keeps-revive_fetched id operator unregistered may = Keeps-raise _
  Keeps-revive_fetched id operator unreachable may = Keeps-raise _

  Keeps-revive :
      (id operator : String) → Grants env P May id active → Keeps P (revive env id operator)
  unfolding revive
  Keeps-revive id operator grants =
      Keeps-look id _ leaves
        (λ s p. Keeps-revive_fetched id operator _ (λ r shown live. grants s r p shown live))

  pub Keeps-heartbeat_for : (id : String) → Keeps P (heartbeat_for env id)
  unfolding heartbeat_for
  Keeps-heartbeat_for id = Keeps-bind _ _ (leaves.looks id) (λ answer. Keeps-beat_fetched id answer)

  Keeps-checkin : (id : String) → Keeps P (checkin env id)
  unfolding checkin
  Keeps-checkin id = Keeps-if (env.is_bad_id id) _ _ (Keeps-raise _) (
      Keeps-bind _ _ (Keeps-heartbeat_for id) (λ beat.
        Keeps-bind _ _ leaves.times
          (λ seen. Keeps-bind _ _ (leaves.beats id seen beat.status) (λ _. Keeps-pure _))))

  Keeps-liveness : (stale_after : ℕ) → Keeps P (liveness env stale_after)
  unfolding liveness
  Keeps-liveness stale_after = Keeps-if (stale_after == 0) _ _ (Keeps-raise _) (
      Keeps-bind _ _ (leaves.lists none (some active)) (λ agents.
        Keeps-case agents _ _ (Keeps-raise _) (λ rs.
          Keeps-bind _ _ leaves.times
            (λ now. Keeps-bind _ _ (Keeps-all_beats leaves) (λ beats. Keeps-pure _)))))

  pub Keeps-put_status :
      (id : String) (st : AgentStatus) → May id st → Keeps P (put_status env id st)
  unfolding put_status
  Keeps-put_status id st may = Keeps-bind _ _ (leaves.sets id st may) Keeps-status_answer

  pub Keeps-fetch : (id : String) → Keeps P (fetch env id)
  unfolding fetch
  Keeps-fetch id = Keeps-bind _ _ (leaves.looks id) Keeps-record_answer

  pub Keeps-confirm : (n : ℕ) (id : String) → Keeps P (confirm env n id)
  unfolding confirm
  Keeps-confirm zero id = Keeps-pure _
  Keeps-confirm (suc n) id =
      Keeps-bind _ _ (Keeps-fetch id) (λ r. Keeps-if _ _ _ (Keeps-pure _) (Keeps-confirm n id))

  Keeps-drill_body :
      (id : String) (r : AgentRecord) (origin : Bool)
      → May id killed
      → Keeps P (drill_body env id r origin)
  unfolding drill_body
  Keeps-drill_body id r origin may = Keeps-bind _ _ (Keeps-put_status id killed may) (λ _.
      Keeps-bind _ _ (Keeps-confirm (tries env) id) (λ confirmed.
        Keeps-if (not confirmed) _ _ (Keeps-raise _) (
          Keeps-bind _ _ (Keeps-heartbeat_for id) (λ beat.
            Keeps-if (not beat.is_killed) _ _ (Keeps-raise _)
              (Keeps-signal_and_ledger leaves id r origin)))))

  Keeps-put_back : (id : String) (st : AgentStatus) → May id st → Keeps P (put_back env id st)
  unfolding put_back
  Keeps-put_back id st may =
      Keeps-bind _ _ (Keeps-put_status id st may)
        (λ _. Keeps-bind _ _ (Keeps-fetch id) (λ r. Keeps-pure _))

  Keeps-settle :
      (id operator : String) (out : Exit AgentStatus) → Keeps P (settle env id operator out)
  Keeps-settle id operator (returned st) = Keeps-pure _
  Keeps-settle id operator (raised e) =
      Keeps-bind _ _ (Keeps-ledger_note leaves _) (λ _. Keeps-pure _)

  Keeps-restore :
      (id operator : String) (st : AgentStatus) → May id st → Keeps P (restore env id operator st)
  unfolding restore
  Keeps-restore id operator st may =
      Keeps-bind _ _ (Keeps-outcome_of _ (Keeps-put_back id st may))
        (λ out. Keeps-settle id operator out)

  pub Keeps-report_drill :
      (id operator : String) (st : AgentStatus) (shown : Option AgentStatus)
      (result : EndpointResult)
      → Keeps P (report_drill env id operator st shown result)
  unfolding report_drill
  Keeps-report_drill id operator st shown result =
      Keeps-bind _ _ (Keeps-ledger_note leaves _)
        (λ _. Keeps-if _ _ _ (Keeps-pure _) (Keeps-raise _))

  Keeps-drill_found :
      (id operator : String) (origin : Bool) (r : AgentRecord)
      → (is_retired r.status ≡ false → May id killed × May id r.status)
      → Keeps P (drill_found env id operator origin r)
  unfolding drill_found
  Keeps-drill_found id operator origin r may =
      Keeps-bind _ _ (Keeps-check_authorized leaves "drill" r) (λ _.
        Keeps-unless _ _ _ (Keeps-raise _) (λ live.
          Keeps-bind _ _ (Keeps-ledger_note leaves _) (λ _.
            Keeps-bind _ _ (Keeps-outcome_of _ (Keeps-drill_body id r origin (may live).0)) (λ out.
              Keeps-bind _ _ (Keeps-restore id operator r.status (may live).1) (λ st.
                Keeps-bind _ _ (Keeps-of_exit out)
                  (λ result. Keeps-report_drill id operator r.status st result))))))

  Keeps-drill_fetched :
      (id operator : String) (origin : Bool) (a : Fetched)
      → ((r : AgentRecord)
          → a ≡ found r
          → is_retired r.status ≡ false
          → May id killed × May id r.status)
      → Keeps P (drill_fetched env id operator origin a)
  Keeps-drill_fetched id operator origin (found r) may =
      Keeps-drill_found id operator origin r (may r refl)
  Keeps-drill_fetched id operator origin unregistered may = Keeps-raise _
  Keeps-drill_fetched id operator origin unreachable may = Keeps-raise _

  -- A drill writes `killed` and the status that its look has shown.
  pub Keeps-drill :
      (id operator : String) (origin : Bool)
      → ((s : App W) (r : AgentRecord)
          → P s
          → (env.get_agent id s.world).0 ≡ found r
          → is_retired r.status ≡ false
          → May id killed × May id r.status)
      → Keeps P (drill env id operator origin)
  unfolding drill
  Keeps-drill id operator origin grants =
      Keeps-look id _ leaves
        (λ s p. Keeps-drill_fetched id operator origin _ (λ r shown live. grants s r p shown live))

  Keeps-done : {A : Type 0} (m : M W A) → Keeps P m → Keeps P (done env m)
  Keeps-done m k = Keeps-bind m _ k (λ _. Keeps-pure tt)

  Keeps-serve :
      (q : Request)
      → ((id : String) (st : AgentStatus) → Grants env P May id st)
      → Keeps P (serve env q)
  unfolding serve
  Keeps-serve (kills id operator origin) grants =
      Keeps-done _ (Keeps-kill_one leaves id operator origin (grants id killed))
  Keeps-serve (kills_domain domain operator origin) grants =
      Keeps-done _ (Keeps-kill_agents leaves domain operator origin (λ id. grants id killed))
  Keeps-serve (revives id operator) grants =
      Keeps-done _ (Keeps-revive id operator (grants id active))
  Keeps-serve (asks_heartbeat id) grants = Keeps-done _ (Keeps-heartbeat_for id)
  Keeps-serve (checks_in id) grants = Keeps-done _ (Keeps-checkin id)
  Keeps-serve (asks_liveness stale_after) grants = Keeps-done _ (Keeps-liveness stale_after)
  Keeps-serve (drills id operator origin) grants = Keeps-done _ (
      Keeps-drill id operator origin (λ s r p shown live.
        (grants id killed s r p shown live, grants id r.status s r p shown live)))

  pub serve_all-Keeps :
      (qs : List Request)
      → ((id : String) (st : AgentStatus) → Grants env P May id st)
      → (s : App W) → P s
      → P (serve_all env qs s)
  unfolding serve_all
  serve_all-Keeps [] grants s p = p
  serve_all-Keeps (q ∷ qs) grants s p =
      serve_all-Keeps qs grants _ ((Keeps-serve q grants).after s p)
