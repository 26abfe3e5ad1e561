-- ===== src/KillSwitch/Walk.antt =====
-- The routes of the kill switch keep what their calls keep, step by step.
pub mod Routes
use field_platform.Prelude.{
  ℕ, zero, suc, String, Bool, true, false, Option, none, some, List, [], ◌∷◌, ◌≡◌, refl, ◌||◌, not,
  elem_of, ◌==◌, if◌then◌else◌,
}
use field_platform.Registry.{AgentStatus, active, killed, AgentRecord, is_retired}
use field_platform.KillSwitch.{
  Env, App, Fetched, found, unregistered, unreachable, Written, written, not_registered,
  not_reachable, Resolution, resolved, no_ref, unresolved, malformed, Endpoint,
  host_not_allowlisted, unsupported_method, Exit, returned, raised, M, pure, raise, ◌>>=◌, ◌>>◌,
  case_option, ask, check_authorized, ledger_note,
}
use field_platform.KillSwitch.Keeps.{
  Keeps, Leaves, Grants, Keeps-pure, Keeps-raise, Keeps-attempt_http, Keeps-if, Keeps-unless,
  Keeps-bind, Keeps-case, Keeps-ledger_note, Keeps-all_beats, Keeps-check_authorized, kill_rules,
}
use field_platform.KillSwitch.Signal.{
  is_listed, skip, call_endpoint, signal_at, signal_resolved, signal_endpoint, signal_and_ledger,
}
use field_platform.KillSwitch.Kill.{
  kill_answer, flip, kill_found, kill_fetched, kill_one, kill_each, kill_listed, kill_agents,
}
use field_platform.KillSwitch.Routes.{
  revive_answer, revive_found, revive_fetched, revive, beat_fetched, heartbeat_for, checkin,
  liveness,
}
use field_platform.KillSwitch.Drill.{
  status_answer, put_status, record_answer, fetch, confirm, drill_body, put_back, settle, restore,
  report_drill, drill_found, drill_fetched, drill, tries,
}

module _ {W B : Type 0} {env : Env W} {P : App W → Type 0}
    {May : String → AgentStatus → Type 0} where
  -- What follows a look at the registry may use what the look has shown.
  pub Keeps-look :
      (id : String) (next : Fetched → M W B)
      → Leaves env P May
      → ((s : App W) → P s → Keeps P (next (env.get_agent id s.world).0))
      → Keeps P (ask (env.get_agent id) >>= next)
  unfolding ◌>>=◌ ask
  Keeps-look id next leaves k = record {
    after = λ s p. (k s p).after _ ((leaves.looks id).after s p);
  }

module _ {W : Type 0} {env : Env W} {P : App W → Type 0} {May : String → AgentStatus → Type 0}
    (leaves : Leaves env P May) where
  Keeps-kill_answer : (a : Written) → Keeps P (kill_answer env a)
  Keeps-kill_answer written = Keeps-pure tt
  Keeps-kill_answer not_registered = Keeps-raise _
  Keeps-kill_answer not_reachable = Keeps-raise _

  Keeps-call_endpoint :
      (e : Endpoint) (method : String)
      → is_listed e.hostname env.allowlist ≡ true
      → Keeps P (call_endpoint env e method)
  unfolding call_endpoint
  Keeps-call_endpoint e method listed =
      Keeps-bind _ _ (leaves.sends method e.url e.hostname listed) (λ answer. Keeps-pure _)

  not_false : (b : Bool) → not b ≡ false → b ≡ true
  not_false true h = refl
  not_false false h = cc

  Keeps-signal_listed :
      (e : Endpoint)
      → Keeps P (
          if not (is_listed e.hostname env.allowlist)
          then pure (skip host_not_allowlisted e.hostname)
          else case_option
              (env.parse_method e.method)
              (pure (skip unsupported_method e.hostname))
              (λ method. call_endpoint env e method))
  Keeps-signal_listed e =
      Keeps-unless (not (is_listed e.hostname env.allowlist)) _ _ (Keeps-pure _) (λ listed.
        Keeps-case (env.parse_method e.method) _ _ (Keeps-pure _)
          (λ method. Keeps-call_endpoint e method (not_false _ listed)))

  Keeps-signal_at : (id : String) (e : Endpoint) → Keeps P (signal_at env id e)
  unfolding signal_at
  Keeps-signal_at id e = search (kill_rules, Keeps-signal_listed) depth 20

  Keeps-signal_resolved : (id : String) (r : Resolution) → Keeps P (signal_resolved env id r)
  Keeps-signal_resolved id (resolved e) = Keeps-signal_at id e
  Keeps-signal_resolved id no_ref = Keeps-pure _
  Keeps-signal_resolved id unresolved = Keeps-pure _
  Keeps-signal_resolved id malformed = Keeps-raise _

  Keeps-signal_endpoint :
      (id : String) (r : AgentRecord) (origin : Bool) → Keeps P (signal_endpoint env id r origin)
  unfolding signal_endpoint
  Keeps-signal_endpoint id r origin = Keeps-if _ _ _ (Keeps-pure _) (Keeps-signal_resolved id _)

  pub Keeps-signal_and_ledger :
      (id : String) (r : AgentRecord) (origin : Bool) → Keeps P (signal_and_ledger env id r origin)
  unfolding signal_and_ledger
  Keeps-signal_and_ledger id r origin =
      Keeps-bind _ _ (Keeps-signal_endpoint id r origin)
        (λ result. Keeps-bind _ _ (Keeps-ledger_note leaves _) (λ _. Keeps-pure _))

  Keeps-flip :
      (id : String) (previous : AgentStatus) → May id killed → Keeps P (flip env id previous)
  unfolding flip
  Keeps-flip id previous may =
      Keeps-if _ _ _ (Keeps-pure _) (Keeps-bind _ _ (leaves.sets id killed may) Keeps-kill_answer)

  Keeps-kill_found :
      (id operator : String) (origin : Bool) (r : AgentRecord)
      → (is_retired r.status ≡ false → May id killed)
      → Keeps P (kill_found env id operator origin r)
  unfolding kill_found
  Keeps-kill_found id operator origin r may =
      Keeps-bind _ _ (Keeps-check_authorized leaves "kill" r) (λ _.
        Keeps-unless _ _ _ (Keeps-raise _) (λ live.
          Keeps-bind _ _ (Keeps-flip id r.status (may live)) (λ _.
            Keeps-bind _ _ (Keeps-signal_and_ledger id r origin)
              (λ result. Keeps-bind _ _ (Keeps-ledger_note leaves _) (λ _. Keeps-pure _)))))

  Keeps-kill_fetched :
      (id operator : String) (origin : Bool) (a : Fetched)
      → ((r : AgentRecord) → a ≡ found r → is_retired r.status ≡ false → May id killed)
      → Keeps P (kill_fetched env id operator origin a)
  Keeps-kill_fetched id operator origin (found r) may =
      Keeps-kill_found id operator origin r (may r refl)
  Keeps-kill_fetched id operator origin unregistered may = Keeps-raise _
  Keeps-kill_fetched id operator origin unreachable may = Keeps-raise _

  pub Keeps-kill_one :
      (id operator : String) (origin : Bool)
      → Grants env P May id killed
      → Keeps P (kill_one env id operator origin)
  unfolding kill_one
  Keeps-kill_one id operator origin grants =
      Keeps-look id _ leaves
        (λ s p. Keeps-kill_fetched id operator origin _ (λ r shown live. grants s r p shown live))

  pub Keeps-kill_each :
      (operator : String) (origin : Bool) (rs : List AgentRecord)
      → ((id : String) → Grants env P May id killed)
      → Keeps P (kill_each env operator origin rs)
  unfolding kill_each
  Keeps-kill_each operator origin [] grants = Keeps-pure _
  Keeps-kill_each operator origin (r ∷ rs) grants =
      Keeps-bind _ _
        (Keeps-if (is_retired r.status) _ _ (Keeps-pure _) (
          Keeps-bind _ _
            (Keeps-attempt_http _ (Keeps-kill_one r.agent_id operator origin (grants r.agent_id)))
            (λ report. Keeps-pure _)))
        (λ outcome.
          Keeps-bind _ _ (Keeps-kill_each operator origin rs grants) (λ rest. Keeps-pure _))

  Keeps-kill_listed :
      (domain operator : String) (origin : Bool) (rs : List AgentRecord)
      → ((id : String) → Grants env P May id killed)
      → Keeps P (kill_listed env domain operator origin rs)
  unfolding kill_listed
  Keeps-kill_listed domain operator origin [] grants = Keeps-raise _
  Keeps-kill_listed domain operator origin (r ∷ rs) grants =
      Keeps-bind _ _ (Keeps-kill_each operator origin (r ∷ rs) grants) (λ results.
        Keeps-bind _ _ (Keeps-ledger_note leaves _)
          (λ _. Keeps-if _ _ _ (Keeps-raise _) (Keeps-pure _)))

  pub Keeps-kill_agents :
      (domain operator : String) (origin : Bool)
      → ((id : String) → Grants env P May id killed)
      → Keeps P (kill_agents env domain operator origin)
  unfolding kill_agents
  Keeps-kill_agents domain operator origin grants =
      Keeps-bind _ _ (leaves.lists (some domain) none) (λ agents.
        Keeps-case _ _ _ (Keeps-raise _) (λ rs. Keeps-kill_listed domain operator origin rs grants))
