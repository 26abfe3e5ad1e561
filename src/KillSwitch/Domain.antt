-- ===== src/KillSwitch/Domain.antt =====
-- What a kill of a domain answers: one result for each agent that the registry listed, in its order, and
-- no agent that the result calls killed is anything else.
use field_platform.Prelude.{
  String, Bool, true, false, ◌&&◌, Option, none, some, List, [], ◌∷◌, ◌≡◌, refl, ap, if◌then◌else◌,
}
use field_platform.Registry.{AgentStatus, killed, AgentRecord, is_retired}
use field_platform.KillSwitch.{
  Env, App, http_502, Exit, returned, raised, raise, ask, case_option, ◌>>=◌,
}
use field_platform.KillSwitch.Ends.{
  OnReturn, Ends, Ends-pure, Ends-raise, Ends-if, Ends-kept, Ends-beside, Ends-bind, Ends-weaken,
  Ends-attempt_http, IfSome,
}
use field_platform.KillSwitch.Keeps.{Keeps, Leaves, Keeps-ledger_note}
use field_platform.KillSwitch.Kill.{
  KillReport, AgentOutcome, newly_killed, already_killed, skipped_retired, error, DomainAgentResult,
  is_killed, outcome_at, any_attempt, all_errors, kill_one, kill_each, kill_listed, kill_agents,
}
use field_platform.KillSwitch.Killed.{quiet, Done, kill_one-IsKill}
use field_platform.KillSwitch.Registered.{IsRegistry}
use field_platform.KillSwitch.Registered.Leaves.{At, view_leaves, Keeps-set_allowed}
use field_platform.KillSwitch.Walk.{Keeps-kill_each}

-- What a result says of its agent, in the view at the end.
abbrev pub Reached : AgentRecord → AgentOutcome → (String → Option AgentStatus) → Type 0
Reached r newly_killed v = v r.agent_id ≡ some killed
Reached r already_killed v = v r.agent_id ≡ some killed
Reached r skipped_retired v = is_retired r.status ≡ true
Reached r error v = Unit

-- The results are those of the agents, one each, in their order.
unfoldable pub Covers :
    List AgentRecord → List DomainAgentResult → (String → Option AgentStatus) → Type 0
Covers [] [] v = Unit
Covers (r ∷ rs) (a ∷ more) v = (a.agent_id ≡ r.agent_id) × Reached r a.outcome v × Covers rs more v
Covers _ _ v = ⊥

module _ {W : Type 0} (env : Env W) (view : W → String → Option AgentStatus)
    (registry : IsRegistry env view) where
  dead_leaves : (id : String) → Leaves env (At view (λ v. v id ≡ some killed)) (λ k st. st ≡ killed)
  dead_leaves id =
      view_leaves view (λ v. v id ≡ some killed) env (λ k st. st ≡ killed) registry
        (λ k st is. Keeps-set_allowed view (λ v. v ≡ some killed) env registry k id st (ap some is))

  -- Later kills do not undo what an earlier result says.
  Keeps-Reached :
      (operator : String) (origin : Bool) (r : AgentRecord) (o : AgentOutcome)
      (rs : List AgentRecord)
      → Keeps (At view (Reached r o)) (kill_each env operator origin rs)
  Keeps-Reached operator origin r newly_killed rs =
      Keeps-kill_each (dead_leaves r.agent_id) operator origin rs (λ id s q p h live. refl)
  Keeps-Reached operator origin r already_killed rs =
      Keeps-kill_each (dead_leaves r.agent_id) operator origin rs (λ id s q p h live. refl)
  Keeps-Reached operator origin r skipped_retired rs = record { after = λ s p. p }
  Keeps-Reached operator origin r error rs = record { after = λ s p. tt }

  one_return :
      (id : String) (before : App W) (out : Exit KillReport × App W)
      → OnReturn (Done env view registry id before) out
      → OnReturn (λ report. At view (λ v. v id ≡ some killed)) out
  one_return id before (returned report, s) done = done.is_dead
  one_return id before (raised e, s) done = tt

  one-Ends :
      (id operator : String) (origin : Bool)
      → Ends
          (λ s. Unit)
          (kill_one env id operator origin)
          (λ report. At view (λ v. v id ≡ some killed))
  one-Ends id operator origin = record {
    from = λ s p.
        one_return id s (kill_one env id operator origin s)
          (kill_one-IsKill env view registry id operator origin s).on_return;
  }

  either-Reached :
      (r : AgentRecord) (b : Bool) (v : String → Option AgentStatus)
      → v r.agent_id ≡ some killed
      → Reached r (if b then already_killed else newly_killed) v
  either-Reached r true v h = h
  either-Reached r false v h = h

  outcome_at-Reached :
      (r : AgentRecord) (report : Option KillReport) (s : App W)
      → IfSome (λ x. At view (λ v. v r.agent_id ≡ some killed)) report s
      → At view (Reached r (outcome_at r report)) s
  outcome_at-Reached r none s h = tt
  outcome_at-Reached r (some report) s h = either-Reached r (is_killed r.status) (view s.world) h

  kill_each-Ends :
      (operator : String) (origin : Bool) (rs : List AgentRecord)
      → Ends (λ s. Unit) (kill_each env operator origin rs) (λ results. At view (Covers rs results))
  unfolding kill_each Covers
  kill_each-Ends operator origin [] = Ends-pure _ [] (λ s p. tt)
  kill_each-Ends operator origin (r ∷ rs) =
      Ends-bind (λ o. At view (Reached r o)) _ _ _
        (Ends-if _ (is_retired r.status) _ _ (λ h. Ends-pure _ skipped_retired (λ s p. h))
          (λ live.
            Ends-bind (IfSome (λ x. At view (λ v. v r.agent_id ≡ some killed))) _ _ _
              (Ends-attempt_http _ _ (one-Ends r.agent_id operator origin))
              (λ report. Ends-pure _ _ (λ s p. outcome_at-Reached r report s p))))
        (λ o.
          Ends-bind (λ rest s. At view (Reached r o) s × At view (Covers rs rest) s) _ _ _
            (Ends-weaken _ _ (λ s p. (p, tt))
              (Ends-beside _ _ (Keeps-Reached operator origin r o rs)
                (kill_each-Ends operator origin rs)))
            (λ rest. Ends-pure _ _ (λ s p. (refl, p.0, p.1))))

  -- The results cover the agents, and not every attempt has failed.
  abbrev pub Answers : List AgentRecord → List DomainAgentResult → App W → Type 0
  Answers rs results s =
      Covers rs results (view s.world) × ((any_attempt results && all_errors results) ≡ false)

  kill_listed-Ends :
      (domain operator : String) (origin : Bool) (rs : List AgentRecord)
      → Ends (λ s. Unit) (kill_listed env domain operator origin rs) (Answers rs)
  unfolding kill_listed
  kill_listed-Ends domain operator origin [] = Ends-raise _ _
  kill_listed-Ends domain operator origin (r ∷ rs) =
      Ends-bind (λ results. At view (Covers (r ∷ rs) results)) _ _ _
        (kill_each-Ends operator origin (r ∷ rs))
        (λ results.
          Ends-bind (λ x. At view (Covers (r ∷ rs) results)) _ _ _
            (Ends-kept _ (Keeps-ledger_note (quiet env view registry (Covers (r ∷ rs) results)) _))
            (λ x.
              Ends-if _ (any_attempt results && all_errors results) _ _ (λ h. Ends-raise _ _)
                (λ h. Ends-pure _ results (λ s p. (p, h)))))

  abbrev pub OfListed : Option (List AgentRecord) → List DomainAgentResult → App W → Type 0
  OfListed none results s = ⊥
  OfListed (some rs) results s = Answers rs results s

  listed-Ends :
      (domain operator : String) (origin : Bool) (agents : Option (List AgentRecord)) (s : App W)
      → OnReturn
          (OfListed agents)
          (case_option agents (raise http_502) (λ rs. kill_listed env domain operator origin rs) s)
  unfolding raise
  listed-Ends domain operator origin none s = tt
  listed-Ends domain operator origin (some rs) s =
      (kill_listed-Ends domain operator origin rs).from s tt

  -- Over a registry as IsRegistry describes it: a kill of a domain that returns has one result for each agent that the registry listed for the domain,
  -- in that order: an agent reported as killed is killed in the registry when the route returns, whatever
  -- the kills after it met, one reported as skipped was listed as retired; and if any kill was attempted,
  -- not all have failed.
  pub kill_agents-Answers :
      (domain operator : String) (origin : Bool) (s : App W)
      → OnReturn
          (OfListed (env.list_agents (some domain) none s.world).0)
          (kill_agents env domain operator origin s)
  unfolding kill_agents ◌>>=◌ ask
  kill_agents-Answers domain operator origin s =
      listed-Ends domain operator origin (env.list_agents (some domain) none s.world).0
        (record s { world = (env.list_agents (some domain) none s.world).1 })
