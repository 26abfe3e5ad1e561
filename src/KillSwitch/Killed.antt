-- ===== src/KillSwitch/Killed.antt =====
-- What `_kill_one` does to the registry: it returns only with the agent killed, and changes no other agent.
use field_platform.Prelude.{
  String, Bool, true, false, Option, some, ◌≡◌, refl, ◌⊎◌, inl, inr, sym, subst, ◌∙◌, ap,
}
use field_platform.Registry.{AgentStatus, active, killed, retired, AgentRecord, is_retired}
use field_platform.KillSwitch.{
  Env, App, Fetched, found, unregistered, unreachable, Written, written, not_registered,
  not_reachable, Exit, returned, raised, ask, raise, ◌>>=◌,
}
use field_platform.KillSwitch.Ends.{
  OnReturn, Ends, Ends-pure, Ends-raise, Ends-if, Ends-kept, Ends-bind, Ends-weaken,
}
use field_platform.KillSwitch.Keeps.{Leaves, Keeps-ledger_note, Keeps-check_authorized}
use field_platform.KillSwitch.Kill.{
  KillReport, is_killed, kill_answer, flip, kill_found, kill_fetched, kill_one,
}
use field_platform.KillSwitch.Registered.{Shown, Put, IsRegistry}
use field_platform.KillSwitch.Registered.Leaves.{
  or_same, At, view_leaves, Keeps-set_other, Keeps-set_allowed,
}
use field_platform.KillSwitch.Walk.{Keeps-signal_and_ledger, Keeps-kill_one}

module _ {W : Type 0} (env : Env W) (view : W → String → Option AgentStatus)
    (registry : IsRegistry env view) where
  -- Where no status is written, every statement about the view is kept.
  pub quiet : (S : (String → Option AgentStatus) → Type 0) → Leaves env (At view S) (λ id st. ⊥)
  quiet S = view_leaves view S env (λ id st. ⊥) registry (λ other st may. elim may [ ])

  abbrev pub Is : String → AgentStatus → App W → Type 0
  Is id st = At view (λ v. v id ≡ some st)

  -- A look at the registry shows the agent's status.
  pub look-Ends :
      (id : String) → Ends (λ s. Unit) (ask (env.get_agent id)) (λ a s. Shown a (view s.world id))
  unfolding ask
  look-Ends id = record {
    from = λ s p.
        subst (Shown (env.get_agent id s.world).0) (sym (registry.get_kept id s.world id))
          (registry.shown id s.world);
  }

  -- The status that a write leaves, by its answer.
  abbrev pub Wrote : String → AgentStatus → Written → App W → Type 0
  Wrote id st written s = Is id st s
  Wrote id st _ s = Unit

  wrote :
      (id : String) (st : AgentStatus) (a : Written) (before : Option AgentStatus) (s : App W)
      → Put st a before (view s.world id)
      → Wrote id st a s
  wrote id st written before s put = put
  wrote id st not_registered before s put = tt
  wrote id st not_reachable before s put = tt

  pub write-Ends :
      (id : String) (st : AgentStatus) → Ends (λ s. Unit) (ask (env.set_status id st)) (Wrote id st)
  unfolding ask
  write-Ends id st = record {
    from = λ s p.
        wrote id st (env.set_status id st s.world).0 _
          (record s { world = (env.set_status id st s.world).1 }) (registry.put id st s.world);
  }

  answer-Ends :
      (id : String) (a : Written) → Ends (Wrote id killed a) (kill_answer env a) (λ u. Is id killed)
  answer-Ends id written = Ends-pure _ tt (λ s p. p)
  answer-Ends id not_registered = Ends-raise _ _
  answer-Ends id not_reachable = Ends-raise _ _

  same_killed : (st : AgentStatus) → is_killed st ≡ true → st ≡ killed
  same_killed killed h = refl
  same_killed active h = cc
  same_killed retired h = cc

  flip-Ends :
      (id : String) (st : AgentStatus) → Ends (Is id st) (flip env id st) (λ u. Is id killed)
  unfolding flip
  flip-Ends id st =
      Ends-if _ (is_killed st) _ _ (λ h. Ends-pure _ tt (λ s p. p ∙ ap some (same_killed st h)))
        (λ h.
          Ends-bind (Wrote id killed) _ _ _ (Ends-weaken _ _ (λ s p. tt) (write-Ends id killed))
            (λ a. answer-Ends id a))

  -- The report tells the status that the look has shown.
  abbrev Reported : String → AgentRecord → KillReport → App W → Type 0
  Reported id r report s =
      Is id killed s × (report.previous_status ≡ r.status) × (is_retired r.status ≡ false)

  kill_found-Ends :
      (id operator : String) (origin : Bool) (r : AgentRecord)
      → Ends (Is id r.status) (kill_found env id operator origin r) (Reported id r)
  unfolding kill_found
  kill_found-Ends id operator origin r =
      Ends-bind (λ u. Is id r.status) _ _ _
        (Ends-kept _ (Keeps-check_authorized (quiet (λ v. v id ≡ some r.status)) "kill" r))
        (λ u.
          Ends-if _ (is_retired r.status) _ _ (λ h. Ends-raise _ _)
            (λ live.
              Ends-bind (λ v. Is id killed) _ _ _ (flip-Ends id r.status)
                (λ v.
                  Ends-bind (λ result. Is id killed) _ _ _
                    (Ends-kept _
                      (Keeps-signal_and_ledger (quiet (λ v. v id ≡ some killed)) id r origin))
                    (λ result.
                      Ends-bind (λ x. Is id killed) _ _ _
                        (Ends-kept _ (Keeps-ledger_note (quiet (λ v. v id ≡ some killed)) _))
                        (λ x. Ends-pure _ _ (λ s p. (p, refl, live)))))))

  -- What a kill that returned says, of the view before it.
  pub record Done (id : String) (before : App W) (report : KillReport) (after : App W)
      : Type 0 where
    pub is_dead : view after.world id ≡ some killed
    pub was : view before.world id ≡ some report.previous_status
    pub was_live : is_retired report.previous_status ≡ false

  Reported-Done :
      (id : String) (before : App W) (r : AgentRecord) (report : KillReport) (s : App W)
      → view before.world id ≡ some r.status
      → Reported id r report s
      → Done id before report s
  Reported-Done id before r report s shown p = record {
    is_dead = p.0;
    was = shown ∙ ap some (sym p.1);
    was_live = ap is_retired p.1 ∙ p.2;
  }

  return-Done :
      (id : String) (before : App W) (r : AgentRecord) (out : Exit KillReport × App W)
      → view before.world id ≡ some r.status
      → OnReturn (Reported id r) out
      → OnReturn (Done id before) out
  return-Done id before r (returned report, s) shown p = Reported-Done id before r report s shown p
  return-Done id before r (raised e, s) shown p = tt

  fetched-Done :
      (id operator : String) (origin : Bool) (a : Fetched) (before s : App W)
      → Shown a (view before.world id)
      → view s.world id ≡ view before.world id
      → OnReturn (Done id before) (kill_fetched env id operator origin a s)
  unfolding raise
  fetched-Done id operator origin (found r) before s shown kept =
      return-Done id before r _ shown ((kill_found-Ends id operator origin r).from s (kept ∙ shown))
  fetched-Done id operator origin unregistered before s shown kept = tt
  fetched-Done id operator origin unreachable before s shown kept = tt

  pub kill_one-Done :
      (id operator : String) (origin : Bool) (s : App W)
      → OnReturn (Done id s) (kill_one env id operator origin s)
  unfolding kill_one ◌>>=◌ ask
  kill_one-Done id operator origin s =
      fetched-Done id operator origin (env.get_agent id s.world).0 s _ (registry.shown id s.world)
        (registry.get_kept id s.world id)

  -- What a kill leaves of the registry, by how it has ended.
  pub record IsKill (id : String) (before : App W) (out : Exit KillReport × App W) : Type 0 where
    pub others :
        (other : String) → (other ≡ id) ⊎ (view out.1.world other ≡ view before.world other)
    pub here : (view out.1.world id ≡ view before.world id) ⊎ (view out.1.world id ≡ some killed)
    pub on_return : OnReturn (Done id before) out

  -- Over a registry as IsRegistry describes it: whatever `_kill_one` meets, every other agent has the status it had, and this one has its own or is
  -- killed; where it returns, this one is killed, and the report's previous status is the one it had, which
  -- was not `retired`.
  pub kill_one-IsKill :
      (id operator : String) (origin : Bool) (s : App W)
      → IsKill id s (kill_one env id operator origin s)
  kill_one-IsKill id operator origin s = record {
    others = λ other. or_same other id (λ differs.
        (Keeps-kill_one (leaves_other other) id operator origin
            (λ t r p h live. λ same. differs same)).after
          s refl);
    here =
        (Keeps-kill_one leaves_here id operator origin (λ t r p h live. refl)).after s (inl refl);
    on_return = kill_one-Done id operator origin s;
  }
    where
      leaves_other :
          (other : String)
          → Leaves env (At view (λ v. v other ≡ view s.world other)) (λ id st. ¬ (other ≡ id))
      leaves_other other =
          view_leaves view (λ v. v other ≡ view s.world other) env (λ id st. ¬ (other ≡ id))
            registry
            (λ k st apart.
              Keeps-set_other view (λ v. v ≡ view s.world other) env registry k other st apart)

      leaves_here :
          Leaves env
            (At view (λ v. (v id ≡ view s.world id) ⊎ (v id ≡ some killed)))
            (λ k st. st ≡ killed)
      leaves_here =
          view_leaves view (λ v. (v id ≡ view s.world id) ⊎ (v id ≡ some killed)) env
            (λ k st. st ≡ killed) registry
            (λ k st is.
              Keeps-set_allowed view (λ v. (v ≡ view s.world id) ⊎ (v ≡ some killed)) env registry k
                id st (inr (ap some is)))
