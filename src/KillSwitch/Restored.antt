-- ===== src/KillSwitch/Restored.antt =====
-- What a drill leaves of the registry: a report only where the agent has its status back.
use field_platform.Prelude.{
  String, Bool, true, false, Option, none, some, ◌≡◌, refl, ◌⊎◌, inl, inr, sym, subst, ◌∙◌, ap,
}
use field_platform.Registry.{
  AgentStatus, active, killed, retired, AgentRecord, is_retired, same_status,
}
use field_platform.KillSwitch.{
  Env, EndpointResult, App, Fetched, found, unregistered, unreachable, Exit, returned, raised,
  raise, ask, outcome_of, ◌>>=◌,
}
use field_platform.KillSwitch.Drill.{
  DrillReport, put_status, record_answer, fetch, drill_body, put_back, settle, restore, is_restored,
  report_drill, drill_found, drill_fetched, drill,
}
use field_platform.KillSwitch.Ends.{
  OnReturn, Ends, Ends-pure, Ends-raise, Ends-if, Ends-kept, Ends-any, Ends-bind, Ends-so,
  Ends-outcome_of, IfReturned,
}
use field_platform.KillSwitch.Keeps.{Leaves, Keeps-of_exit, Keeps-ledger_note}
use field_platform.KillSwitch.Killed.{quiet, Is, look-Ends}
use field_platform.KillSwitch.Registered.{Shown, IsRegistry}
use field_platform.KillSwitch.Registered.Leaves.{
  or_same, At, view_leaves, Keeps-set_other, Keeps-set_allowed, shown_here,
}
use field_platform.KillSwitch.Walk.Routes.{Keeps-drill}

same_status-eq : (a b : AgentStatus) → same_status a b ≡ true → a ≡ b
same_status-eq active active h = refl
same_status-eq killed killed h = refl
same_status-eq retired retired h = refl
same_status-eq active killed h = cc
same_status-eq active retired h = cc
same_status-eq killed active h = cc
same_status-eq killed retired h = cc
same_status-eq retired active h = cc
same_status-eq retired killed h = cc

module _ {W : Type 0} (env : Env W) (view : W → String → Option AgentStatus)
    (registry : IsRegistry env view) where
  abbrev Has : String → AgentStatus → App W → Type 0
  Has = Is env view registry

  record-Ends :
      (id : String) (a : Fetched)
      → Ends (λ s. Shown a (view s.world id)) (record_answer env a) (λ r. Has id r.status)
  record-Ends id (found r) = Ends-pure _ r (λ s p. p)
  record-Ends id unregistered = Ends-raise _ _
  record-Ends id unreachable = Ends-raise _ _

  fetch-Ends : (id : String) → Ends (λ s. Unit) (fetch env id) (λ r. Has id r.status)
  unfolding fetch
  fetch-Ends id =
      Ends-bind (λ a s. Shown a (view s.world id)) _ _ _ (look-Ends env view registry id)
        (λ a. record-Ends id a)

  put_back-Ends :
      (id : String) (st : AgentStatus)
      → Ends (λ s. Unit) (put_back env id st) (λ shown. Has id shown)
  unfolding put_back
  put_back-Ends id st =
      Ends-bind (λ u s. Unit) _ _ _ (Ends-any (put_status env id st))
        (λ u.
          Ends-bind (λ r. Has id r.status) _ _ _ (fetch-Ends id)
            (λ r. Ends-pure _ r.status (λ s p. p)))

  abbrev HasShown : String → Option AgentStatus → App W → Type 0
  HasShown id none s = Unit
  HasShown id (some st) s = Has id st s

  settle-Ends :
      (id operator : String) (out : Exit AgentStatus)
      → Ends (IfReturned (λ shown. Has id shown) out) (settle env id operator out) (HasShown id)
  settle-Ends id operator (returned st) = Ends-pure _ (some st) (λ s p. p)
  settle-Ends id operator (raised e) =
      Ends-bind (λ u s. Unit) _ _ _ (Ends-any _) (λ u. Ends-pure _ none (λ s p. tt))

  restore-Ends :
      (id operator : String) (st : AgentStatus)
      → Ends (λ s. Unit) (restore env id operator st) (HasShown id)
  unfolding restore
  restore-Ends id operator st =
      Ends-bind (IfReturned (λ shown. Has id shown)) _ _ _
        (Ends-outcome_of _ _ (put_back-Ends id st)) (λ out. settle-Ends id operator out)

  quiet_shown :
      (id : String) (shown : Option AgentStatus)
      → ((S : (String → Option AgentStatus) → Type 0) → Leaves env (At view S) (λ k st. ⊥))
      → Leaves env (HasShown id shown) (λ k st. ⊥)
  quiet_shown id none quiet_at = quiet_at (λ v. Unit)
  quiet_shown id (some st) quiet_at = quiet_at (λ v. v id ≡ some st)

  -- The report tells the status that the agent has.
  abbrev Restored : String → AgentStatus → DrillReport → App W → Type 0
  Restored id st report s = Has id st s × (report.restored_status ≡ st)

  is_restored-Has :
      (id : String) (st : AgentStatus) (shown : Option AgentStatus) (s : App W)
      → is_restored env st shown ≡ true
      → HasShown id shown s
      → Has id st s
  is_restored-Has id st none s h p = cc
  is_restored-Has id st (some now) s h p = p ∙ ap some (same_status-eq now st h)

  report_drill-Ends :
      (id operator : String) (st : AgentStatus) (shown : Option AgentStatus)
      (result : EndpointResult)
      → Ends (HasShown id shown) (report_drill env id operator st shown result) (Restored id st)
  unfolding report_drill
  report_drill-Ends id operator st shown result =
      Ends-bind (λ u. HasShown id shown) _ _ _
        (Ends-kept _ (Keeps-ledger_note (quiet_shown id shown (quiet env view registry)) _))
        (λ u.
          Ends-if _ (is_restored env st shown) _ _
            (λ h. Ends-pure _ _ (λ s p. (is_restored-Has id st shown s h p, refl)))
            (λ h. Ends-raise _ _))

  -- What a returned drill says, of the view before it.
  pub record Undone (id : String) (before : App W) (report : DrillReport) (after : App W)
      : Type 0 where
    pub back : view after.world id ≡ view before.world id
    pub was : view before.world id ≡ some report.restored_status
    pub was_live : is_retired report.restored_status ≡ false

  Restored-Undone :
      (id : String) (before : App W) (r : AgentRecord)
      → view before.world id ≡ some r.status
      → is_retired r.status ≡ false
      → (report : DrillReport) (s : App W) → Restored id r.status report s
      → Undone id before report s
  Restored-Undone id before r shown live report s p = record {
    back = p.0 ∙ sym shown;
    was = shown ∙ ap some (sym p.1);
    was_live = ap is_retired p.1 ∙ live;
  }

  drill_found-Ends :
      (id operator : String) (origin : Bool) (r : AgentRecord) (before : App W)
      → view before.world id ≡ some r.status
      → Ends (λ s. Unit) (drill_found env id operator origin r) (Undone id before)
  unfolding drill_found
  drill_found-Ends id operator origin r before shown =
      Ends-bind (λ u s. Unit) _ _ _ (Ends-any _)
        (λ u.
          Ends-if _ (is_retired r.status) _ _ (λ h. Ends-raise _ _)
            (λ live.
              Ends-bind (λ x s. Unit) _ _ _ (Ends-any _)
                (λ x.
                  Ends-bind (λ out s. Unit) _ _ _
                    (Ends-any (outcome_of (drill_body env id r origin)))
                    (λ out. Ends-bind (HasShown id) _ _ _ (restore-Ends id operator r.status) (λ st.
                      Ends-bind (λ result. HasShown id st) _ _ _ (Ends-kept _ (Keeps-of_exit out))
                        (λ result.
                          Ends-so _ _ _ (Restored-Undone id before r shown live)
                            (report_drill-Ends id operator r.status st result)))))))

  drill_fetched-Undone :
      (id operator : String) (origin : Bool) (a : Fetched) (before s : App W)
      → Shown a (view before.world id)
      → OnReturn (Undone id before) (drill_fetched env id operator origin a s)
  unfolding raise
  drill_fetched-Undone id operator origin (found r) before s shown =
      (drill_found-Ends id operator origin r before shown).from s tt
  drill_fetched-Undone id operator origin unregistered before s shown = tt
  drill_fetched-Undone id operator origin unreachable before s shown = tt

  drill-Undone :
      (id operator : String) (origin : Bool) (s : App W)
      → OnReturn (Undone id s) (drill env id operator origin s)
  unfolding drill ◌>>=◌ ask
  drill-Undone id operator origin s =
      drill_fetched-Undone id operator origin (env.get_agent id s.world).0 s _
        (registry.shown id s.world)

  pub record IsDrill (id : String) (before : App W) (out : Exit DrillReport × App W) : Type 0 where
    pub others :
        (other : String) → (other ≡ id) ⊎ (view out.1.world other ≡ view before.world other)
    pub here : (view out.1.world id ≡ view before.world id) ⊎ (view out.1.world id ≡ some killed)
    pub on_return : OnReturn (Undone id before) out

  -- Over a registry as IsRegistry describes it: however a drill ends, every other agent has the status it had, and this one has its own or is killed;
  -- where it returns a report, this one has the status it had, which is the one that the report tells and
  -- was not `retired`.
  pub drill-IsDrill :
      (id operator : String) (origin : Bool) (s : App W)
      → IsDrill id s (drill env id operator origin s)
  drill-IsDrill id operator origin s = record {
    others = λ other. or_same other id (λ differs.
        (Keeps-drill (leaves_other other) id operator origin
            (λ t r p h live. (differs, differs))).after
          s refl);
    here =
        (Keeps-drill leaves_here id operator origin
            (λ t r p h live. (inr refl, as_shown t r p h))).after
          s (inl refl);
    on_return = drill-Undone id operator origin s;
  }
    where
      S : Option AgentStatus → Type 0
      S v = (v ≡ view s.world id) ⊎ (v ≡ some killed)

      leaves_other :
          (other : String)
          → Leaves env (At view (λ v. v other ≡ view s.world other)) (λ k st. ¬ (other ≡ k))
      leaves_other other =
          view_leaves view (λ v. v other ≡ view s.world other) env (λ k st. ¬ (other ≡ k)) registry
            (λ k st apart.
              Keeps-set_other view (λ v. v ≡ view s.world other) env registry k other st apart)

      leaves_here : Leaves env (At view (λ v. S (v id))) (λ k st. S (some st))
      leaves_here =
          view_leaves view (λ v. S (v id)) env (λ k st. S (some st)) registry
            (λ k st may. Keeps-set_allowed view S env registry k id st may)

      as_shown :
          (t : App W) (r : AgentRecord)
          → S (view t.world id)
          → (env.get_agent id t.world).0 ≡ found r
          → S (some r.status)
      as_shown t r p h = subst S (shown_here env view registry id t r h) p
