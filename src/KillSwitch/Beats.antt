-- ===== src/KillSwitch/Beats.antt =====
-- The heartbeat of an agent tells it to go on only where the registry shows it active.
use field_platform.Prelude.{
  ℕ, String, true, false, not, Option, none, some, ◌≡◌, ◌↔◌, refl, sym, ◌∙◌, ap, subst, str_eq,
  str_eq_iff, if◌then◌else◌,
}
use field_platform.Prelude.Dict.{Dict, lookup, insert, lookup-insert}
use field_platform.Registry.{AgentStatus, active, killed, retired, AgentRecord}
use field_platform.KillSwitch.{
  Env, App, Beat, Fetched, found, unregistered, unreachable, pure, raise, ask, record_beat, ◌>>=◌,
}
use field_platform.KillSwitch.Ends.{OnReturn, Ends, Ends-pure, Ends-raise, Ends-if, Ends-bind}
use field_platform.KillSwitch.Registered.{Shown, IsRegistry}
use field_platform.KillSwitch.Routes.{
  Heartbeat, is_active, beat_of, beat_fetched, heartbeat_for, checkin,
}

-- An agent may run exactly when its status is `active`.
pub record IsHonest (status : Option AgentStatus) (beat : Heartbeat) : Type 0 where
  pub told : beat.status ≡ status
  pub runs : (beat.is_killed ≡ false) ↔ (status ≡ some active)

active_only : (st : AgentStatus) → not (is_active st) ≡ false → st ≡ active
active_only active h = refl
active_only killed h = cc
active_only retired h = cc

some_active : (st : AgentStatus) → some st ≡ some active → not (is_active st) ≡ false
some_active active h = refl
some_active killed h = cc
some_active retired h = cc

beat_of-IsHonest :
    (id : String) (r : AgentRecord) (v : Option AgentStatus)
    → v ≡ some r.status
    → IsHonest v (beat_of id r)
beat_of-IsHonest id r v shown = record {
  told = sym shown;
  runs = (λ h. shown ∙ ap some (active_only r.status h), λ h. some_active r.status (sym shown ∙ h));
}

module _ {W : Type 0} (env : Env W) where
  fetched-IsHonest :
      (id : String) (a : Fetched) (v : Option AgentStatus) (s : App W)
      → Shown a v
      → OnReturn (λ beat t. IsHonest v beat) (beat_fetched env id a s)
  unfolding pure raise
  fetched-IsHonest id (found r) v s shown = beat_of-IsHonest id r v shown
  fetched-IsHonest id unregistered v s shown = record {
    told = sym shown;
    runs = (λ h. cc, λ h. cc);
  }
  fetched-IsHonest id unreachable v s shown = tt

module _ {W : Type 0} (env : Env W) (view : W → String → Option AgentStatus)
    (registry : IsRegistry env view) where
  heartbeat_for-IsHonest :
      (id : String) (s : App W)
      → OnReturn (λ beat t. IsHonest (view s.world id) beat) (heartbeat_for env id s)
  unfolding heartbeat_for ◌>>=◌ ask
  heartbeat_for-IsHonest id s =
      fetched-IsHonest env id (env.get_agent id s.world).0 (view s.world id) _
        (registry.shown id s.world)

  -- What the store has of a check-in that was answered.
  abbrev pub Stored : Option Beat → Heartbeat → Type 0
  Stored none beat = ⊥
  Stored (some b) beat = (some b.last_seen ≡ beat.last_seen) × (b.status ≡ beat.status)

  pub record IsKept (id : String) (status : Option AgentStatus) (beat : Heartbeat) (after : App W)
      : Type 0 where
    pub honest : IsHonest status beat
    pub stored : Stored (lookup id after.heartbeats) beat

  from-IsHonest :
      (id : String) (v : Option AgentStatus)
      → Ends (λ s. view s.world id ≡ v) (heartbeat_for env id) (λ beat t. IsHonest v beat)
  from-IsHonest id v = record {
    from = λ s p.
        subst (λ w. OnReturn (λ beat t. IsHonest w beat) (heartbeat_for env id s)) p
          (heartbeat_for-IsHonest id s);
  }

  abbrev StoredAs : String → ℕ → Option AgentStatus → Option Beat → Type 0
  StoredAs id seen st none = ⊥
  StoredAs id seen st (some b) = (b.last_seen ≡ seen) × (b.status ≡ st)

  inserted : (id : String) (b : Beat) (d : Dict Beat) → lookup id (insert id b d) ≡ some b
  inserted id b d =
      let same : str_eq id id ≡ true = (str_eq_iff id id).1 refl in
      lookup-insert id id b d ∙ ap (λ t. if t then some b else lookup id d) same

  record_beat-Ends :
      (id : String) (seen : ℕ) (st : Option AgentStatus) (v : Option AgentStatus) (beat : Heartbeat)
      → Ends
          (λ (s : App W). IsHonest v beat)
          (record_beat id seen st)
          (λ u s. IsHonest v beat × StoredAs id seen st (lookup id s.heartbeats))
  unfolding record_beat
  record_beat-Ends id seen st v beat = record {
    from = λ s p. (p, subst (StoredAs id seen st) (sym (inserted id _ s.heartbeats)) (refl, refl));
  }

  stored_as :
      (id : String) (seen : ℕ) (beat : Heartbeat) (o : Option Beat)
      → StoredAs id seen beat.status o
      → Stored o (record beat { last_seen = some seen })
  stored_as id seen beat none p = p
  stored_as id seen beat (some b) p = (ap some p.0, p.1)

  time-Ends :
      (v : Option AgentStatus) (beat : Heartbeat)
      → Ends (λ s. IsHonest v beat) (ask env.now) (λ seen s. IsHonest v beat)
  unfolding ask
  time-Ends v beat = record { from = λ s p. p }

  checkin-Ends :
      (id : String) (v : Option AgentStatus)
      → Ends (λ s. view s.world id ≡ v) (checkin env id) (IsKept id v)
  unfolding checkin
  checkin-Ends id v =
      Ends-if _ (env.is_bad_id id) _ _ (λ h. Ends-raise _ _)
        (λ h.
          Ends-bind (λ beat s. IsHonest v beat) _ _ _ (from-IsHonest id v)
            (λ beat.
              Ends-bind (λ seen s. IsHonest v beat) _ _ _ (time-Ends v beat)
                (λ seen.
                  Ends-bind
                    (λ u s. IsHonest v beat × StoredAs id seen beat.status (lookup id s.heartbeats))
                    _ _ _ (record_beat-Ends id seen beat.status v beat)
                    (λ u. Ends-pure _ _ (λ s p. record {
                      honest = record { told = p.0.told; runs = p.0.runs };
                      stored = stored_as id seen beat (lookup id s.heartbeats) p.1;
                    })))))

  -- Over a registry as IsRegistry describes it: a check-in that is answered tells the status that the registry shows, or that it shows none, and lets
  -- the agent run exactly where that status is `active`; and the store then has the instant and the status
  -- that the answer tells.
  pub checkin-IsKept :
      (id : String) (s : App W) → OnReturn (IsKept id (view s.world id)) (checkin env id s)
  checkin-IsKept id s = (checkin-Ends id (view s.world id)).from s refl
