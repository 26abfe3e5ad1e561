-- ===== src/KillSwitch/Registered/Leaves.antt =====
-- What the calls of the other services do to a statement about the registry's view.
use field_platform.Prelude.{
  ℕ, String, Bool, true, false, Option, some, ◌≡◌, ◌⊎◌, inl, inr, sym, subst, fun_ext, str_eq,
  str_eq_iff, Bool-cases,
}
use field_platform.Registry.{AgentStatus, AgentRecord}
use field_platform.KillSwitch.{
  Env, App, found, Written, written, not_registered, not_reachable, Event, ask, noted, send,
  record_beat,
}
use field_platform.KillSwitch.Keeps.{Keeps, Leaves}
use field_platform.KillSwitch.Registered.{Shown, Put, Untouched, IsRegistry}

apart : (id other : String) → str_eq id other ≡ false → ¬ (id ≡ other)
apart id other h same = let found : str_eq id other ≡ true = (str_eq_iff id other).1 same in cc

-- What holds of every other agent.
pub or_same : {A : Type 0} (other id : String) → (¬ (other ≡ id) → A) → (other ≡ id) ⊎ A
or_same other id k = elim (Bool-cases (str_eq other id)) [
  | inl h ↦ inl ((str_eq_iff other id).0 h)
  | inr h ↦ inr (k (apart other id h))
]

-- A call that leaves the view alone keeps what is said of the view.
module _ {W : Type 0} (view : W → String → Option AgentStatus)
    (S : (String → Option AgentStatus) → Type 0) where
  abbrev pub At : App W → Type 0
  At s = S (view s.world)

  pub Keeps-ask :
      {A : Type 0} (f : W → A × W) → ((w : W) → Untouched view w (f w).1) → Keeps At (ask f)
  unfolding ask
  Keeps-ask f kept = record { after = λ s p. subst S (sym (fun_ext (kept s.world))) p }

  Keeps-noted : (e : Event) (sent : Bool) → Keeps At (noted e sent)
  Keeps-noted e true = record { after = λ s p. p }
  Keeps-noted e false = record { after = λ s p. p }

  Keeps-send :
      (method url : String) (host : Option String) (env : Env W)
      → ((w : W) → Untouched view w (env.call method url w).1)
      → Keeps At (send env method url host)
  unfolding send ask
  Keeps-send method url host env kept = record {
    after = λ s p. subst S (sym (fun_ext (kept s.world))) p;
  }

  Keeps-record_beat :
      (other : String) (seen : ℕ) (st : Option AgentStatus) → Keeps At (record_beat other seen st)
  unfolding record_beat
  Keeps-record_beat other seen st = record { after = λ s p. p }

  -- The leaves, where the writes that have leave keep `S`.
  pub view_leaves :
      (env : Env W) (May : String → AgentStatus → Type 0)
      → IsRegistry env view
      → ((other : String) (st : AgentStatus)
          → May other st
          → Keeps At (ask (env.set_status other st)))
      → Leaves env At May
  view_leaves env May registry sets = record {
    looks = λ other. Keeps-ask (env.get_agent other) (λ w. registry.get_kept other w);
    sets = sets;
    lists =
        λ domain st. Keeps-ask (env.list_agents domain st) (λ w. registry.list_kept domain st w);
    appends = λ e. Keeps-ask (env.append e) (λ w. registry.append_kept e w);
    notes = Keeps-noted;
    times = Keeps-ask env.now (λ w. registry.now_kept w);
    sends = λ method url host listed.
        Keeps-send method url host env (λ w. registry.call_kept method url w);
    beats = Keeps-record_beat;
  }

module _ {W : Type 0} (view : W → String → Option AgentStatus) (S : Option AgentStatus → Type 0)
    (env : Env W) (registry : IsRegistry env view) where
  abbrev OfOne : String → App W → Type 0
  OfOne id = At view (λ v. S (v id))

  -- A write of another agent's row.
  pub Keeps-set_other :
      (other id : String) (st : AgentStatus)
      → ¬ (id ≡ other)
      → Keeps (OfOne id) (ask (env.set_status other st))
  unfolding ask
  Keeps-set_other other id st apart = record {
    after = λ s p. subst S (sym (registry.others_kept other id st s.world apart)) p;
  }

  put-S :
      (st : AgentStatus) (a : Written) (before now : Option AgentStatus)
      → S (some st)
      → Put st a before now
      → S before
      → S now
  put-S st written before now new h p = subst S (sym h) new
  put-S st not_registered before now new h p = subst S (sym h) p
  put-S st not_reachable before now new (inl h) p = subst S (sym h) p
  put-S st not_reachable before now new (inr h) p = subst S (sym h) new

  Keeps-set_here :
      (id : String) (st : AgentStatus) → S (some st) → Keeps (OfOne id) (ask (env.set_status id st))
  unfolding ask
  Keeps-set_here id st new = record {
    after = λ s p. put-S st (env.set_status id st s.world).0 _ _ new (registry.put id st s.world) p;
  }

  -- A write of a status that is allowed too.
  pub Keeps-set_allowed :
      (other id : String) (st : AgentStatus)
      → S (some st)
      → Keeps (OfOne id) (ask (env.set_status other st))
  Keeps-set_allowed other id st new = elim (Bool-cases (str_eq id other)) [
    | inl h ↦
        subst (λ k. Keeps (OfOne id) (ask (env.set_status k st))) ((str_eq_iff id other).0 h)
          (Keeps-set_here id st new)
    | inr h ↦ Keeps-set_other other id st (apart id other h)
  ]

module _ {W : Type 0} (env : Env W) (view : W → String → Option AgentStatus)
    (registry : IsRegistry env view) where
  pub shown_here :
      (id : String) (s : App W) (r : AgentRecord)
      → (env.get_agent id s.world).0 ≡ found r
      → view s.world id ≡ some r.status
  shown_here id s r h = subst (λ a. Shown a (view s.world id)) h (registry.shown id s.world)
