-- ===== src/KillSwitch/Registered.antt =====
-- What the kill switch relies on of the registry: a view of the statuses that its answers speak of.
-- While a request is served nobody else writes to the registry, or the view would change between two calls.
pub mod Leaves
use field_platform.Prelude.{ℕ, String, Bool, Option, none, some, List, ◌≡◌, ◌⊎◌}
use field_platform.Registry.{AgentStatus, AgentRecord}
use field_platform.KillSwitch.{
  Env, Fetched, found, unregistered, unreachable, Written, written, not_registered, not_reachable,
  Event,
}

-- What an answer says of the status in the view.
abbrev pub Shown : Fetched → Option AgentStatus → Type 0
Shown (found r) v = v ≡ some r.status
Shown unregistered v = v ≡ none
Shown unreachable v = Unit

-- A write whose answer was lost may have happened.
abbrev pub Put : AgentStatus → Written → (before after : Option AgentStatus) → Type 0
Put st written before after = after ≡ some st
Put st not_registered before after = after ≡ before
Put st not_reachable before after = (after ≡ before) ⊎ (after ≡ some st)

-- One agent's status in the view of two worlds.
abbrev pub Untouched :
    {W : Type 0} → (W → String → Option AgentStatus) → (before after : W) → Type 0
Untouched view before after = (id : String) → view after id ≡ view before id

pub record IsRegistry {W : Type 0} (env : Env W) (view : W → String → Option AgentStatus)
    : Type 0 where
  pub shown : (id : String) (w : W) → Shown (env.get_agent id w).0 (view w id)
  pub get_kept : (id : String) (w : W) → Untouched view w (env.get_agent id w).1
  pub put :
      (id : String) (st : AgentStatus) (w : W)
      → Put st (env.set_status id st w).0 (view w id) (view (env.set_status id st w).1 id)
  pub others_kept :
      (id other : String) (st : AgentStatus) (w : W)
      → ¬ (other ≡ id)
      → view (env.set_status id st w).1 other ≡ view w other
  pub list_kept :
      (domain : Option String) (st : Option AgentStatus) (w : W)
      → Untouched view w (env.list_agents domain st w).1
  pub append_kept : (e : Event) (w : W) → Untouched view w (env.append e w).1
  pub call_kept : (method url : String) (w : W) → Untouched view w (env.call method url w).1
  pub now_kept : (w : W) → Untouched view w (env.now w).1

-- What the registry is relied on for one id.
pub record AnswersFor {W : Type 0} (env : Env W) (view : W → String → Option AgentStatus)
    (id : String) : Type 0 where
  pub shown : (w : W) → Shown (env.get_agent id w).0 (view w id)
  pub get_kept : (w : W) → Untouched view w (env.get_agent id w).1
  pub put :
      (st : AgentStatus) (w : W)
      → Put st (env.set_status id st w).0 (view w id) (view (env.set_status id st w).1 id)
  pub others_kept :
      (st : AgentStatus) (w : W) (other : String)
      → (other ≡ id) ⊎ (view (env.set_status id st w).1 other ≡ view w other)
