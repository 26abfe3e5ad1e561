-- ===== src/KillSwitch/Safe.antt =====
-- What no sequence of requests to the kill switch does: change a decommissioned agent, or send a halt
-- signal to a host that is not on the allowlist.
use field_platform.Prelude.{ℕ, String, Bool, true, false, Option, some, List, ◌≡◌, ◌∙◌, ap, All}
use field_platform.Registry.{AgentStatus, retired, AgentRecord, is_retired}
use field_platform.KillSwitch.{Env, App, Event, ask, noted, send, record_beat}
use field_platform.KillSwitch.Keeps.{Keeps, Leaves, Grants}
use field_platform.KillSwitch.Registered.{IsRegistry}
use field_platform.KillSwitch.Registered.Leaves.{At, view_leaves, Keeps-set_other, shown_here}
use field_platform.KillSwitch.Signal.{is_listed}
use field_platform.KillSwitch.Walk.Routes.{Request, serve_all, serve_all-Keeps}

live_differs :
    (a : Option AgentStatus) (r : AgentRecord)
    → a ≡ some retired
    → is_retired r.status ≡ false
    → ¬ (a ≡ some r.status)
live_differs a r gone live same = cc

module _ {W : Type 0} (env : Env W) (view : W → String → Option AgentStatus)
    (registry : IsRegistry env view) where
  -- Over a registry as IsRegistry describes it: an agent that it shows as retired is shown so after any
  -- sequence of requests to the kill switch.
  pub serve_all-retired :
      (id : String) (qs : List Request) (s : App W)
      → view s.world id ≡ some retired
      → view (serve_all env qs s).world id ≡ some retired
  serve_all-retired id qs s gone = serve_all-Keeps leaves qs grants s gone
    where
      May : String → AgentStatus → Type 0
      May other st = ¬ (id ≡ other)

      leaves : Leaves env (At view (λ v. v id ≡ some retired)) May
      leaves =
          view_leaves view (λ v. v id ≡ some retired) env May registry
            (λ other st may.
              Keeps-set_other view (λ v. v ≡ some retired) env registry other id st may)

      grants :
          (other : String) (st : AgentStatus)
          → Grants env (At view (λ v. v id ≡ some retired)) May other st
      grants other st s r gone h live same =
          live_differs (view s.world id) r gone live
            (ap (view s.world) same ∙ shown_here env view registry other s r h)

-- Every halt signal that was sent went to a host of the allowlist.
abbrev pub AllListed : {W : Type 0} → Env W → App W → Type 0
AllListed env s = All (λ host. is_listed host env.allowlist ≡ true) s.requests

module _ {W : Type 0} (env : Env W) where
  listed_ask : {A : Type 0} (f : W → A × W) → Keeps (AllListed env) (ask f)
  unfolding ask
  listed_ask f = record { after = λ s p. p }

  listed_noted : (e : Event) (sent : Bool) → Keeps (AllListed env) (noted e sent)
  listed_noted e true = record { after = λ s p. p }
  listed_noted e false = record { after = λ s p. p }

  listed_send :
      (method url : String) (host : Option String)
      → is_listed host env.allowlist ≡ true
      → Keeps (AllListed env) (send env method url host)
  unfolding send ask
  listed_send method url host listed = record { after = λ s p. (listed, p) }

  listed_beat :
      (id : String) (seen : ℕ) (st : Option AgentStatus)
      → Keeps (AllListed env) (record_beat id seen st)
  unfolding record_beat
  listed_beat id seen st = record { after = λ s p. p }

  -- If every halt signal so far went to a host of the allowlist, so has every one after any sequence of
  -- requests to the kill switch.
  pub serve_all-AllListed :
      (qs : List Request) (s : App W) → AllListed env s → AllListed env (serve_all env qs s)
  serve_all-AllListed qs s p = serve_all-Keeps leaves qs (λ id st s r p h live. tt) s p
    where
      leaves : Leaves env (AllListed env) (λ id st. Unit)
      leaves = record {
        looks = λ id. listed_ask (env.get_agent id);
        sets = λ id st may. listed_ask (env.set_status id st);
        lists = λ domain st. listed_ask (env.list_agents domain st);
        appends = λ e. listed_ask (env.append e);
        notes = listed_noted;
        times = listed_ask env.now;
        sends = listed_send;
        beats = listed_beat;
      }
