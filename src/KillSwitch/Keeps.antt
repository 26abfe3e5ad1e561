-- ===== src/KillSwitch/Keeps.antt =====
-- Invariants of the kill switch: one rule for each way to build an action, and one for each call of
-- another service. `May id st` is the leave to set an agent's status.
use field_platform.Prelude.{
  ℕ, String, Bool, true, false, Option, none, some, ◌≡◌, refl, inl, inr, sym, subst, ap, Bool-cases,
  if◌then◌else◌,
}
use field_platform.Registry.{AgentStatus, AgentRecord, is_retired}
use field_platform.KillSwitch.{
  Env, App, found, Event, Error, is_http, Exit, returned, raised, M, pure, raise, attempt_http,
  caught_http, outcome_of, of_exit, continue, ◌>>=◌, case_option, ask, noted, ledger_note, send,
  record_beat, all_beats, check_authorized,
}
use field_platform.KillSwitch.Signal.{is_listed}

module _ {W : Type 0} (P : App W → Type 0) where
  -- `m` keeps `P`, whether it returns or raises.
  pub record Keeps {A : Type 0} (m : M W A) : Type 0 where
    pub after : (s : App W) → P s → P (m s).1

module _ {W A : Type 0} (P : App W → Type 0) where
  caught-Keeps : (out : Exit A × App W) → P out.1 → P (caught_http out).1
  caught-Keeps (returned a, s) p = p
  caught-Keeps (raised e, s) p = elim (Bool-cases (is_http e)) [
    | inl h ↦
        subst {A = Exit (Option A) × App W} (λ out. P out.1)
          (sym (ap (λ b. if b then (returned none, s) else (raised e, s)) h)) p
    | inr h ↦
        subst {A = Exit (Option A) × App W} (λ out. P out.1)
          (sym (ap (λ b. if b then (returned none, s) else (raised e, s)) h)) p
  ]

module _ {W A B : Type 0} (P : App W → Type 0) where
  step-Keeps :
      (out : Exit A × App W) (next : A → M W B)
      → ((a : A) → Keeps P (next a))
      → P out.1
      → P (continue out.0 next out.1).1
  step-Keeps (returned a, s) next k p = (k a).after s p
  step-Keeps (raised e, s) next k p = p

module _ {W A : Type 0} {P : App W → Type 0} where
  pub Keeps-pure : (a : A) → Keeps P (pure a)
  unfolding pure
  Keeps-pure a = record { after = λ s p. p }

  pub Keeps-raise : (e : Error) → Keeps P (raise {A = A} e)
  unfolding raise
  Keeps-raise e = record { after = λ s p. p }

  pub Keeps-of_exit : (out : Exit A) → Keeps P (of_exit out)
  unfolding of_exit
  Keeps-of_exit out = record { after = λ s p. p }

  pub Keeps-outcome_of : (m : M W A) → Keeps P m → Keeps P (outcome_of m)
  unfolding outcome_of
  Keeps-outcome_of m k = record { after = k.after }

  pub Keeps-attempt_http : (m : M W A) → Keeps P m → Keeps P (attempt_http m)
  unfolding attempt_http
  Keeps-attempt_http m k = record { after = λ s p. caught-Keeps P (m s) (k.after s p) }

  pub Keeps-if :
      (guard : Bool) (stop go : M W A)
      → Keeps P stop
      → Keeps P go
      → Keeps P (if guard then stop else go)
  Keeps-if true stop go k l = k
  Keeps-if false stop go k l = l

  -- The second branch may use that the guard has failed.
  pub Keeps-unless :
      (guard : Bool) (stop go : M W A)
      → Keeps P stop
      → (guard ≡ false → Keeps P go)
      → Keeps P (if guard then stop else go)
  Keeps-unless true stop go k l = k
  Keeps-unless false stop go k l = l refl

module _ {W A B : Type 0} {P : App W → Type 0} where
  pub Keeps-bind :
      (m : M W A) (next : A → M W B)
      → Keeps P m
      → ((a : A) → Keeps P (next a))
      → Keeps P (m >>= next)
  unfolding ◌>>=◌
  Keeps-bind m next k l = record { after = λ s p. step-Keeps P (m s) next l (k.after s p) }

  pub Keeps-case :
      (o : Option A) (absent : M W B) (next : A → M W B)
      → Keeps P absent
      → ((a : A) → Keeps P (next a))
      → Keeps P (case_option o absent next)
  Keeps-case none absent next k l = k
  Keeps-case (some a) absent next k l = l a

-- What `P` must allow for the routes to keep it.
pub record Leaves {W : Type 0} (env : Env W) (P : App W → Type 0)
    (May : String → AgentStatus → Type 0) : Type 0 where
  pub looks : (id : String) → Keeps P (ask (env.get_agent id))
  pub sets : (id : String) (st : AgentStatus) → May id st → Keeps P (ask (env.set_status id st))
  pub lists :
      (domain : Option String) (st : Option AgentStatus) → Keeps P (ask (env.list_agents domain st))
  pub appends : (e : Event) → Keeps P (ask (env.append e))
  pub notes : (e : Event) (sent : Bool) → Keeps P (noted e sent)
  pub times : Keeps P (ask env.now)
  pub sends :
      (method url : String) (host : Option String)
      → is_listed host env.allowlist ≡ true
      → Keeps P (send env method url host)
  pub beats : (id : String) (seen : ℕ) (st : Option AgentStatus) → Keeps P (record_beat id seen st)

-- A record that the registry shows as not retired gives leave for one agent.
abbrev pub Grants :
    {W : Type 0}
    → Env W
    → (App W → Type 0)
    → (String → AgentStatus → Type 0)
    → String
    → AgentStatus
    → Type 0
Grants env P May id st =
    (s : App _) (r : AgentRecord)
    → P s
    → (env.get_agent id s.world).0 ≡ found r
    → is_retired r.status ≡ false
    → May id st

module _ {W : Type 0} {env : Env W} {P : App W → Type 0} {May : String → AgentStatus → Type 0}
    (leaves : Leaves env P May) where
  pub Keeps-ledger_note : (e : Event) → Keeps P (ledger_note env e)
  unfolding ledger_note
  Keeps-ledger_note e = Keeps-bind _ _ (leaves.appends e) (λ sent. leaves.notes e sent)

  pub Keeps-all_beats : Keeps P (all_beats {W = W})
  unfolding all_beats
  Keeps-all_beats = record { after = λ s p. p }

  pub Keeps-check_authorized :
      (action : String) (r : AgentRecord) → Keeps P (check_authorized env action r)
  unfolding check_authorized
  Keeps-check_authorized action r = Keeps-if _ _ _ (Keeps-raise _) (Keeps-pure _)

pub ruleset kill_rules = (
  Keeps-pure, Keeps-raise, Keeps-of_exit, Keeps-outcome_of, Keeps-attempt_http, Keeps-if,
  Keeps-bind, Keeps-case,
)
