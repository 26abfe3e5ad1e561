-- ===== src/KillSwitch/Ends.antt =====
-- What holds where an action of the kill switch returns, from what holds where it starts.
use field_platform.Prelude.{Bool, true, false, Option, none, some, ◌≡◌, refl, if◌then◌else◌}
use field_platform.KillSwitch.{
  App, Error, is_http, Exit, returned, raised, M, pure, raise, attempt_http, caught_http,
  outcome_of, continue, ◌>>=◌,
}
use field_platform.KillSwitch.Keeps.{Keeps}

module _ {W A : Type 0} where
  -- What the result and the state satisfy, where there is a result.
  abbrev pub OnReturn : (A → App W → Type 0) → Exit A × App W → Type 0
  OnReturn Q (returned a, s) = Q a s
  OnReturn Q (raised e, s) = Unit

  pub record Ends (P : App W → Type 0) (m : M W A) (Q : A → App W → Type 0) : Type 0 where
    pub from : (s : App W) → P s → OnReturn Q (m s)

  kept_return : (P : App W → Type 0) (out : Exit A × App W) → P out.1 → OnReturn (λ a. P) out
  kept_return P (returned a, s) p = p
  kept_return P (raised e, s) p = tt

  both_return :
      (Q R : A → App W → Type 0) (out : Exit A × App W)
      → OnReturn Q out
      → OnReturn R out
      → OnReturn (λ a s. Q a s × R a s) out
  both_return Q R (returned a, s) q r = (q, r)
  both_return Q R (raised e, s) q r = tt

  -- The result of an attempt, if it has one.
  abbrev pub IfSome : (A → App W → Type 0) → Option A → App W → Type 0
  IfSome Q none s = Unit
  IfSome Q (some a) s = Q a s

module _ {W A : Type 0} where
  attempt_return :
      (Q : A → App W → Type 0) (out : Exit A × App W)
      → OnReturn Q out
      → OnReturn {A = Option A} (IfSome Q) (caught_http out)
  attempt_return Q (returned a, s) q = q
  attempt_return Q (raised e, s) q = caught (is_http e)
    where
      caught :
          (http : Bool)
          → OnReturn {A = Option A}
              (IfSome Q)
              (if◌then◌else◌ {A = Exit (Option A) × App W} http (returned none, s) (raised e, s))
      caught true = tt
      caught false = tt

  -- The exit of an action whose exceptions are kept.
  abbrev pub IfReturned : (A → App W → Type 0) → Exit A → App W → Type 0
  IfReturned Q (returned a) s = Q a s
  IfReturned Q (raised e) s = Unit

  outcome_return :
      (Q : A → App W → Type 0) (out : Exit A × App W) → OnReturn Q out → IfReturned Q out.0 out.1
  outcome_return Q (returned a, s) q = q
  outcome_return Q (raised e, s) q = tt

module _ {W A : Type 0} where
  any_return : (out : Exit A × App W) → OnReturn (λ a s. Unit {0}) out
  any_return (returned a, s) = tt
  any_return (raised e, s) = tt

  pub Ends-any : {P : App W → Type 0} (m : M W A) → Ends P m (λ a s. Unit)
  Ends-any m = record { from = λ s p. any_return (m s) }

module _ {W A : Type 0} where
  so_return :
      (Q R : A → App W → Type 0) (out : Exit A × App W)
      → ((a : A) (s : App W) → Q a s → R a s)
      → OnReturn Q out
      → OnReturn R out
  so_return Q R (returned a, s) so q = so a s q
  so_return Q R (raised e, s) so q = tt

  pub Ends-so :
      {P : App W → Type 0} (Q R : A → App W → Type 0) (m : M W A)
      → ((a : A) (s : App W) → Q a s → R a s)
      → Ends P m Q
      → Ends P m R
  Ends-so Q R m so e = record { from = λ s p. so_return Q R (m s) so (e.from s p) }

module _ {W A B : Type 0} where
  step_return :
      (R : A → App W → Type 0) (Q : B → App W → Type 0) (out : Exit A × App W) (next : A → M W B)
      → OnReturn R out
      → ((a : A) → Ends (R a) (next a) Q)
      → OnReturn Q (continue out.0 next out.1)
  step_return R Q (returned a, s) next r k = (k a).from s r
  step_return R Q (raised e, s) next r k = tt

module _ {W A : Type 0} {P : App W → Type 0} where
  pub Ends-pure : (Q : A → App W → Type 0) (a : A) → ((s : App W) → P s → Q a s) → Ends P (pure a) Q
  unfolding pure
  Ends-pure Q a k = record { from = k }

  pub Ends-raise : (Q : A → App W → Type 0) (e : Error) → Ends P (raise e) Q
  unfolding raise
  Ends-raise Q e = record { from = λ s p. tt }

  pub Ends-if :
      (Q : A → App W → Type 0) (guard : Bool) (stop go : M W A)
      → (guard ≡ true → Ends P stop Q)
      → (guard ≡ false → Ends P go Q)
      → Ends P (if guard then stop else go) Q
  Ends-if Q true stop go k l = k refl
  Ends-if Q false stop go k l = l refl

  pub Ends-kept : (m : M W A) → Keeps P m → Ends P m (λ a. P)
  Ends-kept m k = record { from = λ s p. kept_return P (m s) (k.after s p) }

module _ {W A : Type 0} {P S : App W → Type 0} where
  -- A statement that an action keeps stands beside what it ends with.
  pub Ends-beside :
      (Q : A → App W → Type 0) (m : M W A)
      → Keeps S m
      → Ends P m Q
      → Ends (λ s. S s × P s) m (λ a s. S s × Q a s)
  Ends-beside Q m k e = record {
    from = λ s p. both_return (λ a. S) Q (m s) (kept_return S (m s) (k.after s p.0)) (e.from s p.1);
  }

  pub Ends-weaken :
      (Q : A → App W → Type 0) (m : M W A) → ((s : App W) → S s → P s) → Ends P m Q → Ends S m Q
  Ends-weaken Q m weaken e = record { from = λ s p. e.from s (weaken s p) }

module _ {W A B : Type 0} {P : App W → Type 0} where
  pub Ends-bind :
      (R : A → App W → Type 0) (Q : B → App W → Type 0) (m : M W A) (next : A → M W B)
      → Ends P m R
      → ((a : A) → Ends (R a) (next a) Q)
      → Ends P (m >>= next) Q
  unfolding ◌>>=◌
  Ends-bind R Q m next e k = record { from = λ s p. step_return R Q (m s) next (e.from s p) k }

module _ {W A : Type 0} {P : App W → Type 0} where
  pub Ends-attempt_http :
      (Q : A → App W → Type 0) (m : M W A) → Ends P m Q → Ends P (attempt_http m) (IfSome Q)
  unfolding attempt_http
  Ends-attempt_http Q m e = record { from = λ s p. attempt_return Q (m s) (e.from s p) }

  pub Ends-outcome_of :
      (Q : A → App W → Type 0) (m : M W A) → Ends P m Q → Ends P (outcome_of m) (IfReturned Q)
  unfolding outcome_of
  Ends-outcome_of Q m e = record { from = λ s p. outcome_return Q (m s) (e.from s p) }
