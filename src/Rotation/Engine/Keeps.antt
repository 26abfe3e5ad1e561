-- ===== src/Rotation/Engine/Keeps.antt =====
-- Invariants of the engine that speak of its journal and of its calls: one rule for each way to build
-- an action. `P` may have a second form, at `true`, that says more.
use field_platform.Prelude.{
  ℕ, zero, suc, String, Bool, true, false, Option, none, some, List, if◌then◌else◌,
}
use field_platform.Rotation.Journal.{Entry}
use field_platform.Rotation.Engine.{
  Ctx, Engine, Call, Fault, died, provider_error, secret_refused, Exit, returned, raised, M, pure,
  raise, gets, act, action, continue, ◌>>=◌, case_option, attempt, attempt_any, provider_or_none,
  live_or_none, next_attempt, or_next, answered, ask, set_new, set_reason, set_ctx, add_secret,
  stage_new, stage_old, cleanup,
}

module _ {W : Type 0} (P : List Entry → List Call → Type 0) where
  abbrev pub Holds : Engine W → Type 0
  Holds s = P s.journal s.calls

  -- `m` keeps `P`, whether it returns, raises or dies.
  pub record Keeps {A : Type 0} (m : M W A) : Type 0 where
    pub at : (s : Engine W) → Holds s → Holds (m s).1

module _ {W A : Type 0} (P : List Entry → List Call → Type 0) where
  act-Keeps :
      (f : Engine W → Exit A × Engine W)
      → ((s : Engine W) → Holds P s → Holds P (f s).1)
      → (n : ℕ) (s : Engine W) → Holds P s
      → Holds P (act n f s).1
  act-Keeps f k zero s h = h
  act-Keeps f k (suc m) s h = k (record s { life = m }) h

  answered-Keeps : (r : Option A × W) (s : Engine W) → Holds P s → Holds P (answered r s).1
  answered-Keeps (none, w) s h = h
  answered-Keeps (some a, w) s h = h

  provider-Keeps : (r : Exit A × Engine W) → Holds P r.1 → Holds P (provider_or_none r).1
  provider-Keeps (returned a, s) h = h
  provider-Keeps (raised provider_error, s) h = h
  provider-Keeps (raised _, s) h = h

  live-Keeps : (r : Exit A × Engine W) → Holds P r.1 → Holds P (live_or_none r).1
  live-Keeps (returned a, s) h = h
  live-Keeps (raised died, s) h = h
  live-Keeps (raised _, s) h = h

  next-Keeps :
      (r : Exit A × Engine W) (n : M W A) → Keeps P n → Holds P r.1 → Holds P (next_attempt r n).1
  next-Keeps (returned a, s) n k h = h
  next-Keeps (raised secret_refused, s) n k h = k.at s h
  next-Keeps (raised _, s) n k h = h

module _ {W A B : Type 0} (P : List Entry → List Call → Type 0) where
  continue-Keeps :
      (r : Exit A) (f : A → M W B) (s : Engine W)
      → ((a : A) → Keeps P (f a))
      → Holds P s
      → Holds P (continue r f s).1
  continue-Keeps (returned a) f s k h = (k a).at s h
  continue-Keeps (raised x) f s k h = h

module _ {W A : Type 0} {P : List Entry → List Call → Type 0} where
  pub Keeps-pure : (a : A) → Keeps {W = W} P (pure a)
  unfolding pure
  Keeps-pure a = record { at = λ s h. h }

  pub Keeps-raise : (f : Fault) → Keeps {W = W} P (raise {A = A} f)
  unfolding raise
  Keeps-raise f = record { at = λ s h. h }

  pub Keeps-gets : (f : Engine W → A) → Keeps P (gets f)
  unfolding gets
  Keeps-gets f = record { at = λ s h. h }

  pub Keeps-if :
      (test : Bool) (then_do else_do : M W A)
      → Keeps P then_do
      → Keeps P else_do
      → Keeps P (if test then then_do else else_do)
  Keeps-if true then_do else_do k l = k
  Keeps-if false then_do else_do k l = l

  pub Keeps-action :
      (f : Engine W → Exit A × Engine W)
      → ((s : Engine W) → Holds P s → Holds P (f s).1)
      → Keeps P (action f)
  unfolding action
  Keeps-action f k = record { at = λ s h. act-Keeps P f k s.life s h }

  pub Keeps-ask : (f : W → Option A × W) → Keeps P (ask f)
  unfolding ask
  Keeps-ask f = Keeps-action (λ s. answered (f s.world) s) (λ s h. answered-Keeps P (f s.world) s h)

  pub Keeps-attempt : (m : M W A) → Keeps P m → Keeps P (attempt m)
  unfolding attempt
  Keeps-attempt m k = record { at = λ s h. provider-Keeps P (m s) (k.at s h) }

  pub Keeps-attempt_any : (m : M W A) → Keeps P m → Keeps P (attempt_any m)
  unfolding attempt_any
  Keeps-attempt_any m k = record { at = λ s h. live-Keeps P (m s) (k.at s h) }

  pub Keeps-or_next : (m n : M W A) → Keeps P m → Keeps P n → Keeps P (or_next m n)
  unfolding or_next
  Keeps-or_next m n k l = record { at = λ s h. next-Keeps P (m s) n l (k.at s h) }

module _ {W A B : Type 0} {P : List Entry → List Call → Type 0} where
  pub Keeps-bind :
      (first : M W A) (rest : A → M W B)
      → Keeps P first
      → ((result : A) → Keeps P (rest result))
      → Keeps P (first >>= rest)
  unfolding ◌>>=◌
  Keeps-bind first rest k l = record {
    at = λ s h. continue-Keeps P (first s).0 rest (first s).1 l (k.at s h);
  }

  pub Keeps-case :
      (o : Option A) (m : M W B) (f : A → M W B)
      → Keeps P m
      → ((a : A) → Keeps P (f a))
      → Keeps P (case_option o m f)
  Keeps-case none m f km kf = km
  Keeps-case (some a) m f km kf = kf a

module _ {W : Type 0} {P : List Entry → List Call → Type 0} where
  pub Keeps-set_new : (id : Option String) → Keeps {W = W} P (set_new id)
  unfolding set_new
  Keeps-set_new id = record { at = λ s h. h }

  pub Keeps-set_reason : (r : String) → Keeps {W = W} P (set_reason r)
  unfolding set_reason
  Keeps-set_reason r = record { at = λ s h. h }

  pub Keeps-set_ctx : (c : Ctx) → Keeps {W = W} P (set_ctx c)
  unfolding set_ctx
  Keeps-set_ctx c = record { at = λ s h. h }

  pub Keeps-add_secret : (x : String) → Keeps {W = W} P (add_secret x)
  unfolding add_secret
  Keeps-add_secret x = record { at = λ s h. h }

  pub Keeps-stage_new : (v : Option String) → Keeps {W = W} P (stage_new v)
  unfolding stage_new
  Keeps-stage_new v = Keeps-action _ (λ s h. h)

  pub Keeps-stage_old : (v : Option String) → Keeps {W = W} P (stage_old v)
  unfolding stage_old
  Keeps-stage_old v = Keeps-action _ (λ s h. h)

  pub Keeps-cleanup : Keeps {W = W} P cleanup
  unfolding cleanup
  Keeps-cleanup = Keeps-bind _ _ (Keeps-stage_new none) (λ _. Keeps-stage_old none)

pub ruleset keeps_rules = (
  Keeps-pure, Keeps-raise, Keeps-gets, Keeps-if, Keeps-bind, Keeps-case, Keeps-attempt,
  Keeps-attempt_any, Keeps-or_next, Keeps-ask, Keeps-set_new, Keeps-set_reason, Keeps-set_ctx,
  Keeps-add_secret, Keeps-stage_new, Keeps-stage_old, Keeps-cleanup,
)
