-- ===== src/Rotation/Engine/Gives.antt =====
-- What an action gives when it returns: one rule for each way to build it.
use field_platform.Prelude.{Bool, true, false, Option, none, some, if◌then◌else◌}
use field_platform.Rotation.Engine.{
  Engine, Fault, Exit, returned, raised, M, pure, raise, continue, ◌>>=◌, case_option,
}

-- `R` of what is returned; an exception and the death of the process give nothing.
abbrev pub Returns : {A : Type 0} → (A → Type 0) → Exit A → Type 0
Returns R (returned a) = R a
Returns R (raised x) = Unit

anything : {A : Type 0} (r : Exit A) → Returns (λ a. Unit) r
anything (returned a) = tt
anything (raised x) = tt

module _ {W A : Type 0} where
  pub record Gives (R : A → Type 0) (m : M W A) : Type 0 where
    pub from : (s : Engine W) → Returns R (m s).0

module _ {W A : Type 0} {R : A → Type 0} where
  pub Gives-pure : (a : A) → R a → Gives {W = W} R (pure a)
  unfolding pure
  Gives-pure a h = record { from = λ s. h }

  pub Gives-raise : (x : Fault) → Gives {W = W} R (raise x)
  unfolding raise
  Gives-raise x = record { from = λ s. tt }

  pub Gives-if : (b : Bool) (m n : M W A) → Gives R m → Gives R n → Gives R (if b then m else n)
  Gives-if true m n g h = g
  Gives-if false m n g h = h

module _ {W A B : Type 0} {R : B → Type 0} where
  after :
      (S : A → Type 0) (r : Exit A) (f : A → M W B) (s : Engine W)
      → Returns S r
      → ((a : A) → S a → Gives R (f a))
      → Returns R (continue r f s).0
  after S (returned a) f s h k = (k a h).from s
  after S (raised x) f s h k = tt

  pub Gives-bind_on :
      (S : A → Type 0) (m : M W A) (f : A → M W B)
      → Gives S m
      → ((a : A) → S a → Gives R (f a))
      → Gives R (m >>= f)
  unfolding ◌>>=◌
  Gives-bind_on S m f g k = record { from = λ s. after S (m s).0 f (m s).1 (g.from s) k }

  pub Gives-bind : (m : M W A) (f : A → M W B) → ((a : A) → Gives R (f a)) → Gives R (m >>= f)
  Gives-bind m f k =
      Gives-bind_on (λ a. Unit) m f (record { from = λ s. anything (m s).0 }) (λ a u. k a)

  pub Gives-case :
      (o : Option A) (m : M W B) (f : A → M W B)
      → Gives R m
      → ((a : A) → Gives R (f a))
      → Gives R (case_option o m f)
  Gives-case none m f g k = g
  Gives-case (some a) m f g k = k a

pub ruleset gives_rules = (Gives-pure, Gives-raise, Gives-if, Gives-bind, Gives-case)
