-- ===== src/Rotation/Engine/Certified.antt =====
-- Invariants in two forms: `Q` is what is known between a verification and the revocation that it
-- licenses, `P` what always holds. The walk through `rotate` asks for `IsCertified` of them.
use field_platform.Prelude.{
  String, true, not, Option, none, some, List, ◌∷◌, ◌≡◌, refl, if◌then◌else◌, sym, subst,
}
use field_platform.Rotation.{planned, verified}
use field_platform.Rotation.Journal.{Fields, Entry, transition}
use field_platform.Rotation.Engine
use field_platform.Rotation.Engine.{
  Env, Ctx, Engine, CredInfo, Call, controlled, Answer, yes_answer, no_answer, garbage, Exit,
  returned, raised, M, pure, gets, case_option, revoke_call, write, ◌>>=◌, ◌>>◌, continue, Fault,
  died, attempt_any, live_or_none, ask, verify_control, verify_staged,
}
use field_platform.Rotation.Engine.Keeps.{Keeps, Holds, Keeps-ask}
use field_platform.Rotation.Engine.Handlers.{replacement_verified, is_no, is_yes}
use field_platform.Rotation.Engine.Steps.{exercise}
use field_platform.Rotation.Engine.Kept.{IsKept}

abbrev pub Predicate : Type 1
Predicate = List Entry → List Call → Type 0

module _ {W A : Type 0} where
  abbrev pub Outcome : Predicate → (A → Predicate) → Exit A × Engine W → Type 0
  Outcome P Q (returned a, s) = Holds (Q a) s
  Outcome P Q (raised x, s) = Holds P s

  -- From `P`, the action returns `a` with `Q a`, or raises with `P`.
  pub record Yields (P : Predicate) (Q : A → Predicate) (m : M W A) : Type 0 where
    pub at : (s : Engine W) → Holds P s → Outcome P Q (m s)

  Outcome-Keeps : (P : Predicate) (r : Exit A × Engine W) → Holds P r.1 → Outcome P (λ a. P) r
  Outcome-Keeps P (returned a, s) h = h
  Outcome-Keeps P (raised x, s) h = h

  pub Yields-Keeps : {P : Predicate} (m : M W A) → Keeps P m → Yields P (λ a. P) m
  Yields-Keeps {P} m k = record { at = λ s h. Outcome-Keeps P (m s) (k.at s h) }

module _ {W A B : Type 0} (P : Predicate) where
  Yields-continue :
      (Q : A → Predicate) (r : Exit A × Engine W) (f : A → M W B)
      → ((a : A) (s : Engine W) → Holds (Q a) s → Holds P (f a s).1)
      → Outcome P Q r
      → Holds P (continue r.0 f r.1).1
  Yields-continue Q (returned a, s) f k h = k a s h
  Yields-continue Q (raised x, s) f k h = h

  Yields-continue_to :
      (Q : A → Predicate) (R : B → Predicate) (r : Exit A × Engine W) (f : A → M W B)
      → ((a : A) (s : Engine W) → Holds (Q a) s → Outcome P R (f a s))
      → Outcome P Q r
      → Outcome P R (continue r.0 f r.1)
  Yields-continue_to Q R (returned a, s) f k h = k a s h
  Yields-continue_to Q R (raised x, s) f k h = h

module _ {W A B : Type 0} {P : Predicate} where
  -- What an action yields is known to the rest.
  pub Keeps-bind-Yields :
      (Q : A → Predicate) (m : M W A) (f : A → M W B)
      → Yields P Q m
      → ((a : A) (s : Engine W) → Holds (Q a) s → Holds P (f a s).1)
      → Keeps P (m >>= f)
  unfolding ◌>>=◌
  Keeps-bind-Yields Q m f y k = record { at = λ s h. Yields-continue P Q (m s) f k (y.at s h) }

  pub Yields-bind :
      (Q : A → Predicate) (R : B → Predicate) (m : M W A) (f : A → M W B)
      → Yields P Q m
      → ((a : A) (s : Engine W) → Holds (Q a) s → Outcome P R (f a s))
      → Yields P R (m >>= f)
  unfolding ◌>>=◌
  Yields-bind Q R m f y k = record { at = λ s h. Yields-continue_to P Q R (m s) f k (y.at s h) }

module _ {W : Type 0} (env : Env W) where
  pub record IsCertified (P Q : Predicate) : Type 0 where
    pub base : IsKept env P
    pub strong : IsKept env Q
    pub weaken : (es : List Entry) (cs : List Call) → Q es cs → P es cs
    pub replaced :
        (es : List Entry) (cs : List Call) → P es cs → replacement_verified es ≡ true → Q es cs
    pub control :
        (es : List Entry) (cs : List Call) (a : Answer) → P es cs → P es (controlled a ∷ cs)
    pub verdict :
        (es : List Entry) (cs : List Call) (a : Answer) → P es cs → P es (Engine.verified a ∷ cs)
    pub accepted :
        (es : List Entry) (cs : List Call)
        → P es cs
        → Q es (Engine.verified yes_answer ∷ controlled no_answer ∷ cs)
    pub write_verified : (f : Fields) → Keeps Q (write env (transition verified f))
    pub write_planned : (f : Fields) → Keeps P (write env (transition planned f))
    pub revoke_old : (id : String) → Keeps Q (revoke_call env id "old")

module _ {W : Type 0} (env : Env W) {P Q : Predicate} (c : IsCertified env P Q) where
  abbrev AfterControl : Answer → Predicate
  AfterControl no_answer es cs =
      (before : List Call) × (cs ≡ controlled no_answer ∷ before) × P es before
  AfterControl _ es cs = P es cs

  control_at :
      (a : Answer) (es : List Entry) (cs : List Call)
      → P es cs
      → AfterControl a es (controlled a ∷ cs)
  control_at yes_answer es cs h = c.control es cs yes_answer h
  control_at no_answer es cs h = (cs, refl, h)
  control_at garbage es cs h = c.control es cs garbage h

  verify_control-Yields : (v : String) → Yields P AfterControl (verify_control env v)
  unfolding verify_control
  verify_control-Yields v =
      Yields-bind (λ a. P) AfterControl _ _ (Yields-Keeps _ (Keeps-ask _))
        (λ a s h. control_at a s.journal s.calls h)

  abbrev pub Verdict : Option String → Predicate
  Verdict none = Q
  Verdict (some why) = P

  Verdict-of :
      (a : Answer) (es : List Entry) (cs : List Call)
      → ((before : List Call) × (cs ≡ controlled no_answer ∷ before) × P es before)
      → Verdict
          (if is_yes (some a) then none else some "verification failed")
          es
          (Engine.verified a ∷ cs)
  Verdict-of yes_answer es cs (before, e, h) =
      subst (λ l. Q es (Engine.verified yes_answer ∷ l)) (sym e) (c.accepted es before h)
  Verdict-of no_answer es cs (before, e, h) =
      c.verdict es cs no_answer (subst (P es) (sym e) (c.control es before no_answer h))
  Verdict-of garbage es cs (before, e, h) =
      c.verdict es cs garbage (subst (P es) (sym e) (c.control es before no_answer h))

  AfterStaged : Answer → Predicate
  AfterStaged a es cs =
      (rest : List Call) × (cs ≡ Engine.verified a ∷ rest) × AfterControl no_answer es rest

  forget_control : (es : List Entry) (cs : List Call) → AfterControl no_answer es cs → P es cs
  forget_control es cs (before, e, h) = subst (P es) (sym e) (c.control es before no_answer h)

  verify_staged-Yields :
      (v : String) → Yields (AfterControl no_answer) AfterStaged (verify_staged env v)
  unfolding verify_staged AfterStaged
  verify_staged-Yields v =
      Yields-bind (λ a. AfterControl no_answer) AfterStaged _ _ (Yields-Keeps _ (Keeps-ask _))
        (λ a s h. (s.calls, refl, h))

  Outcome-weaken :
      {A : Type 0} (R : A → Predicate) (r : Exit A × Engine W)
      → Outcome (AfterControl no_answer) R r
      → Outcome P R r
  Outcome-weaken R (returned a, s) h = h
  Outcome-weaken R (raised x, s) h = forget_control s.journal s.calls h

  Verdict-staged :
      (a : Answer) (es : List Entry) (cs : List Call)
      → AfterStaged a es cs
      → Verdict (if is_yes (some a) then none else some "verification failed") es cs
  unfolding AfterStaged
  Verdict-staged a es cs (rest, e, h) =
      subst (Verdict (if is_yes (some a) then none else some "verification failed") es) (sym e)
        (Verdict-of a es rest h)

  staged_answer : (v : String) → M W (Option String)
  staged_answer v = do
    answer ← verify_staged env v
    pure (if is_yes (some answer) then none else some "verification failed")

  staged_answer-Yields : (v : String) → Yields (AfterControl no_answer) Verdict (staged_answer v)
  unfolding staged_answer pure
  staged_answer-Yields v =
      Yields-bind AfterStaged Verdict _ _ (verify_staged-Yields v)
        (λ a s h. Verdict-staged a s.journal s.calls h)

  control_answer : (v : String) (a : Answer) → M W (Option String)
  unfolding staged_answer
  control_answer v a =
      if not (is_no a)
      then pure
          (some "verifier accepted a bogus credential, so it ignores the credential it is given")
      else staged_answer v

  control_answer_at :
      (v : String) (a : Answer) (s : Engine W)
      → Holds (AfterControl a) s
      → Outcome P Verdict (control_answer v a s)
  unfolding control_answer pure
  control_answer_at v yes_answer s h = h
  control_answer_at v garbage s h = h
  control_answer_at v no_answer s h =
      Outcome-weaken Verdict (staged_answer v s) ((staged_answer-Yields v).at s h)

  abbrev Result : Option (Option String) → Predicate
  Result none = P
  Result (some why) = Verdict why

  Verdict-weaken :
      (why : Option String) (es : List Entry) (cs : List Call) → Verdict why es cs → P es cs
  Verdict-weaken none es cs h = c.weaken es cs h
  Verdict-weaken (some why) es cs h = h

  live_Result :
      (r : Exit (Option String) × Engine W)
      → Outcome P Verdict r
      → Outcome P Result (live_or_none r)
  live_Result (returned why, s) h = h
  live_Result (raised died, s) h = h
  live_Result (raised _, s) h = h

  attempt_any-Yields :
      (m : M W (Option String)) → Yields P Verdict m → Yields P Result (attempt_any m)
  unfolding attempt_any
  attempt_any-Yields m y = record { at = λ s h. live_Result (m s) (y.at s h) }

  conclude :
      (r : Option (Option String)) (s : Engine W)
      → Holds (Result r) s
      → Outcome P Verdict
          (case_option {W = W} r (pure (some "verifier raised")) (λ why. pure why) s)
  unfolding pure
  conclude none s h = h
  conclude (some why) s h = h

  -- A verification that passes has `Q`: the bogus credential was refused and the staged one accepted.
  pub exercise-Yields : (v : String) → Yields P Verdict (exercise env v)
  unfolding exercise control_answer staged_answer
  exercise-Yields v =
      Yields-bind Result Verdict _ _
        (attempt_any-Yields _ (
          Yields-bind AfterControl Verdict (verify_control env v) (control_answer v)
            (verify_control-Yields v) (λ a s h. control_answer_at v a s h)))
        conclude
