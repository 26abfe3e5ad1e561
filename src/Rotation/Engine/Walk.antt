-- ===== src/Rotation/Engine/Walk.antt =====
-- Every call of `rotate` keeps an invariant that is certified.
use field_platform.Prelude.{
  ℕ, zero, suc, String, Bool, true, false, Option, none, some, List, ◌≡◌, refl, if◌then◌else◌,
  Option-cases, inl, inr,
}
use field_platform.Rotation.{
  State, planned, minted, installed, verified, old_revoked, done, rolled_back, halted,
}
use field_platform.Rotation.Journal.{Fields, Entry, transition, note}
use field_platform.Rotation.Refuse.{revoke_fly_deploy_token, Rule, is_revoke}
use field_platform.Rotation.Refuse.Granted.{refuse-IsGranted}
use field_platform.Rotation.Engine.{
  Env, Ctx, Engine, CredInfo, Call, M, gets, case_option, write, ◌>>=◌,
}
use field_platform.Rotation.Engine.Keeps.{
  Keeps, Holds, Keeps-pure, Keeps-raise, Keeps-gets, Keeps-if, Keeps-bind, Keeps-case,
  Keeps-attempt, keeps_rules,
}
use field_platform.Rotation.Engine.Handlers.{
  replacement_verified, deny, action_of, step_to, halt, revoke_and_confirm, revoke_credential,
  describe,
}
use field_platform.Rotation.Engine.Steps.{
  exercise, verified_states, after_exercise, do_verify, rollback, do_revoke_old, old_is_revoked,
}
use field_platform.Rotation.Engine.Kept.{
  halt-Keeps, describe-Keeps, new_failed-Keeps, revoke_by-Keeps, rollback-Keeps,
  old_is_revoked-Keeps, do_mint-Keeps, do_install-Keeps, do_done-Keeps,
}
use field_platform.Rotation.Engine.Certified.{
  Predicate, Yields, Keeps-bind-Yields, IsCertified, Verdict, exercise-Yields,
}
use field_platform.Rotation.Engine.Rotate.{
  handle, drive, rounds, start_run, fresh, or_missing, resume_at, resume, locked_rotate, rotate,
}

module _ {W : Type 0} (env : Env W) {P Q : Predicate} (c : IsCertified env P Q) where
  to_verified-Keeps : (x : Option String) (l : Option Bool) → Keeps Q (step_to env verified x l)
  unfolding step_to
  to_verified-Keeps x l = Keeps-bind _ _ (Keeps-gets _) (λ f. c.write_verified f)

  strong_halt : (r : String) (l : Bool) → Keeps Q (halt env r l)
  strong_halt r l = halt-Keeps env Q c.strong r l

  strong_rollback : (r : String) → Keeps Q (rollback env r)
  strong_rollback r = rollback-Keeps env Q c.strong r

  strong_revoke : (id : String) (b : Bool) → Keeps Q (revoke_credential env id "new_failed" b)
  strong_revoke id b = new_failed-Keeps env Q c.strong id b

  verified_states-Keeps : (n o : CredInfo) (id : String) → Keeps Q (verified_states env n o id)
  unfolding verified_states
  verified_states-Keeps n o id =
      search (keeps_rules, to_verified-Keeps, strong_halt, strong_rollback, strong_revoke) depth 20

  strong_describe : (id : String) → Keeps Q (describe env id)
  strong_describe id = describe-Keeps env Q c.strong id

  after_exercise-Keeps : (id : String) → Keeps Q (after_exercise env id)
  unfolding after_exercise
  after_exercise-Keeps id = Keeps-bind _ _ (Keeps-gets _) (λ old.
      Keeps-bind _ _ (Keeps-attempt _ (search (keeps_rules, strong_describe) depth 20))
        (λ both. Keeps-case both _ _ (strong_rollback _) (λ p. verified_states-Keeps p.0 p.1 id)))

  after_verdict :
      (id : String) (why : Option String) (s : Engine W)
      → Holds (Verdict env c why) s
      → Holds P (case_option why (after_exercise env id) (λ reason. rollback env reason) s).1
  after_verdict id none s h = c.weaken _ _ ((after_exercise-Keeps id).at s h)
  after_verdict id (some why) s h = (rollback-Keeps env P c.base why).at s h

  do_verify-Keeps : Keeps P (do_verify env)
  unfolding do_verify
  do_verify-Keeps =
      let stop = λ (r : String). halt-Keeps env P c.base r false in
      Keeps-bind _ _ (Keeps-gets _) (λ staged. Keeps-bind _ _ (Keeps-gets _) (λ new.
        Keeps-case staged _ _ (stop _) (λ value. Keeps-case new _ _ (stop _) (λ id.
          Keeps-bind-Yields (Verdict env c) (exercise env value) _ (exercise-Yields env c value)
            (after_verdict id)))))

  -- The refuse list stands against the revocation of an old credential whose replacement is not
  -- verified.
  deny_unverified : (r : Rule) × (deny env revoke_fly_deploy_token "old" false false ≡ some r)
  unfolding deny is_revoke
  deny_unverified = elim (Option-cases (deny env revoke_fly_deploy_token "old" false false)) [
    | inr found ↦ found
    | inl granted ↦
        let g =
          (refuse-IsGranted env.patterns
              (action_of revoke_fly_deploy_token env.scope "old" false false)).0
            granted in
        elim g.replaced [
          | inl kept ↦ cc kept
          | inr (role, old) ↦ elim old [ inl other ↦ cc other | inr replaced ↦ cc replaced ]
        ]
  ]

  refused_revoke-Keeps : (id : String) → Keeps P (revoke_credential env id "old" false)
  unfolding revoke_credential revoke_and_confirm
  refused_revoke-Keeps id =
      let (r, e) = deny_unverified in
      let look = λ (i : String). describe-Keeps env P c.base i in
      rw (e, revoke_and_confirm) (search (keeps_rules, look) depth 20)

  revoke_then : (old : String) (b : Bool) → M W State
  revoke_then old b = do err ← revoke_credential env old "old" b; old_is_revoked env err

  Replaced : Bool → Predicate
  Replaced b es cs = if b then Q es cs else P es cs

  replaced_at :
      (b : Bool) (es : List Entry) (cs : List Call)
      → replacement_verified es ≡ b
      → P es cs
      → Replaced b es cs
  unfolding Replaced
  replaced_at true es cs e h = c.replaced es cs h e
  replaced_at false es cs e h = h

  replaced-Yields : Yields {W = W} P Replaced (gets (λ s. replacement_verified s.journal))
  unfolding gets
  replaced-Yields = record {
    at = λ s h. replaced_at (replacement_verified s.journal) s.journal s.calls refl h;
  }

  revoke_then_at :
      (old : String) (b : Bool) (s : Engine W)
      → Holds (Replaced b) s
      → Holds P (revoke_then old b s).1
  unfolding revoke_then Replaced
  revoke_then_at old true s h = c.weaken _ _ (
      (Keeps-bind _ _ (revoke_by-Keeps env Q c.strong old "old" true (c.revoke_old old))
          (λ e. old_is_revoked-Keeps env Q c.strong e)).at
        s h)
  revoke_then_at old false s h =
      (Keeps-bind _ _ (refused_revoke-Keeps old) (λ e. old_is_revoked-Keeps env P c.base e)).at s h

  do_revoke_old-Keeps : Keeps P (do_revoke_old env)
  unfolding do_revoke_old revoke_then
  do_revoke_old-Keeps = Keeps-bind _ _ (Keeps-gets _) (λ old.
      Keeps-bind _ _ (Keeps-attempt _ (describe-Keeps env P c.base old)) (λ read.
        Keeps-case read _ _ (halt-Keeps env P c.base _ true) (λ info.
          Keeps-if _ _ _
            (Keeps-bind-Yields Replaced _ (revoke_then old) replaced-Yields (revoke_then_at old))
            (old_is_revoked-Keeps env P c.base none))))

  drive-Keeps : (n : ℕ) (s : State) → Keeps P (drive env n s)
  unfolding drive handle
  drive-Keeps zero s = Keeps-pure none
  drive-Keeps (suc n) planned = Keeps-bind _ _ (do_mint-Keeps env P c.base) (λ t. drive-Keeps n t)
  drive-Keeps (suc n) minted = Keeps-bind _ _ (do_install-Keeps env P c.base) (λ t. drive-Keeps n t)
  drive-Keeps (suc n) installed = Keeps-bind _ _ do_verify-Keeps (λ t. drive-Keeps n t)
  drive-Keeps (suc n) verified = Keeps-bind _ _ do_revoke_old-Keeps (λ t. drive-Keeps n t)
  drive-Keeps (suc n) old_revoked =
      Keeps-bind _ _ (do_done-Keeps env P c.base) (λ t. drive-Keeps n t)
  drive-Keeps (suc n) done = Keeps-pure (some done)
  drive-Keeps (suc n) rolled_back = Keeps-pure (some rolled_back)
  drive-Keeps (suc n) halted = Keeps-pure (some halted)

  run-Keeps : (s : State) → Keeps P (drive env rounds s)
  run-Keeps s = drive-Keeps rounds s

  planned_line : (f : Fields) → Keeps P (write env (transition planned f))
  planned_line f = c.write_planned f

  start_run-Keeps : (old : String) → Keeps P (start_run env old)
  unfolding start_run
  start_run-Keeps old = search (keeps_rules, planned_line, run-Keeps) depth 24

  base_describe : (id : String) → Keeps P (describe env id)
  base_describe id = describe-Keeps env P c.base id

  fresh-Keeps : Keeps P (fresh env)
  unfolding fresh
  fresh-Keeps = search (keeps_rules, base_describe, start_run-Keeps) depth 20

  note_line : (r : String) (f : Fields) → Keeps P (write env (note r f))
  note_line r f = c.base.write_plain (note r f) refl

  base_halt : (r : String) (l : Bool) → Keeps P (halt env r l)
  base_halt r l = halt-Keeps env P c.base r l

  resume_at-Keeps : (s : State) (x : Ctx) → Keeps P (resume_at env s x)
  unfolding resume_at
  resume_at-Keeps s x = search (keeps_rules, note_line, base_halt, run-Keeps) depth 20

  or_missing-Keeps : {A : Type 0} (o : Option A) → Keeps {W = W} P (or_missing o)
  or_missing-Keeps none = Keeps-raise _
  or_missing-Keeps (some a) = Keeps-pure a

  resume-Keeps : (s : State) → Keeps P (resume env s)
  unfolding resume
  resume-Keeps s = Keeps-bind _ _ (Keeps-gets _) (λ es.
      Keeps-bind _ _ (or_missing-Keeps _)
        (λ f. Keeps-bind _ _ (or_missing-Keeps _) (λ x. resume_at-Keeps s x)))

  -- A call of `rotate`, however it ends, keeps the invariant.
  pub rotate-Keeps : (lock_held : Bool) → Keeps P (rotate env lock_held)
  unfolding rotate locked_rotate
  rotate-Keeps lock_held = search (keeps_rules, fresh-Keeps, resume-Keeps) depth 24
