-- ===== src/Rotation/Engine/Ends.antt =====
-- How the engine ends: the states that its handlers return, and the loop of `_drive`.
use field_platform.Prelude.{
  ℕ, zero, suc, ◌<◌, String, Bool, true, false, Option, none, some, ◌≡◌, refl, arith, subst, inl,
  inr, Option-cases,
}
use field_platform.Rotation.{
  State, planned, minted, installed, verified, old_revoked, done, rolled_back, halted, is_terminal,
  same_state, transitions, check_transition,
}
use field_platform.Rotation.Engine.{CredInfo, Env, Ctx, Engine, M, pure, ◌>>=◌}
use field_platform.Rotation.Engine.Gives.{
  Gives, Returns, Gives-pure, Gives-if, Gives-bind, Gives-bind_on, Gives-case, gives_rules,
}
use field_platform.Rotation.Engine.Handlers.{
  halt, finish_rolled_back, after_revoke, minted_credential, mint_new, do_mint,
}
use field_platform.Rotation.Engine.Steps.{
  restored, rollback, install_staged, do_install, verified_states, after_exercise, do_verify,
  old_is_revoked, do_revoke_old, do_done,
}
use field_platform.Rotation.Engine.Rotate.{
  Outcome, refused, locked, out_of_rounds, ended, handle, drive, rounds, ended_at, start_run, fresh,
  resume_at, resume, locked_rotate, rotate,
}

module _ {W : Type 0} (env : Env W) (R : State → Type 0) (h : R halted) where
  halt-Gives : (r : String) (l : Bool) → Gives R (halt env r l)
  unfolding halt
  halt-Gives r l = Gives-bind _ _ (λ u. Gives-bind _ _ (λ v. Gives-pure halted h))

  revoked-Gives : (e : Option String) → R old_revoked → Gives R (old_is_revoked env e)
  unfolding old_is_revoked
  revoked-Gives e t = search (gives_rules, halt-Gives) depth 14

  do_revoke_old-Gives : R old_revoked → Gives R (do_revoke_old env)
  unfolding do_revoke_old
  do_revoke_old-Gives t = search (gives_rules, halt-Gives, revoked-Gives) depth 14

module _ {W : Type 0} (env : Env W) (R : State → Type 0) (h : R halted) (b : R rolled_back) where
  stop : (r : String) (l : Bool) → Gives R (halt env r l)
  stop r l = halt-Gives env R h r l

  finish-Gives : (r : String) → Gives R (finish_rolled_back env r)
  unfolding finish_rolled_back
  finish-Gives r = search gives_rules depth 14

  after_revoke-Gives : (e : Option String) (x r : String) → Gives R (after_revoke env e x r)
  unfolding after_revoke
  after_revoke-Gives e x r = search (gives_rules, stop, finish-Gives) depth 14

  minted_credential-Gives : (id x : String) → R minted → Gives R (minted_credential env id x)
  unfolding minted_credential
  minted_credential-Gives id x t = search (gives_rules, stop, after_revoke-Gives) depth 24

  mint_new-Gives : R minted → Gives R (mint_new env)
  unfolding mint_new
  mint_new-Gives t = Gives-bind _ _ (λ c. Gives-bind _ _ (λ r.
      Gives-case r _ _ (Gives-bind _ _ (λ p. Gives-case p _ _ (finish-Gives _) (λ q. stop q false)))
        (λ pair. minted_credential-Gives pair.0 pair.1 t)))

  do_mint-Gives : R minted → Gives R (do_mint env)
  unfolding do_mint
  do_mint-Gives t = search (gives_rules, stop, mint_new-Gives) depth 14

  restored-Gives : (r : String) → Gives R (restored env r)
  unfolding restored
  restored-Gives r = search (gives_rules, after_revoke-Gives) depth 14

  rollback-Gives : (r : String) → Gives R (rollback env r)
  unfolding rollback
  rollback-Gives r = search (gives_rules, stop, restored-Gives) depth 20

  install_staged-Gives : (v : String) → R installed → Gives R (install_staged env v)
  unfolding install_staged
  install_staged-Gives v t = search (gives_rules, rollback-Gives) depth 14

  do_install-Gives : R installed → Gives R (do_install env)
  unfolding do_install
  do_install-Gives t = search (gives_rules, after_revoke-Gives, install_staged-Gives) depth 20

  verified_states-Gives :
      (n o : CredInfo) (id : String) → R verified → Gives R (verified_states env n o id)
  unfolding verified_states
  verified_states-Gives n o id t = search (gives_rules, stop, rollback-Gives) depth 20

  after_exercise-Gives : (id : String) → R verified → Gives R (after_exercise env id)
  unfolding after_exercise
  after_exercise-Gives id t = Gives-bind _ _ (λ old.
      Gives-bind _ _
        (λ both. Gives-case both _ _ (rollback-Gives _) (λ p. verified_states-Gives p.0 p.1 id t)))

  do_verify-Gives : R verified → Gives R (do_verify env)
  unfolding do_verify
  do_verify-Gives t = search (gives_rules, stop, rollback-Gives, after_exercise-Gives) depth 20

do_done-Gives : {W : Type 0} (env : Env W) (R : State → Type 0) → R done → Gives R (do_done env)
unfolding do_done
do_done-Gives env R t = search gives_rules depth 14

module _ {W : Type 0} (env : Env W) where
  -- A handler that returns, returns a state that the table of transitions allows behind its own.
  pub handle-check_transition :
      (s : State) (m : M W State)
      → handle env s ≡ some m
      → Gives (λ t. check_transition (some s) t ≡ true) m
  unfolding handle check_transition transitions same_state
  handle-check_transition planned m e =
      let same : do_mint env ≡ m = cc in subst (Gives _) same (do_mint-Gives env _ refl refl refl)
  handle-check_transition minted m e =
      let same : do_install env ≡ m = cc in
      subst (Gives _) same (do_install-Gives env _ refl refl refl)
  handle-check_transition installed m e =
      let same : do_verify env ≡ m = cc in
      subst (Gives _) same (do_verify-Gives env _ refl refl refl)
  handle-check_transition verified m e =
      let same : do_revoke_old env ≡ m = cc in
      subst (Gives _) same (do_revoke_old-Gives env _ refl refl)
  handle-check_transition old_revoked m e =
      let same : do_done env ≡ m = cc in subst (Gives _) same (do_done-Gives env _ refl)
  handle-check_transition s m e = cc

  none_terminal : (s : State) → handle env s ≡ none → is_terminal s ≡ true
  unfolding handle is_terminal transitions
  none_terminal s e = ground arith

-- How many handlers may still run.
abbrev rank : State → ℕ
rank planned = 5
rank minted = 4
rank installed = 3
rank verified = 2
rank old_revoked = 1
rank _ = 0

rank-check_transition : (s t : State) → check_transition (some s) t ≡ true → rank t < rank s
unfolding check_transition transitions same_state
rank-check_transition s t e = ground arith

abbrev Ended : Option State → Type 0
Ended none = ⊥
Ended (some s) = is_terminal s ≡ true

module _ {W : Type 0} (env : Env W) where
  drive-Gives : (n : ℕ) (s : State) → rank s < n → Gives Ended (drive env n s)
  unfolding drive
  drive-Gives zero s l = absurd (omega arith)
  drive-Gives (suc n) s l = elim (Option-cases (handle env s)) [
    | inl e ↦ rw (e, drive) (Gives-pure (some s) (none_terminal env s e))
    | inr (m, e) ↦
        rw (e, drive)
          (Gives-bind_on _ m _ (handle-check_transition env s m e)
            (λ t step. drive-Gives n t (omega (arith, rank-check_transition s t step))))
  ]

-- No outcome but a refusal, a held lock and a terminal state.
abbrev pub IsFinal : Outcome → Type 0
IsFinal refused = Unit
IsFinal locked = Unit
IsFinal out_of_rounds = ⊥
IsFinal (ended s) = is_terminal s ≡ true

ended_at-IsFinal : (o : Option State) → Ended o → IsFinal (ended_at o)
ended_at-IsFinal none h = h
ended_at-IsFinal (some s) h = h

low_rank : (s : State) → rank s < rounds
low_rank s = ground arith

halted_terminal : is_terminal halted ≡ true
unfolding is_terminal transitions
halted_terminal = refl

module _ {W : Type 0} (env : Env W) where
  driven : State → M W Outcome
  driven s = do state ← drive env rounds s; pure (ended_at state)

  driven-Gives : (s : State) → Gives IsFinal (driven s)
  unfolding driven
  driven-Gives s =
      Gives-bind_on Ended _ _ (drive-Gives env rounds s (low_rank s))
        (λ o h. Gives-pure (ended_at o) (ended_at-IsFinal o h))

  start_run-Gives : (old : String) → Gives IsFinal (start_run env old)
  unfolding start_run driven
  start_run-Gives old = Gives-bind _ _ (λ run.
      Gives-bind _ _ (λ snapshot. Gives-bind _ _ (λ u. Gives-bind _ _ (λ v. driven-Gives planned))))

  fresh-Gives : Gives IsFinal (fresh env)
  unfolding fresh
  fresh-Gives = search (gives_rules, start_run-Gives) depth 20

  halt_ended-Gives :
      (r : String) (l : Bool) → Gives IsFinal (do end ← halt env r l; pure (ended end))
  halt_ended-Gives r l =
      Gives-bind_on (λ s. is_terminal s ≡ true) _ _ (halt-Gives env _ halted_terminal r l)
        (λ s h. Gives-pure (ended s) h)

  resume_at-Gives : (s : State) (c : Ctx) → Gives IsFinal (resume_at env s c)
  unfolding resume_at driven
  resume_at-Gives s c =
      Gives-bind _ _
        (λ u. Gives-bind _ _ (λ v. Gives-if _ _ _ (halt_ended-Gives _ false) (driven-Gives s)))

  resume-Gives : (s : State) → Gives IsFinal (resume env s)
  unfolding resume
  resume-Gives s =
      Gives-bind _ _ (λ es. Gives-bind _ _ (λ f. Gives-bind _ _ (λ c. resume_at-Gives s c)))

  locked_rotate-Gives : Gives IsFinal (locked_rotate env)
  unfolding locked_rotate
  locked_rotate-Gives = Gives-if _ _ _ (Gives-pure refused tt) (
      Gives-bind _ _ (λ pend.
        Gives-case pend _ _ (Gives-bind _ _ (λ u. fresh-Gives))
          (λ p. Gives-if _ _ _ (Gives-pure (ended halted) halted_terminal) (resume-Gives p.0))))

  -- The rounds of the loop are always enough: from any state of the target, a call of `rotate` that
  -- is not cut short by the death of its process or an exception ends in a refusal, a held lock or a
  -- terminal state.
  pub rotate-IsFinal :
      (lock_held : Bool) (s : Engine W) → Returns IsFinal (rotate env lock_held s).0
  unfolding rotate
  rotate-IsFinal lock_held s =
      (Gives-if lock_held (pure locked) (locked_rotate env) (Gives-pure locked tt)
          locked_rotate-Gives).from
        s
