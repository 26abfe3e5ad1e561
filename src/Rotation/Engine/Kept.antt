-- ===== src/Rotation/Engine/Kept.antt =====
-- One walk through the handlers for every invariant of the journal and the calls: what a client has
-- to show is the record `IsKept`.
use field_platform.Prelude.{String, Bool, true, false, Option, List, [], ◌∷◌, ◌≡◌, refl, str_eq}
use field_platform.Rotation.{
  State, planned, minted, installed, verified, old_revoked, done, rolled_back, halted,
}
use field_platform.Rotation.Journal.{Fields, Entry, transition, note}
use field_platform.Rotation.Engine
use field_platform.Rotation.Engine.{
  Env, Ctx, Engine, Call, Answer, yes_answer, Exit, returned, raised, M, pure, gets, case_option,
  revoke_call, write, ◌>>=◌, ◌>>◌,
}
use field_platform.Rotation.Engine.Keeps.{
  Keeps, Keeps-pure, Keeps-gets, Keeps-bind, Keeps-case, Keeps-attempt, Keeps-ask, keeps_rules,
}
use field_platform.Rotation.Engine.Handlers.{
  step_to, write_note, last_halt, halt, finish_rolled_back, describe, revoke_and_confirm,
  revoke_credential, revoke_new, after_revoke, sweep_active, sweep_one, sweep_all, sweep,
  minted_credential, mint_new, do_mint,
}
use field_platform.Rotation.Engine.Steps.{
  restore, restored, rollback, install_staged, do_install, old_is_revoked, do_done,
}

-- A line that says neither that a run starts nor that its new credential is verified.
abbrev pub is_plain : Entry → Bool
is_plain (transition planned f) = false
is_plain (transition verified f) = false
is_plain _ = true

module _ {W : Type 0} (env : Env W) (P : List Entry → List Call → Type 0) where
  -- Lines of the journal and revocations of credentials other than the old one.
  pub record IsKept : Type 0 where
    pub write_plain : (e : Entry) → is_plain e ≡ true → Keeps P (write env e)
    pub revoke_other :
        (id role : String) → str_eq role "old" ≡ false → Keeps P (revoke_call env id role)

module _ {W : Type 0} (env : Env W) (P : List Entry → List Call → Type 0) (k : IsKept env P) where
  step_to-Keeps :
      (s : State) (r : Option String) (l : Option Bool)
      → ((f : Fields) → is_plain (transition s f) ≡ true)
      → Keeps P (step_to env s r l)
  unfolding step_to
  step_to-Keeps s r l plain =
      Keeps-bind _ _ (Keeps-gets _) (λ f. k.write_plain (transition s f) (plain f))

  note-Keeps : (r id : String) → Keeps P (write_note env r id)
  unfolding write_note
  note-Keeps r id = Keeps-bind _ _ (Keeps-gets _) (λ f. k.write_plain (note r f) refl)

  last_halt-Keeps : (l : Bool) → Keeps P (last_halt env l)
  unfolding last_halt
  last_halt-Keeps l = Keeps-bind _ _ (Keeps-gets _) (λ f. k.write_plain (transition halted f) refl)

  halt_step-Keeps : (r : Option String) (l : Option Bool) → Keeps P (step_to env halted r l)
  halt_step-Keeps r l = step_to-Keeps halted r l (λ f. refl)

  pub halt-Keeps : (r : String) (l : Bool) → Keeps P (halt env r l)
  unfolding halt
  halt-Keeps r l = search (keeps_rules, halt_step-Keeps, last_halt-Keeps) depth 14

  finish-Keeps : (r : String) → Keeps P (finish_rolled_back env r)
  unfolding finish_rolled_back
  finish-Keeps r =
      let line : (x : Option String) (l : Option Bool) → Keeps P (step_to env rolled_back x l) =
        λ x l. step_to-Keeps rolled_back x l (λ f. refl) in
      search (keeps_rules, line) depth 14

  pub describe-Keeps : (id : String) → Keeps P (describe env id)
  unfolding describe
  describe-Keeps id = Keeps-ask _

  revoke_and_confirm-Keeps :
      (id role : String) (b : Bool)
      → Keeps P (revoke_call env id role)
      → Keeps P (revoke_and_confirm env id role b)
  unfolding revoke_and_confirm
  revoke_and_confirm-Keeps id role b call = search (keeps_rules, describe-Keeps) depth 20

  pub revoke_by-Keeps :
      (id role : String) (b : Bool)
      → Keeps P (revoke_call env id role)
      → Keeps P (revoke_credential env id role b)
  unfolding revoke_credential
  revoke_by-Keeps id role b call =
      Keeps-bind _ _ (Keeps-attempt _ (revoke_and_confirm-Keeps id role b call))
        (λ answer. Keeps-case answer _ _ (Keeps-pure _) (λ r. Keeps-pure r))

  pub new_failed-Keeps :
      (id : String) (b : Bool) → Keeps P (revoke_credential env id "new_failed" b)
  new_failed-Keeps id b = revoke_by-Keeps id "new_failed" b (k.revoke_other id "new_failed" refl)

  orphan-Keeps : (id : String) (b : Bool) → Keeps P (revoke_credential env id "orphan" b)
  orphan-Keeps id b = revoke_by-Keeps id "orphan" b (k.revoke_other id "orphan" refl)

  revoke_new-Keeps : Keeps P (revoke_new env)
  unfolding revoke_new
  revoke_new-Keeps = search (keeps_rules, new_failed-Keeps) depth 14

  after_revoke-Keeps : (e : Option String) (h r : String) → Keeps P (after_revoke env e h r)
  unfolding after_revoke
  after_revoke-Keeps e h r = search (keeps_rules, halt-Keeps, finish-Keeps) depth 14

  sweep_active-Keeps :
      (id : String) (i : Engine.CredInfo) (p : Option String) → Keeps P (sweep_active env id i p)
  unfolding sweep_active
  sweep_active-Keeps id i p = search (keeps_rules, note-Keeps, orphan-Keeps) depth 20

  sweep_one-Keeps : (id : String) (p : Option String) → Keeps P (sweep_one env id p)
  unfolding sweep_one
  sweep_one-Keeps id p = search (keeps_rules, describe-Keeps, sweep_active-Keeps) depth 20

  sweep_all-Keeps : (ids : List String) (p : Option String) → Keeps P (sweep_all env ids p)
  unfolding sweep_all
  sweep_all-Keeps [] p = Keeps-pure p
  sweep_all-Keeps (id ∷ ids) p = Keeps-bind _ _ (sweep_one-Keeps id p) (λ q. sweep_all-Keeps ids q)

  sweep-Keeps : Keeps P (sweep env)
  unfolding sweep
  sweep-Keeps = search (keeps_rules, sweep_all-Keeps) depth 20

  to_minted-Keeps : (x : Option String) (l : Option Bool) → Keeps P (step_to env minted x l)
  to_minted-Keeps x l = step_to-Keeps minted x l (λ f. refl)

  minted_credential-Keeps : (id x : String) → Keeps P (minted_credential env id x)
  unfolding minted_credential
  minted_credential-Keeps id x =
      search
        (
          keeps_rules, describe-Keeps, new_failed-Keeps, halt-Keeps, after_revoke-Keeps,
          to_minted-Keeps,
        )
        depth 24

  mint_new-Keeps : Keeps P (mint_new env)
  unfolding mint_new
  mint_new-Keeps = Keeps-bind _ _ (Keeps-gets _) (λ c.
      Keeps-bind _ _ (Keeps-attempt _ (Keeps-ask _)) (λ r.
        Keeps-case r _ _
          (Keeps-bind _ _ sweep-Keeps
            (λ p. Keeps-case p _ _ (finish-Keeps _) (λ q. halt-Keeps q false)))
          (λ pair. minted_credential-Keeps pair.0 pair.1)))

  pub do_mint-Keeps : Keeps P (do_mint env)
  unfolding do_mint
  do_mint-Keeps = search (keeps_rules, sweep-Keeps, mint_new-Keeps, halt-Keeps) depth 20

  restore-Keeps : (b : String) → Keeps P (restore env b)
  unfolding restore
  restore-Keeps b = search keeps_rules depth 14

  restored-Keeps : (r : String) → Keeps P (restored env r)
  unfolding restored
  restored-Keeps r = search (keeps_rules, revoke_new-Keeps, after_revoke-Keeps) depth 14

  pub rollback-Keeps : (r : String) → Keeps P (rollback env r)
  unfolding rollback
  rollback-Keeps r =
      search (keeps_rules, describe-Keeps, halt-Keeps, restore-Keeps, restored-Keeps) depth 24

  to_installed-Keeps : (x : Option String) (l : Option Bool) → Keeps P (step_to env installed x l)
  to_installed-Keeps x l = step_to-Keeps installed x l (λ f. refl)

  install_staged-Keeps : (v : String) → Keeps P (install_staged env v)
  unfolding install_staged
  install_staged-Keeps v = search (keeps_rules, rollback-Keeps, to_installed-Keeps) depth 20

  pub do_install-Keeps : Keeps P (do_install env)
  unfolding do_install
  do_install-Keeps =
      search (keeps_rules, revoke_new-Keeps, after_revoke-Keeps, install_staged-Keeps) depth 24

  pub do_done-Keeps : Keeps P (do_done env)
  unfolding do_done
  do_done-Keeps =
      let line : (x : Option String) (l : Option Bool) → Keeps P (step_to env done x l) =
        λ x l. step_to-Keeps done x l (λ f. refl) in
      search (keeps_rules, line) depth 14

  pub old_is_revoked-Keeps : (e : Option String) → Keeps P (old_is_revoked env e)
  unfolding old_is_revoked
  old_is_revoked-Keeps e =
      let line : (x : Option String) (l : Option Bool) → Keeps P (step_to env old_revoked x l) =
        λ x l. step_to-Keeps old_revoked x l (λ f. refl) in
      search (keeps_rules, line, halt-Keeps) depth 14
