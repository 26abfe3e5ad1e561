-- ===== src/Rotation/EngineTests.antt =====
-- A small provider, a whole rotation at it, and the theorems of the engine at both.
use field_platform.Prelude.{
  ℕ, String, true, false, none, some, List, [], ◌∷◌, ◌≡◌, ◌↔◌, refl, inr, if◌then◌else◌, str_eq,
  elem_of,
}
use field_platform.Rotation.{planned, halted, done, check_transition, same_state}
use field_platform.Rotation.Journal.{
  transition, is_halted, last_transition, pending_from, pending, scan, reset, append_transition,
}
use field_platform.Rotation.Journal.Order.{IsOrdered}
use field_platform.Rotation.Refuse.{
  Action, Patterns, adr_scope, mint_fly_deploy_token, refuse, value, is_delegation,
  is_own_governance, is_chain_key, is_backup_or_destructive, is_git, is_one_way, is_deploy,
  is_t4_credential, is_gate_override, is_auto_rollback, r03_secret_exposure, is_wider,
  r13_revoke_without_replacement,
}
use field_platform.Rotation.Refuse.Granted.{IsGranted, refuse-IsGranted}
use field_platform.Rotation.Engine.{
  Env, Engine, Call, started, controlled, revoked, CredInfo, Answer, yes_answer, no_answer,
  Installed, text, Exit, returned, raised, died, pure, raise, gets, action, ◌>>=◌, attempt,
  attempt_any, or_next, ask, set_new, set_reason, set_ctx, add_secret, stage_new, stage_old,
  cleanup, verify_control, verify_staged, revoke_call, write,
}
use field_platform.Rotation.Engine
use field_platform.Rotation.Engine.Steps.{
  install_staged, do_install, exercise, verified_states, after_exercise, do_verify, old_is_revoked,
  do_revoke_old, do_done,
}
use field_platform.Rotation.Engine.Handlers.{
  no_fields, action_of, replacement_verified, ref, step_to, describe, deny, revoke_and_confirm,
  revoke_credential, minted_credential, mint_new, do_mint,
}
use field_platform.Rotation.Engine.Rotate.{
  rotate, handle, ended, drive, denied, start_run, fresh, locked_rotate,
}
use field_platform.Rotation.Engine.Clear.{clear_halt}
use field_platform.Rotation.Engine.Safe.{IsSafe}
use field_platform.Rotation.Engine.Reach.{
  Reach, begin, restart, call, Reach-IsSafe, Reach-IsOrdered,
}
use field_platform.Rotation.Engine.Gives.{Returns}
use field_platform.Rotation.Engine.Ends.{IsFinal, rotate-IsFinal}
use field_platform.Rotation.Engine.Cleared.{IsCleared, clear_halt-IsCleared}
use field_platform.Rotation.Engine.Inert.{rotate-inert}

-- The credentials that are revoked.
abbrev World : Type 0
World = List String

abbrev cred_info : String → World → CredInfo
cred_info id w = record {
  target = "estate";
  state = if elem_of id w then "revoked" else "active";
  revoked_by = if elem_of id w then some "agent" else none;
  ttl_days = some 30;
  label = some "run r1";
}

abbrev patterns : Patterns
patterns = record {
  is_sha40 = λ s. false;
  is_destructive_command = λ s. false;
  is_git_command = λ s. false;
  is_blank = λ s. false;
}

-- A provider whose verifier accepts what it is told to.
abbrev provider : (String → Answer) → Env World
provider verifier = record {
  current = λ w. (some "old", w);
  list_credentials = λ w. (some ("old" ∷ []), w);
  mint = λ days label w. (some ("new", "value2"), w);
  describe = λ id w. (some (cred_info id w), w);
  read_installed = λ w. (some (text "value1"), w);
  install = λ value w. (some tt, w);
  verify = λ value w. (some (verifier value), w);
  revoke = λ id w. (some tt, id ∷ w);
  run_id = λ w. (some "r1", w);
  disk = λ w. (Engine.synced, w);
  is_clean = λ secrets e. true;
  is_safe = λ secrets id. true;
  hashed = λ id. "id-0";
  is_hashed = λ id. false;
  bogus = λ value. "bogus";
  stamp = λ run. "run r1";
  patterns = patterns;
  agent = "agent";
  scope = adr_scope;
  target = "estate";
  ttl_days = 30;
  killed = false;
}

abbrev honest : Env World
honest = provider λ value. if str_eq value "value2" then yes_answer else no_answer

abbrev fresh_engine : ℕ → Engine World
fresh_engine life = record {
  world = [];
  life = life;
  journal = [];
  staged_new = none;
  staged_old = none;
  secrets = [];
  ctx = record {
    run_id = "";
    old = "";
    ttl_days = 0;
    snapshot = [];
    new = none;
    resuming = false;
    reason = "";
  };
  calls = [];
}

-- The whole run ends with the old credential revoked behind its acceptance.
run_done :
    ((rotate honest false (fresh_engine 100)).0 ≡ returned (ended done))
    × ((rotate honest false (fresh_engine 100)).1.calls
        ≡ revoked "old" "old" ∷ Engine.verified yes_answer ∷ controlled no_answer ∷ started ∷ [])
unfolding check_transition last_transition pending_from pending scan reset append_transition value
    is_delegation is_own_governance is_chain_key is_backup_or_destructive is_git is_one_way
    is_deploy is_t4_credential is_gate_override is_auto_rollback r03_secret_exposure is_wider
    r13_revoke_without_replacement refuse pure gets attempt attempt_any set_new set_reason set_ctx
    add_secret cleanup verify_control verify_staged revoke_call write replacement_verified ref
    step_to describe deny revoke_and_confirm revoke_credential minted_credential mint_new do_mint
    install_staged do_install exercise verified_states after_exercise do_verify old_is_revoked
    do_revoke_old do_done handle drive denied start_run fresh locked_rotate rotate
run_done = (refl, refl)

-- The process dies behind 14 actions, and the next one takes the run up.
abbrev resumed_run : Engine World
resumed_run =
    (rotate honest false
      (record (rotate honest false (fresh_engine 14)).1 { life = 100; secrets = [] })).1

Reach-resumed : Reach resumed_run
Reach-resumed = call honest false _ (
    restart (rotate honest false (fresh_engine 14)).1 _
      (call honest false (fresh_engine 14) (begin (fresh_engine 14) refl refl)) refl refl)

Reach-IsSafe_example : IsSafe resumed_run.calls
Reach-IsSafe_example = Reach-IsSafe resumed_run Reach-resumed

Reach-IsOrdered_example : IsOrdered none false resumed_run.journal
Reach-IsOrdered_example = Reach-IsOrdered resumed_run Reach-resumed

rotate-IsFinal_example : Returns IsFinal (rotate honest false (fresh_engine 100)).0
rotate-IsFinal_example = rotate-IsFinal honest false (fresh_engine 100)

handle_planned : handle honest planned ≡ some (do_mint honest)
unfolding handle
handle_planned = refl

abbrev halted_engine : Engine World
halted_engine = record (fresh_engine 100) {
  journal =
      transition planned (record no_fields { run_id = some "r1" })
      ∷ transition halted no_fields
      ∷ [];
}

halted_journal : is_halted halted_engine.journal ≡ true
unfolding is_halted pending pending_from same_state
halted_journal = refl

rotate-inert_example : (rotate honest false halted_engine).1 ≡ halted_engine
rotate-inert_example = rotate-inert honest false halted_engine (inr (inr halted_journal))

clear_halt-IsCleared_example :
    IsCleared honest "approval 1" halted_engine
      (clear_halt honest "approval 1" true halted_engine).0
      (clear_halt honest "approval 1" true halted_engine).1.journal
clear_halt-IsCleared_example = clear_halt-IsCleared honest "approval 1" true halted_engine

-- A mint inside the scope.
abbrev mint_action : Action
mint_action = action_of mint_fly_deploy_token adr_scope "" false false

mint_passes : refuse patterns mint_action ≡ none
unfolding refuse is_delegation is_own_governance r03_secret_exposure is_chain_key is_deploy
    is_backup_or_destructive is_t4_credential is_gate_override is_git is_auto_rollback is_one_way
    r13_revoke_without_replacement is_wider value
mint_passes = refl

refuse-IsGranted_example : (refuse patterns mint_action ≡ none) ↔ IsGranted patterns mint_action
refuse-IsGranted_example = refuse-IsGranted patterns mint_action
