-- ===== src/Rotation/Refuse/Kinds.antt =====
-- The kinds of a rotation, and that no rule on another kind speaks of them.
use field_platform.Prelude.{Bool, true, false, ◌≡◌, refl, elem_of}
use field_platform.Rotation.Refuse.{
  value, adr_scope, is_delegation, is_own_governance, is_secret_exposure, is_chain_key,
  is_backup_or_destructive, is_git, is_one_way, is_estate_rotation, is_t4_credential,
  is_gate_override, is_auto_rollback, ActionKind, mint_fly_deploy_token, revoke_fly_deploy_token,
  write_github_env_secret, run_estate_deploy, run_estate_canary, rotate_model_key_reference,
  mint_delegation_token, edit_delegation_token, widen_delegation_scope, edit_doa_roster,
  edit_manifest, edit_spend_cap, edit_kill_switch, disable_kill_switch, read_secret, print_secret,
  log_secret, transmit_secret, rotate_estate_secret, rotate_ledger_key, rotate_attest_key,
  rotate_caller_key, skip_backup, delete_backup, shorten_backup, skip_rollback_step,
  docker_system_prune, docker_image_prune, docker_volume_prune, fly_apps_destroy, delete_volume,
  create_t4_credential, override_gate, git_push, git_force_push, git_rewrite_history,
  touch_plugin_repo, restore_data, registry_migration, governor_migration, auto_rollback,
  run_command,
}

abbrev pub is_rotation : ActionKind → Bool
is_rotation mint_fly_deploy_token = true
is_rotation revoke_fly_deploy_token = true
is_rotation write_github_env_secret = true
is_rotation run_estate_deploy = true
is_rotation run_estate_canary = true
is_rotation rotate_model_key_reference = true
is_rotation _ = false

-- The ceiling is the list of their texts.
pub value-is_rotation : (k : ActionKind) → elem_of (value k) adr_scope ≡ is_rotation k
unfolding value
value-is_rotation mint_fly_deploy_token = refl
value-is_rotation revoke_fly_deploy_token = refl
value-is_rotation write_github_env_secret = refl
value-is_rotation run_estate_deploy = refl
value-is_rotation run_estate_canary = refl
value-is_rotation rotate_model_key_reference = refl
value-is_rotation mint_delegation_token = refl
value-is_rotation edit_delegation_token = refl
value-is_rotation widen_delegation_scope = refl
value-is_rotation edit_doa_roster = refl
value-is_rotation edit_manifest = refl
value-is_rotation edit_spend_cap = refl
value-is_rotation edit_kill_switch = refl
value-is_rotation disable_kill_switch = refl
value-is_rotation read_secret = refl
value-is_rotation print_secret = refl
value-is_rotation log_secret = refl
value-is_rotation transmit_secret = refl
value-is_rotation rotate_estate_secret = refl
value-is_rotation rotate_ledger_key = refl
value-is_rotation rotate_attest_key = refl
value-is_rotation rotate_caller_key = refl
value-is_rotation skip_backup = refl
value-is_rotation delete_backup = refl
value-is_rotation shorten_backup = refl
value-is_rotation skip_rollback_step = refl
value-is_rotation docker_system_prune = refl
value-is_rotation docker_image_prune = refl
value-is_rotation docker_volume_prune = refl
value-is_rotation fly_apps_destroy = refl
value-is_rotation delete_volume = refl
value-is_rotation create_t4_credential = refl
value-is_rotation override_gate = refl
value-is_rotation git_push = refl
value-is_rotation git_force_push = refl
value-is_rotation git_rewrite_history = refl
value-is_rotation touch_plugin_repo = refl
value-is_rotation restore_data = refl
value-is_rotation registry_migration = refl
value-is_rotation governor_migration = refl
value-is_rotation auto_rollback = refl
value-is_rotation run_command = refl

pub record IsPlain (k : ActionKind) : Type 0 where
  pub delegation : is_delegation k ≡ false
  pub governance : is_own_governance k ≡ false
  pub exposure : is_secret_exposure k ≡ false
  pub estate : is_estate_rotation k ≡ false
  pub chain : is_chain_key k ≡ false
  pub backup : is_backup_or_destructive k ≡ false
  pub t4 : is_t4_credential k ≡ false
  pub gate : is_gate_override k ≡ false
  pub git : is_git k ≡ false
  pub auto : is_auto_rollback k ≡ false
  pub one_way : is_one_way k ≡ false

pub is_rotation-IsPlain : (k : ActionKind) → is_rotation k ≡ true → IsPlain k
unfolding is_delegation is_own_governance is_secret_exposure is_estate_rotation is_chain_key
    is_backup_or_destructive is_t4_credential is_gate_override is_git is_auto_rollback is_one_way
is_rotation-IsPlain mint_fly_deploy_token h = record {
  delegation = refl;
  governance = refl;
  exposure = refl;
  estate = refl;
  chain = refl;
  backup = refl;
  t4 = refl;
  gate = refl;
  git = refl;
  auto = refl;
  one_way = refl;
}
is_rotation-IsPlain revoke_fly_deploy_token h = record {
  delegation = refl;
  governance = refl;
  exposure = refl;
  estate = refl;
  chain = refl;
  backup = refl;
  t4 = refl;
  gate = refl;
  git = refl;
  auto = refl;
  one_way = refl;
}
is_rotation-IsPlain write_github_env_secret h = record {
  delegation = refl;
  governance = refl;
  exposure = refl;
  estate = refl;
  chain = refl;
  backup = refl;
  t4 = refl;
  gate = refl;
  git = refl;
  auto = refl;
  one_way = refl;
}
is_rotation-IsPlain run_estate_deploy h = record {
  delegation = refl;
  governance = refl;
  exposure = refl;
  estate = refl;
  chain = refl;
  backup = refl;
  t4 = refl;
  gate = refl;
  git = refl;
  auto = refl;
  one_way = refl;
}
is_rotation-IsPlain run_estate_canary h = record {
  delegation = refl;
  governance = refl;
  exposure = refl;
  estate = refl;
  chain = refl;
  backup = refl;
  t4 = refl;
  gate = refl;
  git = refl;
  auto = refl;
  one_way = refl;
}
is_rotation-IsPlain rotate_model_key_reference h = record {
  delegation = refl;
  governance = refl;
  exposure = refl;
  estate = refl;
  chain = refl;
  backup = refl;
  t4 = refl;
  gate = refl;
  git = refl;
  auto = refl;
  one_way = refl;
}
is_rotation-IsPlain mint_delegation_token h = cc h
is_rotation-IsPlain edit_delegation_token h = cc h
is_rotation-IsPlain widen_delegation_scope h = cc h
is_rotation-IsPlain edit_doa_roster h = cc h
is_rotation-IsPlain edit_manifest h = cc h
is_rotation-IsPlain edit_spend_cap h = cc h
is_rotation-IsPlain edit_kill_switch h = cc h
is_rotation-IsPlain disable_kill_switch h = cc h
is_rotation-IsPlain read_secret h = cc h
is_rotation-IsPlain print_secret h = cc h
is_rotation-IsPlain log_secret h = cc h
is_rotation-IsPlain transmit_secret h = cc h
is_rotation-IsPlain rotate_estate_secret h = cc h
is_rotation-IsPlain rotate_ledger_key h = cc h
is_rotation-IsPlain rotate_attest_key h = cc h
is_rotation-IsPlain rotate_caller_key h = cc h
is_rotation-IsPlain skip_backup h = cc h
is_rotation-IsPlain delete_backup h = cc h
is_rotation-IsPlain shorten_backup h = cc h
is_rotation-IsPlain skip_rollback_step h = cc h
is_rotation-IsPlain docker_system_prune h = cc h
is_rotation-IsPlain docker_image_prune h = cc h
is_rotation-IsPlain docker_volume_prune h = cc h
is_rotation-IsPlain fly_apps_destroy h = cc h
is_rotation-IsPlain delete_volume h = cc h
is_rotation-IsPlain create_t4_credential h = cc h
is_rotation-IsPlain override_gate h = cc h
is_rotation-IsPlain git_push h = cc h
is_rotation-IsPlain git_force_push h = cc h
is_rotation-IsPlain git_rewrite_history h = cc h
is_rotation-IsPlain touch_plugin_repo h = cc h
is_rotation-IsPlain restore_data h = cc h
is_rotation-IsPlain registry_migration h = cc h
is_rotation-IsPlain governor_migration h = cc h
is_rotation-IsPlain auto_rollback h = cc h
is_rotation-IsPlain run_command h = cc h
