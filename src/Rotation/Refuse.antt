-- ===== src/Rotation/Refuse.antt =====
-- The refuse list of the deployment agent, tools/deployment_agent/refuse.py, over the typed actions of
-- actions.py. The regular expressions and `str.strip` are the record `Patterns`; an action is well
-- typed, so R00 has no model.
pub mod Kinds
pub mod Granted
use field_platform.Prelude.{
  String, Bool, true, false, ◌&&◌, ◌||◌, not, Option, none, some, List, [], ◌∷◌, str_eq, elem_of,
  if◌then◌else◌,
}

pub data ActionKind : Type 0 where
  mint_fly_deploy_token revoke_fly_deploy_token write_github_env_secret run_estate_deploy :
      ActionKind
  run_estate_canary rotate_model_key_reference mint_delegation_token edit_delegation_token :
      ActionKind
  widen_delegation_scope edit_doa_roster edit_manifest edit_spend_cap edit_kill_switch : ActionKind
  disable_kill_switch read_secret print_secret log_secret transmit_secret rotate_estate_secret :
      ActionKind
  rotate_ledger_key rotate_attest_key rotate_caller_key skip_backup delete_backup shorten_backup :
      ActionKind
  skip_rollback_step docker_system_prune docker_image_prune docker_volume_prune fly_apps_destroy :
      ActionKind
  delete_volume create_t4_credential override_gate git_push git_force_push git_rewrite_history :
      ActionKind
  touch_plugin_repo restore_data registry_migration governor_migration auto_rollback run_command :
      ActionKind

unfoldable pub value : ActionKind → String
value mint_fly_deploy_token = "mint fly deploy token"
value revoke_fly_deploy_token = "revoke fly deploy token"
value write_github_env_secret = "write github env secret"
value run_estate_deploy = "run estate deploy"
value run_estate_canary = "run estate canary"
value rotate_model_key_reference = "rotate model key reference"
value mint_delegation_token = "mint delegation token for another agent"
value edit_delegation_token = "edit delegation token"
value widen_delegation_scope = "widen delegation scope"
value edit_doa_roster = "edit doa roster"
value edit_manifest = "edit manifest"
value edit_spend_cap = "edit spend cap"
value edit_kill_switch = "edit kill switch configuration"
value disable_kill_switch = "disable kill switch"
value read_secret = "read secret value"
value print_secret = "print secret value"
value log_secret = "log secret value"
value transmit_secret = "transmit secret value"
value rotate_estate_secret = "rotate estate shared secret"
value rotate_ledger_key = "rotate ledger key"
value rotate_attest_key = "rotate attest key"
value rotate_caller_key = "rotate caller key"
value skip_backup = "skip backup"
value delete_backup = "delete backup"
value shorten_backup = "shorten backup"
value skip_rollback_step = "skip rollback step"
value docker_system_prune = "docker system prune"
value docker_image_prune = "docker image prune"
value docker_volume_prune = "docker volume prune"
value fly_apps_destroy = "fly apps destroy"
value delete_volume = "delete volume"
value create_t4_credential = "create credential for t4 tool"
value override_gate = "override failed gate"
value git_push = "git push"
value git_force_push = "git force-push"
value git_rewrite_history = "git rewrite history"
value touch_plugin_repo = "touch force-field plugin repo"
value restore_data = "restore data"
value registry_migration = "registry migration"
value governor_migration = "governor migration"
value auto_rollback = "automatic rollback"
value run_command = "run shell command"

abbrev pub adr_scope : List String
adr_scope =
    "mint fly deploy token" ∷ "revoke fly deploy token" ∷ "write github env secret"
    ∷ "run estate deploy" ∷ "run estate canary" ∷ "rotate model key reference" ∷ []

abbrev pub secret_classes : List String
secret_classes = "estate_secret" ∷ "ledger_key" ∷ "attest_key" ∷ "caller_key" ∷ "model_key" ∷ []

abbrev pub chain_classes : List String
chain_classes = "ledger_key" ∷ "attest_key" ∷ "caller_key" ∷ []

abbrev pub revoke_roles : List String
revoke_roles = "old" ∷ "new_failed" ∷ "orphan" ∷ []

pub record Action : Type 0 where
  pub kind : ActionKind
  pub scope : List String
  pub sha : Option String
  pub verified_release_sha : Option String
  pub estate_killed : Option Bool
  pub journal_pending : Option Bool
  pub revoke_role : String
  pub replacement_verified : Bool
  pub credential_revoked_by_human : Bool
  pub secret_class : Option String
  pub in_model_context : Bool
  pub human_approval : Option String
  pub gate_override_adr : Option String
  pub one_way_step : Bool
  pub one_way_step_ran : Bool
  pub from_observed_content : Bool
  pub command : Option String

-- What is asked of regular expressions, on the command without its quotes, and of `str.strip`.
pub record Patterns : Type 0 where
  pub is_sha40 : String → Bool
  pub is_destructive_command : String → Bool
  pub is_git_command : String → Bool
  pub is_blank : String → Bool

unfoldable pub is_delegation : ActionKind → Bool
is_delegation mint_delegation_token = true
is_delegation edit_delegation_token = true
is_delegation widen_delegation_scope = true
is_delegation edit_doa_roster = true
is_delegation _ = false

unfoldable pub is_own_governance : ActionKind → Bool
is_own_governance edit_manifest = true
is_own_governance edit_spend_cap = true
is_own_governance edit_kill_switch = true
is_own_governance disable_kill_switch = true
is_own_governance _ = false

unfoldable pub is_secret_exposure : ActionKind → Bool
is_secret_exposure read_secret = true
is_secret_exposure print_secret = true
is_secret_exposure log_secret = true
is_secret_exposure transmit_secret = true
is_secret_exposure _ = false

unfoldable pub is_chain_key : ActionKind → Bool
is_chain_key rotate_ledger_key = true
is_chain_key rotate_attest_key = true
is_chain_key rotate_caller_key = true
is_chain_key _ = false

unfoldable pub is_backup_or_destructive : ActionKind → Bool
is_backup_or_destructive skip_backup = true
is_backup_or_destructive delete_backup = true
is_backup_or_destructive shorten_backup = true
is_backup_or_destructive skip_rollback_step = true
is_backup_or_destructive docker_system_prune = true
is_backup_or_destructive docker_image_prune = true
is_backup_or_destructive docker_volume_prune = true
is_backup_or_destructive fly_apps_destroy = true
is_backup_or_destructive delete_volume = true
is_backup_or_destructive _ = false

unfoldable pub is_git : ActionKind → Bool
is_git git_push = true
is_git git_force_push = true
is_git git_rewrite_history = true
is_git touch_plugin_repo = true
is_git _ = false

unfoldable pub is_one_way : ActionKind → Bool
is_one_way restore_data = true
is_one_way registry_migration = true
is_one_way governor_migration = true
is_one_way _ = false

unfoldable pub is_estate_rotation : ActionKind → Bool
is_estate_rotation rotate_estate_secret = true
is_estate_rotation _ = false

unfoldable pub is_deploy : ActionKind → Bool
is_deploy run_estate_deploy = true
is_deploy _ = false

unfoldable pub is_t4_credential : ActionKind → Bool
is_t4_credential create_t4_credential = true
is_t4_credential _ = false

unfoldable pub is_gate_override : ActionKind → Bool
is_gate_override override_gate = true
is_gate_override _ = false

unfoldable pub is_auto_rollback : ActionKind → Bool
is_auto_rollback auto_rollback = true
is_auto_rollback _ = false

unfoldable pub is_revoke : ActionKind → Bool
is_revoke revoke_fly_deploy_token = true
is_revoke _ = false

pub data Rule : Type 0 where
  r01 r02 r03 r04 r05 r06 r07 r08 r09 r10 r11 r12 r13 r14 r15 : Rule

abbrev pub refused_if : Bool → Rule → Option Rule
refused_if true r = some r
refused_if false r = none

-- `is not False`
abbrev pub not_false : Option Bool → Bool
not_false (some false) = false
not_false _ = true

abbrev pub is_class_in : List String → Option String → Bool
is_class_in classes none = false
is_class_in classes (some c) = elem_of c classes

-- `bool(x)` of an optional text
abbrev pub is_given : Option String → Bool
is_given none = false
is_given (some s) = not (str_eq s "")

abbrev pub same_text : Option String → String → Bool
same_text none t = false
same_text (some s) t = str_eq s t

unfoldable pub r03_secret_exposure : Action → Option Rule
unfolding is_secret_exposure is_estate_rotation
r03_secret_exposure a = if is_secret_exposure a.kind then some r03 else elim a.secret_class [
  | none ↦ none
  | some c ↦
      refused_if
        (not (elem_of c secret_classes)
          || (a.in_model_context || (str_eq c "estate_secret" || is_estate_rotation a.kind)))
        r03
]

module _ (p : Patterns) where
  unfoldable pub is_release : Action → Bool
  is_release a = elim a.sha [
    | none ↦ false
    | some sha ↦
        p.is_sha40 sha
        && same_text a.verified_release_sha sha
        && not (not_false a.estate_killed)
        && not (not_false a.journal_pending)
  ]

  unfoldable pub approved : Action → Bool
  approved a = elim a.human_approval [ none ↦ false | some id ↦ not (p.is_blank id) ]

abbrev pub commands : (String → Bool) → Option String → Bool
commands test none = false
commands test (some c) = test c

-- `a.scope - ADR_SCOPE` is not empty
unfoldable pub is_wider : List String → Bool
is_wider [] = false
is_wider (s ∷ scope) = not (elem_of s adr_scope) || is_wider scope

unfoldable pub r13_revoke_without_replacement : Action → Option Rule
unfolding is_revoke
r13_revoke_without_replacement a =
    if is_revoke a.kind
    then refused_if
        (not (elem_of a.revoke_role revoke_roles)
          || (str_eq a.revoke_role "old" && not a.replacement_verified))
        r13
    else none

-- `RULES`, in order, at one action.
abbrev pub answers : Patterns → Action → List (Option Rule)
answers p a =
    refused_if (is_delegation a.kind) r01
    ∷ refused_if (is_own_governance a.kind) r02
    ∷ r03_secret_exposure a
    ∷ refused_if (is_chain_key a.kind || is_class_in chain_classes a.secret_class) r04
    ∷ refused_if (is_deploy a.kind && not (is_release p a)) r05
    ∷ refused_if (is_backup_or_destructive a.kind || commands p.is_destructive_command a.command)
        r06
    ∷ refused_if (is_t4_credential a.kind) r07
    ∷ refused_if a.from_observed_content r08
    ∷ refused_if ((is_gate_override a.kind || is_given a.gate_override_adr) && not (approved p a))
        r09
    ∷ refused_if (is_git a.kind || commands p.is_git_command a.command) r10
    ∷ refused_if
        ((is_auto_rollback a.kind && a.one_way_step_ran)
          || ((is_one_way a.kind || a.one_way_step) && not (approved p a)))
        r11
    ∷ refused_if a.credential_revoked_by_human r12
    ∷ r13_revoke_without_replacement a
    ∷ refused_if (is_wider a.scope) r14
    ∷ refused_if (not (elem_of (value a.kind) a.scope)) r15
    ∷ []

-- The loop of `refuse`: the first rule that answers.
unfoldable pub first_of : List (Option Rule) → Option Rule
first_of [] = none
first_of (none ∷ rs) = first_of rs
first_of (some r ∷ rs) = some r

unfoldable pub refuse : Patterns → Action → Option Rule
unfolding first_of
refuse p a = first_of (answers p a)
