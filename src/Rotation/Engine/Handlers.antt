-- ===== src/Rotation/Engine/Handlers.antt =====
-- The handlers of rotation.py: `_sweep`, `_do_mint`, `_do_install`, `_do_verify`, `_rollback`,
-- `_do_revoke_old`, `_do_done`, and what they share. A reason is its fixed part.
use field_platform.Prelude.{
  ℕ, String, Bool, true, false, ◌||◌, not, Option, none, some, List, [], ◌∷◌, if◌then◌else◌, str_eq,
  elem_of, ◌==◌,
}
use field_platform.Rotation.{State, minted, verified, old_revoked, rolled_back, halted}
use field_platform.Rotation.Journal.{Fields, Entry, transition, note, last_transition}
use field_platform.Rotation.Refuse.{Action, ActionKind, revoke_fly_deploy_token, Rule, refuse}
use field_platform.Rotation.Engine.{
  CredInfo, Answer, yes_answer, no_answer, Installed, text, Env, Ctx, Engine, M, pure, gets, ◌>>=◌,
  ◌>>◌, raise, halt_write_failed, case_option, attempt, or_next, ask, set_new, set_reason,
  add_secret, stage_new, cleanup, revoke_call, write,
}

abbrev pub no_fields : Fields
no_fields = record {
  run_id = none;
  cred_old = none;
  cred_new = none;
  reason = none;
  leaves_new_in_place = none;
  snapshot = none;
  ttl_days = none;
  ref = none;
}

abbrev pub optional : (String → String) → Option String → Option String
optional f none = none
optional f (some s) = some (f s)

-- `problem or "…"`
abbrev pub or_text : Option String → String → String
or_text none d = d
or_text (some s) d = s

abbrev pub same_text : Option String → String → Bool
same_text none t = false
same_text (some s) t = str_eq s t

abbrev pub same_number : Option ℕ → ℕ → Bool
same_number none n = false
same_number (some m) n = m == n

abbrev pub is_yes : Option Answer → Bool
is_yes (some yes_answer) = true
is_yes _ = false

abbrev pub is_no : Answer → Bool
is_no no_answer = true
is_no _ = false

abbrev pub is_state : String → CredInfo → Bool
is_state state info = str_eq info.state state

abbrev pub is_installed : String → Installed → Bool
is_installed backup (text s) = str_eq s backup
is_installed backup _ = false

-- What `_deny` asks about; a fact that is not given has its default.
abbrev pub action_of :
    ActionKind → List String → (role : String) → (replacement_verified by_human : Bool) → Action
action_of kind scope role replacement_verified by_human = record {
  kind = kind;
  scope = scope;
  sha = none;
  verified_release_sha = none;
  estate_killed = none;
  journal_pending = none;
  revoke_role = role;
  replacement_verified = replacement_verified;
  credential_revoked_by_human = by_human;
  secret_class = none;
  in_model_context = false;
  human_approval = none;
  gate_override_adr = none;
  one_way_step = false;
  one_way_step_ran = false;
  from_observed_content = false;
  command = none;
}

abbrev pub is_verified_state : Option (State × Fields) → Bool
is_verified_state (some (verified, f)) = true
is_verified_state (some (old_revoked, f)) = true
is_verified_state _ = false

-- `_replacement_verified`
unfoldable pub replacement_verified : List Entry → Bool
replacement_verified es = is_verified_state (last_transition es)

module _ {W : Type 0} (env : Env W) where
  -- `_ref`
  unfoldable pub ref : List String → String → String
  ref secrets id = if env.is_safe secrets id then id else env.hashed id

  abbrev pub fields_of : Engine W → Option String → Option Bool → Fields
  unfolding ref
  fields_of s reason leaves = record no_fields {
    run_id = some s.ctx.run_id;
    cred_old = some (ref s.secrets s.ctx.old);
    cred_new = optional (ref s.secrets) s.ctx.new;
    reason = reason;
    leaves_new_in_place = leaves;
  }

  unfoldable pub step_to : State → Option String → Option Bool → M W (Unit {0})
  step_to state reason leaves = do
    f ← gets (λ s. fields_of s reason leaves)
    write env (transition state f)

  unfoldable pub write_note : String → String → M W (Unit {0})
  write_note reason id = do
    f ← gets (λ s. record no_fields { run_id = some s.ctx.run_id; ref = some (ref s.secrets id) })
    write env (note reason f)

  abbrev pub fallback_reason : String
  fallback_reason = "halted; the reason was withheld because the journal secret guard refused it"

  -- The last of the three attempts names no credential.
  unfoldable pub last_halt : Bool → M W (Unit {0})
  last_halt leaves = do
    f ← gets (λ s. record no_fields {
      run_id = some s.ctx.run_id;
      reason = some fallback_reason;
      leaves_new_in_place = some leaves;
    })
    write env (transition halted f)

  -- `_halt`: three attempts, the later ones with less of the reason.
  unfoldable pub halt : String → Bool → M W State
  halt reason leaves = do
    set_reason reason
    or_next (step_to halted (some reason) (some leaves)) (do
      set_reason fallback_reason
      or_next (step_to halted (some fallback_reason) (some leaves))
          (or_next (last_halt leaves) (raise halt_write_failed)))
    pure halted

  unfoldable pub finish_rolled_back : String → M W State
  finish_rolled_back reason = do
    set_reason reason
    step_to rolled_back (some reason) none
    cleanup
    pure rolled_back

  unfoldable pub describe : String → M W CredInfo
  describe id = ask (env.describe id)

  -- `_deny`
  unfoldable pub deny : ActionKind → String → (replaced by_human : Bool) → Option Rule
  deny kind role replaced by_human =
      refuse env.patterns (action_of kind env.scope role replaced by_human)

  -- The body of the `try` of `_revoke`: nothing, or the reason.
  unfoldable pub revoke_and_confirm : (id role : String) → Bool → M W (Option String)
  revoke_and_confirm id role replaced = do
    info ← describe id
    if is_state "revoked" info
        then pure none
        else case_option (deny revoke_fly_deploy_token role replaced false)
            (do
              revoke_call env id role
              again ← describe id
              pure (
                  if is_state "revoked" again
                  then none
                  else some "provider did not confirm the revoke"))
            (λ rule. pure (some "refused"))

  -- `_revoke`
  unfoldable pub revoke_credential : (id role : String) → Bool → M W (Option String)
  revoke_credential id role replaced = do
    answer ← attempt (revoke_and_confirm id role replaced)
    case_option answer (pure (some "provider error")) (λ r. pure r)

  -- `self._revoke(ctx, ctx.new, "new_failed") if ctx.new else None`
  unfoldable pub revoke_new : M W (Option String)
  revoke_new = do
    new ← gets (λ s. s.ctx.new)
    case_option new (pure none) (λ id. revoke_credential id "new_failed" false)

  -- Halt if the revocation has failed, roll back otherwise.
  unfoldable pub after_revoke : Option String → String → String → M W State
  after_revoke err halt_reason reason =
      case_option err (finish_rolled_back reason) (λ e. halt halt_reason false)

  -- The treatment of one active credential that is not to be kept.
  unfoldable pub sweep_active : String → CredInfo → Option String → M W (Option String)
  sweep_active id info problem = do
    c ← gets (λ s. s.ctx)
    if not (same_text info.label (env.stamp c.run_id))
        then (do
          write_note "unknown credential not minted by this run; left untouched" id
          pure (some (or_text problem "unknown credential(s) exist")))
        else (do
          err ← revoke_credential id "orphan" false
          case_option err
              (do write_note "swept an orphan minted by an interrupted attempt" id; pure problem)
              (λ e. do
                set_new (some id)
                write_note "orphan minted by this run could not be revoked" id
                pure (some "orphan credential minted by this run could not be revoked")))

  unfoldable pub sweep_one : String → Option String → M W (Option String)
  sweep_one id problem = do
    c ← gets (λ s. s.ctx)
    if elem_of id c.snapshot || str_eq id c.old then pure problem else (do
      info ← describe id
      if is_state "active" info then sweep_active id info problem else pure problem)

  unfoldable pub sweep_all : List String → Option String → M W (Option String)
  sweep_all [] problem = pure problem
  sweep_all (id ∷ ids) problem = do next ← sweep_one id problem; sweep_all ids next

  -- `_sweep`
  unfoldable pub sweep : M W (Option String)
  sweep = do
    result ← attempt (do ids ← ask env.list_credentials; sweep_all ids none)
    case_option result (pure (some "provider error while sweeping"))
        (λ problem. case_option problem (do stage_new none; pure none) (λ p. pure (some p)))

  abbrev pub differs : Ctx → CredInfo → Bool
  differs c info =
      not (str_eq info.target env.target)
      || (not (is_state "active" info)
          || (not (same_number info.ttl_days c.ttl_days)
              || not (same_text info.label (env.stamp c.run_id))))

  -- The part of `_do_mint` behind the mint.
  unfoldable pub minted_credential : String → String → M W State
  minted_credential id secret = do
    add_secret secret
    set_new (some id)
    secrets ← gets (λ s. s.secrets)
    if not (str_eq (ref secrets id) id)
        then (do
          err ← revoke_credential id "new_failed" false
          halt "provider id is not a safe handle" false)
        else (do
          stage_new (some secret)
          read ← attempt (describe id)
          case_option read
              (do
                err ← revoke_credential id "new_failed" false
                after_revoke err "minted credential could not be read back"
                    "minted credential could not be read back; revoked")
              (λ info. do
                c ← gets (λ s. s.ctx)
                if differs c info
                    then (do
                      err ← revoke_credential id "new_failed" false
                      after_revoke err "minted credential differs from the request"
                          "minted credential differs from the request; revoked")
                    else (do step_to minted none none; pure minted)))

  unfoldable pub mint_new : M W State
  mint_new = do
    c ← gets (λ s. s.ctx)
    result ← attempt (ask (env.mint c.ttl_days (env.stamp c.run_id)))
    case_option result
        (do
          problem ← sweep
          case_option problem (finish_rolled_back "mint failed; nothing installed")
              (λ p. halt p false))
        (λ (id, secret). minted_credential id secret)

  -- `_do_mint`
  unfoldable pub do_mint : M W State
  do_mint = do
    c ← gets (λ s. s.ctx)
    if c.resuming
        then (do problem ← sweep; case_option problem mint_new (λ p. halt p false))
        else mint_new
