-- ===== src/Rotation/Engine/Steps.antt =====
-- The handlers behind a mint: `_do_install`, `_do_verify`, `_rollback`, `_do_revoke_old`, `_do_done`.
use field_platform.Prelude.{String, Bool, true, false, ◌&&◌, not, Option, none, some, if◌then◌else◌}
use field_platform.Rotation.{State, installed, verified, old_revoked, done}
use field_platform.Rotation.Engine.{
  CredInfo, Installed, text, Env, M, pure, gets, ◌>>=◌, ◌>>◌, case_option, attempt, attempt_any,
  ask, set_reason, stage_old, cleanup, verify_control, verify_staged,
}
use field_platform.Rotation.Engine.Handlers.{
  same_text, is_yes, is_no, is_state, is_installed, replacement_verified, step_to, halt, describe,
  revoke_credential, revoke_new, after_revoke,
}

-- `.decode("utf-8")`
abbrev pub decoded : Option Installed → Option String
decoded (some (text s)) = some s
decoded _ = none

module _ {W : Type 0} (env : Env W) where
  unfoldable pub restore : String → M W (Unit {0})
  restore backup = do
    now ← ask env.read_installed
    if is_installed backup now then pure tt else ask (env.install backup)

  unfoldable pub restored : String → M W State
  restored reason = do
    err ← revoke_new env
    after_revoke env err "old value restored but the new credential was not revoked" reason

  -- `_rollback`
  unfoldable pub rollback : String → M W State
  rollback reason = do
    read ← attempt (describe env (← gets (λ s. s.ctx.old)))
    case_option read (halt env reason false) (λ old.
        if not (is_state "active" old) then halt env reason true else (do
          backup ← gets (λ s. s.staged_old)
          case_option backup (halt env reason false) (λ value. do
            put_back ← attempt_any (restore value)
            case_option put_back (halt env reason false) (λ _. restored reason))))

  -- The part of `_do_install` behind the backup.
  unfoldable pub install_staged : String → M W State
  install_staged staged = do
    result ← attempt_any (ask (env.install staged))
    case_option result (rollback "install failed")
        (λ _. do step_to env installed none none; pure installed)

  -- `_do_install`
  unfoldable pub do_install : M W State
  do_install = do
    staged ← gets (λ s. s.staged_new)
    case_option staged
        (do
          err ← revoke_new env
          after_revoke env err "staged credential missing"
              "staged credential missing; new credential revoked")
        (λ value. do
          backup ← gets (λ s. s.staged_old)
          case_option backup
              (do
                now ← attempt (ask env.read_installed)
                case_option (decoded now)
                    (do
                      err ← revoke_new env
                      after_revoke env err "could not read the consumer's current value"
                          "could not read the consumer's current value; nothing installed; new revoked")
                    (λ current. do stage_old (some current); install_staged value))
              (λ _. install_staged value))

  -- The `try` of `_do_verify`: nothing, or why the verification fails.
  unfoldable pub exercise : String → M W (Option String)
  exercise staged = do
    result ← attempt_any (do
      control ← verify_control env staged
      if not (is_no control)
          then pure (
              some "verifier accepted a bogus credential, so it ignores the credential it is given")
          else (do
            answer ← verify_staged env staged
            pure (if is_yes (some answer) then none else some "verification failed")))
    case_option result (pure (some "verifier raised")) (λ why. pure why)

  abbrev pub is_own : CredInfo → Bool
  is_own info = same_text info.revoked_by env.agent

  -- The states of both credentials behind a verification that has passed.
  unfoldable pub verified_states : (new_info old_info : CredInfo) → String → M W State
  verified_states new_info old_info new =
      if not (is_state "active" new_info)
      then (if is_own new_info
          then rollback "new credential no longer active"
          else halt env "new credential was revoked or expired by someone else; nothing restored"
              true)
      else (if is_state "revoked" old_info && not (is_own old_info)
          then (do
            err ← revoke_credential env new "new_failed" false
            halt env "old credential was revoked by a human during the rotation" false)
          else (do step_to env verified none none; pure verified))

  unfoldable pub after_exercise : String → M W State
  after_exercise new = do
    old ← gets (λ s. s.ctx.old)
    both ← attempt (do n ← describe env new; o ← describe env old; pure (n, o))
    case_option both (rollback "state check after verification failed")
        (λ (n, o). verified_states n o new)

  -- `_do_verify`
  unfoldable pub do_verify : M W State
  do_verify = do
    staged ← gets (λ s. s.staged_new)
    new ← gets (λ s. s.ctx.new)
    case_option staged (halt env "staged credential missing at verification; escalate" false)
        (λ value.
          case_option new (halt env "staged credential missing at verification; escalate" false)
            (λ id. do
              why ← exercise value
              case_option why (after_exercise id) (λ reason. rollback reason)))

  unfoldable pub old_is_revoked : Option String → M W State
  old_is_revoked err =
      case_option err (do step_to env old_revoked none none; pure old_revoked)
        (λ e. halt env "old credential not revoked" true)

  -- `_do_revoke_old`
  unfoldable pub do_revoke_old : M W State
  do_revoke_old = do
    old ← gets (λ s. s.ctx.old)
    read ← attempt (describe env old)
    case_option read (halt env "old credential not revoked" true) (λ info.
        if is_state "active" info
        then (do
          replaced ← gets (λ s. replacement_verified s.journal)
          err ← revoke_credential env old "old" replaced
          old_is_revoked err)
        else old_is_revoked none)

  -- `_do_done`
  unfoldable pub do_done : M W State
  do_done = do
    set_reason "rotated; old credential revoked"
    step_to env done (some "rotated; old credential revoked") none
    cleanup
    pure done
