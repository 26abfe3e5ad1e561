-- ===== src/Rotation/Engine/Rotate.antt =====
-- `rotate`, `_locked`, `_fresh`, `_resume`, `_drive` and `clear_halt` of rotation.py.
use field_platform.Prelude.{
  ℕ, zero, suc, String, Bool, true, false, ◌||◌, Option, none, some, List, [], ◌∷◌, if◌then◌else◌,
  str_eq,
}
use field_platform.Rotation.{
  State, planned, minted, installed, verified, old_revoked, done, rolled_back, halted, same_state,
}
use field_platform.Rotation.Journal.{Fields, Entry, transition, note, halt_cleared, pending}
use field_platform.Rotation.Refuse.{
  ActionKind, mint_fly_deploy_token, write_github_env_secret, revoke_fly_deploy_token,
}
use field_platform.Rotation.Engine.{
  Env, Ctx, missing_field, M, pure, raise, gets, ◌>>=◌, ◌>>◌, case_option, ask, set_ctx, cleanup,
  write,
}
use field_platform.Rotation.Engine.Handlers.{no_fields, deny, is_state, halt, describe, do_mint}
use field_platform.Rotation.Engine.Steps.{do_install, do_verify, do_revoke_old, do_done}

pub data Outcome : Type 0 where
  -- The last one is the model's: the rounds of `drive` were not enough.
  refused locked out_of_rounds : Outcome
  ended : State → Outcome

-- The last `planned` line.
unfoldable pub last_planned : List Entry → Option Fields
last_planned [] = none
last_planned (e ∷ es) = elim (last_planned es) [
  | some f ↦ some f
  | none ↦ elim e [
    | transition s f ↦ (if same_state s planned then some f else none)
    | note r f ↦ none
    | halt_cleared r ↦ none
  ]
]

abbrev pub same_run : Option String → String → Bool
same_run none id = false
same_run (some r) id = str_eq r id

abbrev pub or_old : Option String → Option String → Option String
or_old none old = old
or_old (some id) old = some id

-- The last new credential that the run has journaled.
unfoldable pub journaled_new : String → Option String → List Entry → Option String
journaled_new run found [] = found
journaled_new run found (transition s f ∷ es) =
    journaled_new run (if same_run f.run_id run then or_old f.cred_new found else found) es
journaled_new run found (e ∷ es) = journaled_new run found es

abbrev pub or_missing : {W A : Type 0} → Option A → M W A
or_missing none = raise missing_field
or_missing (some a) = pure a

abbrev pub name_of : State → String
name_of planned = "resumed at planned"
name_of minted = "resumed at minted"
name_of installed = "resumed at installed"
name_of verified = "resumed at verified"
name_of old_revoked = "resumed at old_revoked"
name_of done = "resumed at done"
name_of rolled_back = "resumed at rolled_back"
name_of halted = "resumed at halted"

-- Six rounds are enough: there are five handlers, and each moves on.
abbrev pub rounds : ℕ
rounds = 6

abbrev pub ended_at : Option State → Outcome
ended_at none = out_of_rounds
ended_at (some state) = ended state

module _ {W : Type 0} (env : Env W) where
  -- `handlers[state](j, ctx)`; a state with no handler ends the loop.
  unfoldable pub handle : State → Option (M W State)
  handle planned = some (do_mint env)
  handle minted = some (do_install env)
  handle installed = some (do_verify env)
  handle verified = some (do_revoke_old env)
  handle old_revoked = some (do_done env)
  handle _ = none

  -- The loop of `_drive`, with the number of rounds that are left; `none` means that none is.
  unfoldable pub drive : ℕ → State → M W (Option State)
  drive zero state = pure none
  drive (suc n) state = elim (handle state) [
    | none ↦ pure (some state)
    | some m ↦ m >>= λ next. drive n next
  ]

  unfoldable pub denied : ActionKind → (replaced by_human : Bool) → Bool
  denied kind replaced by_human = elim (deny env kind "old" replaced by_human) [
    | none ↦ false
    | some rule ↦ true
  ]

  unfoldable pub start_run : String → M W Outcome
  start_run old = do
    run ← ask env.run_id
    snapshot ← ask env.list_credentials
    write env (
        transition planned (record no_fields {
          run_id = some run;
          cred_old = some old;
          snapshot = some snapshot;
          ttl_days = some env.ttl_days;
        }))
    set_ctx (record {
      run_id = run;
      old = old;
      ttl_days = env.ttl_days;
      snapshot = snapshot;
      new = none;
      resuming = false;
      reason = "";
    })
    state ← drive rounds planned
    pure (ended_at state)

  -- `_fresh`
  unfoldable pub fresh : M W Outcome
  fresh =
      if denied mint_fly_deploy_token false false
        || (denied write_github_env_secret false false || denied revoke_fly_deploy_token true false)
      then pure refused
      else (do
        old ← ask env.current
        info ← describe env old
        if is_state "revoked" info then pure refused else start_run old)

  -- What `_resume` reads of the journal: the run as it was planned, and its new credential.
  unfoldable pub resumed_ctx : Fields → List Entry → Option Ctx
  resumed_ctx f es = elim f.run_id [
    | none ↦ none
    | some run ↦ elim f.cred_old [
      | none ↦ none
      | some old ↦ elim f.ttl_days [
        | none ↦ none
        | some days ↦ elim f.snapshot [
          | none ↦ none
          | some snapshot ↦ some (record {
            run_id = run;
            old = old;
            ttl_days = days;
            snapshot = snapshot;
            new = journaled_new run none es;
            resuming = true;
            reason = "";
          })
        ]
      ]
    ]
  ]

  abbrev pub is_one_way : Option String → Bool
  is_one_way none = false
  is_one_way (some id) = env.is_hashed id

  unfoldable pub resume_at : State → Ctx → M W Outcome
  resume_at state c = do
    set_ctx c
    write env (note (name_of state) (record no_fields { run_id = some c.run_id }))
    if is_one_way c.new
        then (do
          end ← halt env "the journaled credential id is a one-way hashed handle" false
          pure (ended end))
        else (do end ← drive rounds state; pure (ended_at end))

  -- `_resume`
  unfoldable pub resume : State → M W Outcome
  resume state = do
    es ← gets (λ s. s.journal)
    f ← or_missing (last_planned es)
    c ← or_missing (resumed_ctx f es)
    resume_at state c

  -- `_locked`
  unfoldable pub locked_rotate : M W Outcome
  locked_rotate = if env.killed then pure refused else (do
    pend ← gets (λ s. pending s.journal)
    case_option pend (do cleanup; fresh)
        (λ (state, f). if same_state state halted then pure (ended halted) else resume state))

  -- `rotate`: whether the lock is held by another is an argument.
  unfoldable pub rotate : Bool → M W Outcome
  rotate lock_held = if lock_held then pure locked else locked_rotate
