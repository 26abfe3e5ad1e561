-- ===== src/Rotation/Engine.antt =====
-- The state and the actions of the rotation engine, tools/deployment_agent/rotation.py, for one target.
-- A provider call, a journal line and a stage file are one action each, and the process may die before
-- any of them: `life` is the number of actions it still makes. The provider, which other people use
-- too, is any record `Env` of functions on its world; its regular expressions, hashes and texts of
-- secrets are verdicts of that record. `calls` is a record of what was asked, for the statements.
pub mod Keeps
pub mod Kept
pub mod Certified
pub mod Handlers
pub mod Steps
pub mod Rotate
pub mod Walk
pub mod Lines
pub mod Safe
pub mod Clear
pub mod Reach
pub mod Gives
pub mod Ends
pub mod Inert
pub mod Cleared
use field_platform.Prelude.{
  ℕ, zero, suc, String, Bool, true, false, Option, none, some, List, [], ◌∷◌, if◌then◌else◌,
}
use field_platform.Rotation.{State, planned}
use field_platform.Rotation.Journal.{
  Fields, Entry, transition, note, halt_cleared, Appended, ok, secret_error, journal_error,
  illegal_transition, append,
}
use field_platform.Rotation.Refuse.{Patterns}

pub record CredInfo : Type 0 where
  pub target : String
  pub state : String
  pub revoked_by : Option String
  pub ttl_days : Option ℕ
  pub label : Option String

-- What `verify` answers: True, False, anything else.
pub data Answer : Type 0 where
  yes_answer no_answer garbage : Answer

-- The bytes the consumer holds: a text, or bytes that are none.
pub data Installed : Type 0 where
  text : String → Installed
  undecodable : Installed

-- What becomes of a line: it is on the disk, it could not be written, or it stands in the file and the
-- `fsync` behind it has failed.
pub data Disk : Type 0 where
  synced full unsynced : Disk

-- The provider and what surrounds the engine. `none` is a ProviderError: the call raised, or its
-- answer has the wrong type.
pub record Env (W : Type 0) : Type 0 where
  pub current : W → Option String × W
  pub list_credentials : W → Option (List String) × W
  pub mint : ℕ → String → W → Option (String × String) × W
  pub describe : String → W → Option CredInfo × W
  pub read_installed : W → Option Installed × W
  pub install : String → W → Option (Unit {0}) × W
  pub verify : String → W → Option Answer × W
  pub revoke : String → W → Option (Unit {0}) × W
  pub run_id : W → Option String × W
  pub disk : W → Disk × W
  pub is_clean : List String → Entry → Bool
  pub is_safe : List String → String → Bool
  pub hashed : String → String
  pub is_hashed : String → Bool
  pub bogus : String → String
  pub stamp : String → String
  pub patterns : Patterns
  pub agent : String
  pub scope : List String
  pub target : String
  pub ttl_days : ℕ
  pub killed : Bool

-- `_Ctx`
pub record Ctx : Type 0 where
  pub run_id : String
  pub old : String
  pub ttl_days : ℕ
  pub snapshot : List String
  pub new : Option String
  pub resuming : Bool
  pub reason : String

-- A new run, an answer of the verifier to the bogus and to the staged credential, a revocation.
pub data Call : Type 0 where
  started : Call
  controlled verified : Answer → Call
  revoked : (cred_id role : String) → Call

pub record Engine (W : Type 0) : Type 0 where
  pub world : W
  pub life : ℕ
  pub journal : List Entry
  pub staged_new : Option String
  pub staged_old : Option String
  pub secrets : List String
  pub ctx : Ctx
  pub calls : List Call

-- `died` is the end of the process; the others are exceptions.
pub data Fault : Type 0 where
  died provider_error secret_refused journal_refused io_failed halt_write_failed missing_field :
      Fault

pub data Exit (A : Type 0) : Type 0 where
  returned : A → Exit A
  raised : Fault → Exit A

abbrev pub M : Type 0 → Type 0 → Type 0
M W A = Engine W → Exit A × Engine W

module _ {W A : Type 0} where
  unfoldable pub pure : A → M W A
  pure a s = (returned a, s)

  unfoldable pub raise : Fault → M W A
  raise f s = (raised f, s)

  unfoldable pub gets : (Engine W → A) → M W A
  gets f s = (returned (f s), s)

  abbrev pub act : ℕ → (Engine W → Exit A × Engine W) → M W A
  act zero f s = (raised died, s)
  act (suc n) f s = f (record s { life = n })

  -- One action of the process.
  unfoldable pub action : (Engine W → Exit A × Engine W) → M W A
  action f s = act s.life f s

module _ {W A B : Type 0} where
  abbrev pub continue : Exit A → (A → M W B) → M W B
  continue (returned a) f s = f a s
  continue (raised x) f s = (raised x, s)

  infixl 10 ◌>>=◌ ◌>>◌
  unfoldable pub ◌>>=◌ : M W A → (A → M W B) → M W B
  ◌>>=◌ m f s = let (r, s') = m s in continue r f s'

  abbrev pub ◌>>◌ : M W A → M W B → M W B
  m >> n = m >>= λ _. n

  abbrev pub case_option : Option A → M W B → (A → M W B) → M W B
  case_option none m f = m
  case_option (some a) m f = f a

module _ {W A : Type 0} where
  -- `try: … except ProviderError`
  abbrev pub provider_or_none : Exit A × Engine W → Exit (Option A) × Engine W
  provider_or_none (returned a, s) = (returned (some a), s)
  provider_or_none (raised provider_error, s) = (returned none, s)
  provider_or_none (raised x, s) = (raised x, s)

  unfoldable pub attempt : M W A → M W (Option A)
  attempt m s = provider_or_none (m s)

  abbrev pub live_or_none : Exit A × Engine W → Exit (Option A) × Engine W
  live_or_none (returned a, s) = (returned (some a), s)
  live_or_none (raised died, s) = (raised died, s)
  live_or_none (raised x, s) = (returned none, s)

  -- `try: … except Exception`
  unfoldable pub attempt_any : M W A → M W (Option A)
  attempt_any m s = live_or_none (m s)

  -- `except JournalSecretError: continue`, `except OSError: break`, of `_halt`
  abbrev pub next_attempt : Exit A × Engine W → M W A → Exit A × Engine W
  next_attempt (raised secret_refused, s) n = n s
  next_attempt (raised io_failed, s) n = (raised halt_write_failed, s)
  next_attempt (r, s) n = (r, s)

  unfoldable pub or_next : M W A → M W A → M W A
  or_next m n s = next_attempt (m s) n

  -- A provider call.
  abbrev pub answered : Option A × W → Engine W → Exit A × Engine W
  answered (none, w) s = (raised provider_error, record s { world = w })
  answered (some a, w) s = (returned a, record s { world = w })

  unfoldable pub ask : (W → Option A × W) → M W A
  unfolding action
  ask f = action λ s. answered (f s.world) s

abbrev pub mark : Entry → List Call → List Call
mark (transition planned f) calls = started ∷ calls
mark _ calls = calls

module _ {W : Type 0} where
  unfoldable pub set_new : Option String → M W (Unit {0})
  set_new id s = (returned tt, record s { ctx = record s.ctx { new = id } })

  unfoldable pub set_reason : String → M W (Unit {0})
  set_reason reason s = (returned tt, record s { ctx = record s.ctx { reason = reason } })

  unfoldable pub set_ctx : Ctx → M W (Unit {0})
  set_ctx c s = (returned tt, record s { ctx = c })

  unfoldable pub add_secret : String → M W (Unit {0})
  add_secret secret s = (returned tt, record s { secrets = secret ∷ s.secrets })

  -- The stage files, written whole or not at all.
  unfoldable pub stage_new : Option String → M W (Unit {0})
  unfolding action
  stage_new value = action λ s. (returned tt, record s { staged_new = value })

  unfoldable pub stage_old : Option String → M W (Unit {0})
  unfolding action
  stage_old value = action λ s. (returned tt, record s { staged_old = value })

  -- Both files are deleted.
  unfoldable pub cleanup : M W (Unit {0})
  unfolding stage_new stage_old ◌>>=◌
  cleanup = do stage_new none; stage_old none

  unfoldable pub verify_control : Env W → String → M W Answer
  unfolding ask ◌>>=◌
  verify_control env staged = do
    a ← ask (env.verify (env.bogus staged))
    λ s. (returned a, record s { calls = controlled a ∷ s.calls })

  unfoldable pub verify_staged : Env W → String → M W Answer
  unfolding ask ◌>>=◌
  verify_staged env staged = do
    a ← ask (env.verify staged)
    λ s. (returned a, record s { calls = verified a ∷ s.calls })

  unfoldable pub revoke_call : Env W → (cred_id role : String) → M W (Unit {0})
  unfolding action
  revoke_call env id role =
      action λ s. answered (env.revoke id s.world) (record s { calls = revoked id role ∷ s.calls })

  abbrev pub landed : Disk → Entry → List Entry → Engine W → Exit (Unit {0}) × Engine W
  landed synced e es s = (returned tt, record s { journal = es; calls = mark e s.calls })
  landed full e es s = (raised io_failed, s)
  landed unsynced e es s = (raised io_failed, record s { journal = es; calls = mark e s.calls })

  abbrev pub written : Env W → Entry → Appended → Engine W → Exit (Unit {0}) × Engine W
  written env e (ok es) s =
      let (disk, w) = env.disk s.world in landed disk e es (record s { world = w })
  written env e secret_error s = (raised secret_refused, s)
  written env e journal_error s = (raised journal_refused, s)
  written env e illegal_transition s = (raised journal_refused, s)

  -- `Journal.append`
  unfoldable pub write : Env W → Entry → M W (Unit {0})
  unfolding action append
  write env e = action λ s. written env e (append (env.is_clean s.secrets e) e s.journal) s
