-- ===== src/Delegation/Mint.antt =====
-- The POST /tokens handler of api.py, and the audit log that it shares with the revoke handler.
-- What other services and modules answer (operator rules, registry, roster file, manifest file,
-- ledger, clock, fresh ids) is the record `MintEnv`.
pub mod Laws
use field_platform.Prelude.{
  ℕ, ◌+◌, ◌*◌, ◌-◌, String, Bool, true, false, ◌&&◌, not, Option, none, some, List, [], ◌∷◌, ◌++◌,
  leb, ltb, if◌then◌else◌,
}
use field_platform.Delegation.{DelegationToken}
use field_platform.Delegation.Doa.{GrantorRow, find, may_delegate, outside}
use field_platform.Delegation.Store.{TokenStore, save}

-- `doa_row` of the payload: the row that was checked, when the roster is armed.
pub data AuditEvent : Type 0 where
  minted : (token : DelegationToken) (doa_row : Option GrantorRow) → AuditEvent
  revoke_requested : (token_id revocation_id agent_id : String) → AuditEvent

pub record App : Type 0 where
  pub store : TokenStore
  pub ledger : List AuditEvent

-- Exactly one of `ttl_seconds` and `expires_at`.
pub data Expiry : Type 0 where
  ttl_seconds : ℕ → Expiry
  expires_at : ℕ → Expiry

pub record MintRequest : Type 0 where
  pub agent_id : String
  pub granted_by : String
  pub scope : List String
  pub expiry : Expiry

pub data RegistryAnswer : Type 0 where
  active_agent not_registered not_active unreachable : RegistryAnswer

pub data RosterConfig : Type 0 where
  off unavailable : RosterConfig
  armed : List GrantorRow → RosterConfig

-- `expiry` is None where `parse_expiry` cannot read the text.
pub record Manifest : Type 0 where
  pub scope : List String
  pub expiry : Option ℕ

pub record MintEnv : Type 0 where
  pub granted_by_check : Option Bool
  pub registry : RegistryAnswer
  pub explicitly_listed : Bool
  pub now : ℕ
  pub roster : RosterConfig
  pub manifest : Option Manifest
  pub list_bound_reach : Bool
  pub uuid4 : String
  pub ledger_reachable : Bool

pub data Refusal : Type 0 where
  operator_refused not_registered_404 not_active_409 registry_502 : Refusal
  ttl_out_of_range_422 expires_in_past_422 roster_503 : Refusal
  unknown_grantor_403 inactive_grantor_403 ledger_502 not_found_404 : Refusal
  beyond_grantor_403 outside_manifest_422 : List String → Refusal
  no_manifest_422 manifest_unparseable_422 manifest_expired_422 : Refusal
  lifetime_403 outlives_manifest_422 : Refusal

pub data Result {ℓ} (A : Type ℓ) : Type ℓ where
  ok : A → Result A
  err : Refusal → Result A

infixl 5 ◌>>=◌ ◌>>◌
abbrev pub ◌>>=◌ {ℓ κ} : {A : Type ℓ} {B : Type κ} → Result A → (A → Result B) → Result B
ok a >>= f = f a
err r >>= f = err r

abbrev pub ◌>>◌ {ℓ} : {B : Type ℓ} → Result (Unit {0}) → Result B → Result B
m >> k = m >>= λ _. k

abbrev pub refuse_if : Bool → Refusal → Result (Unit {0})
refuse_if true r = err r
refuse_if false r = ok tt

abbrev pub or_refuse {ℓ} : {A : Type ℓ} → Option A → Refusal → Result A
or_refuse none r = err r
or_refuse (some a) r = ok a

abbrev pub microsecond_day : ℕ
microsecond_day = 86400 * 1000000

-- The last instant that a datetime can hold, 9999-12-31T23:59:59.999999.
abbrev pub max_instant : ℕ
max_instant = 3652059 * microsecond_day - 1

abbrev registered : RegistryAnswer → Result (Unit {0})
registered active_agent = ok tt
registered not_registered = err not_registered_404
registered not_active = err not_active_409
registered unreachable = err registry_502

-- `req.expires_at or now + timedelta(seconds=req.ttl_seconds)`
unfoldable pub expires_of : Expiry → ℕ → Result ℕ
expires_of (expires_at t) now = ok t
expires_of (ttl_seconds n) now =
    let t = now + n * 1000000 in if ltb max_instant t then err ttl_out_of_range_422 else ok t

abbrev pub no_items : List String → Bool
no_items [] = true
no_items (s ∷ ss) = false

-- The checks behind `if configured:`; the row that passed them.
unfoldable pub doa_check :
    RosterConfig → MintRequest → Option Manifest → (now expires : ℕ) → Result (Option GrantorRow)
unfolding find may_delegate outside
doa_check off req manifest now expires = ok none
doa_check unavailable req manifest now expires = err roster_503
doa_check (armed rows) req manifest now expires = do
  row ← or_refuse (find rows req.granted_by) unknown_grantor_403
  refuse_if (not row.active) inactive_grantor_403
  refuse_if (not (no_items (may_delegate row req.scope)))
      (beyond_grantor_403 (may_delegate row req.scope))
  m ← or_refuse manifest no_manifest_422
  refuse_if (not (no_items (outside req.scope m.scope)))
      (outside_manifest_422 (outside req.scope m.scope))
  manifest_expiry ← or_refuse m.expiry manifest_unparseable_422
  refuse_if (leb manifest_expiry now) manifest_expired_422
  refuse_if (ltb (row.max_ttl_days * microsecond_day) (expires - now)) lifetime_403
  refuse_if (ltb manifest_expiry expires) outlives_manifest_422
  ok (some row)

abbrev pub ceiling_of : Option GrantorRow → Option ℕ
ceiling_of none = none
ceiling_of (some row) = row.max_spend_usd

-- Every check before the ledger is written: the token and the row it was checked against.
unfoldable pub mint_checks : MintEnv → MintRequest → Result (DelegationToken × Option GrantorRow)
mint_checks env req = do
  via_alias ← or_refuse env.granted_by_check operator_refused
  registered env.registry
  refuse_if (via_alias && not env.explicitly_listed) operator_refused
  expires ← expires_of req.expiry env.now
  refuse_if (leb expires env.now) expires_in_past_422
  row ← doa_check env.roster req env.manifest env.now expires
  refuse_if (not via_alias && not env.list_bound_reach) operator_refused
  ok (
    record {
      token_id = env.uuid4;
      agent_id = req.agent_id;
      granted_by = req.granted_by;
      scope = req.scope;
      issued_at = env.now;
      expires_at = expires;
      revoked = false;
      revocation_id = none;
      revoked_at = none;
      max_spend_usd = ceiling_of row;
    },
    row,
  )

-- The ledger is written first: what cannot be audited is not stored.
unfoldable pub issue :
    MintEnv → DelegationToken × Option GrantorRow → App → Result DelegationToken × App
issue env (token, row) app =
    if env.ledger_reachable
    then (let (stored, store) = save token app.store in
        (ok stored, record { store = store; ledger = app.ledger ++ minted token row ∷ [] }))
    else (err ledger_502, app)

unfoldable pub mint : MintEnv → MintRequest → App → Result DelegationToken × App
unfolding issue
mint env req app = elim (mint_checks env req) [
  | err r ↦ (err r, app)
  | ok checked ↦ issue env checked app
]
