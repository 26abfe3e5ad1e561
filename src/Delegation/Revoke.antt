-- ===== src/Delegation/Revoke.antt =====
-- The revoke and introspection handlers of api.py. Operator rules, the registry, the ledger's
-- reachability, the clock and the name-based id (uuid5) are arguments.
pub mod Steps
pub mod Final
pub mod Introspect
use field_platform.Prelude.{
  ℕ, String, Bool, true, false, ◌&&◌, not, Option, none, some, List, [], ◌∷◌, ◌++◌, if◌then◌else◌,
}
use field_platform.Delegation.{
  DelegationToken, TokenStatus, revoked, status, revoke, is_status_active,
}
use field_platform.Delegation.Store.{TokenStore, get, save_revoked}
use field_platform.Delegation.Mint.{
  App, AuditEvent, revoke_requested, RegistryAnswer, unreachable, Result, ok, err, operator_refused,
  registry_502, ledger_502, not_found_404,
}

pub record RevokeEnv : Type 0 where
  pub list_bound : Bool
  pub registry : RegistryAnswer
  pub reach : Bool
  pub now : ℕ
  pub ledger_reachable : Bool

-- What a list-bound identity has to pass; an agent that the registry does not know has no manifest
-- that could name it, and `reach` answers for that too.
abbrev pub bound_check : RevokeEnv → Result (Unit {0})
bound_check env =
    if env.list_bound
    then elim env.registry [
      | unreachable ↦ err registry_502
      | _ ↦ (if env.reach then ok tt else err operator_refused)
    ]
    else ok tt

module _ (stable_revocation_id : String → String) where
  -- The copy that is to be stored.
  unfoldable pub revoked_copy : ℕ → DelegationToken → DelegationToken
  unfolding revoke
  revoked_copy now t = revoke (stable_revocation_id t.token_id) now t

  abbrev pub or_not_found {ℓ} : {A : Type ℓ} → Option A → Result A
  or_not_found none = err not_found_404
  or_not_found (some a) = ok a

  -- The part under the token's lock: read again, write the ledger, then the store.
  unfoldable pub revoke_locked : RevokeEnv → String → App → Result DelegationToken × App
  revoke_locked env id app = elim (get id app.store) [
    | none ↦ (err not_found_404, app)
    | some t ↦
        if t.revoked
        then (ok t, app)
        else (if env.ledger_reachable
            then (let (stored, store) = save_revoked (revoked_copy env.now t) app.store in
                (
                  or_not_found stored,
                  record {
                    store = store;
                    ledger =
                        app.ledger
                        ++ revoke_requested t.token_id (stable_revocation_id t.token_id) t.agent_id
                          ∷ [];
                  },
                ))
            else (err ledger_502, app))
  ]

  unfoldable pub revoke_token : RevokeEnv → String → App → Result DelegationToken × App
  revoke_token env id app = elim (get id app.store) [
    | none ↦ (err (if env.list_bound then operator_refused else not_found_404), app)
    | some t ↦ elim (bound_check env) [ err r ↦ (err r, app) | ok _ ↦ revoke_locked env id app ]
  ]

pub record IntrospectionResult : Type 0 where
  pub token_id : String
  pub active : Bool
  pub status : TokenStatus
  pub agent_id : Option String
  pub scope : List String
  pub expires_at : Option ℕ
  pub issued_at : Option ℕ
  pub max_spend_usd : Option ℕ

-- POST /introspect at the instant `now`; the reason text follows from the status.
unfoldable pub introspect : ℕ → String → TokenStore → IntrospectionResult
unfolding status
introspect now id store = elim (get id store) [
  | none ↦ record {
    token_id = id;
    active = false;
    status = revoked;
    agent_id = none;
    scope = [];
    expires_at = none;
    issued_at = none;
    max_spend_usd = none;
  }
  | some t ↦ record {
    token_id = t.token_id;
    active = is_status_active (status t now);
    status = status t now;
    agent_id = some t.agent_id;
    scope = t.scope;
    expires_at = some t.expires_at;
    issued_at = some t.issued_at;
    max_spend_usd = t.max_spend_usd;
  }
]

-- POST /oauth/introspect, behind the check that the form has a token: the token whose fields the answer
-- gives, or `none`, which is exactly {"active": false}.
unfoldable pub oauth_introspect : ℕ → String → TokenStore → Option DelegationToken
unfolding status
oauth_introspect now id store = elim (get id store) [
  | none ↦ none
  | some t ↦ if is_status_active (status t now) then some t else none
]
