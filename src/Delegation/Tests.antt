-- ===== src/Delegation/Tests.antt =====
-- A table with one live and one revoked token, the handlers run on it, and the theorems at them.
use field_platform.Prelude.{
  ◌*◌, String, true, false, Option, none, some, [], ◌∷◌, ◌++◌, ◌≡◌, ◌↔◌, refl, inl, arith,
  str_eq_iff, subst,
}
use field_platform.Prelude.Dict.{lookup, insert}
use field_platform.Delegation.{DelegationToken}
use field_platform.Delegation.Doa.{GrantorRow}
use field_platform.Delegation.Store.{save, get, stamp, save_revoked, update_revoked}
use field_platform.Delegation.Store.Laws.{IsKeyed}
use field_platform.Delegation.Mint.{
  App, MintEnv, MintRequest, ttl_seconds, active_agent, armed, ok, err, mint, mint_checks,
  expires_of, doa_check, minted, revoke_requested, unknown_grantor_403, ledger_502, microsecond_day,
}
use field_platform.Delegation.Mint.Laws.{IsAuthorised, mint-IsAuthorised}
use field_platform.Delegation.Revoke.{
  RevokeEnv, introspect, oauth_introspect, revoke_token, revoke_locked, revoked_copy,
}
use field_platform.Delegation.Revoke.Steps.{IsSound, IsBacked, Reach-IsSound}
use field_platform.Delegation.Revoke.Final.{
  world, revoke_token-Reach, mint-Reach, revoked_forever, revoke_token-inactive,
}
use field_platform.Delegation.Revoke.Introspect.{Live, introspect-Live}

-- Not the source's uuid5: any function will do.
abbrev stable : String → String
stable id = id

abbrev live : DelegationToken
live = record {
  token_id = "t1";
  agent_id = "a";
  granted_by = "ann";
  scope = "mail" ∷ [];
  issued_at = 0;
  expires_at = 100;
  revoked = false;
  revocation_id = none;
  revoked_at = none;
  max_spend_usd = none;
}

abbrev dead : DelegationToken
dead = record live {
  token_id = "t2";
  revoked = true;
  revocation_id = some "t2";
  revoked_at = some 7;
}

-- Both tokens, and the request that revoked the second.
abbrev app : App
app = record {
  store = record { tokens = ("t1", live) ∷ ("t2", dead) ∷ []; ceilings = ("t1", 40) ∷ [] };
  ledger = revoke_requested "t2" "t2" "a" ∷ [];
}

app-IsKeyed : IsKeyed app.store
unfolding lookup
app-IsKeyed = record { own_id = λ id t h. ground (arith, str_eq_iff "t1" id, str_eq_iff "t2" id) }

app_revoked_row :
    (id : String) (t : DelegationToken)
    → lookup id app.store.tokens ≡ some t
    → t.revoked ≡ true
    → dead ≡ t
unfolding lookup
app_revoked_row id t h done = ground arith

app-IsSound : IsSound stable (world app)
app-IsSound = record {
  keyed = app-IsKeyed;
  backed = λ id t h done.
      subst (IsBacked stable app.ledger) (app_revoked_row id t h done) (refl, ("a", inl refl));
  waiting = tt;
}

abbrev grantor : GrantorRow
grantor = record {
  grantor = "ann";
  allowed_scope = "mail" ∷ "calendar" ∷ [];
  max_ttl_days = 1;
  max_spend_usd = some 40;
  active = true;
}

abbrev mint_env : MintEnv
mint_env = record {
  granted_by_check = some false;
  registry = active_agent;
  explicitly_listed = false;
  now = 50;
  roster = armed (grantor ∷ []);
  manifest = some (record { scope = "mail" ∷ []; expiry = some (100 * microsecond_day) });
  list_bound_reach = true;
  uuid4 = "t3";
  ledger_reachable = true;
}

abbrev request : MintRequest
request = record {
  agent_id = "a";
  granted_by = "ann";
  scope = "mail" ∷ [];
  expiry = ttl_seconds 60;
}

abbrev issued : DelegationToken
issued = record live {
  token_id = "t3";
  issued_at = 50;
  expires_at = 60000050;
  max_spend_usd = some 40;
}

issues : (mint mint_env request app).0 ≡ ok issued
unfolding mint mint_checks expires_of doa_check save lookup stamp insert
issues = refl

mint-IsAuthorised_example :
    (u : DelegationToken) × (row : Option GrantorRow) × IsAuthorised mint_env request u row
    × ((mint mint_env request app).1.ledger ≡ app.ledger ++ minted u row ∷ [])
    × ((issued, (mint mint_env request app).1.store) ≡ save u app.store)
mint-IsAuthorised_example = mint-IsAuthorised mint_env request app issued issues

abbrev stranger : MintRequest
stranger = record request { granted_by = "eve" }

stranger_refused : (mint mint_env stranger app).0 ≡ err unknown_grantor_403
unfolding mint mint_checks expires_of doa_check
stranger_refused = refl

t3_fresh : lookup "t3" app.store.tokens ≡ none
unfolding lookup
t3_fresh = refl

abbrev revoke_env : RevokeEnv
revoke_env = record {
  list_bound = false;
  registry = active_agent;
  reach = false;
  now = 60;
  ledger_reachable = true;
}

Reach-IsSound_example : IsSound stable (world (revoke_token stable revoke_env "t1" app).1)
Reach-IsSound_example =
    Reach-IsSound stable app-IsSound (revoke_token-Reach stable revoke_env "t1" app)

abbrev revoked_token : DelegationToken
revoked_token = record live {
  revoked = true;
  revocation_id = some "t1";
  revoked_at = some 60;
  max_spend_usd = some 40;
}

revokes : (revoke_token stable revoke_env "t1" app).0 ≡ ok revoked_token
unfolding revoke_token revoke_locked revoked_copy get save_revoked update_revoked lookup insert
revokes = refl

revoke_token-inactive_example :
    (revoked_token.revoked ≡ true)
    × ((introspect 61 "t1" (revoke_token stable revoke_env "t1" app).1.store).active ≡ false)
revoke_token-inactive_example =
    revoke_token-inactive stable revoke_env "t1" app revoked_token 61 app-IsKeyed revokes

ledger_down :
    (revoke_token stable (record revoke_env { ledger_reachable = false }) "t1" app).0
    ≡ err ledger_502
unfolding revoke_token revoke_locked get lookup
ledger_down = refl

dead_stored : lookup "t2" app.store.tokens ≡ some dead
unfolding lookup
dead_stored = refl

revoked_forever_example :
    (lookup "t2" (mint mint_env request app).1.store.tokens ≡ some dead)
    × ((introspect 99 "t2" (mint mint_env request app).1.store).active ≡ false)
    × (oauth_introspect 99 "t2" (mint mint_env request app).1.store ≡ none)
revoked_forever_example =
    revoked_forever stable (world app) (world (mint mint_env request app).1) "t2" dead 99
      app-IsSound (mint-Reach stable mint_env request app t3_fresh) dead_stored refl

introspect-Live_example :
    (((introspect 60 "t1" app.store).active ≡ true)
      ↔ ((t : DelegationToken) × Live 60 "t1" app.store t))
    × ((t : DelegationToken)
        → (oauth_introspect 60 "t1" app.store ≡ some t) ↔ Live 60 "t1" app.store t)
introspect-Live_example = introspect-Live 60 "t1" app.store

t1_ceiling : lookup "t1" app.store.ceilings ≡ some 40
unfolding lookup
t1_ceiling = refl
