-- ===== src/Delegation/Mint/Laws.antt =====
-- What a minted token is bounded by, and that a refused mint leaves nothing behind.
use field_platform.Prelude.{
  ℕ, ◌+◌, ◌*◌, ◌≤◌, ◌<◌, String, Bool, true, false, ◌&&◌, not, Option, none, some, List, [], ◌∷◌,
  ◌++◌, ◌≡◌, refl, ◌⊎◌, inl, inr, arith, Option-cases,
}
use field_platform.Delegation.{DelegationToken}
use field_platform.Delegation.Doa.{GrantorRow, find, outside, IsWithin, outside-nil}
use field_platform.Delegation.Store.{save}
use field_platform.Delegation.Mint.{
  App, MintRequest, MintEnv, Manifest, RosterConfig, off, unavailable, armed, active_agent, Result,
  ok, err, Refusal, minted, doa_check, no_items, expires_of, mint_checks, mint, microsecond_day,
  ceiling_of,
}

-- The envelope of a grantor and a manifest around a token that lives from `now` to `expires`.
abbrev pub WithinRow :
    GrantorRow → MintRequest → Manifest → (now expires manifest_expiry : ℕ) → Type 0
WithinRow row req m now expires manifest_expiry =
    (row.active ≡ true)
    × IsWithin req.scope row.allowed_scope
    × IsWithin req.scope m.scope
    × (now < manifest_expiry)
    × (expires ≤ manifest_expiry)
    × (expires ≤ now + row.max_ttl_days * microsecond_day)

-- The roster's part of what a mint has to pass.
abbrev pub WithinDoa :
    RosterConfig → MintRequest → Option Manifest → (now expires : ℕ) → Option GrantorRow → Type 0
WithinDoa off req manifest now expires row = row ≡ none
WithinDoa unavailable req manifest now expires row = ⊥
WithinDoa (armed rows) req manifest now expires row =
    (r : GrantorRow) × (m : Manifest) × (e : ℕ) × (row ≡ some r)
    × (find rows req.granted_by ≡ some r)
    × (manifest ≡ some m)
    × (m.expiry ≡ some e)
    × WithinRow r req m now expires e

no_items-nil : (xs : List String) → no_items xs ≡ true → xs ≡ []
no_items-nil [] h = refl
no_items-nil (x ∷ xs) h = cc

doa_check-WithinDoa :
    (roster : RosterConfig) (req : MintRequest) (manifest : Option Manifest) (now expires : ℕ)
    (row : Option GrantorRow)
    → now < expires
    → doa_check roster req manifest now expires ≡ ok row
    → WithinDoa roster req manifest now expires row
unfolding doa_check
doa_check-WithinDoa off req manifest now expires row lt h = ground arith
doa_check-WithinDoa unavailable req manifest now expires row lt h = cc
doa_check-WithinDoa (armed rows) req manifest now expires row lt h =
    elim (Option-cases (find rows req.granted_by)) [
      | inl unknown ↦ absurd (ground arith)
      | inr (r, found) ↦ elim (Option-cases manifest) [
        | inl missing ↦ absurd (ground arith)
        | inr (m, read) ↦ elim (Option-cases m.expiry) [
          | inl unreadable ↦ absurd (ground arith)
          | inr (e, readable) ↦
              let own : no_items (outside req.scope r.allowed_scope) ≡ true = ground arith in
              let declared : no_items (outside req.scope m.scope) ≡ true = ground arith in
              (
                r,
                m,
                e,
                ground arith,
                found,
                read,
                readable,
                (
                  ground arith,
                  outside-nil req.scope r.allowed_scope (no_items-nil _ own),
                  outside-nil req.scope m.scope (no_items-nil _ declared),
                  ground arith,
                  ground arith,
                  ground arith,
                ),
              )
        ]
      ]
    ]

pub Result-cases :
    {A : Type 0} (m : Result A) → ((r : Refusal) × (m ≡ err r)) ⊎ ((a : A) × (m ≡ ok a))
Result-cases (err r) = inl (r, refl)
Result-cases (ok a) = inr (a, refl)

-- What a minted token carries of its request.
abbrev pub Carries : MintEnv → MintRequest → DelegationToken → Type 0
Carries env req t =
    (t.token_id ≡ env.uuid4)
    × (t.agent_id ≡ req.agent_id)
    × (t.granted_by ≡ req.granted_by)
    × (t.scope ≡ req.scope)
    × (t.issued_at ≡ env.now)
    × (t.revoked ≡ false)
    × (t.revocation_id ≡ none)
    × (t.revoked_at ≡ none)
    × (env.now < t.expires_at)
    × (expires_of req.expiry env.now ≡ ok t.expires_at)

-- The operator rules let the caller act: an alias of the grantor is listed explicitly for the agent,
-- any other caller is within reach of a bound list.
abbrev pub MayAct : MintEnv → Bool → Type 0
MayAct env true = env.explicitly_listed ≡ true
MayAct env false = env.list_bound_reach ≡ true

-- Every check was passed: the caller may name the grantor and act for the agent, the agent is active
-- in the registry, the token expires when the request says and has the ceiling of the row that was
-- checked, and it lies within the roster and the manifest where the roster is armed.
pub record IsAuthorised (env : MintEnv) (req : MintRequest) (t : DelegationToken)
    (row : Option GrantorRow) : Type 0 where
  pub may_name_grantor :
      (via_alias : Bool) × (env.granted_by_check ≡ some via_alias) × MayAct env via_alias
  pub agent_is_active : env.registry ≡ active_agent
  pub carries : Carries env req t
  pub ceiling : t.max_spend_usd ≡ ceiling_of row
  pub within : WithinDoa env.roster req env.manifest env.now t.expires_at row

may_act :
    (env : MintEnv) (via : Bool)
    → (via && not env.explicitly_listed) ≡ false
    → (not via && not env.list_bound_reach) ≡ false
    → MayAct env via
may_act env true listed bound = ground arith
may_act env false listed bound = ground arith

mint_checks-IsAuthorised :
    (env : MintEnv) (req : MintRequest) (t : DelegationToken) (row : Option GrantorRow)
    → mint_checks env req ≡ ok (t, row)
    → IsAuthorised env req t row
unfolding mint_checks
mint_checks-IsAuthorised env req t row h = elim (Option-cases env.granted_by_check) [
  | inl refused ↦ absurd (ground arith)
  | inr (via, named) ↦ elim (Result-cases (expires_of req.expiry env.now)) [
    | inl (r, out) ↦ absurd (ground arith)
    | inr (x, expires) ↦ elim (Result-cases (doa_check env.roster req env.manifest env.now x)) [
      | inl (r, out) ↦ absurd (ground arith)
      | inr (checked, passed) ↦
          let future : env.now < x = ground arith in
          let same : t.expires_at ≡ x = ground arith in
          let same_row : row ≡ checked = ground arith in
          record {
            may_name_grantor = (via, named, may_act env via (ground arith) (ground arith));
            agent_is_active = ground arith;
            carries = ground arith;
            ceiling = ground arith;
            within =
                rw (same, same_row)
                  (doa_check-WithinDoa env.roster req env.manifest env.now x checked future passed);
          }
    ]
  ]
]

-- A mint that succeeds has passed every check: the caller may name the grantor and act for the agent, the
-- agent is active, the token has the request's lifetime and the checked row's ceiling, and lies within the
-- roster and the manifest where the roster is armed. The ledger gains its one event, with the row that was
-- checked, and the stored token is the answer, which differs from the checked one at most in an
-- older ceiling of the same id.
pub mint-IsAuthorised :
    (env : MintEnv) (req : MintRequest) (app : App) (t : DelegationToken)
    → (mint env req app).0 ≡ ok t
    → (u : DelegationToken) × (row : Option GrantorRow) × IsAuthorised env req u row
      × ((mint env req app).1.ledger ≡ app.ledger ++ minted u row ∷ [])
      × ((t, (mint env req app).1.store) ≡ save u app.store)
unfolding mint
mint-IsAuthorised env req app t h = elim (Result-cases (mint_checks env req)) [
  | inl (r, out) ↦ absurd (ground arith)
  | inr ((u, row), passed) ↦
      (u, row, mint_checks-IsAuthorised env req u row passed, ground arith, ground arith)
]

-- A mint that is refused, whatever the reason, changes neither the store nor the ledger.
pub mint-refused :
    (env : MintEnv) (req : MintRequest) (app : App) (r : Refusal)
    → (mint env req app).0 ≡ err r
    → (mint env req app).1 ≡ app
unfolding mint
mint-refused env req app r h = ground arith
