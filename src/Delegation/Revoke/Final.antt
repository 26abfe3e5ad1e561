-- ===== src/Delegation/Revoke/Final.antt =====
-- The handlers are steps of the table's life, and a revocation is final for introspection.
use field_platform.Prelude.{
  ℕ, String, true, false, none, some, [], ◌≡◌, refl, inl, inr, arith, Option-cases, Bool-cases,
  subst, sym, ap,
}
use field_platform.Prelude.Dict.{lookup}
use field_platform.Delegation.{DelegationToken}
use field_platform.Delegation.Store.{TokenStore, get, save, save_revoked, row_to_token}
use field_platform.Delegation.Store.Laws.{IsKeyed, lookup-save_revoked, str_eq_self}
use field_platform.Delegation.Mint.{App, MintEnv, MintRequest, ok, err, Refusal, minted, mint}
use field_platform.Delegation.Mint.Laws.{mint-IsAuthorised, mint-refused, Result-cases}
use field_platform.Delegation.Revoke.{
  RevokeEnv, bound_check, revoked_copy, revoke_locked, revoke_token, introspect, oauth_introspect,
}
use field_platform.Delegation.Revoke.Steps.{
  World, Step, Reach, IsSound, Reach-IsSound, Step-keeps_revoked,
}

-- The world of one process that is between two requests.
abbrev pub world : App → World
world app = record { store = app.store; ledger = app.ledger; pending = [] }

module _ (stable : String → String) where
  -- The part of the revoke handler under the lock is at most two steps: request, then land.
  revoke_locked-Reach :
      (env : RevokeEnv) (id : String) (app : App)
      → Reach stable (world app) (world (revoke_locked stable env id app).1)
  unfolding revoke_locked revoked_copy
  revoke_locked-Reach env id app = elim (Option-cases (get id app.store)) [
    | inl missing ↦ rw (missing, revoke_locked) Reach.here
    | inr (t, found) ↦
        rw (found, revoke_locked)
          (elim (Bool-cases t.revoked) [
            | inl done ↦ rw done Reach.here
            | inr live ↦ rw live (elim (Bool-cases env.ledger_reachable) [
              | inr down ↦ rw down Reach.here
              | inl up ↦ rw up (
                  Reach.next
                    (Reach.next Reach.here (Step.request (world app) env.now id t found live))
                    (Step.land _ [] (revoked_copy stable env.now t) [] refl))
            ])
          ])
  ]

  -- Every call of the revoke handler is a run of steps, whatever it answers.
  pub revoke_token-Reach :
      (env : RevokeEnv) (id : String) (app : App)
      → Reach stable (world app) (world (revoke_token stable env id app).1)
  unfolding revoke_token
  revoke_token-Reach env id app = elim (Option-cases (get id app.store)) [
    | inl missing ↦ rw (missing, revoke_token) Reach.here
    | inr (t, found) ↦
        rw (found, revoke_token)
          (elim (Result-cases (bound_check env)) [
            | inl (r, refused) ↦ rw refused Reach.here
            | inr (u, passed) ↦ rw passed (revoke_locked-Reach env id app)
          ])
  ]

  -- A call of the mint handler whose random id is not in the table yet is a run of steps.
  pub mint-Reach :
      (env : MintEnv) (req : MintRequest) (app : App)
      → lookup env.uuid4 app.store.tokens ≡ none
      → Reach stable (world app) (world (mint env req app).1)
  mint-Reach env req app fresh = elim (Result-cases (mint env req app).0) [
    | inl (r, refused) ↦
        subst (λ a. Reach stable (world app) (world a)) (sym (mint-refused env req app r refused))
          Reach.here
    | inr (t, issued) ↦
        let (u, row, authorised, ledger, saved) = mint-IsAuthorised env req app t issued in
        let carries = authorised.carries in
        let is_fresh = subst (λ k. lookup k app.store.tokens ≡ none) (sym carries.0) fresh in
        let store : (save u app.store).1 ≡ (mint env req app).1.store = sym (ap (λ p. p.1) saved) in
        subst (Reach stable (world app))
          (λ i. record { store = store i; ledger = sym ledger i; pending = [] })
          (Reach.next Reach.here (Step.mint (world app) u (minted u row) is_fresh carries.5))
  ]

  keeps_revoked :
      {w w' : World}
      → IsSound stable w
      → Reach stable w w'
      → (id : String) (t : DelegationToken) → lookup id w.store.tokens ≡ some t
      → t.revoked ≡ true
      → lookup id w'.store.tokens ≡ some t
  keeps_revoked sound Reach.here id t found done = found
  keeps_revoked sound (Reach.next r s) id t found done =
      Step-keeps_revoked stable s id t (keeps_revoked sound r id t found done) done
        (Reach-IsSound stable sound r).keyed

  inactive :
      (now : ℕ) (id : String) (t : DelegationToken) (s : TokenStore)
      → lookup id s.tokens ≡ some t
      → t.revoked ≡ true
      → ((introspect now id s).active ≡ false) × (oauth_introspect now id s ≡ none)
  unfolding introspect oauth_introspect get
  inactive now id t s found done = ground arith

  -- A revocation is final: once a token is revoked, in whatever world concurrent mints and revokes
  -- reach its row is unchanged, and at every instant both introspections call it inactive.
  pub revoked_forever :
      (w w' : World) (id : String) (t : DelegationToken) (now : ℕ)
      → IsSound stable w
      → Reach stable w w'
      → lookup id w.store.tokens ≡ some t
      → t.revoked ≡ true
      → (lookup id w'.store.tokens ≡ some t)
        × ((introspect now id w'.store).active ≡ false)
        × (oauth_introspect now id w'.store ≡ none)
  revoked_forever w w' id t now sound r found done =
      let kept = keeps_revoked sound r id t found done in
      let (first, second) = inactive now id t w'.store kept done in (kept, first, second)

  get-inactive :
      (now : ℕ) (id : String) (t : DelegationToken) (s : TokenStore)
      → get id s ≡ some t
      → t.revoked ≡ true
      → (introspect now id s).active ≡ false
  unfolding introspect
  get-inactive now id t s found done = ground arith

  -- Under an id that stands in the table, `save_revoked` returns a revoked token.
  save_revoked-revoked :
      (t u : DelegationToken) (s : TokenStore)
      → t.revoked ≡ true
      → (save_revoked t s).0 ≡ some u
      → (get t.token_id (save_revoked t s).1 ≡ some u) × (u.revoked ≡ true)
  unfolding save_revoked get
  save_revoked-revoked t u s done h = elim (Option-cases (lookup t.token_id s.tokens)) [
    | inl missing ↦ ground (arith, h, lookup-save_revoked t t.token_id s)
    | inr (old, found) ↦ elim (Bool-cases old.revoked) [
      | inl already ↦ ground (arith, h, lookup-save_revoked t t.token_id s, str_eq_self t.token_id)
      | inr live ↦ ground (arith, h, lookup-save_revoked t t.token_id s, str_eq_self t.token_id)
    ]
  ]

  get-own_id :
      (id : String) (t : DelegationToken) (s : TokenStore)
      → IsKeyed s
      → get id s ≡ some t
      → t.token_id ≡ id
  unfolding get
  get-own_id id t s k h = elim (Option-cases (lookup id s.tokens)) [
    | inl missing ↦ ground (arith, h)
    | inr (row, found) ↦ ground (arith, h, k.own_id id row found)
  ]

  revoke_locked-inactive :
      (env : RevokeEnv) (id : String) (app : App) (t : DelegationToken) (now : ℕ)
      → IsKeyed app.store
      → (revoke_locked stable env id app).0 ≡ ok t
      → (t.revoked ≡ true)
        × ((introspect now id (revoke_locked stable env id app).1.store).active ≡ false)
  unfolding revoke_locked revoked_copy
  revoke_locked-inactive env id app t now k h = elim (Option-cases (get id app.store)) [
    | inl missing ↦ absurd (ground (arith, h))
    | inr (u, found) ↦ elim (Bool-cases u.revoked) [
      | inl done ↦
          let same : u ≡ t = ground (arith, h) in
          let gone : t.revoked ≡ true = ground arith in
          (gone, ground (arith, get-inactive now id u app.store found done))
      | inr live ↦
          let copy = revoked_copy stable env.now u in
          let own = get-own_id id u app.store k found in
          let stored : (save_revoked copy app.store).0 ≡ some t = ground (arith, h) in
          let (at, gone) = save_revoked-revoked copy t app.store refl stored in
          (
            gone,
            ground (
              arith,
              h,
              get-inactive now id t (save_revoked copy app.store).1 (rw (← own) at) gone,
            ),
          )
    ]
  ]

  -- The revoke handler, when it succeeds, answers with a revoked token, and at every instant the
  -- introspection of that id is inactive afterwards.
  pub revoke_token-inactive :
      (env : RevokeEnv) (id : String) (app : App) (t : DelegationToken) (now : ℕ)
      → IsKeyed app.store
      → (revoke_token stable env id app).0 ≡ ok t
      → (t.revoked ≡ true)
        × ((introspect now id (revoke_token stable env id app).1.store).active ≡ false)
  unfolding revoke_token
  revoke_token-inactive env id app t now k h = elim (Option-cases (get id app.store)) [
    | inl missing ↦ absurd (ground (arith, h))
    | inr (u, found) ↦ elim (Result-cases (bound_check env)) [
      | inl (r, refused) ↦ absurd (ground (arith, h))
      | inr (v, passed) ↦ ground (arith, h, revoke_locked-inactive env id app t now k)
    ]
  ]

  save_revoked-found :
      (t u : DelegationToken) (s : TokenStore)
      → get t.token_id s ≡ some u
      → (v : DelegationToken) × ((save_revoked t s).0 ≡ some v)
  unfolding save_revoked get
  save_revoked-found t u s h = elim (Option-cases (lookup t.token_id (save_revoked t s).1.tokens)) [
    | inr (row, found) ↦ (row_to_token (save_revoked t s).1 row, ground (arith, found))
    | inl missing ↦ elim (Option-cases (lookup t.token_id s.tokens)) [
      | inl absent ↦ absurd (ground (arith, h))
      | inr (old, there) ↦
          absurd (ground (arith, lookup-save_revoked t t.token_id s, str_eq_self t.token_id))
    ]
  ]

  revoke_locked-refused :
      (env : RevokeEnv) (id : String) (app : App) (r : Refusal)
      → IsKeyed app.store
      → (revoke_locked stable env id app).0 ≡ err r
      → (revoke_locked stable env id app).1 ≡ app
  unfolding revoke_locked revoked_copy
  revoke_locked-refused env id app r k h = elim (Option-cases (get id app.store)) [
    | inl missing ↦ ground (arith, h)
    | inr (u, found) ↦
        let copy = revoked_copy stable env.now u in
        let own : u.token_id ≡ id = get-own_id id u app.store k found in
        let (v, stored) =
          save_revoked-found copy u app.store
            (subst (λ j. get j app.store ≡ some u) (sym own) found) in
        ground (arith, h, stored)
  ]

  -- A revoke that is refused, whatever the reason, leaves the table and the ledger as they were.
  pub revoke_token-refused :
      (env : RevokeEnv) (id : String) (app : App) (r : Refusal)
      → IsKeyed app.store
      → (revoke_token stable env id app).0 ≡ err r
      → (revoke_token stable env id app).1 ≡ app
  unfolding revoke_token
  revoke_token-refused env id app r k h = elim (Option-cases (get id app.store)) [
    | inl missing ↦ ground (arith, h)
    | inr (u, found) ↦ ground (arith, h, revoke_locked-refused env id app r k)
  ]
