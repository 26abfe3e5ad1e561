-- ===== src/Delegation/Revoke/Steps.antt =====
-- The life of the table under concurrent requests. A mint is one step. A revoke is two: the ledger
-- is written, then the store, and the process may die in between; another process may interleave.
use field_platform.Prelude.{
  ℕ, String, true, false, none, some, List, [], ◌∷◌, ◌++◌, ◌≡◌, refl, ◌⊎◌, inl, inr, arith, str_eq,
  str_eq_iff, Option-cases, Bool-cases, ap, subst,
}
use field_platform.Prelude.Dict.{lookup, lookup-insert}
use field_platform.Delegation.{DelegationToken, revoke}
use field_platform.Delegation.Store.{TokenStore, save, get, save_revoked}
use field_platform.Delegation.Store.Laws.{IsKeyed, save-IsKeyed, lookup-save_revoked}
use field_platform.Delegation.Mint.{AuditEvent, revoke_requested}
use field_platform.Delegation.Revoke.{revoked_copy}

-- The events that the ledger holds.
abbrev pub InLedger : AuditEvent → List AuditEvent → Type 0
InLedger e [] = ⊥
InLedger e (f ∷ fs) = (f ≡ e) ⊎ InLedger e fs

InLedger-left : (e : AuditEvent) (es fs : List AuditEvent) → InLedger e es → InLedger e (es ++ fs)
InLedger-left e [] fs h = elim h [ ]
InLedger-left e (f ∷ es) fs (inl h) = inl h
InLedger-left e (f ∷ es) fs (inr h) = inr (InLedger-left e es fs h)

InLedger-last : (e : AuditEvent) (es : List AuditEvent) → InLedger e (es ++ e ∷ [])
InLedger-last e [] = inl refl
InLedger-last e (f ∷ es) = inr (InLedger-last e es)

-- The table, the ledger, and the revocations between their two writes.
pub record World : Type 0 where
  pub store : TokenStore
  pub ledger : List AuditEvent
  pub pending : List DelegationToken

module _ (stable : String → String) where
  -- The event that the revocation of a token writes.
  abbrev pub request_of : DelegationToken → AuditEvent
  request_of t = revoke_requested t.token_id (stable t.token_id) t.agent_id

  -- One step of any process. A fresh id is not in the table.
  pub data Step : World → World → Type 0 where
    mint :
        (w : World) (t : DelegationToken) (e : AuditEvent)
        → lookup t.token_id w.store.tokens ≡ none
        → t.revoked ≡ false
        → Step w (record w { store = (save t w.store).1; ledger = w.ledger ++ e ∷ [] })
    request :
        (w : World) (now : ℕ) (id : String) (t : DelegationToken)
        → get id w.store ≡ some t
        → t.revoked ≡ false
        → Step w (record w {
          ledger = w.ledger ++ request_of t ∷ [];
          pending = revoked_copy stable now t ∷ w.pending;
        })
    land :
        (w : World) (before : List DelegationToken) (t : DelegationToken)
        (after : List DelegationToken)
        → w.pending ≡ before ++ t ∷ after
        → Step w (record w { store = (save_revoked t w.store).1; pending = before ++ after })
    crash :
        (w : World) (before : List DelegationToken) (t : DelegationToken)
        (after : List DelegationToken)
        → w.pending ≡ before ++ t ∷ after
        → Step w (record w { pending = before ++ after })

  pub data Reach (s : World) : World → Type 0 where
    here : Reach s s
    next : {t u : World} → Reach s t → Step t u → Reach s u

  -- A revocation that is backed by the ledger: its id is the stable one and its event is written.
  abbrev pub IsBacked : List AuditEvent → DelegationToken → Type 0
  IsBacked ledger t =
      (t.revocation_id ≡ some (stable t.token_id))
      × ((agent : String) × InLedger (revoke_requested t.token_id (stable t.token_id) agent) ledger)

  abbrev pub AllBacked : List AuditEvent → List DelegationToken → Type 0
  AllBacked ledger [] = Unit
  AllBacked ledger (t ∷ ts) = IsBacked ledger t × AllBacked ledger ts

  pub record IsSound (w : World) : Type 0 where
    pub keyed : IsKeyed w.store
    pub backed :
        (id : String) (t : DelegationToken)
        → lookup id w.store.tokens ≡ some t
        → t.revoked ≡ true
        → IsBacked w.ledger t
    pub waiting : AllBacked w.ledger w.pending

  IsBacked-left :
      (es fs : List AuditEvent) (t : DelegationToken) → IsBacked es t → IsBacked (es ++ fs) t
  IsBacked-left es fs t (id, (agent, h)) = (id, (agent, InLedger-left _ es fs h))

  AllBacked-left :
      (es fs : List AuditEvent) (ts : List DelegationToken)
      → AllBacked es ts
      → AllBacked (es ++ fs) ts
  AllBacked-left es fs [] h = tt
  AllBacked-left es fs (t ∷ ts) h = (IsBacked-left es fs t h.0, AllBacked-left es fs ts h.1)

  AllBacked-split :
      (es : List AuditEvent) (before : List DelegationToken) (t : DelegationToken)
      (after : List DelegationToken)
      → AllBacked es (before ++ t ∷ after)
      → IsBacked es t × AllBacked es (before ++ after)
  AllBacked-split es [] t after h = h
  AllBacked-split es (b ∷ before) t after h =
      let (one, rest) = AllBacked-split es before t after h.1 in (one, (h.0, rest))

  lookup-save_fresh :
      (t u : DelegationToken) (id : String) (s : TokenStore)
      → t.revoked ≡ false
      → u.revoked ≡ true
      → lookup id (save t s).1.tokens ≡ some u
      → lookup id s.tokens ≡ some u
  unfolding save
  lookup-save_fresh t u id s live done h = ground (arith, h, lookup-insert t.token_id id t s.tokens)

  save_fresh-lookup :
      (t u : DelegationToken) (id : String) (s : TokenStore)
      → lookup t.token_id s.tokens ≡ none
      → lookup id s.tokens ≡ some u
      → lookup id (save t s).1.tokens ≡ some u
  unfolding save
  save_fresh-lookup t u id s fresh found = elim (Bool-cases (str_eq t.token_id id)) [
    | inl same ↦ cc (fresh, found, ap (λ k. lookup k s.tokens) ((str_eq_iff t.token_id id).0 same))
    | inr other ↦ ground (arith, found, lookup-insert t.token_id id t s.tokens)
  ]

  request-IsBacked :
      (es : List AuditEvent) (now : ℕ) (t : DelegationToken)
      → IsBacked (es ++ request_of t ∷ []) (revoked_copy stable now t)
  unfolding revoke revoked_copy
  request-IsBacked es now t = (refl, (t.agent_id, InLedger-last (request_of t) es))

  save_revoked-IsKeyed :
      (t : DelegationToken) (s : TokenStore) → IsKeyed s → IsKeyed (save_revoked t s).1
  save_revoked-IsKeyed t s k = record {
    own_id = λ id u h. elim (Option-cases (lookup id s.tokens)) [
      | inl missing ↦ ground (arith, h, lookup-save_revoked t id s)
      | inr (old, found) ↦ ground (arith, h, lookup-save_revoked t id s, k.own_id id old found)
    ];
  }

  -- What a landed revocation leaves revoked is backed, if the landed one is.
  land-IsBacked :
      (es : List AuditEvent) (t u : DelegationToken) (id : String) (s : TokenStore)
      → IsKeyed s
      → ((v : DelegationToken) → lookup id s.tokens ≡ some v → v.revoked ≡ true → IsBacked es v)
      → IsBacked es t
      → lookup id (save_revoked t s).1.tokens ≡ some u
      → u.revoked ≡ true
      → IsBacked es u
  land-IsBacked es t u id s k old_backed backed h done = elim (Option-cases (lookup id s.tokens)) [
    | inl missing ↦ absurd (ground (arith, h, lookup-save_revoked t id s))
    | inr (old, found) ↦ elim (Bool-cases old.revoked) [
      | inl already ↦
          let same : old ≡ u = ground (arith, h, lookup-save_revoked t id s) in
          subst (IsBacked es) same (old_backed old found already)
      | inr live ↦
          let own = k.own_id id old found in
          let match : t.token_id ≡ id =
            ground (arith, h, lookup-save_revoked t id s, str_eq_iff t.token_id id) in
          let same_id : u.token_id ≡ t.token_id =
            ground (arith, h, lookup-save_revoked t id s, str_eq_iff t.token_id id) in
          let same_revocation : u.revocation_id ≡ t.revocation_id =
            ground (arith, h, lookup-save_revoked t id s) in
          rw (same_revocation, same_id) backed
    ]
  ]

  Step-IsSound : {w w' : World} → Step w w' → IsSound w → IsSound w'
  Step-IsSound (mint w t e fresh live) h = record {
    keyed = save-IsKeyed t w.store h.keyed;
    backed = λ id u found done.
        IsBacked-left w.ledger _ u
          (h.backed id u (lookup-save_fresh t u id w.store live done found) done);
    waiting = AllBacked-left w.ledger _ w.pending h.waiting;
  }
  Step-IsSound (request w now id t found live) h = record {
    keyed = h.keyed;
    backed = λ j u at done. IsBacked-left w.ledger _ u (h.backed j u at done);
    waiting = (request-IsBacked w.ledger now t, AllBacked-left w.ledger _ w.pending h.waiting);
  }
  Step-IsSound (land w before t after e) h =
      let (one, rest) =
        AllBacked-split w.ledger before t after (subst (AllBacked w.ledger) e h.waiting) in
      record {
        keyed = save_revoked-IsKeyed t w.store h.keyed;
        backed = λ id u found done.
            land-IsBacked w.ledger t u id w.store h.keyed (h.backed id) one found done;
        waiting = rest;
      }
  Step-IsSound (crash w before t after e) h = record {
    keyed = h.keyed;
    backed = h.backed;
    waiting = (AllBacked-split w.ledger before t after (subst (AllBacked w.ledger) e h.waiting)).1;
  }

  -- In every world that concurrent mints and revokes reach from a sound one, each revoked token
  -- carries the stable revocation id, and the ledger holds its request with that id.
  pub Reach-IsSound : {w w' : World} → IsSound w → Reach w w' → IsSound w'
  Reach-IsSound h here = h
  Reach-IsSound h (next r s) = Step-IsSound s (Reach-IsSound h r)

  pub Step-keeps_revoked :
      {w w' : World}
      → Step w w'
      → (id : String) (t : DelegationToken) → lookup id w.store.tokens ≡ some t
      → t.revoked ≡ true
      → IsKeyed w.store
      → lookup id w'.store.tokens ≡ some t
  Step-keeps_revoked (mint w u e fresh live) id t found done k =
      save_fresh-lookup u t id w.store fresh found
  Step-keeps_revoked (request w now j u at live) id t found done k = found
  Step-keeps_revoked (land w before u after e) id t found done k =
      ground (arith, found, done, lookup-save_revoked u id w.store)
  Step-keeps_revoked (crash w before u after e) id t found done k = found
