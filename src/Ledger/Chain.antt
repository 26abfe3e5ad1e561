-- ===== src/Ledger/Chain.antt =====
-- `verify_chain` accepts exactly the chains, and names the first event that breaks one.
use field_platform.Prelude.{
  ℕ, zero, suc, ◌+◌, ◌<◌, String, true, false, Option, none, some, List, [], ◌∷◌, ◌++◌, ◌≡◌, refl,
  ap, ◌∙◌, ◌↔◌, ◌⊎◌, inl, inr, arith, str_eq, str_eq_iff, length, take, Bool-cases, map,
}
use field_platform.Ledger.{
  Record, LedgerEvent, ChainVerification, compute_event_hash, verify_from, verify_chain, make_event,
}
use field_platform.Ledger.Hash.{compute_event_hash-signature, make_event-IsSealed}

-- The same event with another signature, or with none.
abbrev pub resign : (LedgerEvent → Option String) → LedgerEvent → LedgerEvent
resign sign e = record e { signature = sign e }

module _ (hexdigest : Record → String) where
  -- Every event is linked to the one before it and carries its own hash.
  abbrev pub IsChain : String → List LedgerEvent → Type 0
  IsChain g [] = Unit
  IsChain g (e ∷ es) =
      (e.prev_hash ≡ g) × (compute_event_hash hexdigest e ≡ e.hash) × IsChain e.hash es

  -- How the walk may end: every event accepted, or a first break after a chain.
  abbrev pub Verdict : String → ℕ → List LedgerEvent → ChainVerification → Type 0
  Verdict g n es v =
      ((v.ok ≡ true) × (v.length ≡ n + length es) × (v.first_break_index ≡ none) × IsChain g es)
      ⊎ ((k : ℕ) × (v.ok ≡ false)
          × (v.first_break_index ≡ some (n + k))
          × (v.length ≡ n + k + 1)
          × (k < length es)
          × IsChain g (take k es)
          × ¬ IsChain g (take (suc k) es))

  Verdict-cons :
      (g : String) (n : ℕ) (e : LedgerEvent) (es : List LedgerEvent) (v : ChainVerification)
      → e.prev_hash ≡ g
      → compute_event_hash hexdigest e ≡ e.hash
      → Verdict e.hash (suc n) es v
      → Verdict g n (e ∷ es) v
  Verdict-cons g n e es v linked sealed (inl (ok, len, at, chain)) =
      inl (ok, omega (arith, len), at, (linked, sealed, chain))
  Verdict-cons g n e es v linked sealed (inr (k, ok, at, len, lt, chain, broken)) = inr (
    suc k,
    ok,
    at ∙ ap some (omega arith),
    omega (arith, len),
    omega (arith, lt),
    (linked, sealed, chain),
    λ c. broken c.2,
  )

  verify_from-Verdict :
      (g : String) (n : ℕ) (es : List LedgerEvent) → Verdict g n es (verify_from hexdigest g n es)
  unfolding verify_from
  verify_from-Verdict g n [] = inl (refl, omega arith, refl, tt)
  verify_from-Verdict g n (e ∷ es) = elim (Bool-cases (str_eq e.prev_hash g)) [
    | inr unlinked ↦ rw unlinked (
        inr (
          0,
          refl,
          ap some (omega arith),
          omega arith,
          omega arith,
          tt,
          λ c. cc (unlinked, (str_eq_iff e.prev_hash g).1 c.0),
        ))
    | inl linked ↦ elim (Bool-cases (str_eq (compute_event_hash hexdigest e) e.hash)) [
      | inr mutated ↦
          rw (linked, mutated)
            (inr (
              0,
              refl,
              ap some (omega arith),
              omega arith,
              omega arith,
              tt,
              λ c. cc (mutated, (str_eq_iff (compute_event_hash hexdigest e) e.hash).1 c.1),
            ))
      | inl sealed ↦
          rw (linked, sealed)
            (Verdict-cons g n e es (verify_from hexdigest e.hash (suc n) es)
              ((str_eq_iff e.prev_hash g).0 linked)
              ((str_eq_iff (compute_event_hash hexdigest e) e.hash).0 sealed)
              (verify_from-Verdict e.hash (suc n) es))
    ]
  ]

  -- The walk accepts and counts every event of a chain; otherwise the index that it reports is the
  -- first one at which the events stop being a chain.
  pub verify_chain-Verdict :
      (g : String) (es : List LedgerEvent) → Verdict g 0 es (verify_chain hexdigest g es)
  unfolding verify_chain
  verify_chain-Verdict g es = verify_from-Verdict g 0 es

  take-IsChain : (g : String) (k : ℕ) (es : List LedgerEvent) → IsChain g es → IsChain g (take k es)
  take-IsChain g zero es c = tt
  take-IsChain g (suc k) [] c = tt
  take-IsChain g (suc k) (e ∷ es) (l, s, c) = (l, s, take-IsChain e.hash k es c)

  -- The walk accepts exactly the chains.
  pub verify_chain_iff :
      (g : String) (es : List LedgerEvent)
      → ((verify_chain hexdigest g es).ok ≡ true) ↔ IsChain g es
  verify_chain_iff g es = elim (verify_chain-Verdict g es) [
    | inl (ok, len, at, chain) ↦ ((λ _. chain), (λ _. ok))
    | inr (k, ok, at, len, lt, chain, broken) ↦
        ((λ h. cc (h, ok)), (λ c. absurd (broken (take-IsChain g (suc k) es c))))
  ]

  -- The hash that the next event has to carry: `genesis_hash`, or the hash of the last event.
  abbrev pub head_hash : String → List LedgerEvent → String
  head_hash g [] = g
  head_hash g (e ∷ es) = head_hash e.hash es

  IsChain-append :
      (g : String) (es fs : List LedgerEvent)
      → IsChain g es
      → IsChain (head_hash g es) fs
      → IsChain g (es ++ fs)
  IsChain-append g [] fs c d = d
  IsChain-append g (e ∷ es) fs (l, s, c) d = (l, s, IsChain-append e.hash es fs c d)

  make_event-prev_hash :
      (uuid4 now y : String) (p : Option String) (v : String) (a t i : Option String)
      → (make_event hexdigest uuid4 now y p v a t i).prev_hash ≡ v
  unfolding make_event
  make_event-prev_hash uuid4 now y p v a t i = refl

  -- A chain to which `make_event` appends on its head hash is accepted again.
  pub verify_chain-make_event :
      (g : String) (es : List LedgerEvent) (uuid4 now y : String) (p : Option String)
      (a t i : Option String)
      → (verify_chain hexdigest g es).ok ≡ true
      → let e = make_event hexdigest uuid4 now y p (head_hash g es) a t i in
        (verify_chain hexdigest g (es ++ e ∷ [])).ok ≡ true
  verify_chain-make_event g es uuid4 now y p a t i ok =
      let v = head_hash g es in
      (verify_chain_iff g (es ++ make_event hexdigest uuid4 now y p v a t i ∷ [])).1 (
        IsChain-append g es _ ((verify_chain_iff g es).0 ok) (
          make_event-prev_hash uuid4 now y p v a t i,
          make_event-IsSealed hexdigest uuid4 now y p v a t i,
          tt,
        ))

  verify_from-signature :
      (sign : LedgerEvent → Option String) (g : String) (n : ℕ) (es : List LedgerEvent)
      → verify_from hexdigest g n (map (resign sign) es) ≡ verify_from hexdigest g n es
  unfolding verify_from
  verify_from-signature sign g n [] = refl
  verify_from-signature sign g n (e ∷ es) = rw (
    compute_event_hash-signature hexdigest e (sign e),
    verify_from-signature sign e.hash (suc n) es,
  )

  -- Signing, re-signing or stripping the events changes nothing that the walk reports.
  pub verify_chain-signature :
      (sign : LedgerEvent → Option String) (g : String) (es : List LedgerEvent)
      → verify_chain hexdigest g (map (resign sign) es) ≡ verify_chain hexdigest g es
  unfolding verify_chain
  verify_chain-signature sign g es = verify_from-signature sign g 0 es
