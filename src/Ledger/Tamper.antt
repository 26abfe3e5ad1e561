-- ===== src/Ledger/Tamper.antt =====
-- Tamper evidence: the head hash of a chain fixes the hashed content of every event before it,
-- unless two of the events are a collision of the hash.
use field_platform.Prelude.{
  ℕ, suc, String, some, List, [], ◌∷◌, ◌≡◌, ◌≢◌, refl, ap, sym, ◌∙◌, ◌⊎◌, inl, inr, true, arith,
  str_eq, str_eq_iff, length, get_elem?, map, Bool-cases,
}
use field_platform.Prelude.Dict.{lookup}
use field_platform.Ledger.{Value, text, Record, LedgerEvent, compute_event_hash, verify_chain}
use field_platform.Ledger.Hash.Cases.{body}
use field_platform.Ledger.Chain.{IsChain, head_hash, verify_chain_iff}

String-discrete : Discrete String
String-discrete s t = elim (Bool-cases (str_eq s t)) [
  | inl same ↦ yes ((str_eq_iff s t).0 same)
  | inr other ↦ no (λ e. cc (other, (str_eq_iff s t).1 e))
]

Value-discrete : Discrete Value
Value-discrete = hlevel String-discrete

Record-discrete : Discrete Record
Record-discrete = hlevel (String-discrete, Value-discrete)

prev_hash-body : (e f : LedgerEvent) → body e ≡ body f → e.prev_hash ≡ f.prev_hash
unfolding lookup
prev_hash-body e f q = text_injective (ap (λ r. lookup "prev_hash" r) q)
  where
    text_injective : {s t : String} → some (text s) ≡ some (text t) → s ≡ t
    text_injective h = cc

module _ (hexdigest : Record → String) where
  -- Two events at the same place whose contents differ and whose hashes are equal.
  abbrev pub Collision : List LedgerEvent → List LedgerEvent → Type 0
  Collision xs ys =
      (i : ℕ) × (e : LedgerEvent) × (f : LedgerEvent) × (get_elem? xs i ≡ some e)
      × (get_elem? ys i ≡ some f)
      × (body e ≢ body f)
      × (compute_event_hash hexdigest e ≡ compute_event_hash hexdigest f)

  agree_or_collide :
      (g h : String) (xs ys : List LedgerEvent)
      → IsChain hexdigest g xs
      → IsChain hexdigest h ys
      → length xs ≡ length ys
      → head_hash hexdigest g xs ≡ head_hash hexdigest h ys
      → ((map body xs ≡ map body ys) × (g ≡ h)) ⊎ Collision xs ys
  agree_or_collide g h [] [] c d len q = inl (refl, q)
  agree_or_collide g h [] (f ∷ ys) c d len q = absurd (omega arith)
  agree_or_collide g h (e ∷ xs) [] c d len q = absurd (omega arith)
  agree_or_collide g h (e ∷ xs) (f ∷ ys) c d len q =
      elim (agree_or_collide e.hash f.hash xs ys c.2 d.2 (omega arith) q) [
        | inr (i, a, b, p, r, n, s) ↦ inr (suc i, a, b, p, r, n, s)
        | inl (rest, hash) ↦ elim (Record-discrete (body e) (body f)) [
          | yes same ↦ inl (cc (same, rest), sym c.0 ∙ prev_hash-body e f same ∙ d.0)
          | no other ↦ inr (0, e, f, refl, refl, other, c.1 ∙ hash ∙ sym d.1)
        ]
      ]

  -- Two accepted chains of one length and one head hash have the same hashed contents, event by
  -- event, and the same start, unless they hold a collision of the hash.
  pub same_head_same_content :
      (g h : String) (xs ys : List LedgerEvent)
      → (verify_chain hexdigest g xs).ok ≡ true
      → (verify_chain hexdigest h ys).ok ≡ true
      → length xs ≡ length ys
      → head_hash hexdigest g xs ≡ head_hash hexdigest h ys
      → ((map body xs ≡ map body ys) × (g ≡ h)) ⊎ Collision xs ys
  same_head_same_content g h xs ys okx oky =
      agree_or_collide g h xs ys ((verify_chain_iff hexdigest g xs).0 okx)
        ((verify_chain_iff hexdigest h ys).0 oky)
