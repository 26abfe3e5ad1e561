-- ===== src/Federation/Decide/Permits.antt =====
-- When a crossing is allowed, and what the table of contracts means for it.
use field_platform.Prelude.{
  String, Bool, true, false, not, Option, none, some, ◌≡◌, refl, ◌↔◌, ◌⊎◌, inl, inr, str_eq,
  elem_of, if◌then◌else◌, arith, Option-cases, subst,
}
use field_platform.Prelude.Dict.{lookup}
use field_platform.Federation.{FederationContract, Row, ContractStore, for_org, is_hit, save}
use field_platform.Federation.OneActive.{IsOneActive, for_org-save_inactive}
use field_platform.Federation.Decide.{
  World, Manifest, Direction, inbound, outbound, CrossingRequest, Verdict, allow, block, f_peer,
  unusable_key, unsigned, bad_signature, federates, peers_of, lists_org, within_contract, signed,
  verifies, check_signature, with_contract, check_manifest, decide_inbound, decide_outbound,
  verdict_on,
}

direction_cases : (d : Direction) → (d ≡ inbound) ⊎ (d ≡ outbound)
direction_cases inbound = inl refl
direction_cases outbound = inr refl

module _ (w : World) where
  -- A valid manifest that federates and lists the org.
  abbrev pub IsManifested : Manifest → String → Type 0
  IsManifested m org =
      (w.is_valid m ≡ true)
      × (federates m.federated ≡ true)
      × (lists_org w (peers_of m.federated) org ≡ true)

  -- A signature of the manifest under the contract's usable key.
  abbrev pub IsSigned : CrossingRequest → Manifest → FederationContract → Type 0
  IsSigned r m c =
      (pem : String) × (signature : String) × (c.counterparty_pubkey_pem ≡ some pem)
      × (r.manifest_signature ≡ some signature)
      × (str_eq signature "" ≡ false)
      × (w.is_usable_key pem ≡ true)
      × (w.verify_manifest m signature pem ≡ true)

  abbrev pub IsWithin : CrossingRequest → FederationContract → Type 0
  IsWithin r c =
      (elem_of r.scope c.allowed_scopes ≡ true)
      × (elem_of r.data_class c.allowed_data_classes ≡ true)

  abbrev pub IsPermittedIn :
      Direction → CrossingRequest → ContractStore → FederationContract → Type 0
  IsPermittedIn inbound r s c =
      (m : Manifest) × (r.counterparty_manifest ≡ some m)
      × IsManifested m w.home_org
      × (for_org w.contains w.normalize_org r.counterparty_org s ≡ some c)
      × IsSigned r m c
      × IsWithin r c
  IsPermittedIn outbound r s c =
      (m : Manifest) × (r.manifest ≡ some m)
      × IsManifested m r.counterparty_org
      × (for_org w.contains w.normalize_org r.counterparty_org s ≡ some c)
      × IsWithin r c

  -- What a crossing needs, in its direction.
  abbrev pub IsPermitted : CrossingRequest → ContractStore → FederationContract → Type 0
  IsPermitted r s c = IsPermittedIn r.direction r s c

  within_contract_iff :
      (r : CrossingRequest) (c d : FederationContract)
      → (within_contract w r c ≡ allow d) ↔ ((c ≡ d) × IsWithin r c)
  unfolding within_contract
  within_contract_iff r c d = ground arith

  manifest_iff :
      (m : Manifest) (org : String) (v : Verdict) (d : FederationContract)
      → (check_manifest w m org v ≡ allow d) ↔ (IsManifested m org × (v ≡ allow d))
  unfolding check_manifest
  manifest_iff m org v d = ground arith

  contract_iff :
      (o : Option FederationContract) (f : FederationContract → Verdict) (d : FederationContract)
      → (with_contract w o f ≡ allow d)
        ↔ ((c : FederationContract) × (o ≡ some c) × (f c ≡ allow d))
  contract_iff none f d = (λ h. cc, λ h. absurd (cc h.1))
  contract_iff (some c) f d = (λ h. (c, refl, h), λ (x, e, h). let same : c ≡ x = cc in rw same h)

  tests_iff :
      (a b c : Bool) (v : Verdict) (d : FederationContract)
      → ((if not a
            then block f_peer unusable_key
            else (if not b
                then block f_peer unsigned
                else (if not c then block f_peer bad_signature else v)))
          ≡ allow d)
        ↔ ((a ≡ true) × (b ≡ true) × (c ≡ true) × (v ≡ allow d))
  tests_iff a b c v d = ground arith

  not_false : (b : Bool) → (not b ≡ true) ↔ (b ≡ false)
  not_false b = ground arith

  signature-IsSigned :
      (r : CrossingRequest) (m : Manifest) (c d : FederationContract)
      → check_signature w r m c ≡ allow d
      → IsSigned r m c × (within_contract w r c ≡ allow d)
  unfolding check_signature
  signature-IsSigned r m c d h = elim (Option-cases c.counterparty_pubkey_pem) [
    | inl e ↦ cc (rw (e, check_signature) at h)
    | inr (pem, e) ↦ elim (Option-cases r.manifest_signature) [
      | inl s ↦
          let (a, b, x, v) =
            (tests_iff (w.is_usable_key pem) (signed w none) (verifies w m none pem)
                (within_contract w r c) d).0
              (rw (e, s, check_signature) at h) in
          cc b
      | inr (sig, s) ↦
          let (a, b, x, v) = (tests_iff _ _ _ _ d).0 (rw (e, s, check_signature) at h) in
          ((pem, sig, e, s, (not_false _).0 b, a, x), v)
    ]
  ]

  IsSigned-signature :
      (r : CrossingRequest) (m : Manifest) (c d : FederationContract)
      → IsSigned r m c
      → within_contract w r c ≡ allow d
      → check_signature w r m c ≡ allow d
  unfolding check_signature
  IsSigned-signature r m c d (pem, sig, e, s, given, usable, verified) inside =
      rw (e, s, check_signature)
        ((tests_iff _ _ _ _ d).1 (usable, (not_false _).1 given, verified, inside))

  inbound_iff :
      (r : CrossingRequest) (s : ContractStore) (c : FederationContract)
      → (decide_inbound w r s ≡ allow c) ↔ IsPermittedIn inbound r s c
  unfolding decide_inbound
  inbound_iff r s c = (forward, backward)
    where
      forward : decide_inbound w r s ≡ allow c → IsPermittedIn inbound r s c
      forward h = elim (Option-cases r.counterparty_manifest) [
        | inl e ↦ cc (rw (e, decide_inbound) at h)
        | inr (m, e) ↦
            let (fine, v) = (manifest_iff m w.home_org _ c).0 (rw (e, decide_inbound) at h) in
            let (x, found, checked) = (contract_iff _ (check_signature w r m) c).0 v in
            let (sealed, inside) = signature-IsSigned r m x c checked in
            let (same, within) = (within_contract_iff r x c).0 inside in
            let at : for_org w.contains w.normalize_org r.counterparty_org s ≡ some c =
              cc (found, same) in
            (m, e, fine, at, subst (IsSigned r m) same sealed, subst (IsWithin r) same within)
      ]

      backward : IsPermittedIn inbound r s c → decide_inbound w r s ≡ allow c
      backward (m, e, fine, found, sealed, within) =
          rw (e, decide_inbound)
            ((manifest_iff m w.home_org _ c).1 (
              fine,
              (contract_iff _ (check_signature w r m) c).1 (
                c,
                found,
                IsSigned-signature r m c c sealed ((within_contract_iff r c c).1 (refl, within)),
              ),
            ))

  outbound_iff :
      (r : CrossingRequest) (s : ContractStore) (c : FederationContract)
      → (decide_outbound w r s ≡ allow c) ↔ IsPermittedIn outbound r s c
  unfolding decide_outbound
  outbound_iff r s c = (forward, backward)
    where
      forward : decide_outbound w r s ≡ allow c → IsPermittedIn outbound r s c
      forward h = elim (Option-cases r.manifest) [
        | inl e ↦ cc (rw (e, decide_outbound) at h)
        | inr (m, e) ↦
            let (fine, v) =
              (manifest_iff m r.counterparty_org _ c).0 (rw (e, decide_outbound) at h) in
            let (x, found, inside) = (contract_iff _ (within_contract w r) c).0 v in
            let (same, within) = (within_contract_iff r x c).0 inside in
            let at : for_org w.contains w.normalize_org r.counterparty_org s ≡ some c =
              cc (found, same) in
            (m, e, fine, at, subst (IsWithin r) same within)
      ]

      backward : IsPermittedIn outbound r s c → decide_outbound w r s ≡ allow c
      backward (m, e, fine, found, within) =
          rw (e, decide_outbound)
            ((manifest_iff m r.counterparty_org _ c).1 (
              fine,
              (contract_iff _ (within_contract w r) c).1
                  (c, found, (within_contract_iff r c c).1 (refl, within)),
            ))

  -- A crossing is allowed under a contract exactly when the manifest is valid, federates and lists the
  -- other side, the contract is the org's, the scope and the data class are inside it, and, inbound, the
  -- contract holds a usable key under which the presented manifest is signed.
  pub verdict_on_iff :
      (r : CrossingRequest) (s : ContractStore) (c : FederationContract)
      → (verdict_on w r s ≡ allow c) ↔ IsPermitted r s c
  unfolding verdict_on
  verdict_on_iff r s c = elim (direction_cases r.direction) [
    | inl e ↦ rw (e, verdict_on, IsPermitted) (inbound_iff r s c)
    | inr e ↦ rw (e, verdict_on, IsPermitted) (outbound_iff r s c)
  ]

abbrev pub IsBlocked : Verdict → Type 0
IsBlocked (allow c) = ⊥
IsBlocked (block clause reason) = Unit

permitted_contract :
    (w : World) (d : Direction) (r : CrossingRequest) (s : ContractStore) (c : FederationContract)
    → IsPermittedIn w d r s c
    → for_org w.contains w.normalize_org r.counterparty_org s ≡ some c
permitted_contract w inbound r s c (m, e, fine, found, sealed, within) = found
permitted_contract w outbound r s c (m, e, fine, found, rest) = found

no_contract-IsBlocked :
    (w : World) (r : CrossingRequest) (s : ContractStore) (v : Verdict)
    → verdict_on w r s ≡ v
    → for_org w.contains w.normalize_org r.counterparty_org s ≡ none
    → IsBlocked v
no_contract-IsBlocked w r s (allow c) e absent =
    cc (absent, permitted_contract w r.direction r s c ((verdict_on_iff w r s c).0 e))
no_contract-IsBlocked w r s (block clause reason) e absent = tt

-- Once an org's active contract is saved as inactive, every crossing with that org is blocked, in both
-- directions, under any spelling of its name, whatever is presented.
pub save_inactive-IsBlocked :
    (w : World) (c : FederationContract) (old : Row) (s : ContractStore)
    → IsOneActive w.normalize_org s
    → lookup c.contract_id s.rows ≡ some old
    → c.is_active ≡ false
    → (r : CrossingRequest) → is_hit w.normalize_org (w.normalize_org r.counterparty_org) old ≡ true
    → IsBlocked (verdict_on w r (save w.normalize_org c s).1)
save_inactive-IsBlocked w c old s one found inactive r hit =
    no_contract-IsBlocked w r (save w.normalize_org c s).1 _ refl (
      for_org-save_inactive w.normalize_org w.contains r.counterparty_org c old s one found hit
        inactive)
