-- ===== src/Delegation/Revoke/Introspect.antt =====
-- When the two introspection endpoints call a token active.
use field_platform.Prelude.{
  ℕ, ◌<◌, String, true, false, some, ◌≡◌, ◌↔◌, inl, inr, arith, Option-cases,
}
use field_platform.Delegation.{DelegationToken}
use field_platform.Delegation.Store.{TokenStore, get}
use field_platform.Delegation.Revoke.{introspect, oauth_introspect}

module _ (now : ℕ) (id : String) (s : TokenStore) where
  -- A stored token that is neither revoked nor expired.
  abbrev pub Live : DelegationToken → Type 0
  Live t = (get id s ≡ some t) × (t.revoked ≡ false) × (now < t.expires_at)

  -- `/introspect` calls an id active exactly when a live token stands under it, and
  -- `/oauth/introspect` then describes that token and otherwise nothing: an unknown, an expired and
  -- a revoked id cannot be told apart.
  pub introspect-Live :
      (((introspect now id s).active ≡ true) ↔ ((t : DelegationToken) × Live t))
      × ((t : DelegationToken) → (oauth_introspect now id s ≡ some t) ↔ Live t)
  unfolding introspect oauth_introspect
  introspect-Live = elim (Option-cases (get id s)) [
    | inl missing ↦
        ((λ h. absurd (ground arith), λ (t, l). absurd (ground arith)), λ t. ground arith)
    | inr (u, found) ↦
        ((λ h. (u, (found, ground arith, ground arith)), λ (t, l). ground arith), λ t. ground arith)
  ]
