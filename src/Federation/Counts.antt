-- ===== src/Federation/Counts.antt =====
-- How many active contracts an org has, and what a write does to that number.
use field_platform.Prelude.{
  ℕ, ◌+◌, ◌≤◌, String, Bool, true, false, ◌&&◌, not, none, some, [], ◌∷◌, ◌≡◌, refl, arith, str_eq,
  str_eq_iff, Bool-cases, inl, inr, subst,
}
use field_platform.Prelude.Dict.{Dict, lookup, insert}
use field_platform.Federation.{Row, is_hit, has_other, hits}

abbrev pub one_if : Bool → ℕ
one_if true = 1
one_if false = 0

-- Each id has one row: it is the primary key.
abbrev pub IsDistinct : Dict Row → Type 0
IsDistinct [] = Unit
IsDistinct ((id, r) ∷ rows) = (lookup id rows ≡ none) × IsDistinct rows

module _ (normalize_org : String → String) (key : String) where
  unfoldable pub count : Dict Row → ℕ
  count [] = 0
  count ((j, r) ∷ rows) = one_if (is_hit normalize_org key r) + count rows

  unfoldable pub others : String → Dict Row → ℕ
  others id [] = 0
  others id ((j, r) ∷ rows) =
      one_if (not (str_eq j id) && is_hit normalize_org key r) + others id rows

  pub has_other-others :
      (id : String) (rows : Dict Row)
      → has_other normalize_org key id rows ≡ false
      → others id rows ≡ 0
  unfolding has_other others
  has_other-others id [] h = refl
  has_other-others id ((j, r) ∷ rows) h = ground (arith, has_other-others id rows)

  others-missing :
      (id : String) (rows : Dict Row) → lookup id rows ≡ none → others id rows ≡ count rows
  unfolding others count lookup
  others-missing id [] h = refl
  others-missing id ((j, r) ∷ rows) h = ground (arith, others-missing id rows)

  pub count-insert :
      (id : String) (r : Row) (rows : Dict Row)
      → IsDistinct rows
      → count (insert id r rows) ≡ others id rows + one_if (is_hit normalize_org key r)
  unfolding others count insert
  count-insert id r [] h = omega arith
  count-insert id r ((j, q) ∷ rows) h = elim (Bool-cases (str_eq j id)) [
    | inl e ↦
        let missing : lookup id rows ≡ none =
          subst (λ x. lookup x rows ≡ none) ((str_eq_iff j id).0 e) h.0 in
        rw e (omega (arith, others-missing id rows missing))
    | inr e ↦ rw e (omega (arith, count-insert id r rows h.1))
  ]

  pub count-found :
      (id : String) (r : Row) (rows : Dict Row)
      → IsDistinct rows
      → lookup id rows ≡ some r
      → count rows ≡ others id rows + one_if (is_hit normalize_org key r)
  unfolding others count lookup
  count-found id r [] h e = cc
  count-found id r ((j, q) ∷ rows) h e = elim (Bool-cases (str_eq j id)) [
    | inl same ↦
        let missing : lookup id rows ≡ none =
          subst (λ x. lookup x rows ≡ none) ((str_eq_iff j id).0 same) h.0 in
        let row : q ≡ r = cc (rw same at e) in
        rw (same, row) (omega (arith, others-missing id rows missing))
    | inr other ↦ rw other (omega (arith, count-found id r rows h.1 (rw other at e)))
  ]

  pub hits-none : (rows : Dict Row) → count rows ≡ 0 → hits normalize_org key rows ≡ []
  unfolding count hits
  hits-none [] h = refl
  hits-none ((j, q) ∷ rows) h = ground (arith, hits-none rows)

  -- The only active contract of an org is what the listing of the org's contracts holds.
  pub hits-only :
      (id : String) (r : Row) (rows : Dict Row)
      → IsDistinct rows
      → count rows ≤ 1
      → lookup id rows ≡ some r
      → is_hit normalize_org key r ≡ true
      → hits normalize_org key rows ≡ (id, r.contract) ∷ []
  unfolding count hits lookup
  hits-only id r [] d c e h = cc
  hits-only id r ((j, q) ∷ rows) d c e h = elim (Bool-cases (str_eq j id)) [
    | inl same ↦
        let row : q ≡ r = cc (rw same at e) in
        let key_is : j ≡ id = (str_eq_iff j id).0 same in
        let lone : one_if true + count rows ≤ 1 = rw (row, h) at c in
        rw (row, key_is, h, hits-none rows (omega arith)) refl
    | inr other ↦
        let found = rw other at e in
        let counted = count-found id r rows d.1 found in
        elim (Bool-cases (is_hit normalize_org key q)) [
          | inl hit ↦
              let full : one_if true + count rows ≤ 1 = rw hit at c in
              let one : count rows ≡ others id rows + 1 = rw h at counted in absurd (omega arith)
          | inr miss ↦ rw miss (hits-only id r rows d.1 (omega (arith, c)) found h)
        ]
  ]
