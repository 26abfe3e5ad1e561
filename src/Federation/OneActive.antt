-- ===== src/Federation/OneActive.antt =====
-- One active contract per counterparty org, by the normalised name.
use field_platform.Prelude.{
  ◌+◌, ◌≤◌, String, Bool, true, false, ◌&&◌, Option, none, some, [], ◌∷◌, ◌≡◌, refl, arith, str_eq,
  str_eq_iff, Bool-cases, inl, inr, if◌then◌else◌, subst,
}
use field_platform.Prelude.Dict.{Dict, lookup, insert, lookup-insert}
use field_platform.Federation.{
  FederationContract, Row, ContractStore, is_hit, has_other, breaks_index, save, served, for_org,
}
use field_platform.Federation.Counts.{
  IsDistinct, count, others, has_other-others, count-insert, count-found, hits-only, hits-none,
}

abbrev pub row_of : (String → String) → FederationContract → Row
row_of normalize_org c = record { contract = c; org_key = some (normalize_org c.counterparty_org) }

pub record IsOneActive (normalize_org : String → String) (s : ContractStore) : Type 0 where
  pub distinct : IsDistinct s.rows
  pub one : (key : String) → count normalize_org key s.rows ≤ 1

insert-missing :
    (id j : String) (r : Row) (rows : Dict Row)
    → lookup j rows ≡ none
    → str_eq id j ≡ false
    → lookup j (insert id r rows) ≡ none
insert-missing id j r rows h apart = rw (lookup-insert id j r rows, apart) h

str_eq_flip : (s t : String) → str_eq s t ≡ false → str_eq t s ≡ false
str_eq_flip s t h = ground (arith, str_eq_iff s t, str_eq_iff t s)

insert-IsDistinct :
    (id : String) (r : Row) (rows : Dict Row) → IsDistinct rows → IsDistinct (insert id r rows)
unfolding insert lookup
insert-IsDistinct id r [] h = (refl, tt)
insert-IsDistinct id r ((j, q) ∷ rows) h = elim (Bool-cases (str_eq j id)) [
  | inl same ↦ rw (same, IsDistinct) h
  | inr other ↦
      rw (other, IsDistinct)
        (insert-missing id j r rows h.0 (str_eq_flip j id other), insert-IsDistinct id r rows h.1)
]

and_parts : (a b : Bool) → (a && b) ≡ true → (a ≡ true) × (b ≡ true)
and_parts a b h = ground arith

and_other : (a b : Bool) → a ≡ true → (a && b) ≡ false → b ≡ false
and_other a b e h = ground arith

and_off : (a b c : Bool) → b ≡ false → ((b && c) ≡ false) × ((a && (b && c)) ≡ false)
and_off a b c h = ground arith

blank : (b : Bool) (o : Option FederationContract) → o ≡ none → (if b then none else o) ≡ none
blank b o h = ground arith

module _ (normalize_org : String → String) where
  others-le-count :
      (key id : String) (rows : Dict Row)
      → others normalize_org key id rows ≤ count normalize_org key rows
  unfolding others count
  others-le-count key id [] = omega arith
  others-le-count key id ((j, q) ∷ rows) = ground (arith, others-le-count key id rows)

  written-one :
      (c : FederationContract) (s : ContractStore)
      → IsOneActive normalize_org s
      → (c.is_active
          && has_other normalize_org (normalize_org c.counterparty_org) c.contract_id s.rows)
        ≡ false
      → (key : String)
      → count normalize_org key (insert c.contract_id (row_of normalize_org c) s.rows) ≤ 1
  written-one c s h free key =
      let written =
        count-insert normalize_org key c.contract_id (row_of normalize_org c) s.rows h.distinct in
      let bound = others-le-count key c.contract_id s.rows in
      let one = h.one key in
      elim (Bool-cases (is_hit normalize_org key (row_of normalize_org c))) [
        | inr miss ↦ let w = rw miss at written in omega arith
        | inl hit ↦
            let w : count normalize_org key (insert c.contract_id (row_of normalize_org c) s.rows)
                ≡ others normalize_org key c.contract_id s.rows + 1 =
              rw hit at written in
            let none_left : others normalize_org key c.contract_id s.rows ≡ 0 =
              let (live, same) =
                and_parts c.is_active (str_eq (normalize_org c.counterparty_org) key) hit in
              let key_is : normalize_org c.counterparty_org ≡ key =
                (str_eq_iff (normalize_org c.counterparty_org) key).0 same in
              let unused : has_other normalize_org (normalize_org c.counterparty_org) c.contract_id
                    s.rows
                  ≡ false =
                and_other c.is_active _ live free in
              subst (λ (k : String). others normalize_org k c.contract_id s.rows ≡ 0) key_is
                (has_other-others normalize_org (normalize_org c.counterparty_org) c.contract_id
                  s.rows unused) in
            omega arith
      ]

  -- `save` keeps the rule: one row for each id, at most one active contract for each org.
  pub save-IsOneActive :
      (c : FederationContract) (s : ContractStore)
      → IsOneActive normalize_org s
      → IsOneActive normalize_org (save normalize_org c s).1
  unfolding save
  save-IsOneActive c s h =
      let key = normalize_org c.counterparty_org in
      elim (Bool-cases (c.is_active && has_other normalize_org key c.contract_id s.rows)) [
        | inl taken ↦ rw (taken, save) h
        | inr free ↦
            elim (Bool-cases
              (s.indexed && (c.is_active && breaks_index normalize_org key c.contract_id s.rows))) [
                | inl broken ↦ rw (free, broken, save) h
                | inr whole ↦
                    rw (free, whole, save)
                      (record {
                        distinct =
                            insert-IsDistinct c.contract_id (row_of normalize_org c) s.rows
                              h.distinct;
                        one = written-one c s h free;
                      })
              ]
      ]

  -- With the rule, the org's contract is the active row: under any spelling of the name that
  -- normalises to the same text, and under no blank one.
  pub for_org-only :
      (contains : String → String → Bool) (org id : String) (r : Row) (s : ContractStore)
      → IsOneActive normalize_org s
      → lookup id s.rows ≡ some r
      → is_hit normalize_org (normalize_org org) r ≡ true
      → str_eq (normalize_org org) "" ≡ false
      → for_org contains normalize_org org s ≡ some (served contains r.contract)
  unfolding for_org
  for_org-only contains org id r s h found hit named =
      rw
        (
          named,
          hits-only normalize_org (normalize_org org) id r s.rows h.distinct (h.one _) found hit,
          for_org,
        )
        refl

  -- Saving an org's active contract as inactive leaves the org with no contract.
  pub for_org-save_inactive :
      (contains : String → String → Bool) (org : String) (c : FederationContract) (r : Row)
      (s : ContractStore)
      → IsOneActive normalize_org s
      → lookup c.contract_id s.rows ≡ some r
      → is_hit normalize_org (normalize_org org) r ≡ true
      → c.is_active ≡ false
      → for_org contains normalize_org org (save normalize_org c s).1 ≡ none
  unfolding for_org save
  for_org-save_inactive contains org c r s h found hit inactive =
      let key = normalize_org org in
      let free =
        (and_off s.indexed c.is_active
          (has_other normalize_org (normalize_org c.counterparty_org) c.contract_id s.rows)
          inactive).0 in
      let whole =
        (and_off s.indexed c.is_active
          (breaks_index normalize_org (normalize_org c.counterparty_org) c.contract_id s.rows)
          inactive).1 in
      let written =
        count-insert normalize_org key c.contract_id (row_of normalize_org c) s.rows h.distinct in
      let before = count-found normalize_org key c.contract_id r s.rows h.distinct found in
      let was : count normalize_org key s.rows ≡ others normalize_org key c.contract_id s.rows + 1 =
        rw hit at before in
      let one = h.one key in
      let gone : is_hit normalize_org key (row_of normalize_org c) ≡ false =
        (and_off true c.is_active _ inactive).0 in
      let now : count normalize_org key (insert c.contract_id (row_of normalize_org c) s.rows)
          ≡ others normalize_org key c.contract_id s.rows + 0 =
        rw gone at written in
      let empty =
        hits-none normalize_org key (insert c.contract_id (row_of normalize_org c) s.rows)
          (omega arith) in
      rw (free, whole, save, empty, for_org) (blank (str_eq key "") none refl)
