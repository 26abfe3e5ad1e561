-- ===== src/Delegation/Doa.antt =====
-- The roster of human grantors, doa.py. Reading the file and its YAML is not modelled.
use field_platform.Prelude.{
  ℕ, String, Bool, true, ◌&&◌, not, Option, none, some, List, [], ◌∷◌, ◌≡◌, refl, arith, str_eq,
  elem_of, if◌then◌else◌, All,
}

pub record GrantorRow : Type 0 where
  pub grantor : String
  pub allowed_scope : List String
  pub max_ttl_days : ℕ
  pub max_spend_usd : Option ℕ
  pub active : Bool

-- `[s for s in scope if s not in allowed]`
unfoldable pub outside : List String → List String → List String
outside [] allowed = []
outside (s ∷ scope) allowed =
    let rest = outside scope allowed in if elem_of s allowed then rest else s ∷ rest

unfoldable pub may_delegate : GrantorRow → List String → List String
unfolding outside
may_delegate row scope = outside scope row.allowed_scope

-- `DoaRoster.find`
unfoldable pub find : List GrantorRow → String → Option GrantorRow
find [] grantor = none
find (row ∷ rows) grantor = if str_eq row.grantor grantor then some row else find rows grantor

-- `_grantors_are_unique`: false is the ValueError. `seen` holds the grantors of the rows before.
unfoldable pub grantors_are_unique : List String → List GrantorRow → Bool
grantors_are_unique seen [] = true
grantors_are_unique seen (row ∷ rows) =
    not (elem_of row.grantor seen) && grantors_are_unique (row.grantor ∷ seen) rows

-- Every scope of the list is among the allowed ones.
abbrev pub IsWithin : List String → List String → Type 0
IsWithin scope allowed = All (λ s. elem_of s allowed ≡ true) scope

pub outside-nil :
    (scope allowed : List String) → outside scope allowed ≡ [] → IsWithin scope allowed
unfolding outside
outside-nil [] allowed h = tt
outside-nil (s ∷ scope) allowed h = ground (arith, outside-nil scope allowed)

pub IsWithin-outside :
    (scope allowed : List String) → IsWithin scope allowed → outside scope allowed ≡ []
unfolding outside
IsWithin-outside [] allowed h = refl
IsWithin-outside (s ∷ scope) allowed h = ground (arith, IsWithin-outside scope allowed)
