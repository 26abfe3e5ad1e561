-- ===== src/Delegation/Store/Laws.antt =====
-- Laws of the token table: what a read finds after a write, stamped ceilings, the first revocation.
use field_platform.Prelude.{
  ℕ, String, true, false, Option, none, some, ◌≡◌, ◌≢◌, refl, inl, inr, arith, str_eq, str_eq_iff,
  if◌then◌else◌, Option-cases, Bool-cases,
}
use field_platform.Prelude.Dict.{Dict, lookup, lookup-insert}
use field_platform.Delegation.{DelegationToken}
use field_platform.Delegation.Store.{TokenStore, stamp, save, get, update_revoked, save_revoked}

-- Every row stands under its own id.
pub record IsKeyed (s : TokenStore) : Type 0 where
  pub own_id : (id : String) (t : DelegationToken) → lookup id s.tokens ≡ some t → t.token_id ≡ id

pub str_eq_self : (s : String) → str_eq s s ≡ true
str_eq_self s = (str_eq_iff s s).1 refl

pub str_eq_ne : (s t : String) → s ≢ t → str_eq s t ≡ false
str_eq_ne s t h = elim (Bool-cases (str_eq s t)) [
  | inl same ↦ absurd (h ((str_eq_iff s t).0 same))
  | inr other ↦ other
]

stamp_other :
    (id j : String) (m : Option ℕ) (d : Dict ℕ) → id ≢ j → lookup j (stamp id m d) ≡ lookup j d
unfolding stamp
stamp_other id j none d ne = refl
stamp_other id j (some c) d ne = elim (Option-cases (lookup id d)) [
  | inl free ↦ ground (arith, lookup-insert id j c d, str_eq_ne id j ne)
  | inr (old, taken) ↦ ground arith
]

stamp_kept :
    (id j : String) (m : Option ℕ) (d : Dict ℕ) (c : ℕ)
    → lookup j d ≡ some c
    → lookup j (stamp id m d) ≡ some c
unfolding stamp
stamp_kept id j none d c h = h
stamp_kept id j (some x) d c h = elim (Option-cases (lookup id d)) [
  | inr (old, taken) ↦ ground arith
  | inl free ↦ ground (arith, lookup-insert id j x d, str_eq_iff id j)
]

-- A saved token is what the next read of its id returns.
pub get-save :
    (t : DelegationToken) (s : TokenStore) → get t.token_id (save t s).1 ≡ some (save t s).0
unfolding get save
get-save t s =
    ground (arith, lookup-insert t.token_id t.token_id t s.tokens, str_eq_self t.token_id)

-- A save leaves every other token as it was.
pub get-save_other :
    (t : DelegationToken) (id : String) (s : TokenStore)
    → IsKeyed s
    → t.token_id ≢ id
    → get id (save t s).1 ≡ get id s
unfolding get save
get-save_other t id s keyed other =
    let saved = lookup-insert t.token_id id t s.tokens in
    let apart = str_eq_ne t.token_id id other in
    elim (Option-cases (lookup id s.tokens)) [
      | inl missing ↦ ground (arith, saved, apart)
      | inr (u, found) ↦ ground (
        arith,
        saved,
        apart,
        keyed.own_id id u found,
        stamp_other t.token_id id t.max_spend_usd s.ceilings other,
      )
    ]

-- A ceiling, once stamped, survives every save.
pub stamp_once :
    (t : DelegationToken) (id : String) (c : ℕ) (s : TokenStore)
    → lookup id s.ceilings ≡ some c
    → lookup id (save t s).1.ceilings ≡ some c
unfolding save
stamp_once t id c s h = stamp_kept t.token_id id t.max_spend_usd s.ceilings c h

pub save-IsKeyed : (t : DelegationToken) (s : TokenStore) → IsKeyed s → IsKeyed (save t s).1
unfolding save
save-IsKeyed t s k = record {
  own_id = λ id u h.
      ground
        (arith, h, lookup-insert t.token_id id t s.tokens, str_eq_iff t.token_id id, k.own_id id u);
}

-- The row that a conditional revocation leaves behind, from the row that it finds: one that is
-- revoked already stays as it is.
abbrev pub revoked_row : DelegationToken → DelegationToken → DelegationToken
revoked_row t old =
    if old.revoked
    then old
    else record old { revoked = true; revocation_id = t.revocation_id; revoked_at = t.revoked_at }

abbrev pub revoked_entry : DelegationToken → Option DelegationToken → Option DelegationToken
revoked_entry t none = none
revoked_entry t (some old) = some (revoked_row t old)

-- Under every id `save_revoked` leaves the row that was there, but under the id of the token to
-- revoke the revoked row; it adds no row.
pub lookup-save_revoked :
    (t : DelegationToken) (id : String) (s : TokenStore)
    → lookup id (save_revoked t s).1.tokens
      ≡ (if str_eq t.token_id id then revoked_entry t (lookup id s.tokens) else lookup id s.tokens)
unfolding save_revoked update_revoked
lookup-save_revoked t id s = elim (Option-cases (lookup t.token_id s.tokens)) [
  | inl missing ↦ ground (arith, str_eq_iff t.token_id id)
  | inr (old, found) ↦ elim (Bool-cases old.revoked) [
    | inl done ↦ ground (arith, str_eq_iff t.token_id id)
    | inr live ↦
        let row = record old {
          revoked = true;
          revocation_id = t.revocation_id;
          revoked_at = t.revoked_at;
        } in
        ground (arith, str_eq_iff t.token_id id, lookup-insert t.token_id id row s.tokens)
  ]
]
