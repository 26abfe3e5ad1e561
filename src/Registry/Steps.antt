-- ===== src/Registry/Steps.antt =====
-- The life of the registry's table: any sequence of the store's methods, by any caller.
use field_platform.Prelude.{
  ℕ, String, true, ◌&&◌, some, ◌≡◌, ◌≢◌, refl, str_eq, str_eq_iff, if◌then◌else◌, Option-cases,
  Bool-cases, inl, inr,
}
use field_platform.Prelude.Dict.{lookup, insert, lookup-insert}
use field_platform.Registry.{
  retired, AgentRecord, AgentCreate, AgentUpdate, Table, Result, ok, err, is_retired, add,
  update_row, update_with_previous, attest, patched, leaves_retired, edits_frozen, edits_any,
}
use field_platform.Registry.Kept.{
  Retained, add-Retained, update-Retained, attest-Retained, SameLife-self,
}

pub data Steps (start : Table) : Table → Type 0 where
  begin : Steps start start
  added : (req : AgentCreate) (c u : ℕ) (t : Table) → Steps start t → Steps start (add req c u t).1
  updated :
      (id : String) (p : AgentUpdate) (stamp : ℕ) (t : Table)
      → Steps start t
      → Steps start (update_with_previous id p stamp t).1
  attests :
      (id by : String) (stamp : ℕ) (t : Table)
      → Steps start t
      → Steps start (attest id by stamp t).1

-- A decommission is final: from a retired agent's row on, whatever the store is asked, the row is
-- there, retired, and has the owner, the domain, the manifest and the attestation that it had.
pub retired-Retained :
    (id : String) (r : AgentRecord) (start : Table)
    → lookup id start ≡ some r
    → r.status ≡ retired
    → (t : Table) → Steps start t
    → Retained r (lookup id t)
retired-Retained id r start found gone _ begin = rw found (SameLife-self r)
retired-Retained id r start found gone _ (added req c u t s) =
    add-Retained id r req c u t (retired-Retained id r start found gone t s)
retired-Retained id r start found gone _ (updated key p stamp t s) =
    update-Retained id r key p stamp t gone (retired-Retained id r start found gone t s)
retired-Retained id r start found gone _ (attests key by stamp t s) =
    attest-Retained id r key by stamp t gone (retired-Retained id r start found gone t s)

-- What an update answers, and what every other row of the table does.
abbrev pub IsUpdated :
    String → AgentUpdate → ℕ → Table → Result (AgentRecord × AgentRecord) → Table → Type 0
IsUpdated id p stamp t (ok (before, after)) t' =
    (lookup id t ≡ some before)
    × (lookup id t' ≡ some after)
    × (after ≡ (if edits_any p then patched p stamp before else before))
    × ((j : String) → id ≢ j → lookup j t' ≡ lookup j t)
IsUpdated id p stamp t (err e) t' = t' ≡ t

untouched :
    (id : String) (x : AgentRecord) (t : Table) (j : String)
    → id ≢ j
    → lookup j (insert id x t) ≡ lookup j t
untouched id x t j other = rw (lookup-insert id j x t) (elim (Bool-cases (str_eq id j)) [
  | inl e ↦ absurd (other ((str_eq_iff id j).0 e))
  | inr e ↦ rw e refl
])

written : (id : String) (x : AgentRecord) (t : Table) → lookup id (insert id x t) ≡ some x
written id x t =
    let same : str_eq id id ≡ true = (str_eq_iff id id).1 refl in
    rw (lookup-insert id id x t, same) refl

row-IsUpdated :
    (id : String) (p : AgentUpdate) (stamp : ℕ) (before : AgentRecord) (t : Table)
    → lookup id t ≡ some before
    → IsUpdated id p stamp t (update_row id p stamp before t).0 (update_row id p stamp before t).1
unfolding update_row
row-IsUpdated id p stamp before t found =
    elim (Bool-cases (leaves_retired p && is_retired before.status)) [
      | inl a ↦ rw (a, update_row, IsUpdated) refl
      | inr a ↦ elim (Bool-cases (is_retired before.status && edits_frozen p)) [
        | inl b ↦ rw (a, b, update_row, IsUpdated) refl
        | inr b ↦ elim (Bool-cases (edits_any p)) [
          | inr c ↦ rw (a, b, c, update_row, IsUpdated) (found, found, rw c refl, λ j other. refl)
          | inl c ↦
              rw (a, b, c, update_row, IsUpdated)
                (
                  found,
                  written id (patched p stamp before) t,
                  rw c refl,
                  untouched id (patched p stamp before) t,
                )
        ]
      ]
    ]

-- An update answers with the row that it found and the row that it leaves, which differ in the
-- patched columns and the stamp alone; every other row is as it was, and one that fails writes nothing.
pub update-IsUpdated :
    (id : String) (p : AgentUpdate) (stamp : ℕ) (t : Table)
    → IsUpdated id p stamp t
        (update_with_previous id p stamp t).0
        (update_with_previous id p stamp t).1
unfolding update_with_previous
update-IsUpdated id p stamp t = elim (Option-cases (lookup id t)) [
  | inl e ↦ rw (e, update_with_previous) refl
  | inr (before, e) ↦ rw (e, update_with_previous) (row-IsUpdated id p stamp before t e)
]
