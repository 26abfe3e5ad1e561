-- ===== src/Registry/Kept.antt =====
-- What each method of the registry's table leaves of a row.
use field_platform.Prelude.{
  ℕ, String, Bool, true, false, ◌&&◌, ◌||◌, not, Option, none, some, ◌≡◌, refl, inl, inr, arith,
  str_eq, str_eq_iff, is_some, sym, subst, ap, ◌∙◌, Option-cases, Bool-cases,
}
use field_platform.Prelude.Dict.{lookup, insert, lookup-insert}
use field_platform.Registry.{
  AgentStatus, retired, AgentRecord, AgentCreate, AgentUpdate, Table, is_retired, add, update_row,
  update_with_previous, attest, patched, attested, leaves_retired, edits_frozen, edits_any, or_else,
  or_kept,
}

-- A retired agent's row, but for its name and the instant of its last edit.
pub record SameLife (r s : AgentRecord) : Type 0 where
  pub id : r.agent_id ≡ s.agent_id
  pub owner : r.owner ≡ s.owner
  pub domain : r.domain ≡ s.domain
  pub manifest_ref : r.manifest_ref ≡ s.manifest_ref
  pub status : r.status ≡ s.status
  pub created_at : r.created_at ≡ s.created_at
  pub attested_at : r.attested_at ≡ s.attested_at
  pub attested_by : r.attested_by ≡ s.attested_by

abbrev pub Retained : AgentRecord → Option AgentRecord → Type 0
Retained r none = ⊥
Retained r (some s) = SameLife r s

pub SameLife-self : (r : AgentRecord) → SameLife r r
SameLife-self r = record {
  id = refl;
  owner = refl;
  domain = refl;
  manifest_ref = refl;
  status = refl;
  created_at = refl;
  attested_at = refl;
  attested_by = refl;
}

or_else_none : (o : Option String) (a : String) → is_some o ≡ false → a ≡ or_else o a
or_else_none none a h = refl
or_else_none (some b) a h = cc

or_kept_none : (o a : Option String) → is_some o ≡ false → a ≡ or_kept o a
or_kept_none none a h = refl
or_kept_none (some b) a h = cc

status_kept :
    (o : Option AgentStatus)
    → elim o [ none ↦ false | some s ↦ not (is_retired s) ] ≡ false
    → retired ≡ or_else o retired
status_kept none h = refl
status_kept (some retired) h = refl
status_kept (some s) h = cc

frozen_parts : (a b c : Bool) → (a || b || c) ≡ false → (a ≡ false) × (b ≡ false) × (c ≡ false)
frozen_parts a b c h = ground arith

-- A patch that passes the two rules leaves a retired row's life as it is.
patched-SameLife :
    (p : AgentUpdate) (stamp : ℕ) (r : AgentRecord)
    → r.status ≡ retired
    → leaves_retired p ≡ false
    → edits_frozen p ≡ false
    → SameLife r (patched p stamp r)
patched-SameLife p stamp r gone stays free =
    let (o, d, m) =
      frozen_parts (is_some p.owner) (is_some p.domain) (is_some p.manifest_ref) free in
    record {
      id = refl;
      owner = or_else_none p.owner r.owner o;
      domain = or_else_none p.domain r.domain d;
      manifest_ref = or_kept_none p.manifest_ref r.manifest_ref m;
      status = subst (λ s. s ≡ or_else p.status s) (sym gone) (status_kept p.status stays);
      created_at = refl;
      attested_at = refl;
      attested_by = refl;
    }

SameLife-trans : (q r s : AgentRecord) → SameLife q r → SameLife r s → SameLife q s
SameLife-trans q r s a b = record {
  id = a.id ∙ b.id;
  owner = a.owner ∙ b.owner;
  domain = a.domain ∙ b.domain;
  manifest_ref = a.manifest_ref ∙ b.manifest_ref;
  status = a.status ∙ b.status;
  created_at = a.created_at ∙ b.created_at;
  attested_at = a.attested_at ∙ b.attested_at;
  attested_by = a.attested_by ∙ b.attested_by;
}

no_leave : (a g : Bool) → g ≡ true → (a && g) ≡ false → a ≡ false
no_leave a g e h = ground arith

no_edit : (g b : Bool) → g ≡ true → (g && b) ≡ false → b ≡ false
no_edit g b e h = ground arith

module _ (id : String) (r : AgentRecord) where
  insert-Retained :
      (key : String) (x : AgentRecord) (table : Table)
      → Retained r (lookup id table)
      → (str_eq key id ≡ true → SameLife r x)
      → Retained r (lookup id (insert key x table))
  insert-Retained key x table h same =
      rw (lookup-insert key id x table, Retained)
        (elim (Bool-cases (str_eq key id)) [ inl e ↦ rw e (same e) | inr e ↦ rw e h ])

  -- The row that stands under a key that is the agent's.
  row-SameLife :
      (key : String) (x : AgentRecord) (table : Table)
      → Retained r (lookup id table)
      → lookup key table ≡ some x
      → str_eq key id ≡ true
      → SameLife r x
  row-SameLife key x table h found same =
      subst (Retained r) (ap (λ k. lookup k table) (sym ((str_eq_iff key id).0 same)) ∙ found) h

  missing-key :
      (key : String) (table : Table)
      → Retained r (lookup id table)
      → lookup key table ≡ none
      → str_eq key id ≡ true
      → ⊥
  missing-key key table h missing same =
      subst (Retained r) (ap (λ k. lookup k table) (sym ((str_eq_iff key id).0 same)) ∙ missing) h

  -- A retired row under one method of the store, whichever row that method is about.
  pub add-Retained :
      (req : AgentCreate) (c u : ℕ) (table : Table)
      → Retained r (lookup id table)
      → Retained r (lookup id (add req c u table).1)
  unfolding add
  add-Retained req c u table h = elim (Option-cases (lookup req.agent_id table)) [
    | inr (old, e) ↦ rw (e, add) h
    | inl e ↦
        rw (e, add)
          (insert-Retained req.agent_id _ table h
            (λ same. absurd (missing-key req.agent_id table h e same)))
  ]

  retired_row : (x : AgentRecord) → r.status ≡ retired → SameLife r x → x.status ≡ retired
  retired_row x gone same = sym same.status ∙ gone

  update_row-Retained :
      (key : String) (p : AgentUpdate) (stamp : ℕ) (before : AgentRecord) (table : Table)
      → r.status ≡ retired
      → lookup key table ≡ some before
      → Retained r (lookup id table)
      → Retained r (lookup id (update_row key p stamp before table).1)
  unfolding update_row
  update_row-Retained key p stamp before table gone found h =
      elim (Bool-cases (leaves_retired p && is_retired before.status)) [
        | inl a ↦ rw (a, update_row) h
        | inr a ↦ elim (Bool-cases (is_retired before.status && edits_frozen p)) [
          | inl b ↦ rw (a, b, update_row) h
          | inr b ↦ elim (Bool-cases (edits_any p)) [
            | inr c ↦ rw (a, b, c, update_row) h
            | inl c ↦
                rw (a, b, c, update_row)
                  (insert-Retained key (patched p stamp before) table h (λ same.
                    let life = row-SameLife key before table h found same in
                    let at : before.status ≡ retired = retired_row before gone life in
                    let gone_too = ap is_retired at in
                    SameLife-trans r before (patched p stamp before) life (
                      patched-SameLife p stamp before at (no_leave _ _ gone_too a)
                        (no_edit _ _ gone_too b))))
          ]
        ]
      ]

  pub update-Retained :
      (key : String) (p : AgentUpdate) (stamp : ℕ) (table : Table)
      → r.status ≡ retired
      → Retained r (lookup id table)
      → Retained r (lookup id (update_with_previous key p stamp table).1)
  unfolding update_with_previous
  update-Retained key p stamp table gone h = elim (Option-cases (lookup key table)) [
    | inl e ↦ rw (e, update_with_previous) h
    | inr (before, e) ↦
        rw (e, update_with_previous) (update_row-Retained key p stamp before table gone e h)
  ]

  pub attest-Retained :
      (key by : String) (stamp : ℕ) (table : Table)
      → r.status ≡ retired
      → Retained r (lookup id table)
      → Retained r (lookup id (attest key by stamp table).1)
  unfolding attest
  attest-Retained key by stamp table gone h = elim (Option-cases (lookup key table)) [
    | inl e ↦ rw (e, attest) h
    | inr (x, e) ↦ elim (Bool-cases (is_retired x.status)) [
      | inl a ↦ rw (e, a, attest) h
      | inr a ↦
          rw (e, a, attest)
            (insert-Retained key (attested by stamp x) table h (λ same.
              let at : x.status ≡ retired =
                retired_row x gone (row-SameLife key x table h e same) in
              absurd (cc (a, ap is_retired at))))
    ]
  ]
