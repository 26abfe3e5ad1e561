-- ===== src/Rotation/Refuse/Granted.antt =====
-- What an action that no rule refuses is known to be.
use field_platform.Prelude.{
  String, Bool, true, false, ◌&&◌, ◌||◌, not, Option, none, some, List, [], ◌∷◌, ◌≡◌, ◌↔◌, ◌⊎◌,
  refl, inl, inr, str_eq, elem_of, Bool-cases, str_eq_iff, All, subst, sym, ◌∙◌, arith,
}
use field_platform.Rotation.Refuse.{
  Action, Patterns, Rule, value, adr_scope, secret_classes, chain_classes, revoke_roles, is_deploy,
  is_revoke, is_release, is_wider, is_gate_override, is_auto_rollback, is_one_way,
  is_secret_exposure, is_estate_rotation, is_class_in, is_given, approved, commands,
  r03_secret_exposure, r13_revoke_without_replacement, refuse, refused_if, r01, r02, r03, r04, r05,
  r06, r07, r08, r09, r10, r11, r12, r13, r14, r15, first_of, answers,
}
use field_platform.Rotation.Refuse.Kinds.{
  is_rotation, value-is_rotation, IsPlain, is_rotation-IsPlain,
}

or_false : (a b : Bool) → (a || b) ≡ false → (a ≡ false) × (b ≡ false)
or_false true b h = cc
or_false false b h = (refl, h)

not-not : (a : Bool) → not a ≡ false → a ≡ true
not-not true h = refl
not-not false h = cc

-- A text of a scope that is no wider than the ceiling is one of the ceiling's.
elem_of-ceiling :
    (s : String) (scope : List String)
    → is_wider scope ≡ false
    → elem_of s scope ≡ true
    → elem_of s adr_scope ≡ true
unfolding is_wider
elem_of-ceiling s [] narrow h = cc
elem_of-ceiling s (t ∷ scope) narrow h =
    let (own, rest) = or_false (not (elem_of t adr_scope)) (is_wider scope) narrow in
    elim (Bool-cases (str_eq s t)) [
      | inl same ↦
          subst (λ x. elem_of x adr_scope ≡ true) (sym ((str_eq_iff s t).0 same))
            (not-not (elem_of t adr_scope) own)
      | inr other ↦ elem_of-ceiling s scope rest (rw other at h)
    ]

-- What an action may carry of a secret: the model key's reference, outside any model context.
abbrev pub IsReference : Action → Option String → Type 0
IsReference a none = Unit
IsReference a (some c) = (c ≡ "model_key") × (a.in_model_context ≡ false)

-- A revocation has one of the roles, and that of the old credential its verified replacement.
abbrev pub IsReplaced : Action → Type 0
IsReplaced a =
    (is_revoke a.kind ≡ false)
    ⊎ ((elem_of a.revoke_role revoke_roles ≡ true)
        × ((str_eq a.revoke_role "old" ≡ false) ⊎ (a.replacement_verified ≡ true)))

-- An action of a rotation: its kind is one of the six and in the caller's scope, which is within the ceiling;
-- it names no secret but the model key's reference and runs no command that destroys or that is git's; it did
-- not come from observed content, and no human revoked its credential; a deploy has its verified release, a
-- revocation its role and replacement; an override of a gate and a one-way step have a human's approval.
pub record IsGranted (p : Patterns) (a : Action) : Type 0 where
  pub kind : is_rotation a.kind ≡ true
  pub in_scope : elem_of (value a.kind) a.scope ≡ true
  pub ceiling : All (λ s. elem_of s adr_scope ≡ true) a.scope
  pub secret : IsReference a a.secret_class
  pub harmless : commands p.is_destructive_command a.command ≡ false
  pub no_git : commands p.is_git_command a.command ≡ false
  pub not_observed : a.from_observed_content ≡ false
  pub not_revoked_by_human : a.credential_revoked_by_human ≡ false
  pub released : (is_deploy a.kind ≡ false) ⊎ (is_release p a ≡ true)
  pub replaced : IsReplaced a
  pub gate : (is_given a.gate_override_adr ≡ false) ⊎ (approved p a ≡ true)
  pub one_way : (a.one_way_step ≡ false) ⊎ (approved p a ≡ true)

All-none : (rs : List (Option Rule)) → first_of rs ≡ none → All (λ r. r ≡ none) rs
unfolding first_of
All-none [] h = tt
All-none (none ∷ rs) h = (refl, All-none rs h)
All-none (some r ∷ rs) h = cc h

none-first_of : (rs : List (Option Rule)) → All (λ r. r ≡ none) rs → first_of rs ≡ none
unfolding first_of
none-first_of [] h = refl
none-first_of (none ∷ rs) h = none-first_of rs h.1
none-first_of (some r ∷ rs) h = cc (h.0)

unless : (b : Bool) (r : Rule) → refused_if b r ≡ none → b ≡ false
unless true r h = cc h
unless false r h = refl

quiet : (b : Bool) (r : Rule) → b ≡ false → refused_if b r ≡ none
quiet true r h = cc h
quiet false r h = refl

guarded : (a b : Bool) → (a && not b) ≡ false → (a ≡ false) ⊎ (b ≡ true)
guarded true true h = inr refl
guarded true false h = cc h
guarded false b h = inl refl

unguarded : (a b : Bool) → (a ≡ false) ⊎ (b ≡ true) → (a && not b) ≡ false
unguarded true true h = refl
unguarded true false (inl h) = cc h
unguarded true false (inr h) = cc h
unguarded false b h = refl

or_both : (a b : Bool) → a ≡ false → b ≡ false → (a || b) ≡ false
or_both true b h k = cc h
or_both false b h k = k

narrow-All :
    (scope : List String) → is_wider scope ≡ false → All (λ s. elem_of s adr_scope ≡ true) scope
unfolding is_wider
narrow-All [] h = tt
narrow-All (s ∷ scope) h =
    let (own, rest) = or_false (not (elem_of s adr_scope)) (is_wider scope) h in
    (not-not _ own, narrow-All scope rest)

All-narrow :
    (scope : List String) → All (λ s. elem_of s adr_scope ≡ true) scope → is_wider scope ≡ false
unfolding is_wider
All-narrow [] h = refl
All-narrow (s ∷ scope) h = rw (h.0) (All-narrow scope h.1)

-- Of the classes of secrets, all but the model key's are refused.
class_left :
    (c : String) (context estate : Bool)
    → (not (elem_of c secret_classes) || (context || (str_eq c "estate_secret" || estate))) ≡ false
    → elem_of c chain_classes ≡ false
    → (c ≡ "model_key") × (context ≡ false)
class_left c context estate h k = ground (arith, str_eq_iff c "model_key")

secret_of :
    (a : Action) (o : Option String)
    → a.secret_class ≡ o
    → is_secret_exposure a.kind ≡ false
    → r03_secret_exposure a ≡ none
    → is_class_in chain_classes o ≡ false
    → IsReference a o
unfolding r03_secret_exposure
secret_of a none at plain h k = tt
secret_of a (some c) at plain h k =
    class_left c a.in_model_context (is_estate_rotation a.kind)
      (unless _ r03 (rw (plain, at, r03_secret_exposure) at h)) k

secret_quiet :
    (a : Action) (o : Option String)
    → a.secret_class ≡ o
    → IsPlain a.kind
    → IsReference a o
    → (r03_secret_exposure a ≡ none) × (is_class_in chain_classes o ≡ false)
unfolding r03_secret_exposure
secret_quiet a none at plain h = (rw (plain.exposure, at) refl, refl)
secret_quiet a (some c) at plain h =
    (rw (plain.exposure, at, h.0, h.1, plain.estate) refl, rw (h.0) refl)

r13_revoke_without_replacement-IsReplaced :
    (a : Action) → r13_revoke_without_replacement a ≡ none → IsReplaced a
unfolding r13_revoke_without_replacement
r13_revoke_without_replacement-IsReplaced a h = elim (Bool-cases (is_revoke a.kind)) [
  | inr other ↦ inl other
  | inl revokes ↦
      let (role, rest) =
        or_false _ _ (unless _ r13 (rw (revokes, r13_revoke_without_replacement) at h)) in
      inr (not-not _ role, guarded _ _ rest)
]

replaced_quiet : (a : Action) → IsReplaced a → r13_revoke_without_replacement a ≡ none
unfolding r13_revoke_without_replacement
replaced_quiet a (inl other) = rw other refl
replaced_quiet a (inr (role, old)) = elim (Bool-cases (is_revoke a.kind)) [
  | inr other ↦ rw other refl
  | inl revokes ↦ rw (revokes, role) (quiet _ r13 (unguarded _ _ old))
]

IsGranted-refuse : (p : Patterns) (a : Action) → IsGranted p a → refuse p a ≡ none
unfolding refuse
IsGranted-refuse p a g =
    let plain = is_rotation-IsPlain a.kind g.kind in
    let (exposed, class) = secret_quiet a a.secret_class refl plain g.secret in
    none-first_of (answers p a) (
      (
        quiet _ r01 plain.delegation,
        (
          quiet _ r02 plain.governance,
          (
            exposed,
            (
              quiet _ r04 (or_both _ _ plain.chain class),
              (
                quiet _ r05 (unguarded _ _ g.released),
                (
                  quiet _ r06 (or_both _ _ plain.backup g.harmless),
                  (
                    quiet _ r07 plain.t4,
                    (
                      quiet _ r08 g.not_observed,
                      (
                        quiet
                            ((is_gate_override a.kind || is_given a.gate_override_adr)
                              && not (approved p a))
                            r09 (rw (plain.gate) (unguarded _ _ g.gate)),
                        (
                          quiet _ r10 (or_both _ _ plain.git g.no_git),
                          (
                            quiet
                                ((is_auto_rollback a.kind && a.one_way_step_ran)
                                  || ((is_one_way a.kind || a.one_way_step) && not (approved p a)))
                                r11 (rw (plain.auto, plain.one_way) (unguarded _ _ g.one_way)),
                            (
                              quiet _ r12 g.not_revoked_by_human,
                              (
                                replaced_quiet a g.replaced,
                                (
                                  quiet _ r14 (All-narrow a.scope g.ceiling),
                                  (
                                    quiet (not (elem_of (value a.kind) a.scope)) r15
                                        (rw (g.in_scope) refl),
                                    tt,
                                  ),
                                ),
                              ),
                            ),
                          ),
                        ),
                      ),
                    ),
                  ),
                ),
              ),
            ),
          ),
        ),
      ))

nothing_against : (p : Patterns) (a : Action) → refuse p a ≡ none → IsGranted p a
unfolding refuse
nothing_against p a h =
    let silent = All-none (answers p a) h in
    let own =
      not-not (elem_of (value a.kind) a.scope)
        (unless _ r15 silent.1.1.1.1.1.1.1.1.1.1.1.1.1.1.0) in
    let narrow = unless _ r14 silent.1.1.1.1.1.1.1.1.1.1.1.1.1.0 in
    let kind : is_rotation a.kind ≡ true =
      sym (value-is_rotation a.kind) ∙ elem_of-ceiling (value a.kind) a.scope narrow own in
    let plain = is_rotation-IsPlain a.kind kind in
    record {
      kind = kind;
      in_scope = own;
      ceiling = narrow-All a.scope narrow;
      secret =
          secret_of a a.secret_class refl plain.exposure silent.1.1.0
            (or_false _ _ (unless _ r04 silent.1.1.1.0)).1;
      harmless = (or_false _ _ (unless _ r06 silent.1.1.1.1.1.0)).1;
      no_git = (or_false _ _ (unless _ r10 silent.1.1.1.1.1.1.1.1.1.0)).1;
      not_observed = unless a.from_observed_content r08 silent.1.1.1.1.1.1.1.0;
      not_revoked_by_human =
          unless a.credential_revoked_by_human r12 silent.1.1.1.1.1.1.1.1.1.1.1.0;
      released = guarded _ _ (unless _ r05 silent.1.1.1.1.0);
      replaced = r13_revoke_without_replacement-IsReplaced a silent.1.1.1.1.1.1.1.1.1.1.1.1.0;
      gate = guarded _ _ (rw (plain.gate) at (unless _ r09 silent.1.1.1.1.1.1.1.1.0));
      one_way = guarded _ _ (
          rw (plain.one_way) at
            (or_false (is_auto_rollback a.kind && a.one_way_step_ran)
              ((is_one_way a.kind || a.one_way_step) && not (approved p a))
              (unless _ r11 silent.1.1.1.1.1.1.1.1.1.1.0)).1);
    }

-- The refuse list refuses no action but one that is not granted: no rule answers exactly where the action is
-- one of a rotation, within the scope and the ceiling, with every release, replacement and approval that it needs.
pub refuse-IsGranted : (p : Patterns) (a : Action) → (refuse p a ≡ none) ↔ IsGranted p a
refuse-IsGranted p a = (nothing_against p a, IsGranted-refuse p a)
