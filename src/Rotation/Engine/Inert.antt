-- ===== src/Rotation/Engine/Inert.antt =====
-- What leaves a target as it is.
use field_platform.Prelude.{
  Bool, true, false, Option, none, some, ◌≡◌, refl, ◌⊎◌, inl, inr, Bool-cases,
}
use field_platform.Rotation.{State, halted, same_state}
use field_platform.Rotation.Journal.{Fields, pending, is_halted}
use field_platform.Rotation.Engine.{Env, Engine, pure, gets, ◌>>=◌}
use field_platform.Rotation.Engine.Rotate.{locked_rotate, rotate}

halted_first :
    (o : Option (State × Fields))
    → elim o [ none ↦ false | some (s, f) ↦ same_state s halted ] ≡ true
    → (p : State × Fields) × (o ≡ some p) × (same_state p.0 halted ≡ true)
halted_first none h = cc
halted_first (some p) h = (p, refl, h)

module _ {W : Type 0} (env : Env W) (s : Engine W) where
  locked_rotate-inert :
      (env.killed ≡ true) ⊎ (is_halted s.journal ≡ true) → (locked_rotate env s).1 ≡ s
  unfolding locked_rotate pure gets ◌>>=◌ is_halted
  locked_rotate-inert reason = elim (Bool-cases env.killed) [
    | inl killed ↦ rw killed refl
    | inr alive ↦ rw alive (elim reason [
      | inl killed ↦ absurd (cc (alive, killed))
      | inr stuck ↦ let (p, e, same) = halted_first (pending s.journal) stuck in rw (e, same) refl
    ])
  ]

-- A held lock, an estate that is killed, or a halt that no human has cleared: `rotate` does nothing,
-- neither to the journal and the stage files nor at the provider.
pub rotate-inert :
    {W : Type 0} (env : Env W) (lock_held : Bool) (s : Engine W)
    → (lock_held ≡ true) ⊎ ((env.killed ≡ true) ⊎ (is_halted s.journal ≡ true))
    → (rotate env lock_held s).1 ≡ s
unfolding rotate pure
rotate-inert env true s reason = refl
rotate-inert env false s (inl held) = cc
rotate-inert env false s (inr reason) = locked_rotate-inert env s reason
