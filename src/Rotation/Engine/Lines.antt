-- ===== src/Rotation/Engine/Lines.antt =====
-- What a line of the journal, or a revocation, does to an invariant.
use field_platform.Prelude.{
  String, Bool, false, Option, none, some, List, [], ◌∷◌, ◌++◌, ◌≡◌, refl, inl, inr, Option-cases,
}
use field_platform.Rotation.{State, halted, same_state}
use field_platform.Rotation.Journal.{
  Fields, Entry, transition, note, halt_cleared, Appended, ok, secret_error, journal_error,
  illegal_transition, append, scan, last_transition,
}
use field_platform.Rotation.Engine.{
  Env, Engine, Call, Disk, synced, full, unsynced, landed, written, mark, write, revoked,
  revoke_call, answered,
}
use field_platform.Rotation.Engine.Keeps.{Keeps, Holds, Keeps-action}
use field_platform.Rotation.Engine.Certified.{Predicate}

module _ {W : Type 0} (env : Env W) (P : Predicate) where
  landed-Keeps :
      (disk : Disk) (e : Entry) (es : List Entry) (s : Engine W)
      → Holds P s
      → P es (mark e s.calls)
      → Holds P (landed disk e es s).1
  landed-Keeps synced e es s h k = k
  landed-Keeps full e es s h k = h
  landed-Keeps unsynced e es s h k = k

  written-Keeps :
      (e : Entry) (r : Appended) (s : Engine W)
      → Holds P s
      → ((es : List Entry) → r ≡ ok es → P es (mark e s.calls))
      → Holds P (written env e r s).1
  written-Keeps e (ok es) s h k =
      landed-Keeps (env.disk s.world).0 e es (record s { world = (env.disk s.world).1 }) h
        (k es refl)
  written-Keeps e secret_error s h k = h
  written-Keeps e journal_error s h k = h
  written-Keeps e illegal_transition s h k = h

  -- A write keeps what every accepted line keeps.
  pub write-Keeps :
      (e : Entry)
      → ((clean : Bool) (es es' : List Entry) (cs : List Call)
          → P es cs
          → append clean e es ≡ ok es'
          → P es' (mark e cs))
      → Keeps P (write env e)
  unfolding write
  write-Keeps e k = Keeps-action _ (λ s h.
      written-Keeps e _ s h
        (λ es accepted. k (env.is_clean s.secrets e) s.journal es s.calls h accepted))

  answered-Holds : (r : Option (Unit {0}) × W) (s : Engine W) → Holds P s → Holds P (answered r s).1
  answered-Holds (none, w) s h = h
  answered-Holds (some u, w) s h = h

  pub revoke_call-Keeps :
      (id role : String)
      → ((es : List Entry) (cs : List Call) → P es cs → P es (revoked id role ∷ cs))
      → Keeps P (revoke_call env id role)
  unfolding revoke_call
  revoke_call-Keeps id role k = Keeps-action _ (λ s h.
      answered-Holds _ (record s { calls = revoked id role ∷ s.calls }) (k s.journal s.calls h))

-- The last transition of a journal with one more line.
pub last_transition-append :
    (es : List Entry) (e : Entry)
    → last_transition (es ++ e ∷ []) ≡ elim e [
      | transition s f ↦ some (s, f)
      | note r f ↦ last_transition es
      | halt_cleared r ↦ last_transition es
    ]
unfolding last_transition
last_transition-append [] (transition s f) = refl
last_transition-append [] (note r f) = refl
last_transition-append [] (halt_cleared r) = refl
last_transition-append (d ∷ es) (transition s f) = rw (last_transition-append es (transition s f))
last_transition-append (d ∷ es) (note r f) = rw (last_transition-append es (note r f))
last_transition-append (d ∷ es) (halt_cleared r) = rw (last_transition-append es (halt_cleared r))

abbrev pub state_or : Option State → Option (State × Fields) → Option State
state_or prev none = prev
state_or prev (some (s, f)) = some s

-- `append` looks at the state of the last transition.
pub scan-last_transition :
    (prev : Option State) (h : Bool) (es : List Entry)
    → (scan prev h es).0 ≡ state_or prev (last_transition es)
unfolding scan last_transition
scan-last_transition prev h [] = refl
scan-last_transition prev h (transition s f ∷ es) =
    rw (scan-last_transition (some s) (same_state s halted) es)
      (elim (Option-cases (last_transition es)) [ inl e ↦ rw e refl | inr (p, e) ↦ rw e refl ])
scan-last_transition prev h (note r f ∷ es) =
    rw (scan-last_transition prev h es)
      (elim (Option-cases (last_transition es)) [ inl e ↦ rw e refl | inr (p, e) ↦ rw e refl ])
scan-last_transition prev h (halt_cleared r ∷ es) =
    rw (scan-last_transition prev false es)
      (elim (Option-cases (last_transition es)) [ inl e ↦ rw e refl | inr (p, e) ↦ rw e refl ])
