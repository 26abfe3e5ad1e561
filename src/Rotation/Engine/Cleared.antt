-- ===== src/Rotation/Engine/Cleared.antt =====
-- What a human's word changes of a halted journal: `clear_halt`.
use field_platform.Prelude.{
  ℕ, zero, suc, String, Bool, true, false, Option, none, some, List, [], ◌∷◌, ◌++◌, ◌≡◌, refl, ◌⊎◌,
  inl, inr, arith, Bool-cases, All, elem_of, ◌||◌, if◌then◌else◌,
}
use field_platform.Rotation.{State, halted, same_state}
use field_platform.Rotation.Journal.{
  Fields, Entry, transition, note, halt_cleared, last_transition, Appended, ok, secret_error,
  journal_error, illegal_transition, append, pending_from, pending_of, pending, is_halted,
}
use field_platform.Rotation.Engine.{
  Env, Engine, Call, Exit, returned, raised, M, pure, gets, ◌>>=◌, case_option, write, written,
  action, act, Disk, synced, full, unsynced, landed, continue, attempt, ask, raise,
}
use field_platform.Rotation.Engine.Keeps.{Keeps, Holds}
use field_platform.Rotation.Engine.Certified.{Predicate}
use field_platform.Rotation.Engine.Rotate.{or_missing}
use field_platform.Rotation.Engine.Reach.{check_tracked-Keeps, orphans-Keeps}
use field_platform.Rotation.Engine.Clear.{
  ClearError, no_run, unverified, still_live, left_new, meets, live_refs, check_tracked, last_run,
  orphan_refs, clear_run, clear_halt,
}

cleared_tail :
    (last : Option (State × Fields)) (cleared : Bool) (es : List Entry) (r : String)
    → pending_from last cleared (es ++ halt_cleared r ∷ [])
      ≡ ((pending_from last cleared es).0, true)
unfolding pending_from
cleared_tail last cleared [] r = refl
cleared_tail last cleared (transition s f ∷ es) r = cleared_tail (some (s, f)) false es r
cleared_tail last cleared (note q f ∷ es) r = cleared_tail last cleared es r
cleared_tail last cleared (halt_cleared q ∷ es) r = cleared_tail last true es r

halted_pending :
    (last : Option (State × Fields)) (cleared : Bool)
    → elim (pending_of last cleared) [ none ↦ false | some (s, f) ↦ same_state s halted ] ≡ true
    → pending_of last true ≡ none
unfolding same_state
halted_pending none cleared h = refl
halted_pending (some (halted, f)) cleared h = refl
halted_pending (some (s, f)) cleared h = ground arith

-- Clearing a halted journal lets a new run start.
pending-halt_cleared :
    (es : List Entry) (r : String)
    → is_halted es ≡ true
    → pending (es ++ halt_cleared r ∷ []) ≡ none
unfolding pending is_halted
pending-halt_cleared es r h =
    rw (cleared_tail none false es r)
      (halted_pending (pending_from none false es).0 (pending_from none false es).1 h)

module _ (before : List Entry) (approval : String) where
  abbrev Before : Predicate
  Before es cs = es ≡ before

  abbrev Line : Predicate
  Line es cs = es ≡ before ++ halt_cleared approval ∷ []

  abbrev Cleared : Option ClearError → Predicate
  Cleared none es cs = (is_halted before ≡ true) × Line es cs
  Cleared (some e) es cs = es ≡ before

  -- What holds where the action ends: `Q` of its answer, or a journal with or without the line.
  abbrev Ended : {W A : Type 0} → (A → Predicate) → Exit A × Engine W → Type 0
  Ended Q (returned a, s) = Holds (Q a) s
  Ended Q (raised x, s) = Holds Before s ⊎ Holds Line s

  record Clears {W A : Type 0} (Q : A → Predicate) (m : M W A) : Type 0 where
    at : (s : Engine W) → s.journal ≡ before → Ended Q (m s)

module _ {W : Type 0} (env : Env W) (before : List Entry) (approval : String) where
  fsync_exit :
      (disk : Disk) (es : List Entry) (s : Engine W)
      → s.journal ≡ before
      → es ≡ before ++ halt_cleared approval ∷ []
      → Ended before approval (λ u. Line before approval) (landed disk (halt_cleared approval) es s)
  fsync_exit synced es s h k = k
  fsync_exit full es s h k = inl h
  fsync_exit unsynced es s h k = inr k

  write_exit :
      (r : Appended) (s : Engine W)
      → s.journal ≡ before
      → ((es : List Entry) → r ≡ ok es → es ≡ before ++ halt_cleared approval ∷ [])
      → Ended before approval (λ u. Line before approval) (written env (halt_cleared approval) r s)
  write_exit (ok es) s h k =
      fsync_exit (env.disk s.world).0 es (record s { world = (env.disk s.world).1 }) h (k es refl)
  write_exit secret_error s h k = inl h
  write_exit journal_error s h k = inl h
  write_exit illegal_transition s h k = inl h

  added :
      (clean : Bool) (old es : List Entry)
      → old ≡ before
      → append clean (halt_cleared approval) old ≡ ok es
      → es ≡ before ++ halt_cleared approval ∷ []
  unfolding append
  added false old es same accepted = cc
  added true old es same accepted =
      let last : old ++ halt_cleared approval ∷ [] ≡ es = cc in rw (← last, same) refl

  live_written :
      (n : ℕ) (s : Engine W)
      → s.journal ≡ before
      → Ended before approval
          (λ u. Line before approval)
          (act n
            (λ t.
              written env
                (halt_cleared approval)
                (append
                  (env.is_clean t.secrets (halt_cleared approval))
                  (halt_cleared approval)
                  t.journal)
                t)
            s)
  live_written zero s h = inl h
  live_written (suc n) s h =
      write_exit _ (record s { life = n }) h (λ es accepted. added _ s.journal es h accepted)

  write-Clears :
      Clears before approval (λ u. Line before approval) (write env (halt_cleared approval))
  unfolding write action
  write-Clears = record { at = λ s h. live_written s.life s h }

module _ {W A : Type 0} (before : List Entry) (approval : String) where
  Clears-pure :
      (a : A) (Q : A → Predicate)
      → ((es : List Entry) (cs : List Call) → es ≡ before → Q a es cs)
      → Clears before approval Q (pure {W = W} a)
  unfolding pure
  Clears-pure a Q k = record { at = λ s h. k s.journal s.calls h }

module _ {W A B : Type 0} (before : List Entry) (approval : String) where
  Clears-case :
      (o : Option A) (m : M W B) (f : A → M W B) (Q : B → Predicate)
      → Clears before approval Q m
      → ((a : A) → Clears before approval Q (f a))
      → Clears before approval Q (case_option o m f)
  Clears-case none m f Q y k = y
  Clears-case (some a) m f Q y k = k a

  kept_step :
      (r : Exit A × Engine W) (f : A → M W B) (Q : B → Predicate)
      → r.1.journal ≡ before
      → ((a : A) → Clears before approval Q (f a))
      → Ended before approval Q (continue r.0 f r.1)
  kept_step (returned a, s) f Q h k = (k a).at s h
  kept_step (raised x, s) f Q h k = inl h

  Clears-after :
      (m : M W A) (f : A → M W B) (Q : B → Predicate)
      → Keeps (Before before approval) m
      → ((a : A) → Clears before approval Q (f a))
      → Clears before approval Q (m >>= f)
  unfolding ◌>>=◌
  Clears-after m f Q k y = record { at = λ s h. kept_step (m s) f Q (k.at s h) y }

  rebind_end :
      (r : Exit A × Engine W) (b : B) (Q : A → Predicate) (R : B → Predicate)
      → Ended before approval Q r
      → ((a : A) (es : List Entry) (cs : List Call) → Q a es cs → R b es cs)
      → Ended before approval R (continue r.0 (λ a s. (returned b, s)) r.1)
  rebind_end (returned a, s) b Q R h k = k a s.journal s.calls h
  rebind_end (raised x, s) b Q R h k = h

  -- An answer behind the last step.
  Clears-answer :
      (m : M W A) (b : B) (Q : A → Predicate) (R : B → Predicate)
      → Clears before approval Q m
      → ((a : A) (es : List Entry) (cs : List Call) → Q a es cs → R b es cs)
      → Clears before approval R (m >>= λ a. pure b)
  unfolding ◌>>=◌ pure
  Clears-answer m b Q R c k = record { at = λ s h. rebind_end (m s) b Q R (c.at s h) k }

module _ {W : Type 0} (env : Env W) (before : List Entry) (approval : String) where
  clear_run-Clears :
      (es : List Entry)
      → is_halted before ≡ true
      → Clears before approval (Cleared before approval) (clear_run env approval es)
  unfolding clear_run
  clear_run-Clears es stuck =
      Clears-case before approval (last_run es) _ _ (Cleared before approval)
        (Clears-pure before approval (some no_run) _ (λ es cs h. h))
        (λ run.
          Clears-after before approval _ _ _ (orphans-Keeps env _ (orphan_refs run)) (λ orphans.
            Clears-after before approval _ _ _ (check_tracked-Keeps env _ _) (λ p.
              Clears-case before approval p _ _ _
                (Clears-answer before approval _ none _ _ (write-Clears env before approval)
                  (λ u es cs h. (stuck, h)))
                (λ e. Clears-pure before approval (some e) _ (λ es cs h. h)))))

or_false : (a b : Bool) → (a || b) ≡ false → (a ≡ false) × (b ≡ false)
or_false true b h = cc
or_false false b h = (refl, h)

-- The credentials that the provider lists as active, as the journal may name them.
abbrev pub live_now : {W : Type 0} → Env W → M W (Option (List String))
live_now env = attempt (do all ← ask env.list_credentials; live_refs env all)

-- None of the tracked credentials is live at the provider, which is asked if there is one.
abbrev pub IsUnmet : {W : Type 0} → Env W → Engine W → List String → Type 0
IsUnmet env s tracked =
    (tracked ≡ [])
    ⊎ ((live : List String) × ((live_now env s).0 ≡ returned (some live))
        × All (λ id. elem_of id live ≡ false) tracked)

-- The run that halted, its orphans, and that neither they nor the new credential of the halt is live.
abbrev pub IsVerified : {W : Type 0} → Env W → Engine W → Type 0
IsVerified env s =
    (run : List Entry) × (orphans : List String) × (last_run s.journal ≡ some run)
    × (orphan_refs run ≡ some orphans)
    × IsUnmet env s (left_new (last_transition s.journal) ++ orphans)

abbrev OnNone : Type 0 → Exit (Option ClearError) → Type 0
OnNone T (returned none) = T
OnNone T _ = Unit

meets-All :
    (ids live : List String) → meets ids live ≡ false → All (λ id. elem_of id live ≡ false) ids
meets-All [] live h = tt
meets-All (id ∷ ids) live h =
    let (first, rest) = or_false (elem_of id live) (meets ids live) h in
    (first, meets-All ids live rest)

module _ {W : Type 0} (env : Env W) (s : Engine W) where
  answer_met :
      (ids refs : List String) (t : Engine W)
      → (live_now env s).0 ≡ returned (some refs)
      → OnNone (IsUnmet env s ids) (returned (if meets ids refs then some still_live else none))
  answer_met ids refs t told = elim (Bool-cases (meets ids refs)) [
    | inl met ↦ rw met tt
    | inr free ↦ rw free (inr (refs, told, meets-All ids refs free))
  ]

  live_step :
      (ids : List String) (r : Exit (Option (List String)) × Engine W)
      → (live_now env s).0 ≡ r.0
      → OnNone
          (IsUnmet env s ids)
          (continue r.0
            (λ live.
              case_option live
                (pure (some unverified))
                (λ refs. pure (if meets ids refs then some still_live else none)))
            r.1).0
  unfolding pure
  live_step ids (returned none, t) told = tt
  live_step ids (returned (some refs), t) told = answer_met ids refs t told
  live_step ids (raised x, t) told = tt

  check_tracked-IsUnmet :
      (ids : List String) → OnNone (IsUnmet env s ids) (check_tracked env ids s).0
  unfolding check_tracked pure ◌>>=◌
  check_tracked-IsUnmet [] = inl refl
  check_tracked-IsUnmet (id ∷ ids) = live_step (id ∷ ids) (live_now env s) refl

  known : (T : Type 0) (r : Exit (Option ClearError)) → T → OnNone T r
  known T (returned none) h = h
  known T (returned (some e)) h = tt
  known T (raised x) h = tt

  checked_step :
      (T : Type 0) (r : Exit (Option ClearError) × Engine W)
      (f : Option ClearError → M W (Option ClearError))
      → OnNone T r.0
      → ((e : ClearError) (t : Engine W) → OnNone T (f (some e) t).0)
      → OnNone T (continue r.0 f r.1).0
  checked_step T (returned none, t) f h k = known T (f none t).0 h
  checked_step T (returned (some e), t) f h k = k e t
  checked_step T (raised x, t) f h k = tt

  orphan_step :
      (T : Type 0) (o : Option (List String)) (f : List String → M W (Option ClearError))
      → ((ids : List String) → o ≡ some ids → OnNone T (f ids s).0)
      → OnNone T ((or_missing o >>= f) s).0
  unfolding ◌>>=◌ pure raise
  orphan_step T none f k = tt
  orphan_step T (some ids) f k = k ids refl

  run_step :
      (T : Type 0) (o : Option (List Entry)) (f : List Entry → M W (Option ClearError))
      → ((run : List Entry) → o ≡ some run → OnNone T (f run s).0)
      → OnNone T (case_option o (pure (some no_run)) f s).0
  unfolding pure
  run_step T none f k = tt
  run_step T (some run) f k = k run refl

  run_checked :
      (r : Exit (Option ClearError)) (run : List Entry) (orphans : List String)
      → last_run s.journal ≡ some run
      → orphan_refs run ≡ some orphans
      → OnNone (IsUnmet env s (left_new (last_transition s.journal) ++ orphans)) r
      → OnNone (IsVerified env s) r
  run_checked (returned none) run orphans at_run noted h = (run, orphans, at_run, noted, h)
  run_checked (returned (some e)) run orphans at_run noted h = tt
  run_checked (raised x) run orphans at_run noted h = tt

  clear_run-IsVerified :
      (approval : String) → OnNone (IsVerified env s) (clear_run env approval s.journal s).0
  unfolding clear_run ◌>>=◌ pure
  clear_run-IsVerified approval = run_step (IsVerified env s) (last_run s.journal) _ (λ run at_run.
      orphan_step (IsVerified env s) (orphan_refs run) _ (λ orphans noted.
        checked_step (IsVerified env s)
          (check_tracked env (left_new (last_transition s.journal) ++ orphans) s) _
          (run_checked _ run orphans at_run noted
            (check_tracked-IsUnmet (left_new (last_transition s.journal) ++ orphans)))
          (λ e t. tt)))

-- What a call of `clear_halt` leaves. Without an error the journal was halted, nothing that its run tracks
-- is live, it has the one line more, and no run is pending any more; with an error it is what it was; an
-- exception or the death of the process leaves it as it was, or with the line, which then is not synced.
abbrev pub IsCleared :
    {W : Type 0}
    → Env W
    → (approval : String) → Engine W
    → Exit (Option ClearError)
    → List Entry
    → Type 0
IsCleared env approval s (returned none) es =
    (is_halted s.journal ≡ true)
    × IsVerified env s
    × (es ≡ s.journal ++ halt_cleared approval ∷ [])
    × (pending es ≡ none)
IsCleared env approval s (returned (some e)) es = es ≡ s.journal
IsCleared env approval s (raised x) es =
    (es ≡ s.journal) ⊎ (es ≡ s.journal ++ halt_cleared approval ∷ [])

cleared_exit :
    {W : Type 0} (env : Env W) (approval : String) (s : Engine W)
    (r : Exit (Option ClearError) × Engine W)
    → Ended s.journal approval (Cleared s.journal approval) r
    → OnNone (IsVerified env s) r.0
    → IsCleared env approval s r.0 r.1.journal
cleared_exit env approval s (returned none, t) (stuck, e) v =
    (stuck, v, e, rw e (pending-halt_cleared s.journal approval stuck))
cleared_exit env approval s (returned (some e), t) h v = h
cleared_exit env approval s (raised x, t) h v = h

pub clear_halt-IsCleared :
    {W : Type 0} (env : Env W) (approval : String) (acknowledged : Bool) (s : Engine W)
    → IsCleared env approval s
        (clear_halt env approval acknowledged s).0
        (clear_halt env approval acknowledged s).1.journal
unfolding clear_halt gets ◌>>=◌ pure
clear_halt-IsCleared env approval false s = refl
clear_halt-IsCleared env approval true s = elim (Bool-cases (is_halted s.journal)) [
  | inl stuck ↦ rw stuck (
      cleared_exit env approval s (clear_run env approval s.journal s)
        ((clear_run-Clears env s.journal approval s.journal stuck).at s refl)
        (clear_run-IsVerified env s approval))
  | inr free ↦ rw free refl
]
