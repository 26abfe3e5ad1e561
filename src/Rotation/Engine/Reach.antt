-- ===== src/Rotation/Engine/Reach.antt =====
-- What any sequence of processes can make of a target: calls of `rotate`, `clear_halt` and `tidy`,
-- each with a provider, a kill switch and an agent of its own, each perhaps cut short.
use field_platform.Prelude.{
  String, Bool, false, Option, none, some, List, [], ◌∷◌, ◌≡◌, refl, inl, subst, sym,
}
use field_platform.Rotation.{planned, verified}
use field_platform.Rotation.Journal.{Entry, transition, halt_cleared, last_transition}
use field_platform.Rotation.Journal.Order.{IsOrdered, append-IsOrdered}
use field_platform.Rotation.Engine.{Env, Engine, write, revoke_call}
use field_platform.Rotation.Engine.Keeps.{
  Keeps, Holds, Keeps-pure, Keeps-raise, Keeps-gets, Keeps-bind, Keeps-case, Keeps-ask, keeps_rules,
}
use field_platform.Rotation.Engine.Handlers.{replacement_verified, describe}
use field_platform.Rotation.Engine.Rotate.{rotate, or_missing}
use field_platform.Rotation.Engine.Clear.{
  last_run, orphan_refs, live_refs, check_tracked, clear_run, clear_halt, tidy,
}
use field_platform.Rotation.Engine.Kept.{IsKept}
use field_platform.Rotation.Engine.Certified.{Predicate, IsCertified}
use field_platform.Rotation.Engine.Walk.{rotate-Keeps}
use field_platform.Rotation.Engine.Lines.{write-Keeps, revoke_call-Keeps}
use field_platform.Rotation.Engine.Safe.{IsSafe, IsWitnessed, IsLicensed, IsWitnessed-IsCertified}

pub data Reach {W : Type 0} : Engine W → Type 0 where
  -- No line, and no call.
  begin : (s : Engine W) → s.journal ≡ [] → s.calls ≡ [] → Reach s
  -- A process sees the journal; all else is its own, or may have changed since.
  restart : (s t : Engine W) → Reach s → t.journal ≡ s.journal → t.calls ≡ s.calls → Reach t
  call :
      (env : Env W) (lock_held : Bool) (s : Engine W) → Reach s → Reach (rotate env lock_held s).1
  clear :
      (env : Env W) (approval : String) (acknowledged : Bool) (s : Engine W)
      → Reach s
      → Reach (clear_halt env approval acknowledged s).1
  tidied : (s : Engine W) → Reach s → Reach (tidy s).1

module _ {W : Type 0} (env : Env W) (P : Predicate) where
  look : (id : String) → Keeps P (describe env id)
  unfolding describe
  look id = Keeps-ask _

  live_refs-Keeps : (ids : List String) → Keeps P (live_refs env ids)
  unfolding live_refs
  live_refs-Keeps [] = Keeps-pure []
  live_refs-Keeps (id ∷ ids) = Keeps-bind _ _ (look id) (λ i.
      Keeps-bind _ _ (Keeps-gets _) (λ x. Keeps-bind _ _ (live_refs-Keeps ids) (λ r. Keeps-pure _)))

  pub check_tracked-Keeps : (ids : List String) → Keeps P (check_tracked env ids)
  unfolding check_tracked
  check_tracked-Keeps [] = Keeps-pure none
  check_tracked-Keeps (id ∷ ids) = search (keeps_rules, live_refs-Keeps) depth 20

  pub orphans-Keeps : (o : Option (List String)) → Keeps {W = W} P (or_missing o)
  orphans-Keeps none = Keeps-raise _
  orphans-Keeps (some ids) = Keeps-pure ids

module _ {W : Type 0} (env : Env W) (P : Predicate) (k : IsKept env P) where
  cleared_line : (r : String) → Keeps P (write env (halt_cleared r))
  cleared_line r = k.write_plain (halt_cleared r) refl

  clear_run-Keeps : (r : String) (es : List Entry) → Keeps P (clear_run env r es)
  unfolding clear_run
  clear_run-Keeps r es = Keeps-case (last_run es) _ _ (Keeps-pure _) (λ run.
      Keeps-bind _ _ (orphans-Keeps env P (orphan_refs run)) (λ orphans.
        Keeps-bind _ _ (check_tracked-Keeps env P _) (λ p.
          Keeps-case p _ _ (Keeps-bind _ _ (cleared_line r) (λ u. Keeps-pure none))
            (λ e. Keeps-pure (some e)))))

  clear_halt-Keeps : (r : String) (b : Bool) → Keeps P (clear_halt env r b)
  unfolding clear_halt
  clear_halt-Keeps r b = search (keeps_rules, clear_run-Keeps) depth 20

tidy-Keeps : {W : Type 0} (P : Predicate) → Keeps {W = W} P tidy
unfolding tidy
tidy-Keeps P = search keeps_rules depth 20

-- A certified invariant holds in whatever is reached.
Reach-Holds :
    {W : Type 0} (P Q : Predicate)
    → ((env : Env W) → IsCertified env P Q)
    → P [] []
    → (s : Engine W) → Reach s
    → Holds P s
Reach-Holds P Q c nil _ (begin s e d) =
    subst (λ es. P es s.calls) (sym e) (subst (P []) (sym d) nil)
Reach-Holds P Q c nil _ (restart s t r e d) =
    subst (λ es. P es t.calls) (sym e) (subst (P s.journal) (sym d) (Reach-Holds P Q c nil s r))
Reach-Holds P Q c nil _ (call env l t r) =
    (rotate-Keeps env (c env) l).at t (Reach-Holds P Q c nil t r)
Reach-Holds P Q c nil _ (clear env a b t r) =
    (clear_halt-Keeps env P (c env).base a b).at t (Reach-Holds P Q c nil t r)
Reach-Holds P Q c nil _ (tidied t r) = (tidy-Keeps P).at t (Reach-Holds P Q c nil t r)

-- Whatever is reached, every call of the provider that revokes in the role of the old credential
-- stands behind an acceptance of the new one: since the run started, the verifier has refused the
-- bogus credential and directly behind that has accepted the staged one.
pub Reach-IsSafe : {W : Type 0} (s : Engine W) → Reach s → IsSafe s.calls
unfolding replacement_verified last_transition
Reach-IsSafe s r =
    (Reach-Holds IsWitnessed IsLicensed (λ env. IsWitnessed-IsCertified env) (tt, inl refl) s r).0

abbrev InOrder : Predicate
InOrder es cs = IsOrdered none false es

module _ {W : Type 0} (env : Env W) where
  ordered_write : (e : Entry) → Keeps InOrder (write env e)
  ordered_write e =
      write-Keeps env InOrder e
        (λ clean es es' cs h accepted. append-IsOrdered clean e es es' h accepted)

  ordered_revoke : (id role : String) → Keeps InOrder (revoke_call env id role)
  ordered_revoke id role = revoke_call-Keeps env InOrder id role (λ es cs h. h)

  InOrder-IsKept : IsKept env InOrder
  InOrder-IsKept = record {
    write_plain = λ e plain. ordered_write e;
    revoke_other = λ id role other. ordered_revoke id role;
  }

  InOrder-IsCertified : IsCertified env InOrder InOrder
  InOrder-IsCertified = record {
    base = InOrder-IsKept;
    strong = InOrder-IsKept;
    weaken = λ es cs h. h;
    replaced = λ es cs h e. h;
    control = λ es cs a h. h;
    verdict = λ es cs a h. h;
    accepted = λ es cs h. h;
    write_verified = λ f. ordered_write (transition verified f);
    write_planned = λ f. ordered_write (transition planned f);
    revoke_old = λ id. ordered_revoke id "old";
  }

-- Whatever is reached, the journal shows its transitions in order, and none behind a halt that no
-- human has cleared.
pub Reach-IsOrdered : {W : Type 0} (s : Engine W) → Reach s → IsOrdered none false s.journal
Reach-IsOrdered s r = Reach-Holds InOrder InOrder (λ env. InOrder-IsCertified env) tt s r
