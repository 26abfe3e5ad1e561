-- ===== src/Rotation/Engine/Safe.antt =====
-- What the calls of the engine show of a revocation of the old credential.
use field_platform.Prelude.{
  Bool, true, false, Option, none, some, List, [], ◌∷◌, ◌++◌, ◌≡◌, refl, ◌⊎◌, inl, inr, str_eq,
  arith, subst, sym,
}
use field_platform.Rotation.{State, planned, verified, old_revoked, check_transition}
use field_platform.Rotation.Journal.{
  Fields, Entry, transition, note, halt_cleared, ok, append, append_transition, scan, reset,
  last_transition,
}
use field_platform.Rotation.Journal.Order.{check-Follows}
use field_platform.Rotation.Engine
use field_platform.Rotation.Engine.{
  Env, Engine, Call, started, controlled, revoked, Answer, yes_answer, no_answer, garbage, mark,
  write, revoke_call,
}
use field_platform.Rotation.Engine.Handlers.{replacement_verified, is_verified_state}
use field_platform.Rotation.Engine.Kept.{IsKept, is_plain}
use field_platform.Rotation.Engine.Certified.{Predicate, IsCertified}
use field_platform.Rotation.Engine.Lines.{
  write-Keeps, revoke_call-Keeps, last_transition-append, scan-last_transition, state_or,
}

abbrev pub IsControlled : List Call → Type 0
IsControlled (controlled no_answer ∷ cs) = Unit
IsControlled _ = ⊥

-- Since its run started, the verifier has accepted the staged credential directly behind a
-- refusal of the bogus one.
abbrev pub IsAccepted : List Call → Type 0
IsAccepted [] = ⊥
IsAccepted (started ∷ cs) = ⊥
IsAccepted (controlled a ∷ cs) = IsAccepted cs
IsAccepted (Engine.verified a ∷ cs) = ((a ≡ yes_answer) × IsControlled cs) ⊎ IsAccepted cs
IsAccepted (revoked id role ∷ cs) = IsAccepted cs

-- Every revocation of an old credential stands behind such an acceptance.
abbrev pub IsSafe : List Call → Type 0
IsSafe [] = Unit
IsSafe (revoked id role ∷ cs) = ((str_eq role "old" ≡ false) ⊎ IsAccepted cs) × IsSafe cs
IsSafe (_ ∷ cs) = IsSafe cs

-- A journal that shows a verified replacement has calls that accept it.
abbrev pub IsWitnessed : Predicate
IsWitnessed es cs = IsSafe cs × ((replacement_verified es ≡ false) ⊎ IsAccepted cs)

abbrev pub IsLicensed : Predicate
IsLicensed es cs = IsSafe cs × IsAccepted cs

same_journal :
    (clean : Bool) (e : Entry) (es es' : List Entry)
    → append clean e es ≡ ok es'
    → es' ≡ es ++ e ∷ []
unfolding append append_transition
same_journal clean (transition s f) es es' accepted = ground arith
same_journal clean (note r f) es es' accepted = ground arith
same_journal clean (halt_cleared r) es es' accepted = ground arith

is_verified_last :
    (o : Option (State × Fields)) → state_or none o ≡ some verified → is_verified_state o ≡ true
is_verified_last none e = cc
is_verified_last (some (s, f)) e = let same : s ≡ verified = cc in rw same refl

-- An accepted `old_revoked` stands behind `verified`.
behind_verified :
    (f : Fields) (clean : Bool) (es es' : List Entry)
    → append clean (transition old_revoked f) es ≡ ok es'
    → replacement_verified es ≡ true
unfolding append append_transition replacement_verified
behind_verified f clean es es' accepted =
    let passed : check_transition (reset (scan none false es).0) old_revoked ≡ true =
      ground arith in
    let before : (scan none false es).0 ≡ some verified = (check-Follows _ old_revoked).0 passed in
    let last : state_or none (last_transition es) ≡ some verified =
      cc (before, scan-last_transition none false es) in
    is_verified_last _ last

is_replaced : Entry → Bool → Bool
is_replaced (transition verified f) b = true
is_replaced (transition old_revoked f) b = true
is_replaced (transition s f) b = false
is_replaced _ b = b

-- What one more line makes of `_replacement_verified`.
replacement_verified-append :
    (es : List Entry) (e : Entry)
    → replacement_verified (es ++ e ∷ []) ≡ is_replaced e (replacement_verified es)
unfolding replacement_verified is_replaced
replacement_verified-append es (transition s f) =
    rw (last_transition-append es (transition s f)) (ground arith)
replacement_verified-append es (note r f) = rw (last_transition-append es (note r f)) refl
replacement_verified-append es (halt_cleared r) =
    rw (last_transition-append es (halt_cleared r)) refl

plain-IsWitnessed :
    (e : Entry) (clean : Bool) (es es' : List Entry) (cs : List Call)
    → is_plain e ≡ true
    → IsWitnessed es cs
    → append clean e es ≡ ok es'
    → IsWitnessed es' (mark e cs)
unfolding is_replaced
plain-IsWitnessed (transition old_revoked f) clean es es' cs plain (safe, seen) accepted = (
  safe,
  elim seen [ inl e ↦ absurd (cc (e, behind_verified f clean es es' accepted)) | inr a ↦ inr a ],
)
plain-IsWitnessed (transition planned f) clean es es' cs plain h accepted = cc
plain-IsWitnessed (transition verified f) clean es es' cs plain h accepted = cc
plain-IsWitnessed e clean es es' cs plain (safe, seen) accepted =
    let grown : es' ≡ es ++ e ∷ [] = same_journal clean e es es' accepted in
    (
      safe,
      elim seen [
        | inl b ↦ inl (rw (grown, replacement_verified-append es e) (ground arith))
        | inr a ↦ inr a
      ],
    )

plain_mark : (e : Entry) (cs : List Call) → is_plain e ≡ true → mark e cs ≡ cs
plain_mark (transition planned f) cs plain = cc
plain_mark e cs plain = refl

module _ {W : Type 0} (env : Env W) where
  IsWitnessed-IsKept : IsKept env IsWitnessed
  IsWitnessed-IsKept = record {
    write_plain = λ e plain.
        write-Keeps env IsWitnessed e
          (λ clean es es' cs h accepted. plain-IsWitnessed e clean es es' cs plain h accepted);
    revoke_other = λ id role other.
        revoke_call-Keeps env IsWitnessed id role (λ es cs h. ((inl other, h.0), h.1));
  }

  IsLicensed-IsKept : IsKept env IsLicensed
  IsLicensed-IsKept = record {
    write_plain = λ e plain. write-Keeps env IsLicensed e (λ clean es es' cs h accepted.
        subst (λ l. IsSafe l × IsAccepted l) (sym (plain_mark e cs plain)) h);
    revoke_other = λ id role other.
        revoke_call-Keeps env IsLicensed id role (λ es cs h. ((inl other, h.0), h.1));
  }

  planned-replacement_verified :
      (f : Fields) (clean : Bool) (es es' : List Entry)
      → append clean (transition planned f) es ≡ ok es'
      → replacement_verified es' ≡ false
  unfolding is_replaced
  planned-replacement_verified f clean es es' accepted =
      rw
        (
          same_journal clean (transition planned f) es es' accepted,
          replacement_verified-append es (transition planned f),
        )
        refl

  pub IsWitnessed-IsCertified : IsCertified env IsWitnessed IsLicensed
  IsWitnessed-IsCertified = record {
    base = IsWitnessed-IsKept;
    strong = IsLicensed-IsKept;
    weaken = λ es cs h. (h.0, inr h.1);
    replaced = λ es cs h e. (h.0, elim h.1 [ inl plain ↦ absurd (cc (e, plain)) | inr a ↦ a ]);
    control = λ es cs a h. h;
    verdict = λ es cs a h. (h.0, elim h.1 [ inl plain ↦ inl plain | inr b ↦ inr (inr b) ]);
    accepted = λ es cs h. (h.0, inl (refl, tt));
    write_verified =
        λ f. write-Keeps env IsLicensed (transition verified f) (λ clean es es' cs h accepted. h);
    write_planned = λ f.
        write-Keeps env IsWitnessed (transition planned f) (λ clean es es' cs h accepted.
          (h.0, inl (planned-replacement_verified f clean es es' accepted)));
    revoke_old = λ id. revoke_call-Keeps env IsLicensed id "old" (λ es cs h. ((inr h.1, h.0), h.1));
  }
