-- ===== src/Rotation/Tests.antt =====
-- A journal from the first run on, and the theorems at it.
use field_platform.Prelude.{true, false, inl, none, some, List, [], ◌∷◌, ◌++◌, ◌≡◌, ◌↔◌, refl}
use field_platform.Rotation.{planned, minted, old_revoked, halted, check_transition}
use field_platform.Rotation.Journal.{
  Fields, Entry, transition, halt_cleared, ok, illegal_transition, journal_error, append,
  append_transition, pending, scan, reset,
}
use field_platform.Rotation.Journal.Order.{IsOrdered, append-IsOrdered, append-planned}

abbrev fields : Fields
fields = record {
  run_id = some "r1";
  cred_old = some "c1";
  cred_new = none;
  reason = none;
  leaves_new_in_place = none;
  snapshot = none;
  ttl_days = none;
  ref = none;
}

abbrev started : List Entry
started = transition planned fields ∷ []

abbrev halted_entries : List Entry
halted_entries =
    transition planned fields ∷ transition minted fields ∷ transition halted fields ∷ []

-- Revocation may not follow a mint.
no_revocation_yet :
    append true (transition old_revoked fields) (started ++ transition minted fields ∷ [])
    ≡ illegal_transition
unfolding append append_transition scan check_transition reset
no_revocation_yet = refl

halt_blocks : append true (transition planned fields) halted_entries ≡ journal_error
unfolding append append_transition scan
halt_blocks = refl

mint_follows :
    append true (transition minted fields) started ≡ ok (started ++ transition minted fields ∷ [])
unfolding append append_transition scan check_transition reset
mint_follows = refl

started-IsOrdered : IsOrdered none false started
started-IsOrdered = (refl, inl refl, tt)

append-IsOrdered_example : IsOrdered none false (started ++ transition minted fields ∷ [])
append-IsOrdered_example =
    append-IsOrdered true (transition minted fields) started
      (started ++ transition minted fields ∷ []) started-IsOrdered mint_follows

append-planned_example :
    (append true (transition planned fields) (halted_entries ++ halt_cleared "checked" ∷ [])
      ≡ ok ((halted_entries ++ halt_cleared "checked" ∷ []) ++ transition planned fields ∷ []))
    ↔ (pending (halted_entries ++ halt_cleared "checked" ∷ []) ≡ none)
append-planned_example = append-planned fields (halted_entries ++ halt_cleared "checked" ∷ [])
