-- ===== src/Ledger/Hash.antt =====
-- What stands under the hash of an event, and that every event which the module builds is sealed.
pub mod Cases
use field_platform.Prelude.{String, Bool, true, Option, none, some, ◌≡◌, refl, ap, sym, ◌∙◌}
use field_platform.Ledger.{
  Record, LedgerEvent, model_dump, hashed_part, sort_keys, compute_event_hash, hash_record,
  make_event, flag_signing_failed,
}
use Cases.{body, hashed_cases, flagged_cases, event_with}

pub hashed_part-model_dump : (e : LedgerEvent) → hashed_part (model_dump e) ≡ body e
hashed_part-model_dump e =
    hashed_cases e.event_id e.ts e.event_type e.agent_id e.payload e.prev_hash e.hash e.signature
      e.signing_failed e.caller_id e.caller_ts e.caller_signature e.caller_unsigned

module _ (hexdigest : Record → String) where
  -- The hash of an event is the digest of its sorted body.
  pub compute_event_hash_lem :
      (e : LedgerEvent) → compute_event_hash hexdigest e ≡ hexdigest (sort_keys (body e))
  unfolding compute_event_hash
  compute_event_hash_lem e = ap (λ r. hexdigest (sort_keys r)) (hashed_part-model_dump e)

  -- Whatever signature is attached to an event or taken off it, its hash stays the same.
  pub compute_event_hash-signature :
      (e : LedgerEvent) (s : Option String)
      → compute_event_hash hexdigest (record e { signature = s }) ≡ compute_event_hash hexdigest e
  compute_event_hash-signature e s =
      compute_event_hash_lem (record e { signature = s }) ∙ sym (compute_event_hash_lem e)

  -- An event that `make_event` builds carries its own hash.
  pub make_event-IsSealed :
      (uuid4 now y : String) (p : Option String) (v : String) (a t i : Option String)
      → let e = make_event hexdigest uuid4 now y p v a t i in
        compute_event_hash hexdigest e ≡ e.hash
  unfolding make_event
  make_event-IsSealed uuid4 now y p v a t i = compute_event_hash_lem _

  -- What `flag_signing_failed` makes of an event.
  abbrev pub Flagged : LedgerEvent → Type 0
  Flagged e =
      (e' : LedgerEvent) × (flag_signing_failed hexdigest e ≡ some e')
      × (e'.signing_failed ≡ some true)
      × (compute_event_hash hexdigest e' ≡ e'.hash)

  seal_fields :
      (i t y : String) (a : Option String) (p v h : String) (s : Option String) (f : Option Bool)
      (c1 c2 c3 : Option String) (c4 : Option Bool)
      → s ≡ none
      → Flagged (event_with i t y a p v h s f c1 c2 c3 c4)
  unfolding flag_signing_failed hash_record
  seal_fields i t y a p v h (some x) f c1 c2 c3 c4 q = cc
  seal_fields i t y a p v h none f c1 c2 c3 c4 q = (
    _,
    refl,
    refl,
    compute_event_hash_lem _ ∙ sym (ap hexdigest (flagged_cases i t y a p v h f c1 c2 c3 c4)),
  )

  -- An unsigned event is flagged and sealed again.
  pub flag_signing_failed-IsSealed : (e : LedgerEvent) → e.signature ≡ none → Flagged e
  flag_signing_failed-IsSealed e unsigned =
      seal_fields e.event_id e.ts e.event_type e.agent_id e.payload e.prev_hash e.hash e.signature
        e.signing_failed e.caller_id e.caller_ts e.caller_signature e.caller_unsigned unsigned
