-- ===== src/Ledger.antt =====
-- The hash-chained event log of packages/field-core/src/field_core/ledger.py: the event record,
-- the part of it that is hashed, and the operations that build and check a chain.
-- `hexdigest` stands for sha-256 over the canonical JSON of a record (hashlib and json).
pub mod Hash
pub mod Chain
pub mod Tamper
mod Tests
use Prim.Native.Nat.{Ordering}
use Prim.Native.String.{compare}
use field_platform.Prelude.{
  ℕ, suc, String, Bool, true, false, Option, none, some, List, [], ◌∷◌, str_eq, if◌then◌else◌,
}
use field_platform.Prelude.Dict.{Dict, lookup, insert, pop}

abbrev pub genesis_hash : String
genesis_hash = "0000000000000000000000000000000000000000000000000000000000000000"

-- A value of a serialised event. `json` is the canonical JSON text of the payload.
pub data Value : Type 0 where
  null : Value
  text : String → Value
  flag : Bool → Value
  json : String → Value

abbrev pub Record : Type 0
Record = Dict Value

pub record LedgerEvent : Type 0 where
  pub event_id : String
  pub ts : String
  pub event_type : String
  pub agent_id : Option String
  pub payload : String
  pub prev_hash : String
  pub hash : String
  pub signature : Option String
  pub signing_failed : Option Bool
  pub caller_id : Option String
  pub caller_ts : Option String
  pub caller_signature : Option String
  pub caller_unsigned : Option Bool

abbrev pub caller_keys : List String
caller_keys = "caller_id" ∷ "caller_ts" ∷ "caller_signature" ∷ "caller_unsigned" ∷ []

abbrev pub hashed_optional_keys : List String
hashed_optional_keys = "signing_failed" ∷ caller_keys

abbrev pub omit_when_none : List String
omit_when_none = "signature" ∷ hashed_optional_keys

abbrev pub text_or_null : Option String → Value
text_or_null none = null
text_or_null (some s) = text s

abbrev pub flag_or_null : Option Bool → Value
flag_or_null none = null
flag_or_null (some b) = flag b

-- The fields of the model, before `_omit_f2_keys_when_none`.
abbrev pub all_fields : LedgerEvent → Record
all_fields e =
    ("event_id", text e.event_id)
    ∷ ("ts", text e.ts)
    ∷ ("event_type", text e.event_type)
    ∷ ("agent_id", text_or_null e.agent_id)
    ∷ ("payload", json e.payload)
    ∷ ("prev_hash", text e.prev_hash)
    ∷ ("hash", text e.hash)
    ∷ ("signature", text_or_null e.signature)
    ∷ ("signing_failed", flag_or_null e.signing_failed)
    ∷ ("caller_id", text_or_null e.caller_id)
    ∷ ("caller_ts", text_or_null e.caller_ts)
    ∷ ("caller_signature", text_or_null e.caller_signature)
    ∷ ("caller_unsigned", flag_or_null e.caller_unsigned)
    ∷ []

-- `record.get(key) is None`
abbrev pub absent_or_null : Option Value → Bool
absent_or_null (some (text s)) = false
absent_or_null (some (flag b)) = false
absent_or_null (some (json s)) = false
absent_or_null _ = true

-- The loop that pops the listed keys whose value is None.
unfoldable pub pop_none : List String → Record → Record
unfolding lookup pop
pop_none [] r = r
pop_none (k ∷ ks) r = pop_none ks (if absent_or_null (lookup k r) then pop k r else r)

-- `event.model_dump()`
unfoldable pub model_dump : LedgerEvent → Record
unfolding pop_none
model_dump e = pop_none omit_when_none (all_fields e)

-- The part of a record under the hash.
unfoldable pub hashed_part : Record → Record
unfolding pop_none pop
hashed_part r = pop_none hashed_optional_keys (pop "signature" (pop "hash" r))

-- The part of a record under the ledger's own signature.
unfoldable pub signed_part : Record → Record
unfolding pop_none pop
signed_part r = pop_none hashed_optional_keys (pop "signature" r)

abbrev pub insert_sorted : String × Value → Record → Record
insert_sorted (k, v) [] = (k, v) ∷ []
insert_sorted (k, v) ((j, w) ∷ r) = elim (compare k j) [
  | Ordering.gt ↦ (j, w) ∷ insert_sorted (k, v) r
  | _ ↦ (k, v) ∷ (j, w) ∷ r
]

-- `sort_keys=True`
unfoldable pub sort_keys : Record → Record
sort_keys [] = []
sort_keys (kv ∷ r) = insert_sorted kv (sort_keys r)

-- `x or default` on an optional text: the empty text is false as well.
abbrev pub or_text : Option String → String → String
or_text none d = d
or_text (some s) d = if str_eq s "" then d else s

-- Why a chain is refused, with the index of the event.
pub data Reason : Type 0 where
  link_break : ℕ → String → String → Reason
  hash_mismatch : ℕ → String → String → Reason

pub record ChainVerification : Type 0 where
  pub ok : Bool
  pub length : ℕ
  pub first_break_index : Option ℕ
  pub reason : Option Reason

-- sha-256 in hexadecimal of the text of a record whose keys are sorted.
module _ (hexdigest : Record → String) where
  -- `compute_event_hash` of a dict
  unfoldable pub hash_record : Record → String
  unfolding hashed_part sort_keys
  hash_record r = hexdigest (sort_keys (hashed_part r))

  unfoldable pub compute_event_hash : LedgerEvent → String
  unfolding hash_record model_dump
  compute_event_hash e = hash_record (model_dump e)

  -- `none` is the ValueError.
  unfoldable pub flag_signing_failed : LedgerEvent → Option LedgerEvent
  unfolding hash_record model_dump insert
  flag_signing_failed e =
      let dumped = pop "signature" (pop "hash" (model_dump e)) in
      let flagged = insert "signing_failed" (flag true) dumped in
      elim e.signature [
        | some s ↦ none
        | none ↦
            some (record e {
              hash = hash_record flagged;
              signature = none;
              signing_failed = some true;
            })
      ]

  -- `uuid4` and `now` are the fresh id and the clock's text.
  unfoldable pub make_event :
      (uuid4 now : String) (event_type : String) (payload : Option String) (prev_hash : String)
      (agent_id ts event_id : Option String)
      → LedgerEvent
  unfolding hash_record
  make_event uuid4 now event_type payload prev_hash agent_id ts event_id =
      let id = or_text event_id uuid4 in
      let at = or_text ts now in
      let body = or_text payload "{}" in
      let partial : Record =
        ("event_id", text id)
        ∷ ("ts", text at)
        ∷ ("event_type", text event_type)
        ∷ ("agent_id", text_or_null agent_id)
        ∷ ("payload", json body)
        ∷ ("prev_hash", text prev_hash)
        ∷ [] in
      record {
        event_id = id;
        ts = at;
        event_type = event_type;
        agent_id = agent_id;
        payload = body;
        prev_hash = prev_hash;
        hash = hash_record partial;
        signature = none;
        signing_failed = none;
        caller_id = none;
        caller_ts = none;
        caller_signature = none;
        caller_unsigned = none;
      }

  -- The walk, with the hash that the next event must carry and its index.
  unfoldable pub verify_from : String → ℕ → List LedgerEvent → ChainVerification
  unfolding compute_event_hash
  verify_from prev_hash count [] = record {
    ok = true;
    length = count;
    first_break_index = none;
    reason = none;
  }
  verify_from prev_hash i (e ∷ events) =
      if str_eq e.prev_hash prev_hash
      then (if str_eq (compute_event_hash e) e.hash
          then verify_from e.hash (suc i) events
          else record {
            ok = false;
            length = suc i;
            first_break_index = some i;
            reason = some (hash_mismatch i e.hash (compute_event_hash e));
          })
      else record {
        ok = false;
        length = suc i;
        first_break_index = some i;
        reason = some (link_break i e.prev_hash prev_hash);
      }

  unfoldable pub verify_chain : String → List LedgerEvent → ChainVerification
  unfolding verify_from
  verify_chain genesis events = verify_from genesis 0 events
