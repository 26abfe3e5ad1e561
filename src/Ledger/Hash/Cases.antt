-- ===== src/Ledger/Hash/Cases.antt =====
-- The fields under the hash, computed for each choice of the optional fields that are set.
use field_platform.Prelude.{String, Bool, true, Option, none, some, [], ◌∷◌, ◌≡◌, refl}
use field_platform.Prelude.Dict.{insert, pop}
use field_platform.Ledger.{
  text, flag, json, Record, LedgerEvent, text_or_null, model_dump, hashed_part, sort_keys,
}

-- A field that is left out when it is None.
abbrev pub opt_text : String → Option String → Record → Record
opt_text k none r = r
opt_text k (some s) r = (k, text s) ∷ r

abbrev pub opt_flag : String → Option Bool → Record → Record
opt_flag k none r = r
opt_flag k (some b) r = (k, flag b) ∷ r

-- The fields under the hash, in the order of the model.
abbrev pub body : LedgerEvent → Record
body e =
    ("event_id", text e.event_id)
    ∷ ("ts", text e.ts)
    ∷ ("event_type", text e.event_type)
    ∷ ("agent_id", text_or_null e.agent_id)
    ∷ ("payload", json e.payload)
    ∷ ("prev_hash", text e.prev_hash)
    ∷ opt_flag "signing_failed" e.signing_failed (
        opt_text "caller_id" e.caller_id (
          opt_text "caller_ts" e.caller_ts (
            opt_text "caller_signature" e.caller_signature
              (opt_flag "caller_unsigned" e.caller_unsigned []))))

module _ (i t y : String) (a : Option String) (p v h : String) where
  abbrev pub event_with :
      Option String
      → Option Bool
      → Option String
      → Option String
      → Option String
      → Option Bool
      → LedgerEvent
  event_with s f c1 c2 c3 c4 = record {
    event_id = i;
    ts = t;
    event_type = y;
    agent_id = a;
    payload = p;
    prev_hash = v;
    hash = h;
    signature = s;
    signing_failed = f;
    caller_id = c1;
    caller_ts = c2;
    caller_signature = c3;
    caller_unsigned = c4;
  }

  -- One case for each choice of the optional fields that are set.
  pub hashed_cases :
      (s : Option String) (f : Option Bool) (c1 c2 c3 : Option String) (c4 : Option Bool)
      → hashed_part (model_dump (event_with s f c1 c2 c3 c4)) ≡ body (event_with s f c1 c2 c3 c4)
  unfolding hashed_part model_dump
  hashed_cases none none none none none none = refl
  hashed_cases none none none none none (some _) = refl
  hashed_cases none none none none (some _) none = refl
  hashed_cases none none none none (some _) (some _) = refl
  hashed_cases none none none (some _) none none = refl
  hashed_cases none none none (some _) none (some _) = refl
  hashed_cases none none none (some _) (some _) none = refl
  hashed_cases none none none (some _) (some _) (some _) = refl
  hashed_cases none none (some _) none none none = refl
  hashed_cases none none (some _) none none (some _) = refl
  hashed_cases none none (some _) none (some _) none = refl
  hashed_cases none none (some _) none (some _) (some _) = refl
  hashed_cases none none (some _) (some _) none none = refl
  hashed_cases none none (some _) (some _) none (some _) = refl
  hashed_cases none none (some _) (some _) (some _) none = refl
  hashed_cases none none (some _) (some _) (some _) (some _) = refl
  hashed_cases none (some _) none none none none = refl
  hashed_cases none (some _) none none none (some _) = refl
  hashed_cases none (some _) none none (some _) none = refl
  hashed_cases none (some _) none none (some _) (some _) = refl
  hashed_cases none (some _) none (some _) none none = refl
  hashed_cases none (some _) none (some _) none (some _) = refl
  hashed_cases none (some _) none (some _) (some _) none = refl
  hashed_cases none (some _) none (some _) (some _) (some _) = refl
  hashed_cases none (some _) (some _) none none none = refl
  hashed_cases none (some _) (some _) none none (some _) = refl
  hashed_cases none (some _) (some _) none (some _) none = refl
  hashed_cases none (some _) (some _) none (some _) (some _) = refl
  hashed_cases none (some _) (some _) (some _) none none = refl
  hashed_cases none (some _) (some _) (some _) none (some _) = refl
  hashed_cases none (some _) (some _) (some _) (some _) none = refl
  hashed_cases none (some _) (some _) (some _) (some _) (some _) = refl
  hashed_cases (some _) none none none none none = refl
  hashed_cases (some _) none none none none (some _) = refl
  hashed_cases (some _) none none none (some _) none = refl
  hashed_cases (some _) none none none (some _) (some _) = refl
  hashed_cases (some _) none none (some _) none none = refl
  hashed_cases (some _) none none (some _) none (some _) = refl
  hashed_cases (some _) none none (some _) (some _) none = refl
  hashed_cases (some _) none none (some _) (some _) (some _) = refl
  hashed_cases (some _) none (some _) none none none = refl
  hashed_cases (some _) none (some _) none none (some _) = refl
  hashed_cases (some _) none (some _) none (some _) none = refl
  hashed_cases (some _) none (some _) none (some _) (some _) = refl
  hashed_cases (some _) none (some _) (some _) none none = refl
  hashed_cases (some _) none (some _) (some _) none (some _) = refl
  hashed_cases (some _) none (some _) (some _) (some _) none = refl
  hashed_cases (some _) none (some _) (some _) (some _) (some _) = refl
  hashed_cases (some _) (some _) none none none none = refl
  hashed_cases (some _) (some _) none none none (some _) = refl
  hashed_cases (some _) (some _) none none (some _) none = refl
  hashed_cases (some _) (some _) none none (some _) (some _) = refl
  hashed_cases (some _) (some _) none (some _) none none = refl
  hashed_cases (some _) (some _) none (some _) none (some _) = refl
  hashed_cases (some _) (some _) none (some _) (some _) none = refl
  hashed_cases (some _) (some _) none (some _) (some _) (some _) = refl
  hashed_cases (some _) (some _) (some _) none none none = refl
  hashed_cases (some _) (some _) (some _) none none (some _) = refl
  hashed_cases (some _) (some _) (some _) none (some _) none = refl
  hashed_cases (some _) (some _) (some _) none (some _) (some _) = refl
  hashed_cases (some _) (some _) (some _) (some _) none none = refl
  hashed_cases (some _) (some _) (some _) (some _) none (some _) = refl
  hashed_cases (some _) (some _) (some _) (some _) (some _) none = refl
  hashed_cases (some _) (some _) (some _) (some _) (some _) (some _) = refl

  -- `flag_signing_failed` hashes what the flagged event will hash, in whatever order it was built.
  pub flagged_cases :
      (f : Option Bool) (c1 c2 c3 : Option String) (c4 : Option Bool)
      → sort_keys (
          hashed_part (
            insert "signing_failed"
              (flag true)
              (pop "signature" (pop "hash" (model_dump (event_with none f c1 c2 c3 c4))))))
        ≡ sort_keys (body (event_with none (some true) c1 c2 c3 c4))
  unfolding hashed_part model_dump sort_keys insert pop
  flagged_cases none none none none none = refl
  flagged_cases none none none none (some _) = refl
  flagged_cases none none none (some _) none = refl
  flagged_cases none none none (some _) (some _) = refl
  flagged_cases none none (some _) none none = refl
  flagged_cases none none (some _) none (some _) = refl
  flagged_cases none none (some _) (some _) none = refl
  flagged_cases none none (some _) (some _) (some _) = refl
  flagged_cases none (some _) none none none = refl
  flagged_cases none (some _) none none (some _) = refl
  flagged_cases none (some _) none (some _) none = refl
  flagged_cases none (some _) none (some _) (some _) = refl
  flagged_cases none (some _) (some _) none none = refl
  flagged_cases none (some _) (some _) none (some _) = refl
  flagged_cases none (some _) (some _) (some _) none = refl
  flagged_cases none (some _) (some _) (some _) (some _) = refl
  flagged_cases (some _) none none none none = refl
  flagged_cases (some _) none none none (some _) = refl
  flagged_cases (some _) none none (some _) none = refl
  flagged_cases (some _) none none (some _) (some _) = refl
  flagged_cases (some _) none (some _) none none = refl
  flagged_cases (some _) none (some _) none (some _) = refl
  flagged_cases (some _) none (some _) (some _) none = refl
  flagged_cases (some _) none (some _) (some _) (some _) = refl
  flagged_cases (some _) (some _) none none none = refl
  flagged_cases (some _) (some _) none none (some _) = refl
  flagged_cases (some _) (some _) none (some _) none = refl
  flagged_cases (some _) (some _) none (some _) (some _) = refl
  flagged_cases (some _) (some _) (some _) none none = refl
  flagged_cases (some _) (some _) (some _) none (some _) = refl
  flagged_cases (some _) (some _) (some _) (some _) none = refl
  flagged_cases (some _) (some _) (some _) (some _) (some _) = refl
