-- ===== src/Ledger/Tests.antt =====
-- A short chain with a toy digest, and the theorems at it.
use field_platform.Prelude.{
  String, true, Option, none, some, List, [], ◌∷◌, ◌++◌, ◌≡◌, ◌⊎◌, refl, map, arith,
}
use field_platform.Prelude.Dict.{lookup}
use field_platform.Ledger.{
  Value, text, Record, LedgerEvent, genesis_hash, compute_event_hash, make_event, verify_chain,
  verify_from,
}
use field_platform.Ledger.Hash.Cases.{body}
use field_platform.Ledger.Chain.{Verdict, verify_chain-Verdict, head_hash, verify_chain-make_event}
use field_platform.Ledger.Tamper.{Collision, same_head_same_content}

abbrev value_text : Option Value → String
value_text (some (text s)) = s
value_text _ = ""

-- Not a good hash: it forgets everything but the event's id.
abbrev toy : Record → String
unfolding lookup
toy r = value_text (lookup "event_id" r)

abbrev first : LedgerEvent
first = make_event toy "u1" "t1" "agent.start" none genesis_hash (some "a") none none

abbrev second : LedgerEvent
second = make_event toy "u2" "t2" "agent.stop" (some "{}") "u1" (some "a") none none

abbrev forged : LedgerEvent
forged = make_event toy "u1" "t1" "agent.other" none genesis_hash (some "b") none none

abbrev chain : List LedgerEvent
chain = first ∷ second ∷ []

chain_ok : (verify_chain toy genesis_hash chain).ok ≡ true
unfolding toy verify_chain make_event compute_event_hash
chain_ok = refl

forged_ok : (verify_chain toy genesis_hash (forged ∷ second ∷ [])).ok ≡ true
unfolding toy verify_chain make_event compute_event_hash
forged_ok = refl

mutated :
    verify_chain toy genesis_hash (first ∷ record second { event_id = "u9" } ∷ [])
    ≡ verify_from toy "u1" 1 (record second { event_id = "u9" } ∷ [])
unfolding toy verify_chain make_event compute_event_hash
mutated = refl

verify_chain-Verdict_example :
    Verdict toy genesis_hash 0 chain (verify_chain toy genesis_hash chain)
verify_chain-Verdict_example = verify_chain-Verdict toy genesis_hash chain

verify_chain-make_event_example :
    (verify_chain toy genesis_hash (
      chain
      ++ make_event toy "u3" "t3" "x" none (head_hash toy genesis_hash chain) none none none
        ∷ [])).ok
    ≡ true
verify_chain-make_event_example =
    verify_chain-make_event toy genesis_hash chain "u3" "t3" "x" none none none none chain_ok

same_head_same_content_example :
    ((map body chain ≡ map body (forged ∷ second ∷ [])) × (genesis_hash ≡ genesis_hash))
    ⊎ Collision toy chain (forged ∷ second ∷ [])
unfolding make_event
same_head_same_content_example =
    same_head_same_content toy genesis_hash genesis_hash chain (forged ∷ second ∷ []) chain_ok
      forged_ok (omega arith) refl
