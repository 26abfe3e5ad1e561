-- ===== src/Federation/Decide.antt =====
-- `BrokerEngine` of engine.py: the verdict on one crossing, in either direction, and its ledger note.
-- A manifest is what the code reads of it: `federated` is none where the section is missing or no
-- dict, a peer's org is none where the peer is no dict.
pub mod Permits
use field_platform.Prelude.{
  ℕ, suc, String, Bool, true, false, ◌&&◌, ◌||◌, not, Option, none, some, List, [], ◌∷◌, ◌++◌,
  str_eq, elem_of, if◌then◌else◌,
}
use field_platform.Federation.{FederationContract, ContractStore, for_org}

pub record Federated : Type 0 where
  pub isolated : Option Bool
  pub allowed_peers : List (Option String)

pub record Manifest : Type 0 where
  pub content : String
  pub federated : Option Federated

-- Text and keys, as Python and its libraries answer.
pub record World : Type 0 where
  pub normalize_org : String → String
  pub contains : String → String → Bool
  pub is_valid : Manifest → Bool
  pub is_usable_key : String → Bool
  pub verify_manifest : Manifest → (signature pem : String) → Bool
  pub home_org : String

pub data Direction : Type 0 where
  inbound outbound : Direction

pub record CrossingRequest : Type 0 where
  pub direction : Direction
  pub counterparty_org : String
  pub counterparty_agent_id : Option String
  pub counterparty_manifest : Option Manifest
  pub agent_id : Option String
  pub manifest : Option Manifest
  pub manifest_signature : Option String
  pub scope : String
  pub data_class : String

abbrev pub is_given : {A : Type 0} → Option A → Bool
is_given none = false
is_given (some a) = true

-- `_names_match_direction`
unfoldable pub names_match : CrossingRequest → Bool
names_match r = elim r.direction [
  | inbound ↦
      is_given r.counterparty_agent_id
      && (is_given r.counterparty_manifest && not (is_given r.agent_id || is_given r.manifest))
  | outbound ↦
      is_given r.agent_id
      && (is_given r.manifest
          && not (is_given r.counterparty_manifest || is_given r.manifest_signature))
]

pub data Clause : Type 0 where
  i_manifest f_isolated f_peer : Clause

-- The reasons, by their fixed part.
pub data Reason : Type 0 where
  invalid_manifest isolated not_listed no_contract no_key unusable_key unsigned bad_signature :
      Reason
  scope_outside data_class_outside : Reason

pub data Verdict : Type 0 where
  allow : FederationContract → Verdict
  block : Clause → Reason → Verdict

abbrev pub federates : Option Federated → Bool
federates none = false
federates (some f) = elim f.isolated [ none ↦ false | some b ↦ not b ]

abbrev pub peers_of : Option Federated → List (Option String)
peers_of none = []
peers_of (some f) = f.allowed_peers

module _ (w : World) where
  abbrev pub any_peer : String → List (Option String) → Bool
  any_peer needle [] = false
  any_peer needle (none ∷ peers) = any_peer needle peers
  any_peer needle (some org ∷ peers) =
      w.contains (w.normalize_org org) needle || any_peer needle peers

  -- `_lists_org`
  unfoldable pub lists_org : List (Option String) → String → Bool
  lists_org peers org =
      let needle = w.normalize_org org in if str_eq needle "" then false else any_peer needle peers

  -- `_outside_contract`, and the verdict where nothing is outside.
  unfoldable pub within_contract : CrossingRequest → FederationContract → Verdict
  within_contract r c =
      if not (elem_of r.scope c.allowed_scopes)
      then block f_peer scope_outside
      else (if not (elem_of r.data_class c.allowed_data_classes)
          then block f_peer data_class_outside
          else allow c)

  abbrev pub signed : Option String → Bool
  signed none = false
  signed (some s) = not (str_eq s "")

  abbrev pub verifies : Manifest → Option String → String → Bool
  verifies m none pem = false
  verifies m (some s) pem = w.verify_manifest m s pem

  -- The signature step of an inbound crossing, and what follows.
  unfoldable pub check_signature : CrossingRequest → Manifest → FederationContract → Verdict
  unfolding within_contract
  check_signature r m c = elim c.counterparty_pubkey_pem [
    | none ↦ block f_peer no_key
    | some pem ↦
        (if not (w.is_usable_key pem)
          then block f_peer unusable_key
          else (if not (signed r.manifest_signature)
              then block f_peer unsigned
              else (if not (verifies m r.manifest_signature pem)
                  then block f_peer bad_signature
                  else within_contract r c)))
  ]

  abbrev pub with_contract : Option FederationContract → (FederationContract → Verdict) → Verdict
  with_contract none f = block f_peer no_contract
  with_contract (some c) f = f c

  -- The steps that both directions take with their manifest and the org it must list.
  unfoldable pub check_manifest : Manifest → String → Verdict → Verdict
  unfolding lists_org
  check_manifest m org verdict =
      if not (w.is_valid m)
      then block i_manifest invalid_manifest
      else (if not (federates m.federated)
          then block f_isolated isolated
          else (if not (lists_org (peers_of m.federated) org)
              then block f_peer not_listed
              else verdict))

  -- A request without its manifest does not get past `names_match`; None is no valid manifest.
  unfoldable pub decide_inbound : CrossingRequest → ContractStore → Verdict
  unfolding check_manifest check_signature for_org
  decide_inbound r store = elim r.counterparty_manifest [
    | none ↦ block i_manifest invalid_manifest
    | some m ↦ check_manifest m w.home_org (
        with_contract (for_org w.contains w.normalize_org r.counterparty_org store)
          (check_signature r m))
  ]

  unfoldable pub decide_outbound : CrossingRequest → ContractStore → Verdict
  unfolding check_manifest within_contract for_org
  decide_outbound r store = elim r.manifest [
    | none ↦ block i_manifest invalid_manifest
    | some m ↦ check_manifest m r.counterparty_org (
        with_contract (for_org w.contains w.normalize_org r.counterparty_org store)
          (within_contract r))
  ]

  unfoldable pub verdict_on : CrossingRequest → ContractStore → Verdict
  unfolding decide_inbound decide_outbound
  verdict_on r store = elim r.direction [
    | inbound ↦ decide_inbound r store
    | outbound ↦ decide_outbound r store
  ]

-- The `federation.allow` or `federation.block` event.
pub record Crossing : Type 0 where
  pub request : CrossingRequest
  pub verdict : Verdict

pub record Broker : Type 0 where
  pub store : ContractStore
  pub ledger : List Crossing
  pub ledger_appends_dropped : ℕ

pub data Append : Type 0 where
  no_ledger appended lost : Append

-- `decide`, with the note of `_verdict`.
unfoldable pub decide : World → Append → CrossingRequest → Broker → Verdict × Broker
unfolding verdict_on
decide w answer r b =
    let v = verdict_on w r b.store in
    elim answer [
      | no_ledger ↦ (v, b)
      | appended ↦ (v, record b { ledger = b.ledger ++ record { request = r; verdict = v } ∷ [] })
      | lost ↦ (v, record b { ledger_appends_dropped = suc b.ledger_appends_dropped })
    ]
