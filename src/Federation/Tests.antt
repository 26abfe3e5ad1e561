-- ===== src/Federation/Tests.antt =====
-- A broker with one contract, and the theorems at it.
use field_platform.Prelude.{true, false, none, some, [], ◌∷◌, ◌≡◌, ◌↔◌, arith, refl, str_eq}
use field_platform.Prelude.Dict.{lookup}
use field_platform.Federation.{FederationContract, ContractStore, save}
use field_platform.Federation.Counts.{count}
use field_platform.Federation.OneActive.{IsOneActive, row_of, save-IsOneActive}
use field_platform.Federation.Decide.{World, inbound, CrossingRequest, allow, verdict_on}
use field_platform.Federation.Decide.Permits.{IsPermitted, verdict_on_iff}

-- Names that differ in nothing but themselves; every key is usable and every signature verifies.
abbrev world : World
world = record {
  normalize_org = λ s. s;
  contains = λ s t. str_eq s t;
  is_valid = λ m. true;
  is_usable_key = λ pem. true;
  verify_manifest = λ m s pem. true;
  home_org = "us";
}

abbrev contract : FederationContract
contract = record {
  contract_id = "c1";
  counterparty_org = "acme";
  allowed_scopes = "read" ∷ [];
  allowed_data_classes = "invoice" ∷ [];
  contract_ref = none;
  counterparty_pubkey_pem = some "pem";
  is_active = true;
}

abbrev expired : FederationContract
expired = record contract { is_active = false }

abbrev no_contracts : ContractStore
no_contracts = record { rows = []; indexed = true }

abbrev one_contract : ContractStore
one_contract = record { rows = ("c1", row_of (λ s. s) contract) ∷ []; indexed = true }

abbrev request : CrossingRequest
request = record {
  direction = inbound;
  counterparty_org = "acme";
  counterparty_agent_id = some "their-agent";
  counterparty_manifest = some (record {
    content = "m";
    federated = some (record { isolated = some false; allowed_peers = some "us" ∷ [] });
  });
  agent_id = none;
  manifest = none;
  manifest_signature = some "sig";
  scope = "read";
  data_class = "invoice";
}

crosses : verdict_on world request one_contract ≡ allow contract
unfolding verdict_on
crosses = refl

one_contract-IsOneActive : IsOneActive (λ s. s) one_contract
unfolding count lookup
one_contract-IsOneActive = record { distinct = (refl, tt); one = λ key. ground arith }

save-IsOneActive_example : IsOneActive (λ s. s) (save (λ s. s) expired one_contract).1
save-IsOneActive_example = save-IsOneActive (λ s. s) expired one_contract one_contract-IsOneActive

verdict_on_iff_example :
    (verdict_on world request one_contract ≡ allow contract)
    ↔ IsPermitted world request one_contract contract
verdict_on_iff_example = verdict_on_iff world request one_contract contract

found : lookup "c1" one_contract.rows ≡ some (row_of (λ s. s) contract)
unfolding lookup
found = refl
