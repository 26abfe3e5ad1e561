-- ===== src/Federation.antt =====
-- The federation broker, services/federation-broker/src/federation_broker/engine.py: the table of
-- contracts here, the crossing decisions in Decide. Unicode normalisation, the PEM loader, manifest
-- validation, signatures and `in` on texts are the record `World`.
pub mod Counts
pub mod OneActive
pub mod Decide
mod Tests
use field_platform.Prelude.{
  ℕ, ◌+◌, String, Bool, true, false, ◌&&◌, ◌||◌, not, Option, none, some, List, [], ◌∷◌, ◌++◌,
  str_eq, ltb, leb_text, if◌then◌else◌,
}
use field_platform.Prelude.Dict.{Dict, lookup, insert}

pub record FederationContract : Type 0 where
  pub contract_id : String
  pub counterparty_org : String
  pub allowed_scopes : List String
  pub allowed_data_classes : List String
  pub contract_ref : Option String
  pub counterparty_pubkey_pem : Option String
  pub is_active : Bool

-- A row: `org_key` is NULL in a database from before that column.
pub record Row : Type 0 where
  pub contract : FederationContract
  pub org_key : Option String

-- Whether the partial unique index stands.
pub record ContractStore : Type 0 where
  pub rows : Dict Row
  pub indexed : Bool

abbrev pub same_key : Option String → String → Bool
same_key none key = false
same_key (some k) key = str_eq k key

abbrev pub insert_id :
    String × FederationContract
    → List (String × FederationContract)
    → List (String × FederationContract)
insert_id x [] = x ∷ []
insert_id x (y ∷ ys) = if leb_text x.0 y.0 then x ∷ y ∷ ys else y ∷ insert_id x ys

module _ (normalize_org : String → String) where
  -- The row is active and its org is the one of the key.
  abbrev pub is_hit : String → Row → Bool
  is_hit key r = r.contract.is_active && str_eq (normalize_org r.contract.counterparty_org) key

  -- Is there an active row of the org under another id?
  unfoldable pub has_other : String → String → Dict Row → Bool
  has_other key id [] = false
  has_other key id ((j, r) ∷ rows) = (not (str_eq j id) && is_hit key r) || has_other key id rows

  -- The rows that break the index: active, with the same `org_key`.
  unfoldable pub breaks_index : String → String → Dict Row → Bool
  breaks_index key id [] = false
  breaks_index key id ((j, r) ∷ rows) =
      (not (str_eq j id) && (r.contract.is_active && same_key r.org_key key))
      || breaks_index key id rows

  -- `save`; `none` is ContractConflict.
  unfoldable pub save :
      FederationContract → ContractStore → Option FederationContract × ContractStore
  unfolding has_other breaks_index insert
  save c s =
      let key = normalize_org c.counterparty_org in
      if c.is_active && has_other key c.contract_id s.rows
      then (none, s)
      else (if s.indexed && (c.is_active && breaks_index key c.contract_id s.rows)
          then (none, s)
          else (
            some c,
            record s {
              rows = insert c.contract_id (record { contract = c; org_key = some key }) s.rows;
            },
          ))

  abbrev pub or_key : Option String → String → String
  or_key none org = normalize_org org
  or_key (some k) org = k

  -- `_migrate_org_key` fills the column.
  unfoldable pub fill_keys : Dict Row → Dict Row
  fill_keys [] = []
  fill_keys ((id, r) ∷ rows) =
      (id, record r { org_key = some (or_key r.org_key r.contract.counterparty_org) })
      ∷ fill_keys rows

  -- Two active rows with one `org_key`.
  unfoldable pub has_dupes : Dict Row → Bool
  unfolding breaks_index
  has_dupes [] = false
  has_dupes ((id, r) ∷ rows) =
      (r.contract.is_active && breaks_index (or_key r.org_key r.contract.counterparty_org) id rows)
      || has_dupes rows

  -- `_migrate_org_key`: an index that a run before has created stays.
  unfoldable pub open_store : ContractStore → ContractStore
  unfolding fill_keys has_dupes
  open_store s =
      let rows = fill_keys s.rows in
      record { rows = rows; indexed = s.indexed || not (has_dupes rows) }

  -- The active contracts of the org, by their ids.
  unfoldable pub hits : String → Dict Row → List (String × FederationContract)
  hits key [] = []
  hits key ((id, r) ∷ rows) =
      let rest = hits key rows in if is_hit key r then insert_id (id, r.contract) rest else rest

abbrev pub withheld_key : String
withheld_key =
    "<withheld: this stored contract key held private-key material; re-register the counterparty's public key only>"

module _ (contains : String → String → Bool) where
  abbrev pub served_key : Option String → Option String
  served_key none = none
  served_key (some pem) = if contains pem "PRIVATE KEY" then some withheld_key else some pem

  -- `_contract_from_row`
  abbrev pub served : FederationContract → FederationContract
  served c = record c { counterparty_pubkey_pem = served_key c.counterparty_pubkey_pem }

  abbrev pub first_hit : List (String × FederationContract) → Option FederationContract
  first_hit [] = none
  first_hit ((id, c) ∷ rest) = some (served c)

  -- `for_org`
  unfoldable pub for_org : (String → String) → String → ContractStore → Option FederationContract
  unfolding hits
  for_org normalize_org org s =
      let key = normalize_org org in
      if str_eq key "" then none else first_hit (hits normalize_org key s.rows)

  unfoldable pub list_from : Dict Row → List (String × FederationContract)
  list_from [] = []
  list_from ((id, r) ∷ rows) = insert_id (id, served r.contract) (list_from rows)

-- `put_contract`, behind its guard; a ContractConflict is a 409.
pub data PutAnswer : Type 0 where
  saved_200 : FederationContract → PutAnswer
  mismatch_422 conflict_409 : PutAnswer

abbrev pub put_answer : Option FederationContract × ContractStore → PutAnswer × ContractStore
put_answer (none, s) = (conflict_409, s)
put_answer (some c, s) = (saved_200 c, s)

unfoldable pub put_contract :
    (String → String) → String → FederationContract → ContractStore → PutAnswer × ContractStore
unfolding save
put_contract normalize_org path_id c s =
    if not (str_eq c.contract_id path_id)
    then (mismatch_422, s)
    else put_answer (save normalize_org c s)
