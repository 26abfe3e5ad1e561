-- ===== src/Delegation/Store.antt =====
-- The SQLite table of tokens and the side table of spend ceilings, store.py. The statements of one
-- method run in one transaction under the store's lock, so a method is one step.
pub mod Laws
use field_platform.Prelude.{
  ℕ, String, Bool, true, false, Option, none, some, List, [], ◌∷◌, leb, str_eq, if◌then◌else◌,
  length,
}
use field_platform.Prelude.Dict.{Dict, lookup, insert}
use field_platform.Delegation.{DelegationToken, is_active}

pub record TokenStore : Type 0 where
  pub tokens : Dict DelegationToken
  pub ceilings : Dict ℕ

abbrev pub empty : TokenStore
empty = record { tokens = []; ceilings = [] }

-- A row of `_SELECT`: the ceiling comes from the side table.
abbrev pub row_to_token : TokenStore → DelegationToken → DelegationToken
row_to_token s t = record t { max_spend_usd = lookup t.token_id s.ceilings }

-- `INSERT OR IGNORE INTO token_spend_ceilings`
unfoldable pub stamp : String → Option ℕ → Dict ℕ → Dict ℕ
stamp id none ceilings = ceilings
stamp id (some c) ceilings = elim (lookup id ceilings) [
  | some old ↦ ceilings
  | none ↦ insert id c ceilings
]

-- The stored token comes back, with the ceiling that is stamped.
unfoldable pub save : DelegationToken → TokenStore → DelegationToken × TokenStore
save t s =
    let ceilings = stamp t.token_id t.max_spend_usd s.ceilings in
    (
      record t { max_spend_usd = lookup t.token_id ceilings },
      record { tokens = insert t.token_id t s.tokens; ceilings = ceilings },
    )

-- `none` is TokenNotFoundError.
unfoldable pub get : String → TokenStore → Option DelegationToken
get id s = elim (lookup id s.tokens) [ none ↦ none | some t ↦ some (row_to_token s t) ]

-- `UPDATE tokens SET … WHERE token_id=? AND revoked=0`
unfoldable pub update_revoked : DelegationToken → Option DelegationToken → TokenStore → TokenStore
update_revoked t none s = s
update_revoked t (some old) s = if old.revoked then s else record s {
  tokens =
      insert t.token_id
        (record old { revoked = true; revocation_id = t.revocation_id; revoked_at = t.revoked_at })
        s.tokens;
}

unfoldable pub save_revoked : DelegationToken → TokenStore → Option DelegationToken × TokenStore
save_revoked t s =
    let s' = update_revoked t (lookup t.token_id s.tokens) s in (get t.token_id s', s')

unfoldable pub count : TokenStore → ℕ
count s = length s.tokens

abbrev pub insert_issued : DelegationToken → List DelegationToken → List DelegationToken
insert_issued t [] = t ∷ []
insert_issued t (u ∷ ts) =
    if leb t.issued_at u.issued_at then t ∷ u ∷ ts else u ∷ insert_issued t ts

-- The rows for an agent, or all of them, by the instant of issue.
unfoldable pub list_rows : Option String → TokenStore → Dict DelegationToken → List DelegationToken
list_rows agent s [] = []
list_rows none s ((id, t) ∷ rows) = insert_issued (row_to_token s t) (list_rows none s rows)
list_rows (some agent) s ((id, t) ∷ rows) =
    let rest = list_rows (some agent) s rows in
    if str_eq t.agent_id agent then insert_issued (row_to_token s t) rest else rest

unfoldable pub list : Option String → TokenStore → List DelegationToken
unfolding list_rows
list agent s = list_rows agent s s.tokens

unfoldable pub keep_active : ℕ → List DelegationToken → List DelegationToken
unfolding is_active
keep_active now [] = []
keep_active now (t ∷ ts) =
    let rest = keep_active now ts in if is_active t now then t ∷ rest else rest

unfoldable pub active_tokens_for : String → ℕ → TokenStore → List DelegationToken
unfolding list keep_active
active_tokens_for agent now s = keep_active now (list (some agent) s)
