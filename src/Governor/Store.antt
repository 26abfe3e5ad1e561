-- ===== src/Governor/Store.antt =====
-- `GovernorStore` of core.py: the tables and the statements over them. The store's lock makes every
-- method one step. An identifier that the source draws at random is an argument.
pub mod Escalations
pub mod Sums
use Prim.Native.Nat.{Ordering}
use Prim.Native.String.{compare as compare_text}
use field_platform.Prelude.{
  ℕ, ◌+◌, ◌*◌, ◌/◌, ◌%◌, ◌^◌, min, String, Bool, true, false, ◌&&◌, not, Option, none, some, List,
  [], ◌∷◌, ◌++◌, leb, ltb, ◌==◌, str_eq, if◌then◌else◌,
}
use field_platform.Prelude.Dict.{Dict, lookup, insert}
use field_platform.Governor.Cap.{Kind, cents, tokens, actions, usage, SpendCapConfig}
use field_platform.Governor.Actions.{Group}

abbrev pub max_amount : ℕ
max_amount = 10 ^ 12

pub record SpendEvent : Type 0 where
  pub event_id : String
  pub agent_id : String
  pub ts : ℕ
  pub cents : ℕ
  pub tokens : ℕ
  pub actions : ℕ
  pub note : Option String
  pub action : Option String
  pub source : String

pub record Escalation : Type 0 where
  pub escalation_id : String
  pub agent_id : String
  pub ts : ℕ
  pub kind : Kind
  pub spent : ℕ
  pub limit : ℕ
  pub pct : ℕ
  pub resolved : Bool
  pub resolved_by : Option String

pub record GovernorStore : Type 0 where
  pub caps : Dict SpendCapConfig
  pub spend : List SpendEvent
  pub escalations : List Escalation

-- INSERT OR REPLACE INTO caps
unfoldable pub set_cap : SpendCapConfig → GovernorStore → GovernorStore
set_cap cap s = record s { caps = insert cap.agent_id cap s.caps }

abbrev pub clamp : Option ℕ → Option ℕ
clamp none = none
clamp (some v) = some (if ltb max_amount v then max_amount else v)

-- A row from before the bound is served clamped to it.
unfoldable pub get_cap : String → GovernorStore → Option SpendCapConfig
get_cap agent s = elim (lookup agent s.caps) [
  | none ↦ none
  | some row ↦ some (record row {
    limit_cents = clamp row.limit_cents;
    token_limit = clamp row.token_limit;
    action_limit = clamp row.action_limit;
  })
]

abbrev pub over_bound : Option ℕ → Bool
over_bound none = false
over_bound (some v) = ltb max_amount v

unfoldable pub record_spend : SpendEvent → GovernorStore → GovernorStore
record_spend e s = record s { spend = s.spend ++ e ∷ [] }

-- `WHERE agent_id=? AND ts>=?`
unfoldable pub events_since : String → ℕ → List SpendEvent → List SpendEvent
events_since agent since [] = []
events_since agent since (e ∷ es) =
    let rest = events_since agent since es in
    if str_eq e.agent_id agent && leb since e.ts then e ∷ rest else rest

-- `_split_sum` and `_join_sum`: the high and the low 32 bits are summed apart and recombined.
unfoldable pub high_sum : (SpendEvent → ℕ) → List SpendEvent → ℕ
high_sum col [] = 0
high_sum col (e ∷ es) = col e / 2 ^ 32 + high_sum col es

unfoldable pub low_sum : (SpendEvent → ℕ) → List SpendEvent → ℕ
low_sum col [] = 0
low_sum col (e ∷ es) = col e % 2 ^ 32 + low_sum col es

unfoldable pub join_sum : (SpendEvent → ℕ) → List SpendEvent → ℕ
unfolding high_sum low_sum
join_sum col es = high_sum col es * 2 ^ 32 + low_sum col es

unfoldable pub totals_since : String → ℕ → GovernorStore → ℕ × ℕ × ℕ
unfolding events_since join_sum
totals_since agent since s =
    let es = events_since agent since s.spend in
    (join_sum (λ e. e.cents) es, join_sum (λ e. e.tokens) es, join_sum (λ e. e.actions) es)

-- The rows behind `action_counts_since`; the source sums each (action, source) group first.
unfoldable pub action_groups : List SpendEvent → List Group
action_groups [] = []
action_groups (e ∷ es) = (e.action, e.source, e.actions) ∷ action_groups es

-- `kind=?`
unfoldable pub same_kind : Kind → Kind → Bool
same_kind cents cents = true
same_kind tokens tokens = true
same_kind actions actions = true
same_kind (usage k) (usage l) = str_eq k l
same_kind _ _ = false

-- `WHERE agent_id=? AND kind=? AND resolved=0`
unfoldable pub is_open_for : String → Kind → Escalation → Bool
is_open_for agent kind e = str_eq e.agent_id agent && same_kind e.kind kind && not e.resolved

-- `ORDER BY ts, escalation_id`
abbrev pub is_before : Escalation → Escalation → Bool
is_before a b =
    if ltb a.ts b.ts
    then true
    else (if ltb b.ts a.ts
        then false
        else elim (compare_text a.escalation_id b.escalation_id) [ Ordering.gt ↦ false | _ ↦ true ])

abbrev pub earlier : Escalation → Option Escalation → Escalation
earlier e none = e
earlier e (some f) = if is_before e f then e else f

-- `… LIMIT 1`
unfoldable pub first_open : String → Kind → List Escalation → Option Escalation
unfolding is_open_for
first_open agent kind [] = none
first_open agent kind (e ∷ es) =
    let rest = first_open agent kind es in
    if is_open_for agent kind e then some (earlier e rest) else rest

unfoldable pub has_open_escalation : String → Kind → GovernorStore → Bool
has_open_escalation agent kind s = elim (first_open agent kind s.escalations) [
  | none ↦ false
  | some e ↦ true
]

-- The answer `none` is the ValueError on an escalation that is resolved already.
unfoldable pub add_escalation_if_none_open :
    Escalation → GovernorStore → Option (Escalation × Bool) × GovernorStore
add_escalation_if_none_open esc s =
    if esc.resolved then (none, s) else elim (first_open esc.agent_id esc.kind s.escalations) [
      | some row ↦ (some (row, false), s)
      | none ↦ (some (esc, true), record s { escalations = s.escalations ++ esc ∷ [] })
    ]

abbrev pub for_agent : Option String → Escalation → Bool
for_agent none e = true
for_agent (some agent) e = str_eq e.agent_id agent

-- Unresolved rows, of one agent or of all, in the order of the table; the source sorts them by `ts`.
unfoldable pub open_escalations : Option String → List Escalation → List Escalation
open_escalations agent [] = []
open_escalations agent (e ∷ es) =
    let rest = open_escalations agent es in
    if not e.resolved && for_agent agent e then e ∷ rest else rest

-- The row of an escalation, and whether it is open.
unfoldable pub find_escalation : String → List Escalation → Option Escalation
find_escalation id [] = none
find_escalation id (e ∷ es) = if str_eq e.escalation_id id then some e else find_escalation id es

-- `UPDATE escalations SET resolved=1, resolved_by=? WHERE escalation_id=? AND resolved=0`
unfoldable pub mark_resolved : String → String → List Escalation → List Escalation
mark_resolved id by [] = []
mark_resolved id by (e ∷ es) =
    (if str_eq e.escalation_id id && not e.resolved
      then record e { resolved = true; resolved_by = some by }
      else e)
    ∷ mark_resolved id by es

abbrev pub was_open : Option Escalation → Bool
was_open none = false
was_open (some e) = not e.resolved

-- The stored row and whether this call resolved it; `none` is the KeyError. The id is a primary key.
unfoldable pub resolve_escalation_once :
    String → String → GovernorStore → Option (Escalation × Bool) × GovernorStore
resolve_escalation_once id by s =
    let rows = mark_resolved id by s.escalations in
    (
      elim (find_escalation id rows) [
        | none ↦ none
        | some e ↦ some (e, was_open (find_escalation id s.escalations))
      ],
      record s { escalations = rows },
    )
