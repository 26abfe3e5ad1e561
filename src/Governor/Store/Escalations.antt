-- ===== src/Governor/Store/Escalations.antt =====
-- At most one escalation is open for an agent and a kind, and the first resolver wins.
use field_platform.Prelude.{
  ℕ, ◌+◌, ◌≤◌, String, Bool, true, false, ◌&&◌, not, Option, none, some, List, [], ◌∷◌, ◌++◌, ◌≡◌,
  refl, inl, inr, arith, str_eq, str_eq_iff, if◌then◌else◌, Bool-cases, Option-cases, ap, subst,
}
use field_platform.Governor.Cap.{Kind, cents, tokens, actions, usage}
use field_platform.Governor.Store.{
  GovernorStore, Escalation, same_kind, is_open_for, first_open, add_escalation_if_none_open,
  find_escalation, mark_resolved, resolve_escalation_once, was_open,
}

-- How many escalations are open for an agent and a kind.
abbrev pub open_count : String → Kind → List Escalation → ℕ
open_count agent kind [] = 0
open_count agent kind (e ∷ es) =
    (if is_open_for agent kind e then 1 else 0) + open_count agent kind es

-- The invariant that the database states by a unique index.
abbrev pub IsOneOpen : List Escalation → Type 0
IsOneOpen es = (agent : String) (kind : Kind) → open_count agent kind es ≤ 1

same_kind-eq : (k l : Kind) → same_kind k l ≡ true → k ≡ l
unfolding same_kind
same_kind-eq cents l h = ground arith
same_kind-eq tokens l h = ground arith
same_kind-eq actions l h = ground arith
same_kind-eq (usage k) (usage l) h = ap usage ((str_eq_iff k l).0 h)
same_kind-eq (usage k) l h = ground arith

first_open-none :
    (agent : String) (kind : Kind) (es : List Escalation)
    → first_open agent kind es ≡ none
    → open_count agent kind es ≡ 0
unfolding first_open
first_open-none agent kind [] h = refl
first_open-none agent kind (e ∷ es) h = ground (arith, first_open-none agent kind es)

open_count-last :
    (agent : String) (kind : Kind) (es : List Escalation) (e : Escalation)
    → open_count agent kind (es ++ e ∷ [])
      ≡ open_count agent kind es + (if is_open_for agent kind e then 1 else 0)
open_count-last agent kind [] e = omega arith
open_count-last agent kind (f ∷ es) e = omega (arith, open_count-last agent kind es e)

open_for_own :
    (agent : String) (kind : Kind) (e : Escalation)
    → is_open_for agent kind e ≡ true
    → (e.agent_id ≡ agent) × (e.kind ≡ kind)
unfolding is_open_for
open_for_own agent kind e h =
    ground (arith, h, str_eq_iff e.agent_id agent, same_kind-eq e.kind kind)

-- Opening an escalation keeps at most one open for each agent and kind, whatever races before it.
pub add_escalation-IsOneOpen :
    (esc : Escalation) (s : GovernorStore)
    → IsOneOpen s.escalations
    → IsOneOpen (add_escalation_if_none_open esc s).1.escalations
unfolding add_escalation_if_none_open
add_escalation-IsOneOpen esc s one agent kind = elim (Bool-cases esc.resolved) [
  | inl closed ↦ ground (arith, one agent kind)
  | inr live ↦ elim (Option-cases (first_open esc.agent_id esc.kind s.escalations)) [
    | inr (row, taken) ↦ ground (arith, one agent kind)
    | inl free ↦
        let zero = first_open-none esc.agent_id esc.kind s.escalations free in
        elim (Bool-cases (is_open_for agent kind esc)) [
          | inr apart ↦ ground (arith, open_count-last agent kind s.escalations esc, one agent kind)
          | inl own ↦
              let (same_agent, same_kinds) = open_for_own agent kind esc own in
              let none_open : open_count agent kind s.escalations ≡ 0 =
                subst (λ k. open_count agent k s.escalations ≡ 0) same_kinds
                  (subst (λ a. open_count a esc.kind s.escalations ≡ 0) same_agent zero) in
              ground (arith, open_count-last agent kind s.escalations esc, none_open)
        ]
  ]
]

open_count-mark_resolved :
    (id by agent : String) (kind : Kind) (es : List Escalation)
    → open_count agent kind (mark_resolved id by es) ≤ open_count agent kind es
unfolding mark_resolved is_open_for
open_count-mark_resolved id by agent kind [] = omega arith
open_count-mark_resolved id by agent kind (e ∷ es) =
    ground (arith, open_count-mark_resolved id by agent kind es)

-- Resolving keeps at most one open for each agent and kind.
pub resolve_escalation-IsOneOpen :
    (id by : String) (s : GovernorStore)
    → IsOneOpen s.escalations
    → IsOneOpen (resolve_escalation_once id by s).1.escalations
unfolding resolve_escalation_once
resolve_escalation-IsOneOpen id by s one agent kind =
    omega (arith, open_count-mark_resolved id by agent kind s.escalations, one agent kind)

-- No row under the id is open.
abbrev pub AllResolved : String → List Escalation → Type 0
AllResolved id [] = Unit
AllResolved id (e ∷ es) =
    ((str_eq e.escalation_id id && not e.resolved) ≡ false) × AllResolved id es

mark_resolved-AllResolved :
    (id by : String) (es : List Escalation) → AllResolved id (mark_resolved id by es)
unfolding mark_resolved
mark_resolved-AllResolved id by [] = tt
mark_resolved-AllResolved id by (e ∷ es) = (ground arith, mark_resolved-AllResolved id by es)

mark_resolved_again :
    (id by : String) (es : List Escalation) → AllResolved id es → mark_resolved id by es ≡ es
unfolding mark_resolved
mark_resolved_again id by [] h = refl
mark_resolved_again id by (e ∷ es) h = rw (h.0, mark_resolved_again id by es h.1)

find-AllResolved :
    (id : String) (es : List Escalation)
    → AllResolved id es
    → was_open (find_escalation id es) ≡ false
unfolding find_escalation
find-AllResolved id [] h = refl
find-AllResolved id (e ∷ es) h = ground (arith, find-AllResolved id es)

-- What marking does to the row under the id.
abbrev marked : String → Option Escalation → Option Escalation
marked by none = none
marked by (some e) =
    some (if not e.resolved then record e { resolved = true; resolved_by = some by } else e)

find-mark_resolved :
    (id by : String) (es : List Escalation)
    → find_escalation id (mark_resolved id by es) ≡ marked by (find_escalation id es)
unfolding find_escalation mark_resolved
find-mark_resolved id by [] = refl
find-mark_resolved id by (e ∷ es) = elim (Bool-cases (str_eq e.escalation_id id)) [
  | inl own ↦ elim (Bool-cases e.resolved) [
    | inl closed ↦ rw (own, closed) (ground arith)
    | inr live ↦ rw (own, live) (ground arith)
  ]
  | inr other ↦ rw (other) (ground (arith, find-mark_resolved id by es))
]

-- The call that resolves an escalation returns it with its human of record, and every later call,
-- by whomever, returns that same row, reports that it resolved nothing, and changes no row.
pub resolve_escalation-first :
    (id first later : String) (s : GovernorStore) (e : Escalation)
    → (resolve_escalation_once id first s).0 ≡ some (e, true)
    → let s' = (resolve_escalation_once id first s).1 in
      (e.resolved ≡ true)
      × (e.resolved_by ≡ some first)
      × (resolve_escalation_once id later s' ≡ (some (e, false), s'))
unfolding resolve_escalation_once
resolve_escalation-first id first later s e h =
    let rows = mark_resolved id first s.escalations in
    let closed = mark_resolved-AllResolved id first s.escalations in
    let again = mark_resolved_again id later rows closed in
    let stale = find-AllResolved id rows closed in
    let entry = find-mark_resolved id first s.escalations in
    elim (Option-cases (find_escalation id s.escalations)) [
      | inl missing ↦ absurd (ground (arith, h, entry, missing))
      | inr (old, there) ↦
          let found : find_escalation id rows ≡ some e = ground (arith, h) in
          (
            ground (arith, h, entry, there),
            ground (arith, h, entry, there),
            ground (arith, again, stale, found),
          )
    ]

-- Behind any call that finds the escalation, every later call returns the same row, reports that it
-- resolved nothing, and changes no row.
pub resolve_escalation_again :
    (id first later : String) (s : GovernorStore) (e : Escalation) (now : Bool)
    → (resolve_escalation_once id first s).0 ≡ some (e, now)
    → let s' = (resolve_escalation_once id first s).1 in
      resolve_escalation_once id later s' ≡ (some (e, false), s')
unfolding resolve_escalation_once
resolve_escalation_again id first later s e now h =
    let rows = mark_resolved id first s.escalations in
    let closed = mark_resolved-AllResolved id first s.escalations in
    let again = mark_resolved_again id later rows closed in
    let stale = find-AllResolved id rows closed in
    elim (Option-cases (find_escalation id rows)) [
      | inl missing ↦ absurd (ground (arith, h))
      | inr (row, there) ↦
          let found : find_escalation id rows ≡ some e = ground (arith, h) in
          ground (arith, again, stale, found)
    ]
