-- ===== src/Watch/Liveness/Presence.antt =====
-- Which agents have an open stall row once a run is over.
use sysadmin_assistant.Shared.{
  ℕ, suc, String, ◌≡◌, refl, ◌∙◌, sym, subst, inl, inr, Bool, true, false, ◌||◌, ◌&&◌, not, Option,
  none, some, List, [], ◌∷◌, arith, any, All, is_some, str_eq, str_eq_iff, Bool-cases, if_cases,
  Option-cases,
}
use sysadmin_assistant.Shared.Dict.{Dict, lookup, insert, lookup-insert, lookup-erase}
use sysadmin_assistant.Shared.Sort.{sort_by, any-sort_by}
use sysadmin_assistant.Escalation.{step_for, severity_for, Datetime}
use sysadmin_assistant.Watch.Entry.{Entry, OpenRow, no_name, name_of}
use sysadmin_assistant.Watch.Stalls.{StallAlert, due, alerts_of, less, evaluate}
use sysadmin_assistant.Watch.Stalls.Settling.{
  rows_after, named, due-severity, unnamed_head, unnamed_tail,
}
use sysadmin_assistant.Watch.Liveness.{
  stalled_from, stalled_of, values, resolve, check_agent_liveness,
}

-- Each entry is stored under its own name.
abbrev pub IsNamed : Dict Entry → Type 0
IsNamed [] = Unit
IsNamed ((k, e) ∷ d) = (name_of e.name ≡ k) × (no_name e.name ≡ false) × IsNamed d

abbrev pub HasName : Entry → Type 0
HasName e = no_name e.name ≡ false

insert-IsNamed :
    (e : Entry) (d : Dict Entry)
    → no_name e.name ≡ false
    → IsNamed d
    → IsNamed (insert (name_of e.name) e d)
unfolding insert
insert-IsNamed e [] proper h = (refl, proper, tt)
insert-IsNamed e ((k, w) ∷ d) proper h =
    ground (arith, str_eq_iff k (name_of e.name), insert-IsNamed e d proper h.2)

pub stalled_from-IsNamed :
    (agents : List Entry) (d : Dict Entry)
    → All HasName agents
    → IsNamed d
    → IsNamed (stalled_from d agents)
unfolding stalled_from
stalled_from-IsNamed [] d proper h = h
stalled_from-IsNamed (a ∷ agents) d proper h =
    stalled_from-IsNamed agents _ proper.1
      (if_cases IsNamed a.stalled (insert-IsNamed a d proper.0 h) h)

-- Does the report have the agent as stalled?
abbrev pub is_stalled_as : String → Entry → Bool
is_stalled_as name a = a.stalled && str_eq (name_of a.name) name

stalled_from-present :
    (name : String) (agents : List Entry) (d : Dict Entry)
    → is_some (lookup name (stalled_from d agents))
      ≡ (any (is_stalled_as name) agents || is_some (lookup name d))
unfolding stalled_from
stalled_from-present name [] d = refl
stalled_from-present name (a ∷ agents) d = ground (
  arith,
  stalled_from-present name agents (insert (name_of a.name) a d),
  stalled_from-present name agents d,
  lookup-insert (name_of a.name) name a d,
)

rows_after-present :
    (name : String) (at : Datetime) (alerts : List StallAlert) (id : ℕ) (rows : Dict OpenRow)
    → is_some (lookup name (rows_after id at alerts rows))
      ≡ (any (named name) alerts || is_some (lookup name rows))
unfolding rows_after
rows_after-present name at [] id rows = refl
rows_after-present name at (a ∷ alerts) id rows =
    let row : OpenRow = record { alert_id = id; severity = a.severity; created_at = at } in
    ground (
      arith,
      rows_after-present name at alerts (suc id) (insert a.agent_name row rows),
      lookup-insert a.agent_name name row rows,
    )

pub resolve-present :
    (name : String) (open_stalls rows : Dict OpenRow) (stalled : Dict Entry)
    → is_some (lookup name (resolve open_stalls stalled rows)) ≡ (
        is_some (lookup name rows)
        && not (is_some (lookup name open_stalls) && not (is_some (lookup name stalled))))
unfolding resolve lookup
resolve-present name [] rows stalled = ground arith
resolve-present name ((k, row) ∷ open_stalls) rows stalled = ground (
  arith,
  resolve-present name open_stalls rows stalled,
  lookup-erase k name (resolve open_stalls stalled rows),
  str_eq_iff k name,
)

module _ (gap : ℕ) (at : Datetime) where
  -- On the ladder from the first, a fault without a row is always due.
  silent_has_row :
      (e : Entry) (name : String) (existing : Option OpenRow)
      → due gap at e name existing ≡ none
      → is_some existing ≡ true
  unfolding due severity_for step_for
  silent_has_row e name none d = ground (arith, d)
  silent_has_row e name (some row) d = refl

  stalled_present :
      (name : String) (rows : Dict OpenRow) (d : Dict Entry)
      → IsNamed d
      → is_some (lookup name d) ≡ true
      → any (named name) (alerts_of gap at rows (values d)) ≡ false
      → is_some (lookup name rows) ≡ true
  unfolding lookup values
  stalled_present name rows [] h here miss = cc
  stalled_present name rows ((k, e) ∷ d) h here miss = elim (Bool-cases (str_eq k name)) [
    | inl hit ↦
        let same : name_of e.name ≡ name = h.0 ∙ (str_eq_iff k name).0 hit in
        subst (λ n. is_some (lookup n rows) ≡ true) same
          (silent_has_row e (name_of e.name) (lookup (name_of e.name) rows) (
            unnamed_head gap at rows e (values d) h.1 (
              subst (λ n. any (named n) (alerts_of gap at rows (e ∷ values d)) ≡ false) (sym same)
                miss)))
    | inr other ↦
        stalled_present name rows d h.2 (ground (arith, here, other))
          (unnamed_tail gap at rows e (values d) name miss)
  ]

  absent_unnamed :
      (name : String) (rows : Dict OpenRow) (d : Dict Entry)
      → IsNamed d
      → is_some (lookup name d) ≡ false
      → any (named name) (alerts_of gap at rows (values d)) ≡ false
  unfolding lookup values alerts_of
  absent_unnamed name rows [] h absent = refl
  absent_unnamed name rows ((k, e) ∷ d) h absent =
      let n = name_of e.name in
      elim (Option-cases (due gap at e n (lookup n rows))) [
        | inl silent ↦ ground (arith, absent_unnamed name rows d h.2, h, absent, silent)
        | inr (a, said) ↦ ground (
          arith,
          absent_unnamed name rows d h.2,
          h,
          absent,
          said,
          due-severity gap at e n (lookup n rows) a said,
        )
      ]

-- Once a run is over, an agent has an unresolved stall row exactly when the report has it as
-- stalled: the stalled ones have kept theirs or got one, and the rows of all others are resolved.
-- Every agent of the report has a name.
pub check_agent_liveness-present :
    (agents : List Entry) (open_stalls : Dict OpenRow) (gap id : ℕ) (now : Datetime) (name : String)
    → All HasName agents
    → is_some (lookup name (check_agent_liveness agents open_stalls gap id now).rows)
      ≡ any (is_stalled_as name) agents
unfolding check_agent_liveness stalled_of evaluate lookup
check_agent_liveness-present agents open_stalls gap id now name proper =
    let stalled = stalled_of agents in
    let alerts = alerts_of gap now open_stalls (values stalled) in
    let is_named = stalled_from-IsNamed agents [] proper tt in
    let rows = rows_after id now (sort_by less alerts) open_stalls in
    ground (
      arith,
      resolve-present name open_stalls rows stalled,
      rows_after-present name now (sort_by less alerts) id open_stalls,
      any-sort_by less (named name) alerts,
      stalled_from-present name agents [],
      stalled_present gap now name open_stalls stalled is_named,
      absent_unnamed gap now name open_stalls stalled is_named,
    )
