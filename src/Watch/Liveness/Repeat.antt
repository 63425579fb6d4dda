-- ===== src/Watch/Liveness/Repeat.antt =====
-- A second run of the liveness check at the same instant.
use sysadmin_assistant.Shared.{
  ℕ, ◌+◌, String, ◌≡◌, refl, ap, ◌∙◌, true, Option, none, some, List, [], ◌∷◌, arith, All, is_some,
  map, str_eq_iff, if◌then◌else◌,
}
use sysadmin_assistant.Shared.Dict.{Dict, lookup, lookup-erase}
use sysadmin_assistant.Shared.Sort.{sort_by}
use sysadmin_assistant.Escalation.{Datetime}
use sysadmin_assistant.Watch.Entry.{Entry, OpenRow, no_name, name_of}
use sysadmin_assistant.Watch.Stalls.{StallAlert, due, alerts_of, less, evaluate}
use sysadmin_assistant.Watch.Stalls.Settling.{rows_after, evaluate_settles}
use sysadmin_assistant.Watch.Liveness.{
  stalled_of, values, resolve, escalations, raises, check_agent_liveness,
}
use sysadmin_assistant.Watch.Liveness.Presence.{IsNamed, HasName, stalled_from-IsNamed}

-- The row of a stalled agent is not resolved.
resolve_keeps :
    (name : String) (open_stalls rows : Dict OpenRow) (stalled : Dict Entry)
    → is_some (lookup name stalled) ≡ true
    → lookup name (resolve open_stalls stalled rows) ≡ lookup name rows
unfolding resolve
resolve_keeps name [] rows stalled here = refl
resolve_keeps name ((k, row) ∷ open_stalls) rows stalled here = ground (
  arith,
  here,
  resolve_keeps name open_stalls rows stalled here,
  lookup-erase k name (resolve open_stalls stalled rows),
  str_eq_iff k name,
)

abbrev IsIn : Dict Entry → Entry → Type 0
IsIn stalled e = is_some (lookup (name_of e.name) stalled) ≡ true

values-IsIn :
    (stalled d : Dict Entry)
    → IsNamed d
    → ((name : String) → is_some (lookup name d) ≡ true → is_some (lookup name stalled) ≡ true)
    → All (IsIn stalled) (values d)
unfolding lookup values
values-IsIn stalled [] h sub = tt
values-IsIn stalled ((k, e) ∷ d) h sub = (
  sub (name_of e.name) (ground (arith, h.0, str_eq_iff k (name_of e.name))),
  values-IsIn stalled d h.2 (λ name here. sub name (ground (arith, here))),
)

-- What an entry adds to the alerts of the others.
abbrev said : Entry → Option StallAlert → List StallAlert → List StallAlert
said e alert rest =
    if no_name e.name then rest else (elim alert [ none ↦ rest | some a ↦ a ∷ rest ])

alerts_of_same :
    (gap : ℕ) (at : Datetime) (rows rows' : Dict OpenRow) (entries : List Entry)
    → All (λ e. lookup (name_of e.name) rows ≡ lookup (name_of e.name) rows') entries
    → alerts_of gap at rows entries ≡ alerts_of gap at rows' entries
unfolding alerts_of
alerts_of_same gap at rows rows' [] h = refl
alerts_of_same gap at rows rows' (e ∷ entries) h =
    ap (λ row. said e (due gap at e (name_of e.name) row) (alerts_of gap at rows entries)) h.0
    ∙ ap (said e (due gap at e (name_of e.name) (lookup (name_of e.name) rows')))
        (alerts_of_same gap at rows rows' entries h.1)

resolved_same :
    (open_stalls rows : Dict OpenRow) (stalled : Dict Entry) (entries : List Entry)
    → All (IsIn stalled) entries
    → All
        (λ e.
          lookup (name_of e.name) (resolve open_stalls stalled rows) ≡ lookup (name_of e.name) rows)
        entries
resolved_same open_stalls rows stalled [] h = tt
resolved_same open_stalls rows stalled (e ∷ entries) h = (
  resolve_keeps (name_of e.name) open_stalls rows stalled h.0,
  resolved_same open_stalls rows stalled entries h.1,
)

-- A run that finds the report and the rows of the run before, at the same instant, writes nothing:
-- what was raised or escalated is not raised or escalated again. Every agent of the report has a name.
pub check_agent_liveness_repeats :
    (agents : List Entry) (open_stalls : Dict OpenRow) (gap id later : ℕ) (now : Datetime)
    → All HasName agents
    → let first = check_agent_liveness agents open_stalls gap id now in
      (check_agent_liveness agents first.rows gap later now).written ≡ 0
unfolding check_agent_liveness stalled_of evaluate raises escalations
check_agent_liveness_repeats agents open_stalls gap id later now proper =
    let stalled = stalled_of agents in
    let rows = rows_after id now (evaluate (values stalled) open_stalls gap now) open_stalls in
    let is_in =
      values-IsIn stalled stalled (stalled_from-IsNamed agents [] proper tt) (λ name here. here) in
    let silent : evaluate (values stalled) (resolve open_stalls stalled rows) gap now ≡ [] =
      ap (sort_by less) (
        alerts_of_same gap now (resolve open_stalls stalled rows) rows (values stalled)
          (resolved_same open_stalls rows stalled (values stalled) is_in))
      ∙ evaluate_settles gap now (values stalled) open_stalls id in
    ap (λ due. raises (map (λ item. item.step) due) + escalations (map (λ item. item.step) due))
      silent
