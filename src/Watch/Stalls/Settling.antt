-- ===== src/Watch/Stalls/Settling.antt =====
-- What a run of the stall family writes settles it: nothing is due again at that instant.
use sysadmin_assistant.Shared.{
  ℕ, suc, String, ◌≡◌, refl, ap, ◌∙◌, sym, ◌⊎◌, inl, inr, Bool, false, Option, none, some, List, [],
  ◌∷◌, arith, any, All, str_eq, str_eq_iff, Bool-cases, if_cases, Option-cases,
}
use sysadmin_assistant.Shared.Dict.{Dict, lookup, insert, lookup-insert}
use sysadmin_assistant.Shared.Sort.{sort_by, any-sort_by, All-sort_by}
use sysadmin_assistant.Escalation.{
  Step, hold, step_for, loudness, severity_for, Datetime, hours_since,
}
use sysadmin_assistant.Watch.Entry.{Entry, OpenRow, no_name, name_of}
use sysadmin_assistant.Watch.Stalls.{
  StallAlert, stall_ladder, elapsed_of, due, alerts_of, less, evaluate,
}

-- The open rows when the run has written its alerts: for each one a fresh row in place of the
-- fault's quiet row, if it had one (`_check_agent_liveness` of sysadmin/monitor/agent.py).
unfoldable pub rows_after : ℕ → Datetime → List StallAlert → Dict OpenRow → Dict OpenRow
rows_after alert_id at [] rows = rows
rows_after alert_id at (a ∷ alerts) rows = rows_after (suc alert_id) at alerts (
    insert a.agent_name (record { alert_id = alert_id; severity = a.severity; created_at = at })
      rows)

abbrev pub named : String → StallAlert → Bool
named name a = str_eq a.agent_name name

loudness-warning : loudness "warning" ≡ 1
unfolding loudness lookup str_eq
loudness-warning = refl

loudness-critical : loudness "critical" ≡ 2
unfolding loudness lookup str_eq
loudness-critical = refl

module _ (gap : ℕ) (at : Datetime) where
  -- The severity leaves nothing to say about a row that was written at `at`.
  abbrev Settles : String → Type 0
  Settles s = step_for_now s ≡ hold
    where
      step_for_now : String → Step
      step_for_now s = elim (severity_for stall_ladder 0 0 gap) [
        | none ↦ hold
        | some wanted ↦ step_for wanted (some s)
      ]

  due_settled :
      (e : Entry) (name : String) (row : OpenRow)
      → row.created_at ≡ at
      → Settles row.severity
      → due gap at e name (some row) ≡ none
  unfolding due severity_for hours_since step_for
  due_settled e name row now s = ground arith

  severity_for-Settles :
      (elapsed : ℕ) (s : String) → severity_for stall_ladder elapsed 0 gap ≡ some s → Settles s
  unfolding severity_for step_for
  severity_for-Settles elapsed s e = ground (arith, loudness-warning, loudness-critical)

  pub due-severity :
      (e : Entry) (name : String) (existing : Option OpenRow) (a : StallAlert)
      → due gap at e name existing ≡ some a
      → (severity_for stall_ladder (elapsed_of existing at) 0 gap ≡ some a.severity)
        × (a.agent_name ≡ name)
  unfolding due
  due-severity e name existing a d = ground arith

  alerts_of-Settles :
      (rows : Dict OpenRow) (entries : List Entry)
      → All (λ a. Settles a.severity) (alerts_of gap at rows entries)
  unfolding alerts_of
  alerts_of-Settles rows [] = tt
  alerts_of-Settles rows (e ∷ entries) =
      let name = name_of e.name in
      if_cases (All (λ a. Settles a.severity)) (no_name e.name) (alerts_of-Settles rows entries)
        (elim (Option-cases (due gap at e name (lookup name rows))) [
          | inl silent ↦ rw silent (alerts_of-Settles rows entries)
          | inr (a, said) ↦ rw said (
            severity_for-Settles (elapsed_of (lookup name rows) at) a.severity
                (due-severity e name (lookup name rows) a said).0,
            alerts_of-Settles rows entries,
          )
        ])

  -- A row after the run is the one before it, or a settled row of this run.
  abbrev Written : String → Bool → Option OpenRow → Option OpenRow → Type 0
  Written name hit old new =
      ((hit ≡ false) × (new ≡ old))
      ⊎ ((row : OpenRow) × (new ≡ some row) × (row.created_at ≡ at) × Settles row.severity)

  rows_after-Written :
      (name : String) (alerts : List StallAlert) (id : ℕ) (rows : Dict OpenRow)
      → All (λ a. Settles a.severity) alerts
      → Written name
          (any (named name) alerts)
          (lookup name rows)
          (lookup name (rows_after id at alerts rows))
  unfolding rows_after
  rows_after-Written name [] id rows h = inl (refl, refl)
  rows_after-Written name (a ∷ alerts) id rows h =
      let row : OpenRow = record { alert_id = id; severity = a.severity; created_at = at } in
      let put = lookup-insert a.agent_name name row rows in
      elim (rows_after-Written name alerts (suc id) (insert a.agent_name row rows) h.1) [
        | inr settled ↦ inr settled
        | inl (miss, same) ↦ elim (Bool-cases (named name a)) [
          | inl hit ↦ inr (row, same ∙ put ∙ rw hit, refl, h.0)
          | inr other ↦ inl (rw other miss, same ∙ put ∙ rw other)
        ]
      ]

  -- An entry that was due has its alert among those of the run.
  not_due :
      (e : Entry) (name : String) (hit : Bool) (old new : Option OpenRow)
      → Written name hit old new
      → (hit ≡ false → due gap at e name old ≡ none)
      → due gap at e name new ≡ none
  not_due e name hit old new (inl (miss, same)) silent = rw same (silent miss)
  not_due e name hit old new (inr (row, same, now, settled)) silent =
      rw same (due_settled e name row now settled)

  pub unnamed_head :
      (rows : Dict OpenRow) (e : Entry) (entries : List Entry)
      → no_name e.name ≡ false
      → any (named (name_of e.name)) (alerts_of gap at rows (e ∷ entries)) ≡ false
      → due gap at e (name_of e.name) (lookup (name_of e.name) rows) ≡ none
  unfolding alerts_of
  unnamed_head rows e entries named_so h =
      let name = name_of e.name in
      elim (Option-cases (due gap at e name (lookup name rows))) [
        | inl silent ↦ silent
        | inr (a, said) ↦
            ground
              (arith, due-severity e name (lookup name rows) a said, str_eq_iff a.agent_name name)
      ]

  pub unnamed_tail :
      (rows : Dict OpenRow) (e : Entry) (entries : List Entry) (name : String)
      → any (named name) (alerts_of gap at rows (e ∷ entries)) ≡ false
      → any (named name) (alerts_of gap at rows entries) ≡ false
  unfolding alerts_of
  unnamed_tail rows e entries name h = ground arith

  none_due :
      (rows after : Dict OpenRow) (hit : String → Bool)
      → ((name : String) → Written name (hit name) (lookup name rows) (lookup name after))
      → (entries : List Entry)
      → ((name : String)
          → hit name ≡ false
          → any (named name) (alerts_of gap at rows entries) ≡ false)
      → alerts_of gap at after entries ≡ []
  unfolding alerts_of
  none_due rows after hit written [] sub = refl
  none_due rows after hit written (e ∷ entries) sub =
      let name = name_of e.name in
      let rest =
        none_due rows after hit written entries
          λ n miss. unnamed_tail rows e entries n (sub n miss) in
      elim (Bool-cases (no_name e.name)) [
        | inl nameless ↦ rw nameless rest
        | inr proper ↦
            rw
              (
                proper,
                not_due e name (hit name) (lookup name rows) (lookup name after) (written name)
                    λ miss. unnamed_head rows e entries proper (sub name miss),
              )
              rest
      ]

  -- Once the alerts of a run are written, each in place of the row that it found, the same entries
  -- yield no alert at that instant: every fault has a row at the rung that it is on, or louder.
  pub evaluate_settles :
      (entries : List Entry) (rows : Dict OpenRow) (id : ℕ)
      → evaluate entries (rows_after id at (evaluate entries rows gap at) rows) gap at ≡ []
  unfolding evaluate sort_by
  evaluate_settles entries rows id =
      let alerts = alerts_of gap at rows entries in
      let sorted = sort_by less alerts in
      ap (sort_by less) (
        none_due rows (rows_after id at sorted rows) (λ name. any (named name) sorted)
          (λ name.
            rows_after-Written name sorted id rows
              (All-sort_by less (λ a. Settles a.severity) alerts (alerts_of-Settles rows entries)))
          entries (λ name miss. sym (any-sort_by less (named name) alerts) ∙ miss))
