-- ===== src/Watch/Health/Families.antt =====
-- Which agents have an open row of which family once a run is over.
use sysadmin_assistant.Shared.{
  ℕ, suc, ◌+◌, String, ◌≡◌, refl, ap, ◌∙◌, sym, inl, inr, Bool, true, false, ◌||◌, ◌&&◌, Option,
  none, some, List, [], ◌∷◌, arith, any, All, is_some, str_eq, str_eq_iff, Bool-cases, Option-cases,
}
use sysadmin_assistant.Shared.Dict.{Dict, lookup, insert, lookup-insert}
use sysadmin_assistant.Shared.Sort.{sort_by, any-sort_by}
use sysadmin_assistant.Escalation.{step_for, severity_for, Datetime}
use sysadmin_assistant.Watch.Entry.{Entry, OpenRow, name_of}
use sysadmin_assistant.Watch.Failures.{FailureAlert, is_failing, due, alerts_of, less, evaluate}
use sysadmin_assistant.Watch.Liveness.{check_agent_liveness}
use sysadmin_assistant.Watch.Liveness.Presence.{
  HasName, is_stalled_as, resolve-present, check_agent_liveness-present,
}
use sysadmin_assistant.Watch.Health.{
  failing_from, failure_rows, check_agent_failures, check_agent_health,
}

abbrev named : String → FailureAlert → Bool
named name a = str_eq a.agent_name name

-- Does the report have the agent as failing?
abbrev pub is_failing_as : ℕ → String → Entry → Bool
is_failing_as threshold name a = is_failing a threshold && str_eq (name_of a.name) name

failing_from-present :
    (threshold : ℕ) (name : String) (agents : List Entry) (d : Dict Entry)
    → is_some (lookup name (failing_from threshold d agents))
      ≡ (any (is_failing_as threshold name) agents || is_some (lookup name d))
unfolding failing_from
failing_from-present threshold name [] d = refl
failing_from-present threshold name (a ∷ agents) d = ground (
  arith,
  failing_from-present threshold name agents (insert (name_of a.name) a d),
  failing_from-present threshold name agents d,
  lookup-insert (name_of a.name) name a d,
)

failure_rows-present :
    (name : String) (at : Datetime) (alerts : List FailureAlert) (id : ℕ) (rows : Dict OpenRow)
    → is_some (lookup name (failure_rows id at alerts rows))
      ≡ (any (named name) alerts || is_some (lookup name rows))
unfolding failure_rows
failure_rows-present name at [] id rows = refl
failure_rows-present name at (a ∷ alerts) id rows =
    let row : OpenRow = record { alert_id = id; severity = a.severity; created_at = at } in
    ground (
      arith,
      failure_rows-present name at alerts (suc id) (insert a.agent_name row rows),
      lookup-insert a.agent_name name row rows,
    )

module _ (truncate_at_word : String → ℕ → String) (threshold gap : ℕ) (at : Datetime) where
  -- On the ladder from the first, a fault without a row is always due.
  silent_has_row :
      (e : Entry) (name : String) (existing : Option OpenRow)
      → due truncate_at_word threshold gap at e name existing ≡ none
      → is_some existing ≡ true
  unfolding due severity_for step_for
  silent_has_row e name none d = ground (arith, d)
  silent_has_row e name (some row) d = refl

  due-name :
      (e : Entry) (name : String) (existing : Option OpenRow) (a : FailureAlert)
      → due truncate_at_word threshold gap at e name existing ≡ some a
      → a.agent_name ≡ name
  unfolding due
  due-name e name existing a d = ground arith

  -- A named agent is among the alerts and the rows together exactly when it fails or has a row.
  alerts_of-present :
      (name : String) (rows : Dict OpenRow) (entries : List Entry)
      → All HasName entries
      → (any (named name) (alerts_of truncate_at_word threshold gap at rows entries)
          || is_some (lookup name rows))
        ≡ (any (is_failing_as threshold name) entries || is_some (lookup name rows))
  unfolding alerts_of
  alerts_of-present name rows [] h = refl
  alerts_of-present name rows (e ∷ entries) h =
      let n = name_of e.name in
      elim (Option-cases (due truncate_at_word threshold gap at e n (lookup n rows))) [
        | inl silent ↦ elim (Bool-cases (str_eq n name)) [
          | inl hit ↦
              let kept : is_some (lookup name rows) ≡ true =
                ap (λ k. is_some (lookup k rows)) (sym ((str_eq_iff n name).0 hit))
                ∙ silent_has_row e n (lookup n rows) silent in
              ground (arith, kept)
          | inr other ↦ ground (arith, alerts_of-present name rows entries h.1, h.0, silent, other)
        ]
        | inr (a, said) ↦
            rw (h.0, said)
              (ground (
                arith,
                alerts_of-present name rows entries h.1,
                ap (λ k. str_eq k name) (due-name e n (lookup n rows) a said),
              ))
      ]

  -- The alerts of a run are of failing agents only.
  alerts_of-failing :
      (name : String) (rows : Dict OpenRow) (entries : List Entry)
      → any (is_failing_as threshold name) entries ≡ false
      → any (named name) (alerts_of truncate_at_word threshold gap at rows entries) ≡ false
  unfolding alerts_of
  alerts_of-failing name rows [] h = refl
  alerts_of-failing name rows (e ∷ entries) h =
      let n = name_of e.name in
      elim (Option-cases (due truncate_at_word threshold gap at e n (lookup n rows))) [
        | inl silent ↦ ground (arith, alerts_of-failing name rows entries, h, silent)
        | inr (a, said) ↦ ground (
          arith,
          alerts_of-failing name rows entries,
          h,
          said,
          ap (λ k. str_eq k name) (due-name e n (lookup n rows) a said),
        )
      ]

  -- Once a run is over, an agent has an unresolved failure row exactly when the report has it as
  -- failing: enabled, not stalled, and with its streak at the threshold. Every agent of the report
  -- has a name.
  check_agent_failures-present :
      (agents : List Entry) (open_failures : Dict OpenRow) (id : ℕ) (name : String)
      → All HasName agents
      → is_some (
          lookup name
            (check_agent_failures truncate_at_word agents open_failures threshold gap id at).rows)
        ≡ any (is_failing_as threshold name) agents
  unfolding check_agent_failures evaluate lookup
  check_agent_failures-present agents open_failures id name proper =
      let order = less truncate_at_word in
      let alerts = alerts_of truncate_at_word threshold gap at open_failures agents in
      let rows = failure_rows id at (sort_by order alerts) open_failures in
      ground (
        arith,
        resolve-present name open_failures rows (failing_from threshold [] agents),
        failure_rows-present name at (sort_by order alerts) id open_failures,
        any-sort_by order (named name) alerts,
        failing_from-present threshold name agents [],
        alerts_of-present name open_failures agents proper,
        alerts_of-failing name open_failures agents,
      )

-- Is each agent in the report once?
abbrev pub IsDistinct : List Entry → Type 0
IsDistinct [] = Unit
IsDistinct (a ∷ agents) =
    (any (λ b. str_eq (name_of b.name) (name_of a.name)) agents ≡ false) × IsDistinct agents

missing-as :
    (p : Entry → Bool) (name : String) (agents : List Entry)
    → any (λ b. str_eq (name_of b.name) name) agents ≡ false
    → any (λ b. p b && str_eq (name_of b.name) name) agents ≡ false
missing-as p name [] h = refl
missing-as p name (a ∷ agents) h = ground (arith, h, missing-as p name agents)

stalled_not_failing :
    (threshold : ℕ) (name : String) (agents : List Entry)
    → IsDistinct agents
    → (any (is_stalled_as name) agents && any (is_failing_as threshold name) agents) ≡ false
unfolding is_failing
stalled_not_failing threshold name [] h = refl
stalled_not_failing threshold name (a ∷ agents) h =
    elim (Bool-cases (str_eq (name_of a.name) name)) [
      | inl hit ↦
          let others : any (λ b. str_eq (name_of b.name) name) agents ≡ false =
            ap (λ k. any (λ b. str_eq (name_of b.name) k) agents)
              (sym ((str_eq_iff (name_of a.name) name).0 hit))
            ∙ h.0 in
          ground (
            arith,
            missing-as (λ b. b.stalled) name agents others,
            missing-as (λ b. is_failing b threshold) name agents others,
            hit,
          )
      | inr other ↦ ground (arith, other, stalled_not_failing threshold name agents h.1)
    ]

-- Once an enabled health check is over, no agent has unresolved rows of both families, whatever rows
-- it found open. Every agent of the report has a name and is in it once.
pub check_agent_health_exclusive :
    (truncate_at_word : String → ℕ → String) (agents : List Entry)
    (open_stalls open_failures : Dict OpenRow) (threshold gap id : ℕ) (now : Datetime)
    (name : String)
    → All HasName agents
    → IsDistinct agents
    → let after =
        check_agent_health truncate_at_word true agents open_stalls open_failures threshold gap id
          now in
      (is_some (lookup name after.open_stalls) && is_some (lookup name after.open_failures)) ≡ false
unfolding check_agent_health
check_agent_health_exclusive truncate_at_word agents open_stalls open_failures threshold gap id now
      name proper distinct =
    let stalls = check_agent_liveness agents open_stalls gap id now in
    ground (
      arith,
      check_agent_liveness-present agents open_stalls gap id now name proper,
      check_agent_failures-present truncate_at_word threshold gap now agents open_failures
          (id + stalls.written) name proper,
      stalled_not_failing threshold name agents distinct,
    )
