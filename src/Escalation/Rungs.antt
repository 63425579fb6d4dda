-- ===== src/Escalation/Rungs.antt =====
-- The rungs of sysadmin/core/escalation.py: what climbing a ladder can say, and what may be
-- rewritten in place.
use sysadmin_assistant.Shared.{
  ℕ, ◌+◌, ◌≤◌, String, ◌≡◌, refl, ◌↔◌, ◌⊎◌, inl, inr, true, Option, none, some, List, [], ◌∷◌,
  arith, ltb, if◌then◌else◌, str_eq, str_eq_iff, Bool-cases, All, max,
}
use sysadmin_assistant.Shared.Dict.{lookup}
use sysadmin_assistant.Escalation.{
  raising, escalate, hold, loudness, step_for, may_quieten_in_place, Ladder, severity_for,
}

pub loudness-le : (s : String) → loudness s ≤ 2
unfolding loudness lookup
loudness-le s = ground arith

-- The severity of the open row after a run: both other steps leave a row at the wanted severity.
unfoldable pub standing : String → Option String → Option String
standing wanted open_severity = elim (step_for wanted open_severity) [
  | raising ↦ some wanted
  | escalate ↦ some wanted
  | hold ↦ open_severity
]

-- How often a fault speaks over runs that want the given severities.
unfoldable pub statements : Option String → List String → ℕ
unfolding standing
statements open_severity [] = 0
statements open_severity (wanted ∷ later) =
    let rest = statements (standing wanted open_severity) later in
    elim (step_for wanted open_severity) [ hold ↦ rest | _ ↦ rest + 1 ]

-- The wanted severities of a laddered fault at the given ages; none where it is on no rung.
unfoldable pub rungs_at : Ladder → ℕ → ℕ → List ℕ → List String
rungs_at ladder threshold gap [] = []
rungs_at ladder threshold gap (age ∷ ages) = elim (severity_for ladder age threshold gap) [
  | none ↦ rungs_at ladder threshold gap ages
  | some s ↦ s ∷ rungs_at ladder threshold gap ages
]

module _ (ladder : Ladder) where
  abbrev OnLadder : String → Type 0
  OnLadder s = (s ≡ ladder.quiet) ⊎ (s ≡ ladder.loud)

  -- How often a row at `s` can still be restated.
  abbrev rungs_left : String → ℕ
  rungs_left s =
      if ltb (loudness s) (max (loudness ladder.quiet) (loudness ladder.loud)) then 1 else 0

  statements_open :
      (s : String) (wanted : List String)
      → OnLadder s
      → All OnLadder wanted
      → statements (some s) wanted ≤ rungs_left s
  unfolding statements step_for
  statements_open s [] here h = ground arith
  statements_open s (w ∷ later) here h =
      ground (arith, statements_open s later here h.1, statements_open w later h.0 h.1)

  statements-le : (wanted : List String) → All OnLadder wanted → statements none wanted ≤ 2
  unfolding statements step_for
  statements-le [] h = omega arith
  statements-le (w ∷ later) h = ground (arith, statements_open w later h.0 h.1)

  rungs_at-OnLadder :
      (threshold gap : ℕ) (ages : List ℕ) → All OnLadder (rungs_at ladder threshold gap ages)
  unfolding rungs_at severity_for
  rungs_at-OnLadder t g [] = tt
  rungs_at-OnLadder t g (age ∷ ages) = ground (arith, rungs_at-OnLadder t g ages)

  -- A fault that climbs a ladder and does not recover speaks at most twice, at whatever ages its
  -- runs see it, whatever the ladder's two severities, its threshold and its gap.
  pub statements-rungs_at :
      (threshold gap : ℕ) (ages : List ℕ) → statements none (rungs_at ladder threshold gap ages) ≤ 2
  statements-rungs_at t g ages = statements-le _ (rungs_at-OnLadder t g ages)

-- No run leaves a quieter row standing than it found, or than it wanted.
pub standing_louder :
    (wanted open_severity : String)
    → (s : String) × (standing wanted (some open_severity) ≡ some s)
      × (loudness open_severity ≤ loudness s)
      × (loudness wanted ≤ loudness s)
unfolding standing step_for
standing_louder w o = elim (Bool-cases (ltb (loudness o) (loudness w))) [
  | inl up ↦ (w, ground arith, ground arith, ground arith)
  | inr same ↦ (o, ground arith, ground arith, ground arith)
]

quieten_warning : may_quieten_in_place "info" "warning" ≡ true
unfolding may_quieten_in_place lookup str_eq
quieten_warning = refl

quieten_critical : may_quieten_in_place "info" "critical" ≡ true
unfolding may_quieten_in_place lookup str_eq
quieten_critical = refl

-- A held row may be rewritten in place exactly when the wanted rung is `info` and the row stands at
-- `warning` or `critical`.
pub may_quieten_in_place_iff :
    (wanted o : String)
    → (may_quieten_in_place wanted o ≡ true)
      ↔ ((wanted ≡ "info") × ((o ≡ "warning") ⊎ (o ≡ "critical")))
unfolding may_quieten_in_place lookup
may_quieten_in_place_iff w o = (
  λ h. ground (
    arith,
    str_eq_iff "info" w,
    str_eq_iff w "info",
    str_eq_iff "warning" w,
    str_eq_iff "critical" w,
    str_eq_iff "info" o,
    str_eq_iff "warning" o,
    str_eq_iff "critical" o,
  ),
  λ h. elim h.1 [
    | inl warning ↦ rw (h.0, warning) quieten_warning
    | inr critical ↦ rw (h.0, critical) quieten_critical
  ],
)

-- Shifting the threshold moves when the clock starts, and not how long the second rung waits.
pub severity_for_shift :
    (ladder : Ladder) (elapsed threshold gap shift : ℕ)
    → severity_for ladder (elapsed + shift) (threshold + shift) gap
      ≡ severity_for ladder elapsed threshold gap
unfolding severity_for
severity_for_shift ladder e t g k = ground arith
