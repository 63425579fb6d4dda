-- ===== src/Escalation.antt =====
-- sysadmin/core/escalation.py: the severity order, the two-rung ladder, its clock, and the phrase
-- for an elapsed time. A datetime is its instant in microseconds since the epoch, with a mark for a
-- naive one; a duration (the source's float of hours) is a whole number of microseconds.
pub mod Rungs
pub mod Phrase
use sysadmin_assistant.Shared.{
  ℕ, ◌+◌, ◌-◌, ◌*◌, ◌/◌, ◌%◌, max, String, Bool, true, false, ◌&&◌, not, Option, none, some, List,
  [], ◌∷◌, ltb, leb, ◌==◌, if◌then◌else◌, str_eq, is_some,
}
use sysadmin_assistant.Shared.Dict.{Dict, lookup}
use sysadmin_assistant.Shared.Text.{concat, show}

abbrev pub severity_order : Dict ℕ
severity_order = ("info", 0) ∷ ("warning", 1) ∷ ("critical", 2) ∷ []

pub data Step : Type 0 where
  raising escalate hold : Step

-- `SEVERITY_ORDER.get(rung, 0)`
unfoldable pub loudness : String → ℕ
unfolding lookup
loudness rung = elim (lookup rung severity_order) [ none ↦ 0 | some n ↦ n ]

unfoldable pub step_for : String → Option String → Step
step_for wanted none = raising
step_for wanted (some open_severity) =
    if ltb (loudness open_severity) (loudness wanted) then escalate else hold

unfoldable pub is_louder_than : String → String → Bool
is_louder_than rung other = ltb (loudness other) (loudness rung)

-- `min(rungs, key=...)`: the first of the least.
min_rung : String × ℕ → Dict ℕ → String
min_rung best [] = best.0
min_rung best (rung ∷ rungs) = min_rung (if ltb rung.1 best.1 then rung else best) rungs

unfoldable pub quietest_severity : String
unfolding min_rung
quietest_severity = elim severity_order [ [] ↦ "" | rung ∷ rungs ↦ min_rung rung rungs ]

-- `SEVERITY_ORDER[rung]` after the membership tests of the caller.
quieten_from : String → Option ℕ → Option ℕ → Bool
unfolding quietest_severity
quieten_from wanted none o = false
quieten_from wanted (some w) none = false
quieten_from wanted (some w) (some o) =
    if not (str_eq wanted quietest_severity) then false else ltb w o

unfoldable pub may_quieten_in_place : String → String → Bool
unfolding quieten_from lookup
may_quieten_in_place wanted open_severity =
    quieten_from wanted (lookup wanted severity_order) (lookup open_severity severity_order)

pub record Ladder : Type 0 where
  pub quiet : String
  pub loud : String

unfoldable pub severity_for : Ladder → ℕ → ℕ → ℕ → Option String
severity_for ladder elapsed threshold escalation_gap =
    if ltb elapsed threshold
    then none
    else if leb (threshold + escalation_gap) elapsed
    then some ladder.loud
    else some ladder.quiet

pub record Datetime : Type 0 where
  pub micros : ℕ
  pub aware : Bool

-- A naive reading is taken as UTC; a future one has age zero, as `-` on ℕ stops there.
unfoldable pub hours_since : Datetime → Datetime → ℕ
hours_since since now =
    let stamped = if since.aware then since else record since { aware = true } in
    max 0 (now.micros - stamped.micros)

-- `round(n / d)`: a tie goes to the even neighbour.
unfoldable pub round_div : ℕ → ℕ → ℕ
round_div n d =
    let q = n / d in
    let twice = 2 * (n % d) in
    if ltb twice d then q else if ltb d twice then q + 1 else if q % 2 == 0 then q else q + 1

abbrev pub minute : ℕ
minute = 60_000_000

abbrev pub hour : ℕ
hour = 3_600_000_000

abbrev pub day : ℕ
day = 86_400_000_000

-- `f"{n} unit" if n == 1 else f"{n} units"`
counted : ℕ → String → String
counted n unit =
    if n == 1 then concat (show n ∷ " " ∷ unit ∷ []) else concat (show n ∷ " " ∷ unit ∷ "s" ∷ [])

-- The number and the unit that the phrase names.
unfoldable pub phrase_of : ℕ → ℕ × String
phrase_of hours =
    if ltb hours hour
    then (max 1 (round_div hours minute), "minute")
    else if ltb hours (48 * hour)
    then (round_div hours hour, "hour")
    else (hours / day, "day")

unfoldable pub humanise_hours : ℕ → String
unfolding counted phrase_of
humanise_hours hours = let (n, unit) = phrase_of hours in counted n unit
