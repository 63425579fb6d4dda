-- ===== src/Reliability/Score.antt =====
-- sysadmin/monitor/reliability.py: the score of a service from its checks, and the list of services.
use sysadmin_assistant.Shared.{
  ℕ, ◌+◌, ◌-◌, ◌*◌, max, min, String, Bool, not, ◌&&◌, ◌||◌, Option, none, some, List, [], ◌∷◌,
  ◌++◌, keep, length, ltb, ◌==◌, if◌then◌else◌, map,
}
use sysadmin_assistant.Shared.Text.{concat, show}
use sysadmin_assistant.Shared.Sort.{sort_by}
use sysadmin_assistant.Shared.Rounding.{round_half_even}
use sysadmin_assistant.Escalation.{minute, hour}
use sysadmin_assistant.Jobs.{text_less}
use sysadmin_assistant.Reliability.{
  downtime_cap, instability_per_episode, instability_cap, low_coverage, min_confident_history_days,
  Deduction, ReliabilityScore,
}

abbrev pub day : ℕ
day = 24 * hour

-- `sum(...)` of numbers.
abbrev pub sum : List ℕ → ℕ
sum [] = 0
sum (n ∷ ns) = n + sum ns

-- `max(...)` of the lengths.
abbrev pub greatest : List ℕ → ℕ
greatest [] = 0
greatest (n ∷ ns) = max n (greatest ns)

-- `zip(starts[:-1], starts[1:])`, each pair as its difference.
abbrev pub gaps : List ℕ → List ℕ
gaps [] = []
gaps (earlier ∷ []) = []
gaps (earlier ∷ later ∷ rest) = (later - earlier) ∷ gaps (later ∷ rest)

-- `mean_hours_between_incidents`, from the starts of the episodes.
unfoldable pub mean_hours : List ℕ → Option ℕ
mean_hours starts =
    if ltb 1 (length starts)
    then some (round_half_even (sum (gaps starts) * 10) (length (gaps starts) * hour))
    else none

-- `longest_outage_minutes`
unfoldable pub longest_minutes : List (ℕ × ℕ) → ℕ
longest_minutes episodes = round_half_even (greatest (map (λ e. e.1 - e.0) episodes) * 10) minute

-- The sort key `(-d.points, d.kind)`.
unfoldable pub larger_deduction : Deduction → Deduction → Bool
larger_deduction x y = ltb y.points x.points || (x.points == y.points && text_less x.kind y.kind)

-- The sort key `(s.score, s.service)`.
unfoldable pub worse_score : ReliabilityScore → ReliabilityScore → Bool
worse_score x y = ltb x.score y.score || (x.score == y.score && text_less x.service y.service)

-- The last entry of a list that begins with `x`.
abbrev pub last_of {ℓ} : {A : Type ℓ} → A → List A → A
last_of x [] = x
last_of x (y ∷ ys) = last_of y ys

-- What is charged for, and what is waived.
unfoldable pub applied_points : List Deduction → ℕ
applied_points ds = sum (map (λ d. d.points) (keep (λ d. not d.waived) ds))

unfoldable pub waived_points_of : List Deduction → ℕ
waived_points_of ds = sum (map (λ d. d.points) (keep (λ d. d.waived) ds))

module _ (format_g : ℕ → ℕ → String) where
  -- `_confidence`
  unfoldable pub confidence_of : ReliabilityScore → String × Option String
  confidence_of result =
      if ltb result.observed_days min_confident_history_days
      then (
        "low",
        some (
            concat (
              "only "
              ∷ format_g result.observed_days 100
              ∷ " days of history — the service was added recently or checks have only just started"
              ∷ [])),
      )
      else if ltb result.coverage_percent low_coverage
      then (
        "low",
        some (
            concat (
              format_g result.coverage_percent 100
              ∷ "% of expected checks recorded — the monitor was down for much of the window"
              ∷ [])),
      )
      else ("high", none)

  -- The deduction for the time the service was away.
  unfoldable pub downtime_deduction : ReliabilityScore → Bool → List Deduction
  downtime_deduction result muted =
      let downtime = min downtime_cap (round_half_even (10000 - result.uptime_percent) 100) in
      if ltb 0 downtime
      then record {
        kind = "downtime";
        points = downtime;
        detail = concat (
            format_g result.uptime_percent 100
            ∷ "% uptime across "
            ∷ show result.checks_measured
            ∷ " measured checks — "
            ∷ show result.failed_checks
            ∷ " failed"
            ∷ (if downtime == downtime_cap then " (capped)" else "")
            ∷ "."
            ∷ []);
        waived = muted;
      }
        ∷ []
      else []

  -- The deduction for the outages, whatever their length.
  unfoldable pub instability_deduction : ReliabilityScore → Bool → List Deduction
  instability_deduction result muted =
      let episodes = result.outage_episodes in
      let raw = instability_per_episode * episodes in
      let instability = min instability_cap raw in
      if ltb 0 episodes
      then record {
        kind = "instability";
        points = instability;
        detail = concat (
            show episodes
            ∷ " separate outage"
            ∷ (if episodes == 1 then "" else "s")
            ∷ (if result.longest_outage_minutes == 0
                then ""
                else concat
                    (", longest " ∷ format_g result.longest_outage_minutes 10 ∷ " min" ∷ []))
            ∷ " — "
            ∷ show instability_per_episode
            ∷ " points each"
            ∷ (if ltb instability raw then " (capped)" else "")
            ∷ "."
            ∷ []);
        waived = muted;
      }
        ∷ []
      else []

  -- `_deductions`
  unfoldable pub deductions_of : ReliabilityScore → Bool → List Deduction
  deductions_of result muted =
      sort_by larger_deduction
        (downtime_deduction result muted ++ instability_deduction result muted)
