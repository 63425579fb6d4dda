-- ===== src/Tests/Reliability.antt =====
-- A service with two outages, a check that failed and checks that nobody took, scored over a week.
use mathlib.Core.List.{Perm}
use sysadmin_assistant.Shared.{ℕ, ◌≡◌, refl, ◌-◌, ◌*◌, String, false, List, [], ◌∷◌, keep, str_eq}
use sysadmin_assistant.Shared.Sort.{sort_by}
use sysadmin_assistant.Shared.Rounding.{round_half_even}
use sysadmin_assistant.Shared.Text.{show}
use sysadmin_assistant.Shared.Sort.Order.{IsRising}
use sysadmin_assistant.Shared.Dict.{Dict}
use sysadmin_assistant.Reliability.{
  HealthPoint, ReliabilityScore, is_down, is_measured, outage_episodes_of,
}
use sysadmin_assistant.Reliability.Score.{
  day, worse_score, applied_points, deductions_of, downtime_deduction, instability_deduction,
  larger_deduction,
}
use sysadmin_assistant.Reliability.Service.{
  inside_window, begin_score, score_inside, score_service, score_each, score_services, judge,
  charge, measure,
}
use sysadmin_assistant.Reliability.Bounds.{IsAccounted, score_service-IsAccounted}
use sysadmin_assistant.Reliability.Episodes.{
  begins, ends, outage_episodes_of_runs, starts_of, ends_of,
}
use sysadmin_assistant.Reliability.Unmeasured.{has_evidence, verdict_of, score_service_unmeasured}
use sysadmin_assistant.Reliability.Listing.{AreScores, score_of, score_services_worst_first}

abbrev at_check : ℕ → String → HealthPoint
at_check n status = record { checked_at = n * day; status = status }

abbrev checks : List HealthPoint
checks =
    at_check 12 "ok"
    ∷ at_check 11 "critical"
    ∷ at_check 13 "degraded"
    ∷ at_check 14 "critical"
    ∷ at_check 15 "skipped"
    ∷ at_check 16 "ok"
    ∷ at_check 9 "error"
    ∷ at_check 2 "critical"
    ∷ []

abbrev bands : ℕ × ℕ × ℕ
bands = (95, 85, 60)

-- A stand-in for the printing of floats.
abbrev plain : ℕ → ℕ → String
plain parts one = show parts

abbrev inside : List HealthPoint
inside = inside_window (16 * day - 7 * day) checks

abbrev scored : ReliabilityScore
scored =
    score_inside plain (begin_score "db" 7 300 (16 * day - 7 * day) false inside) inside false bands

score_service-IsAccounted_example : IsAccounted false scored
unfolding score_service
score_service-IsAccounted_example =
    score_service-IsAccounted plain "db" checks 7 300 (16 * day) false bands scored refl

-- The service was up in two of the five measured checks, and lost 60 and 10 points.
score_test : scored.score ≡ 30
unfolding score_inside inside_window sort_by judge is_measured str_eq charge applied_points
    deductions_of downtime_deduction round_half_even measure is_down instability_deduction
    outage_episodes_of larger_deduction
score_test = refl

outage_episodes_of_runs_example :
    (starts_of (outage_episodes_of (keep is_measured inside))
      ≡ begins false (keep is_measured inside))
    × (ends_of (outage_episodes_of (keep is_measured inside)) ≡ ends (keep is_measured inside))
outage_episodes_of_runs_example = outage_episodes_of_runs (keep is_measured inside)

outages_test :
    outage_episodes_of (keep is_measured inside) ≡ (11 * day, 11 * day) ∷ (13 * day, 14 * day) ∷ []
unfolding outage_episodes_of inside_window sort_by is_measured str_eq is_down
outages_test = refl

score_service_unmeasured_example :
    verdict_of (score_service plain "db" checks 7 300 (16 * day) false bands)
    ≡ verdict_of (score_service plain "db" (keep has_evidence checks) 7 300 (16 * day) false bands)
score_service_unmeasured_example =
    score_service_unmeasured plain false bands "db" checks 7 300 (16 * day)

abbrev series : Dict (List HealthPoint)
series = ("web", at_check 12 "ok" ∷ []) ∷ ("db", checks) ∷ []

abbrev web_inside : List HealthPoint
web_inside = inside_window (16 * day - 7 * day) (at_check 12 "ok" ∷ [])

abbrev web_scored : ReliabilityScore
web_scored =
    score_inside plain (begin_score "web" 7 300 (16 * day - 7 * day) false web_inside) web_inside
      false bands

score_services_worst_first_example :
    IsRising (λ r. r.score) (sort_by worse_score (web_scored ∷ scored ∷ []))
    × ((each : List ReliabilityScore) × AreScores
          (score_of plain [] 7 300 (16 * day) bands)
          series
          each
        × Perm (sort_by worse_score (web_scored ∷ scored ∷ [])) each)
unfolding score_services score_each score_service
score_services_worst_first_example =
    score_services_worst_first plain [] 7 300 (16 * day) bands series
      (sort_by worse_score (web_scored ∷ scored ∷ [])) refl
