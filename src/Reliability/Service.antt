-- ===== src/Reliability/Service.antt =====
-- sysadmin/monitor/reliability.py: `score_service`, which scores one service, and `score_services`,
-- which lists several. `none` is the OverflowError of a window that begins before the earliest
-- datetime.
use sysadmin_assistant.Shared.{
  ℕ, ◌-◌, ◌*◌, ◌/◌, max, String, Bool, ◌&&◌, Option, none, some, List, [], ◌∷◌, any, keep, length,
  ltb, leb, ◌==◌, if◌then◌else◌, str_eq, map, ◌>>=◌,
}
use sysadmin_assistant.Shared.Text.{concat, show}
use sysadmin_assistant.Shared.Sort.{sort_by}
use sysadmin_assistant.Shared.Sort.Order.{by_key}
use sysadmin_assistant.Shared.Rounding.{round_half_even}
use sysadmin_assistant.Shared.Dict.{Dict}
use sysadmin_assistant.Reliability.{
  unmeasured_status, skipped_status, HealthPoint, ReliabilityScore, new_score, is_down, is_measured,
  outage_episodes_of, grade_of,
}
use sysadmin_assistant.Reliability.Score.{
  day, mean_hours, longest_minutes, confidence_of, deductions_of, applied_points, waived_points_of,
  worse_score, last_of,
}

-- The checks with the status.
abbrev pub count_status : String → List HealthPoint → ℕ
count_status status ps = length (keep (λ p. str_eq p.status status) ps)

-- The checks in the window, oldest first.
unfoldable pub inside_window : ℕ → List HealthPoint → List HealthPoint
inside_window window_start points =
    sort_by (by_key (λ p. p.checked_at)) (keep (λ p. leb window_start p.checked_at) points)

-- What is known of every service.
unfoldable pub begin_score : String → ℕ → ℕ → ℕ → Bool → List HealthPoint → ReliabilityScore
begin_score service window_days check_interval_seconds window_start muted inside =
    record (new_score service) {
      window_days = window_days;
      window_start = some window_start;
      muted = muted;
      checks_recorded = length inside;
      checks_expected = max 1 (window_days * 86400 / max 1 check_interval_seconds);
    }

-- The text of why nothing was measured.
unfoldable pub unmeasured_reason : ℕ → ℕ → String
unmeasured_reason skipped_checks error_checks =
    if ltb 0 skipped_checks && error_checks == 0
    then concat (
        "not monitored — services.yaml declares monitor: false, so all "
        ∷ show skipped_checks
        ∷ " checks in the window recorded no evidence either way"
        ∷ [])
    else "every check in the window was unmeasurable"

-- What the checks in the window say of themselves.
unfoldable pub observe : ReliabilityScore → HealthPoint → List HealthPoint → ReliabilityScore
observe result first rest =
    let inside = first ∷ rest in
    let last = last_of first rest in
    record result {
      first_check_at = some first.checked_at;
      last_check_at = some last.checked_at;
      observed_days = round_half_even ((last.checked_at - first.checked_at) * 100) day;
      coverage_percent = round_half_even (result.checks_recorded * 10000) result.checks_expected;
      error_checks = count_status unmeasured_status inside;
      skipped_checks = count_status skipped_status inside;
      checks_measured = length (keep is_measured inside);
    }

-- What the measured checks say of the service.
unfoldable pub measure : ReliabilityScore → List HealthPoint → ReliabilityScore
measure result measured =
    let failed_checks = length (keep is_down measured) in
    let episodes = outage_episodes_of measured in
    let episode_starts = map (λ e. e.0) episodes in
    record result {
      failed_checks = failed_checks;
      uptime_percent =
          round_half_even ((length measured - failed_checks) * 10000) (length measured);
      outage_episodes = length episodes;
      episode_starts = episode_starts;
      longest_outage_minutes = longest_minutes episodes;
      mean_hours_between_incidents = mean_hours episode_starts;
    }

module _ (format_g : ℕ → ℕ → String) where
  -- The score of a service with measured checks.
  unfoldable pub charge : ReliabilityScore → Bool → ℕ × ℕ × ℕ → ReliabilityScore
  charge result muted grade_bands =
      let (confidence, confidence_reason) = confidence_of format_g result in
      let deductions = deductions_of format_g result muted in
      let score = 100 - applied_points deductions in
      record result {
        confidence = confidence;
        confidence_reason = confidence_reason;
        deductions = deductions;
        waived_points = waived_points_of deductions;
        score = score;
        grade = grade_of score grade_bands;
      }

  -- The score of a service with checks in the window, of which `measured` measured something.
  unfoldable pub judge : ReliabilityScore → List HealthPoint → Bool → ℕ × ℕ × ℕ → ReliabilityScore
  judge result [] muted grade_bands = record result {
    confidence = "low";
    confidence_reason = some (unmeasured_reason result.skipped_checks result.error_checks);
    grade = grade_of result.score grade_bands;
  }
  judge result (p ∷ ps) muted grade_bands = charge (measure result (p ∷ ps)) muted grade_bands

  -- The score of a service from the checks in the window.
  unfoldable pub score_inside :
      ReliabilityScore → List HealthPoint → Bool → ℕ × ℕ × ℕ → ReliabilityScore
  score_inside result [] muted grade_bands = record result {
    confidence = "low";
    confidence_reason = some "no checks recorded in the window";
    grade = grade_of result.score grade_bands;
  }
  score_inside result (p ∷ ps) muted grade_bands =
      judge (observe result p ps) (keep is_measured (p ∷ ps)) muted grade_bands

  -- `score_service`
  unfoldable pub score_service :
      String → List HealthPoint → ℕ → ℕ → ℕ → Bool → ℕ × ℕ × ℕ → Option ReliabilityScore
  score_service service points window_days check_interval_seconds now muted grade_bands =
      let inside = inside_window (now - window_days * day) points in
      let begun =
        begin_score service window_days check_interval_seconds (now - window_days * day) muted
          inside in
      if ltb now (window_days * day)
      then none
      else some (score_inside begun inside muted grade_bands)

  -- The scores in the order of the services.
  unfoldable pub score_each :
      Dict (List HealthPoint) → List String → ℕ → ℕ → ℕ → ℕ × ℕ × ℕ → Option (List ReliabilityScore)
  score_each [] muted window_days interval now bands = some []
  score_each ((name, points) ∷ series) muted window_days interval now bands = do
    score ← score_service name points window_days interval now (any (str_eq name) muted) bands
    rest ← score_each series muted window_days interval now bands
    some (score ∷ rest)

  -- `score_services`
  unfoldable pub score_services :
      Dict (List HealthPoint) → List String → ℕ → ℕ → ℕ → ℕ × ℕ × ℕ → Option (List ReliabilityScore)
  unfolding score_each
  score_services series muted window_days interval now bands = do
    scores ← score_each series muted window_days interval now bands
    some (sort_by worse_score scores)
