-- ===== src/Jobs/Plan.antt =====
-- `plan_jobs`: the thirteen jobs of a configuration.
use sysadmin_assistant.Shared.{ℕ, max, String, Bool, true, none, some, List, [], ◌∷◌}
use sysadmin_assistant.Jobs.{interval_seconds, interval_hours, cron, JobSpec}

abbrev pub min_reminder_sweep_seconds : ℕ
min_reminder_sweep_seconds = 60

-- An agent's switch and its interval; the log, disk and health reviews have a switch more.
pub record AgentSection : Type 0 where
  pub enabled : Bool
  pub interval : ℕ
  pub weekly_review : Bool

pub record TimeOfDay : Type 0 where
  pub hour : ℕ
  pub minute : ℕ

-- What the plan reads of the configuration.
pub record JobsConfig : Type 0 where
  pub sysadmin : AgentSection
  pub file_organiser : AgentSection
  pub service_discovery : AgentSection
  pub estate_judge : AgentSection
  pub log_aggregator : AgentSection
  pub game_detector : AgentSection
  pub reliability_enabled : Bool
  pub desktop_enabled : Bool
  pub tray_grace_seconds : ℕ
  pub agent_first_run_delay_seconds : ℕ
  pub briefing : TimeOfDay
  pub retention : TimeOfDay
  pub log_review : TimeOfDay
  pub disk_review : TimeOfDay
  pub health_review : TimeOfDay
  pub reliability : TimeOfDay
  pub review_day_of_week : String

-- An agent's poll in seconds, and a slow scan in hours, whose first run is delayed.
poll_job : String → Bool → ℕ → List String → JobSpec
poll_job job_id enabled seconds paths = record {
  job_id = job_id;
  enabled = enabled;
  trigger = interval_seconds seconds;
  config_paths = paths;
  first_run_delay_seconds = none;
}

scan_job : String → AgentSection → ℕ → List String → JobSpec
scan_job job_id section delay paths = record {
  job_id = job_id;
  enabled = section.enabled;
  trigger = interval_hours section.interval;
  config_paths = paths;
  first_run_delay_seconds = some delay;
}

daily_job : String → Bool → TimeOfDay → List String → JobSpec
daily_job job_id enabled time paths = record {
  job_id = job_id;
  enabled = enabled;
  trigger = cron time.hour time.minute none;
  config_paths = paths;
  first_run_delay_seconds = none;
}

weekly_job : String → Bool → TimeOfDay → String → List String → JobSpec
weekly_job job_id enabled time day paths = record {
  job_id = job_id;
  enabled = enabled;
  trigger = cron time.hour time.minute (some day);
  config_paths = paths;
  first_run_delay_seconds = none;
}

unfoldable pub plan_jobs : JobsConfig → List JobSpec
unfolding poll_job scan_job daily_job weekly_job
plan_jobs config =
    let delay = config.agent_first_run_delay_seconds in
    let day = config.review_day_of_week in
    poll_job "sysadmin_health_check" config.sysadmin.enabled config.sysadmin.interval
      ("agents.sysadmin.enabled" ∷ "agents.sysadmin.health_check_interval_seconds" ∷ [])
    ∷ scan_job "file_organiser_scan" config.file_organiser delay (
        "agents.file_organiser.enabled" ∷ "agents.file_organiser.scan_interval_hours"
        ∷ "schedules.agent_first_run_delay_seconds" ∷ [])
    ∷ scan_job "service_discovery_scan" config.service_discovery delay (
        "agents.service_discovery.enabled" ∷ "agents.service_discovery.scan_interval_hours"
        ∷ "schedules.agent_first_run_delay_seconds" ∷ [])
    ∷ scan_job "estate_judge_poll" config.estate_judge delay (
        "agents.estate_judge.enabled" ∷ "agents.estate_judge.poll_interval_hours"
        ∷ "schedules.agent_first_run_delay_seconds" ∷ [])
    ∷ poll_job "log_aggregator_poll" config.log_aggregator.enabled config.log_aggregator.interval
        ("agents.log_aggregator.enabled" ∷ "agents.log_aggregator.poll_interval_seconds" ∷ [])
    ∷ poll_job "game_detector_poll" config.game_detector.enabled config.game_detector.interval
        ("agents.game_detector.enabled" ∷ "agents.game_detector.poll_interval_seconds" ∷ [])
    ∷ poll_job "desktop_reminder_sweep" config.desktop_enabled
        (max min_reminder_sweep_seconds config.tray_grace_seconds)
        ("notifications.desktop.enabled" ∷ "notifications.desktop.tray_grace_seconds" ∷ [])
    ∷ daily_job "morning_briefing" true config.briefing
        ("schedules.briefing_hour" ∷ "schedules.briefing_minute" ∷ [])
    ∷ daily_job "retention_purge" true config.retention
        ("schedules.retention_hour" ∷ "schedules.retention_minute" ∷ [])
    ∷ weekly_job "weekly_log_review" config.log_aggregator.weekly_review config.log_review day (
        "agents.log_aggregator.weekly_review" ∷ "schedules.log_review_hour"
        ∷ "schedules.log_review_minute" ∷ "schedules.review_day_of_week" ∷ [])
    ∷ weekly_job "weekly_disk_review" config.file_organiser.weekly_review config.disk_review day (
        "agents.file_organiser.weekly_review" ∷ "schedules.disk_review_hour"
        ∷ "schedules.disk_review_minute" ∷ "schedules.review_day_of_week" ∷ [])
    ∷ weekly_job "weekly_health_review" config.sysadmin.weekly_review config.health_review day (
        "agents.sysadmin.weekly_review" ∷ "schedules.health_review_hour"
        ∷ "schedules.health_review_minute" ∷ "schedules.review_day_of_week" ∷ [])
    ∷ daily_job "reliability_snapshot" config.reliability_enabled config.reliability (
        "agents.sysadmin.reliability.enabled" ∷ "schedules.reliability_hour"
        ∷ "schedules.reliability_minute" ∷ [])
    ∷ []
