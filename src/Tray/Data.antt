-- ===== src/Tray/Data.antt =====
-- sysadmin_tray/notifications.py: the value objects, the settings and the state of the policy, and
-- what it reads of an alert (sysadmin/core/contracts.py). Clock readings and windows are whole
-- microseconds; `reminder_hours` is in millionths of an hour.
use sysadmin_assistant.Shared.{ℕ, String, Bool, true, false, Option, none, some, List, [], ◌∷◌}
use sysadmin_assistant.Shared.Dict.{Dict, lookup}
use sysadmin_assistant.Shared.Text.{concat}

abbrev pub severity_levels : Dict ℕ
severity_levels = ("info", 0) ∷ ("warning", 1) ∷ ("critical", 2) ∷ []

-- `SEVERITY_LEVELS.get(severity, default)`
unfoldable pub level_or : ℕ → String → ℕ
unfolding lookup
level_or default severity = elim (lookup severity severity_levels) [ none ↦ default | some n ↦ n ]

pub record AlertInfo : Type 0 where
  pub severity : String
  pub title : String
  pub message : Option String
  pub service_name : Option String
  pub acknowledged : Bool

pub record NotificationRequest : Type 0 where
  pub summary : String
  pub body : String
  pub severity : String
  pub alert_severity : Option String
  pub service_name : Option String
  pub fingerprint : Option String
  pub transient : Bool
  pub snooze_key : Option String
  pub escalation : Bool
  pub reminder : Bool

pub record NotificationSettings : Type 0 where
  pub enabled : Bool
  pub min_severity : String
  pub flap_cooldown_minutes : ℕ
  pub escalation_polls : ℕ
  pub coalesce_threshold : ℕ
  pub snooze_minutes : ℕ
  pub digest_mode : Bool
  pub digest_interval_minutes : ℕ
  pub respect_desktop_dnd : Bool
  pub muted_services : List String
  pub reminder_hours : ℕ
  pub backend_unreachable_grace_seconds : ℕ

abbrev pub default_settings : NotificationSettings
default_settings = record {
  enabled = true;
  min_severity = "critical";
  flap_cooldown_minutes = 30;
  escalation_polls = 3;
  coalesce_threshold = 2;
  snooze_minutes = 60;
  digest_mode = false;
  digest_interval_minutes = 60;
  respect_desktop_dnd = true;
  muted_services = [];
  reminder_hours = 24_000_000;
  backend_unreachable_grace_seconds = 300_000_000;
}

unfoldable pub min_severity_level : NotificationSettings → ℕ
min_severity_level settings = level_or 2 settings.min_severity

pub record FingerprintState : Type 0 where
  pub fingerprint : String
  pub severity : String
  pub episode_open : Bool
  pub polls_active : ℕ
  pub notified_this_episode : Bool
  pub escalated : Bool
  pub last_notified_at : Option ℕ
  pub first_notified_at : Option ℕ
  pub reminders_sent : ℕ
  pub suppressed_episodes : ℕ

unfoldable pub new_state : String → String → FingerprintState
new_state fingerprint severity = record {
  fingerprint = fingerprint;
  severity = severity;
  episode_open = false;
  polls_active = 0;
  notified_this_episode = false;
  escalated = false;
  last_notified_at = none;
  first_notified_at = none;
  reminders_sent = 0;
  suppressed_episodes = 0;
}

pub record NotificationPolicy : Type 0 where
  pub settings : NotificationSettings
  pub states : Dict FingerprintState
  pub snoozes : Dict ℕ
  pub digest : List (String × String)
  pub digest_started_at : Option ℕ

unfoldable pub init : NotificationSettings → NotificationPolicy
init settings = record {
  settings = settings;
  states = [];
  snoozes = [];
  digest = [];
  digest_started_at = none;
}

unfoldable pub reset : NotificationPolicy → NotificationPolicy
reset p = record p { states = []; snoozes = []; digest = []; digest_started_at = none }

-- The do-not-disturb arguments that the callers pass together.
pub record Quiet : Type 0 where
  pub dnd_active : Bool
  pub dnd_allow_critical : Bool
  pub desktop_inhibited : Bool

unfoldable pub fingerprint_of : AlertInfo → String
fingerprint_of alert = concat (alert.severity ∷ ":" ∷ alert.title ∷ [])

abbrev pub fp_coalesced : String
fp_coalesced = "sysadmin:new-alert-summary"

abbrev pub fp_digest : String
fp_digest = "sysadmin:warning-digest"

abbrev pub fp_reminder : String
fp_reminder = "sysadmin:still-open-summary"

abbrev pub fp_backend_unreachable : String
fp_backend_unreachable = "sysadmin:backend-unreachable"

abbrev pub backend_unreachable_title : String
backend_unreachable_title = "Monitoring is down"

abbrev pub backend_unreachable_severity : String
backend_unreachable_severity = "critical"

abbrev pub max_listed_titles : ℕ
max_listed_titles = 5
