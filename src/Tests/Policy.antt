-- ===== src/Tests/Policy.antt =====
-- The tray's policy (sysadmin_tray/notifications.py) on concrete alerts.
use sysadmin_assistant.Shared.{
  ℕ, ◌+◌, ◌*◌, ◌≡◌, refl, true, false, Bool, Option, List, if◌then◌else◌, none, some, [], ◌∷◌,
  arith, str_eq,
}
use sysadmin_assistant.Shared.Dict.{lookup, insert}
use sysadmin_assistant.Shared.Text.{concat, join, lower, upper, show}
use sysadmin_assistant.Tray.Copy.{is_present}
use sysadmin_assistant.Escalation.{minute, humanise_hours, phrase_of, round_div}
use sysadmin_assistant.Tray.Data.{
  AlertInfo, NotificationRequest, NotificationSettings, FingerprintState, NotificationPolicy, Quiet,
  default_settings, level_or, min_severity_level, new_state, fingerprint_of,
}
use sysadmin_assistant.Tray.Rules.{
  snooze_key_for, is_muted, is_snoozed, alert_snoozed, suppressed_by_dnd,
}
use sysadmin_assistant.Tray.Speak.{
  first_notification, maybe_escalate, reminder_due, remind, cooling, speak, consider,
}
use sysadmin_assistant.Tray.Poll.{
  gather_state, gather_new, gather_alert, gather_from, gather, evaluate,
}
use sysadmin_assistant.Tray.History.{polls, snoozes, run}
use sysadmin_assistant.Tray.Calm.{announces}
use sysadmin_assistant.Tray.Calm.Cooldown.{openings_apart}
use sysadmin_assistant.Tray.Repeats.{persisting, quiet_then_loud}
use sysadmin_assistant.Tray.Repeats.Reminders.{spaced, told, reminders_apart}
use sysadmin_assistant.Tray.Gates.{may_interrupt, consider_gates}

abbrev pub disk : AlertInfo
disk = record {
  severity = "critical";
  title = "Disk full";
  message = some "98% used";
  service_name = none;
  acknowledged = false;
}

abbrev pub audible : Quiet
audible = record { dnd_active = false; dnd_allow_critical = true; desktop_inhibited = false }

abbrev pub fresh_policy : NotificationPolicy
fresh_policy = record {
  settings = default_settings;
  states = [];
  snoozes = [];
  digest = [];
  digest_started_at = none;
}

abbrev pub start : ℕ
start = 1000 * minute

disk_opens :
    announces "critical:Disk full" (gather fresh_policy (disk ∷ []) audible start).fresh ≡ true
unfolding gather gather_from gather_alert gather_new gather_state consider level_or str_eq
    min_severity_level is_muted lower alert_snoozed is_snoozed suppressed_by_dnd speak cooling
    first_notification fingerprint_of concat lookup insert is_present new_state
disk_opens = refl

-- The alert clears, an hour's snooze of another key follows, and the alert is back.
openings_apart_example :
    announces "critical:Disk full"
      (gather
        (run (evaluate fresh_policy (disk ∷ []) audible start).0 (
          (start + minute, polls [] audible)
          ∷ (start + 2 * minute, snoozes "service:redis" none)
          ∷ []))
        (disk ∷ [])
        audible
        (start + 20 * minute)).fresh
    ≡ false
openings_apart_example =
    openings_apart fresh_policy "critical:Disk full" start (start + 20 * minute) (disk ∷ [])
      (disk ∷ []) audible audible
      ((start + minute, polls [] audible) ∷ (start + 2 * minute, snoozes "service:redis" none) ∷ [])
      tt refl disk_opens ((omega arith, omega arith), ((omega arith, omega arith), tt))
      (omega arith) (omega arith)

abbrev silent_settings : NotificationSettings
silent_settings = record default_settings { reminder_hours = 0 }

severity_critical : str_eq disk.severity "critical" ≡ true
unfolding str_eq
severity_critical = refl

quiet_then_loud_example :
    persisting silent_settings disk
      (λ i. start + i * minute)
      (new_state "critical:Disk full" "critical")
      1
      5
    ≡ some "info" ∷ none ∷ some "critical" ∷ none ∷ none ∷ []
quiet_then_loud_example =
    quiet_then_loud silent_settings disk severity_critical refl (omega arith) "critical:Disk full"
      (λ i. start + i * minute) 5

-- The state of an alert that was announced at `start`.
abbrev announced : FingerprintState
announced = record {
  fingerprint = "critical:Disk full";
  severity = "critical";
  episode_open = true;
  polls_active = 2;
  notified_this_episode = true;
  escalated = true;
  last_notified_at = some start;
  first_notified_at = some start;
  reminders_sent = 0;
  suppressed_episodes = 0;
}

abbrev pub a_day_later : ℕ
a_day_later = start + 1440 * minute

abbrev the_reminder : NotificationRequest
the_reminder = record {
  summary = "CRITICAL: sysadmin";
  body = "Disk full\nStill open 24 hours after the first alert\n98% used";
  severity = "critical";
  alert_severity = some "critical";
  service_name = none;
  fingerprint = some "critical:Disk full";
  transient = false;
  snooze_key = some "fp:critical:Disk full";
  escalation = false;
  reminder = true;
}

reminder_said : (speak default_settings disk announced a_day_later false).1 ≡ some the_reminder
unfolding speak maybe_escalate remind reminder_due str_eq concat join upper humanise_hours phrase_of
    round_div show snooze_key_for is_present
reminder_said = refl

-- The alert is in three polls, reminded of in the second, away in the fourth and back in the fifth.
abbrev a_week : List (ℕ × Option (AlertInfo × Bool))
a_week =
    (a_day_later, some (disk, false))
    ∷ (a_day_later + minute, some (disk, true))
    ∷ (a_day_later + 2 * minute, some (disk, true))
    ∷ (a_day_later + 3 * minute, none)
    ∷ (a_day_later + 1440 * minute, some (disk, true))
    ∷ []

reminders_apart_example : spaced default_settings (told default_settings announced a_week) ≡ true
reminders_apart_example =
    reminders_apart default_settings announced start a_week
      (omega arith, (omega arith, (omega arith, (omega arith, (omega arith, tt)))))

abbrev pub the_opening : NotificationRequest
the_opening = record {
  summary = "CRITICAL: sysadmin";
  body = "Disk full\n98% used";
  severity = "info";
  alert_severity = some "critical";
  service_name = none;
  fingerprint = some "critical:Disk full";
  transient = true;
  snooze_key = some "fp:critical:Disk full";
  escalation = false;
  reminder = false;
}

abbrev unseen : FingerprintState
unseen = record announced {
  polls_active = 1;
  notified_this_episode = false;
  escalated = false;
  last_notified_at = none;
  first_notified_at = none;
}

consider_gates_example : (consider fresh_policy disk unseen start true audible).1 ≡ (
    if may_interrupt fresh_policy disk "critical:Disk full" start audible
    then (speak default_settings disk unseen start true).1
    else none)
consider_gates_example = consider_gates fresh_policy disk unseen start true audible

abbrev do_not_disturb : Quiet
do_not_disturb = record { dnd_active = true; dnd_allow_critical = true; desktop_inhibited = true }

opening_breaks_through :
    (consider fresh_policy disk unseen start true do_not_disturb).1 ≡ some the_opening
unfolding consider level_or str_eq min_severity_level is_muted lower alert_snoozed is_snoozed
    is_present suppressed_by_dnd speak cooling first_notification concat join snooze_key_for upper
opening_breaks_through = refl
