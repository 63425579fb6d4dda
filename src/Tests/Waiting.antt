-- ===== src/Tests/Waiting.antt =====
-- What the tray's policy sums up, what waits for the clock, and the unreachable backend
-- (sysadmin_tray/notifications.py), on concrete input.
use sysadmin_assistant.Shared.{
  ℕ, Option, List, ◌+◌, ◌*◌, ◌≡◌, refl, ◌≢◌, false, none, some, [], ◌∷◌, arith,
}
use sysadmin_assistant.Escalation.{minute}
use sysadmin_assistant.Tray.Data.{NotificationRequest, NotificationPolicy, Quiet}
use sysadmin_assistant.Tray.Digest.{maybe_flush_digest}
use sysadmin_assistant.Tray.Waiting.{maybe_flush_digest_stuck}
use sysadmin_assistant.Tests.Policy.{audible, fresh_policy, start, a_day_later, the_opening}

abbrev two_openings : List NotificationRequest
two_openings = the_opening ∷ record the_opening { fingerprint = some "critical:Fan stopped" } ∷ []

abbrev digesting : NotificationPolicy
digesting = record fresh_policy {
  digest = ("warning", "Swap in use") ∷ [];
  digest_started_at = some start;
}

digest_kept : digesting.digest ≢ []
digest_kept = λ e. cc

abbrev stuck : NotificationPolicy
stuck = record digesting { digest_started_at = some 0 }

maybe_flush_digest_stuck_example : maybe_flush_digest stuck a_day_later ≡ (stuck, none)
maybe_flush_digest_stuck_example = maybe_flush_digest_stuck stuck a_day_later refl (omega arith)

abbrev the_outage : NotificationRequest
the_outage = record {
  summary = "CRITICAL: sysadmin";
  body =
      "Monitoring is down\nNo answer from the monitoring service for 10 minutes.\nAlerts, service checks and log capture are all stopped.\nsystemctl status sysadmin — journalctl -u sysadmin -n 50";
  severity = "critical";
  alert_severity = some "critical";
  service_name = none;
  fingerprint = some "sysadmin:backend-unreachable";
  transient = false;
  snooze_key = some "fp:sysadmin:backend-unreachable";
  escalation = false;
  reminder = false;
}

-- The backend answers, is gone for two polls, answers and is gone again.
abbrev flaps : List (ℕ × Option (ℕ × Quiet))
flaps =
    (start + 10 * minute, some (6 * minute, audible))
    ∷ (start + 11 * minute, some (7 * minute, audible))
    ∷ (start + 12 * minute, none)
    ∷ (start + 20 * minute, some (8 * minute, audible))
    ∷ []
