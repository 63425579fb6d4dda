-- ===== src/Tray/Backend.antt =====
-- sysadmin_tray/notifications.py: the unreachable backend (`evaluate_backend_unreachable`,
-- `backend_reachable`).
use sysadmin_assistant.Shared.{
  ℕ, ◌+◌, Bool, true, false, ◌||◌, not, Option, none, some, [], ◌∷◌, ltb, leb, if◌then◌else◌,
}
use sysadmin_assistant.Shared.Dict.{lookup, insert, erase}
use sysadmin_assistant.Shared.Text.{concat, join, upper}
use sysadmin_assistant.Escalation.{humanise_hours}
use sysadmin_assistant.Tray.Data.{
  NotificationRequest, FingerprintState, NotificationPolicy, Quiet, level_or, min_severity_level,
  fp_backend_unreachable, backend_unreachable_title, backend_unreachable_severity,
}
use sysadmin_assistant.Tray.Rules.{alert_snoozed, suppressed_by_dnd}
use sysadmin_assistant.Tray.Speak.{put_state, reminder_due, cooling}
use sysadmin_assistant.Tray.Poll.{state_or_new, opened, closed}

backend_unreachable_request : FingerprintState → ℕ → Bool → NotificationRequest
backend_unreachable_request state unreachable_for reminder = record {
  summary = concat (upper backend_unreachable_severity ∷ ": sysadmin" ∷ []);
  body = join "\n" (
      backend_unreachable_title
      ∷ concat
          ("No answer from the monitoring service for " ∷ humanise_hours unreachable_for ∷ "." ∷ [])
      ∷ "Alerts, service checks and log capture are all stopped."
      ∷ "systemctl status sysadmin — journalctl -u sysadmin -n 50"
      ∷ []);
  severity = backend_unreachable_severity;
  alert_severity = some backend_unreachable_severity;
  service_name = none;
  fingerprint = some state.fingerprint;
  transient = false;
  snooze_key = some (concat ("fp:" ∷ state.fingerprint ∷ []));
  escalation = false;
  reminder = reminder;
}

-- What an open episode that may speak says now.
unfoldable pub backend_statement :
    NotificationPolicy → FingerprintState → ℕ → ℕ → NotificationPolicy × Option NotificationRequest
unfolding backend_unreachable_request
backend_statement p state unreachable_for now =
    if state.notified_this_episode
    then if not (reminder_due p.settings state now) then (p, none) else (
      put_state p
          (record state { last_notified_at = some now; reminders_sent = state.reminders_sent + 1 }),
      some (backend_unreachable_request state unreachable_for true),
    )
    else if cooling p.settings state now
    then (put_state p (record state { suppressed_episodes = state.suppressed_episodes + 1 }), none)
    else (
      put_state p (record state {
        suppressed_episodes = 0;
        notified_this_episode = true;
        last_notified_at = some now;
        first_notified_at = some now;
        reminders_sent = 0;
      }),
      some (backend_unreachable_request state unreachable_for false),
    )

unfoldable pub evaluate_backend_unreachable :
    NotificationPolicy → ℕ → Quiet → ℕ → NotificationPolicy × Option NotificationRequest
unfolding backend_statement
evaluate_backend_unreachable p unreachable_for quiet now =
    let grace = p.settings.backend_unreachable_grace_seconds in
    if not p.settings.enabled || leb grace 0
    then (p, none)
    else if ltb unreachable_for grace
    then (p, none)
    else if ltb (level_or 0 backend_unreachable_severity) (min_severity_level p.settings)
    then (p, none)
    else let state = opened (
        state_or_new (lookup fp_backend_unreachable p.states) fp_backend_unreachable
          backend_unreachable_severity) in
      let (q, snoozed) = alert_snoozed (put_state p state) fp_backend_unreachable none now in
      if snoozed
      then (q, none)
      else if suppressed_by_dnd q.settings backend_unreachable_severity quiet
      then (q, none)
      else backend_statement q state unreachable_for now

unfoldable pub backend_reachable : NotificationPolicy → NotificationPolicy
backend_reachable p = elim (lookup fp_backend_unreachable p.states) [
  | none ↦ p
  | some state ↦ elim state.last_notified_at [
    | none ↦ record p { states = erase fp_backend_unreachable p.states }
    | some last ↦ record p { states = insert fp_backend_unreachable (closed state) p.states }
  ]
]
