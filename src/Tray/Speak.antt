-- ===== src/Tray/Speak.antt =====
-- sysadmin_tray/notifications.py: what one alert produces in one poll (`_consider` and the requests
-- that it builds). `first_poll` says that the alert's episode opened with this poll.
use sysadmin_assistant.Shared.{
  ℕ, ◌+◌, ◌-◌, ◌*◌, String, Bool, true, false, ◌&&◌, ◌||◌, not, Option, none, some, List, [], ◌∷◌,
  ◌++◌, ltb, leb, ◌==◌, if◌then◌else◌, str_eq,
}
use sysadmin_assistant.Shared.Dict.{insert}
use sysadmin_assistant.Shared.Text.{concat, join, show, upper}
use sysadmin_assistant.Escalation.{humanise_hours, minute}
use sysadmin_assistant.Tray.Data.{
  AlertInfo, NotificationRequest, NotificationSettings, FingerprintState, NotificationPolicy, Quiet,
  level_or, min_severity_level,
}
use sysadmin_assistant.Tray.Copy.{is_present, text_of, humanise_minutes}
use sysadmin_assistant.Tray.Rules.{is_muted, alert_snoozed, suppressed_by_dnd, snooze_key_for}

abbrev pub cooldown : NotificationSettings → ℕ
cooldown settings = settings.flap_cooldown_minutes * minute

-- The state object is shared with the dict, so a write to it is a write there.
abbrev pub put_state : NotificationPolicy → FingerprintState → NotificationPolicy
put_state p state = record p { states = insert state.fingerprint state p.states }

message_lines : Option String → List String
message_lines message = if is_present message then text_of message ∷ [] else []

flap_lines : AlertInfo → FingerprintState → ℕ → List String
flap_lines alert state now = elim state.last_notified_at [
  | none ↦ []
  | some last ↦
      if state.suppressed_episodes == 0
      then []
      else concat (
          alert.title
          ∷ " flapped "
          ∷ show (state.suppressed_episodes + 1)
          ∷ "× in the last "
          ∷ humanise_minutes (now - last)
          ∷ [])
        ∷ []
]

unfoldable pub first_notification :
    NotificationSettings → AlertInfo → FingerprintState → ℕ → FingerprintState × NotificationRequest
unfolding flap_lines message_lines
first_notification settings alert state now =
    let quiet_first = str_eq alert.severity "critical" && ltb 1 settings.escalation_polls in
    let effective = if quiet_first then "info" else alert.severity in
    (
      record state {
        suppressed_episodes = 0;
        notified_this_episode = true;
        escalated = false;
        last_notified_at = some now;
        first_notified_at = some now;
        reminders_sent = 0;
      },
      record {
        summary = concat (upper alert.severity ∷ ": sysadmin" ∷ []);
        body =
            join "\n" (alert.title ∷ (flap_lines alert state now ++ message_lines alert.message));
        severity = effective;
        alert_severity = some alert.severity;
        service_name = alert.service_name;
        fingerprint = some state.fingerprint;
        transient = str_eq effective "info";
        snooze_key = some (snooze_key_for alert state.fingerprint);
        escalation = false;
        reminder = false;
      },
    )

unfoldable pub maybe_escalate :
    NotificationSettings
    → AlertInfo
    → FingerprintState
    → ℕ
    → Option (FingerprintState × NotificationRequest)
unfolding message_lines
maybe_escalate settings alert state now =
    if not (str_eq alert.severity "critical") || state.escalated
    then none
    else if leb settings.escalation_polls 1
    then none
    else if ltb state.polls_active settings.escalation_polls
    then none
    else some (
      record state { escalated = true; last_notified_at = some now },
      record {
        summary = "CRITICAL: sysadmin";
        body = join "\n" (
            alert.title
            ∷ concat ("Still failing after " ∷ show state.polls_active ∷ " checks" ∷ [])
            ∷ message_lines alert.message);
        severity = "critical";
        alert_severity = some "critical";
        service_name = alert.service_name;
        fingerprint = some state.fingerprint;
        transient = false;
        snooze_key = some (snooze_key_for alert state.fingerprint);
        escalation = true;
        reminder = false;
      },
    )

unfoldable pub reminder_due : NotificationSettings → FingerprintState → ℕ → Bool
reminder_due settings state now =
    let interval = settings.reminder_hours * 3600 in
    elim state.last_notified_at [
      | none ↦ false
      | some last ↦ if leb interval 0 then false else leb interval (now - last)
    ]

opened_at : FingerprintState → ℕ
opened_at state = elim state.first_notified_at [
  | none ↦ elim state.last_notified_at [ none ↦ 0 | some last ↦ last ]
  | some first ↦ first
]

-- `_reminder`
unfoldable pub remind :
    NotificationSettings
    → AlertInfo
    → FingerprintState
    → ℕ
    → Option (FingerprintState × NotificationRequest)
unfolding message_lines opened_at
remind settings alert state now =
    if not (reminder_due settings state now)
    then none
    else some (
      record state { last_notified_at = some now; reminders_sent = state.reminders_sent + 1 },
      record {
        summary = concat (upper alert.severity ∷ ": sysadmin" ∷ []);
        body = join "\n" (
            alert.title
            ∷ concat (
                "Still open "
                ∷ humanise_hours (now - opened_at state)
                ∷ " after the first alert"
                ∷ [])
            ∷ message_lines alert.message);
        severity = alert.severity;
        alert_severity = some alert.severity;
        service_name = alert.service_name;
        fingerprint = some state.fingerprint;
        transient = false;
        snooze_key = some (snooze_key_for alert state.fingerprint);
        escalation = false;
        reminder = true;
      },
    )

-- Is the previous notification younger than the flap cooldown?
unfoldable pub cooling : NotificationSettings → FingerprintState → ℕ → Bool
cooling settings state now = elim state.last_notified_at [
  | none ↦ false
  | some last ↦ ltb 0 (cooldown settings) && ltb (now - last) (cooldown settings)
]

abbrev pub said :
    FingerprintState
    → Option (FingerprintState × NotificationRequest)
    → FingerprintState × Option NotificationRequest
said state none = (state, none)
said state (some (s, r)) = (s, some r)

-- The end of `_consider`, for an alert that may interrupt.
unfoldable pub speak :
    NotificationSettings
    → AlertInfo
    → FingerprintState
    → ℕ
    → Bool
    → FingerprintState × Option NotificationRequest
speak settings alert state now first_poll =
    if state.notified_this_episode
    then (elim (maybe_escalate settings alert state now) [
      | none ↦ said state (remind settings alert state now)
      | some loud ↦ said state (some loud)
    ])
    else if cooling settings state now
    then (
      if first_poll
          then record state { suppressed_episodes = state.suppressed_episodes + 1 }
          else state,
      none,
    )
    else said state (some (first_notification settings alert state now))

-- Digest mode: a warning queues up when its episode opens.
enqueue : NotificationPolicy → AlertInfo → ℕ → Bool → NotificationPolicy
enqueue p alert now first_poll =
    if first_poll
    then record p {
      digest = p.digest ++ (alert.severity, alert.title) ∷ [];
      digest_started_at = elim p.digest_started_at [ none ↦ some now | some t ↦ some t ];
    }
    else p

consider_audible :
    NotificationPolicy
    → AlertInfo
    → FingerprintState
    → ℕ
    → Bool
    → NotificationPolicy × Option NotificationRequest
consider_audible p alert state now first_poll =
    if p.settings.digest_mode && not (str_eq alert.severity "critical")
    then (enqueue p alert now first_poll, none)
    else let (s, r) = speak p.settings alert state now first_poll in (put_state p s, r)

-- `_consider`
unfoldable pub consider :
    NotificationPolicy
    → AlertInfo
    → FingerprintState
    → ℕ
    → Bool
    → Quiet
    → NotificationPolicy × Option NotificationRequest
unfolding consider_audible enqueue
consider p alert state now first_poll quiet =
    if ltb (level_or 0 alert.severity) (min_severity_level p.settings)
    then (p, none)
    else if is_muted p.settings alert
    then (p, none)
    else let (q, snoozed) = alert_snoozed p state.fingerprint alert.service_name now in
      if snoozed
      then (q, none)
      else if suppressed_by_dnd q.settings alert.severity quiet
      then (q, none)
      else consider_audible q alert state now first_poll
