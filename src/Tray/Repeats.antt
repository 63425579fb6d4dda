-- ===== src/Tray/Repeats.antt =====
-- What is said again about an alert that stays: the escalation of a critical. Reminders has the
-- reminders.
pub mod Reminders
use sysadmin_assistant.Shared.{
  ℕ, zero, suc, ◌+◌, ◌*◌, ◌≤◌, ◌<◌, String, ◌≡◌, refl, Bool, true, false, not, Option, none, some,
  List, [], ◌∷◌, arith, ltb, ◌==◌, if◌then◌else◌, inl, inr, Option-cases, str_eq,
}
use sysadmin_assistant.Tray.Data.{
  AlertInfo, NotificationRequest, NotificationSettings, FingerprintState, new_state,
}
use sysadmin_assistant.Tray.Speak.{
  first_notification, maybe_escalate, reminder_due, remind, cooling, speak,
}
use sysadmin_assistant.Tray.Poll.{opened}

abbrev pub severity_said : Option NotificationRequest → Option String
severity_said none = none
severity_said (some r) = some r.severity

-- The severities of what is said of an alert that is in every poll, from the `i`-th poll on.
unfoldable pub persisting :
    NotificationSettings → AlertInfo → (ℕ → ℕ) → FingerprintState → ℕ → ℕ → List (Option String)
persisting settings alert clock s i zero = []
persisting settings alert clock s i (suc k) =
    let out = speak settings alert (opened s) (clock i) (not s.episode_open) in
    severity_said out.1 ∷ persisting settings alert clock out.0 (suc i) k

-- Quiet at the first poll, loud at the `n`-th, and nothing else.
abbrev planned : ℕ → ℕ → Option String
planned n i = if i == 1 then some "info" else if i == n then some "critical" else none

abbrev plan : ℕ → ℕ → ℕ → List (Option String)
plan n i zero = []
plan n i (suc k) = planned n i ∷ plan n (suc i) k

module _ (settings : NotificationSettings) (alert : AlertInfo)
    (critical : str_eq alert.severity "critical" ≡ true) (silent : settings.reminder_hours ≡ 0)
    (several : 1 < settings.escalation_polls) where
  -- The state before the `i`-th poll, once the episode was announced.
  record Announced (i : ℕ) (s : FingerprintState) : Type 0 where
    polls : s.polls_active + 1 ≡ i
    told : s.notified_this_episode ≡ true
    loud : s.escalated ≡ ltb settings.escalation_polls i

  speak-Announced :
      (i : ℕ) (s : FingerprintState) (now : ℕ) (first : Bool)
      → 1 < i
      → Announced i s
      → Announced (suc i) (speak settings alert (opened s) now first).0
        × (severity_said (speak settings alert (opened s) now first).1
            ≡ planned settings.escalation_polls i)
  unfolding speak maybe_escalate remind reminder_due
  speak-Announced i s now first later h =
      (record { polls = ground arith; told = ground arith; loud = ground arith }, ground arith)

  first-Announced :
      (fp : String) (now : ℕ) (first : Bool)
      → Announced 2 (speak settings alert (opened (new_state fp alert.severity)) now first).0
  unfolding speak cooling first_notification new_state
  first-Announced fp now first = record {
    polls = ground arith;
    told = ground arith;
    loud = ground arith;
  }

  speak-first :
      (fp : String) (now : ℕ) (first : Bool)
      → severity_said (speak settings alert (opened (new_state fp alert.severity)) now first).1
        ≡ some "info"
  unfolding speak cooling first_notification new_state
  speak-first fp now first = ground arith

  persisting-Announced :
      (clock : ℕ → ℕ) (k i : ℕ) (s : FingerprintState)
      → 1 < i
      → Announced i s
      → persisting settings alert clock s i k ≡ plan settings.escalation_polls i k
  unfolding persisting
  persisting-Announced clock zero i s later h = refl
  persisting-Announced clock (suc k) i s later h =
      let first = not s.episode_open in
      let (next, spoken) = speak-Announced i s (clock i) first later h in
      cc (
        spoken,
        persisting-Announced clock k (suc i) (speak settings alert (opened s) (clock i) first).0
            (omega arith) next,
      )

  -- A critical alert that is in every poll from its first one on, where nothing holds it back, the
  -- reminders are off and the escalation waits for more than one poll: it is spoken of quietly, at
  -- `info`, in the first poll, loudly, at `critical`, in the poll that the escalation waits for, and in
  -- no other, however many polls there are and whenever they come.
  pub quiet_then_loud :
      (fp : String) (clock : ℕ → ℕ) (k : ℕ)
      → persisting settings alert clock (new_state fp alert.severity) 1 k
        ≡ plan settings.escalation_polls 1 k
  unfolding persisting speak new_state
  quiet_then_loud fp clock zero = refl
  quiet_then_loud fp clock (suc k) =
      let out = speak settings alert (opened (new_state fp alert.severity)) (clock 1) true in
      cc (
        speak-first fp (clock 1) true,
        persisting-Announced clock k 2 out.0 (omega arith) (first-Announced fp (clock 1) true),
      )
