-- ===== src/Tray/Poll/Effects.antt =====
-- What the parts of a poll do to the state of a fingerprint.
use sysadmin_assistant.Shared.{
  ℕ, ◌+◌, ◌≤◌, ◌<◌, String, ◌≡◌, ◌⊎◌, Bool, true, ◌||◌, Option, none, some, arith,
}
use sysadmin_assistant.Shared.Dict.{Dict, lookup, insert}
use sysadmin_assistant.Tray.Data.{
  AlertInfo, NotificationRequest, NotificationSettings, FingerprintState, NotificationPolicy, Quiet,
}
use sysadmin_assistant.Tray.Rules.{is_snoozed, alert_snoozed}
use sysadmin_assistant.Tray.Speak.{
  cooldown, first_notification, maybe_escalate, remind, cooling, speak, consider,
}

-- When a fingerprint last spoke.
abbrev pub last_of : String → Dict FingerprintState → Option ℕ
last_of fp states = elim (lookup fp states) [ none ↦ none | some s ↦ s.last_notified_at ]

abbrev pub Since : ℕ → Option ℕ → Type 0
Since t none = ⊥
Since t (some last) = t ≤ last

abbrev pub Names : String → Option NotificationRequest → Type 0
Names fp none = Unit
Names fp (some r) = r.fingerprint ≡ some fp

-- Is it an escalation, a reminder, or nothing?
abbrev pub IsNotFresh : Option NotificationRequest → Type 0
IsNotFresh none = Unit
IsNotFresh (some r) = (r.escalation || r.reminder) ≡ true

is_snoozed_keeps :
    (p : NotificationPolicy) (key : String) (now : ℕ)
    → ((is_snoozed p key now).0.states ≡ p.states)
      × ((is_snoozed p key now).0.settings ≡ p.settings)
unfolding is_snoozed
is_snoozed_keeps p key now = ground arith

pub alert_snoozed_keeps :
    (p : NotificationPolicy) (fp : String) (service : Option String) (now : ℕ)
    → ((alert_snoozed p fp service now).0.states ≡ p.states)
      × ((alert_snoozed p fp service now).0.settings ≡ p.settings)
unfolding alert_snoozed
alert_snoozed_keeps p fp service now = grind (arith, is_snoozed_keeps)

-- `_consider` writes what `speak` decides, or leaves the states alone and says nothing.
abbrev pub Considered :
    NotificationPolicy
    → FingerprintState × Option NotificationRequest
    → NotificationPolicy × Option NotificationRequest
    → Type 0
Considered p spoken out =
    (out.0.settings ≡ p.settings)
    × (((out.1 ≡ none) × (out.0.states ≡ p.states))
        ⊎ ((out.1 ≡ spoken.1) × (out.0.states ≡ insert spoken.0.fingerprint spoken.0 p.states)))

pub consider-Considered :
    (p : NotificationPolicy) (alert : AlertInfo) (s : FingerprintState) (now : ℕ) (first : Bool)
    (quiet : Quiet)
    → Considered p (speak p.settings alert s now first) (consider p alert s now first quiet)
unfolding consider
consider-Considered p alert s now first quiet =
    ground (arith, alert_snoozed_keeps p s.fingerprint alert.service_name now)

module _ (settings : NotificationSettings) (alert : AlertInfo) (s : FingerprintState)
    (now : ℕ) where
  -- What an alert produces bears its own fingerprint.
  pub speak-Names :
      (first : Bool)
      → ((speak settings alert s now first).0.fingerprint ≡ s.fingerprint)
        × Names s.fingerprint (speak settings alert s now first).1
  unfolding speak maybe_escalate remind first_notification
  speak-Names first = ground arith

  -- Inside the flap cooldown nothing fresh is said, and what is said is said later.
  pub speak_in_window :
      (first : Bool) (t : ℕ)
      → Since t s.last_notified_at
      → t ≤ now
      → now < t + cooldown settings
      → Since t (speak settings alert s now first).0.last_notified_at
        × IsNotFresh (speak settings alert s now first).1
  unfolding speak maybe_escalate remind first_notification cooling
  speak_in_window first t h le lt = ground arith
