-- ===== src/Tray/Outage/Flaps.antt =====
-- Outages of the backend that follow an announced one inside the flap cooldown.
use sysadmin_assistant.Shared.{ℕ, ◌≡◌, ◌⊎◌, Option, none, some}
use sysadmin_assistant.Shared.Dict.{lookup}
use sysadmin_assistant.Tray.Data.{
  NotificationRequest, NotificationSettings, FingerprintState, NotificationPolicy,
  fp_backend_unreachable,
}

-- What the tray remembers of an outage that it spoke of at `t`.
record Spoken (t : ℕ) (settings : NotificationSettings) (p : NotificationPolicy) : Type 0 where
  state : FingerprintState
  known : lookup fp_backend_unreachable p.states ≡ some state
  named : state.fingerprint ≡ fp_backend_unreachable
  spoke : state.last_notified_at ≡ some t
  same : p.settings ≡ settings

abbrev Remembers :
    ℕ → NotificationSettings → NotificationPolicy × Option NotificationRequest → Type 0
Remembers t settings out = (out.1 ≡ none) ⊎ Spoken t settings out.0
