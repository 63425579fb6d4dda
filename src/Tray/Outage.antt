-- ===== src/Tray/Outage.antt =====
-- sysadmin_tray/notifications.py: what lets `evaluate_backend_unreachable` speak.
pub mod Cooling
pub mod Flaps
use sysadmin_assistant.Shared.{
  ℕ, ◌+◌, ◌≤◌, ◌<◌, ◌≡◌, refl, ap, ◌∙◌, sym, subst, ◌-◌, ltb, ◌&&◌, if_cases, not, ◌||◌, leb, ◌⊎◌,
  inl, inr, Bool, true, false, Option, none, some, List, [], ◌∷◌, arith,
}
use sysadmin_assistant.Shared.Dict.{lookup, insert, lookup-insert_self}
use sysadmin_assistant.Shared.Text.{concat}
use sysadmin_assistant.Tray.Data.{
  NotificationRequest, NotificationSettings, FingerprintState, NotificationPolicy, Quiet, level_or,
  min_severity_level, fp_backend_unreachable, backend_unreachable_severity,
}
use sysadmin_assistant.Tray.Rules.{alert_snoozed, is_snoozed, suppressed_by_dnd}
use sysadmin_assistant.Tray.Speak.{put_state, cooldown, cooling, reminder_due}
use sysadmin_assistant.Tray.Poll.{state_or_new, opened, closed}
use sysadmin_assistant.Tray.Poll.Effects.{alert_snoozed_keeps}
use sysadmin_assistant.Tray.Poll.Keyed.{IsKeyed, state_or_new_named}
use sysadmin_assistant.Tray.Backend.{
  evaluate_backend_unreachable, backend_statement, backend_reachable,
}

-- The tray speaks of an unreachable backend only when it is enabled, the grace is set and has
-- passed, and neither a snooze nor a do-not-disturb holds a critical back.
pub evaluate_backend_unreachable_gates :
    (p : NotificationPolicy) (age : ℕ) (quiet : Quiet) (now : ℕ) (r : NotificationRequest)
    → (evaluate_backend_unreachable p age quiet now).1 ≡ some r
    → (p.settings.enabled ≡ true)
      × (0 < p.settings.backend_unreachable_grace_seconds)
      × (p.settings.backend_unreachable_grace_seconds ≤ age)
      × ((is_snoozed p "fp:sysadmin:backend-unreachable" now).1 ≡ false)
      × (suppressed_by_dnd p.settings "critical" quiet ≡ false)
unfolding evaluate_backend_unreachable alert_snoozed is_snoozed concat
evaluate_backend_unreachable_gates p age quiet now r e =
    let s = opened (
      state_or_new (lookup fp_backend_unreachable p.states) fp_backend_unreachable
        backend_unreachable_severity) in
    ground (arith, e, alert_snoozed_keeps (put_state p s) fp_backend_unreachable none now)

-- The status polls of the tray, each at a reading: one that failed, after so long an outage, or one
-- that the backend answered. What each says.
unfoldable pub status_polls :
    NotificationPolicy → List (ℕ × Option (ℕ × Quiet)) → List (Option NotificationRequest)
status_polls p [] = []
status_polls p ((now, none) ∷ polls) = none ∷ status_polls (backend_reachable p) polls
status_polls p ((now, some (age, quiet)) ∷ polls) =
    let (q, said) = evaluate_backend_unreachable p age quiet now in said ∷ status_polls q polls

-- Are all the readings within so long of `t`, and not before it?
abbrev pub InWindow : ℕ → ℕ → List (ℕ × Option (ℕ × Quiet)) → Type 0
InWindow t window [] = Unit
InWindow t window ((now, poll) ∷ polls) = (t ≤ now) × (now < t + window) × InWindow t window polls

abbrev pub all_silent : List (Option NotificationRequest) → Bool
all_silent [] = true
all_silent (none ∷ rest) = all_silent rest
all_silent (some r ∷ rest) = false
