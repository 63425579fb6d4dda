-- ===== src/Tray/History.antt =====
-- A history of the tray: the calls that tray_icon.py makes on the policy, each at a clock reading
-- (sysadmin_tray/tray_icon.py).
use sysadmin_assistant.Shared.{ℕ, String, Option, List, [], ◌∷◌}
use sysadmin_assistant.Tray.Data.{AlertInfo, NotificationPolicy, Quiet}
use sysadmin_assistant.Tray.Rules.{snooze}
use sysadmin_assistant.Tray.Poll.{evaluate}
use sysadmin_assistant.Tray.Backend.{evaluate_backend_unreachable, backend_reachable}

pub data Call : Type 0 where
  polls : List AlertInfo → Quiet → Call
  snoozes : String → Option ℕ → Call
  unreachable : ℕ → Quiet → Call
  reachable : Call

unfoldable pub step : NotificationPolicy → ℕ × Call → NotificationPolicy
step p (now, polls alerts quiet) = (evaluate p alerts quiet now).0
step p (now, snoozes key minutes) = snooze p key minutes now
step p (now, unreachable age quiet) = (evaluate_backend_unreachable p age quiet now).0
step p (now, reachable) = backend_reachable p

unfoldable pub run : NotificationPolicy → List (ℕ × Call) → NotificationPolicy
unfolding step
run p [] = p
run p (c ∷ cs) = run (step p c) cs
