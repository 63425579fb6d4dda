-- ===== src/Tests/Replay.antt =====
-- Two units that failed, and a server that is there at the third question.
use sysadmin_assistant.Shared.{ℕ, zero, suc, ◌*◌, String, Bool, true, List, [], ◌∷◌}
use sysadmin_assistant.Escalation.{Datetime, hour}
use sysadmin_assistant.FailureReplay.{Run, exited, PendingFailure}

abbrev runs : ℕ → Run
runs zero = exited 1 "" "nobody"
runs (suc zero) = exited 1 "" "nobody"
runs (suc (suc n)) = exited 0 "here" ""

abbrev clock : ℕ → ℕ
clock n = n

abbrev moments : ℕ → Datetime
moments n = record { micros = 9 * hour; aware = true }

abbrev lands : ℕ → Bool
lands n = true

abbrev failure : String → PendingFailure
failure unit = record {
  unit = unit;
  title = "Unit failed";
  message = "exited";
  created_at = record { micros = 6 * hour; aware = true };
}

abbrev pending : List PendingFailure
pending = failure "sysadmin.service" ∷ failure "backup.service" ∷ []
