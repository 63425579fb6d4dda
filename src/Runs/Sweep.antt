-- ===== src/Runs/Sweep.antt =====
-- The sweep of the rows that a dead process left running.
use sysadmin_assistant.Shared.{String, ◌≡◌, false}
use sysadmin_assistant.Runs.{RunRow, is_abandoned}

abbrev pub Unabandoned : String → RunRow → Type 0
Unabandoned process row = is_abandoned process row ≡ false
