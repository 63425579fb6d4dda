-- ===== src/Escalation/Phrase.antt =====
-- The phrase for an elapsed time: which number and unit it names.
use sysadmin_assistant.Shared.{ℕ, ◌+◌, ◌*◌, ◌≤◌, arith}
use sysadmin_assistant.Escalation.{round_div, minute}

-- Rounding to a whole number of minutes or hours is off by half a unit at most.
pub round_div-minute :
    (n : ℕ)
    → (2 * (round_div n minute * minute) ≤ 2 * n + minute)
      × (2 * n ≤ 2 * (round_div n minute * minute) + minute)
unfolding round_div
round_div-minute n = ground arith
