-- ===== src/Watch.antt =====
-- The watch over the agents: sysadmin/monitor/stalls.py (an agent that does not run) and
-- sysadmin/monitor/failures.py (an agent whose runs fail).
pub mod Entry
pub mod Stalls
pub mod Failures
pub mod Liveness
pub mod Health
