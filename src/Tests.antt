-- ===== src/Tests.antt =====
-- Concrete runs of the modelled code, and the theorems at concrete inputs.
mod Policy
mod Waiting
mod Monitor
mod Liveness
mod Files
mod Reload
mod Runs
mod Reliability
mod Focus
mod Texts
mod Replay
mod Units
