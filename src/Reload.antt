-- ===== src/Reload.antt =====
-- sysadmin/reload.py: what a reload of the configuration changes, refuses and reports, with
-- `handover_report` of sysadmin/monitor/handover.py. The parsed files, the dump of a model, the
-- agents' pruning and the scheduler are the callers' and the libraries': parameters.
pub mod Leaves
pub mod Diff
pub mod Handover
pub mod Install
