-- ===== src/Tray.antt =====
-- sysadmin_tray/notifications.py: the notification policy of the tray, one module for each group of
-- its methods, with the proofs in modules named for what they prove.
pub mod Data
pub mod Copy
pub mod Rules
pub mod Speak
pub mod Digest
pub mod Poll
pub mod Backend
pub mod History
pub mod Calm
pub mod Gates
pub mod Repeats
pub mod Summary
pub mod Waiting
pub mod Outage
