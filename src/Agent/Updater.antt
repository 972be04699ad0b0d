-- ===== src/Agent/Updater.antt =====
-- src/agent/updater/updater.go: the agent's update of itself.
pub mod Version
pub mod Numbers
pub mod Disk
pub mod Throttle
pub mod Rollback
pub mod Apply
pub mod SelfCheck
pub mod Guards
pub mod Blacklist
pub mod Operations
pub mod Life
pub mod Trim
pub mod Backoff
pub mod Stash
pub mod Restore
mod Tests
