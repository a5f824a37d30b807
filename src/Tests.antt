-- ===== src/Tests.antt =====
-- Runs of the definitions at concrete values, and the theorems applied to them.
mod Snapshot
mod Parser
mod Watcher
mod Polling
mod Impact
mod Ignore
mod Paths
mod Scheduler
mod Planner
mod Trust
mod Git
mod Budget
mod ParseCache
