-- ===== src/Watcher.antt =====
-- crates/hyperindex-watcher: the stream of events that the watcher hands to the snapshots, and the
-- patterns of the paths that it leaves out.
pub mod Stream
pub mod Ignore
pub mod Polling
pub mod Tree
pub mod Service
