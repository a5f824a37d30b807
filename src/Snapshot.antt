-- ===== src/Snapshot.antt =====
-- crates/hyperindex-protocol/src/snapshot.rs and buffers.rs: the snapshot data. A composed snapshot
-- is a base commit, a working-tree overlay above it and editor buffers above both.
pub mod Overlays
pub mod Manifest
pub mod Assembly
use repo_hyperindex.Base.{ℕ, Option, List}
use repo_hyperindex.Base.Text.{Text}

pub data BaseSnapshotKind : Type 0 where
  git_commit : BaseSnapshotKind

pub record SnapshotFile : Type 0 where
  pub path : Text
  pub content_sha256 : Text
  pub content_bytes : ℕ
  pub contents : Text

pub record BaseSnapshot : Type 0 where
  pub kind : BaseSnapshotKind
  pub commit : Text
  pub digest : Text
  pub file_count : ℕ
  pub files : List SnapshotFile

pub data OverlayEntryKind : Type 0 where
  upsert delete : OverlayEntryKind

pub record WorkingTreeEntry : Type 0 where
  pub path : Text
  pub kind : OverlayEntryKind
  pub content_sha256 : Option Text
  pub content_bytes : Option ℕ
  pub contents : Option Text

pub record WorkingTreeOverlay : Type 0 where
  pub digest : Text
  pub entries : List WorkingTreeEntry

pub record BufferOverlay : Type 0 where
  pub buffer_id : Text
  pub path : Text
  pub version : ℕ
  pub content_sha256 : Text
  pub content_bytes : ℕ
  pub contents : Text

pub record ComposedSnapshot : Type 0 where
  pub version : ℕ
  pub protocol_version : Text
  pub snapshot_id : Text
  pub repo_id : Text
  pub repo_root : Text
  pub base : BaseSnapshot
  pub working_tree : WorkingTreeOverlay
  pub buffers : List BufferOverlay

pub record SnapshotDiffResponse : Type 0 where
  pub left_snapshot_id : Text
  pub right_snapshot_id : Text
  pub changed_paths : List Text
  pub added_paths : List Text
  pub deleted_paths : List Text
  pub buffer_only_changed_paths : List Text

pub record BufferState : Type 0 where
  pub buffer_id : Text
  pub repo_id : Text
  pub path : Text
  pub version : ℕ
  pub language : Option Text
  pub content_sha256 : Text
  pub content_bytes : ℕ

pub record BufferContents : Type 0 where
  pub state : BufferState
  pub contents : Text
