-- ===== src/Overlay.antt =====
-- internal/overlay/store.go: the writable layer, one row of `overlay_entries` for each path that
-- differs from the snapshot, with the contents in backing files.
pub mod Table
pub mod Rows
pub mod Effects
pub mod Contents
pub mod Absent
pub mod Store
pub mod Backed
pub mod Rename
pub mod Moves
pub mod Renamed
pub mod Journey
pub mod Reconcile
pub mod Pruned
pub mod Created
pub mod Survivors
