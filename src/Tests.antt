-- ===== src/Tests.antt =====
-- Runs of the model at concrete states, and the theorems applied to them.
mod Worlds
mod Gate
mod Path
mod Overlay
mod Rename
mod Snapshot
mod Engine
mod Hydrator
mod Inodes
mod Git
mod Auth
mod Fuse
mod Daemon
mod Registry
mod Watcher
mod Adapter
