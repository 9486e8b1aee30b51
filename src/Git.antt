-- ===== src/Git.antt =====
-- internal/gitstore/gitstore.go: what the git store does with the texts around git.
pub mod Shell
pub mod Refs
pub mod Records
pub mod Tree
