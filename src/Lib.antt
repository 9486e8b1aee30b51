-- ===== src/Lib.antt =====
-- A verification library for ArtifactFS, a file system that mounts a git repository and fetches
-- blobs on demand.
--
-- A snapshot store keeps the nodes of a commit's tree, in numbered generations; an overlay store
-- keeps what was written since, one row for each path, with the contents in backing files. A
-- resolver lays the second over the first, and an engine carries out the file operations on both.
-- A gate keeps FUSE operations waiting until a repository is prepared. A hydrator fetches blobs for
-- readers, and ahead of them. FUSE and io/fs are two faces of the engine. A registry keeps the
-- repositories, a watcher polls their HEAD, and remotes are redacted before they are shown.
--
-- Which file models which part:
--   Path, Path/Names        CleanPath of internal/model/types.go, childName, parentDir, and the parts
--                           of Go's path/filepath that they use, on Unix. Text is a list of bytes.
--   Model                   the records of internal/model/types.go: BaseNode, OverlayEntry, RepoConfig
--   Errors                  Go errors as values
--   Machine, Machine/Disk   the shared state (rows of overlay_entries and base_nodes, files on disk,
--                           the resolver's generation and commit time), functions with errors on it,
--                           SQL transactions, and the calls of Go's os package
--   Gate, Gate/Fuse         ReadyGate of internal/fusefs/ready_gate.go and the wrapper of
--                           internal/fusefs/gated_fs.go. Wait is two critical sections with a receive
--                           between them; Gate/Waiters is a step relation over them.
--   Overlay/Store, Rename, Reconcile, Table
--                           Store of internal/overlay/store.go: Get is get, EnsureCopyOnWrite is
--                           ensure_copy_on_write, Mkdir is make_dir, Rename is rename_path, and the SQL
--                           statements are in Overlay/Table
--   Snapshot, Snapshot/Rows Store of internal/snapshot/store.go, with its SQL statements
--   Resolver, Resolver/Dirents
--                           Resolver of internal/fusefs/merged.go
--   Engine                  Engine of internal/fusefs/ops.go. The hydrator is a parameter. PrefetchDir is
--                           in Hydrator/Prefetch.
--   Hydrator, Hydrator/Queue, Hydrator/Waiters
--                           the queue, the active set and the waiting readers of
--                           internal/hydrator/hydrator.go and inflight.go; Waiters has the critical
--                           sections of all goroutines as a step relation
--   Inodes, Inodes/Bijection
--                           the inode table of internal/fusefs/fuse_unix.go (allocInode, ForgetInode); a
--                           reference count is kept as its lookups and its forgets
--   Hydrator/Prefetch       ClassifyPriority and EnqueueBatch of internal/hydrator/hydrator.go, and
--                           PrefetchDir of internal/fusefs/ops.go
--   Hydrator/Blobs          ReadBlob, validateCachedBlob and step of internal/hydrator/hydrator.go. The
--                           git store is a parameter.
--   Fuse, Fuse/Attributes, Fuse/Directories, Fuse/Files
--                           the operations of ArtifactFuse in internal/fusefs/fuse_unix.go, named as there
--                           in lower case, but unlink_child, rename_child and forget. A state is the inode
--                           table, the two maps of handles and the state below. WriteDirent is known by
--                           the size of an entry.
--   Fuse/Handle             FileHandle of internal/fusefs/fuse_unix.go: read_handle is the whole of read,
--                           and Fuse/Handle/Stale has its critical sections as steps of many readers
--   Adapter                 internal/fsadapter/fsadapter.go over interfaces, with those of
--                           internal/fusefs/fsfs.go in engine_sources
--   Strings, Strings/Search what is used of Go's package strings, on ASCII texts
--   Auth, Auth/Remotes, Auth/Redact, Auth/Log
--                           internal/auth/redact.go: the shapes of remotes, RedactRemoteURL with
--                           HasInlineCredentials, and RedactString. net/url, net.ParseIP and the regular
--                           expression are a record of parameters.
--   Git/Shell, Git/Refs, Git/Records
--                           internal/gitstore/gitstore.go: GIT_SSH_COMMAND (splitShellFields,
--                           sshBatchModeCommand, shellQuote, doubleQuote); the names of refs and the checks
--                           on remotes; the lines of git ls-tree and git cat-file, and the batchPool
--   Git/Tree                BuildTreeIndex and addImplicitDirs of internal/gitstore/gitstore.go, over the
--                           output of the git commands
--   Daemon, Daemon/Settings internal/daemon/daemon.go: AddRepoWithOptions up to the preparation, the
--                           functions on configurations, and applyPrepareState over the registry, a
--                           runtime and its gate
--   Registry                Store of internal/registry/registry.go, as a list of rows
--   Watcher                 Poller of internal/watcher/watcher.go
--   Tests                   runs at concrete states
--
-- What stands outside the code is modelled as it is documented. A table of SQLite is a list of rows,
-- and a transaction leaves all or none of its statements. Each call of the database or of the
-- operating system may fail before it has an effect: the field trouble of the state lists which of
-- the coming calls do, and where it is empty no more calls fail. Time is an argument, now, and one
-- operation reads the clock once. Writes of a file are whole. Permissions are kept but not enforced,
-- and sizes, modes and times are natural numbers. All functions are structural recursions but for two
-- loops on fuel. That of redactRemoteCore has the length of its text, of which each round uses one and
-- takes a byte at least; that of addImplicitDirs has one more than the length of the directory that it
-- starts at, as each further directory is shorter or the top (Path/Lengths).
--
-- Not modelled: opening databases and their schemas, the goroutines of the daemon and its preparation
-- of a repository, running git, mounting, the calls of FUSE that keep no state (StatFS, Flush, Sync,
-- xattr), the channels of a verification in the hydrator, the command line, RepoID (each store serves
-- one repository) and a nil gate.
pub mod Prelude
pub mod Path
pub mod Model
pub mod Errors
pub mod Machine
pub mod Gate
pub mod Overlay
pub mod Snapshot
pub mod Resolver
pub mod Engine
pub mod Hydrator
pub mod Inodes
pub mod Strings
pub mod Fuse
pub mod Daemon
pub mod Registry
pub mod Watcher
pub mod Adapter
pub mod Git
pub mod Auth
pub mod Tests
