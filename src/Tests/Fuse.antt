-- ===== src/Tests/Fuse.antt =====
-- Runs of internal/fusefs/fuse_unix.go.
use gitfs.Prelude.{
  ℕ, Text, text_eq, All, ◌+◌, ◌*◌, ◌/◌, ◌≤◌, bytes, true, false, none, some, [], ◌∷◌, length, ◌≡◌,
  ◌≢◌, refl, arith,
}
use gitfs.Machine.{DiskNode}
use gitfs.Inodes.{root}
use gitfs.Resolver.Dirents.{ReaddirEntry, overlay_entry}
use gitfs.Fuse.{Mount, new_mount, DirHandle, done, gitfile_name}
use gitfs.Fuse.Handle.{FileHandle, new_file_handle, begin_read, install, hit}
use gitfs.Fuse.Handle.Stale.{
  System, new_system, fetched, Reach, start, later, begins, fetches, writes, closes, no_stale_read,
  served_late, at_reader,
}
use gitfs.Fuse.Directories.{Dirent}
use gitfs.Fuse.Directories.Paging.{listing, dirents, listing_complete}
use gitfs.Fuse.Files.{write_file, read_file}
use gitfs.Fuse.Files.ReadBack.{read_file-write_file}
use gitfs.Tests.Worlds.{hydrator, repo, clean_world, modified_a, disk_file}

abbrev blob : DiskNode
blob = disk_file (bytes "/c/f0") (bytes "old")

-- A reader has opened the blob when a write comes, which closes the cached files at its end.
abbrev first_asks : System
first_asks = record (new_system (bytes "a") 1 false) {
  readers = at_reader 0 (gitfs.Fuse.Handle.Stale.asked 0) (λ r. gitfs.Fuse.Handle.Stale.outside);
}

abbrev written : System
written = record {
  handle = gitfs.Fuse.Handle.close_cached_file first_asks.handle;
  generation = 1;
  in_overlay = true;
  settled = true;
  misled = false;
  readers = at_reader 0 (fetched 0 1 blob) first_asks.readers;
}

first_asks_reached : Reach first_asks
unfolding begin_read
first_asks_reached = later (start (bytes "a") 1 false) (begins 0)

written_reached : Reach written
unfolding at_reader
written_reached = later (later (later first_asks_reached (fetches 0 0 1 blob refl)) writes) closes

no_stale_read_example :
    ((begin_read written.generation written.handle).0 ≢ hit blob)
    × (served_late written (written.readers 0) ≡ none)
no_stale_read_example = no_stale_read written_reached refl refl 0 blob

abbrev named : Text → ReaddirEntry
named t = overlay_entry t modified_a

abbrev three : DirHandle
three = record {
  inode = root;
  entries = named (bytes "x") ∷ (named (bytes "y") ∷ (named (bytes "z") ∷ []));
}

abbrev mounted : Mount
mounted = record (new_mount clean_world) { dir_handles = λ i. some three }

-- What an entry takes in the buffer: a header of 24 bytes, and the name filled up to 8 bytes.
abbrev entry_size : Dirent → ℕ
entry_size d = 24 + (length d.name + 7) / 8 * 8

three_fit : All (λ d. entry_size d ≤ 64) (dirents 0 three.entries)
unfolding dirents
three_fit = (omega arith, (omega arith, (omega arith, tt)))

listing_complete_example :
    listing entry_size (length three.entries) 1 64 0 mounted ≡ dirents 0 three.entries
listing_complete_example = listing_complete entry_size 1 64 mounted three refl three_fit

-- A handle of a new path, which has a cache file open.
abbrev opened : FileHandle
opened = record (new_file_handle (bytes "n")) { cache_file = some blob }

abbrev writing : Mount
writing = record (new_mount clean_world) { file_handles = λ i. some opened }

opened_is_not_gitfile : text_eq opened.path gitfile_name ≡ false
unfolding text_eq
opened_is_not_gitfile = refl

write_file_ok :
    ((write_file hydrator repo 3 2 (bytes "hi") 9 writing).0 ≡ done tt)
    × ((write_file hydrator repo 3 2 (bytes "hi") 9 writing).1.world.trouble ≡ [])
unfolding write_file gitfs.Fuse.file_handle gitfs.Fuse.close_cached_files_for_path
    gitfs.Engine.write gitfs.Engine.ensure_overlay gitfs.Overlay.Store.get
    gitfs.Overlay.Table.select gitfs.Resolver.resolve_path gitfs.Resolver.base_node
    gitfs.Snapshot.get_node gitfs.Snapshot.Rows.find_row text_eq gitfs.Path.clean_path
    gitfs.Path.clean gitfs.Path.join_words gitfs.Path.split gitfs.Path.push_word
    gitfs.Overlay.Store.create_file gitfs.Machine.Disk.mkdir_all gitfs.Machine.Disk.find_node
    gitfs.Machine.Disk.write_empty gitfs.Machine.Disk.drop_node gitfs.Machine.Disk.open_create
    gitfs.Machine.Disk.put_node gitfs.Machine.Disk.stat_size gitfs.Machine.Disk.write_at
    gitfs.Machine.Disk.write_open gitfs.Overlay.Store.backing_path gitfs.Overlay.Store.upsert_entry
    gitfs.Overlay.Store.write_entry gitfs.Overlay.Store.write_file gitfs.Overlay.Table.delete_path
    gitfs.Overlay.Table.upsert gitfs.Path.Names.dir gitfs.Path.Names.up_to_slash gitfs.Path.join
    gitfs.Prelude.keep
write_file_ok = (refl, refl)

read_file-write_file_example :
    (read_file hydrator repo 3 2
      (length (bytes "hi"))
      (write_file hydrator repo 3 2 (bytes "hi") 9 writing).1).0
    ≡ done (bytes "hi")
read_file-write_file_example =
    read_file-write_file hydrator repo 3 2 (bytes "hi") 9 writing opened refl opened_is_not_gitfile
      write_file_ok.0 write_file_ok.1
