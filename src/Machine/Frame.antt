-- ===== src/Machine/Frame.antt =====
-- The calls of Machine/Disk.antt change the disk and nothing else of the shared state.
use gitfs.Prelude.{ℕ, Text, ◌≡◌, arith}
use gitfs.Machine.{World}
use gitfs.Machine.Disk.{
  mkdir_all, write_empty, os_remove, os_rename, stat_size, chmod, os_truncate, open_create,
  write_open, write_at,
}

abbrev pub Frame : World → World → Type 0
Frame w w' =
    (w'.table ≡ w.table)
    × (w'.snapshot ≡ w.snapshot)
    × (w'.generation ≡ w.generation)
    × (w'.commit_time ≡ w.commit_time)

pub mkdir_all-Frame : (p : Text) (m : ℕ) (w : World) → Frame w (mkdir_all p m w).1
unfolding mkdir_all
mkdir_all-Frame p m w = ground arith

pub write_empty-Frame : (p : Text) (m : ℕ) (w : World) → Frame w (write_empty p m w).1
unfolding write_empty
write_empty-Frame p m w = ground arith

pub os_remove-Frame : (p : Text) (w : World) → Frame w (os_remove p w).1
unfolding os_remove
os_remove-Frame p w = ground arith

pub os_rename-Frame : (p q : Text) (w : World) → Frame w (os_rename p q w).1
unfolding os_rename
os_rename-Frame p q w = ground arith

pub stat_size-Frame : (p : Text) (w : World) → Frame w (stat_size p w).1
unfolding stat_size
stat_size-Frame p w = ground arith

pub chmod-Frame : (p : Text) (m : ℕ) (w : World) → Frame w (chmod p m w).1
unfolding chmod
chmod-Frame p m w = ground arith

pub os_truncate-Frame : (p : Text) (n : ℕ) (w : World) → Frame w (os_truncate p n w).1
unfolding os_truncate
os_truncate-Frame p n w = ground arith

pub open_create-Frame : (p : Text) (m : ℕ) (w : World) → Frame w (open_create p m w).1
unfolding open_create
open_create-Frame p m w = ground arith

pub write_open-Frame :
    (p : Text) (off : ℕ) (b : Text) (w : World) → Frame w (write_open p off b w).1
unfolding write_open
write_open-Frame p off b w = ground arith

pub write_at-Frame :
    (p : Text) (m off : ℕ) (b : Text) (w : World) → Frame w (write_at p m off b w).1
unfolding write_at
write_at-Frame p m off b w =
    ground (arith, open_create-Frame p m w, write_open-Frame p off b (open_create p m w).1)
