-- ===== src/Fuse/Handle/Stale.antt =====
-- Readers and writers that share a file handle of internal/fusefs/fuse_unix.go: their critical
-- sections as steps, in any order.
use gitfs.Prelude.{
  ℕ, suc, ◌<◌, ◌≤◌, Text, Bool, true, false, ◌||◌, Option, none, ◌≡◌, ◌≢◌, refl, arith, ◌==◌,
  if◌then◌else◌,
}
use gitfs.Machine.{DiskNode}
use gitfs.Fuse.Handle.{
  FileHandle, new_file_handle, close_cached_file, Begun, hit, dropped, missed, begin_read, install,
}

-- Where a reader stands in `read`: outside, after it closed an old file, with its `seq`, or with the
-- cache file that it opened.
pub data Phase : Type 0 where
  outside reopening : Phase
  asked : ℕ → Phase
  fetched : ℕ → ℕ → DiskNode → Phase

-- `in_overlay` says whether the overlay has the path of the handle. `settled` is a note for the
-- proof: the cached files were closed since the overlay got the path. `misled` notes that a reader
-- opened a cache file though the overlay had the path, as `Get` gives no row when its query fails.
pub record System : Type 0 where
  pub handle : FileHandle
  pub generation : ℕ
  pub in_overlay : Bool
  pub settled : Bool
  pub misled : Bool
  pub readers : ℕ → Phase

abbrev pub new_system : Text → ℕ → Bool → System
new_system p gen covered = record {
  handle = new_file_handle p;
  generation = gen;
  in_overlay = covered;
  settled = false;
  misled = false;
  readers = λ r. outside;
}

unfoldable pub at_reader : ℕ → Phase → (ℕ → Phase) → ℕ → Phase
at_reader r p f i = if r == i then p else f i

abbrev pub phase_after : Begun → Phase
phase_after (hit f) = outside
phase_after dropped = reopening
phase_after (missed seq) = asked seq

-- `closes` and `writes` are the calls of WriteFile and its like; `reverts` is an overlay row that goes
-- away, and `moves` is SetGeneration.
pub data Step (s : System) : System → Type 0 where
  begins :
      (r : ℕ)
      → Step s (record s {
        handle = (begin_read s.generation s.handle).1;
        readers = at_reader r (phase_after (begin_read s.generation s.handle).0) s.readers;
      })
  asks :
      (r : ℕ)
      → s.readers r ≡ reopening
      → Step s (record s { readers = at_reader r (asked s.handle.invalidate_seq) s.readers })
  fetches :
      (r seq gen : ℕ) (f : DiskNode)
      → s.readers r ≡ asked seq
      → Step s (record s {
        misled = s.misled || s.in_overlay;
        readers = at_reader r (fetched seq gen f) s.readers;
      })
  installs :
      (r seq gen : ℕ) (f : DiskNode)
      → s.readers r ≡ fetched seq gen f
      → Step s (record s {
        handle = (install seq gen s.generation f s.handle).1;
        readers = at_reader r outside s.readers;
      })
  leaves : (r : ℕ) → Step s (record s { readers = at_reader r outside s.readers })
  closes : Step s (record s { handle = close_cached_file s.handle; settled = s.in_overlay })
  writes : Step s (record s { in_overlay = true })
  reverts : Step s (record s { in_overlay = false; settled = false })
  moves : (gen : ℕ) → Step s (record s { generation = gen })

pub data Reach : System → Type 0 where
  start : (p : Text) (gen : ℕ) (covered : Bool) → Reach (new_system p gen covered)
  later : {s s' : System} → Reach s → Step s s' → Reach s'

abbrev seq_of : Phase → ℕ
seq_of (asked seq) = seq
seq_of (fetched seq gen f) = seq
seq_of _ = 0

abbrev fetched_seq : Phase → ℕ
fetched_seq (fetched seq gen f) = seq
fetched_seq _ = 0

record IsSafe (s : System) : Type 0 where
  bounded : (r : ℕ) → seq_of (s.readers r) ≤ s.handle.invalidate_seq
  covered : s.settled ≡ true → s.in_overlay ≡ true
  closed : s.settled ≡ true → s.misled ≡ false → s.handle.cache_file ≡ none
  late :
      (r : ℕ)
      → s.settled ≡ true
      → s.misled ≡ false
      → fetched_seq (s.readers r) < s.handle.invalidate_seq

fetched_lt : (p : Phase) (n : ℕ) → seq_of p ≤ n → fetched_seq p < suc n
fetched_lt outside n h = omega arith
fetched_lt reopening n h = omega arith
fetched_lt (asked seq) n h = omega arith
fetched_lt (fetched seq gen f) n h = omega arith

Step-IsSafe : {s s' : System} → Step s s' → IsSafe s → IsSafe s'
unfolding at_reader begin_read install close_cached_file
Step-IsSafe {s} (begins r) v = record {
  bounded = λ i. ground (arith, v.bounded i);
  covered = λ h. ground (arith, v.covered);
  closed = λ h n. ground (arith, v.closed);
  late = λ i h n. ground (arith, v.late i, v.closed);
}
Step-IsSafe {s} (asks r e) v = record {
  bounded = λ i. ground (arith, v.bounded i);
  covered = v.covered;
  closed = v.closed;
  late = λ i h n. ground (arith, v.late i);
}
Step-IsSafe {s} (fetches r seq gen f e) v = record {
  bounded = λ i. ground (arith, v.bounded i, v.bounded r);
  covered = v.covered;
  closed = λ h n. ground (arith, v.closed);
  late = λ i h n. ground (arith, v.late i, v.covered);
}
Step-IsSafe {s} (installs r seq gen f e) v = record {
  bounded = λ i. ground (arith, v.bounded i);
  covered = λ h. ground (arith, v.covered);
  closed = λ h n. ground (arith, v.closed, v.late r);
  late = λ i h n. ground (arith, v.late i, v.late r, v.closed);
}
Step-IsSafe {s} (leaves r) v = record {
  bounded = λ i. ground (arith, v.bounded i);
  covered = v.covered;
  closed = v.closed;
  late = λ i h n. ground (arith, v.late i);
}
Step-IsSafe {s} closes v = record {
  bounded = λ i. ground (arith, v.bounded i);
  covered = λ h. h;
  closed = λ h n. refl;
  late = λ i h n. fetched_lt (s.readers i) s.handle.invalidate_seq (v.bounded i);
}
Step-IsSafe {s} writes v = record {
  bounded = v.bounded;
  covered = λ h. refl;
  closed = v.closed;
  late = v.late;
}
Step-IsSafe {s} reverts v = record {
  bounded = v.bounded;
  covered = λ h. cc;
  closed = λ h n. cc;
  late = λ i h n. absurd (cc);
}
Step-IsSafe {s} (moves gen) v = record {
  bounded = v.bounded;
  covered = v.covered;
  closed = v.closed;
  late = v.late;
}

Reach-IsSafe : {s : System} → Reach s → IsSafe s
Reach-IsSafe (start p gen covered) = record {
  bounded = λ i. omega arith;
  covered = λ h. cc;
  closed = λ h n. cc;
  late = λ i h n. absurd (cc);
}
Reach-IsSafe (later r st) = Step-IsSafe st (Reach-IsSafe r)

-- The cache file that a reader is served from if it goes on with `install` now.
abbrev pub served_late : System → Phase → Option DiskNode
served_late s (fetched seq gen f) = (install seq gen s.generation f s.handle).0
served_late s _ = none

served_late-none :
    (s : System) (p : Phase) → fetched_seq p < s.handle.invalidate_seq → served_late s p ≡ none
unfolding install
served_late-none s outside h = refl
served_late-none s reopening h = refl
served_late-none s (asked seq) h = refl
served_late-none s (fetched seq gen f) h = ground arith

-- In every reachable state in which the overlay has the path, and the cached files were closed after
-- it got it, no reader is served from a file of the blob cache: none that begins, whichever readers
-- there are, and none that opened one before. The condition is that no failed query of the overlay
-- let a reader open a cache file while the overlay had the path.
pub no_stale_read :
    {s : System}
    → Reach s
    → s.settled ≡ true
    → s.misled ≡ false
    → (r : ℕ) (g : DiskNode)
    → ((begin_read s.generation s.handle).0 ≢ hit g) × (served_late s (s.readers r) ≡ none)
unfolding begin_read
no_stale_read {s} reach h n r g =
    let v : IsSafe s = Reach-IsSafe reach in
    (ground (arith, v.closed h n), served_late-none s (s.readers r) (v.late r h n))
