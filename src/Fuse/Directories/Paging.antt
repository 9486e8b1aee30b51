-- ===== src/Fuse/Directories/Paging.antt =====
-- A directory that is read in pages, by ReadDir of internal/fusefs/fuse_unix.go.
use gitfs.Prelude.{
  ℕ, zero, suc, ◌+◌, ◌-◌, ◌≤◌, some, List, [], ◌∷◌, ◌++◌, length, drop, leb, All, ◌≡◌, refl, subst,
  ap, sym, ◌∙◌, arith, Bool-cases, inl, inr,
}
use gitfs.Resolver.Dirents.{ReaddirEntry}
use gitfs.Fuse.{Mount, Reply, done, failed, DirHandle, dir_handle}
use gitfs.Fuse.Directories.{Dirent, dirent_at, write_dirents, read_dir}

-- Every entry with the offset behind it, the first at offset `i`.
unfoldable pub dirents : ℕ → List ReaddirEntry → List Dirent
dirents i [] = []
dirents i (e ∷ es) = dirent_at i e ∷ dirents (suc i) es

-- Where the kernel goes on: at the offset of the last entry of the page.
unfoldable pub next_offset : ℕ → List Dirent → ℕ
next_offset i [] = i
next_offset i (d ∷ ds) = next_offset d.offset ds

drop-nil : (n : ℕ) → drop {A = ReaddirEntry} n [] ≡ []
drop-nil zero = refl
drop-nil (suc n) = refl

suc-add : (i n : ℕ) → suc (i + n) ≡ suc i + n
suc-add i n = omega arith

drop-drop : (i n : ℕ) (es : List ReaddirEntry) → drop n (drop i es) ≡ drop (i + n) es
drop-drop zero n es = ap (λ k. drop k es) (omega arith)
drop-drop (suc i) n [] = drop-nil n ∙ sym (drop-nil (suc i + n))
drop-drop (suc i) n (e ∷ es) = drop-drop i n es ∙ ap (λ k. drop k (e ∷ es)) (suc-add i n)

length-drop : (n : ℕ) (es : List ReaddirEntry) → length (drop n es) ≤ length es
length-drop zero es = omega arith
length-drop (suc n) [] = omega arith
length-drop (suc n) (e ∷ es) = omega (arith, length-drop n es)

nothing_left : (es : List ReaddirEntry) (i : ℕ) → length es ≤ 0 → [] ≡ dirents i es
unfolding dirents
nothing_left [] i h = refl
nothing_left (e ∷ es) i h = absurd (omega arith)

All-right : (P : Dirent → Type 0) (ds es : List Dirent) → All P (ds ++ es) → All P es
All-right P [] es a = a
All-right P (d ∷ ds) es a = All-right P ds es a.1

module _ (dirent_size : Dirent → ℕ) where
  abbrev pub page : Reply (List Dirent) × Mount → List Dirent
  page (done ds, m) = ds
  page (failed e, m) = []

  -- `k` calls of ReadDir, with the same buffer.
  unfoldable pub listing : ℕ → ℕ → ℕ → ℕ → Mount → List Dirent
  unfolding next_offset
  listing zero handle space i m = []
  listing (suc k) handle space i m =
      let ds = page (read_dir dirent_size handle i space m) in
      ds ++ listing k handle space (next_offset i ds) m

  next_offset-write_dirents :
      (i space : ℕ) (es : List ReaddirEntry)
      → next_offset i (write_dirents dirent_size i space es)
        ≡ i + length (write_dirents dirent_size i space es)
  unfolding next_offset write_dirents
  next_offset-write_dirents i space [] = omega arith
  next_offset-write_dirents i space (e ∷ es) =
      let n = dirent_size (dirent_at i e) in
      elim (Bool-cases (leb n space)) [
        | inl h ↦ rw h (ground (arith, next_offset-write_dirents (suc i) (space - n) es))
        | inr h ↦ rw h (omega arith)
      ]

  -- A page, and then the entries that it left.
  write_dirents-rest :
      (i space : ℕ) (es : List ReaddirEntry)
      → write_dirents dirent_size i space es
          ++ dirents
              (i + length (write_dirents dirent_size i space es))
              (drop (length (write_dirents dirent_size i space es)) es)
        ≡ dirents i es
  unfolding write_dirents dirents
  write_dirents-rest i space [] = refl
  write_dirents-rest i space (e ∷ es) =
      let n = dirent_size (dirent_at i e) in
      elim (Bool-cases (leb n space)) [
        | inl h ↦ rw h (ground (arith, write_dirents-rest (suc i) (space - n) es))
        | inr h ↦ rw h (ground arith)
      ]

  -- A buffer that holds every entry makes progress.
  shorter :
      (i space k : ℕ) (es : List ReaddirEntry)
      → All (λ d. dirent_size d ≤ space) (dirents i es)
      → length es ≤ suc k
      → length (drop (length (write_dirents dirent_size i space es)) es) ≤ k
  unfolding write_dirents dirents
  shorter i space k [] fits h = omega arith
  shorter i space k (e ∷ es) fits h = ground (
    arith,
    fits.0,
    length-drop
        (length (write_dirents dirent_size (suc i) (space - dirent_size (dirent_at i e)) es)) es,
  )

  module _ (handle space : ℕ) (m : Mount) (dh : DirHandle) where
    read_dir-found :
        (i : ℕ)
        → m.dir_handles handle ≡ some dh
        → page (read_dir dirent_size handle i space m)
          ≡ write_dirents dirent_size i space (drop i dh.entries)
    unfolding read_dir dir_handle
    read_dir-found i e = rw e refl

    listing-dirents :
        (k i : ℕ)
        → m.dir_handles handle ≡ some dh
        → All (λ d. dirent_size d ≤ space) (dirents i (drop i dh.entries))
        → length (drop i dh.entries) ≤ k
        → listing k handle space i m ≡ dirents i (drop i dh.entries)
    unfolding listing
    listing-dirents zero i e fits h = nothing_left (drop i dh.entries) i h
    listing-dirents (suc k) i e fits h =
        let es = drop i dh.entries in
        let ds = write_dirents dirent_size i space es in
        let rest = drop-drop i (length ds) dh.entries in
        rw (read_dir-found i e, next_offset-write_dirents i space es)
          (ap (λ r. ds ++ r)
              (listing-dirents k (i + length ds) e
                  (subst (λ r. All (λ d. dirent_size d ≤ space) (dirents (i + length ds) r)) rest
                    (All-right (λ d. dirent_size d ≤ space) ds
                      (dirents (i + length ds) (drop (length ds) es))
                      (subst (All (λ d. dirent_size d ≤ space))
                        (sym (write_dirents-rest i space es)) fits)))
                  (subst (λ r. length r ≤ k) rest (shorter i space k es fits h))
                ∙ ap (λ r. dirents (i + length ds) r) (sym rest))
            ∙ write_dirents-rest i space es)

  -- Calls of ReadDir with one buffer that holds any entry of the directory, the first at offset 0 and each next one at
  -- the offset of the last entry that came, as many as the directory has entries, give every entry of
  -- the open directory once and in order.
  pub listing_complete :
      (handle space : ℕ) (m : Mount) (dh : DirHandle)
      → m.dir_handles handle ≡ some dh
      → All (λ d. dirent_size d ≤ space) (dirents 0 dh.entries)
      → listing (length dh.entries) handle space 0 m ≡ dirents 0 dh.entries
  listing_complete handle space m dh e fits =
      listing-dirents handle space m dh (length dh.entries) 0 e fits (omega arith)
