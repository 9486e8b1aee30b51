-- ===== src/Machine/Files.antt =====
-- What the calls of Machine/Disk.antt do to the file of each name.
use gitfs.Prelude.{
  ℕ, zero, suc, Text, text_eq, text_eq_iff, text_eq_refl, true, false, Option, none, some, List, [],
  ◌∷◌, ◌≡◌, refl, arith, length, if◌then◌else◌,
}
use gitfs.Errors.{ok, is_ok}
use gitfs.Machine.{World, DiskNode}
use gitfs.Machine.Disk.{
  find_node, drop_node, put_node, open_create, write_open, write_at, after_write, stat_size,
  os_truncate, resize,
}

pub find_node-drop_node :
    (p q : Text) (ns : List DiskNode)
    → find_node q (drop_node p ns) ≡ (if text_eq p q then none else find_node q ns)
unfolding find_node drop_node
find_node-drop_node p q [] = ground arith
find_node-drop_node p q (n ∷ ns) =
    ground (
      arith,
      text_eq_iff p q,
      text_eq_iff n.name p,
      text_eq_iff n.name q,
      find_node-drop_node p q ns,
    )

pub find_node-put_node :
    (n : DiskNode) (q : Text) (ns : List DiskNode)
    → find_node q (put_node n ns) ≡ (if text_eq n.name q then some n else find_node q ns)
unfolding find_node put_node
find_node-put_node n q ns = ground (arith, find_node-drop_node n.name q ns)

pub name-find_node :
    (p : Text) (ns : List DiskNode) (n : DiskNode) → find_node p ns ≡ some n → n.name ≡ p
unfolding find_node
name-find_node p [] n h = cc
name-find_node p (m ∷ ns) n h = ground (arith, text_eq_iff m.name p, name-find_node p ns n)

-- The contents under a name; a missing file has none.
abbrev pub content_of : Option DiskNode → Text
content_of none = []
content_of (some n) = n.content

abbrev pub content_at : Text → World → Text
content_at p w = content_of (find_node p w.disk)

open_create-content :
    (p : Text) (m : ℕ) (w : World) → content_at p (open_create p m w).1 ≡ content_at p w
unfolding open_create
open_create-content p m w = ground (
  arith,
  text_eq_refl p,
  find_node-put_node (record { name = p; is_dir = false; mode = m; content = [] }) p w.disk,
)

write_open-content :
    (p : Text) (off : ℕ) (b : Text) (w : World)
    → (write_open p off b w).0 ≡ ok tt
    → content_at p (write_open p off b w).1 ≡ after_write (content_at p w) off b
unfolding write_open
write_open-content p off b w h = grind (arith, text_eq_refl, find_node-put_node)

pub write_at-content :
    (p : Text) (m off : ℕ) (b : Text) (w : World)
    → (write_at p m off b w).0 ≡ ok tt
    → content_at p (write_at p m off b w).1 ≡ after_write (content_at p w) off b
unfolding write_at
write_at-content p m off b w h =
    ground (arith, open_create-content p m w, write_open-content p off b (open_create p m w).1)

pub os_truncate-content :
    (p : Text) (n : ℕ) (w : World)
    → (os_truncate p n w).0 ≡ ok tt
    → content_at p (os_truncate p n w).1 ≡ resize n (content_at p w)
unfolding os_truncate
os_truncate-content p n w h = grind (arith, text_eq_refl, find_node-put_node)

-- A file that was resized has that many bytes.
pub length-resize : (n : ℕ) (t : Text) → length (resize n t) ≡ n
unfolding resize
length-resize zero t = refl
length-resize (suc n) [] = omega (arith, length-resize n [])
length-resize (suc n) (b ∷ t) = omega (arith, length-resize n t)

-- `Stat` that succeeds gives the number of bytes in the file.
pub stat_size-content :
    (p : Text) (w : World)
    → is_ok (stat_size p w).0 ≡ true
    → (stat_size p w).0 ≡ ok (length (content_at p w))
unfolding stat_size
stat_size-content p w h = ground arith

pub stat_size-disk : (p : Text) (w : World) → (stat_size p w).1.disk ≡ w.disk
unfolding stat_size
stat_size-disk p w = ground arith
