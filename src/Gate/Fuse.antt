-- ===== src/Gate/Fuse.antt =====
-- internal/fusefs/gated_fs.go: which file system operations wait at the gate.
use gitfs.Prelude.{
  ℕ, ◌≡◌, Bool, true, false, Option, none, some, arith, ◌⊎◌, ◌↔◌, inl, inr, Bool-cases, ◌==◌,
  if◌then◌else◌,
}
use gitfs.Errors.{Error}
use gitfs.Gate.{ReadyGate, Woken, by_channel, wait}
use gitfs.Gate.Waiters.{pending, opened, phase}

-- The methods of `fuseutil.FileSystem`, with the inode that `GetInodeAttributes` asks for.
pub data FuseOp : Type 0 where
  stat_fs look_up_inode set_inode_attributes forget_inode batch_forget mk_dir mk_node : FuseOp
  create_file create_link create_symlink rename rm_dir unlink open_dir read_dir : FuseOp
  read_dir_plus release_dir_handle open_file read_file write_file sync_file flush_file : FuseOp
  release_file_handle read_symlink remove_xattr get_xattr list_xattr set_xattr : FuseOp
  fallocate sync_fs destroy : FuseOp
  get_inode_attributes : ℕ → FuseOp

-- `fuseops.RootInodeID`
abbrev pub root_inode_id : ℕ
root_inode_id = 1

-- The methods whose body begins with `fs.wait(ctx)`.
unfoldable pub waits : FuseOp → Bool
waits stat_fs = false
waits forget_inode = false
waits batch_forget = false
waits release_dir_handle = false
waits sync_file = false
waits flush_file = false
waits release_file_handle = false
waits destroy = false
waits (get_inode_attributes i) = if i == root_inode_id then false else true
waits _ = true

-- What a gated call does: the error of `next`, or EIO in place of it.
pub data Reply {ℓ} (A : Type ℓ) : Type ℓ where
  forwarded : A → Reply A
  eio : Reply A

-- `waited` is the result of `gate.Wait(ctx)`; `next` is the wrapped file system's reply.
unfoldable pub gated {ℓ} : {A : Type ℓ} → Option Error → (FuseOp → A) → FuseOp → Reply A
unfolding waits
gated waited next op =
    if waits op
    then elim waited [ some e ↦ eio | none ↦ forwarded (next op) ]
    else forwarded (next op)

-- What lets an operation through: it does not wait, or the gate was open when it was called, or it was
-- pending then and open when the goroutine looked again after its wait.
abbrev pub Passes : ReadyGate → Woken → FuseOp → Type 0
Passes g w op =
    (waits op ≡ false)
    ⊎ ((phase g ≡ opened)
        ⊎ ((phase g ≡ pending) × ((g' : ReadyGate) × (w ≡ by_channel g') × (phase g' ≡ opened))))

gated-forwarded {ℓ} :
    {A : Type ℓ} (g : ReadyGate) (w : Woken) (next : FuseOp → A) (op : FuseOp) (a : A)
    → waits op ≡ true
    → gated (wait g w) next op ≡ forwarded a
    → (phase g ≡ opened)
      ⊎ ((phase g ≡ pending) × ((g' : ReadyGate) × (w ≡ by_channel g') × (phase g' ≡ opened)))
unfolding gated wait
gated-forwarded g w next op a h e = ground arith

passed {ℓ} :
    {A : Type ℓ} (g : ReadyGate) (w : Woken) (next : FuseOp → A) (op : FuseOp)
    → Passes g w op
    → gated (wait g w) next op ≡ forwarded (next op)
unfolding gated wait
passed g w next op (inl h) = ground arith
passed g w next op (inr (inl h)) = ground arith
passed g w next op (inr (inr (h, (g', e, o)))) = ground arith

waited {ℓ} :
    {A : Type ℓ} (g : ReadyGate) (w : Woken) (next : FuseOp → A) (op : FuseOp)
    → gated (wait g w) next op ≡ forwarded (next op)
    → Passes g w op
waited g w next op e = elim (Bool-cases (waits op)) [
  | inl h ↦ inr (gated-forwarded g w next op (next op) h e)
  | inr h ↦ inl h
]

-- An operation reaches the wrapped file system exactly if it does not wait, or the gate was open when
-- it was called, or the gate was pending then and open when the goroutine looked again after its wait.
gated-Passes {ℓ} :
    {A : Type ℓ} (g : ReadyGate) (w : Woken) (next : FuseOp → A) (op : FuseOp)
    → (gated (wait g w) next op ≡ forwarded (next op)) ↔ Passes g w op
gated-Passes g w next op = (waited g w next op, passed g w next op)
