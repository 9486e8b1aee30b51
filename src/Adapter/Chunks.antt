-- ===== src/Adapter/Chunks.antt =====
-- A file of internal/fsadapter/fsadapter.go that is read in pieces.
use gitfs.Prelude.{
  ℕ, zero, suc, ◌+◌, Text, false, List, [], ◌∷◌, ◌++◌, take, drop, length, ◌≡◌, refl, sym, ap, ◌∙◌,
  arith,
}
use gitfs.Errors.{ok}
use gitfs.Machine.{World}
use gitfs.Adapter.{Sources, ArtifactFile, advanced, file_read}

unfoldable pub total : List ℕ → ℕ
total [] = 0
total (n ∷ ns) = n + total ns

take-take : (n : ℕ) (t : Text) → take n (take n t) ≡ take n t
take-take zero t = refl
take-take (suc n) [] = refl
take-take (suc n) (b ∷ t) = ap (λ r. b ∷ r) (take-take n t)

suc-add : (i n : ℕ) → suc i + n ≡ suc (i + n)
suc-add i n = omega arith

take-nil : (n : ℕ) → take {A = ℕ} n [] ≡ []
take-nil zero = refl
take-nil (suc n) = refl

drop-nil : (n : ℕ) → drop {A = ℕ} n [] ≡ []
drop-nil zero = refl
drop-nil (suc n) = refl

drop-drop : (i n : ℕ) (t : Text) → drop (i + n) t ≡ drop n (drop i t)
drop-drop zero n t = ap (λ k. drop k t) (omega arith)
drop-drop (suc i) n [] = drop-nil (suc i + n) ∙ sym (drop-nil n)
drop-drop (suc i) n (b ∷ t) = ap (λ k. drop k (b ∷ t)) (suc-add i n) ∙ drop-drop i n t

-- The next bytes after those that were taken.
take-add : (n k : ℕ) (t : Text) → take n t ++ take k (drop (length (take n t)) t) ≡ take (n + k) t
take-add zero k t = ap (λ i. take i t) (omega arith)
take-add (suc n) k [] = take-nil k ∙ sym (take-nil (suc n + k))
take-add (suc n) k (b ∷ t) =
    ap (λ r. b ∷ r) (take-add n k t) ∙ ap (λ i. take i (b ∷ t)) (sym (suc-add n k))

module _ (src : Sources) where
  -- Calls of Read with buffers of these sizes, one after the other: the bytes that they give, put
  -- together.
  unfoldable pub read_chunks : List ℕ → ArtifactFile → World → Text
  read_chunks [] f w = []
  read_chunks (n ∷ ns) f w =
      let (chunk, (f', w')) = file_read src f n w in chunk.got ++ read_chunks ns f' w'

  file_read-ok :
      (n : ℕ) (f : ArtifactFile) (w : World) (content : Text)
      → f.closed ≡ false
      → f.is_dir ≡ false
      → ((off size : ℕ) → src.read f.path off size w ≡ (ok (take size (drop off content)), w))
      → file_read src f n w ≡ advanced f n (ok (take n (drop f.off content)), w)
  unfolding file_read
  file_read-ok n f w content o d reads = simp (o, d, reads)

  -- Where the engine gives the bytes of one content for a file, with each call at the same state, the
  -- calls of Read on it give together what one read of their whole size at the file's offset would.
  pub read_chunks-take :
      (ns : List ℕ) (f : ArtifactFile) (w : World) (content : Text)
      → f.closed ≡ false
      → f.is_dir ≡ false
      → ((off size : ℕ) → src.read f.path off size w ≡ (ok (take size (drop off content)), w))
      → read_chunks ns f w ≡ take (total ns) (drop f.off content)
  unfolding read_chunks total
  read_chunks-take [] f w content o d reads = refl
  read_chunks-take (n ∷ ns) f w content o d reads =
      let x = drop f.off content in
      let got = take n (take n x) in
      let moved : ArtifactFile = record f { off = f.off + length got } in
      rw (file_read-ok n f w content o d reads) (
        ap (λ r. got ++ r)
          (read_chunks-take ns moved w content o d reads
            ∙ ap (λ t. take (total ns) t) (drop-drop f.off (length got) content))
        ∙ (ap (λ r. r ++ take (total ns) (drop (length r) x)) (take-take n x)
            ∙ take-add n (total ns) x))
