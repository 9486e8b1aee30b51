-- ===== src/Auth/Redact/Hidden.antt =====
-- The userinfo of a remote that does not parse, in the output of `RedactRemoteURL`.
use gitfs.Prelude.{
  ℕ, suc, Text, bytes, text_eq, false, Option, none, some, [], ◌∷◌, ◌++◌, ◌≡◌, refl, arith, length,
  drop, take, Option-cases, inl, inr, ◌∙◌, ap,
}
use gitfs.Strings.{contains_byte}
use gitfs.Strings.Search.{add_index, index_any, or_end, last_index, last_index_func, index_func}
use gitfs.Strings.Laws.{
  take-append_length, drop-append_length, drop-append, take-append, last_index-append,
  or_end-append,
}
use gitfs.Auth.{Libraries}
use gitfs.Auth.Remotes.{malformed_authority_start}
use gitfs.Auth.Redact.{redacted, redact_userinfo, redact_malformed_url, redact_remote_url}

-- The text with one more "@" in front, up to its first "?" or "#".
head : Text → Text
head r = take (or_end (index_any (b'@' ∷ r) (bytes "?#")) (b'@' ∷ r)) (b'@' ∷ r)

last_index-at : (t : Text) → (i : ℕ) × (last_index (b'@' ∷ t) b'@' ≡ some i)
unfolding last_index_func
last_index-at t = elim (Option-cases (last_index t b'@')) [
  | inl e ↦ (0, ground arith)
  | inr (i, e) ↦ (suc i, ground arith)
]

or_end-add_index : (o : Option ℕ) (r : Text) → or_end (add_index 1 o) (b'@' ∷ r) ≡ suc (or_end o r)
or_end-add_index none r = refl
or_end-add_index (some i) r = omega arith

head-starts : (r : Text) → (n : ℕ) × (head r ≡ b'@' ∷ take n r)
unfolding head index_func contains_byte
head-starts r = (
  or_end (index_any r (bytes "?#")) r,
  ap (λ k. take k (b'@' ∷ r)) (or_end-add_index (index_any r (bytes "?#")) r),
)

head-has_at : (r : Text) → (i : ℕ) × (last_index (head r) b'@' ≡ some i)
head-has_at r =
    let (n, e) = head-starts r in
    let (i, h) = last_index-at (take n r) in (i, ap (λ t. last_index t b'@') e ∙ h)

some_text : (p u r : Text) → text_eq (p ++ (u ++ (b'@' ∷ r))) [] ≡ false
unfolding text_eq
some_text [] [] r = refl
some_text [] (b ∷ u) r = refl
some_text (b ∷ p) u r = refl

module _ (lib : Libraries) where
  -- What follows the userinfo stays from its last "@" before "?" or "#" on.
  redact_userinfo-replaced :
      (p u r : Text)
      → index_any u (bytes "?#") ≡ none
      → redact_userinfo lib (length p) (p ++ (u ++ (b'@' ∷ r)))
        ≡ p ++ (redacted ++ drop (head-has_at r).0 (b'@' ∷ r))
  unfolding redact_userinfo head
  redact_userinfo-replaced p u r h =
      let x = b'@' ∷ r in
      let i = (head-has_at r).0 in
      let n = or_end (index_any x (bytes "?#")) x in
      ground (
        arith,
        take-append_length p (u ++ x),
        drop-append_length p (u ++ x),
        or_end-append (bytes "?#") u x h,
        take-append n u x,
        drop-append i u x,
        last_index-append b'@' i u (head r) (head-has_at r).1,
      )

  -- Two remotes that do not parse, and that differ only in what stands between the start of the
  -- authority and an "@", with no "?" or "#" in it, go out as the same text.
  pub redact_remote_url_hides_userinfo :
      (p u v r : Text)
      → index_any u (bytes "?#") ≡ none
      → index_any v (bytes "?#") ≡ none
      → malformed_authority_start (p ++ (u ++ (b'@' ∷ r))) ≡ some (length p)
      → malformed_authority_start (p ++ (v ++ (b'@' ∷ r))) ≡ some (length p)
      → lib.parse (p ++ (u ++ (b'@' ∷ r))) ≡ none
      → lib.parse (p ++ (v ++ (b'@' ∷ r))) ≡ none
      → redact_remote_url lib (p ++ (u ++ (b'@' ∷ r)))
        ≡ redact_remote_url lib (p ++ (v ++ (b'@' ∷ r)))
  unfolding redact_remote_url redact_malformed_url
  redact_remote_url_hides_userinfo p u v r hu hv su sv nu nv = ground (
    arith,
    redact_userinfo-replaced p u r hu,
    redact_userinfo-replaced p v r hv,
    some_text p u r,
    some_text p v r,
  )
