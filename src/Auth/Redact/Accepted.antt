-- ===== src/Auth/Redact/Accepted.antt =====
-- A remote in which no credentials are found, in the output of `RedactRemoteURL`.
use gitfs.Prelude.{
  ℕ, Text, bytes, text_eq, false, Option, none, some, [], ◌≡◌, refl, arith, drop, take,
  if◌then◌else◌, Option-cases, inl, inr, is_some, ◌&&◌,
}
use gitfs.Strings.{contains_byte, to_lower}
use gitfs.Strings.Search.{index_any, or_end}
use gitfs.Strings.Laws.{contains_byte-take, contains_byte-drop, last_index-none, index_byte-none}
use gitfs.Auth.{Libraries}
use gitfs.Auth.Remotes.{malformed_authority_start}
use gitfs.Auth.Redact.{
  redact_query_fragment, redact_userinfo, redact_malformed_url, redact_remote_url,
  has_inline_credentials, redact_user, parsed_has_credentials, to_string_redacted, redacted,
}

redact_query_fragment-unchanged :
    (raw : Text) → index_any raw (bytes "?#") ≡ none → redact_query_fragment raw ≡ raw
unfolding redact_query_fragment
redact_query_fragment-unchanged raw h =
    rw
      (
        index_byte-none b'?' (bytes "?#") raw (unfold contains_byte in refl) h,
        index_byte-none b'#' (bytes "?#") raw (unfold contains_byte in refl) h,
      )
      refl

module _ (lib : Libraries) where
  redact_userinfo-unchanged :
      (start : ℕ) (raw : Text)
      → contains_byte b'@' raw ≡ false
      → redact_userinfo lib start raw ≡ raw
  unfolding redact_userinfo
  redact_userinfo-unchanged start raw h =
      let rest = drop start raw in
      let end = or_end (index_any rest (bytes "?#")) rest in
      let free : contains_byte b'@' rest ≡ false = contains_byte-drop b'@' start raw h in
      ground (
        arith,
        last_index-none b'@' (take end rest) (contains_byte-take b'@' end rest free),
        contains_byte-drop b'@' end rest free,
      )

  redact_malformed_url-unchanged :
      (raw : Text)
      → index_any raw (bytes "?#") ≡ none
      → lib.matches_token raw ≡ false
      → (is_some (malformed_authority_start raw) && contains_byte b'@' raw) ≡ false
      → redact_malformed_url lib raw ≡ raw
  unfolding redact_malformed_url
  redact_malformed_url-unchanged raw h m a =
      let same = lib.replace_tokens_unmatched raw m in
      let plain = redact_query_fragment-unchanged raw h in
      elim (Option-cases (malformed_authority_start raw)) [
        | inl e ↦ ground (arith, same, plain)
        | inr (start, e) ↦
            let kept : redact_userinfo lib start raw ≡ raw =
              redact_userinfo-unchanged start raw (ground arith) in
            ground (arith, kept, same, plain)
      ]

  -- The text of an accepted remote that the parser understands: only the user of an ssh remote may be
  -- replaced.
  abbrev pub accepted_url : lib.Url → Text
  accepted_url u = lib.to_string (
      if text_eq (to_lower (lib.scheme u)) (bytes "ssh") then redact_user lib (lib.user u) u else u)

  abbrev pub accepted : Text → Option lib.Url → Text
  accepted raw none = raw
  accepted raw (some u) = accepted_url u

  user_kept :
      (raw : Text) (u : lib.Url)
      → parsed_has_credentials lib raw u ≡ false
      → lib.to_string (redact_user lib (lib.user u) u) ≡ accepted_url u
  user_kept raw u h = elim (Option-cases (lib.user u)) [
    | inl e ↦ rw e (ground arith)
    | inr (i, e) ↦ rw e (ground arith)
  ]

  parsed-unchanged :
      (raw : Text) (u : lib.Url)
      → parsed_has_credentials lib raw u ≡ false
      → to_string_redacted lib raw u ≡ lib.to_string (redact_user lib (lib.user u) u)
  parsed-unchanged raw u h = elim (Option-cases (lib.user u)) [
    | inl e ↦ rw e (ground arith)
    | inr (i, e) ↦ rw e (
        ground (
          arith,
          lib.raw_query-with_user redacted u,
          lib.force_query-with_user redacted u,
          lib.fragment-with_user redacted u,
        ))
  ]

  -- A remote in which no inline credentials are found goes out as it is where it does not parse, and
  -- where it parses as the URL's own text, with only the user of an ssh remote replaced.
  pub redact_remote_url-accepted :
      (raw : Text)
      → has_inline_credentials lib raw ≡ false
      → redact_remote_url lib raw ≡ (if text_eq raw [] then [] else accepted raw (lib.parse raw))
  unfolding redact_remote_url has_inline_credentials
  redact_remote_url-accepted raw h =
      let bare : index_any raw (bytes "?#") ≡ none = ground arith in
      elim (Option-cases (lib.parse raw)) [
        | inl e ↦ rw e (ground (arith, redact_malformed_url-unchanged raw bare))
        | inr (u, e) ↦ rw e (ground (arith, parsed-unchanged raw u, user_kept raw u))
      ]
