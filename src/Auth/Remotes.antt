-- ===== src/Auth/Remotes.antt =====
-- What internal/auth/redact.go reads off the text of a remote.
use gitfs.Prelude.{
  ℕ, ◌+◌, Text, bytes, text_eq, Bool, true, false, not, ◌&&◌, ◌||◌, Option, none, some, List, [],
  ◌∷◌, any, keep, length, take, drop, is_some, ltb, ◌==◌, if◌then◌else◌,
}
use gitfs.Strings.{to_lower, trim_space, contains_byte, index_byte}
use gitfs.Strings.Search.{
  index, contains, index_any, last_index, or_end, slice, trim_byte, count_byte, split_byte,
}
use gitfs.Path.Names.{has_prefix}
use gitfs.Auth.{Libraries}

abbrev pub scheme_mark : Text
scheme_mark = bytes "://"

-- The prefixes that a scheme, typed right or wrong, leaves.
abbrev pub remote_prefixes : List Text
remote_prefixes =
    bytes "https://"
    ∷ bytes "http://"
    ∷ bytes "ssh://"
    ∷ bytes "git://"
    ∷ bytes "https:/"
    ∷ bytes "http:/"
    ∷ bytes "ssh:/"
    ∷ bytes "git:/"
    ∷ bytes "https//"
    ∷ bytes "http//"
    ∷ bytes "ssh//"
    ∷ bytes "git//"
    ∷ bytes "https:"
    ∷ bytes "http:"
    ∷ bytes "ssh:"
    ∷ bytes "git:"
    ∷ []

abbrev is_scp_shape : Option ℕ → Option ℕ → Bool
is_scp_shape (some at) (some colon) = ltb 0 at && ltb at colon
is_scp_shape _ _ = false

-- raw up to the first of "/?#"
abbrev pub head_end : Text → ℕ
head_end raw = or_end (index_any raw (bytes "/?#")) raw

unfoldable pub is_scp_style_remote : Text → Bool
is_scp_style_remote raw =
    let prefix = take (head_end raw) raw in
    if contains raw scheme_mark
    then false
    else is_scp_shape (index_byte b'@' prefix) (index_byte b':' prefix)

abbrev is_after : Option ℕ → ℕ → Bool
is_after none colon = false
is_after (some at) colon = ltb colon at

unfoldable pub scheme_less_userinfo_start : Text → Option ℕ
unfolding is_scp_style_remote
scheme_less_userinfo_start raw =
    let end = head_end raw in
    let prefix = take end raw in
    if contains raw scheme_mark || is_scp_style_remote raw
    then none
    else if end == 0
    then none
    else elim (index_byte b':' prefix) [
      | none ↦ none
      | some colon ↦
          if is_after (last_index prefix b'@') colon || contains_byte b'@' (drop end raw)
          then some 0
          else none
    ]

-- The length of the first prefix of the list that the text has.
unfoldable pub first_prefix : Text → List Text → Option ℕ
first_prefix t [] = none
first_prefix t (p ∷ ps) = if has_prefix t p then some (length p) else first_prefix t ps

unfoldable pub malformed_authority_start : Text → Option ℕ
unfolding scheme_less_userinfo_start
malformed_authority_start raw =
    let lower = to_lower (trim_space raw) in
    elim (index lower scheme_mark) [
      | some i ↦ some (i + 3)
      | none ↦
          if is_some (scheme_less_userinfo_start raw)
          then some 0
          else first_prefix lower remote_prefixes
    ]

abbrev pub is_http : Text → Bool
is_http scheme =
    text_eq (to_lower scheme) (bytes "http") || text_eq (to_lower scheme) (bytes "https")

unfoldable pub is_http_remote_like : Text → Text → Bool
unfolding malformed_authority_start
is_http_remote_like raw scheme =
    if is_http scheme
    then true
    else if text_eq (to_lower scheme) []
    then is_some (malformed_authority_start raw)
    else false

abbrev pub is_user_like_host : Text → Bool
is_user_like_host host =
    text_eq host (bytes "user")
    || (text_eq host (bytes "user.name") || text_eq host (bytes "first.last"))

abbrev pub is_known_single_label_git_host : Text → Bool
is_known_single_label_git_host host = text_eq host (bytes "git") || text_eq host (bytes "ghe")

abbrev pub token_prefixes : List Text
token_prefixes =
    bytes "ghp_"
    ∷ bytes "github_pat_"
    ∷ bytes "glpat-"
    ∷ bytes "gho_"
    ∷ bytes "ghu_"
    ∷ bytes "ghs_"
    ∷ bytes "ghr_"
    ∷ []

unfoldable pub token_like_username : Text → Bool
token_like_username username =
    let lower = to_lower username in
    any (has_prefix lower) token_prefixes
    || (text_eq lower (bytes "x-token-auth") || text_eq lower (bytes "oauth2"))

unfoldable pub slash_after_path_at : Text → Bool
slash_after_path_at path = elim (index_byte b'@' path) [
  | none ↦ false
  | some at ↦ contains_byte b'/' (drop at path)
]

-- path[:at], or the whole path
abbrev pub path_before_at : Text → Text
path_before_at path = elim (index_byte b'@' path) [ none ↦ path | some at ↦ take at path ]

unfoldable pub path_before_at_segment_count : Text → ℕ
path_before_at_segment_count path = length (
    keep (λ segment. not (text_eq segment []))
      (split_byte b'/' (trim_byte b'/' (path_before_at path))))

module _ (lib : Libraries) where
  open lib use {Url, host, hostname, port, url_path, scheme, is_ip}

  unfoldable pub is_real_host : Text → Bool
  is_real_host h = contains_byte b'.' h || (text_eq h (bytes "localhost") || is_ip h)

  unfoldable pub userinfo_like_before_path : Text → Bool
  unfolding is_real_host
  userinfo_like_before_path candidate =
      if text_eq candidate [] then false else elim (index_byte b'/' candidate) [
        | none ↦ true
        | some i ↦ contains_byte b':' (take i candidate) || not (is_real_host (take i candidate))
      ]

  -- The userinfo that the text may hold before its first "?" or "#".
  unfoldable pub raw_username_before_delimiter : Text → Bool
  unfolding malformed_authority_start userinfo_like_before_path
  raw_username_before_delimiter raw = elim (malformed_authority_start raw) [
    | none ↦ false
    | some start ↦ elim (last_index (drop start raw) b'@') [
      | none ↦ false
      | some at ↦ elim (index_any (slice start (start + at) raw) (bytes "?#")) [
        | none ↦ false
        | some end ↦ userinfo_like_before_path (slice start (start + end) raw)
      ]
    ]
  ]

  unfoldable pub raw_userinfo_candidate_has_password : Text → Bool
  unfolding malformed_authority_start
  raw_userinfo_candidate_has_password raw = elim (malformed_authority_start raw) [
    | none ↦ false
    | some start ↦
        let rest = drop start raw in
        let before = take (or_end (index_any rest (bytes "?#")) rest) rest in
        elim (last_index before b'@') [
          | none ↦ false
          | some at ↦ contains_byte b':' (slice start (start + at) raw)
        ]
  ]

  unfoldable pub valid_parsed_host_port : Url → Bool
  unfolding is_real_host slash_after_path_at
  valid_parsed_host_port u =
      let at_in_path = contains_byte b'@' (url_path u) in
      let real = is_real_host (hostname u) || is_known_single_label_git_host (hostname u) in
      if text_eq (host u) []
      then false
      else if at_in_path && slash_after_path_at (url_path u)
      then false
      else if has_prefix (host u) (bytes "[")
      then true
      else if is_user_like_host (hostname u)
      then false
      else if not (text_eq (port u) [])
      then real
      else if at_in_path && not real
      then false
      else not (contains_byte b':' (host u))

  unfoldable pub is_malformed_http_userinfo : Text → Url → Bool
  unfolding is_http_remote_like raw_username_before_delimiter slash_after_path_at is_real_host
      path_before_at_segment_count valid_parsed_host_port raw_userinfo_candidate_has_password
  is_malformed_http_userinfo raw u =
      let path = url_path u in
      let real = is_real_host (hostname u) && not (is_user_like_host (hostname u)) in
      if not (is_http_remote_like raw (scheme u))
      then false
      else if text_eq (host u) []
      then true
      else if has_prefix path (bytes "/@")
      then true
      else if raw_username_before_delimiter raw
      then true
      else if contains_byte b'@' path
      then (if slash_after_path_at path
          then not (real && ltb 1 (path_before_at_segment_count path))
          else not (valid_parsed_host_port u))
      else if not (raw_userinfo_candidate_has_password raw)
      then false
      else not (
          ltb 0 (count_byte b'/' (trim_byte b'/' (path_before_at path)))
          && (real && not (slash_after_path_at path)))
