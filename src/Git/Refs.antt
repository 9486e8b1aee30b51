-- ===== src/Git/Refs.antt =====
-- The names of refs and the checks on remotes in internal/gitstore/gitstore.go.
use gitfs.Prelude.{
  ℕ, ◌+◌, Text, bytes, text_eq, Bool, true, false, not, ◌&&◌, ◌||◌, Option, none, some, [], ◌∷◌,
  ◌++◌, take, drop, length, is_some, leb, if◌then◌else◌,
}
use gitfs.Strings.{trim_space, to_lower, contains_byte}
use gitfs.Strings.Search.{index, contains, index_any, contains_any, last_index, or_end, slice}
use gitfs.Path.Names.{has_prefix, cut_prefix}
use gitfs.Auth.{Libraries, Userinfo}
use gitfs.Auth.Remotes.{scheme_mark, is_http, is_scp_style_remote, scheme_less_userinfo_start}
use gitfs.Auth.Redact.{has_inline_credentials}

-- `fetchRefInfo`; a full ref has no branch.
pub record FetchRefInfo : Type 0 where
  pub source_ref : Text
  pub remote_ref : Text
  pub branch : Text

-- `fetchedFullRefRemoteTrackingRef`
abbrev pub full_ref_tracking : Text
full_ref_tracking = bytes "refs/remotes/artifact-fs/fetch-ref"

abbrev or_cut : Text → Text → Option Text → Option Text
or_cut ref prefix (some after) = some after
or_cut ref prefix none = cut_prefix ref prefix

unfoldable pub branch_name : Text → Text
branch_name name =
    let ref = trim_space name in
    elim (or_cut ref (bytes "origin/")
      (or_cut ref (bytes "refs/remotes/origin/") (cut_prefix ref (bytes "refs/heads/")))) [
        | some after ↦ after
        | none ↦ if has_prefix ref (bytes "refs/") then [] else ref
      ]

abbrev or_branch : Text → Text → Text
or_branch ref branch = if text_eq (trim_space ref) [] then trim_space branch else trim_space ref

-- None is the error that a fetch ref is required.
abbrev target : Text → Option FetchRefInfo
target ref =
    let branch = branch_name ref in
    if text_eq ref []
    then none
    else if not (text_eq branch [])
    then some (record {
      source_ref = bytes "refs/heads/" ++ branch;
      remote_ref = bytes "refs/remotes/origin/" ++ branch;
      branch = branch;
    })
    else if has_prefix ref (bytes "refs/")
    then some (record { source_ref = ref; remote_ref = full_ref_tracking; branch = [] })
    else none

unfoldable pub fetch_ref_target : Text → Text → Option FetchRefInfo
unfolding branch_name
fetch_ref_target ref repo_branch = target (or_branch ref repo_branch)

abbrev http_prefixes_of : Text → Bool
http_prefixes_of lower =
    has_prefix lower (bytes "http:/")
    || (has_prefix lower (bytes "https:/")
        || (has_prefix lower (bytes "http//")
            || (has_prefix lower (bytes "https//")
                || (has_prefix lower (bytes "http:") || has_prefix lower (bytes "https:")))))

unfoldable pub is_http_remote : Text → Text → Bool
is_http_remote raw scheme =
    if is_http scheme then true else http_prefixes_of (to_lower (trim_space raw))

-- This package's version of `schemeLessUserinfoStart`, which is the same test.
abbrev pub scheme_less_userinfo_has_password : Text → Bool
scheme_less_userinfo_has_password raw = is_some (scheme_less_userinfo_start raw)

-- strings.LastIndex of a text
unfoldable pub last_text_index : Text → Text → Option ℕ
last_text_index [] sub = none
last_text_index (b ∷ t) sub = elim (last_text_index t sub) [
  | some i ↦ some (1 + i)
  | none ↦ if has_prefix (b ∷ t) sub then some 0 else none
]

abbrev after_mark : Option ℕ → ℕ → Option ℕ → Option ℕ
after_mark none n rest = rest
after_mark (some i) n rest = some (i + n)

abbrev authority_start : Text → Option ℕ
authority_start raw = after_mark (last_text_index raw scheme_mark) 3 (
    after_mark (index raw (bytes ":/")) 2
      (after_mark (index raw (bytes "//")) 2 (after_mark (index raw (bytes ":")) 1 none)))

-- raw[start:end] up to its first end character
abbrev authority : Text → Text → Text
authority raw rest =
    let ends = if contains raw scheme_mark then bytes "/?#" else bytes "?#" in
    take (or_end (index_any rest ends) rest) rest

abbrev candidate_has_password : Text → Option ℕ → Bool
candidate_has_password raw none = false
candidate_has_password raw (some start) =
    if leb (length raw) start
    then false
    else elim (last_index (authority raw (drop start raw)) b'@') [
      | none ↦ false
      | some at ↦ contains_byte b':' (slice start (start + at) raw)
    ]

unfoldable pub raw_userinfo_candidate_has_password : Text → Bool
unfolding last_text_index
raw_userinfo_candidate_has_password raw =
    if is_scp_style_remote raw
    then false
    else if scheme_less_userinfo_has_password raw
    then true
    else candidate_has_password raw (authority_start raw)

module _ (lib : Libraries) where
  open lib use {Url, parse, user, scheme, host, hostname, url_path}

  unfoldable pub is_malformed_http_userinfo : Text → Url → Bool
  unfolding is_http_remote
  is_malformed_http_userinfo raw u =
      if not (is_http_remote raw (scheme u))
      then false
      else if text_eq (host u) []
      then true
      else has_prefix (url_path u) (bytes "/@")

  unfoldable pub malformed_userinfo_in_remote : Text → Url → Bool
  unfolding is_malformed_http_userinfo raw_userinfo_candidate_has_password
  malformed_userinfo_in_remote raw u =
      if is_http_remote raw (scheme u)
      then has_inline_credentials lib raw
      else if is_malformed_http_userinfo raw u
      then true
      else if is_http_remote raw (scheme u) && contains_byte b'.' (hostname u)
      then false
      else raw_userinfo_candidate_has_password raw

  abbrev user_has_credentials : Text → Url → Userinfo → Bool
  user_has_credentials raw u i =
      is_http_remote raw (scheme u)
      || (not (text_eq (to_lower (scheme u)) (bytes "ssh"))
          || (is_some i.password || has_inline_credentials lib raw))

  abbrev parsed_remote : Text → Option Url → Bool
  parsed_remote raw none = has_inline_credentials lib raw || raw_userinfo_candidate_has_password raw
  parsed_remote raw (some u) = elim (user u) [
    | some i ↦ user_has_credentials raw u i
    | none ↦ contains_byte b'@' raw && malformed_userinfo_in_remote raw u
  ]

  unfoldable pub remote_has_inline_credentials : Text → Bool
  unfolding malformed_userinfo_in_remote
  remote_has_inline_credentials raw =
      if contains_any raw (bytes "?#")
      then true
      else if scheme_less_userinfo_has_password raw
      then true
      else parsed_remote raw (parse raw)
