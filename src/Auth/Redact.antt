-- ===== src/Auth/Redact.antt =====
-- `RedactRemoteURL` and `HasInlineCredentials` of internal/auth/redact.go.
pub mod Accepted
pub mod Hidden
use gitfs.Prelude.{
  ℕ, ◌+◌, Text, bytes, text_eq, Bool, true, false, not, ◌&&◌, ◌||◌, Option, none, some, [], ◌∷◌,
  ◌++◌, length, take, drop, is_some, ltb, if◌then◌else◌,
}
use gitfs.Strings.{to_lower, contains_byte, index_byte}
use gitfs.Strings.Search.{contains, index_any, contains_any, last_index, or_end, slice}
use gitfs.Auth.{Libraries, Userinfo}
use gitfs.Auth.Remotes.{
  scheme_mark, malformed_authority_start, scheme_less_userinfo_start, is_malformed_http_userinfo,
  userinfo_like_before_path, is_http, token_like_username,
}

abbrev pub redacted : Text
redacted = bytes "REDACTED"

abbrev pub cut_query_fragment : Text → Option ℕ → Option ℕ → Text
cut_query_fragment raw none none = raw
cut_query_fragment raw none (some f) = take (f + 1) raw ++ redacted
cut_query_fragment raw (some q) none = take (q + 1) raw ++ redacted
cut_query_fragment raw (some q) (some f) =
    if ltb q f then take (q + 1) raw ++ bytes "REDACTED#REDACTED" else take (f + 1) raw ++ redacted

unfoldable pub redact_query_fragment : Text → Text
redact_query_fragment raw = cut_query_fragment raw (index_byte b'?' raw) (index_byte b'#' raw)

-- Whether the remote names a user or has a password.
abbrev pub has_user_or_password : Userinfo → Bool
has_user_or_password i = not (text_eq i.username []) || is_some i.password

abbrev pub has_credentials : Text → Userinfo → Bool
has_credentials scheme i =
    if is_http scheme
    then has_user_or_password i
    else if text_eq (to_lower scheme) (bytes "ssh")
    then is_some i.password || token_like_username i.username
    else has_user_or_password i

module _ (lib : Libraries) where
  open lib use {
    Url, parse, user, scheme, raw_query, force_query, fragment, with_user, with_query,
    with_fragment, to_string, matches_token, replace_tokens,
  }

  -- The userinfo of the authority that starts at `start` is replaced, if there is one.
  unfoldable pub redact_userinfo : ℕ → Text → Text
  redact_userinfo start raw =
      let rest = drop start raw in
      let end = or_end (index_any rest (bytes "?#")) rest in
      elim (last_index (take end rest) b'@') [
        | some at ↦ take start raw ++ (redacted ++ drop at rest)
        | none ↦
            if contains_byte b'@' (drop end rest) && userinfo_like_before_path lib (take end rest)
            then take start raw ++ (redacted ++ drop end rest)
            else raw
      ]

  unfoldable pub redact_malformed_url : Text → Text
  redact_malformed_url raw = elim (malformed_authority_start raw) [
    | none ↦ redact_query_fragment (replace_tokens raw)
    | some start ↦ redact_query_fragment (replace_tokens (redact_userinfo start raw))
  ]

  -- A user that the parser did not see.
  unfoldable pub hides_userinfo : Text → Url → Bool
  hides_userinfo raw u =
      not (is_some (user u))
      && (contains_byte b'@' raw
          && (is_malformed_http_userinfo lib raw u || is_some (scheme_less_userinfo_start raw)))

  abbrev pub redact_user : Option Userinfo → Url → Url
  redact_user none u = u
  redact_user (some i) u = if has_user_or_password i then with_user redacted u else u

  abbrev pub redact_query : Url → Url
  redact_query u =
      if not (text_eq (raw_query u) []) || force_query u then with_query redacted u else u

  abbrev pub redact_fragment : Text → Url → Url
  redact_fragment raw u =
      if not (text_eq (fragment u) []) || contains_byte b'#' raw
      then with_fragment redacted u
      else u

  abbrev pub to_string_redacted : Text → Url → Text
  to_string_redacted raw u = to_string (redact_fragment raw (redact_query (redact_user (user u) u)))

  unfoldable pub redact_remote_url : Text → Text
  unfolding hides_userinfo redact_malformed_url
  redact_remote_url raw = if text_eq raw [] then [] else elim (parse raw) [
    | none ↦ redact_malformed_url raw
    | some u ↦ if hides_userinfo raw u then redact_malformed_url raw else to_string_redacted raw u
  ]

  abbrev pub malformed_has_credentials : Text → Bool
  malformed_has_credentials raw =
      if is_some (malformed_authority_start raw) && contains_byte b'@' raw
      then true
      else if contains raw scheme_mark && contains_any raw (bytes "@?#")
      then true
      else matches_token raw

  abbrev pub parsed_has_credentials : Text → Url → Bool
  parsed_has_credentials raw u =
      if hides_userinfo raw u
      then true
      else if not (text_eq (raw_query u) [])
          || (force_query u || (not (text_eq (fragment u) []) || contains_byte b'#' raw))
      then true
      else if matches_token (raw_query u)
      then true
      else elim (user u) [ none ↦ false | some i ↦ has_credentials (scheme u) i ]

  unfoldable pub has_inline_credentials : Text → Bool
  unfolding hides_userinfo
  has_inline_credentials raw = if contains_any raw (bytes "?#") then true else elim (parse raw) [
    | none ↦ malformed_has_credentials raw
    | some u ↦ parsed_has_credentials raw u
  ]
