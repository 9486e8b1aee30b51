-- ===== src/Auth/Log.antt =====
-- `RedactString` of internal/auth/redact.go: the remotes in a line of a log.
use gitfs.Prelude.{
  ℕ, zero, suc, ◌+◌, Text, bytes, text_eq, Bool, true, false, not, ◌||◌, Option, none, some, List,
  [], ◌∷◌, ◌++◌, map, any, length, take, drop, is_some, ltb, if◌then◌else◌,
}
use gitfs.Strings.{to_lower, contains_byte, index_byte, join_spaces}
use gitfs.Strings.Search.{
  add_index, index, contains, index_any, contains_any, last_index, or_end, slice, index_func,
  last_index_func, split_byte, trim_left_byte,
}
use gitfs.Path.Names.{has_prefix}
use gitfs.Auth.{Libraries}
use gitfs.Auth.Remotes.{
  scheme_mark, remote_prefixes, scheme_less_userinfo_start, is_scp_style_remote, is_real_host,
  is_known_single_label_git_host, userinfo_like_before_path,
}
use gitfs.Auth.Redact.{redact_remote_url}

-- The first four prefixes, and all the others.
abbrev full_prefixes : List Text
full_prefixes = take 4 remote_prefixes

abbrev short_prefixes : List Text
short_prefixes = drop 4 remote_prefixes

unfoldable pub has_separate_remote_marker : Text → Bool
has_separate_remote_marker s = any (has_prefix (to_lower s)) full_prefixes

unfoldable pub has_remote_marker : Text → Bool
has_remote_marker s =
    if contains s scheme_mark then true else any (has_prefix (to_lower s)) short_prefixes

unfoldable pub contains_remote_marker : Text → Bool
contains_remote_marker s = any (contains (to_lower s)) short_prefixes

unfoldable pub has_split_remote_marker : Text → Bool
unfolding has_separate_remote_marker has_remote_marker
has_split_remote_marker s =
    has_separate_remote_marker s
    || (has_remote_marker s || (is_some (scheme_less_userinfo_start s) || is_scp_style_remote s))

unfoldable pub should_redact_remote_token : Text → Bool
unfolding contains_remote_marker
should_redact_remote_token token =
    contains token scheme_mark
    || (contains_remote_marker token
        || (is_some (scheme_less_userinfo_start token) || is_scp_style_remote token))

abbrev earlier : Option ℕ → Option ℕ → Option ℕ
earlier none best = best
earlier (some i) none = some i
earlier (some i) (some best) = if ltb i best then some i else some best

-- The loop of `remoteStartIndex` over the markers.
unfoldable pub first_marker : Text → List Text → Option ℕ → Option ℕ
first_marker lower [] best = best
first_marker lower (m ∷ ms) best = first_marker lower ms (earlier (index lower m) best)

abbrev after_index : Option ℕ → ℕ
after_index none = 0
after_index (some i) = i + 1

abbrev after_equals : Text → ℕ
after_equals s = elim (index_byte b'@' s) [
  | none ↦ 0
  | some at ↦
      if contains_any (drop at s) (bytes "?#") then after_index (last_index (take at s) b'=') else 0
]

unfoldable pub remote_start_index : Text → ℕ
unfolding first_marker
remote_start_index s = elim (first_marker (to_lower s) remote_prefixes none) [
  | some best ↦ best
  | none ↦ after_equals s
]

-- The loop of `authorityStartInCore` over the markers.
unfoldable pub authority_marker : Text → List Text → Option ℕ
authority_marker rest [] = none
authority_marker rest (m ∷ ms) = elim (index rest m) [
  | some i ↦ some (i + length m)
  | none ↦ authority_marker rest ms
]

unfoldable pub authority_start_in_core : Text → ℕ → Option ℕ
unfolding authority_marker
authority_start_in_core core start = add_index start (
    authority_marker (to_lower (drop start core))
      (bytes "://" ∷ bytes ":/" ∷ bytes "//" ∷ bytes ":" ∷ []))

abbrev core_opening : Text
core_opening = bytes "'\"([{<"

abbrev core_closing : Text
core_closing = bytes "'\")]}>,.:"

module _ (lib : Libraries) where
  open lib use {Url, parse, scheme, host, hostname, user, replace_tokens}

  unfoldable pub complete_url_before_separator : Text → Bool
  unfolding is_real_host
  complete_url_before_separator raw = elim (parse raw) [
    | none ↦ false
    | some u ↦
        if text_eq (scheme u) [] || (text_eq (host u) [] || is_some (user u))
        then false
        else if has_prefix (host u) (bytes "[")
        then true
        else is_real_host lib (hostname u) || is_known_single_label_git_host (hostname u)
  ]

  -- Whether core[sep+1:nextBoundary] has an "@", with a ":" before it or not.
  abbrev at_after : Text → ℕ → Bool
  at_after core sep =
      let rest = drop (sep + 1) core in
      contains_byte b'@' (take (or_end (index_any rest (bytes " ")) rest) rest)

  unfoldable pub separator_inside_userinfo : Text → ℕ → Bool
  unfolding remote_start_index authority_start_in_core userinfo_like_before_path
      complete_url_before_separator
  separator_inside_userinfo core sep =
      let start = remote_start_index (take sep core) in
      if contains_byte b'@' (slice start sep core)
      then false
      else elim (authority_start_in_core core start) [
        | none ↦ false
        | some authority ↦
            if not (userinfo_like_before_path lib (slice authority sep core))
            then false
            else if complete_url_before_separator (slice start sep core)
            then false
            else at_after core sep
      ]

  unfoldable pub redact_single_remote_core : Text → Text
  unfolding remote_start_index redact_remote_url
  redact_single_remote_core core =
      let start = remote_start_index core in
      take start core ++ redact_remote_url lib (drop start core)

  -- Whether the loop of `redactRemoteCore` ends with the rest of the core as one remote.
  abbrev is_last_core : Text → ℕ → Bool
  is_last_core core sep =
      separator_inside_userinfo core sep
      || not (has_split_remote_marker (trim_left_byte b' ' (drop (sep + 1) core)))

  -- The loop of `redactRemoteCore`. Each round takes a byte of the core at least, so that its length
  -- is fuel enough.
  unfoldable pub redact_cores : ℕ → Text → Text
  unfolding separator_inside_userinfo redact_single_remote_core
  redact_cores fuel [] = []
  redact_cores zero (b ∷ t) = []
  redact_cores (suc fuel) (b ∷ t) = elim (index_any (b ∷ t) (bytes ",;")) [
    | none ↦ redact_single_remote_core (b ∷ t)
    | some sep ↦ elim (is_last_core (b ∷ t) sep) [
      | true ↦ redact_single_remote_core (b ∷ t)
      | false ↦
          redact_single_remote_core (take sep (b ∷ t))
          ++ (take 1 (drop sep (b ∷ t)) ++ redact_cores fuel (drop (sep + 1) (b ∷ t)))
    ]
  ]

  unfoldable pub redact_remote_core : Text → Text
  unfolding redact_cores
  redact_remote_core core = redact_cores (length core) core

  unfoldable pub redact_remote_token : Text → Text
  unfolding redact_remote_core
  redact_remote_token token = elim (index_func (λ r. not (contains_byte r core_opening)) token) [
    | none ↦ token
    | some start ↦ elim (last_index_func (λ r. not (contains_byte r core_closing)) token) [
      | none ↦ token
      | some end ↦
          if ltb end start
          then token
          else take start token
            ++ (redact_remote_core (slice start (end + 1) token) ++ drop (end + 1) token)
    ]
  ]

  abbrev redact_part : Text → Text
  redact_part part = if should_redact_remote_token part then redact_remote_token part else part

  unfoldable pub redact_string : Text → Text
  unfolding should_redact_remote_token redact_remote_token
  redact_string s =
      if text_eq s []
      then []
      else if contains s scheme_mark || contains_any s (bytes "?#@")
      then replace_tokens (join_spaces (map redact_part (split_byte b' ' s)))
      else replace_tokens s
