-- ===== src/Tests/Auth.antt =====
-- Runs of internal/auth/redact.go.
use gitfs.Prelude.{
  Text, bytes, text_eq, true, false, none, some, [], ◌∷◌, ◌++◌, length, ◌≡◌, refl, if◌then◌else◌,
}
use gitfs.Strings.{contains_byte}
use gitfs.Strings.Search.{index_any, index_func}
use gitfs.Auth.Redact.Accepted.{accepted, redact_remote_url-accepted}
use gitfs.Auth.Redact.Hidden.{redact_remote_url_hides_userinfo}
use gitfs.Auth.{Libraries}
use gitfs.Auth.Remotes.{is_scp_style_remote, malformed_authority_start}
use gitfs.Auth.Redact.{redact_remote_url, has_inline_credentials}
use gitfs.Auth.Log.{redact_string}

-- Libraries that parse nothing and see no tokens.
abbrev pub none_parsed : Libraries
none_parsed = record {
  Url = Text;
  parse = λ t. none;
  scheme = λ u. u;
  user = λ u. none;
  host = λ u. u;
  hostname = λ u. u;
  port = λ u. u;
  url_path = λ u. u;
  raw_query = λ u. u;
  force_query = λ u. false;
  fragment = λ u. u;
  with_user = λ t u. u;
  with_query = λ t u. u;
  with_fragment = λ t u. u;
  raw_query-with_user = λ t u. refl;
  force_query-with_user = λ t u. refl;
  fragment-with_user = λ t u. refl;
  to_string = λ u. u;
  is_ip = λ t. false;
  matches_token = λ t. false;
  replace_tokens = λ t. t;
  replace_tokens_unmatched = λ t h. refl;
}

scp : is_scp_style_remote (bytes "git@host:repo") ≡ true
unfolding is_scp_style_remote gitfs.Strings.Search.index gitfs.Path.Names.has_prefix
    gitfs.Strings.index_byte gitfs.Strings.Search.index_func gitfs.Strings.contains_byte
scp = refl

url :
    redact_remote_url none_parsed (bytes "https://u:p@h/r?k=v#f")
    ≡ bytes "https://REDACTED@h/r?REDACTED#REDACTED"
unfolding redact_remote_url gitfs.Prelude.text_eq malformed_authority_start
    gitfs.Strings.Search.index gitfs.Strings.to_lower gitfs.Strings.trim_space
    gitfs.Path.Names.has_prefix gitfs.Auth.Redact.redact_query_fragment gitfs.Strings.index_byte
    gitfs.Auth.Redact.redact_userinfo gitfs.Strings.Search.last_index_func
    gitfs.Strings.Search.index_func gitfs.Strings.contains_byte
url = refl

line :
    redact_string none_parsed (bytes "at (https://u:p@h/r), https://a:b@c/x,https://d:e@f/y")
    ≡ bytes "at (https://REDACTED@h/r), https://REDACTED@c/x,https://REDACTED@f/y"
unfolding redact_string gitfs.Prelude.text_eq gitfs.Strings.Search.index gitfs.Path.Names.has_prefix
    gitfs.Strings.join_spaces gitfs.Strings.Search.split_byte gitfs.Prelude.any
    gitfs.Strings.to_lower gitfs.Strings.index_byte gitfs.Strings.Search.index_func
    gitfs.Strings.contains_byte gitfs.Strings.Search.last_index_func
    gitfs.Strings.Search.trim_left_byte gitfs.Auth.Log.redact_cores
    gitfs.Auth.Log.redact_remote_core gitfs.Auth.Log.has_split_remote_marker
    gitfs.Auth.Log.should_redact_remote_token gitfs.Auth.Log.contains_remote_marker
    gitfs.Auth.Log.has_remote_marker gitfs.Auth.Log.has_separate_remote_marker
    gitfs.Auth.Log.separator_inside_userinfo gitfs.Auth.Log.redact_remote_token
    gitfs.Auth.Log.redact_single_remote_core gitfs.Auth.Log.remote_start_index
    gitfs.Auth.Log.first_marker gitfs.Auth.Redact.redact_remote_url
    gitfs.Auth.Redact.redact_malformed_url malformed_authority_start
    gitfs.Auth.Redact.redact_userinfo gitfs.Auth.Redact.redact_query_fragment
    gitfs.Strings.trim_space gitfs.Strings.trim_left gitfs.Auth.Remotes.is_scp_style_remote
    gitfs.Auth.Remotes.scheme_less_userinfo_start gitfs.Auth.Remotes.first_prefix
line = refl

no_credentials : has_inline_credentials none_parsed (bytes "https://h/r") ≡ false
unfolding has_inline_credentials index_func contains_byte malformed_authority_start
    gitfs.Strings.Search.index gitfs.Strings.to_lower gitfs.Strings.trim_space
    gitfs.Path.Names.has_prefix
no_credentials = refl

redact_remote_url-accepted_example : redact_remote_url none_parsed (bytes "https://h/r") ≡ (
    if text_eq (bytes "https://h/r") []
    then []
    else accepted none_parsed (bytes "https://h/r") (none_parsed.parse (bytes "https://h/r")))
redact_remote_url-accepted_example =
    redact_remote_url-accepted none_parsed (bytes "https://h/r") no_credentials

abbrev tail : Text
tail = bytes "h/x@y?k"

no_marks :
    (index_any (bytes "a:b") (bytes "?#") ≡ none) × (index_any (bytes "me") (bytes "?#") ≡ none)
unfolding index_func contains_byte
no_marks = (refl, refl)

starts :
    (malformed_authority_start (bytes "https://" ++ (bytes "a:b" ++ (b'@' ∷ tail)))
      ≡ some (length (bytes "https://")))
    × (malformed_authority_start (bytes "https://" ++ (bytes "me" ++ (b'@' ∷ tail)))
        ≡ some (length (bytes "https://")))
unfolding malformed_authority_start gitfs.Strings.Search.index gitfs.Path.Names.has_prefix
    gitfs.Strings.to_lower gitfs.Strings.trim_space gitfs.Strings.trim_left
starts = (refl, refl)

redact_remote_url_hides_userinfo_example :
    redact_remote_url none_parsed (bytes "https://" ++ (bytes "a:b" ++ (b'@' ∷ tail)))
    ≡ redact_remote_url none_parsed (bytes "https://" ++ (bytes "me" ++ (b'@' ∷ tail)))
redact_remote_url_hides_userinfo_example =
    redact_remote_url_hides_userinfo none_parsed (bytes "https://") (bytes "a:b") (bytes "me") tail
      no_marks.0 no_marks.1 starts.0 starts.1 refl refl
