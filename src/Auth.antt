-- ===== src/Auth.antt =====
-- internal/auth/redact.go: remotes and log lines without their credentials. An index that the code
-- gives as -1 is none here.
pub mod Remotes
pub mod Redact
pub mod Log
use gitfs.Prelude.{Text, Bool, false, Option, ◌≡◌}

-- `url.Userinfo`
pub record Userinfo : Type 0 where
  pub username : Text
  pub password : Option Text

-- The packages net/url, net and regexp as the code uses them: `Url` is `*url.URL`, `with_user` sets
-- `User` to a user with a name alone, `is_ip` is `net.ParseIP(host) != nil`, and `matches_token` and
-- `replace_tokens` are `tokenLike.MatchString` and its `ReplaceAllString`, which by the documentation
-- replaces the matches of the expression. The laws say that an assignment to the user leaves the query
-- and the fragment, and that a text with no match is not changed.
pub record Libraries : Type 1 where
  pub Url : Type 0
  pub parse : Text → Option Url
  pub scheme : Url → Text
  pub user : Url → Option Userinfo
  pub host : Url → Text
  pub hostname : Url → Text
  pub port : Url → Text
  pub url_path : Url → Text
  pub raw_query : Url → Text
  pub force_query : Url → Bool
  pub fragment : Url → Text
  pub with_user : Text → Url → Url
  pub with_query : Text → Url → Url
  pub with_fragment : Text → Url → Url
  pub raw_query-with_user : (t : Text) (u : Url) → raw_query (with_user t u) ≡ raw_query u
  pub force_query-with_user : (t : Text) (u : Url) → force_query (with_user t u) ≡ force_query u
  pub fragment-with_user : (t : Text) (u : Url) → fragment (with_user t u) ≡ fragment u
  pub to_string : Url → Text
  pub is_ip : Text → Bool
  pub matches_token : Text → Bool
  pub replace_tokens : Text → Text
  pub replace_tokens_unmatched : (t : Text) → matches_token t ≡ false → replace_tokens t ≡ t
