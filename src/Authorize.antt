-- ===== src/Authorize.antt =====
-- internal/proxy/http.go and websocket.go: what a user may reach. The guard resolves the target, and
-- the policies of the user decide.
pub mod Sound
use tvpn.Base.{
  Bool, List, Option, Result, err, if◌then◌else◌, list_eq, nat_eq, none, ok, some, ℕ, ◌==◌, ◌>>=◌,
  ◌>>◌, ◌||◌,
}
use tvpn.Guard.{Guard, GuardError, Resolver, Target, resolve}
use tvpn.Net.{Parsers, Url}
use tvpn.Policy.{Decision, Policy, evaluate}
use tvpn.Policy.Effective.{Tables, effective}
use tvpn.Text.{Text, text, trim_space}

pub data AuthorizeError : Type 0 where
  invalid_target : GuardError → AuthorizeError
  only_web_socket policies_unavailable : AuthorizeError

-- `none` is a query that failed.
unfoldable pub decide :
    Parsers → Target → Option (List Policy) → Result AuthorizeError (Target × Decision)
decide lib target none = err policies_unavailable
decide lib target (some policies) = ok (target, evaluate lib policies target.url target.addresses)

unfoldable pub resolved : Result GuardError Target → Result AuthorizeError Target
resolved (ok target) = ok target
resolved (err e) = err (invalid_target e)

-- Store.Effective for a user; `none` are tables that cannot be read.
unfoldable pub effective_policies : (Text → Text → Bool) → Option Tables → ℕ → Option (List Policy)
effective_policies before none user = none
effective_policies before (some tables) user = some (effective before tables user)

-- ws is looked up as http, wss as https.
abbrev pub http_scheme : Text → Text
http_scheme scheme = if scheme == text "ws" then text "http" else text "https"

unfoldable pub parse_web_socket : Option Url → Result AuthorizeError Url
parse_web_socket none = err only_web_socket
parse_web_socket (some parsed) =
    if parsed.scheme == text "ws" || parsed.scheme == text "wss"
    then ok parsed
    else err only_web_socket

module _ (g : Guard) (lib : Parsers) (lookup : Resolver) where
  -- Service.authorize
  unfoldable pub authorize : Option (List Policy) → Text → Result AuthorizeError (Target × Decision)
  unfolding decide resolved
  authorize policies raw = do
    target ← resolved (resolve g lib lookup raw)
    decide lib target policies

  -- Service.authorizeWebSocket: the scheme of the target is put back before the policies are asked.
  unfoldable pub authorize_web_socket :
      Option (List Policy) → Text → Result AuthorizeError (Target × Decision)
  unfolding decide resolved parse_web_socket
  authorize_web_socket policies raw = do
    parsed ← parse_web_socket (lib.parse_url (trim_space raw))
    let http_url = record parsed { scheme = http_scheme parsed.scheme }
    target ← resolved (resolve g lib lookup (lib.show_url http_url))
    let socket = record target { url = record target.url { scheme = parsed.scheme } }
    decide lib socket policies
