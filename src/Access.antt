-- ===== src/Access.antt =====
-- internal/auth/http.go: who makes a request. The middlewares find the session of a request and refuse
-- it, or pass it on.
pub mod Login
pub mod Gates
pub mod Handlers
use tvpn.Auth.{
  AuthDb, AuthError, Session, by_session, by_token, in_scopes, session_by_program_token,
  session_by_token,
}
use tvpn.Base.{
  Bool, List, Option, Result, [], err, fail_if, false, find, if◌then◌else◌, list_eq, nat_eq, none,
  not, ok, some, true, ℕ, ◌!=◌, ◌&&◌, ◌==◌, ◌||◌, ◌∷◌,
}
use tvpn.Headers.{Header, header_get}
use tvpn.Text.{Text, equal_fold, fields, text}

-- http.Request, with what the code reads of it.
pub record Request : Type 0 where
  pub method : Text
  pub host : Text
  pub path : Text
  pub escaped_path : Text
  pub raw_query : Text
  pub header : Header
  -- The cookies that the browser sent.
  pub cookies : List (Text × Text)

-- The problems of internal/httpapi that the middlewares answer with.
pub data Problem : Type 0 where
  unauthorized invalid_token csrf_failed admin_required scope_needed : Problem

-- Request.Cookie
unfoldable pub request_cookie : Text → Request → Option Text
request_cookie name r = elim (find (λ c. c.0 == name) r.cookies) [
  | none ↦ none
  | some (_, value) ↦ some value
]

unfoldable pub two_words : List Text → Option Text
two_words (kind ∷ word ∷ []) =
    if equal_fold kind (text "Bearer") && word != [] then some word else none
two_words _ = none

-- bearerToken, which is also proxyBearerToken of internal/proxy/http.go; `none` is false.
unfoldable pub bearer_token : Text → Option Text
unfolding two_words
bearer_token value = two_words (fields value)

-- HTTP.cookieName
unfoldable pub cookie_name : Bool → Text
cookie_name secure = if secure then text "__Host-tvpn_session" else text "tvpn_session"

unfoldable pub or_problem : Problem → Result AuthError Session → Result Problem Session
or_problem p (ok s) = ok s
or_problem p (err e) = err p

module _ (hash : Text → Text) (fails : ℕ → Bool) (db : AuthDb) (now : ℕ) where
  -- HTTP.Authenticate: a bearer token is tried first, and then nothing else.
  unfoldable pub authenticate_request : Bool → Request → Result Problem Session
  unfolding or_problem
  authenticate_request secure r = elim (bearer_token (header_get (text "Authorization") r.header)) [
    | some token ↦ or_problem invalid_token (session_by_program_token hash fails db now token)
    | none ↦ elim (request_cookie (cookie_name secure) r) [
      | none ↦ err unauthorized
      | some token ↦ or_problem unauthorized (session_by_token hash fails db now token)
    ]
  ]

abbrev pub is_safe_method : Text → Bool
is_safe_method m = m == text "GET" || m == text "HEAD" || m == text "OPTIONS"

abbrev pub is_token_session : Session → Bool
is_token_session s = elim s.method [ by_session ↦ false | by_token ↦ true ]

-- HTTP.RequireCSRF, for a request with a session.
unfoldable pub require_csrf : Request → Session → Result Problem (Unit {0})
require_csrf r s =
    if is_safe_method r.method || is_token_session s
    then ok tt
    else fail_if (header_get (text "X-CSRF-Token") r.header != s.csrf_token) csrf_failed

-- HTTP.RequireAdmin
unfoldable pub require_admin : Session → Result Problem (Unit {0})
require_admin s = fail_if (not s.user.is_admin) admin_required

-- HTTP.RequireScope
unfoldable pub require_scope : Text → Session → Result Problem (Unit {0})
require_scope scope s = fail_if (is_token_session s && not (in_scopes scope s.scopes)) scope_needed

-- HTTP.RequireBrowserSession
unfoldable pub require_browser_session : Session → Result Problem (Unit {0})
require_browser_session s = fail_if (is_token_session s) unauthorized
