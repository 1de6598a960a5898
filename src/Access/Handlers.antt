-- ===== src/Access/Handlers.antt =====
-- The handlers of internal/auth/http.go and internal/auth/token_http.go: logins, logouts and the
-- administration of one's own program tokens.
use tvpn.Access.{
  Request, authenticate_request, bearer_token, cookie_name, or_problem, request_cookie,
  unauthorized,
}
use tvpn.Auth.{
  AuthDb, AuthError, Session, TokenRow, User, create_program_token, create_session, delete_session,
  enabled_user, program_tokens, revoke_program_token, token_not_found, validate_scopes,
}
use tvpn.Auth.Sessions.{
  create_session-session_by_token, delete_session-session_by_token, no_failure,
}
use tvpn.Base.{
  Bool, List, Option, Option-cases, Result, Result-cases, [], arith, err, false, if◌then◌else◌, inl,
  inr, list_eq, nat_eq, none, ok, some, ℕ, ◌*◌, ◌+◌, ◌<◌, ◌==◌, ◌∷◌, ◌≡◌,
}
use tvpn.Headers.{header_get}
use tvpn.Problems.{
  ErrorCode, err_internal, err_invalid_credentials, err_invalid_id, err_invalid_request,
  err_invalid_scope, err_token_not_found,
}
use tvpn.Text.{Text, text, to_lower, trim_space}

-- An event of the audit log; a failed login has no actor.
pub record LoginEvent : Type 0 where
  pub actor : Option ℕ
  pub event_type : Text
  pub outcome : Text
  pub target : Text

pub record AuthState : Type 0 where
  pub accounts : AuthDb
  pub events : List LoginEvent

-- What a handler answers; the tokens of a login and of a logout are the values of the session's cookie.
pub data AuthReply : Type 0 where
  refused_with : ErrorCode → AuthReply
  session_opened : Text → Session → AuthReply
  logged_out : AuthReply
  token_items : List TokenRow → AuthReply
  token_created : TokenRow → Text → AuthReply
  token_revoked : AuthReply

-- The body of createToken.
pub record TokenInput : Type 0 where
  pub name : Text
  pub scopes : List Text
  pub expires_at : Option ℕ

-- 90 * 24 * time.Hour, in nanoseconds
abbrev pub default_token_life : ℕ
default_token_life = 90 * 24 * 3600 * 1000000000

-- Store.Audit, whose error is ignored.
unfoldable pub record_event : Bool → AuthState → Option ℕ → Text → Text → Text → AuthState
record_event failing st actor event_type outcome target = if failing then st else record st {
  events =
      record { actor = actor; event_type = event_type; outcome = outcome; target = target }
      ∷ st.events;
}

module _ (hash : Text → Text) (show_id : ℕ → Text) (fails : ℕ → ℕ → Bool) where
  -- HTTP.Login; `check` is HTTP.authenticate, and the body that does not decode is `none`.
  unfoldable pub login :
      (AuthDb → Text → Text → Result AuthError (AuthDb × User))
      → ℕ
      → ℕ
      → Option Text
      → Option Text
      → AuthState
      → Option (Text × Text)
      → AuthState × AuthReply
  unfolding record_event
  login check now ttl fresh fresh_csrf st none = (st, refused_with err_invalid_request)
  login check now ttl fresh fresh_csrf st (some (username, password)) =
      elim (check st.accounts username password) [
        | err e ↦ (
          record_event (fails 2 0) st none (text "auth.login") (text "failure")
              (to_lower (trim_space username)),
          refused_with err_invalid_credentials,
        )
        | ok (accounts, user) ↦
            let found = record st { accounts = accounts } in
            elim (create_session hash (fails 1) accounts now fresh fresh_csrf user ttl) [
              | err e ↦ (found, refused_with err_internal)
              | ok (stored, token, s) ↦ (
                record_event (fails 2 0) (record found { accounts = stored }) (some user.id)
                    (text "auth.login") (text "success") (show_id user.id),
                session_opened token s,
              )
            ]
      ]

  -- The event of a logout, where there is a session.
  unfoldable pub note_logout : AuthState → Option Session → AuthState
  unfolding record_event
  note_logout st none = st
  note_logout st (some s) =
      record_event (fails 2 0) st (some s.user.id) (text "auth.logout") (text "success")
        (show_id s.user.id)

  -- HTTP.Logout, for the session that the request was admitted with and its cookie.
  unfoldable pub logout : Bool → AuthState → Option Session → Request → AuthState × AuthReply
  unfolding note_logout
  logout secure st session r =
      let left = note_logout st session in
      elim (request_cookie (cookie_name secure) r) [
        | none ↦ (left, logged_out)
        | some token ↦ elim (delete_session hash (fails 1) left.accounts token) [
          | err e ↦ (left, logged_out)
          | ok accounts ↦ (record left { accounts = accounts }, logged_out)
        ]
      ]

  -- HTTP.listTokens
  unfoldable pub list_tokens : AuthState → Session → AuthReply
  list_tokens st session = elim (program_tokens hash (fails 0) st.accounts session.user.id) [
    | err e ↦ refused_with err_internal
    | ok items ↦ token_items items
  ]

  -- HTTP.createToken
  unfoldable pub create_token :
      ℕ → ℕ → Option Text → AuthState → Session → Option TokenInput → AuthState × AuthReply
  unfolding record_event
  create_token now id fresh st session none = (st, refused_with err_invalid_request)
  create_token now id fresh st session (some input) =
      let expires_at : ℕ = elim input.expires_at [
        | none ↦ now + default_token_life
        | some given ↦ given
      ] in
      if trim_space input.name == []
      then (st, refused_with err_invalid_request)
      else elim (validate_scopes input.scopes session.user.is_admin) [
        | err e ↦ (st, refused_with err_invalid_scope)
        | ok scopes ↦
            elim (create_program_token hash (fails 0) st.accounts now id fresh session.user
              input.name input.scopes expires_at) [
                | err e ↦ (st, refused_with err_invalid_request)
                | ok (accounts, value, plain) ↦ (
                  record_event (fails 2 0) (record st { accounts = accounts })
                      (some session.user.id) (text "auth.token.create") (text "success")
                      (show_id value.id),
                  token_created value plain,
                )
              ]
      ]

  -- HTTP.revokeToken
  unfoldable pub revoke_token : AuthState → Session → Option ℕ → AuthState × AuthReply
  unfolding record_event
  revoke_token st session none = (st, refused_with err_invalid_id)
  revoke_token st session (some id) =
      elim (revoke_program_token hash (fails 0) st.accounts session.user.id id) [
        | err token_not_found ↦ (st, refused_with err_token_not_found)
        | err e ↦ (st, refused_with err_internal)
        | ok accounts ↦ (
          record_event (fails 2 0) (record st { accounts = accounts }) (some session.user.id)
              (text "auth.token.revoke") (text "success") (show_id id),
          token_revoked,
        )
      ]

  -- The cookie of a login opens its session until it expires, whatever else the request carries but for
  -- a bearer token, if the account is one that is enabled and no later statement fails.
  pub login-authenticate_request :
      (check : AuthDb → Text → Text → Result AuthError (AuthDb × User)) (now later ttl : ℕ)
      (fresh fresh_csrf : Option Text) (st : AuthState) (username password token : Text)
      (s : Session) (secure : Bool) (r : Request) (accounts : AuthDb) (user : User)
      → check st.accounts username password ≡ ok (accounts, user)
      → enabled_user hash (fails 1) accounts user.id ≡ some user
      → (login check now ttl fresh fresh_csrf st (some (username, password))).1
        ≡ session_opened token s
      → later < now + ttl
      → bearer_token (header_get (text "Authorization") r.header) ≡ none
      → request_cookie (cookie_name secure) r ≡ some token
      → authenticate_request hash no_failure
          (login check now ttl fresh fresh_csrf st (some (username, password))).0.accounts
          later
          secure
          r
        ≡ ok s
  unfolding login record_event authenticate_request or_problem
  login-authenticate_request check now later ttl fresh fresh_csrf st username password token s
        secure r accounts user checked enabled h early no_bearer cookie =
      elim (Result-cases (create_session hash (fails 1) accounts now fresh fresh_csrf user ttl)) [
        | inr (e, failed) ↦ absurd (ground arith)
        | inl ((stored, given, made), created) ↦
            let opens =
              create_session-session_by_token hash (fails 1) accounts stored now later ttl fresh
                fresh_csrf user given made created enabled early in
            ground arith
      ]

  -- After a logout whose statement ran, the cookie that it was asked with is refused at any time.
  pub logout-authenticate_request :
      (fails' : ℕ → Bool) (secure : Bool) (st : AuthState) (session : Option Session) (r : Request)
      (later : ℕ)
      → fails 1 0 ≡ false
      → bearer_token (header_get (text "Authorization") r.header) ≡ none
      → authenticate_request hash fails' (logout secure st session r).0.accounts later secure r
        ≡ err unauthorized
  unfolding logout delete_session authenticate_request or_problem
  logout-authenticate_request fails' secure st session r later ran no_bearer =
      elim (Option-cases (request_cookie (cookie_name secure) r)) [
        | inl no_cookie ↦ ground arith
        | inr (token, found) ↦
            let left = note_logout st session in
            elim (Result-cases (delete_session hash (fails 1) left.accounts token)) [
              | inr (e, failed) ↦ absurd (ground arith)
              | inl (accounts, deleted) ↦
                  let (e, closed) =
                    delete_session-session_by_token hash (fails 1) fails' left.accounts accounts
                      later token deleted in
                  ground arith
            ]
      ]
