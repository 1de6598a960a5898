-- ===== src/Access/Gates.antt =====
-- The chains of middlewares of internal/server/server.go (routes), and what each lets through.
use tvpn.Access.{
  Problem, Request, authenticate_request, bearer_token, cookie_name, invalid_token, is_safe_method,
  or_problem, request_cookie, require_admin, require_browser_session, require_csrf, require_scope,
  unauthorized,
}
use tvpn.Auth.{
  AuthDb, AuthError, Session, by_session, by_token, in_scopes, scope_admin, scope_proxy,
  session_by_program_token, session_by_token,
}
use tvpn.Base.{
  >>=-eq-ok, Bool, Option-cases, Result, ap, arith, err, false, inl, inr, none, ok, ok-injective,
  some, text_eq_iff, true, ℕ, ◌>>=◌, ◌>>◌, ◌≡◌,
}
use tvpn.Headers.{header_get}
use tvpn.Text.{Text, text}

module _ (hash : Text → Text) (fails : ℕ → Bool) (db : AuthDb) (now : ℕ) (secure : Bool) where
  -- /api/v1/admin
  unfoldable pub admit_admin : Request → Result Problem Session
  admit_admin r = do
    s ← authenticate_request hash fails db now secure r
    require_admin s
    require_scope scope_admin s
    require_csrf r s
    ok s

  -- /api/v1/proxy/contexts
  unfoldable pub admit_contexts : Request → Result Problem Session
  admit_contexts r = do
    s ← authenticate_request hash fails db now secure r
    require_scope scope_proxy s
    require_csrf r s
    ok s

  -- /api/v1/auth/tokens
  unfoldable pub admit_tokens : Request → Result Problem Session
  admit_tokens r = do
    s ← authenticate_request hash fails db now secure r
    require_browser_session s
    require_csrf r s
    ok s

  -- The session is one that the database holds for a secret of the request: a program token in the
  -- Authorization field, or, only without one, the session cookie.
  pub data IsFrom (r : Request) (s : Session) : Type 0 where
    from_token :
        (token : Text)
        → bearer_token (header_get (text "Authorization") r.header) ≡ some token
        → session_by_program_token hash fails db now token ≡ ok s
        → IsFrom r s
    from_cookie :
        (token : Text)
        → bearer_token (header_get (text "Authorization") r.header) ≡ none
        → request_cookie (cookie_name secure) r ≡ some token
        → session_by_token hash fails db now token ≡ ok s
        → IsFrom r s

  or_problem-ok :
      (p : Problem) (x : Result AuthError Session) (s : Session) → or_problem p x ≡ ok s → x ≡ ok s
  unfolding or_problem
  or_problem-ok p (ok t) s h = ap ok (ok-injective h)
  or_problem-ok p (err e) s h = cc

  authenticate_request-IsFrom :
      (r : Request) (s : Session)
      → authenticate_request hash fails db now secure r ≡ ok s
      → IsFrom r s
  unfolding authenticate_request
  authenticate_request-IsFrom r s h =
      elim (Option-cases (bearer_token (header_get (text "Authorization") r.header))) [
        | inr (token, e) ↦ from_token token e (or_problem-ok invalid_token _ s (ground arith))
        | inl no_bearer ↦ elim (Option-cases (request_cookie (cookie_name secure) r)) [
          | inl no_cookie ↦ absurd (ground arith)
          | inr (token, e) ↦
              from_cookie token no_bearer e (or_problem-ok unauthorized _ s (ground arith))
        ]
      ]

  -- A request that changes something and rests on a browser session repeats the session's CSRF token.
  abbrev pub HasCsrf : Request → Session → Type 0
  HasCsrf r s =
      is_safe_method r.method ≡ false
      → s.method ≡ by_session
      → header_get (text "X-CSRF-Token") r.header ≡ s.csrf_token

  require_csrf-HasCsrf :
      (r : Request) (s : Session) (u : Unit {0}) → require_csrf r s ≡ ok u → HasCsrf r s
  unfolding require_csrf
  require_csrf-HasCsrf r s u h unsafe browser =
      (text_eq_iff (header_get (text "X-CSRF-Token") r.header) s.csrf_token).0 (ground arith)

  require_admin-ok : (s : Session) (u : Unit {0}) → require_admin s ≡ ok u → s.user.is_admin ≡ true
  unfolding require_admin
  require_admin-ok s u h = ground arith

  require_scope-ok :
      (scope : Text) (s : Session) (u : Unit {0})
      → require_scope scope s ≡ ok u
      → s.method ≡ by_token
      → in_scopes scope s.scopes ≡ true
  unfolding require_scope
  require_scope-ok scope s u h token = ground arith

  -- A request that reaches the administration comes from an administrator: its session is that of a
  -- secret it carries, a program token has the scope admin, and a change from a browser repeats the
  -- CSRF token.
  pub admit_admin-IsFrom :
      (r : Request) (s : Session)
      → admit_admin r ≡ ok s
      → IsFrom r s
        × (s.user.is_admin ≡ true)
        × (s.method ≡ by_token → in_scopes scope_admin s.scopes ≡ true)
        × HasCsrf r s
  unfolding admit_admin
  admit_admin-IsFrom r s h =
      let (t, found, h1) = >>=-eq-ok (authenticate_request hash fails db now secure r) _ h in
      let (u1, admin, h2) = >>=-eq-ok (require_admin t) _ h1 in
      let (u2, scoped, h3) = >>=-eq-ok (require_scope scope_admin t) _ h2 in
      let (u3, checked, h4) = >>=-eq-ok (require_csrf r t) _ h3 in
      rw (← ok-injective h4) (
        authenticate_request-IsFrom r t found,
        require_admin-ok t u1 admin,
        require_scope-ok scope_admin t u2 scoped,
        require_csrf-HasCsrf r t u3 checked,
      )

  -- A request that reaches the contexts of the proxy has a session of a secret it carries; a program
  -- token has the scope proxy, and a change from a browser repeats the CSRF token.
  pub admit_contexts-IsFrom :
      (r : Request) (s : Session)
      → admit_contexts r ≡ ok s
      → IsFrom r s × (s.method ≡ by_token → in_scopes scope_proxy s.scopes ≡ true) × HasCsrf r s
  unfolding admit_contexts
  admit_contexts-IsFrom r s h =
      let (t, found, h1) = >>=-eq-ok (authenticate_request hash fails db now secure r) _ h in
      let (u2, scoped, h3) = >>=-eq-ok (require_scope scope_proxy t) _ h1 in
      let (u3, checked, h4) = >>=-eq-ok (require_csrf r t) _ h3 in
      rw (← ok-injective h4) (
        authenticate_request-IsFrom r t found,
        require_scope-ok scope_proxy t u2 scoped,
        require_csrf-HasCsrf r t u3 checked,
      )

  -- Program tokens are managed only from a browser session: a request with one never gets through.
  pub admit_tokens-IsFrom :
      (r : Request) (s : Session)
      → admit_tokens r ≡ ok s
      → IsFrom r s × (s.method ≡ by_session) × HasCsrf r s
  unfolding admit_tokens require_browser_session
  admit_tokens-IsFrom r s h =
      let (t, found, h1) = >>=-eq-ok (authenticate_request hash fails db now secure r) _ h in
      let (u2, browser, h3) = >>=-eq-ok (require_browser_session t) _ h1 in
      let (u3, checked, h4) = >>=-eq-ok (require_csrf r t) _ h3 in
      rw (← ok-injective h4)
        (authenticate_request-IsFrom r t found, ground arith, require_csrf-HasCsrf r t u3 checked)
