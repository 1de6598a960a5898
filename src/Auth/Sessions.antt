-- ===== src/Auth/Sessions.antt =====
-- The life of a browser session: logging in, using it and logging out.
use tvpn.Auth.{
  AuthDb, AuthError, Session, SessionRow, User, create_session, delete_session, enabled_user,
  invalid_credentials, query_failed, session_by_token,
}
use tvpn.Base.{
  Bool, Bool-cases, List, Option, [], arith, err, false, filter, find, inl, inr, list_eq, ltb,
  nat_eq, none, not, ok, refl, some, text_eq_self, ℕ, ◌&&◌, ◌+◌, ◌<◌, ◌==◌, ◌∷◌, ◌≡◌,
}
use tvpn.Text.{Text}

-- Every query of the operation succeeds.
abbrev pub no_failure : ℕ → Bool
no_failure n = false

module _ (hash : Text → Text) (fails : ℕ → Bool) where
  -- A new session is found by its token until it expires, with its CSRF token and its user, if the user
  -- is enabled and no query fails.
  pub create_session-session_by_token :
      (db db' : AuthDb) (now later ttl : ℕ) (fresh fresh_csrf : Option Text) (user : User)
      (token : Text) (s : Session)
      → create_session hash fails db now fresh fresh_csrf user ttl ≡ ok (db', token, s)
      → enabled_user hash fails db user.id ≡ some user
      → later < now + ttl
      → session_by_token hash no_failure db' later token ≡ ok s
  unfolding create_session session_by_token
  create_session-session_by_token db db' now later ttl fresh fresh_csrf user token s h enabled
        early =
      ground (arith, text_eq_self (hash token))

  find-deleted :
      (now : ℕ) (token : Text) (l : List SessionRow)
      → find
          (λ s. s.token_hash == hash token && ltb now s.expires_at)
          (filter (λ s. not (s.token_hash == hash token)) l)
        ≡ none
  find-deleted now token [] = refl
  find-deleted now token (s ∷ l) = ground (arith, find-deleted now token l)

  -- After a logout that the database carried out, the token of the session opens nothing.
  pub delete_session-session_by_token :
      (fails' : ℕ → Bool) (db db' : AuthDb) (now : ℕ) (token : Text)
      → delete_session hash fails db token ≡ ok db'
      → (e : AuthError) × (session_by_token hash fails' db' now token ≡ err e)
  unfolding delete_session session_by_token
  delete_session-session_by_token fails' db db' now token h =
      let gone = find-deleted now token db.sessions in
      elim (Bool-cases (fails' 0)) [
        | inl fault ↦ (query_failed, ground arith)
        | inr ran ↦ (invalid_credentials, ground arith)
      ]
