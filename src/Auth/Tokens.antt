-- ===== src/Auth/Tokens.antt =====
-- The life of a program token: creating, using and revoking it.
use mathlib.Core.List.{Memᴰ}
use tvpn.Auth.{
  AuthDb, AuthError, Session, TokenRow, User, by_token, create_program_token, enabled_user,
  found_or, invalid_credentials, is_live_token, query_failed, revoke_program_token, run_query,
  session_by_program_token, token_mark,
}
use tvpn.Base.{
  >>=-eq-ok, All, Bool, Bool-cases, List, Option, [], ap, arith, err, fail_if, false, find,
  find_sound, inl, inr, list_eq, nat_eq, none, not, ok, ok-injective, refl, some, text_eq_iff,
  text_eq_self, true, update_where, ℕ, ◌&&◌, ◌++◌, ◌<◌, ◌==◌, ◌∷◌, ◌≡◌,
}
use tvpn.Text.{Text, has_prefix}
use tvpn.Text.Laws.{has_prefix_iff}

pub found_or-ok {ℓ} :
    {A : Type ℓ} (e : AuthError) (o : Option A) {a : A} → found_or e o ≡ ok a → o ≡ some a
found_or-ok e none h = cc
found_or-ok e (some b) h = ap some (ok-injective h)

module _ (hash : Text → Text) (fails : ℕ → Bool) where
  -- A session of a program token is that of a token in the table that is neither revoked nor expired,
  -- of an enabled user, and has that token's scopes.
  pub record IsTokenSession (db : AuthDb) (now : ℕ) (token : Text) (s : Session) : Type 0 where
    pub origin : TokenRow
    pub stored : Memᴰ origin db.tokens
    pub secret : origin.token_hash ≡ hash token
    pub live : (origin.is_revoked ≡ false) × (now < origin.expires_at)
    pub owner : Memᴰ s.user db.users × (s.user.id ≡ origin.user_id)
    pub enabled : s.user.is_enabled ≡ true
    pub scopes : s.scopes ≡ origin.scopes

  -- A session that a program token opens is that of a stored token with this secret, which is neither
  -- revoked nor expired; its user is the token's and is enabled, and it has the token's scopes.
  pub session_by_program_token-IsTokenSession :
      (db : AuthDb) (now : ℕ) (token : Text) (s : Session)
      → session_by_program_token hash fails db now token ≡ ok s
      → IsTokenSession db now token s
  unfolding session_by_program_token
  session_by_program_token-IsTokenSession db now token s h =
      let (u1, marked, h1) =
        >>=-eq-ok (fail_if (not (has_prefix token token_mark)) invalid_credentials) _ h in
      let (u2, ran, h2) = >>=-eq-ok (run_query (fails 0) tt) _ h1 in
      let (t, found, h3) =
        >>=-eq-ok
          (found_or invalid_credentials (find (is_live_token hash fails db now token) db.tokens)) _
          h2 in
      let (user, joined, h4) =
        >>=-eq-ok (found_or invalid_credentials (enabled_user hash fails db t.user_id)) _ h3 in
      let (mem, is_live) =
        find_sound (is_live_token hash fails db now token) db.tokens {x = t}
          (found_or-ok invalid_credentials _ found) in
      let (owner, is_owner) =
        find_sound (λ (u : User). u.id == t.user_id && u.is_enabled) db.users {x = user}
          (found_or-ok invalid_credentials _ joined) in
      rw (← ok-injective h4) (record {
        origin = t;
        stored = mem;
        secret = (text_eq_iff t.token_hash (hash token)).0 (ground arith);
        live = (ground arith, ground arith);
        owner = (owner, ground arith);
        enabled = ground arith;
        scopes = refl;
      })

  created-plain :
      (db db' : AuthDb) (now id : ℕ) (fresh : Option Text) (user : User) (name : Text)
      (raw_scopes : List Text) (expires_at : ℕ) (value : TokenRow) (plain : Text)
      → create_program_token hash fails db now id fresh user name raw_scopes expires_at
        ≡ ok (db', value, plain)
      → (secret : Text) × (plain ≡ token_mark ++ secret)
  unfolding create_program_token
  created-plain db db' now id none user name raw_scopes expires_at value plain h =
      absurd (ground arith)
  created-plain db db' now id (some secret) user name raw_scopes expires_at value plain h =
      (secret, ground arith)

  -- What CreateProgramToken returns opens a session of its user with the scopes that were granted, until
  -- it expires, if the user is enabled and the query does not fail.
  pub create_program_token-session :
      (db db' : AuthDb) (now later id : ℕ) (fresh : Option Text) (user : User) (name : Text)
      (raw_scopes : List Text) (expires_at : ℕ) (value : TokenRow) (plain : Text)
      → create_program_token hash fails db now id fresh user name raw_scopes expires_at
        ≡ ok (db', value, plain)
      → enabled_user hash fails db user.id ≡ some user
      → fails 0 ≡ false
      → later < expires_at
      → session_by_program_token hash fails db' later plain
        ≡ ok (record {
          csrf_token = [];
          expires_at = expires_at;
          user = user;
          method = by_token;
          scopes = value.scopes;
        })
  unfolding create_program_token session_by_program_token
  create_program_token-session db db' now later id fresh user name raw_scopes expires_at value plain
        h enabled works early =
      let marked : has_prefix plain token_mark ≡ true =
        (has_prefix_iff plain token_mark).1
          (created-plain db db' now id fresh user name raw_scopes expires_at value plain h) in
      ground (arith, text_eq_self (hash plain))

  -- Every row with the secret is the user's token with this identifier.
  abbrev pub IsTokenOf : ℕ → ℕ → Text → TokenRow → Type 0
  IsTokenOf user id token t = t.token_hash == hash token ≡ true → (t.id ≡ id) × (t.user_id ≡ user)

  find-revoked :
      (db : AuthDb) (now user id : ℕ) (token : Text) (l : List TokenRow)
      → All (IsTokenOf user id token) l
      → find (is_live_token hash fails db now token) (
          update_where
            (λ t. t.id == id && t.user_id == user && not t.is_revoked)
            (λ t. record t { is_revoked = true })
            l)
        ≡ none
  find-revoked db now user id token [] a = refl
  find-revoked db now user id token (t ∷ l) a =
      let rest = find-revoked db now user id token l a.1 in
      let own = a.0 in
      elim (Bool-cases (t.token_hash == hash token)) [
        | inl hit ↦ let ids = own hit in ground arith
        | inr miss ↦ ground arith
      ]

  session_by_program_token-refused :
      (db : AuthDb) (now : ℕ) (token : Text)
      → find (is_live_token hash fails db now token) db.tokens ≡ none
      → (e : AuthError) × (session_by_program_token hash fails db now token ≡ err e)
  unfolding session_by_program_token
  session_by_program_token-refused db now token h =
      elim (Bool-cases (has_prefix token token_mark)) [
        | inr plain ↦ (invalid_credentials, ground arith)
        | inl marked ↦ elim (Bool-cases (fails 0)) [
          | inl fault ↦ (query_failed, ground arith)
          | inr ran ↦ (invalid_credentials, ground arith)
        ]
      ]

  -- A token that its user has revoked opens no session at any time.
  pub revoke_program_token-session :
      (db db' : AuthDb) (user id now : ℕ) (token : Text)
      → All (IsTokenOf user id token) db.tokens
      → revoke_program_token hash fails db user id ≡ ok db'
      → (e : AuthError) × (session_by_program_token hash fails db' now token ≡ err e)
  unfolding revoke_program_token
  revoke_program_token-session db db' user id now token own h =
      let shape : db' ≡ record db {
        tokens =
            update_where (λ t. t.id == id && t.user_id == user && not t.is_revoked)
              (λ t. record t { is_revoked = true }) db.tokens;
      } =
        ground arith in
      session_by_program_token-refused db' now token
        (rw shape (find-revoked db' now user id token db.tokens own))
