-- ===== src/Auth.antt =====
-- internal/auth/store.go and tokens.go: users, browser sessions and program tokens. As in the store of
-- the proxy, a table is the list of its rows, and `fails n` says that statement number n of an
-- operation fails. The times at which a row was last used are left out: nothing is decided by them.
pub mod Scopes
pub mod Tokens
pub mod Sessions
pub mod Ldap
pub mod Local
use tvpn.Base.{
  Bool, List, Option, Result, [], any, count_where, err, fail_if, false, filter, find,
  if◌then◌else◌, leb, length, list_eq, ltb, nat_eq, none, not, ok, some, take, true, update_where,
  ℕ, ◌!=◌, ◌&&◌, ◌*◌, ◌++◌, ◌+◌, ◌==◌, ◌>>=◌, ◌>>◌, ◌||◌, ◌∷◌,
}
use tvpn.Text.{Text, has_prefix, text, to_lower, trim_space}

pub data AuthSource : Type 0 where
  local_user ldap_user : AuthSource

-- A row of `users`.
pub record User : Type 0 where
  pub id : ℕ
  pub username : Text
  pub normalized_username : Text
  pub display_name : Text
  pub email : Text
  pub auth_source : AuthSource
  pub is_admin : Bool
  pub password_hash : Text
  -- `disabled_at IS NULL`
  pub is_enabled : Bool

pub record SessionRow : Type 0 where
  pub token_hash : Text
  pub user_id : ℕ
  pub csrf_token : Text
  pub expires_at : ℕ

pub record TokenRow : Type 0 where
  pub id : ℕ
  pub token_hash : Text
  pub token_prefix : Text
  pub user_id : ℕ
  pub name : Text
  pub scopes : List Text
  pub expires_at : ℕ
  pub is_revoked : Bool

pub record LdapGroup : Type 0 where
  pub id : ℕ
  pub external_dn : Text
  pub name : Text

-- `user_groups` is the table user_ldap_groups: a user with a group.
pub record AuthDb : Type 0 where
  pub users : List User
  pub ldap_groups : List LdapGroup
  pub user_groups : List (ℕ × ℕ)
  pub sessions : List SessionRow
  pub tokens : List TokenRow

pub data AuthError : Type 0 where
  invalid_credentials user_not_found query_failed no_entropy : AuthError
  unsupported_scope admin_scope_denied scope_required : AuthError
  invalid_token_metadata token_not_found username_required password_refused : AuthError

pub data Method : Type 0 where
  by_session by_token : Method

pub record Session : Type 0 where
  pub csrf_token : Text
  pub expires_at : ℕ
  pub user : User
  pub method : Method
  -- Session.Scopes, the keys of the map
  pub scopes : List Text

abbrev pub scope_proxy : Text
scope_proxy = text "proxy"

abbrev pub scope_admin : Text
scope_admin = text "admin"

abbrev pub run_query {ℓ} : {A : Type ℓ} → Bool → A → Result AuthError A
run_query true a = err query_failed
run_query false a = ok a

abbrev pub found_or {ℓ} : {A : Type ℓ} → AuthError → Option A → Result AuthError A
found_or e none = err e
found_or e (some a) = ok a

unfoldable pub normalize_username : Text → Text
normalize_username value = to_lower (trim_space value)

abbrev pub in_scopes : Text → List Text → Bool
in_scopes scope scopes = any (λ s. scope == s) scopes

-- The loop of ValidateScopes; `result` is what was accepted so far, which is what `seen` holds.
unfoldable pub validate_from : Bool → List Text → List Text → Result AuthError (List Text)
validate_from admin result [] = ok result
validate_from admin result (raw ∷ scopes) =
    let scope = trim_space raw in
    let rest =
      validate_from admin (if in_scopes scope result then result else result ++ (scope ∷ []))
        scopes in
    if scope != scope_proxy && scope != scope_admin
    then err unsupported_scope
    else if scope == scope_admin && not admin
    then err admin_scope_denied
    else rest

-- ValidateScopes
unfoldable pub validate_scopes : List Text → Bool → Result AuthError (List Text)
validate_scopes scopes admin = do
  result ← validate_from admin [] scopes
  fail_if (length result == 0) scope_required
  ok result

-- 366*24*time.Hour, in nanoseconds
abbrev pub max_token_life : ℕ
max_token_life = 366 * 24 * 3600 * 1000000000

abbrev pub token_mark : Text
token_mark = text "tvpn_pat_"

module _ (hash : Text → Text) (fails : ℕ → Bool) where
  -- Store.CreateProgramToken; `fresh` is the encoded random value.
  unfoldable pub create_program_token :
      AuthDb
      → ℕ
      → ℕ
      → Option Text
      → User
      → Text
      → List Text
      → ℕ
      → Result AuthError (AuthDb × TokenRow × Text)
  create_program_token db now id fresh user raw_name raw_scopes expires_at = do
    let name = trim_space raw_name
    fail_if
        (name == []
          || ltb 100 (length name)
          || leb expires_at now
          || ltb (now + max_token_life) expires_at)
        invalid_token_metadata
    scopes ← validate_scopes raw_scopes user.is_admin
    secret ← found_or no_entropy fresh
    let plain = token_mark ++ secret
    let value : TokenRow = record {
      id = id;
      token_hash = hash plain;
      token_prefix = take 17 plain;
      user_id = user.id;
      name = name;
      scopes = scopes;
      expires_at = expires_at;
      is_revoked = false;
    }
    let taken = any (λ t. t.token_hash == hash plain) db.tokens
    run_query (fails 0 || taken) tt
    ok (record db { tokens = value ∷ db.tokens }, value, plain)

  -- Store.ProgramTokens, without its order
  unfoldable pub program_tokens : AuthDb → ℕ → Result AuthError (List TokenRow)
  program_tokens db user =
      run_query (fails 0) (filter (λ t. t.user_id == user && not t.is_revoked) db.tokens)

  -- Store.RevokeProgramToken
  unfoldable pub revoke_program_token : AuthDb → ℕ → ℕ → Result AuthError AuthDb
  revoke_program_token db user token = do
    run_query (fails 0) tt
    let hit = λ (t : TokenRow). t.id == token && t.user_id == user && not t.is_revoked
    fail_if (count_where hit db.tokens != 1) token_not_found
    ok (record db { tokens = update_where hit (λ t. record t { is_revoked = true }) db.tokens })

  -- The user that a row joins, if it is enabled.
  abbrev pub enabled_user : AuthDb → ℕ → Option User
  enabled_user db id = find (λ u. u.id == id && u.is_enabled) db.users

  abbrev pub is_live_token : AuthDb → ℕ → Text → TokenRow → Bool
  is_live_token db now token t =
      t.token_hash == hash token && not t.is_revoked && ltb now t.expires_at

  -- Store.SessionByProgramToken
  unfoldable pub session_by_program_token : AuthDb → ℕ → Text → Result AuthError Session
  session_by_program_token db now token = do
    fail_if (not (has_prefix token token_mark)) invalid_credentials
    run_query (fails 0) tt
    t ← found_or invalid_credentials (find (is_live_token db now token) db.tokens)
    user ← found_or invalid_credentials (enabled_user db t.user_id)
    ok (record {
      csrf_token = [];
      expires_at = t.expires_at;
      user = user;
      method = by_token;
      scopes = t.scopes;
    })

  -- Store.CreateSession; the two random values are the token and the CSRF token.
  unfoldable pub create_session :
      AuthDb → ℕ → Option Text → Option Text → User → ℕ → Result AuthError (AuthDb × Text × Session)
  create_session db now fresh fresh_csrf user ttl = do
    token ← found_or no_entropy fresh
    csrf ← found_or no_entropy fresh_csrf
    let taken = any (λ s. s.token_hash == hash token) db.sessions
    run_query (fails 0 || taken) tt
    ok (
      record db {
        sessions =
            record {
              token_hash = hash token;
              user_id = user.id;
              csrf_token = csrf;
              expires_at = now + ttl;
            }
            ∷ db.sessions;
      },
      token,
      record {
        csrf_token = csrf;
        expires_at = now + ttl;
        user = user;
        method = by_session;
        scopes = [];
      },
    )

  -- Store.SessionByToken
  unfoldable pub session_by_token : AuthDb → ℕ → Text → Result AuthError Session
  session_by_token db now token = do
    run_query (fails 0) tt
    s ←
        found_or invalid_credentials
          (find (λ s. s.token_hash == hash token && ltb now s.expires_at) db.sessions)
    user ← found_or invalid_credentials (enabled_user db s.user_id)
    ok (record {
      csrf_token = s.csrf_token;
      expires_at = s.expires_at;
      user = user;
      method = by_session;
      scopes = [];
    })

  -- Store.DeleteSession
  unfoldable pub delete_session : AuthDb → Text → Result AuthError AuthDb
  delete_session db token =
      run_query (fails 0)
        (record db { sessions = filter (λ s. not (s.token_hash == hash token)) db.sessions })

  -- Store.FindUserByUsername
  unfoldable pub find_user_by_username : AuthDb → Text → Result AuthError User
  find_user_by_username db username = do
    run_query (fails 0) tt
    found_or user_not_found
        (find (λ u. u.normalized_username == normalize_username username && u.is_enabled) db.users)
