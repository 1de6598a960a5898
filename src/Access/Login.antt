-- ===== src/Access/Login.antt =====
-- HTTP.authenticate of internal/auth/http.go: a name and a password. The directory is a parameter.
use tvpn.Auth.{
  AuthDb, AuthError, User, find_user_by_username, invalid_credentials, local_user, user_not_found,
}
use tvpn.Auth.Ldap.{LdapIdentity, is_ldap, upsert_ldap_user}
use tvpn.Base.{Bool, Option, Result, arith, err, if◌then◌else◌, none, not, ok, some, ℕ, ◌≡◌}
use tvpn.Password.{Argon, verify_password}
use tvpn.Text.{Text}

module _ (hash : Text → Text) (argon : Argon) (fails fails_upsert : ℕ → Bool) (fresh : ℕ → ℕ) where
  -- `none` is the directory that is not configured.
  abbrev pub Directory : Type 0
  Directory = Option (Text → Text → Option LdapIdentity)

  unfoldable pub ask_directory : Option LdapIdentity → AuthDb → ℕ → Result AuthError (AuthDb × User)
  ask_directory none db id = err invalid_credentials
  ask_directory (some who) db id = upsert_ldap_user fails_upsert fresh db id who

  -- What follows where no local account decides.
  unfoldable pub by_directory :
      Directory → AuthDb → ℕ → Text → Text → Result AuthError (AuthDb × User)
  unfolding ask_directory
  by_directory none db id username password = err invalid_credentials
  by_directory (some ask) db id username password = ask_directory (ask username password) db id

  -- The user that was found, or the error of the search.
  unfoldable pub decide_login :
      Result AuthError User
      → Directory
      → AuthDb
      → ℕ
      → Text
      → Text
      → Result AuthError (AuthDb × User)
  unfolding by_directory
  decide_login (ok user) directory db id username password =
      if not (is_ldap user)
      then (if verify_password argon password user.password_hash
          then ok (db, user)
          else err invalid_credentials)
      else by_directory directory db id username password
  decide_login (err user_not_found) directory db id username password =
      by_directory directory db id username password
  decide_login (err e) directory db id username password = err invalid_credentials

  unfoldable pub authenticate :
      Directory → AuthDb → ℕ → Text → Text → Result AuthError (AuthDb × User)
  unfolding decide_login
  authenticate directory db id username password =
      decide_login (find_user_by_username hash fails db username) directory db id username password

  -- The name of an enabled local account is decided by its password alone: the directory is not asked,
  -- and nothing is stored.
  pub authenticate-local :
      (directory : Directory) (db : AuthDb) (id : ℕ) (username password : Text) (user : User)
      → find_user_by_username hash fails db username ≡ ok user
      → user.auth_source ≡ local_user
      → authenticate directory db id username password ≡ (
          if verify_password argon password user.password_hash
          then ok (db, user)
          else err invalid_credentials)
  unfolding authenticate decide_login
  authenticate-local directory db id username password user found is_local = ground arith
