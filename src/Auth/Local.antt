-- ===== src/Auth/Local.antt =====
-- CreateLocalUser and EnsureBootstrapAdmin of internal/auth/store.go: local accounts.
use tvpn.Auth.{
  AuthDb, AuthError, User, found_or, local_user, normalize_username, password_refused, run_query,
  username_required,
}
use tvpn.Base.{
  Bool, Option, Result, [], any, arith, err, fail_if, if◌then◌else◌, length, list_eq, nat_eq, ok,
  true, ℕ, ◌!=◌, ◌==◌, ◌>>=◌, ◌>>◌, ◌||◌, ◌∷◌, ◌≡◌, ◌≢◌,
}
use tvpn.Password.{Argon, hash_password}
use tvpn.Text.{Text, trim_space}

module _ (lib : Argon) (salt : Option Text) (fails : ℕ → Bool) where
  -- Store.CreateLocalUser
  unfoldable pub create_local_user :
      AuthDb → ℕ → Text → Text → Text → Text → Bool → Result AuthError (AuthDb × User)
  create_local_user db id username display_name email password admin = do
    secret ← found_or password_refused (hash_password lib salt password)
    let user : User = record {
      id = id;
      username = trim_space username;
      normalized_username = normalize_username (trim_space username);
      display_name = trim_space display_name;
      email = trim_space email;
      auth_source = local_user;
      is_admin = admin;
      password_hash = secret;
      is_enabled = true;
    }
    fail_if (trim_space username == []) username_required
    let taken = any (λ u. u.id == id || u.normalized_username == user.normalized_username) db.users
    run_query (fails 1 || taken) tt
    ok (record db { users = user ∷ db.users }, user)

  created_db : Result AuthError (AuthDb × User) → Result AuthError AuthDb
  created_db (err e) = err e
  created_db (ok (db, user)) = ok db

  -- Store.EnsureBootstrapAdmin
  unfoldable pub ensure_bootstrap_admin : AuthDb → ℕ → Text → Text → Result AuthError AuthDb
  unfolding created_db
  ensure_bootstrap_admin db id username password =
      if trim_space username == []
      then ok db
      else (run_query (fails 0) tt
          >> (if length db.users != 0
              then ok db
              else created_db (create_local_user db id username username [] password true)))

  -- Where there are users already the bootstrap changes nothing, so it makes nobody an administrator.
  pub ensure_bootstrap_admin-users :
      (db db' : AuthDb) (id : ℕ) (username password : Text)
      → length db.users ≢ 0
      → ensure_bootstrap_admin db id username password ≡ ok db'
      → db' ≡ db
  unfolding ensure_bootstrap_admin
  ensure_bootstrap_admin-users db db' id username password h e = ground arith
