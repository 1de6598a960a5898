-- ===== src/Admin.antt =====
-- internal/admin/http.go: the handlers of the administration. This file holds the state they share, the
-- answers they give and the handlers of accounts. `fails n` says that statement number n of a handler
-- fails. A path or a body that cannot be read is `none`.
pub mod Assignments
pub mod Policies
pub mod Outputs
pub mod Directory
pub mod Routes
pub mod Counts
pub mod LastAdmin
pub mod Race
pub mod Saved
pub mod Replaced
pub mod Errors
pub mod Passwords
use tvpn.Auth.{AuthDb, AuthSource, User, ldap_user, local_user}
use tvpn.Auth.Local.{create_local_user}
use tvpn.Base.{
  Bool, List, Option, Result, any, count_where, err, fail_if, false, filter, if◌then◌else◌, leb,
  list_eq, map, nat_eq, none, not, ok, some, true, update_where, ℕ, ◌!=◌, ◌&&◌, ◌==◌, ◌>>=◌, ◌>>◌,
  ◌||◌, ◌∷◌,
}
use tvpn.Ldap.{Settings}
use tvpn.Password.{Argon, hash_password}
use tvpn.Policy.{Policy}
use tvpn.Policy.Effective.{Tables}
use tvpn.Problems.{
  ErrorCode, err_internal, err_invalid_id, err_invalid_password, err_invalid_request,
  err_invalid_user, err_last_admin,
}
use tvpn.Text.{Text, text}
use tvpn.Upstream.{Upstream, UpstreamDb}

-- A row of `audit_events`, without its detail and its time.
pub record AuditEvent : Type 0 where
  pub actor : ℕ
  pub event_type : Text
  pub outcome : Text
  pub target : Text

-- The database as the administration sees it; the newest event is the first.
pub record AdminDb : Type 0 where
  pub accounts : AuthDb
  pub access : Tables
  pub outputs : UpstreamDb
  pub directory : Settings
  pub events : List AuditEvent

-- What listUsers shows of a user: not the hash of the password.
pub record UserItem : Type 0 where
  pub id : ℕ
  pub username : Text
  pub display_name : Text
  pub email : Text
  pub auth_source : AuthSource
  pub is_admin : Bool
  pub is_enabled : Bool
  pub policy_ids : List ℕ

pub record GroupItem : Type 0 where
  pub id : ℕ
  pub external_dn : Text
  pub name : Text
  pub policy_ids : List ℕ

pub record ProxyItem : Type 0 where
  pub proxy : Upstream
  pub user_ids : List ℕ
  pub group_ids : List ℕ

pub data Reply : Type 0 where
  no_content : Reply
  problem : ErrorCode → Reply
  created_user : User → Reply
  created : ℕ → Reply
  user_items : List UserItem → Reply
  policy_items : List Policy → Reply
  group_items : List GroupItem → Reply
  proxy_items : List ProxyItem → Reply
  direct_access_item : Bool → List ℕ → List ℕ → Reply
  ldap_item : Settings → Bool → Reply
  audit_items : List AuditEvent → Reply

abbrev pub Answer : Type 0
Answer = AdminDb × Reply

-- An early return with a problem leaves the database as it is.
abbrev pub answer : AdminDb → Result ErrorCode Answer → Answer
answer db (err code) = (db, problem code)
answer db (ok a) = a

abbrev pub given {ℓ} : {A : Type ℓ} → ErrorCode → Option A → Result ErrorCode A
given code none = err code
given code (some a) = ok a

-- An error of another part, answered by a code.
abbrev pub as_code {ℓ κ} : {A : Type ℓ} {E : Type κ} → ErrorCode → Result E A → Result ErrorCode A
as_code code (err e) = err code
as_code code (ok a) = ok a

-- What a PATCH of a user may hold.
pub record UserChange : Type 0 where
  pub display_name : Option Text
  pub email : Option Text
  pub is_admin : Option Bool
  pub disabled : Option Bool

pub record UserInput : Type 0 where
  pub username : Text
  pub display_name : Text
  pub email : Text
  pub password : Text
  pub is_admin : Bool

-- COALESCE
abbrev pub coalesce {ℓ} : {A : Type ℓ} → Option A → A → A
coalesce none old = old
coalesce (some new) old = new

abbrev pub is_some_bool : Bool → Option Bool → Bool
is_some_bool b none = false
is_some_bool true (some c) = c
is_some_bool false (some c) = not c

abbrev pub is_active_admin : User → Bool
is_active_admin u = u.is_admin && u.is_enabled

abbrev pub has_user_id : ℕ → User → Bool
has_user_id id u = u.id == id

-- The SET of the UPDATE.
unfoldable pub changed_by : UserChange → User → User
changed_by change u = record u {
  display_name = coalesce change.display_name u.display_name;
  email = coalesce change.email u.email;
  is_admin = coalesce change.is_admin u.is_admin;
  is_enabled = elim change.disabled [ none ↦ u.is_enabled | some disabled ↦ not disabled ];
}

-- The request takes the rights of an administrator away or disables an account.
abbrev pub takes_away : UserChange → Bool
takes_away change = is_some_bool false change.is_admin || is_some_bool true change.disabled

abbrev pub with_users : AdminDb → List User → AdminDb
with_users db users = record db { accounts = record db.accounts { users = users } }

abbrev pub is_local_id : ℕ → User → Bool
is_local_id id u = u.id == id && elim u.auth_source [ local_user ↦ true | ldap_user ↦ false ]

module _ (actor : ℕ) (show_id : ℕ → Text) (fails : ℕ → Bool) where
  -- HTTP.audit; a failed INSERT is ignored.
  unfoldable pub audit : ℕ → AdminDb → Text → Text → Text → AdminDb
  audit n db event_type outcome target = if fails n then db else record db {
    events =
        record { actor = actor; event_type = event_type; outcome = outcome; target = target }
        ∷ db.events;
  }

  abbrev pub succeeded : ℕ → AdminDb → Text → ℕ → AdminDb
  succeeded n db event_type id = audit n db event_type (text "success") (show_id id)

  abbrev pub user_item : AdminDb → User → UserItem
  user_item db u = record {
    id = u.id;
    username = u.username;
    display_name = u.display_name;
    email = u.email;
    auth_source = u.auth_source;
    is_admin = u.is_admin;
    is_enabled = u.is_enabled;
    policy_ids =
        map (λ (r : ℕ × ℕ). r.1) (filter (λ (r : ℕ × ℕ). r.0 == u.id) db.access.user_policies);
  }

  -- HTTP.listUsers, without its order
  unfoldable pub list_users : AdminDb → Answer
  list_users db = answer db (do
    fail_if (fails 0) err_internal
    ok (db, user_items (map (user_item db) db.accounts.users)))

  -- HTTP.createUser
  unfoldable pub create_user : Argon → Option Text → AdminDb → ℕ → Option UserInput → Answer
  create_user lib salt db id body = answer db (do
    input ← given err_invalid_request body
    (accounts, user) ← as_code err_invalid_user (
        create_local_user lib salt fails db.accounts id input.username input.display_name
          input.email input.password input.is_admin)
    ok (
      succeeded 2 (record db { accounts = accounts }) (text "user.create") user.id,
      created_user user,
    ))

  -- The guard of updateUser: a request that would take away an enabled administrator needs another
  -- one. A first query that fails or finds no row lets the request through; a count that fails is 0.
  unfoldable pub check_last_admin : AdminDb → ℕ → UserChange → Result ErrorCode (Unit {0})
  check_last_admin db id change =
      let users = db.accounts.users in
      let active = not (fails 0) && any (λ u. has_user_id id u && is_active_admin u) users in
      let count = if fails 1 then 0 else count_where is_active_admin users in
      fail_if (takes_away change && active && leb count 1) err_last_admin

  -- The UPDATE of updateUser and what follows it.
  unfoldable pub apply_change : AdminDb → ℕ → UserChange → Result ErrorCode Answer
  unfolding changed_by audit
  apply_change db id change = do
    fail_if (fails 2) err_internal
    let users = update_where (has_user_id id) (changed_by change) db.accounts.users
    ok (succeeded 3 (with_users db users) (text "user.update") id, no_content)

  -- HTTP.updateUser
  unfoldable pub update_user : AdminDb → Option ℕ → Option UserChange → Answer
  unfolding check_last_admin apply_change
  update_user db path body = answer db (do
    id ← given err_invalid_id path
    change ← given err_invalid_request body
    check_last_admin db id change
    apply_change db id change)

  -- HTTP.setPassword; the DELETE of the sessions may fail unnoticed.
  unfoldable pub set_password : Argon → Option Text → AdminDb → Option ℕ → Option Text → Answer
  unfolding audit
  set_password lib salt db path body = answer db (do
    id ← given err_invalid_id path
    password ← given err_invalid_request body
    hash ← given err_invalid_password (hash_password lib salt password)
    let users = db.accounts.users
    fail_if (fails 0 || count_where (is_local_id id) users != 1) err_invalid_user
    let accounts = record db.accounts {
      users = update_where (is_local_id id) (λ u. record u { password_hash = hash }) users;
      sessions =
          if fails 1
          then db.accounts.sessions
          else filter (λ s. not (s.user_id == id)) db.accounts.sessions;
    }
    ok (succeeded 2 (record db { accounts = accounts }) (text "user.password") id, no_content))
