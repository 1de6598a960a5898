-- ===== src/Admin/LastAdmin.antt =====
-- The guard of updateUser in internal/admin/http.go: an enabled administrator remains.
use tvpn.Admin.{
  AdminDb, UserChange, UserInput, apply_change, audit, changed_by, check_last_admin, create_user,
  has_user_id, is_active_admin, is_local_id, list_users, set_password, takes_away, update_user,
}
use tvpn.Admin.Assignments.{
  replace_assignments, replace_direct_assignments, replace_resource_assignments,
  set_direct_access_groups, set_direct_access_users, set_direct_assignments, set_group_policies,
  set_upstream_assignments, set_upstream_proxy_groups, set_upstream_proxy_users, set_user_policies,
}
use tvpn.Admin.Counts.{
  count_where-kept, count_where-none, count_where-same, count_where-unaffected,
  count_where-update_where,
}
use tvpn.Admin.Directory.{get_ldap, list_audit, list_groups, test_ldap, update_ldap}
use tvpn.Admin.Outputs.{
  create_upstream_proxy, delete_upstream_proxy, get_direct_access, list_upstream_proxies,
  update_direct_access, update_upstream_proxy,
}
use tvpn.Admin.Policies.{create_policy, delete_policy, list_policies, policies_of, update_policy}
use tvpn.Admin.Routes.{
  AdminCall, AdminEnv, AdminRequest, Reach, delete_policy_at, delete_proxy_at, get_audit,
  get_direct, get_groups, get_ldap_settings, get_policies, get_upstream_proxies, get_users,
  handle_admin, here, patch_user, post_password, post_policy, post_proxy, post_user, put_direct,
  put_direct_groups, put_direct_users, put_group_policies, put_ldap, put_policy_at, put_proxy_at,
  put_proxy_groups, put_proxy_users, put_user_policies, step, test_ldap_settings,
}
use tvpn.Auth.{AuthDb, User, normalize_username}
use tvpn.Auth.Local.{create_local_user}
use tvpn.Base.{
  Bool, Bool-cases, List, Option, Option-cases, Result-cases, any, arith, count_where, false, inl,
  inr, list_eq, nat_eq, none, ok, refl, some, true, update_where, ℕ, ◌&&◌, ◌==◌, ◌||◌, ◌∷◌, ◌≡◌,
  ◌≤◌, ◌⊎◌,
}
use tvpn.Password.{Argon, hash_password}
use tvpn.Text.{Text, trim_space}

-- Identifiers are distinct, and some enabled user is an administrator.
pub record IsStaffed (users : List User) : Type 0 where
  pub keys : (id : ℕ) → count_where (has_user_id id) users ≤ 1
  pub staffed : 1 ≤ count_where is_active_admin users

unchanged-IsStaffed : (old new : List User) → new ≡ old → IsStaffed old → IsStaffed new
unchanged-IsStaffed old new e s = rw e s

-- What a call must not meet for the guard to hold: the guard's first query fails.
abbrev pub IsFair : AdminCall → Type 0
IsFair c = c.fails 0 ≡ false

-- A change that takes nothing away keeps an administrator one.
changed-active :
    (change : UserChange) (u : User)
    → takes_away change ≡ false
    → is_active_admin u ≡ true
    → is_active_admin (changed_by change u) ≡ true
unfolding changed_by
changed-active change u h active = ground arith

changed-keys :
    (change : UserChange) (id : ℕ) (users : List User)
    → ((k : ℕ) → count_where (has_user_id k) users ≤ 1)
    → (k : ℕ)
    → count_where (has_user_id k) (update_where (has_user_id id) (changed_by change) users) ≤ 1
unfolding changed_by
changed-keys change id users keys k = ground (
  arith,
  count_where-same (has_user_id k) (has_user_id id) (changed_by change) users (λ u h. refl),
  keys k,
)

-- The guard let the change through: it takes nothing away, or the user is no active administrator, or
-- there are two.
guard-cases :
    (actor : ℕ) (show_id : ℕ → Text) (fails : ℕ → Bool) (db : AdminDb) (id : ℕ)
    (change : UserChange) {u : Unit {0}}
    → fails 0 ≡ false
    → check_last_admin actor show_id fails db id change ≡ ok u
    → (takes_away change ≡ false)
      ⊎ ((any (λ u. has_user_id id u && is_active_admin u) db.accounts.users ≡ false)
          ⊎ (2 ≤ count_where is_active_admin db.accounts.users))
unfolding check_last_admin
guard-cases actor show_id fails db id change fair passed =
    let users = db.accounts.users in
    elim (Bool-cases (takes_away change)) [
      | inr harmless ↦ inl harmless
      | inl taking ↦ elim (Bool-cases (any (λ u. has_user_id id u && is_active_admin u) users)) [
        | inr passive ↦ inr (inl passive)
        | inl active ↦ inr (
            inr (elim (Bool-cases (fails 1)) [
              | inl failed ↦ absurd (ground arith)
              | inr counted ↦ ground arith
            ]))
      ]
    ]

changed-staffed :
    (change : UserChange) (id : ℕ) (users : List User)
    → IsStaffed users
    → (takes_away change ≡ false)
      ⊎ ((any (λ u. has_user_id id u && is_active_admin u) users ≡ false)
          ⊎ (2 ≤ count_where is_active_admin users))
    → 1 ≤ count_where is_active_admin (update_where (has_user_id id) (changed_by change) users)
changed-staffed change id users s (inl harmless) = ground (
  arith,
  s.staffed,
  count_where-kept is_active_admin (has_user_id id) (changed_by change) users
      (λ u. changed-active change u harmless),
)
changed-staffed change id users s (inr (inl passive)) = ground (
  arith,
  s.staffed,
  count_where-unaffected is_active_admin (has_user_id id) (changed_by change) users passive,
)
changed-staffed change id users s (inr (inr two)) = ground (
  arith,
  s.keys id,
  count_where-update_where is_active_admin (has_user_id id) (changed_by change) users,
)

update_user-IsStaffed :
    (actor : ℕ) (show_id : ℕ → Text) (fails : ℕ → Bool) (db : AdminDb) (path : Option ℕ)
    (body : Option UserChange)
    → fails 0 ≡ false
    → IsStaffed db.accounts.users
    → IsStaffed (update_user actor show_id fails db path body).0.accounts.users
unfolding update_user apply_change audit
update_user-IsStaffed actor show_id fails db none body fair s = s
update_user-IsStaffed actor show_id fails db (some id) none fair s = s
update_user-IsStaffed actor show_id fails db (some id) (some change) fair s =
    elim (Result-cases (check_last_admin actor show_id fails db id change)) [
      | inr (code, refused) ↦ unchanged-IsStaffed db.accounts.users _ (ground arith) s
      | inl (passed, e) ↦ elim (Bool-cases (fails 2)) [
        | inl failed ↦ unchanged-IsStaffed db.accounts.users _ (ground arith) s
        | inr ran ↦
            unchanged-IsStaffed
              (update_where (has_user_id id) (changed_by change) db.accounts.users) _ (ground arith)
              (record {
                keys = changed-keys change id db.accounts.users s.keys;
                staffed =
                    changed-staffed change id db.accounts.users s
                      (guard-cases actor show_id fails db id change fair e);
              })
      ]
    ]

created-fresh :
    (lib : Argon) (salt : Option Text) (fails : ℕ → Bool) (db new : AuthDb) (id : ℕ)
    (username display_name email password : Text) (admin : Bool) (user : User)
    → create_local_user lib salt fails db id username display_name email password admin
      ≡ ok (new, user)
    → (new.users ≡ user ∷ db.users)
      × (user.id ≡ id)
      × (any
            (λ u. u.id == id || u.normalized_username == normalize_username (trim_space username))
            db.users
          ≡ false)
unfolding create_local_user
created-fresh lib salt fails db new id username display_name email password admin user h =
    elim (Option-cases (hash_password lib salt password)) [
      | inl none_made ↦ absurd (ground arith)
      | inr (secret, e) ↦ (ground arith, ground arith, ground arith)
    ]

added-IsStaffed :
    (user : User) (id : ℕ) (name : Text) (users : List User)
    → user.id ≡ id
    → any (λ u. u.id == id || u.normalized_username == name) users ≡ false
    → IsStaffed users
    → IsStaffed (user ∷ users)
added-IsStaffed user id name users same fresh s = record {
  keys = λ k. elim (Bool-cases (id == k)) [
    | inl new ↦
        let id_is_k : id ≡ k = ground arith in
        let unused =
          count_where-none (has_user_id k) (λ u. u.id == id || u.normalized_username == name) users
            (λ u h. ground arith) fresh in
        ground (arith, unused)
    | inr old ↦ ground (arith, s.keys k)
  ];
  staffed = ground (arith, s.staffed);
}

create_user-IsStaffed :
    (actor : ℕ) (show_id : ℕ → Text) (fails : ℕ → Bool) (lib : Argon) (salt : Option Text)
    (db : AdminDb) (id : ℕ) (body : Option UserInput)
    → IsStaffed db.accounts.users
    → IsStaffed (create_user actor show_id fails lib salt db id body).0.accounts.users
unfolding create_user audit
create_user-IsStaffed actor show_id fails lib salt db id none s = s
create_user-IsStaffed actor show_id fails lib salt db id (some input) s =
    elim (Result-cases (
      create_local_user lib salt fails db.accounts id input.username input.display_name input.email
        input.password input.is_admin)) [
          | inr (code, refused) ↦ unchanged-IsStaffed db.accounts.users _ (ground arith) s
          | inl ((accounts, user), e) ↦
              let (added, same, fresh) =
                created-fresh lib salt fails db.accounts accounts id input.username
                  input.display_name input.email input.password input.is_admin user e in
              unchanged-IsStaffed (user ∷ db.accounts.users) _ (ground arith)
                (added-IsStaffed user id _ db.accounts.users same fresh s)
        ]

-- A new password changes no count of users but by their password.
set_password-count :
    (actor : ℕ) (show_id : ℕ → Text) (fails : ℕ → Bool) (lib : Argon) (salt : Option Text)
    (db : AdminDb) (path : Option ℕ) (body : Option Text) (p : User → Bool)
    → ((hash : Text) (u : User) → p (record u { password_hash = hash }) ≡ p u)
    → count_where p (set_password actor show_id fails lib salt db path body).0.accounts.users
      ≡ count_where p db.accounts.users
unfolding set_password audit
set_password-count actor show_id fails lib salt db none body p same = refl
set_password-count actor show_id fails lib salt db (some id) none p same = refl
set_password-count actor show_id fails lib salt db (some id) (some password) p same =
    elim (Option-cases (hash_password lib salt password)) [
      | inl none_made ↦ ground arith
      | inr (hash, e) ↦ ground (
        arith,
        count_where-same p (is_local_id id) (λ u. record u { password_hash = hash })
            db.accounts.users (λ u h. same hash u),
      )
    ]

set_password-IsStaffed :
    (actor : ℕ) (show_id : ℕ → Text) (fails : ℕ → Bool) (lib : Argon) (salt : Option Text)
    (db : AdminDb) (path : Option ℕ) (body : Option Text)
    → IsStaffed db.accounts.users
    → IsStaffed (set_password actor show_id fails lib salt db path body).0.accounts.users
unfolding set_password audit
set_password-IsStaffed actor show_id fails lib salt db path body s =
    let same = set_password-count actor show_id fails lib salt db path body in
    record {
      keys = λ k. rw (same (has_user_id k) (λ hash u. refl)) (s.keys k);
      staffed = rw (same is_active_admin (λ hash u. refl)) s.staffed;
    }

-- The requests that may change the users.
abbrev touches_users : AdminRequest → Bool
touches_users (post_user body) = true
touches_users (patch_user path body) = true
touches_users (post_password path body) = true
touches_users _ = false

keep_users :
    {Conn : Type 0} (env : AdminEnv Conn) (db : AdminDb) (c : AdminCall) (request : AdminRequest)
    → touches_users request ≡ false
    → (handle_admin env db c request).0.accounts.users ≡ db.accounts.users
unfolding handle_admin list_users list_policies policies_of get_ldap test_ldap audit list_groups
    list_upstream_proxies get_direct_access list_audit set_user_policies replace_assignments
    set_group_policies set_upstream_proxy_users set_upstream_assignments
    replace_resource_assignments set_upstream_proxy_groups create_policy update_policy delete_policy
    delete_upstream_proxy update_ldap create_upstream_proxy update_upstream_proxy
    update_direct_access set_direct_access_users set_direct_assignments replace_direct_assignments
    set_direct_access_groups
keep_users env db c get_users h = ground arith
keep_users env db c get_policies h = ground arith
keep_users env db c get_ldap_settings h = ground arith
keep_users env db c test_ldap_settings h = ground arith
keep_users env db c get_groups h = ground arith
keep_users env db c get_upstream_proxies h = ground arith
keep_users env db c get_direct h = ground arith
keep_users env db c get_audit h = ground arith
keep_users env db c (put_user_policies path body) h = ground arith
keep_users env db c (put_group_policies path body) h = ground arith
keep_users env db c (put_proxy_users path body) h = ground arith
keep_users env db c (put_proxy_groups path body) h = ground arith
keep_users env db c (post_policy body) h = ground arith
keep_users env db c (put_policy_at path body) h = ground arith
keep_users env db c (delete_policy_at path) h = ground arith
keep_users env db c (delete_proxy_at path) h = ground arith
keep_users env db c (put_ldap body) h = ground arith
keep_users env db c (post_proxy body) h = ground arith
keep_users env db c (put_proxy_at path body) h = ground arith
keep_users env db c (put_direct body) h = ground arith
keep_users env db c (put_direct_users body) h = ground arith
keep_users env db c (put_direct_groups body) h = ground arith
keep_users env db c (post_user body) h = cc
keep_users env db c (patch_user path body) h = cc
keep_users env db c (post_password path body) h = cc

-- Every handler keeps the identifiers distinct and an enabled administrator, if the first query of the
-- guard does not fail.
handle_admin-IsStaffed :
    {Conn : Type 0} (env : AdminEnv Conn) (db : AdminDb) (c : AdminCall) (request : AdminRequest)
    → IsFair c
    → IsStaffed db.accounts.users
    → IsStaffed (handle_admin env db c request).0.accounts.users
unfolding handle_admin
handle_admin-IsStaffed env db c (post_user body) fair s =
    create_user-IsStaffed c.actor env.show_id c.fails env.argon c.salt db (c.fresh 0) body s
handle_admin-IsStaffed env db c (patch_user path body) fair s =
    update_user-IsStaffed c.actor env.show_id c.fails db path body fair s
handle_admin-IsStaffed env db c (post_password path body) fair s =
    set_password-IsStaffed c.actor env.show_id c.fails env.argon c.salt db path body s
handle_admin-IsStaffed env db c request fair s =
    unchanged-IsStaffed db.accounts.users _ (keep_users env db c request refl) s

-- Whatever the administration is asked, one request after the other, an enabled administrator remains, if
-- there is one at first, identifiers are distinct and the guard's first query never fails.
pub Reach-IsStaffed :
    {Conn : Type 0} (env : AdminEnv Conn) (start db : AdminDb)
    → IsStaffed start.accounts.users
    → Reach env IsFair start db
    → IsStaffed db.accounts.users
Reach-IsStaffed env start db s here = s
Reach-IsStaffed env start db s (step {db = before} c reached fair) =
    handle_admin-IsStaffed env before c c.request fair (Reach-IsStaffed env start before s reached)

-- The guard fails open: where its first query fails, the change is made whatever it takes away.
pub update_user-unguarded :
    (actor : ℕ) (show_id : ℕ → Text) (fails : ℕ → Bool) (db : AdminDb) (id : ℕ)
    (change : UserChange)
    → fails 0 ≡ true
    → fails 2 ≡ false
    → (update_user actor show_id fails db (some id) (some change)).0.accounts.users
      ≡ update_where (has_user_id id) (changed_by change) db.accounts.users
unfolding update_user check_last_admin apply_change audit
update_user-unguarded actor show_id fails db id change failed ran = ground arith
