-- ===== src/Admin/Errors.antt =====
-- What an administrator's request that is answered by a problem has changed.
use tvpn.Admin.{
  AdminDb, apply_change, check_last_admin, create_user, list_users, problem, set_password,
  update_user,
}
use tvpn.Admin.Assignments.{
  replace_assignments, replace_direct_assignments, replace_resource_assignments,
  set_direct_access_groups, set_direct_access_users, set_direct_assignments, set_group_policies,
  set_upstream_assignments, set_upstream_proxy_groups, set_upstream_proxy_users, set_user_policies,
}
use tvpn.Admin.Directory.{get_ldap, list_audit, list_groups, update_ldap}
use tvpn.Admin.Outputs.{
  create_upstream_proxy, delete_upstream_proxy, get_direct_access, list_upstream_proxies,
  update_direct_access, update_upstream_proxy,
}
use tvpn.Admin.Policies.{create_policy, delete_policy, list_policies, policies_of, update_policy}
use tvpn.Admin.Routes.{
  AdminCall, AdminEnv, AdminRequest, delete_policy_at, delete_proxy_at, get_audit, get_direct,
  get_groups, get_ldap_settings, get_policies, get_upstream_proxies, get_users, handle_admin,
  patch_user, post_password, post_policy, post_proxy, post_user, put_direct, put_direct_groups,
  put_direct_users, put_group_policies, put_ldap, put_policy_at, put_proxy_at, put_proxy_groups,
  put_proxy_users, put_user_policies, test_ldap_settings,
}
use tvpn.Base.{Bool, arith, false, true, ◌≡◌}
use tvpn.Problems.{ErrorCode}

-- testLDAP records its failures.
abbrev pub is_ldap_test : AdminRequest → Bool
is_ldap_test test_ldap_settings = true
is_ldap_test _ = false

module _ {Conn : Type 0} (env : AdminEnv Conn) (db : AdminDb) (c : AdminCall)
    (code : ErrorCode) where
  -- A request that is answered by a problem, but for the test of the directory, leaves the whole database
  -- as it was, the audit log included.
  pub handle_admin-problem :
      (request : AdminRequest)
      → is_ldap_test request ≡ false
      → (handle_admin env db c request).1 ≡ problem code
      → (handle_admin env db c request).0 ≡ db
  unfolding handle_admin list_users list_policies policies_of get_ldap list_groups
      list_upstream_proxies get_direct_access list_audit set_user_policies replace_assignments
      set_group_policies set_upstream_proxy_users set_upstream_assignments
      replace_resource_assignments set_upstream_proxy_groups create_policy update_policy
      delete_policy delete_upstream_proxy update_ldap create_upstream_proxy update_upstream_proxy
      update_direct_access set_direct_access_users set_direct_assignments replace_direct_assignments
      set_direct_access_groups create_user update_user apply_change check_last_admin set_password
  handle_admin-problem get_users other h = ground arith
  handle_admin-problem get_policies other h = ground arith
  handle_admin-problem get_ldap_settings other h = ground arith
  handle_admin-problem get_groups other h = ground arith
  handle_admin-problem get_upstream_proxies other h = ground arith
  handle_admin-problem get_direct other h = ground arith
  handle_admin-problem get_audit other h = ground arith
  handle_admin-problem (put_user_policies path body) other h = ground arith
  handle_admin-problem (put_group_policies path body) other h = ground arith
  handle_admin-problem (put_proxy_users path body) other h = ground arith
  handle_admin-problem (put_proxy_groups path body) other h = ground arith
  handle_admin-problem (post_policy body) other h = ground arith
  handle_admin-problem (put_policy_at path body) other h = ground arith
  handle_admin-problem (delete_policy_at path) other h = ground arith
  handle_admin-problem (delete_proxy_at path) other h = ground arith
  handle_admin-problem (put_ldap body) other h = ground arith
  handle_admin-problem (post_proxy body) other h = ground arith
  handle_admin-problem (put_proxy_at path body) other h = ground arith
  handle_admin-problem (put_direct body) other h = ground arith
  handle_admin-problem (put_direct_users body) other h = ground arith
  handle_admin-problem (put_direct_groups body) other h = ground arith
  handle_admin-problem (post_user body) other h = ground arith
  handle_admin-problem (patch_user path body) other h = ground arith
  handle_admin-problem (post_password path body) other h = ground arith
  handle_admin-problem test_ldap_settings other h = cc
