-- ===== src/Admin/Routes.antt =====
-- HTTP.Routes of internal/admin/http.go: the requests of the administration, one constructor for each
-- route, and the handler of each.
use tvpn.Admin.{
  AdminDb, Answer, UserChange, UserInput, create_user, list_users, set_password, update_user,
}
use tvpn.Admin.Assignments.{
  set_direct_access_groups, set_direct_access_users, set_group_policies, set_upstream_proxy_groups,
  set_upstream_proxy_users, set_user_policies,
}
use tvpn.Admin.Directory.{get_ldap, list_audit, list_groups, test_ldap, update_ldap}
use tvpn.Admin.Outputs.{
  create_upstream_proxy, delete_upstream_proxy, get_direct_access, list_upstream_proxies,
  update_direct_access, update_upstream_proxy,
}
use tvpn.Admin.Policies.{PolicyInput, create_policy, delete_policy, list_policies, update_policy}
use tvpn.Base.{Bool, List, Option, ℕ}
use tvpn.Cookies.{Aead}
use tvpn.Ldap.{LdapLib, Service, Settings}
use tvpn.Net.{Addr, Parsers}
use tvpn.Password.{Argon}
use tvpn.Text.{Text}
use tvpn.Upstream.{UpstreamInput}

-- The libraries and the settings of the server that the handlers use.
pub record AdminEnv (Conn : Type 0) : Type 0 where
  pub argon : Argon
  pub parsers : Parsers
  pub aead : Aead
  pub show_id : ℕ → Text
  pub show_addr : Addr → Text
  pub is_ip : Text → Bool
  pub ldap : LdapLib Conn
  pub service : Service

-- A path parameter or a body that cannot be read is `none`.
pub data AdminRequest : Type 0 where
  get_users get_policies get_ldap_settings test_ldap_settings get_groups : AdminRequest
  get_upstream_proxies get_direct get_audit : AdminRequest
  post_user : Option UserInput → AdminRequest
  patch_user : Option ℕ → Option UserChange → AdminRequest
  post_password : Option ℕ → Option Text → AdminRequest
  put_user_policies put_group_policies : Option ℕ → Option (List ℕ) → AdminRequest
  put_proxy_users put_proxy_groups : Option ℕ → Option (List ℕ) → AdminRequest
  post_policy : Option PolicyInput → AdminRequest
  put_policy_at : Option ℕ → Option PolicyInput → AdminRequest
  delete_policy_at delete_proxy_at : Option ℕ → AdminRequest
  put_ldap : Option Settings → AdminRequest
  post_proxy : Option UpstreamInput → AdminRequest
  put_proxy_at : Option ℕ → Option UpstreamInput → AdminRequest
  put_direct : Option Bool → AdminRequest
  put_direct_users put_direct_groups : Option (List ℕ) → AdminRequest

-- A request with who sends it, which statements fail, the new identifiers and the random bytes.
pub record AdminCall : Type 0 where
  pub request : AdminRequest
  pub actor : ℕ
  pub fails : ℕ → Bool
  pub fresh : ℕ → ℕ
  pub salt : Option Text

module _ {Conn : Type 0} (env : AdminEnv Conn) (db : AdminDb) where
  -- The requests for policies and accounts.
  unfoldable pub handle_admin : AdminCall → AdminRequest → Answer
  handle_admin c get_users = list_users c.actor env.show_id c.fails db
  handle_admin c get_policies = list_policies c.fails db
  handle_admin c get_ldap_settings =
      get_ldap c.fails env.ldap env.parsers.parse_url env.service c.actor env.show_id db
  handle_admin c test_ldap_settings =
      test_ldap c.fails env.ldap env.parsers.parse_url env.service c.actor env.show_id db
  handle_admin c get_groups = list_groups c.fails db
  handle_admin c get_upstream_proxies = list_upstream_proxies c.fails db
  handle_admin c get_direct = get_direct_access c.fails db
  handle_admin c get_audit = list_audit c.fails db
  handle_admin c (post_user body) =
      create_user c.actor env.show_id c.fails env.argon c.salt db (c.fresh 0) body
  handle_admin c (patch_user path body) = update_user c.actor env.show_id c.fails db path body
  handle_admin c (post_password path body) =
      set_password c.actor env.show_id c.fails env.argon c.salt db path body
  handle_admin c (put_user_policies path body) =
      set_user_policies c.fails c.actor env.show_id db path body
  handle_admin c (put_group_policies path body) =
      set_group_policies c.fails c.actor env.show_id db path body
  handle_admin c (put_proxy_users path body) =
      set_upstream_proxy_users c.fails c.actor env.show_id db path body
  handle_admin c (put_proxy_groups path body) =
      set_upstream_proxy_groups c.fails c.actor env.show_id db path body
  handle_admin c (post_policy body) =
      create_policy c.fails env.parsers c.fresh c.actor env.show_id db (c.fresh 0) body
  handle_admin c (put_policy_at path body) =
      update_policy c.fails env.parsers c.fresh c.actor env.show_id db path body
  handle_admin c (delete_policy_at path) = delete_policy c.fails c.actor env.show_id db path
  handle_admin c (delete_proxy_at path) =
      delete_upstream_proxy c.fails env.aead env.show_id env.is_ip c.actor db path
  handle_admin c (put_ldap body) =
      update_ldap c.fails env.ldap env.parsers.parse_url env.service c.actor env.show_id db body
  handle_admin c (post_proxy body) =
      create_upstream_proxy c.fails env.aead env.show_id env.is_ip c.actor c.salt db (c.fresh 0)
        body
  handle_admin c (put_proxy_at path body) =
      update_upstream_proxy c.fails env.aead env.show_id env.is_ip c.actor c.salt db path body
  handle_admin c (put_direct body) =
      update_direct_access c.fails env.aead env.show_id env.is_ip c.actor env.show_addr db body
  handle_admin c (put_direct_users body) =
      set_direct_access_users c.fails c.actor env.show_id db body
  handle_admin c (put_direct_groups body) =
      set_direct_access_groups c.fails c.actor env.show_id db body

module _ {Conn : Type 0} (env : AdminEnv Conn) where
  -- One call and the database after it.
  abbrev pub after_call : AdminDb → AdminCall → AdminDb
  after_call db c = (handle_admin env db c c.request).0

  -- The databases that calls, one after the other, lead to.
  pub data Reach (IsGood : AdminCall → Type 0) (start : AdminDb) : AdminDb → Type 0 where
    here : Reach IsGood start start
    step :
        {db : AdminDb} (c : AdminCall)
        → Reach IsGood start db
        → IsGood c
        → Reach IsGood start (after_call db c)
