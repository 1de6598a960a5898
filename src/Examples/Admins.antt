-- ===== src/Examples/Admins.antt =====
-- Examples for the administration and the LDAP directory.
use tvpn.Admin.{
  AdminDb, apply_change, audit, changed_by, check_last_admin, create_user, has_user_id,
  is_active_admin, list_users, set_password, update_user,
}
use tvpn.Admin.Assignments.{
  insert_rows, replace_assignments, replace_direct_assignments, replace_resource_assignments,
  replace_rows, set_direct_access_groups, set_direct_access_users, set_direct_assignments,
  set_group_policies, set_upstream_assignments, set_upstream_proxy_groups, set_upstream_proxy_users,
  set_user_policies,
}
use tvpn.Admin.Directory.{get_ldap, list_audit, list_groups, test_ldap, update_ldap}
use tvpn.Admin.Errors.{handle_admin-problem}
use tvpn.Admin.LastAdmin.{IsStaffed, Reach-IsStaffed, update_user-unguarded}
use tvpn.Admin.Outputs.{
  create_upstream_proxy, delete_upstream_proxy, direct_access, get_direct_access,
  list_upstream_proxies, list_upstreams, proxy_entries, update_direct_access, update_upstream_proxy,
}
use tvpn.Admin.Passwords.{set_password-session_by_token}
use tvpn.Admin.Policies.{
  PolicyInput, any_fails, create_policy, delete_policy, insert_rules, is_known_mode, is_rule_of,
  kind_text, list_policies, policies_of, put_policy, save_policy, update_policy,
}
use tvpn.Admin.Race.{RaceState, Steps, Steps-unstaffed, begun, demotion, finished}
use tvpn.Admin.Replaced.{set_user_policies-exact}
use tvpn.Admin.Routes.{AdminCall, AdminEnv, after_call, handle_admin, here, patch_user, step}
use tvpn.Admin.Saved.{accepted, save_policy-exact}
use tvpn.Auth.{
  AuthDb, Session, SessionRow, User, by_session, local_user, normalize_username, session_by_token,
}
use tvpn.Auth.Ldap.{LdapIdentity}
use tvpn.Auth.Local.{create_local_user}
use tvpn.Base.{
  Bool, Option, [], arith, count_where, false, filter, list_beq, list_eq, map, nat_eq, none, not,
  refl, some, true, update_where, ℕ, ◌+◌, ◌==◌, ◌∷◌, ◌≡◌, ◌≢◌, ◌≤◌, ◌⊎◌,
}
use tvpn.Cookies.{
  clean_part, clean_parts, cons_opened, cookie_path, cookies, decrypt, default_cookie_path,
  domain_matches, encrypt, open_rows, path_matches, rooted_dir,
}
use tvpn.Examples.{mark_cipher, news, news_only, parsers, plain_hash}
use tvpn.Ldap.{
  LdapLib, Service, Settings, bind_password, check_ca, check_enabled, dial, first, group_of, groups,
  rdn_name, replace_all, replace_from, secure_connection, test_connection, update_settings,
}
use tvpn.Ldap.Accepted.{IsComplete, update_settings-IsComplete}
use tvpn.Net.{
  Url, addr_beq, after_bracket, from_colon, hostname, hostname_of, port, port_of, until_bracket,
  until_colon,
}
use tvpn.Password.{Argon, hash_password}
use tvpn.Policy.{allowed_scheme, exact_host, whitelist}
use tvpn.Policy.Effective.{RuleRow, Tables, has_pair}
use tvpn.Policy.Rules.{
  validate_cidr, validate_host, validate_kind, validate_rule, validate_url_prefix,
}
use tvpn.Problems.{err_invalid_id}
use tvpn.Text.{
  Text, contains, contains_any, has_prefix, has_suffix, join, push_left, split, split_from, text,
  to_lower, trim_left, trim_line, trim_prefix, trim_right, trim_space, trim_suffix,
}
use tvpn.Upstream.{
  create_upstream, delete_upstream, is_known_type, kept_password, normalize_upstream_input,
  seal_password, update_upstream, updated, without_brackets,
}
use tvpn.Upstream.Access.{set_direct_restricted}

abbrev none_fails : ℕ → Bool
none_fails n = false

abbrev only_first_fails : ℕ → Bool
only_first_fails n = n == 0

abbrev text_of : ℕ → Text
text_of id = []

abbrev admin_a : User
admin_a = record {
  id = 1;
  username = text "a";
  normalized_username = text "a";
  display_name = [];
  email = [];
  auth_source = local_user;
  is_admin = true;
  password_hash = [];
  is_enabled = true;
}

abbrev admin_b : User
admin_b = record admin_a { id = 2; username = text "b"; normalized_username = text "b" }

abbrev session_of_a : SessionRow
session_of_a = record { token_hash = text "t"; user_id = 1; csrf_token = []; expires_at = 90 }

abbrev session_of_b : SessionRow
session_of_b = record { token_hash = text "u"; user_id = 2; csrf_token = []; expires_at = 90 }

abbrev kept_accounts : AuthDb
kept_accounts = record {
  users = admin_a ∷ admin_b ∷ [];
  ldap_groups = [];
  user_groups = [];
  sessions = session_of_a ∷ session_of_b ∷ [];
  tokens = [];
}

abbrev kept_tables : Tables
kept_tables = record {
  policies = record news_only { rules = [] } ∷ [];
  policy_rules = [];
  user_policies = (2, 7) ∷ [];
  user_ldap_groups = [];
  ldap_group_policies = [];
}

abbrev ldap_settings : Settings
ldap_settings = record {
  enabled = true;
  mode = text "search_bind";
  url = text "ldaps://d";
  start_tls = false;
  base_dn = [];
  bind_dn = text "cn=s";
  user_filter = text "(uid={{username}})";
  user_dn_template = [];
  username_attribute = text "uid";
  display_name_attribute = text "cn";
  email_attribute = text "mail";
  group_mode = text "member_of";
  group_base_dn = [];
  group_filter = [];
  group_name_attribute = text "cn";
}

abbrev admin_db : AdminDb
admin_db = record {
  accounts = kept_accounts;
  access = kept_tables;
  outputs = record {
    proxies = [];
    user_proxies = [];
    group_proxies = [];
    memberships = [];
    restricted = false;
    direct_users = [];
    direct_groups = [];
    context_proxies = [];
  };
  directory = ldap_settings;
  events = [];
}

-- A directory with one entry, whose connections are numbers.
abbrev one_entry : LdapLib ℕ
one_entry = record {
  dial_url = λ url. some 0;
  start = λ c. some c;
  bind = λ c dn password. some (c + 1);
  search = λ c s. some (record { dn = text "uid=a"; values = λ name. [] } ∷ []);
  escape_filter = λ t. t;
  escape_dn = λ t. t;
  first_rdn = λ t. none;
}

abbrev ldap_url : Text → Option Url
ldap_url t = some (record news { scheme = text "ldaps" })

abbrev ldap_service : Service
ldap_service = record {
  bind_password_file = [];
  ca_file = [];
  allow_insecure = false;
  read_file = λ name. none;
  has_certificates = λ pem. false;
}

abbrev admin_argon : Argon
admin_argon = record {
  id_key = λ password salt iterations memory parallelism size. password;
  encode = λ t. t;
  decode = λ t. some t;
}

abbrev admin_env : AdminEnv ℕ
admin_env = record {
  argon = admin_argon;
  parsers = parsers;
  aead = mark_cipher;
  show_id = text_of;
  show_addr = λ a. [];
  is_ip = λ t. false;
  ldap = one_entry;
  service = ldap_service;
}

abbrev demote_a : AdminCall
demote_a = record {
  request = patch_user (some 1) (some demotion);
  actor = 2;
  fails = none_fails;
  fresh = λ n. n;
  salt = none;
}

key-cases : (id : ℕ) → count_where (has_user_id id) (admin_a ∷ admin_b ∷ []) ≤ 1
key-cases id = ground arith

start-IsStaffed : IsStaffed kept_accounts.users
start-IsStaffed = record { keys = key-cases; staffed = ground arith }

Reach-IsStaffed_example : IsStaffed (after_call admin_env admin_db demote_a).accounts.users
Reach-IsStaffed_example =
    Reach-IsStaffed admin_env admin_db (after_call admin_env admin_db demote_a) start-IsStaffed
      (step demote_a here refl)

Steps-unstaffed_example :
    (s : RaceState) × Steps 9 text_of 1 2 (begun 9 text_of 1 2 admin_db) s
    × (s.first_phase ≡ finished)
    × (s.second_phase ≡ finished)
    × (count_where is_active_admin s.db.accounts.users ≡ 0)
Steps-unstaffed_example =
    Steps-unstaffed 9 text_of 1 2 admin_db key-cases (λ e. absurd (omega (arith, e))) refl refl refl

update_user-unguarded_example :
    (update_user 9 text_of only_first_fails admin_db (some 1) (some demotion)).0.accounts.users
    ≡ update_where (has_user_id 1) (changed_by demotion) kept_accounts.users
update_user-unguarded_example =
    update_user-unguarded 9 text_of only_first_fails admin_db 1 demotion refl refl

handle_admin-problem_example :
    (handle_admin admin_env admin_db demote_a (patch_user none none)).0 ≡ admin_db
unfolding addr_beq after_bracket allowed_scheme any_fails apply_change audit bind_password
    changed_by check_ca check_enabled check_last_admin clean_part clean_parts cons_opened contains
    contains_any cookie_path cookies create_local_user create_policy create_upstream
    create_upstream_proxy create_user decrypt default_cookie_path delete_policy delete_upstream
    delete_upstream_proxy dial direct_access domain_matches encrypt first from_colon
    get_direct_access get_ldap group_of groups handle_admin has_prefix has_suffix hash_password
    hostname hostname_of insert_rows insert_rules is_known_mode is_known_type join kept_password
    kind_text list_audit list_beq list_groups list_policies list_upstream_proxies list_upstreams
    list_users normalize_upstream_input normalize_username open_rows path_matches policies_of port
    port_of proxy_entries push_left put_policy rdn_name replace_all replace_assignments
    replace_direct_assignments replace_from replace_resource_assignments replace_rows rooted_dir
    save_policy seal_password secure_connection set_direct_access_groups set_direct_access_users
    set_direct_assignments set_direct_restricted set_group_policies set_password
    set_upstream_assignments set_upstream_proxy_groups set_upstream_proxy_users set_user_policies
    split split_from test_connection test_ldap to_lower trim_left trim_line trim_prefix trim_right
    trim_space trim_suffix until_bracket until_colon update_direct_access update_ldap update_policy
    update_settings update_upstream update_upstream_proxy update_user updated validate_cidr
    validate_host validate_kind validate_rule validate_url_prefix without_brackets
handle_admin-problem_example =
    handle_admin-problem admin_env admin_db demote_a err_invalid_id (patch_user none none) refl refl

abbrev session_b : Session
session_b = record {
  csrf_token = [];
  expires_at = 90;
  user = admin_b;
  method = by_session;
  scopes = [];
}

set_password-session_by_token_example : session_b.user.id ≢ 1
unfolding addr_beq after_bracket audit from_colon hash_password list_beq port port_of
    session_by_token set_password
set_password-session_by_token_example =
    set_password-session_by_token 9 text_of none_fails admin_argon (some (text "s")) plain_hash
      none_fails admin_db 1 50 (text "twelve bytes") (text "u") session_b refl refl refl

abbrev host_input : PolicyInput
host_input = record {
  name = text "p";
  mode = whitelist;
  enabled = true;
  rules = (exact_host, text "A.io.") ∷ [];
}

abbrev saved_row : RuleRow
saved_row = record { policy = 7; rule = record { id = 3; kind = exact_host; value = text "a.io" } }

abbrev saved_tables : Tables
saved_tables = record kept_tables {
  policies = record news_only { name = text "p"; rules = [] } ∷ [];
  policy_rules = saved_row ∷ [];
}

save_policy-exact_example :
    (accepted none_fails parsers (λ n. n) host_input.rules
      ≡ some (
          map
            (λ (r : RuleRow). (r.rule.kind, r.rule.value))
            (filter (is_rule_of 7) (saved_row ∷ []))))
    × (filter (λ r. not (is_rule_of 7 r)) (saved_row ∷ [])
        ≡ filter (λ r. not (is_rule_of 7 r)) kept_tables.policy_rules)
    × (saved_tables.user_policies ≡ kept_tables.user_policies)
    × (saved_tables.ldap_group_policies ≡ kept_tables.ldap_group_policies)
unfolding addr_beq after_bracket allowed_scheme contains_any from_colon insert_rules is_known_mode
    kind_text list_beq port port_of push_left put_policy save_policy to_lower trim_left trim_right
    trim_space trim_suffix validate_cidr validate_host validate_kind validate_rule
    validate_url_prefix
save_policy-exact_example =
    save_policy-exact none_fails parsers (λ n. n) kept_tables saved_tables 7 host_input false refl

set_user_policies-exact_example :
    has_pair 1 7
      (set_user_policies none_fails 9 text_of admin_db
        (some 1)
        (some (7 ∷ []))).0.access.user_policies
    ≡ true
unfolding addr_beq after_bracket audit changed_by clean_part clean_parts cons_opened cookie_path
    cookies decrypt default_cookie_path domain_matches from_colon has_prefix has_suffix hostname
    hostname_of insert_rows join list_beq open_rows path_matches port port_of replace_assignments
    replace_rows rooted_dir set_user_policies split split_from to_lower trim_suffix until_bracket
    until_colon
set_user_policies-exact_example =
    set_user_policies-exact none_fails 9 text_of admin_db 1 (7 ∷ []) refl 1 7

abbrev logged_in : LdapIdentity
logged_in = record { username = text "a"; display_name = text "a"; email = []; groups = [] }

update_settings-IsComplete_example :
    ((ldap_settings.mode ≡ text "search_bind") ⊎ (ldap_settings.mode ≡ text "dn_template"))
    × ((ldap_settings.group_mode ≡ text "member_of") ⊎ (ldap_settings.group_mode ≡ text "search"))
    × (ldap_settings.enabled ≡ true → IsComplete ldap_url ldap_settings)
unfolding addr_beq check_enabled contains has_prefix hostname hostname_of list_beq push_left
    trim_left trim_right trim_space until_bracket until_colon update_settings
update_settings-IsComplete_example =
    update_settings-IsComplete ldap_url false ldap_settings ldap_settings refl
