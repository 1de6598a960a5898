-- ===== src/Admin/Directory.antt =====
-- The handlers of the LDAP directory and of the audit log in internal/admin/http.go.
use tvpn.Admin.{
  AdminDb, Answer, GroupItem, answer, as_code, audit, audit_items, given, group_items, ldap_item,
  no_content, problem,
}
use tvpn.Auth.{LdapGroup}
use tvpn.Base.{
  Bool, Option, Result, [], err, fail_if, filter, if◌then◌else◌, list_eq, map, nat_eq, none, ok,
  some, take, ℕ, ◌!=◌, ◌==◌, ◌>>=◌, ◌>>◌,
}
use tvpn.Ldap.{LdapError, LdapLib, Service, Settings, test_connection, update_settings}
use tvpn.Net.{Url}
use tvpn.Problems.{err_internal, err_invalid_ldap, err_invalid_request, err_ldap_unavailable}
use tvpn.Text.{Text, text}

module _ (fails : ℕ → Bool) where
  -- ldapauth.Service.Settings: the one row of ldap_settings.
  abbrev stored_settings : AdminDb → Option Settings
  stored_settings db = if fails 0 then none else some db.directory

  abbrev group_item : AdminDb → LdapGroup → GroupItem
  group_item db g = record {
    id = g.id;
    external_dn = g.external_dn;
    name = g.name;
    policy_ids =
        map (λ (r : ℕ × ℕ). r.1)
          (filter (λ (r : ℕ × ℕ). r.0 == g.id) db.access.ldap_group_policies);
  }

  -- HTTP.listGroups, without its order
  unfoldable pub list_groups : AdminDb → Answer
  list_groups db = answer db (do
    fail_if (fails 0) err_internal
    ok (db, group_items (map (group_item db) db.accounts.ldap_groups)))

  -- HTTP.listAudit: the newest two hundred events.
  unfoldable pub list_audit : AdminDb → Answer
  list_audit db =
      answer db (do fail_if (fails 0) err_internal; ok (db, audit_items (take 200 db.events)))

  module _ {Conn : Type 0} (lib : LdapLib Conn) (parse_url : Text → Option Url) where
    module _ (service : Service) (actor : ℕ) (show_id : ℕ → Text) where
      -- HTTP.getLDAP
      unfoldable pub get_ldap : AdminDb → Answer
      get_ldap db = answer db (do
        settings ← given err_internal (stored_settings db)
        ok (db, ldap_item settings (service.bind_password_file != [])))

      -- HTTP.updateLDAP
      unfoldable pub update_ldap : AdminDb → Option Settings → Answer
      update_ldap db body = answer db (do
        value ← given err_invalid_request body
        settings ← as_code err_invalid_ldap (update_settings parse_url (fails 0) value)
        ok (
          audit actor show_id fails 1 (record db { directory = settings }) (text "ldap.update")
              (text "success") (text "ldap"),
          no_content,
        ))

      -- What testLDAP makes of the test: a failure is recorded as well.
      abbrev tested : AdminDb → Result LdapError (Unit {0}) → Answer
      tested db (err e) = (
        audit actor show_id fails 1 db (text "ldap.test") (text "failure") (text "ldap"),
        problem err_ldap_unavailable,
      )
      tested db (ok done) = (
        audit actor show_id fails 1 db (text "ldap.test") (text "success") (text "ldap"),
        no_content,
      )

      -- HTTP.testLDAP
      unfoldable pub test_ldap : AdminDb → Answer
      test_ldap db = tested db (test_connection lib parse_url service (stored_settings db))
