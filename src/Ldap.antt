-- ===== src/Ldap.antt =====
-- internal/ldapauth/service.go: logins by a directory. The protocol is a library: a record of its
-- operations, over the states of a connection. An error of Go is a constructor for each place.
pub mod Bound
pub mod Accepted
use tvpn.Auth.Ldap.{LdapIdentity}
use tvpn.Base.{
  Bool, List, Option, Result, [], err, fail_if, filter, if◌then◌else◌, length, list_eq, map, nat_eq,
  none, not, ok, some, suc, zero, ℕ, ◌!=◌, ◌&&◌, ◌++◌, ◌-◌, ◌==◌, ◌>>=◌, ◌>>◌, ◌||◌, ◌∷◌,
}
use tvpn.Net.{Url, hostname}
use tvpn.Text.{Text, contains, has_prefix, text, trim_line, trim_space}

pub record Settings : Type 0 where
  pub enabled : Bool
  pub mode : Text
  pub url : Text
  pub start_tls : Bool
  pub base_dn : Text
  pub bind_dn : Text
  pub user_filter : Text
  pub user_dn_template : Text
  pub username_attribute : Text
  pub display_name_attribute : Text
  pub email_attribute : Text
  pub group_mode : Text
  pub group_base_dn : Text
  pub group_filter : Text
  pub group_name_attribute : Text

-- ldap.Entry; `values` is GetAttributeValues.
pub record Entry : Type 0 where
  pub dn : Text
  pub values : Text → List Text

-- ldap.SearchRequest, without what all the searches share
pub record Search : Type 0 where
  pub base : Text
  pub size_limit : ℕ
  pub filter : Text
  pub attributes : List Text

-- The library: `none` is an error. `start` is StartTLS, `first_rdn` the first attribute of the first
-- RDN of what ldap.ParseDN reads.
pub record LdapLib (Conn : Type 0) : Type 0 where
  pub dial_url : Text → Option Conn
  pub start : Conn → Option Conn
  pub bind : Conn → Text → Text → Option Conn
  pub search : Conn → Search → Option (List Entry)
  pub escape_filter : Text → Text
  pub escape_dn : Text → Text
  pub first_rdn : Text → Option Text

-- ldapauth.Service; `read_file` is os.ReadFile, and `has_certificates` AppendCertsFromPEM.
pub record Service : Type 0 where
  pub bind_password_file : Text
  pub ca_file : Text
  pub allow_insecure : Bool
  pub read_file : Text → Option Text
  pub has_certificates : Text → Bool

pub data LdapError : Type 0 where
  login_refused settings_unread mode_unknown group_mode_unknown no_ldap_host : LdapError
  bad_search_bind bad_dn_template bad_group_search settings_unsaved no_ldap_url : LdapError
  plain_ldap no_ca_file no_certificates no_connection no_start_tls no_password_file : LdapError
  empty_dn bind_dn_needed service_bind_failed groups_unread : LdapError

abbrev pub need {ℓ} : {A : Type ℓ} → LdapError → Option A → Result LdapError A
need e none = err e
need e (some a) = ok a

-- strings.ReplaceAll for a text that is not empty; `skip` bytes belong to the last match.
unfoldable pub replace_from : Text → Text → ℕ → Text → Text
replace_from old new skip [] = []
replace_from old new zero (c ∷ s) =
    let inside = replace_from old new (length old - 1) s in
    let rest = replace_from old new zero s in
    if has_prefix (c ∷ s) old then new ++ inside else c ∷ rest
replace_from old new (suc skip) (c ∷ s) = replace_from old new skip s

unfoldable pub replace_all : Text → Text → Text → Text
unfolding replace_from
replace_all s old new = replace_from old new 0 s

abbrev pub username_mark : Text
username_mark = text "{{username}}"

abbrev pub user_dn_mark : Text
user_dn_mark = text "{{user_dn}}"

-- first
unfoldable pub first : Text → Text → Text
first value fallback = if trim_space value != [] then value else fallback

-- GetAttributeValue
abbrev pub attribute_value : List Text → Text
attribute_value [] = []
attribute_value (v ∷ l) = v

abbrev pub is_ldap_scheme : Text → Bool
is_ldap_scheme scheme = scheme == text "ldap" || scheme == text "ldaps"

module _ (parse_url : Text → Option Url) where
  -- The tests of UpdateSettings that an enabled directory has to pass.
  unfoldable pub check_enabled : Settings → Result LdapError (Unit {0})
  check_enabled value = do
    parsed ← need no_ldap_host (parse_url value.url)
    fail_if (not (is_ldap_scheme parsed.scheme) || hostname parsed == []) no_ldap_host
    fail_if
        (value.mode == text "search_bind"
          && (value.bind_dn == [] || not (contains value.user_filter username_mark)))
        bad_search_bind
    fail_if
        (value.mode == text "dn_template" && not (contains value.user_dn_template username_mark))
        bad_dn_template
    fail_if
        (value.group_mode == text "search"
          && (not (contains value.group_filter user_dn_mark) || value.group_base_dn == []))
        bad_group_search

  -- Service.UpdateSettings: the settings that are stored, or an error and the old ones stay.
  unfoldable pub update_settings : Bool → Settings → Result LdapError Settings
  unfolding check_enabled
  update_settings failed raw = do
    let value = record raw { url = trim_space raw.url }
    fail_if (value.mode != text "search_bind" && value.mode != text "dn_template") mode_unknown
    fail_if (value.group_mode != text "member_of" && value.group_mode != text "search")
        group_mode_unknown
    if value.enabled then check_enabled value else ok tt
    fail_if failed settings_unsaved
    ok value

module _ {Conn : Type 0} (lib : LdapLib Conn) (parse_url : Text → Option Url) where
  module _ (service : Service) where
    unfoldable pub check_ca : Result LdapError (Unit {0})
    check_ca = if service.ca_file == [] then ok tt else (do
      pem ← need no_ca_file (service.read_file service.ca_file)
      fail_if (not (service.has_certificates pem)) no_certificates)

    -- StartTLS, where the settings ask for it.
    unfoldable pub secure_connection : Url → Settings → Conn → Result LdapError Conn
    secure_connection parsed s conn =
        if parsed.scheme == text "ldap" && s.start_tls
        then need no_start_tls (lib.start conn)
        else ok conn

    abbrev pub is_plain : Url → Settings → Bool
    is_plain parsed s =
        parsed.scheme == text "ldap" && not s.start_tls && not service.allow_insecure

    -- Service.dial
    unfoldable pub dial : Settings → Result LdapError Conn
    unfolding check_ca secure_connection
    dial s = do
      parsed ← need no_ldap_url (parse_url s.url)
      fail_if (not (is_ldap_scheme parsed.scheme)) no_ldap_url
      fail_if (parsed.scheme == text "ldap" && not s.start_tls && not service.allow_insecure)
          plain_ldap
      check_ca
      conn ← need no_connection (lib.dial_url s.url)
      secure_connection parsed s conn

    -- Service.bindPassword
    unfoldable pub bind_password : Result LdapError Text
    unfolding trim_line
    bind_password = if service.bind_password_file == [] then ok [] else (do
      value ← need no_password_file (service.read_file service.bind_password_file)
      ok (trim_line value))

    unfoldable pub only_entry : List Entry → Result LdapError Entry
    only_entry (entry ∷ []) = ok entry
    only_entry _ = err login_refused

    -- Service.findUser: one entry, or the login is refused.
    unfoldable pub find_user : Conn → Settings → Text → Result LdapError Entry
    unfolding only_entry replace_all
    find_user conn s username = do
      let asked : Search = record {
        base = s.base_dn;
        size_limit = 2;
        filter = replace_all s.user_filter username_mark (lib.escape_filter username);
        attributes =
            s.username_attribute
            ∷ s.display_name_attribute
            ∷ s.email_attribute
            ∷ text "memberOf"
            ∷ [];
      }
      entries ← need login_refused (lib.search conn asked)
      only_entry entries

    -- rdnName
    unfoldable pub rdn_name : Text → Text
    rdn_name value = elim (lib.first_rdn value) [ none ↦ value | some name ↦ name ]

    unfoldable pub group_of : Settings → Entry → Text × Text
    unfolding rdn_name first
    group_of s entry = (
      entry.dn,
      first (attribute_value (entry.values s.group_name_attribute)) (rdn_name entry.dn),
    )

    -- Service.groups
    unfoldable pub groups : Conn → Settings → Entry → Result LdapError (List (Text × Text))
    unfolding rdn_name group_of replace_all
    groups conn s user =
        if s.group_mode == text "member_of"
        then ok (map (λ dn. (dn, rdn_name dn)) (user.values (text "memberOf")))
        else (do
          let asked : Search = record {
            base = s.group_base_dn;
            size_limit = 0;
            filter = replace_all s.group_filter user_dn_mark (lib.escape_filter user.dn);
            attributes = s.group_name_attribute ∷ [];
          }
          entries ← need groups_unread (lib.search conn asked)
          ok (map (group_of s) entries))

    -- The branch of the mode dn_template: the user binds first, then the service again.
    unfoldable pub by_template :
        Conn → Settings → Text → Text → Text → Result LdapError (Conn × Entry)
    unfolding find_user replace_all
    by_template conn s username password secret = do
      let user_dn = replace_all s.user_dn_template username_mark (lib.escape_dn username)
      fail_if (user_dn == []) empty_dn
      as_user ← need login_refused (lib.bind conn user_dn password)
      restored ←
          if s.bind_dn == []
          then ok as_user
          else need service_bind_failed (lib.bind as_user s.bind_dn secret)
      entry ← find_user restored s username
      ok (restored, entry)

    -- The other branch: the service binds, finds the entry, and the user binds as that entry.
    unfoldable pub by_search :
        Conn → Settings → Text → Text → Text → Result LdapError (Conn × Entry)
    unfolding find_user
    by_search conn s username password secret = do
      fail_if (s.bind_dn == []) bind_dn_needed
      as_service ← need service_bind_failed (lib.bind conn s.bind_dn secret)
      entry ← find_user as_service s username
      as_user ← need login_refused (lib.bind as_service entry.dn password)
      restored ← need login_refused (lib.bind as_user s.bind_dn secret)
      ok (restored, entry)

    abbrev pub by_mode : Conn → Settings → Text → Text → Text → Result LdapError (Conn × Entry)
    by_mode conn s username password secret =
        if s.mode == text "dn_template"
        then by_template conn s username password secret
        else by_search conn s username password secret

    abbrev pub identity_of : Settings → Text → Entry → List (Text × Text) → LdapIdentity
    identity_of s username entry found = record {
      username = first (attribute_value (entry.values s.username_attribute)) username;
      display_name = first (attribute_value (entry.values s.display_name_attribute)) username;
      email = attribute_value (entry.values s.email_attribute);
      groups = found;
    }

    -- Service.Authenticate; `none` is a query of the settings that failed.
    unfoldable pub authenticate_ldap : Option Settings → Text → Text → Result LdapError LdapIdentity
    unfolding dial bind_password by_template by_search groups
    authenticate_ldap stored username password = do
      s ← need login_refused stored
      fail_if (not s.enabled) login_refused
      fail_if (trim_space username == [] || password == []) login_refused
      conn ← dial s
      secret ← bind_password
      (bound, entry) ← by_mode conn s username password secret
      found ← groups bound s entry
      ok (identity_of s username entry found)

    -- Service.Test
    unfoldable pub test_connection : Option Settings → Result LdapError (Unit {0})
    unfolding dial bind_password
    test_connection stored = do
      s ← need settings_unread stored
      conn ← dial s
      if s.bind_dn == [] then ok tt else (do
        secret ← bind_password
        bound ← need service_bind_failed (lib.bind conn s.bind_dn secret)
        ok tt)
