-- ===== src/Ldap/Bound.antt =====
-- What an accepted login by the directory has proved: the bind of its user over a protected connection.
use tvpn.Base.{Option, list_eq, nat_eq, some, true, ◌≡◌, ◌⊎◌}
use tvpn.Ldap.{Entry, LdapLib, Service, Settings, replace_all, username_mark}
use tvpn.Net.{Url}
use tvpn.Text.{Text, text}

module _ {Conn : Type 0} (lib : LdapLib Conn) (parse_url : Text → Option Url) where
  module _ (service : Service) where
    -- The connection speaks TLS from the start or since StartTLS succeeded, or the operator allowed plain
    -- connections.
    abbrev pub IsProtected : Url → Conn → Type 0
    IsProtected parsed conn =
        (parsed.scheme ≡ text "ldaps")
        ⊎ (((plain : Conn) × (lib.start plain ≡ some conn)) ⊎ (service.allow_insecure ≡ true))

    -- On the connection, as it was dialled or after the bind of the service itself on it, the user whose
    -- entry this is bound with the password: the entry is the one that was found, or the name stands in
    -- the template of a distinguished name.
    pub record IsBound (s : Settings) (conn : Conn) (username password : Text) (entry : Entry)
        : Type 0 where
      pub before : Conn
      pub after : Conn
      pub user_dn : Text
      pub on : (before ≡ conn) ⊎ ((secret : Text) × (lib.bind conn s.bind_dn secret ≡ some before))
      pub binds : lib.bind before user_dn password ≡ some after
      pub is_user :
          (user_dn ≡ entry.dn)
          ⊎ (user_dn ≡ replace_all s.user_dn_template username_mark (lib.escape_dn username))
