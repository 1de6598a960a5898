-- ===== src/Examples/Settings.antt =====
-- Examples for the configuration.
use tvpn.Base.{
  Option, [], arith, false, if◌then◌else◌, length, list_beq, list_eq, nat_eq, none, refl, some,
  true, ◌*◌, ◌++◌, ◌==◌, ◌∷◌, ◌≡◌, ◌⊎◌,
}
use tvpn.Config.{Config, check_config, env, load, load-IsComplete, load_key, raw_config}
use tvpn.Net.{addr_beq}
use tvpn.Text.{Text, push_left, text, trim_left, trim_line, trim_right, trim_space}

-- A production server with its key in a file.
abbrev environment : Text → Text
environment name =
    if name == text "TVPN_DATABASE_URL"
    then text "db"
    else if name == text "TVPN_ENV"
    then text "production"
    else if name == text "TVPN_MASTER_KEY_FILE"
    then text "key"
    else []

abbrev key_text : Text
key_text = text "0123456789abcdef0123456789abcdef"

abbrev key_file : Text → Option Text
key_file name = some (key_text ++ (10 ∷ []))

abbrev loaded : Config
loaded = record {
  listen_address = text ":8080";
  database_url = text "db";
  app_origin = text "http://app.localhost:8080";
  proxy_base_domain = text "proxy.localhost:8080";
  session_ttl = 12 * 3600 * 1000000000;
  development = false;
  bootstrap_admin_username = [];
  bootstrap_admin_password_file = [];
  ldap_bind_password_file = [];
  ldap_ca_file = [];
  ldap_allow_insecure = false;
  master_key = key_text;
}

load-IsComplete_example :
    ((loaded.database_url == []) ≡ false)
    × (length loaded.master_key ≡ 32)
    × ((loaded.development ≡ true)
        ⊎ ((loaded.ldap_allow_insecure ≡ false)
            × ((trim_space (environment (text "TVPN_MASTER_KEY_FILE")) == []) ≡ false)))
unfolding addr_beq check_config env list_beq load load_key push_left raw_config trim_left trim_line
    trim_right trim_space
load-IsComplete_example =
    load-IsComplete environment key_file none loaded (λ raw h. absurd (ground arith)) refl
