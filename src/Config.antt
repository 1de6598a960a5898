-- ===== src/Config.antt =====
-- internal/config/config.go: the settings of the server, from the environment.
use tvpn.Base.{
  >>=-eq-ok, Bool, Bool-cases, Option, Option-cases, Result, [], arith, err, fail_if, false,
  if◌then◌else◌, inl, inr, length, list_eq, nat_eq, none, not, ok, ok-injective, refl, some, true,
  ℕ, ◌!=◌, ◌&&◌, ◌*◌, ◌==◌, ◌>>=◌, ◌>>◌, ◌≡◌, ◌⊎◌,
}
use tvpn.Store.{random}
use tvpn.Text.{Text, text, trim_line, trim_space}

-- Config; times are nanoseconds.
pub record Config : Type 0 where
  pub listen_address : Text
  pub database_url : Text
  pub app_origin : Text
  pub proxy_base_domain : Text
  pub session_ttl : ℕ
  pub development : Bool
  pub bootstrap_admin_username : Text
  pub bootstrap_admin_password_file : Text
  pub ldap_bind_password_file : Text
  pub ldap_ca_file : Text
  pub ldap_allow_insecure : Bool
  pub master_key : Text

pub data ConfigError : Type 0 where
  database_required password_file_required insecure_in_production key_file_required : ConfigError
  no_random_key unreadable_key key_length : ConfigError

-- os.Getenv and os.ReadFile are parameters, and `random_key` is what rand.Read filled.
module _ (getenv : Text → Text) (read_file : Text → Option Text) (random_key : Option Text) where
  unfoldable pub env : Text → Text → Text
  env name fallback =
      let value = trim_space (getenv name) in if value != [] then value else fallback

  -- The settings before the checks.
  unfoldable pub raw_config : Config
  unfolding env
  raw_config = record {
    listen_address = env (text "TVPN_LISTEN_ADDRESS") (text ":8080");
    database_url = trim_space (getenv (text "TVPN_DATABASE_URL"));
    app_origin = env (text "TVPN_APP_ORIGIN") (text "http://app.localhost:8080");
    proxy_base_domain = env (text "TVPN_PROXY_BASE_DOMAIN") (text "proxy.localhost:8080");
    session_ttl = 12 * 3600 * 1000000000;
    development = getenv (text "TVPN_ENV") != text "production";
    bootstrap_admin_username = trim_space (getenv (text "TVPN_BOOTSTRAP_ADMIN_USERNAME"));
    bootstrap_admin_password_file = trim_space (getenv (text "TVPN_BOOTSTRAP_ADMIN_PASSWORD_FILE"));
    ldap_bind_password_file = trim_space (getenv (text "TVPN_LDAP_BIND_PASSWORD_FILE"));
    ldap_ca_file = trim_space (getenv (text "TVPN_LDAP_CA_FILE"));
    ldap_allow_insecure = getenv (text "TVPN_LDAP_ALLOW_INSECURE") == text "true";
    master_key = [];
  }

  -- The key of a file, or of the random numbers in development.
  unfoldable pub load_key : Bool → Text → Result ConfigError Text
  load_key development key_file =
      if key_file == []
      then (if not development
          then err key_file_required
          else elim random_key [ none ↦ err no_random_key | some key ↦ ok key ])
      else elim (read_file key_file) [
        | none ↦ err unreadable_key
        | some raw ↦
            let value = trim_line raw in
            if not (length value == 32) then err key_length else ok value
      ]

  -- Load, after the settings were read.
  unfoldable pub check_config : Config → Result ConfigError Config
  unfolding load_key
  check_config cfg = do
    fail_if (cfg.database_url == []) database_required
    fail_if (cfg.bootstrap_admin_username != [] && cfg.bootstrap_admin_password_file == [])
        password_file_required
    fail_if (not cfg.development && cfg.ldap_allow_insecure) insecure_in_production
    key ← load_key cfg.development (trim_space (getenv (text "TVPN_MASTER_KEY_FILE")))
    ok (record cfg { master_key = key })

  -- Load
  unfoldable pub load : Result ConfigError Config
  unfolding check_config raw_config
  load = check_config raw_config

  load_key-length :
      (development : Bool) (key_file key : Text)
      → ((raw : Text) → random_key ≡ some raw → length raw ≡ 32)
      → load_key development key_file ≡ ok key
      → length key ≡ 32
  unfolding load_key
  load_key-length development key_file key random made = elim (Bool-cases (key_file == [])) [
    | inl no_file ↦ elim (Option-cases random_key) [
      | inl dry ↦ absurd (ground arith)
      | inr (raw, drawn) ↦ let same : key ≡ raw = ground arith in rw same (random raw drawn)
    ]
    | inr named ↦ elim (Option-cases (read_file key_file)) [
      | inl unread ↦ absurd (ground arith)
      | inr (raw, content) ↦ elim (Bool-cases (length (trim_line raw) == 32)) [
        | inr wrong ↦ absurd (ground arith)
        | inl right ↦ let same : key ≡ trim_line raw = ground arith in rw same (ground arith)
      ]
    ]
  ]

  load_key-file :
      (development : Bool) (key_file key : Text)
      → load_key development key_file ≡ ok key
      → (development ≡ true) ⊎ ((key_file == []) ≡ false)
  unfolding load_key
  load_key-file true key_file key made = inl refl
  load_key-file false key_file key made = elim (Bool-cases (key_file == [])) [
    | inl no_file ↦ absurd (ground arith)
    | inr named ↦ inr named
  ]

  -- A configuration that is loaded names a database, has a key of 32 bytes, and is one of a development server
  -- or has a file for its key and no plain connection to the directory, if random keys have 32 bytes.
  pub load-IsComplete :
      (cfg : Config)
      → ((raw : Text) → random_key ≡ some raw → length raw ≡ 32)
      → load ≡ ok cfg
      → ((cfg.database_url == []) ≡ false)
        × (length cfg.master_key ≡ 32)
        × ((cfg.development ≡ true)
            ⊎ ((cfg.ldap_allow_insecure ≡ false)
                × ((trim_space (getenv (text "TVPN_MASTER_KEY_FILE")) == []) ≡ false)))
  unfolding load check_config
  load-IsComplete cfg random made =
      let raw = raw_config in
      let (u1, database, h1) =
        >>=-eq-ok (fail_if (raw.database_url == []) database_required) _ made in
      let (u2, admin, h2) =
        >>=-eq-ok
          (fail_if (raw.bootstrap_admin_username != [] && raw.bootstrap_admin_password_file == [])
            password_file_required)
          _ h1 in
      let (u3, plain, h3) =
        >>=-eq-ok (fail_if (not raw.development && raw.ldap_allow_insecure) insecure_in_production)
          _ h2 in
      let (key, loaded, h4) =
        >>=-eq-ok (load_key raw.development (trim_space (getenv (text "TVPN_MASTER_KEY_FILE")))) _
          h3 in
      let key_file = trim_space (getenv (text "TVPN_MASTER_KEY_FILE")) in
      let safe : (raw.development ≡ true)
          ⊎ ((raw.ldap_allow_insecure ≡ false) × ((key_file == []) ≡ false)) =
        elim (load_key-file raw.development key_file key loaded) [
          | inl developed ↦ inl developed
          | inr named ↦ elim (Bool-cases raw.development) [
            | inl developed ↦ inl developed
            | inr produced ↦ inr (ground arith, named)
          ]
        ] in
      rw (← ok-injective h4)
        (ground arith, load_key-length raw.development key_file key random loaded, safe)
