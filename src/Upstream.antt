-- ===== src/Upstream.antt =====
-- internal/proxy/upstream.go, and `transport` of internal/proxy/http.go: the proxies that requests may
-- be sent through, who may use which, and how a target is reached.
pub mod Input
pub mod Access
pub mod Rows
pub mod Wire
use tvpn.Base.{
  Bool, List, Option, Result, [], any, count_where, err, fail_if, false, filter, if◌then◌else◌,
  list_eq, ltb, nat_eq, none, not, ok, some, true, update_where, ℕ, ◌!=◌, ◌&&◌, ◌++◌, ◌==◌, ◌>>=◌,
  ◌>>◌, ◌||◌, ◌∷◌,
}
use tvpn.Cookies.{Aead, encrypt}
use tvpn.Net.{port}
use tvpn.Text.{
  Text, contains, contains_any, has_prefix, has_suffix, text, trim_prefix, trim_space, trim_suffix,
}

pub data UpstreamType : Type 0 where
  http_proxy socks5_proxy : UpstreamType
  -- any other text of the type's column or of the input
  unknown_type : Text → UpstreamType

pub record UpstreamInput : Type 0 where
  pub name : Text
  pub type : UpstreamType
  pub host : Text
  pub port : ℕ
  pub username : Text
  pub password : Text
  pub clear_password : Bool
  pub enabled : Bool

-- A row of `upstream_proxies`, without its times.
pub record Upstream : Type 0 where
  pub id : ℕ
  pub name : Text
  pub type : UpstreamType
  pub host : Text
  pub port : ℕ
  pub username : Text
  pub password_encrypted : Option Text
  pub enabled : Bool

pub data UpstreamError : Type 0 where
  name_required invalid_type invalid_proxy_host host_with_a_port invalid_proxy_port : UpstreamError
  username_needed no_cipher statement_error no_upstream direct_denied undecryptable : UpstreamError
  unsupported_proxy_type no_dialer : UpstreamError

-- The tables: the proxies, what is assigned to users and to groups of the directory, and who may
-- connect directly. `restricted` is the one row of direct_access_settings.
pub record UpstreamDb : Type 0 where
  pub proxies : List Upstream
  pub user_proxies : List (ℕ × ℕ)
  pub group_proxies : List (ℕ × ℕ)
  pub memberships : List (ℕ × ℕ)
  pub restricted : Bool
  pub direct_users : List ℕ
  pub direct_groups : List ℕ
  -- the proxy of each context, `none` for a direct one
  pub context_proxies : List (Option ℕ)

unfoldable pub is_known_type : UpstreamType → Bool
is_known_type http_proxy = true
is_known_type socks5_proxy = true
is_known_type (unknown_type _) = false

-- The brackets of an IPv6 address go.
unfoldable pub without_brackets : Text → Text
without_brackets host =
    if has_prefix host (text "[") && has_suffix host (text "]")
    then trim_suffix (trim_prefix host (text "[")) (text "]")
    else host

abbrev pub normal_host : Text → Text
normal_host host = without_brackets (trim_space (trim_suffix host (text ".")))

-- normalizeUpstreamInput; `is_ip` tells whether net.ParseIP reads a text.
unfoldable pub normalize_upstream_input :
    (Text → Bool) → UpstreamInput → Result UpstreamError UpstreamInput
unfolding is_known_type
normalize_upstream_input is_ip input = do
  let name = trim_space input.name
  let host = normal_host input.host
  let username = trim_space input.username
  fail_if (name == []) name_required
  fail_if (not (is_known_type input.type)) invalid_type
  fail_if (host == [] || contains_any host (text "/?#@ \\")) invalid_proxy_host
  fail_if (contains host (text ":") && not (is_ip host)) host_with_a_port
  fail_if (ltb input.port 1 || ltb 65535 input.port) invalid_proxy_port
  fail_if (input.password != [] && username == []) username_needed
  ok (record input { name = name; host = host; username = username })

-- The password as it is stored; `aad` is upstreamAAD of the row.
unfoldable pub seal_password : Aead → Option Text → Text → Text → Result UpstreamError (Option Text)
seal_password aead nonce password aad =
    if password == [] then ok none else elim (encrypt aead nonce password aad) [
      | none ↦ err no_cipher
      | some sealed ↦ ok (some sealed)
    ]

abbrev pub run_statement : Bool → Result UpstreamError (Unit {0})
run_statement failed = fail_if failed statement_error

abbrev pub has_proxy_id : ℕ → Upstream → Bool
has_proxy_id id u = u.id == id

module _ (aead : Aead) (show_id : ℕ → Text) (is_ip : Text → Bool) (fails : ℕ → Bool) where
  abbrev pub upstream_aad : ℕ → Text
  upstream_aad id = text "upstream-proxy:" ++ show_id id

  -- UpstreamStore.Create
  unfoldable pub create_upstream :
      UpstreamDb → ℕ → Option Text → UpstreamInput → Result UpstreamError (UpstreamDb × ℕ)
  unfolding seal_password
  create_upstream db id nonce raw = do
    input ← normalize_upstream_input is_ip raw
    password ← seal_password aead nonce input.password (upstream_aad id)
    run_statement (fails 0 || any (λ u. u.id == id || u.name == input.name) db.proxies)
    ok (
      record db {
        proxies =
            record {
              id = id;
              name = input.name;
              type = input.type;
              host = input.host;
              port = input.port;
              username = input.username;
              password_encrypted = password;
              enabled = input.enabled;
            }
            ∷ db.proxies;
      },
      id,
    )

  -- The CASE of the UPDATE: a new password, or none if it is to be cleared, or the old one.
  unfoldable pub kept_password : Option Text → Bool → Option Text → Option Text
  kept_password (some sealed) clear old = some sealed
  kept_password none clear old = if clear then none else old

  unfoldable pub updated : UpstreamInput → Option Text → Upstream → Upstream
  unfolding kept_password
  updated input password u = record u {
    name = input.name;
    type = input.type;
    host = input.host;
    port = input.port;
    username = input.username;
    enabled = input.enabled;
    password_encrypted = kept_password password input.clear_password u.password_encrypted;
  }

  -- UpstreamStore.Update
  unfoldable pub update_upstream :
      UpstreamDb → ℕ → Option Text → UpstreamInput → Result UpstreamError UpstreamDb
  unfolding seal_password
  update_upstream db id nonce raw = do
    input ← normalize_upstream_input is_ip raw
    password ← seal_password aead nonce input.password (upstream_aad id)
    run_statement (fails 0 || any (λ u. u.id != id && u.name == input.name) db.proxies)
    fail_if (count_where (has_proxy_id id) db.proxies != 1) no_upstream
    ok (record db { proxies = update_where (has_proxy_id id) (updated input password) db.proxies })

  abbrev pub is_through : ℕ → Option ℕ → Bool
  is_through id c = elim c [ none ↦ false | some p ↦ p == id ]

  -- UpstreamStore.Delete: the contexts of the proxy go with it, in one transaction.
  unfoldable pub delete_upstream : UpstreamDb → ℕ → Result UpstreamError UpstreamDb
  delete_upstream db id = do
    run_statement (fails 0)
    run_statement (fails 1)
    run_statement (fails 2)
    fail_if (count_where (has_proxy_id id) db.proxies != 1) no_upstream
    run_statement (fails 3)
    ok (record db {
      proxies = filter (λ u. not (has_proxy_id id u)) db.proxies;
      context_proxies = filter (λ c. not (is_through id c)) db.context_proxies;
      user_proxies = filter (λ (p : ℕ × ℕ). not (p.1 == id)) db.user_proxies;
      group_proxies = filter (λ (p : ℕ × ℕ). not (p.1 == id)) db.group_proxies;
    })
