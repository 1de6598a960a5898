-- ===== src/Guard.antt =====
-- internal/proxy/security.go: the guard turns the text that a user asks for into a target with the
-- addresses to connect to, or refuses it.
pub mod Safety
pub mod Denied
use tvpn.Base.{
  Bool, List, Option, Result, [], any, err, fail_if, if◌then◌else◌, list_eq, ltb, nat_eq, none, ok,
  some, ℕ, ◌&&◌, ◌*◌, ◌++◌, ◌+◌, ◌==◌, ◌>>=◌, ◌>>◌, ◌^◌, ◌||◌, ◌∷◌,
}
use tvpn.Net.{
  Addr, Parsers, Url, addr_eq, atoi, hostname, itoa, join_host_port, port, unmap, v4, v6,
}
use tvpn.Text.{Text, contains, has_prefix, has_suffix, text, to_lower, trim_space, trim_suffix}

pub record Guard : Type 0 where
  pub app_host : Text
  pub proxy_domain : Text

pub record Target : Type 0 where
  pub url : Url
  pub addresses : List Addr
  pub port : ℕ

-- The resolver of names; a failed lookup is `none`.
abbrev pub Resolver : Type 0
Resolver = Text → Option (List Addr)

pub data GuardError : Type 0 where
  unsupported_url credentials_or_empty_host invalid_host control_plane invalid_port : GuardError
  unresolved always_denied invalid_app_origin invalid_proxy_domain : GuardError

-- stripPort, which is also `hostname` in http.go and `serverHostname` in server.go.
unfoldable pub strip_port : (Text → Option Text) → Text → Text
strip_port split_host value = elim (split_host value) [
  | none ↦ trim_suffix value (text ".")
  | some host ↦ host
]

unfoldable pub app_hostname : Option Url → Result GuardError Text
app_hostname none = err invalid_app_origin
app_hostname (some app) = if hostname app == [] then err invalid_app_origin else ok (hostname app)

-- NewGuard
unfoldable pub new_guard : Parsers → Text → Text → Result GuardError Guard
unfolding app_hostname strip_port
new_guard lib app_origin proxy_base_domain = do
  app ← app_hostname (lib.parse_url app_origin)
  let proxy_host = strip_port lib.split_host proxy_base_domain
  fail_if (proxy_host == []) invalid_proxy_domain
  ok (record { app_host = to_lower app; proxy_domain = to_lower proxy_host })

unfoldable pub normalize_target_url : Text → Text
normalize_target_url raw =
    let value = trim_space raw in
    if value == [] || contains value (text "://")
    then value
    else if has_prefix value (text "//")
    then text "http:" ++ value
    else text "http://" ++ value

-- The metadata services of the clouds.
abbrev pub denied_addresses : List Addr
denied_addresses =
    v4 (((169 * 256 + 254) * 256 + 169) * 256 + 254)
    ∷ v4 (((169 * 256 + 254) * 256 + 170) * 256 + 2)
    ∷ v4 (((100 * 256 + 100) * 256 + 100) * 256 + 200)
    ∷ v6 (0xfd000ec2 * 2 ^ 96 + 0x254) []
    ∷ []

unfoldable pub hard_denied : Addr → Bool
hard_denied address = let plain = unmap address in any (λ value. plain == value) denied_addresses

abbrev pub is_http : Text → Bool
is_http scheme = scheme == text "http" || scheme == text "https"

unfoldable pub parse_target : Option Url → Result GuardError Url
parse_target none = err unsupported_url
parse_target (some parsed) = if is_http parsed.scheme then ok parsed else err unsupported_url

unfoldable pub ascii_host : Option Text → Result GuardError Text
ascii_host none = err invalid_host
ascii_host (some host) = ok host

abbrev pub is_control_plane : Guard → Text → Bool
is_control_plane g host =
    host == g.app_host || host == g.proxy_domain || has_suffix host (text "." ++ g.proxy_domain)

unfoldable pub explicit_port : Option ℕ → Result GuardError ℕ
explicit_port none = err invalid_port
explicit_port (some value) = if ltb value 1 || ltb 65535 value then err invalid_port else ok value

abbrev pub default_port : Text → ℕ
default_port scheme = if scheme == text "https" then 443 else 80

unfoldable pub target_port : Url → Result GuardError ℕ
unfolding explicit_port
target_port parsed =
    if port parsed == []
    then ok (default_port parsed.scheme)
    else explicit_port (atoi (port parsed))

-- The host field of the target: the port is written only if it is not the default of the scheme.
unfoldable pub host_with_port : Text → ℕ → Text → Text
host_with_port host number scheme =
    if scheme == text "http" && number == 80 || scheme == text "https" && number == 443
    then host
    else join_host_port host (itoa number)

unfoldable pub looked_up : Option (List Addr) → Result GuardError (List Addr)
looked_up none = err unresolved
looked_up (some []) = err unresolved
looked_up (some (a ∷ l)) = ok (a ∷ l)

-- A literal address is not looked up.
unfoldable pub find_addresses : Option Addr → Option (List Addr) → Result GuardError (List Addr)
unfolding looked_up
find_addresses (some literal) answer = ok (unmap literal ∷ [])
find_addresses none answer = looked_up answer

-- The last loop: every address is unmapped, and none may be a metadata service.
unfoldable pub check_addresses : List Addr → Result GuardError (List Addr)
check_addresses [] = ok []
check_addresses (a ∷ l) =
    let rest = check_addresses l in
    if hard_denied (unmap a)
    then err always_denied
    else (rest >>= λ checked. ok (unmap a ∷ checked))

-- Guard.Resolve
unfoldable pub resolve : Guard → Parsers → Resolver → Text → Result GuardError Target
unfolding parse_target ascii_host target_port find_addresses check_addresses
resolve g lib lookup raw = do
  parsed ← parse_target (lib.parse_url (normalize_target_url raw))
  fail_if (parsed.user || hostname parsed == []) credentials_or_empty_host
  host ← ascii_host (lib.to_ascii (trim_suffix (to_lower (hostname parsed)) (text ".")))
  fail_if (is_control_plane g host) control_plane
  number ← target_port parsed
  found ← find_addresses (lib.parse_addr host) (lookup host)
  addresses ← check_addresses found
  ok (record {
    url = record parsed { host = host_with_port host number parsed.scheme; fragment = [] };
    addresses = addresses;
    port = number;
  })
