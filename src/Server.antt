-- ===== src/Server.antt =====
-- internal/server/server.go: which part of the program a request is for.
use tvpn.Access.{Request}
use tvpn.Base.{
  >>=-eq-ok, Bool, Bool-cases, [], ap, arith, false, if◌then◌else◌, inl, inr, list_eq, nat_eq, ok,
  some, sym, true, ◌++◌, ◌==◌, ◌||◌, ◌∙◌, ◌≡◌,
}
use tvpn.Guard.{Guard, app_hostname, is_control_plane, new_guard, strip_port}
use tvpn.Headers.Hop.{is_named}
use tvpn.Net.{Parsers, Url, hostname}
use tvpn.Text.{Text, has_prefix, has_suffix, text, to_lower}

pub data RequestHostKind : Type 0 where
  unknown_host app_host_kind proxy_host_kind : RequestHostKind

-- What Handler does with a request: its router, the proxy hosts, or the problem misdirected_request.
pub data Dispatched : Type 0 where
  by_router by_proxy misdirected : Dispatched

unfoldable pub is_proxy_host : Text → Text → Bool
is_proxy_host host proxy_host = host == proxy_host || has_suffix host (text "." ++ proxy_host)

unfoldable pub classify_request_host : Text → Text → Text → RequestHostKind
unfolding is_proxy_host
classify_request_host host app_host proxy_host =
    if host == app_host
    then app_host_kind
    else if is_proxy_host host proxy_host
    then proxy_host_kind
    else unknown_host

abbrev pub by_kind : RequestHostKind → Dispatched
by_kind app_host_kind = by_router
by_kind proxy_host_kind = by_proxy
by_kind unknown_host = misdirected

abbrev pub request_host : Parsers → Request → Text
request_host lib r = to_lower (strip_port lib.split_host r.host)

-- Server.Handler; `app` is the parsed origin of the application.
unfoldable pub handler : Parsers → Url → Text → Request → Dispatched
unfolding classify_request_host
handler lib app proxy_base_domain r =
    if has_prefix r.path (text "/health/")
    then by_router
    else by_kind (
        classify_request_host (request_host lib r) (to_lower (hostname app))
          (to_lower (strip_port lib.split_host proxy_base_domain)))

abbrev pub is_answered : Dispatched → Bool
is_answered misdirected = false
is_answered by_router = true
is_answered by_proxy = true

new_guard-hosts :
    (lib : Parsers) (app_origin proxy_base_domain : Text) (app : Url) (g : Guard)
    → lib.parse_url app_origin ≡ some app
    → new_guard lib app_origin proxy_base_domain ≡ ok g
    → (g.app_host ≡ to_lower (hostname app))
      × (g.proxy_domain ≡ to_lower (strip_port lib.split_host proxy_base_domain))
unfolding new_guard app_hostname
new_guard-hosts lib app_origin proxy_base_domain app g parsed made =
    let (named, found, h1) = >>=-eq-ok (app_hostname (lib.parse_url app_origin)) _ made in
    let named_app : app_hostname (some app) ≡ ok named = sym (ap app_hostname parsed) ∙ found in
    elim (Bool-cases (hostname app == [])) [
      | inl nameless ↦ absurd (ground arith)
      | inr is_named ↦ elim (Bool-cases (strip_port lib.split_host proxy_base_domain == [])) [
        | inl nowhere ↦ absurd (ground arith)
        | inr somewhere ↦ ground arith
      ]
    ]

-- Apart from the health checks, the server answers a request exactly if its host is one that the guard, made
-- from the same configuration, keeps users from reaching through the proxy.
pub handler-is_control_plane :
    (lib : Parsers) (app_origin proxy_base_domain : Text) (app : Url) (g : Guard) (r : Request)
    → lib.parse_url app_origin ≡ some app
    → new_guard lib app_origin proxy_base_domain ≡ ok g
    → is_answered (handler lib app proxy_base_domain r)
      ≡ (has_prefix r.path (text "/health/") || is_control_plane g (request_host lib r))
unfolding handler classify_request_host is_proxy_host
handler-is_control_plane lib app_origin proxy_base_domain app g r parsed made =
    let (same_app, same_proxy) =
      new_guard-hosts lib app_origin proxy_base_domain app g parsed made in
    ground arith
