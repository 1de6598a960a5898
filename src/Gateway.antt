-- ===== src/Gateway.antt =====
-- internal/proxy/http.go: the hosts of the proxy. A request names a route by its host, is authenticated
-- for the owner of the route, and goes to a service of tvpn or to the target.
pub mod Entry
pub mod Mapping
pub mod Contexts
pub mod Opened
pub mod Documents
pub mod Forward
pub mod Outgoing
pub mod Rewriting
pub mod Pages
pub mod PageUrls
pub mod Shown
use tvpn.Access.{Request, bearer_token, request_cookie}
use tvpn.Auth.{AuthDb, AuthError, Session, in_scopes, scope_proxy, session_by_program_token}
use tvpn.Base.{
  Bool, Option, Result, [], err, false, if◌then◌else◌, list_eq, nat_eq, none, not, ok, some, true,
  ℕ, ◌!=◌, ◌&&◌, ◌++◌, ◌==◌, ◌||◌,
}
use tvpn.Guard.{host_with_port, strip_port}
use tvpn.Headers.{header_get}
use tvpn.Net.{Parsers, Url, hostname, port}
use tvpn.Store.{Db, Route, StoreError, authenticate_proxy}
use tvpn.Text.{Text, contains, has_prefix, has_suffix, text, to_lower, trim_suffix}

-- What ServeHTTP answers with or hands the request to.
pub data Served : Type 0 where
  to_bootstrap route_not_found proxy_authentication proxy_session_invalid : Served
  method_not_allowed runtime_script : Served
  to_resolve to_cookie to_mux to_web_socket to_forward : Route → Served

abbrev pub proxy_cookie_name : Text
proxy_cookie_name = text "tvpn_proxy_session"

module _ (lib : Parsers) (proxy_base_domain : Text)
    (by_label : Text → Result StoreError Route) where
  abbrev pub base_domain : Text
  base_domain = to_lower (strip_port lib.split_host proxy_base_domain)

  -- A host name below the base domain, and its label.
  abbrev pub is_below_base : Text → Bool
  is_below_base host = has_suffix host (text "." ++ base_domain)

  abbrev pub label_of : Text → Text
  label_of host = trim_suffix host (text "." ++ base_domain)

  abbrev pub is_same_owner : Route → Route → Bool
  is_same_owner a b = a.context_id == b.context_id && a.user_id == b.user_id

  -- The URL of the target that a proxied URL stands for.
  abbrev pub on_target : Route → Url → Text → Url
  on_target r parsed scheme = record parsed {
    scheme = scheme;
    host = host_with_port r.host r.port r.scheme;
  }

  unfoldable pub map_found : Option Route → Url → Result StoreError Route → Option Text
  map_found current parsed (err e) = none
  map_found none parsed (ok r) = some (lib.show_url (on_target r parsed r.scheme))
  map_found (some here) parsed (ok r) =
      if not (is_same_owner r here) then none else some (lib.show_url (on_target r parsed r.scheme))

  unfoldable pub map_parsed : Option Route → Option Url → Option Text
  unfolding map_found
  map_parsed current none = none
  map_parsed current (some parsed) =
      let host = to_lower (hostname parsed) in
      if not (is_below_base host) then none else map_found current parsed (by_label (label_of host))

  -- mapProxyURLForContext; `none` is the route without a context, which mapProxyURL passes.
  unfoldable pub map_proxy_url : Option Route → Text → Option Text
  unfolding map_parsed
  map_proxy_url current value = map_parsed current (lib.parse_url value)

  abbrev pub is_socket : Text → Bool
  is_socket scheme = scheme == text "ws" || scheme == text "wss"

  abbrev pub client_scheme : Text → Text → Text
  client_scheme asked mapped =
      if is_socket asked then (if mapped == text "https" then text "wss" else text "ws") else mapped

  unfoldable pub normalize_found : Route → Text → Url → Result StoreError Route → Text
  normalize_found current value parsed (err e) = value
  normalize_found current value parsed (ok r) =
      if not (is_same_owner r current)
      then value
      else lib.show_url (on_target r parsed (client_scheme parsed.scheme r.scheme))

  unfoldable pub normalize_parsed : Route → Text → Option Url → Text
  unfolding normalize_found
  normalize_parsed current value none = value
  normalize_parsed current value (some parsed) =
      let host = to_lower (hostname parsed) in
      if not (is_below_base host)
      then value
      else normalize_found current value parsed (by_label (label_of host))

  -- normalizeClientURL
  unfoldable pub normalize_client_url : Route → Text → Text
  unfolding normalize_parsed
  normalize_client_url current value = normalize_parsed current value (lib.parse_url value)

  abbrev pub is_document : Text → Bool
  is_document dest = dest == text "document" || dest == text "iframe" || dest == text "frame"

  -- compatibilityRequestAllowed
  unfoldable pub compatibility_request_allowed : Request → Route → Bool
  compatibility_request_allowed r route =
      let source = header_get (text "Origin") r.header in
      if not route.compatibility_mode || has_prefix r.path (text "/__tvpn/")
      then false
      else if is_document (header_get (text "Sec-Fetch-Dest") r.header)
      then false
      else if source == []
      then false
      else elim (map_proxy_url (some route) source) [ none ↦ false | some _ ↦ true ]

  module _ (hash : Text → Text) (fails : ℕ → Bool) (auth_db : AuthDb) (db : Db) (now : ℕ) where
    unfoldable pub token_owner : Route → Result AuthError Session → Bool
    token_owner route (err e) = false
    token_owner route (ok s) = in_scopes scope_proxy s.scopes && s.user.id == route.user_id

    -- The test of a Proxy-Authorization field.
    unfoldable pub has_proxy_token : Request → Route → Bool
    unfolding token_owner
    has_proxy_token r route =
        elim (bearer_token (header_get (text "Proxy-Authorization") r.header)) [
          | none ↦ false
          | some token ↦ token_owner route (session_by_program_token hash fails auth_db now token)
        ]

    unfoldable pub cookie_owner : Route → Result StoreError ℕ → Bool
    cookie_owner route (err e) = false
    cookie_owner route (ok user) = user == route.user_id

    -- The test of the proxy's session cookie.
    unfoldable pub has_proxy_cookie : Request → Route → Bool
    unfolding cookie_owner
    has_proxy_cookie r route = elim (request_cookie proxy_cookie_name r) [
      | none ↦ false
      | some token ↦ cookie_owner route (authenticate_proxy hash fails db now token)
    ]

    abbrev has_no_cookie : Request → Bool
    has_no_cookie r = elim (request_cookie proxy_cookie_name r) [ none ↦ true | some _ ↦ false ]

    -- The switch on the path.
    unfoldable pub dispatch : Request → Route → Served
    dispatch r route =
        if r.path == text "/__tvpn/runtime.js"
        then (if r.method != text "GET" then method_not_allowed else runtime_script)
        else if r.path == text "/__tvpn/resolve"
        then to_resolve route
        else if r.path == text "/__tvpn/cookie"
        then to_cookie route
        else if r.path == text "/__tvpn/mux"
        then to_mux route
        else if r.path == text "/__tvpn/ws"
        then to_web_socket route
        else to_forward route

    -- A request for a route: a Proxy-Authorization field decides alone, a cookie comes next.
    unfoldable pub serve_route : Request → Route → Served
    serve_route r route =
        let with_field = header_get (text "Proxy-Authorization") r.header != [] in
        let authenticated = with_field || has_proxy_cookie r route in
        let compatibility = compatibility_request_allowed r route in
        if with_field && not (has_proxy_token r route)
        then proxy_authentication
        else if not authenticated && has_no_cookie r && not compatibility
        then proxy_authentication
        else if not authenticated && not compatibility
        then proxy_session_invalid
        else dispatch r route

    unfoldable pub serve_label : Request → Result StoreError Route → Served
    serve_label r (err e) = route_not_found
    serve_label r (ok route) = serve_route r route

    -- Service.ServeHTTP
    unfoldable pub serve_http : Request → Served
    unfolding serve_label
    serve_http r =
        let host = to_lower (strip_port lib.split_host r.host) in
        if host == text "bootstrap." ++ base_domain
        then to_bootstrap
        else if not (is_below_base host)
        then route_not_found
        else if contains (label_of host) (text ".")
        then route_not_found
        else serve_label r (by_label (label_of host))
