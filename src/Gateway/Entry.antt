-- ===== src/Gateway/Entry.antt =====
-- Nothing is served for a route but to its owner, or to another route of the same context in
-- compatibility mode.
use mathlib.Core.Path.{subst}
use tvpn.Access.{Request}
use tvpn.Auth.{AuthDb}
use tvpn.Base.{
  Bool, Bool-cases, Option, Option-cases, Result, Result-cases, [], ap, arith, false, inl, inr,
  list_eq, nat_eq, none, ok, some, text_eq_iff, true, ℕ, ◌==◌, ◌∙◌, ◌≡◌,
}
use tvpn.Gateway.{
  Served, compatibility_request_allowed, dispatch, has_proxy_cookie, has_proxy_token, label_of,
  map_proxy_url, serve_http, serve_route, to_cookie, to_forward, to_mux, to_resolve, to_web_socket,
}
use tvpn.Guard.{strip_port}
use tvpn.Headers.{header_get}
use tvpn.Net.{Parsers}
use tvpn.Store.{Db, Route, StoreError}
use tvpn.Text.{Text, has_prefix, text, to_lower}

-- The route that a request is handed on with.
abbrev pub route_of : Served → Option Route
route_of (to_resolve r) = some r
route_of (to_cookie r) = some r
route_of (to_mux r) = some r
route_of (to_web_socket r) = some r
route_of (to_forward r) = some r
route_of _ = none

module _ (lib : Parsers) (proxy_base_domain : Text) (by_label : Text → Result StoreError Route)
    (hash : Text → Text) (fails : ℕ → Bool) (auth_db : AuthDb) (db : Db) (now : ℕ) where
  -- Why a request for a route is let through.
  pub data IsEntitled (r : Request) (route : Route) : Type 0 where
    -- a program token of the owner with the scope proxy
    with_token :
        has_proxy_token lib proxy_base_domain by_label hash fails auth_db db now r route ≡ true
        → IsEntitled r route
    -- no Proxy-Authorization field, and the cookie of a proxy session of the owner
    with_cookie :
        header_get (text "Proxy-Authorization") r.header ≡ []
        → has_proxy_cookie lib proxy_base_domain by_label hash fails auth_db db now r route ≡ true
        → IsEntitled r route
    -- compatibility mode, for a path outside /__tvpn/ and an origin of the same context and user
    with_origin :
        route.compatibility_mode ≡ true
        → has_prefix r.path (text "/__tvpn/") ≡ false
        → (mapped : Text)
        → map_proxy_url lib proxy_base_domain by_label
            (some route)
            (header_get (text "Origin") r.header)
          ≡ some mapped
        → IsEntitled r route

  compatibility-IsEntitled :
      (r : Request) (route : Route)
      → compatibility_request_allowed lib proxy_base_domain by_label r route ≡ true
      → IsEntitled r route
  unfolding compatibility_request_allowed
  compatibility-IsEntitled r route h =
      elim (Option-cases (
        map_proxy_url lib proxy_base_domain by_label (some route)
          (header_get (text "Origin") r.header))) [
            | inl unmapped ↦ absurd (ground arith)
            | inr (mapped, e) ↦ with_origin (ground arith) (ground arith) mapped e
          ]

  serve_route-IsEntitled :
      (r : Request) (route found : Route)
      → route_of (serve_route lib proxy_base_domain by_label hash fails auth_db db now r route)
        ≡ some found
      → (route ≡ found) × IsEntitled r route
  unfolding serve_route dispatch
  serve_route-IsEntitled r route found h =
      let token =
        has_proxy_token lib proxy_base_domain by_label hash fails auth_db db now r route in
      let cookie =
        has_proxy_cookie lib proxy_base_domain by_label hash fails auth_db db now r route in
      let compatible = compatibility_request_allowed lib proxy_base_domain by_label r route in
      let field = header_get (text "Proxy-Authorization") r.header in
      (
        ground arith,
        elim (Bool-cases compatible) [
          | inl allowed ↦ compatibility-IsEntitled r route allowed
          | inr refused ↦ elim (Bool-cases (field == [])) [
            | inl absent ↦ with_cookie ((text_eq_iff field []).0 absent) (ground arith)
            | inr present ↦ with_token (ground arith)
          ]
        ],
      )

  -- A request that is handed on, to the target or to a service of tvpn, goes with the route that the
  -- label of its host names, and is entitled to that route.
  pub serve_http-IsEntitled :
      (r : Request) (route : Route)
      → route_of (serve_http lib proxy_base_domain by_label hash fails auth_db db now r)
        ≡ some route
      → (by_label
            (label_of lib proxy_base_domain by_label (to_lower (strip_port lib.split_host r.host)))
          ≡ ok route)
        × IsEntitled r route
  unfolding serve_http
  serve_http-IsEntitled r route h =
      let label =
        label_of lib proxy_base_domain by_label (to_lower (strip_port lib.split_host r.host)) in
      elim (Result-cases (by_label label)) [
        | inr (e, missing) ↦ absurd (ground arith)
        | inl (named, found) ↦
            let (same, entitled) = serve_route-IsEntitled r named route (ground arith) in
            (found ∙ ap ok same, subst (IsEntitled r) same entitled)
      ]
