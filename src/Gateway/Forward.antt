-- ===== src/Gateway/Forward.antt =====
-- forward of internal/proxy/http.go: the request that goes to the target, with its header rewritten, and
-- the redirect that comes back. Sending the body of the answer on is left out.
use tvpn.Access.{Request}
use tvpn.Admin.{as_code, given}
use tvpn.Authorize.{resolved}
use tvpn.Base.{
  List, Option, Result, [], err, fail_if, false, if◌then◌else◌, list_eq, nat_eq, none, not, ok,
  some, ◌++◌, ◌==◌, ◌>>=◌, ◌>>◌, ◌∷◌,
}
use tvpn.Cookies.{cookies}
use tvpn.Gateway.{map_proxy_url}
use tvpn.Gateway.Contexts.{
  Handled, Moment, ProxyDb, ProxyEnv, authorize_for, denied, failed_with, note, query_suffix,
  route_url,
}
use tvpn.Gateway.Documents.{label_route, origin_of}
use tvpn.Guard.{Target}
use tvpn.Headers.{Header, delete_all, header_del, header_get, header_set, strip_hop_headers}
use tvpn.Ldap.{dial}
use tvpn.Problems.{
  ErrorCode, err_internal, err_redirect_denied, err_target_unavailable,
  err_upstream_proxy_unavailable,
}
use tvpn.Store.{Route, resolve_route}
use tvpn.Text.{Text, text}
use tvpn.Upstream.{UpstreamError}
use tvpn.Upstream.Access.{Dial, transport}
use tvpn.Upstream.Wire.{Sent}

-- The request that forward sends, or the answer without one.
pub data Outgoing : Type 0 where
  stopped : Handled → Outgoing
  sends : Sent → Outgoing

-- The fields that no target gets.
abbrev pub private_names : List Text
private_names =
    text "Cookie"
    ∷ text "Accept-Encoding"
    ∷ text "X-Forwarded-For"
    ∷ text "X-Forwarded-Host"
    ∷ text "X-Forwarded-Proto"
    ∷ text "Tvpn-Error-Code"
    ∷ []

module _ (env : ProxyEnv) (m : Moment) (db : ProxyDb) where
  -- mapProxyURL, or in compatibility mode mapProxyURLForContext.
  abbrev pub mapped_for : Route → Text → Option Text
  mapped_for route value =
      map_proxy_url env.parsers env.proxy_base_domain (label_route env m db)
        (if route.compatibility_mode then some route else none) value

  -- A field that holds a proxied URL: it is mapped to the target's, or goes.
  unfoldable pub map_field : Route → Text → Header → Header
  map_field route name h =
      if header_get name h == [] then h else elim (mapped_for route (header_get name h)) [
        | none ↦ header_del name h
        | some mapped ↦ header_set name mapped h
      ]

  -- The header of the request to the target.
  unfoldable pub forward_header : Route → Header → Header
  unfolding map_field
  forward_header route h =
      map_field route (text "Referer")
        (map_field route (text "Origin") (delete_all private_names (strip_hop_headers h)))

  -- The URL that a request to the host of a route is for.
  unfoldable pub forward_target : Route → Request → Text
  forward_target route r = origin_of env route ++ (r.escaped_path ++ query_suffix r.raw_query)

  abbrev pub forward_dial : Route → Target → Result UpstreamError Dial
  forward_dial route target =
      transport env.aead env.show_id env.show_addr (m.fails 1) db.outputs target route m.no_socks

  abbrev pub or_stopped : Result ErrorCode Outgoing → Outgoing
  or_stopped (err code) = stopped (db, failed_with code)
  or_stopped (ok out) = out

  -- Service.forward up to the call of RoundTrip.
  unfoldable pub forward_request : Route → Request → Text → Outgoing
  unfolding forward_header forward_target note
  forward_request route r body = or_stopped (do
    let raw = forward_target route r
    (target, decision) ← as_code err_target_unavailable (authorize_for env m route.user_id raw)
    if not decision.allowed
        then ok (stopped (denied env m db route.user_id (env.parsers.show_url target.url)))
        else (do
          stored ← given err_internal (
              cookies env.aead env.public_suffix env.show_id (m.fails 0 0) m.now route.context_id
                target.url false db.jar)
          dial ← as_code err_upstream_proxy_unavailable (forward_dial route target)
          ok (
              sends (record {
                method = r.method;
                target = target;
                header = forward_header route r.header;
                cookies = stored;
                body = body;
                dial = dial;
              }))))

  -- What becomes of the Location of an answer: the tables and the header, or a problem. A location that
  -- cannot be read stays.
  unfoldable pub forward_location : Route → Target → Header → Result ErrorCode (ProxyDb × Header)
  unfolding route_url
  forward_location route target h =
      let location = header_get (text "Location") h in
      if location == []
      then ok (db, h)
      else elim (env.parsers.resolve_reference target.url location) [
        | none ↦ ok (db, h)
        | some resolved ↦ (do
          (redirect, decision) ←
              as_code err_redirect_denied
                (authorize_for env m route.user_id (env.parsers.show_url resolved))
          fail_if (not decision.allowed) err_redirect_denied
          (store, found) ← as_code err_internal (
              resolve_route env.hash (m.fails 3) db.store (m.ids 0) route.context_id route.user_id
                redirect.url)
          ok (
            record db { store = store },
            header_set (text "Location") (route_url env found redirect.url) h,
          ))
      ]
