-- ===== src/Gateway/Documents.antt =====
-- The proxy's own handlers on the hosts of routes and tickets in internal/proxy/http.go: bootstrap,
-- resolveURL and setDocumentCookie.
use tvpn.Access.{Request}
use tvpn.Admin.{as_code, given}
use tvpn.Base.{
  Option, Result, [], fail_if, false, if◌then◌else◌, list_eq, nat_eq, not, ok, ℕ, ◌!=◌, ◌++◌, ◌>>=◌,
  ◌>>◌, ◌∷◌,
}
use tvpn.Cookies.{Cookie, save_cookies}
use tvpn.Gateway.{normalize_client_url}
use tvpn.Gateway.Contexts.{
  Handled, Moment, ProxyDb, ProxyEnv, authorize_for, denied, empty_reply, entered, failed_with,
  mapped_url, note, reply_in, route_url,
}
use tvpn.Guard.{host_with_port, resolve}
use tvpn.Headers.{header_get}
use tvpn.Problems.{
  ErrorCode, err_internal, err_invalid_cookie, err_invalid_request, err_invalid_target,
  err_invalid_ticket, err_method_not_allowed,
}
use tvpn.Store.{Route, StoreError, consume_ticket, context_of, resolve_route}
use tvpn.Store.Labels.{route_by_label}
use tvpn.Text.{Text, text}

module _ (env : ProxyEnv) where
  -- The routes that a label finds at a moment.
  abbrev pub label_route : Moment → ProxyDb → Text → Result StoreError Route
  label_route m db label = route_by_label env.parse_uuid (m.fails 8) db.store label

  -- bootstrap after the ticket is consumed: what is written stays, whatever comes.
  unfoldable pub enter : Moment → ProxyDb → Text → ℕ → ℕ → Result ErrorCode Handled
  unfolding route_url
  enter m db token user context = do
    value ← as_code err_internal (context_of env.hash (m.fails 1) db.store context user)
    target ← as_code err_internal (resolve env.guard env.parsers m.lookup value.current_url)
    (store, route) ←
        as_code err_internal
          (resolve_route env.hash (m.fails 2) db.store (m.ids 0) context user target.url)
    ok (record db { store = store }, entered token (route_url env route target.url))

  -- Service.bootstrap, for the ticket of the query.
  unfoldable pub bootstrap : Moment → ProxyDb → Text → Handled
  unfolding enter
  bootstrap m db ticket = reply_in db (do
    (store, token, user, context) ←
        as_code err_invalid_ticket
          (consume_ticket env.hash (m.fails 0) db.store m.now m.token env.session_ttl ticket)
    let used = record db { store = store }
    ok (reply_in used (enter m used token user context)))

  -- Service.resolveURL
  unfoldable pub resolve_url : Moment → ProxyDb → Request → Route → Option Text → Handled
  unfolding note route_url
  resolve_url m db r route body = reply_in db (do
    fail_if (r.method != text "POST") err_method_not_allowed
    asked ← given err_invalid_request body
    let raw = normalize_client_url env.parsers env.proxy_base_domain (label_route m db) route asked
    (target, decision) ← as_code err_invalid_target (authorize_for env m route.user_id raw)
    if not decision.allowed then ok (denied env m db route.user_id raw) else (do
      (store, mapped) ← as_code err_internal (
          resolve_route env.hash (m.fails 0) db.store (m.ids 0) route.context_id route.user_id
            target.url)
      ok (record db { store = store }, mapped_url (route_url env mapped target.url))))

  -- http.ParseSetCookie, where a cookie that scripts may not see is failed_with as well.
  unfoldable pub script_cookie : Text → Result ErrorCode Cookie
  script_cookie raw = do
    cookie ← given err_invalid_cookie (env.parse_set_cookie raw)
    fail_if cookie.http_only err_invalid_cookie
    ok (record cookie { http_only = false })

  -- The origin of a route.
  abbrev pub origin_of : Route → Text
  origin_of route =
      route.scheme ++ (text "://" ++ host_with_port route.host route.port route.scheme)

  -- Service.setDocumentCookie; a cookie that cannot be stored is an internal error.
  unfoldable pub set_document_cookie : Moment → ProxyDb → Request → Route → Option Text → Handled
  unfolding script_cookie
  set_document_cookie m db r route body = reply_in db (do
    fail_if (r.method != text "POST") err_method_not_allowed
    raw ← given err_invalid_request body
    cookie ← script_cookie raw
    target ← given err_internal (
        env.parsers.parse_url
          (origin_of route ++ header_get (text "X-Tvpn-Upstream-Path") r.header))
    let saved =
        save_cookies env.aead env.public_suffix env.show_id (m.fails 0) m.nonces m.now
          route.context_id target (cookie ∷ []) db.jar
    ok (record db { jar = saved.0 }, if saved.1 then empty_reply else failed_with err_internal))
