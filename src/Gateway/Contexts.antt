-- ===== src/Gateway/Contexts.antt =====
-- The application's handlers of internal/proxy/http.go: AvailableUpstreams, createContext, getContext,
-- navigate and closeContext, for the user of the session. They share the state and the answers of the
-- proxy's own handlers.
use tvpn.Admin.{AuditEvent, as_code, given}
use tvpn.Authorize.{AuthorizeError, authorize, effective_policies}
use tvpn.Base.{
  Bool, List, Option, Result, [], err, fail_if, if◌then◌else◌, list_eq, nat_eq, none, not, ok, some,
  ℕ, ◌++◌, ◌==◌, ◌>>=◌, ◌>>◌, ◌∷◌,
}
use tvpn.Cookies.{Aead, Cookie, CookieRow}
use tvpn.Guard.{Guard, Resolver, Target}
use tvpn.Net.{Addr, Parsers, Url, addr_eq}
use tvpn.Policy.{Decision}
use tvpn.Policy.Effective.{Tables}
use tvpn.Problems.{
  ErrorCode, err_context_not_found, err_direct_access_denied, err_internal, err_invalid_id,
  err_invalid_request, err_invalid_target, err_target_denied, err_upstream_proxy_denied,
}
use tvpn.Store.{
  Context, Db, Route, close_context, context_of, create_context, create_ticket, resolve_route,
  update_current_url,
}
use tvpn.Store.Labels.{route_label}
use tvpn.Text.{Text, text}
use tvpn.Upstream.{Upstream, UpstreamDb, UpstreamError}
use tvpn.Upstream.Access.{authorized, direct_allowed, effective_proxies}

-- The database as the proxy sees it.
pub record ProxyDb : Type 0 where
  pub store : Db
  pub outputs : UpstreamDb
  pub jar : List CookieRow
  pub events : List AuditEvent

-- Service and the libraries. `parse_uuid` reads an identifier, `query_escape` is url.QueryEscape, and
-- `parse_set_cookie` is http.ParseSetCookie.
pub record ProxyEnv : Type 0 where
  pub guard : Guard
  pub parsers : Parsers
  pub aead : Aead
  pub public_suffix : Text → Text
  pub show_id : ℕ → Text
  pub show_addr : Addr → Text
  pub parse_uuid : Text → Option ℕ
  pub query_escape : Text → Text
  pub parse_set_cookie : Text → Option Cookie
  pub hash : Text → Text
  -- the collation of the database
  pub collate : Text → Text → Bool
  pub app_scheme : Text
  pub proxy_base_domain : Text
  pub session_ttl : ℕ

-- What a request meets: the clock, the resolver, the tables of the policies, new identifiers and random
-- values, and the statements that fail: `fails k n` is statement n of the k-th operation.
pub record Moment : Type 0 where
  pub now : ℕ
  pub lookup : Resolver
  -- the tables of the policies; `none` cannot be read
  pub policies : Option Tables
  pub fails : ℕ → ℕ → Bool
  pub ids : ℕ → ℕ
  pub token : Option Text
  pub nonces : ℕ → Option Text
  -- no dialer for SOCKS5 can be built
  pub no_socks : Bool

pub data ProxyReply : Type 0 where
  failed_with : ErrorCode → ProxyReply
  available : Bool → List Upstream → ProxyReply
  -- the context, the URL of its ticket and that of its route
  context_created : Context → Text → Text → ProxyReply
  context_shown : Context → ProxyReply
  navigated : Text → Text → ProxyReply
  mapped_url : Text → ProxyReply
  -- the session's cookie and the URL of the redirect
  entered : Text → Text → ProxyReply
  empty_reply : ProxyReply

abbrev pub Handled : Type 0
Handled = ProxyDb × ProxyReply

-- A problem leaves the database as it is at that point.
abbrev pub reply_in : ProxyDb → Result ErrorCode Handled → Handled
reply_in db (err code) = (db, failed_with code)
reply_in db (ok a) = a

unfoldable pub query_suffix : Text → Text
query_suffix value = if value == [] then [] else text "?" ++ value

module _ (env : ProxyEnv) where
  -- Service.bootstrapURL
  unfoldable pub bootstrap_url : Text → Text
  bootstrap_url ticket =
      env.app_scheme
      ++ (text "://bootstrap."
          ++ (env.proxy_base_domain
              ++ (text "/__tvpn/bootstrap?ticket=" ++ env.query_escape ticket)))

  -- Service.routeURL
  unfoldable pub route_url : Route → Url → Text
  unfolding query_suffix
  route_url route target =
      env.app_scheme
      ++ (text "://"
          ++ (route_label (env.show_id route.id)
              ++ (text "."
                  ++ (env.proxy_base_domain
                      ++ (target.escaped_path ++ query_suffix target.raw_query)))))

  -- The URL of an event, without its query and its fragment.
  unfoldable pub safe_url : Text → Option Url → Text
  safe_url target none = target
  safe_url target (some parsed) =
      if parsed.scheme == []
      then target
      else env.parsers.show_url (record parsed { raw_query = []; fragment = [] })

  -- Service.audit
  unfoldable pub note : Moment → ProxyDb → ℕ → Text → Text → Text → ProxyDb
  unfolding safe_url
  note m db user event_type target outcome = if m.fails 9 0 then db else record db {
    events =
        record {
          actor = user;
          event_type = event_type;
          outcome = outcome;
          target = safe_url target (env.parsers.parse_url target);
        }
        ∷ db.events;
  }

  abbrev pub denied : Moment → ProxyDb → ℕ → Text → Handled
  denied m db user raw =
      (note m db user (text "proxy.denied") raw (text "denied"), failed_with err_target_denied)

  -- Service.authorize for a user, whose policies Effective selects.
  abbrev pub authorize_for : Moment → ℕ → Text → Result AuthorizeError (Target × Decision)
  authorize_for m user raw =
      authorize env.guard env.parsers m.lookup (effective_policies env.collate m.policies user) raw

  abbrev pub may_go_direct : Moment → ProxyDb → ℕ → Result UpstreamError Bool
  may_go_direct m db user =
      direct_allowed env.aead env.show_id env.show_addr (m.fails 0) db.outputs user

  -- Service.AvailableUpstreams
  unfoldable pub available_upstreams : Moment → ProxyDb → ℕ → Handled
  available_upstreams m db user = reply_in db (do
    straight ← as_code err_internal (may_go_direct m db user)
    items ←
        as_code err_internal
          (effective_proxies env.aead env.show_id env.show_addr (m.fails 1) db.outputs user)
    ok (db, available straight items))

  -- The upstream proxy of a new context must be one of the user's, or the user may go directly.
  unfoldable pub check_upstream : Moment → ProxyDb → ℕ → Option ℕ → Result ErrorCode (Unit {0})
  check_upstream m db user none = do
    allowed ← as_code err_internal (may_go_direct m db user)
    fail_if (not allowed) err_direct_access_denied
  check_upstream m db user (some id) = do
    proxy ←
        as_code err_upstream_proxy_denied
          (authorized env.aead env.show_id env.show_addr (m.fails 0) db.outputs user id)
    ok tt

  -- createContext from the call of the store on.
  unfoldable pub open_context :
      Moment → ProxyDb → ℕ → Option ℕ → Bool → Target → Result ErrorCode Handled
  unfolding note bootstrap_url route_url
  open_context m db user upstream compatibility target = do
    (store, context, route, ticket) ← as_code err_internal (
        create_context env.hash (m.fails 2) db.store m.now (m.ids 0) (m.ids 1) m.token user
          target.url (env.parsers.show_url target.url) upstream compatibility)
    ok (
      note m (record db { store = store }) user (text "proxy.context.create")
          (env.parsers.show_url target.url) (text "success"),
      context_created context (bootstrap_url ticket) (route_url route target.url),
    )

  -- Service.createContext; the body is the URL, the proxy and the mode.
  unfoldable pub post_context : Moment → ProxyDb → ℕ → Option (Text × Option ℕ × Bool) → Handled
  unfolding check_upstream open_context note
  post_context m db user body = reply_in db (do
    (raw, upstream, compatibility) ← given err_invalid_request body
    check_upstream m db user upstream
    (target, decision) ← as_code err_invalid_target (authorize_for m user raw)
    if not decision.allowed
        then ok (denied m db user raw)
        else open_context m db user upstream compatibility target)

  -- Service.getContext
  unfoldable pub get_context : Moment → ProxyDb → ℕ → Option ℕ → Handled
  get_context m db user path = reply_in db (do
    id ← given err_invalid_id path
    context ← as_code err_context_not_found (context_of env.hash (m.fails 0) db.store id user)
    ok (db, context_shown context))

  -- navigate after its route is resolved: what was written stays, even if no ticket can be made.
  unfoldable pub give_ticket : Moment → ProxyDb → ℕ → ℕ → Route → Target → Handled
  unfolding note bootstrap_url route_url
  give_ticket m db user id route target =
      let shown = env.parsers.show_url target.url in
      let moved = record db {
        store = update_current_url env.hash (m.fails 2) db.store m.now id shown;
      } in
      reply_in moved (do
        (store, ticket) ←
            as_code err_internal
              (create_ticket env.hash (m.fails 3) moved.store m.now m.token user id)
        ok (
          note m (record moved { store = store }) user (text "proxy.navigate") shown
              (text "allowed"),
          navigated (bootstrap_url ticket) (route_url route target.url),
        ))

  -- Service.navigate
  unfoldable pub navigate : Moment → ProxyDb → ℕ → Option ℕ → Option Text → Handled
  unfolding note give_ticket
  navigate m db user path body = reply_in db (do
    id ← given err_invalid_id path
    raw ← given err_invalid_request body
    context ← as_code err_context_not_found (context_of env.hash (m.fails 0) db.store id user)
    (target, decision) ← as_code err_invalid_target (authorize_for m user raw)
    if not decision.allowed then ok (denied m db user raw) else (do
      (store, route) ←
          as_code err_internal
            (resolve_route env.hash (m.fails 1) db.store (m.ids 0) id user target.url)
      ok (give_ticket m (record db { store = store }) user id route target)))

  -- Service.closeContext
  unfoldable pub delete_context : Moment → ProxyDb → ℕ → Option ℕ → Handled
  unfolding note
  delete_context m db user path = reply_in db (do
    id ← given err_invalid_id path
    store ← as_code err_context_not_found (close_context env.hash (m.fails 0) db.store id user)
    ok (
      note m (record db { store = store }) user (text "proxy.context.close") (env.show_id id)
          (text "success"),
      empty_reply,
    ))
