-- ===== src/Gateway/Pages.antt =====
-- rewriteResponse and rewriteHTML of internal/proxy/rewrite.go, and forward of internal/proxy/http.go from
-- the request to the answer that the browser gets.
use tvpn.Access.{Request}
use tvpn.Base.{
  Bool, List, Option, Result, [], err, if◌then◌else◌, leb, length, list_eq, ltb, map, nat_eq, none,
  not, ok, some, true, ℕ, ◌!=◌, ◌&&◌, ◌++◌, ◌==◌, ◌>>=◌, ◌||◌, ◌∷◌,
}
use tvpn.Cookies.{cookies, save_cookies}
use tvpn.Gateway.Contexts.{Moment, ProxyDb, ProxyEnv, ProxyReply, failed_with, note}
use tvpn.Gateway.Forward.{
  Outgoing, forward_location, forward_request, mapped_for, private_names, sends, stopped,
}
use tvpn.Gateway.Rewriting.{
  HtmlLib, Nodes, RewriteError, Rewriting, cookies_hidden, insert_scripts, no_head, no_html,
  not_rendered, rewrite_css, too_large, walk,
}
use tvpn.Headers.{
  Header, copy_response_headers, delete_all, header_get, strip_hop_headers, translate_cors,
}
use tvpn.Net.{Url}
use tvpn.Problems.{ErrorCode, err_internal, err_rewrite_failed, err_upstream_error}
use tvpn.Store.{Route, update_current_url}
use tvpn.Text.{Text, contains, join, text, to_lower}
use tvpn.Upstream.Wire.{Response, Sent}

-- 16 << 20
abbrev pub max_rewrite_body : ℕ
max_rewrite_body = 16777216

abbrev or_rewrite_error {ℓ} : {A : Type ℓ} → RewriteError → Option A → Result RewriteError A
or_rewrite_error e none = err e
or_rewrite_error e (some a) = ok a

-- What the browser gets for a forwarded request.
pub data Forwarded : Type 0 where
  problem_page : ErrorCode → Forwarded
  -- status, header and body
  page : ℕ → Header → List Text → Forwarded

abbrev pub is_html : Text → Bool
is_html content_type = contains (to_lower content_type) (text "text/html")

abbrev pub is_css : Text → Bool
is_css content_type = contains (to_lower content_type) (text "text/css")

unfoldable pub concat : List Text → Text
concat [] = []
concat (chunk ∷ chunks) = chunk ++ concat chunks

-- The fields that a rewritten body makes wrong.
abbrev pub without_body_fields : Header → Header
without_body_fields h =
    delete_all
      (text "Content-Length" ∷ text "Content-Encoding" ∷ text "ETag" ∷ text "Content-MD5" ∷ []) h

abbrev pub needs_rewriting : ℕ → Text → Bool
needs_rewriting status content_type =
    leb 200 status && ltb status 300 && (is_html content_type || is_css content_type)

abbrev as_page : ProxyReply → Forwarded
as_page (failed_with code) = problem_page code
as_page _ = problem_page err_internal

module _ (env : ProxyEnv) (html : HtmlLib) (m : Moment) (route : Route) where
  -- The configuration script, with the cookies that scripts may see.
  unfoldable pub page_config : ProxyDb → Url → Result RewriteError Text
  page_config db target = do
    visible ← or_rewrite_error cookies_hidden (
        cookies env.aead env.public_suffix env.show_id (m.fails 7 0) m.now route.context_id target
          true db.jar)
    ok (
        text "window.__TVPN_CONFIG__="
        ++ (html.encode_config (env.parsers.show_url target) (env.show_id route.context_id)
              (join (text "; ") (map (λ (c : Text × Text). c.0 ++ (text "=" ++ c.1)) visible))
              route.compatibility_mode
            ++ text ";"))

  -- rewriteHTML after its walk.
  unfoldable pub finish_html : ProxyDb → Url → Nodes → Result RewriteError Text
  unfolding page_config
  finish_html db target document = do
    checked_head ← or_rewrite_error no_head (insert_scripts [] document)
    config ← page_config db target
    with_scripts ← or_rewrite_error no_head (insert_scripts config document)
    or_rewrite_error not_rendered (html.render with_scripts)

  -- Service.rewriteHTML; the routes that the walk made stay, whatever comes.
  unfoldable pub rewrite_html : Rewriting → Url → Text → Rewriting × Result RewriteError Text
  unfolding finish_html
  rewrite_html st target raw = elim (html.parse_html raw) [
    | none ↦ (st, err no_html)
    | some document ↦
        let (after, walked) = walk env html m route target st document in
        (after, finish_html after.db target walked)
  ]

  -- Service.rewriteResponse for a body that was read.
  unfoldable pub rewrite_body : Rewriting → Url → Text → Text → Rewriting × Result RewriteError Text
  unfolding rewrite_html
  rewrite_body st target content_type raw =
      if ltb max_rewrite_body (length raw)
      then (st, err too_large)
      else if is_html content_type
      then rewrite_html st target raw
      else if is_css content_type
      then (let (after, css) = rewrite_css env html m route target st raw in (after, ok css))
      else (st, ok raw)

  -- A document that was shown becomes the current URL of its context.
  unfoldable pub visited : ProxyDb → Request → Url → ProxyDb
  unfolding note
  visited db r target =
      if header_get (text "Sec-Fetch-Dest") r.header != text "document"
      then db
      else (let shown = env.parsers.show_url target in
          let moved = record db {
            store = update_current_url env.hash (m.fails 6) db.store m.now route.context_id shown;
          } in
          note env m moved route.user_id (text "proxy.navigate") shown (text "allowed"))

  -- forward from translateCORS on.
  unfoldable pub send_page : ProxyDb → Request → Url → Response → Header → ProxyDb × Forwarded
  unfolding rewrite_body visited
  send_page db r target response fields_left =
      let content_type = header_get (text "Content-Type") fields_left in
      if not (needs_rewriting response.status content_type)
      then (
        visited db r target,
        page response.status (copy_response_headers [] fields_left) response.chunks,
      )
      else (let st : Rewriting = record { db = db; asked = 0 } in
          let (after, result) = rewrite_body st target content_type (concat response.chunks) in
          elim result [
            | err e ↦ (after.db, problem_page err_rewrite_failed)
            | ok body ↦ (
              visited after.db r target,
              page response.status (copy_response_headers [] (without_body_fields fields_left))
                  (body ∷ []),
            )
          ])

  -- The origin of the browser and the one that it stands for, for translateCORS.
  abbrev pub upstream_origin : ProxyDb → Text → Text
  upstream_origin db browser_origin =
      if browser_origin == []
      then []
      else elim (mapped_for env m db route browser_origin) [ none ↦ [] | some mapped ↦ mapped ]

  abbrev pub origin_sent : Request → Text
  origin_sent r = header_get (text "Origin") (delete_all private_names (strip_hop_headers r.header))

  -- forward from the call of RoundTrip on; a body that breaks off is sent as far as it came, and one
  -- that is to be rewritten is an error.
  unfoldable pub take_answer : ProxyDb → Request → Sent → Option Response → ProxyDb × Forwarded
  unfolding send_page
  take_answer db r sent none = (db, problem_page err_upstream_error)
  take_answer db r sent (some response) =
      let (kept, saved) =
        save_cookies env.aead env.public_suffix env.show_id (m.fails 4) m.nonces m.now
          route.context_id sent.target.url response.cookies db.jar in
      let db1 = record db { jar = kept } in
      if not saved
      then (db1, problem_page err_internal)
      else elim (forward_location env m db1 route sent.target response.header) [
        | err code ↦ (db1, problem_page code)
        | ok (db2, located) ↦
            let shared =
              translate_cors located r.header (origin_sent r) (upstream_origin db (origin_sent r))
                route.compatibility_mode in
            let left = strip_hop_headers shared in
            if response.interrupted
              && needs_rewriting response.status (header_get (text "Content-Type") left)
            then (db2, problem_page err_rewrite_failed)
            else send_page db2 r sent.target.url response left
      ]

  unfoldable pub carry_out :
      ProxyDb → (Sent → Option Response) → Request → Outgoing → ProxyDb × Forwarded
  unfolding take_answer
  carry_out db network r (stopped (after, reply)) = (after, as_page reply)
  carry_out db network r (sends sent) = take_answer db r sent (network sent)

  -- Service.forward; `network` is RoundTrip.
  unfoldable pub forward : ProxyDb → (Sent → Option Response) → Request → Text → ProxyDb × Forwarded
  unfolding carry_out
  forward db network r body = carry_out db network r (forward_request env m db route r body)
