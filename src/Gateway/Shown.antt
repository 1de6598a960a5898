-- ===== src/Gateway/Shown.antt =====
-- What a forwarded answer shows to the browser, and what a rewritten page loses.
use tvpn.Access.{Request}
use tvpn.Base.{
  All, Bool-cases, List, Option, Result-cases, [], arith, inl, inr, none, some, sym, ℕ, ◌&&◌, ◌∙◌,
  ◌∷◌, ◌≡◌,
}
use tvpn.Cookies.{save_cookies}
use tvpn.Gateway.Contexts.{
  Moment, ProxyDb, ProxyEnv, available, context_created, context_shown, empty_reply, entered,
  failed_with, mapped_url, navigated,
}
use tvpn.Gateway.Forward.{Outgoing, forward_location, forward_request, sends, stopped}
use tvpn.Gateway.Pages.{
  carry_out, concat, forward, needs_rewriting, origin_sent, page, rewrite_body, send_page,
  take_answer, upstream_origin, without_body_fields,
}
use tvpn.Gateway.Rewriting.{HtmlLib, Rewriting}
use tvpn.Headers.{
  Header, copy_response_headers, header_get, header_values, strip_hop_headers, translate_cors,
}
use tvpn.Headers.Copied.{IsAllowed, copy_response_headers-IsAllowed}
use tvpn.Net.{Url}
use tvpn.Store.{Route}
use tvpn.Text.{Text, text}
use tvpn.Upstream.Wire.{Response, Sent}

module _ (env : ProxyEnv) (html : HtmlLib) (m : Moment) (route : Route) where
  page-injective : (s t : ℕ) (h k : Header) (b c : List Text) → page s h b ≡ page t k c → h ≡ k
  page-injective s t h k b c e = cc

  send_page-copied :
      (db : ProxyDb) (r : Request) (target : Url) (response : Response) (left h : Header)
      (status : ℕ) (body : List Text)
      → (send_page env html m route db r target response left).1 ≡ page status h body
      → (src : Header) × (h ≡ copy_response_headers [] src)
  unfolding send_page
  send_page-copied db r target response left h status body e =
      let content_type = header_get (text "Content-Type") left in
      let st : Rewriting = record { db = db; asked = 0 } in
      let rewritten =
        rewrite_body env html m route st target content_type (concat response.chunks) in
      elim (Bool-cases (needs_rewriting response.status content_type)) [
        | inr plain ↦ (left, ground arith)
        | inl due ↦ elim (Result-cases rewritten.1) [
          | inr (reason, failed) ↦ absurd (ground arith)
          | inl (text_left, made) ↦ (without_body_fields left, ground arith)
        ]
      ]

  take_answer-copied :
      (db : ProxyDb) (r : Request) (sent : Sent) (answer_of : Option Response) (h : Header)
      (status : ℕ) (body : List Text)
      → (take_answer env html m route db r sent answer_of).1 ≡ page status h body
      → (src : Header) × (h ≡ copy_response_headers [] src)
  unfolding take_answer
  take_answer-copied db r sent none h status body e = cc
  take_answer-copied db r sent (some response) h status body e =
      let kept =
        save_cookies env.aead env.public_suffix env.show_id (m.fails 4) m.nonces m.now
          route.context_id sent.target.url response.cookies db.jar in
      let db1 = record db { jar = kept.0 } in
      elim (Bool-cases kept.1) [
        | inr unsaved ↦ absurd (ground arith)
        | inl saved ↦
            elim (Result-cases (forward_location env m db1 route sent.target response.header)) [
              | inr (code, failed) ↦ absurd (ground arith)
              | inl ((db2, located), led) ↦
                  let left = strip_hop_headers (
                    translate_cors located r.header (origin_sent env html m route r)
                      (upstream_origin env html m route db (origin_sent env html m route r))
                      route.compatibility_mode) in
                  elim (Bool-cases (
                    response.interrupted
                    && needs_rewriting response.status (header_get (text "Content-Type") left))) [
                      | inl broken ↦ absurd (ground arith)
                      | inr whole ↦
                          let same : (take_answer env html m route db r sent (some response)).1
                              ≡ (send_page env html m route db2 r sent.target.url response left).1 =
                            ground arith in
                          send_page-copied db2 r sent.target.url response left h status body
                            (sym same ∙ e)
                    ]
            ]
      ]

  carry_out-copied :
      (db : ProxyDb) (network : Sent → Option Response) (r : Request) (made : Outgoing) (h : Header)
      (status : ℕ) (body : List Text)
      → (carry_out env html m route db network r made).1 ≡ page status h body
      → (src : Header) × (h ≡ copy_response_headers [] src)
  unfolding carry_out
  carry_out-copied db network r (stopped (after, failed_with code)) h status body e = cc
  carry_out-copied db network r (stopped (after, available b l)) h status body e = cc
  carry_out-copied db network r (stopped (after, context_created c s t)) h status body e = cc
  carry_out-copied db network r (stopped (after, context_shown c)) h status body e = cc
  carry_out-copied db network r (stopped (after, navigated s t)) h status body e = cc
  carry_out-copied db network r (stopped (after, mapped_url s)) h status body e = cc
  carry_out-copied db network r (stopped (after, entered s t)) h status body e = cc
  carry_out-copied db network r (stopped (after, empty_reply)) h status body e = cc
  carry_out-copied db network r (sends sent) h status body e =
      take_answer-copied db r sent (network sent) h status body e

  -- The header of a page that forward answers with holds no field that is withheld from the browser, and
  -- exactly one Referrer-Policy, no-referrer.
  pub forward-IsAllowed :
      (db : ProxyDb) (network : Sent → Option Response) (r : Request) (request_body : Text)
      (status : ℕ) (h : Header) (body : List Text)
      → (forward env html m route db network r request_body).1 ≡ page status h body
      → All IsAllowed h × (header_values (text "Referrer-Policy") h ≡ text "no-referrer" ∷ [])
  unfolding forward
  forward-IsAllowed db network r request_body status h body e =
      let (src, copied) =
        carry_out-copied db network r (forward_request env m db route r request_body) h status body
          e in
      rw copied (copy_response_headers-IsAllowed src)
