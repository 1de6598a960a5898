-- ===== src/Mux/Execute.antt =====
-- executeMux, muxRoundTrip and httpCookieURL of internal/proxy/mux.go: a request of a stream is sent to its
-- target, redirects are followed by the server, and the answer goes back in frames.
use tvpn.Authorize.{AuthorizeError, authorize, effective_policies}
use tvpn.Base.{
  Bool, List, Option, Result, [], err, fail_if, false, if◌then◌else◌, list_eq, ltb, nat_eq, none,
  not, ok, some, suc, zero, ℕ, ◌&&◌, ◌==◌, ◌>>=◌, ◌>>◌, ◌||◌, ◌∷◌,
}
use tvpn.Cookies.{Aead, CookieRow, cookies, save_cookies}
use tvpn.Guard.{Guard, Resolver, Target}
use tvpn.Headers.{Header, header_del, header_get, header_set, strip_hop_headers}
use tvpn.Ldap.{dial}
use tvpn.Mux.{MuxRequest}
use tvpn.Net.{Addr, Parsers, Url, addr_eq}
use tvpn.Policy.{Decision}
use tvpn.Policy.Effective.{Tables}
use tvpn.Store.{Route, StoreError}
use tvpn.Text.{Text, fields, text}
use tvpn.Upstream.{UpstreamDb, UpstreamError}
use tvpn.Upstream.Access.{Dial, transport}
use tvpn.Upstream.Wire.{Response, Sent}

-- The world in one round: the resolver, the tables, which statements fail, random bytes, the clock, and
-- the network: the target, which may not answer, and the connection to the browser.
pub record Turn : Type 0 where
  pub lookup : Resolver
  pub policies : Option Tables
  pub outputs : UpstreamDb
  pub fails : ℕ → Bool
  pub read_fails : Bool
  pub save_fails : ℕ → Bool
  pub nonces : ℕ → Option Text
  pub now : ℕ
  pub no_socks : Bool
  pub reply : Sent → Option Response
  -- the frames of the answer that cannot be written any more
  pub unwritable : ℕ → Bool

-- Service and the libraries; `is_request` tells what http.NewRequest accepts, and `encode` is the JSON of
-- the metadata: status, reason, fields, URL and cookies.
pub record MuxEnv : Type 0 where
  pub guard : Guard
  pub parsers : Parsers
  pub aead : Aead
  pub public_suffix : Text → Text
  pub show_id : ℕ → Text
  -- the collation of the database
  pub collate : Text → Text → Bool
  pub show_addr : Addr → Text
  pub is_request : Text → Url → Bool
  pub encode : ℕ → Text → Header → Text → List Text → Text
  pub proxy_base_domain : Text
  pub by_label : Text → Result StoreError Route

pub data TripError : Type 0 where
  bad_request cookies_unread cookies_unsaved no_transport no_answer : TripError
  bad_location redirect_denied too_many_redirects : TripError

-- The jar after a round trip, the requests that were sent, in order, and its result.
pub record Trip : Type 0 where
  pub jar : List CookieRow
  pub sent : List Sent
  pub result : Result TripError (Response × Target)

abbrev pub or_error {ℓ} : {A : Type ℓ} → TripError → Option A → Result TripError A
or_error e none = err e
or_error e (some a) = ok a

abbrev pub or_no_transport : Result UpstreamError Dial → Result TripError Dial
or_no_transport (err e) = err no_transport
or_no_transport (ok d) = ok d

-- httpCookieURL
unfoldable pub http_cookie_url : Url → Url
http_cookie_url value =
    if value.scheme == text "wss"
    then record value { scheme = text "https" }
    else if value.scheme == text "ws"
    then record value { scheme = text "http" }
    else value

unfoldable pub set_all : List (Text × Text) → Header → Header
set_all [] h = h
set_all ((name, value) ∷ fields) h = set_all fields (header_set name value h)

-- The fields of the client's metadata that go to the target.
unfoldable pub forwarded_header : List (Text × Text) → Header
unfolding set_all
forwarded_header fields = header_del (text "Accept-Encoding") (
    header_del (text "Cookie")
      (header_del (text "Tvpn-Error-Code") (strip_hop_headers (set_all fields []))))

-- The response is a redirect: a status from 300 to 399 with a location.
abbrev pub is_redirect : Response → Bool
is_redirect r =
    not (ltb r.status 300 || ltb 399 r.status || header_get (text "Location") r.header == [])

-- A redirect that turns the request into a GET without a body.
abbrev pub turns_to_get : ℕ → Text → Bool
turns_to_get status method =
    status == 303 || ((status == 301 || status == 302) && method == text "POST")

-- One more request in front of the rest of a trip.
abbrev pub sent_first : Sent → Trip → Trip
sent_first s rest = record rest { sent = s ∷ rest.sent }

abbrev pub stop : List CookieRow → List Sent → TripError → Trip
stop jar sent e = record { jar = jar; sent = sent; result = err e }

module _ (env : MuxEnv) (route : Route) (meta : MuxRequest) where
  abbrev pub dial_for : Turn → Target → Result UpstreamError Dial
  dial_for turn target =
      transport env.aead env.show_id env.show_addr turn.fails turn.outputs target route
        turn.no_socks

  -- Service.authorize for the owner of the route, whose policies Effective selects.
  abbrev pub authorize_at : Turn → Text → Result AuthorizeError (Target × Decision)
  authorize_at turn raw =
      authorize env.guard env.parsers turn.lookup
        (effective_policies env.collate turn.policies route.user_id) raw

  -- The request of one round.
  unfoldable pub prepare : Turn → List CookieRow → Text → Text → Target → Result TripError Sent
  unfolding forwarded_header
  prepare turn jar method body current = do
    fail_if (not (env.is_request method current.url)) bad_request
    stored ← or_error cookies_unread (
        cookies env.aead env.public_suffix env.show_id turn.read_fails turn.now route.context_id
          (http_cookie_url current.url) false jar)
    dial ← or_no_transport (dial_for turn current)
    ok (record {
      method = method;
      target = current;
      header = forwarded_header meta.headers;
      cookies = stored;
      body = body;
      dial = dial;
    })

  abbrev pub allowed_target : Result AuthorizeError (Target × Decision) → Result TripError Target
  allowed_target (err e) = err redirect_denied
  allowed_target (ok (target, decision)) =
      if decision.allowed then ok target else err redirect_denied

  -- The target of a redirect, if the user may reach it.
  unfoldable pub next_target : Turn → Target → Response → Result TripError Target
  next_target turn current response = do
    location ←
        or_error bad_location
          (env.parsers.resolve_reference current.url (header_get (text "Location") response.header))
    allowed_target (authorize_at turn (env.parsers.show_url location))

  -- Service.SaveCookies for a response
  abbrev pub saved_jar : Turn → Target → Response → List CookieRow → List CookieRow × Bool
  saved_jar turn current response jar =
      save_cookies env.aead env.public_suffix env.show_id turn.save_fails turn.nonces turn.now
        route.context_id (http_cookie_url current.url) response.cookies jar

  module _ (turns : ℕ → Turn) where
    -- The loop of muxRoundTrip, with the number of requests that it may still send.
    unfoldable pub round_trip : ℕ → List CookieRow → Text → Text → Target → Trip
    unfolding prepare next_target
    round_trip zero jar method body current = stop jar [] too_many_redirects
    round_trip (suc left) jar method body current =
        let turn = turns left in
        elim (prepare turn jar method body current) [
          | err e ↦ stop jar [] e
          | ok sent ↦ elim (turn.reply sent) [
            | none ↦ stop jar (sent ∷ []) no_answer
            | some response ↦
                let (kept, saved) = saved_jar turn current response jar in
                if not saved
                then stop kept (sent ∷ []) cookies_unsaved
                else if not (is_redirect response)
                then record { jar = kept; sent = sent ∷ []; result = ok (response, current) }
                else elim (next_target turn current response) [
                  | err e ↦ stop kept (sent ∷ []) e
                  | ok next ↦
                      let to_get = turns_to_get response.status method in
                      sent_first sent (
                        round_trip left kept (if to_get then text "GET" else method)
                          (if to_get then [] else body) next)
                ]
          ]
        ]

    -- Service.muxRoundTrip: `redirects` runs from 0 to 10.
    unfoldable pub mux_round_trip : List CookieRow → Target → Text → Trip
    unfolding round_trip
    mux_round_trip jar target body = round_trip 11 jar meta.method body target
