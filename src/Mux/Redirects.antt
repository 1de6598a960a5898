-- ===== src/Mux/Redirects.antt =====
-- What muxRoundTrip sends, over all its redirects.
use tvpn.Authorize.{resolved}
use tvpn.Base.{
  >>=-eq-ok, All, Bool, Bool-cases, List, Option, Option-cases, Result, Result-cases, [], ap, arith,
  err, fail_if, false, if◌then◌else◌, inl, inr, length, none, not, ok, ok-injective, refl, some,
  suc, sym, true, zero, ℕ, ◌∙◌, ◌∷◌, ◌≡◌, ◌≤◌, ◌⊎◌,
}
use tvpn.Cookies.{CookieRow, cookies}
use tvpn.Guard.{Target}
use tvpn.Headers.{header_get}
use tvpn.Ldap.{dial}
use tvpn.Mux.{MuxRequest}
use tvpn.Mux.Execute.{
  MuxEnv, Trip, TripError, Turn, authorize_at, bad_location, bad_request, cookies_unread, dial_for,
  forwarded_header, http_cookie_url, is_redirect, mux_round_trip, next_target, or_error,
  or_no_transport, prepare, round_trip, saved_jar, turns_to_get,
}
use tvpn.Net.{Url}
use tvpn.Policy.{Decision}
use tvpn.Store.{Route}
use tvpn.Text.{Text, fields, text}
use tvpn.Upstream.{UpstreamError}
use tvpn.Upstream.Access.{Dial, dialled}
use tvpn.Upstream.Wire.{Response, Sent}

-- The request carries the fields of the client without the ones of a single hop, its cookies and its
-- encodings, and either the method and the body it began with or GET and no body.
abbrev pub IsRewritten : MuxRequest → Text → Text → Sent → Type 0
IsRewritten meta method body s =
    (s.header ≡ forwarded_header meta.headers)
    × (((s.method ≡ method) × (s.body ≡ body)) ⊎ ((s.method ≡ text "GET") × (s.body ≡ [])))

module _ (env : MuxEnv) (route : Route) (meta : MuxRequest) where
  or_no_transport-ok :
      (r : Result UpstreamError Dial) {d : Dial} → or_no_transport r ≡ ok d → r ≡ ok d
  or_no_transport-ok (err e) h = cc
  or_no_transport-ok (ok d) h = ap ok (ok-injective h)

  prepare-fields :
      (turn : Turn) (jar : List CookieRow) (method body : Text) (current : Target) (s : Sent)
      → prepare env route meta turn jar method body current ≡ ok s
      → (s.method ≡ method)
        × (s.body ≡ body)
        × (s.target ≡ current)
        × (s.header ≡ forwarded_header meta.headers)
        × (dial_for env route meta turn current ≡ ok s.dial)
  unfolding prepare
  prepare-fields turn jar method body current s h =
      let (u, e0, h0) =
        >>=-eq-ok (fail_if (not (env.is_request method current.url)) bad_request) _ h in
      let (stored, e1, h1) =
        >>=-eq-ok
          (or_error cookies_unread (
            cookies env.aead env.public_suffix env.show_id turn.read_fails turn.now route.context_id
              (http_cookie_url current.url) false jar))
          _ h0 in
      let (dial, e2, h2) =
        >>=-eq-ok (or_no_transport (dial_for env route meta turn current)) _ h1 in
      let e = ok-injective h2 in
      (
        sym (ap (λ (r : Sent). r.method) e),
        sym (ap (λ (r : Sent). r.body) e),
        sym (ap (λ (r : Sent). r.target) e),
        sym (ap (λ (r : Sent). r.header) e),
        or_no_transport-ok _ e2 ∙ ap (λ (r : Sent). ok r.dial) e,
      )

  or_error-ok {ℓ} :
      {A : Type ℓ} (e : TripError) (o : Option A) {a : A} → or_error e o ≡ ok a → o ≡ some a
  or_error-ok e none h = cc
  or_error-ok e (some b) h = ap some (ok-injective h)

  next_target-allowed :
      (turn : Turn) (current : Target) (response : Response) (next : Target)
      → next_target env route meta turn current response ≡ ok next
      → (location : Url) × (env.parsers.resolve_reference current.url
            (header_get (text "Location") response.header)
          ≡ some location)
        × ((d : Decision) × (authorize_at env route meta turn (env.parsers.show_url location)
              ≡ ok (next, d))
            × (d.allowed ≡ true))
  unfolding next_target
  next_target-allowed turn current response next h =
      let (location, e, h1) =
        >>=-eq-ok
          (or_error bad_location (
            env.parsers.resolve_reference current.url
              (header_get (text "Location") response.header)))
          _ h in
      let raw = env.parsers.show_url location in
      elim (Result-cases (authorize_at env route meta turn raw)) [
        | inr (reason, refused) ↦ absurd (ground arith)
        | inl ((target, d), granted) ↦
            let same : target ≡ next = ground arith in
            (
              location,
              or_error-ok bad_location _ e,
              (d, granted ∙ ap (λ t. ok (t, d)) same, ground arith),
            )
      ]

  module _ (turns : ℕ → Turn) where
    -- What one round of the loop adds to the requests that were sent.
    data Round (left : ℕ) (jar : List CookieRow) (method body : Text) (current : Target) (t : Trip)
        : Type 0 where
      unsent : t.sent ≡ [] → Round left jar method body current t
      final :
          (s : Sent)
          → prepare env route meta (turns left) jar method body current ≡ ok s
          → t.sent ≡ s ∷ []
          → Round left jar method body current t
      onward :
          (s : Sent) (response : Response) (next : Target) (kept : List CookieRow)
          → prepare env route meta (turns left) jar method body current ≡ ok s
          → (turns left).reply s ≡ some response
          → next_target env route meta (turns left) current response ≡ ok next
          → t.sent
            ≡ s
              ∷ (round_trip env route meta turns left kept
                  (if turns_to_get response.status method then text "GET" else method)
                  (if turns_to_get response.status method then [] else body)
                  next).sent
          → Round left jar method body current t

    round_trip-Round :
        (left : ℕ) (jar : List CookieRow) (method body : Text) (current : Target)
        → Round left jar method body current
            (round_trip env route meta turns (suc left) jar method body current)
    unfolding round_trip
    round_trip-Round left jar method body current =
        let turn = turns left in
        elim (Result-cases (prepare env route meta turn jar method body current)) [
          | inr (e, failed) ↦ unsent (ground arith)
          | inl (s, prepared) ↦ elim (Option-cases (turn.reply s)) [
            | inl silent ↦ final s prepared (ground arith)
            | inr (response, replied) ↦
                let saved = saved_jar env route meta turn current response jar in
                elim (Bool-cases saved.1) [
                  | inr unsaved ↦ final s prepared (ground arith)
                  | inl done ↦ elim (Bool-cases (is_redirect response)) [
                    | inr plain ↦ final s prepared (ground arith)
                    | inl moved ↦
                        elim (Result-cases (next_target env route meta turn current response)) [
                          | inr (e, refused) ↦ final s prepared (ground arith)
                          | inl (next, granted) ↦
                              onward s response next saved.0 prepared replied granted (ground arith)
                        ]
                  ]
                ]
          ]
        ]

    -- At most as many requests are sent as the loop may send.
    round_trip-length :
        (left : ℕ) (jar : List CookieRow) (method body : Text) (current : Target)
        → length (round_trip env route meta turns left jar method body current).sent ≤ left
    unfolding round_trip
    round_trip-length zero jar method body current = ground arith
    round_trip-length (suc left) jar method body current =
        elim (round_trip-Round left jar method body current) [
          | unsent e ↦ rw e (ground arith)
          | final s prepared e ↦ rw e (ground arith)
          | onward s response next kept prepared replied granted e ↦
              let rest =
                round_trip-length left kept
                  (if turns_to_get response.status method then text "GET" else method)
                  (if turns_to_get response.status method then [] else body) next in
              rw e (omega (arith, rest))
        ]

    -- With at most `left` requests to come, in the turns from `left - 1` down: each is for the target that
    -- the owner's policies allow for the URL in the turn before it, and is dialled in its own turn as the
    -- rules for upstream proxies say; the URL of a later one is the location that the answer to the one
    -- before it names.
    unfoldable pub IsAuthorizedTrip : Turn → Text → ℕ → List Sent → Type 0
    IsAuthorizedTrip before raw left [] = Unit
    IsAuthorizedTrip before raw zero (s ∷ l) = ⊥
    IsAuthorizedTrip before raw (suc left) (s ∷ l) =
        ((d : Decision) × (authorize_at env route meta before raw ≡ ok (s.target, d))
          × (d.allowed ≡ true))
        × (dial_for env route meta (turns left) s.target ≡ ok s.dial)
        × ((l ≡ [])
            ⊎ ((response : Response) × (location : Url) × ((turns left).reply s ≡ some response)
                × (env.parsers.resolve_reference s.target.url
                      (header_get (text "Location") response.header)
                    ≡ some location)
                × IsAuthorizedTrip (turns left) (env.parsers.show_url location) left l))

    round_trip-IsAuthorizedTrip :
        (left : ℕ) (jar : List CookieRow) (method body : Text) (before : Turn) (raw : Text)
        (current : Target) (d : Decision)
        → authorize_at env route meta before raw ≡ ok (current, d)
        → d.allowed ≡ true
        → IsAuthorizedTrip before raw left
            (round_trip env route meta turns left jar method body current).sent
    unfolding round_trip IsAuthorizedTrip
    round_trip-IsAuthorizedTrip zero jar method body before raw current d found allowed = tt
    round_trip-IsAuthorizedTrip (suc left) jar method body before raw current d found allowed =
        elim (round_trip-Round left jar method body current) [
          | unsent e ↦ rw e tt
          | final s prepared e ↦
              let (m, b, same, fields, dialled_as) =
                prepare-fields (turns left) jar method body current s prepared in
              rw (e, same) ((d, found, allowed), dialled_as, inl refl)
          | onward s response next kept prepared replied granted e ↦
              let to_get = turns_to_get response.status method in
              let (m, b, same, fields, dialled_as) =
                prepare-fields (turns left) jar method body current s prepared in
              let (location, resolved, (d', found', allowed')) =
                next_target-allowed (turns left) current response next granted in
              rw e (
                (d, found ∙ ap (λ t. ok (t, d)) (sym same), allowed),
                ap (dial_for env route meta (turns left)) same ∙ dialled_as,
                inr (
                  response,
                  location,
                  replied,
                  ap
                        (λ (t : Target).
                          env.parsers.resolve_reference t.url
                            (header_get (text "Location") response.header))
                        same
                      ∙ resolved,
                  round_trip-IsAuthorizedTrip left kept (if to_get then text "GET" else method)
                      (if to_get then [] else body) (turns left) (env.parsers.show_url location)
                      next d' found' allowed',
                ),
              )
        ]

    -- The method and the body are those of the beginning, or GET and nothing.
    abbrev IsTurned : Text → Text → Text → Text → Type 0
    IsTurned method body m b = ((m ≡ method) × (b ≡ body)) ⊎ ((m ≡ text "GET") × (b ≡ []))

    IsTurned-step :
        (method body m b : Text) (to_get : Bool)
        → IsTurned method body m b
        → IsTurned method body (if to_get then text "GET" else m) (if to_get then [] else b)
    IsTurned-step method body m b true t = inr (refl, refl)
    IsTurned-step method body m b false t = t

    prepared-IsRewritten :
        (turn : Turn) (jar : List CookieRow) (method body m b : Text) (current : Target) (s : Sent)
        → prepare env route meta turn jar m b current ≡ ok s
        → IsTurned method body m b
        → IsRewritten meta method body s
    prepared-IsRewritten turn jar method body m b current s prepared t =
        let (same_m, same_b, same, fields, dialled) =
          prepare-fields turn jar m b current s prepared in
        rw (same_m, same_b) (fields, t)

    round_trip-IsRewritten :
        (left : ℕ) (jar : List CookieRow) (method body m b : Text) (current : Target)
        → IsTurned method body m b
        → All
            (IsRewritten meta method body)
            (round_trip env route meta turns left jar m b current).sent
    unfolding round_trip
    round_trip-IsRewritten zero jar method body m b current t = tt
    round_trip-IsRewritten (suc left) jar method body m b current t =
        elim (round_trip-Round left jar m b current) [
          | unsent e ↦ rw e tt
          | final s prepared e ↦
              rw e (prepared-IsRewritten (turns left) jar method body m b current s prepared t, tt)
          | onward s response next kept prepared replied granted e ↦
              let to_get = turns_to_get response.status m in
              rw e (
                prepared-IsRewritten (turns left) jar method body m b current s prepared t,
                round_trip-IsRewritten left kept method body (if to_get then text "GET" else m)
                    (if to_get then [] else b) next (IsTurned-step method body m b to_get t),
              )
        ]

    -- A round trip to a target that was authorised sends at most eleven requests, which are an authorised
    -- trip.
    pub mux_round_trip-IsAuthorizedTrip :
        (jar : List CookieRow) (before : Turn) (raw : Text) (target : Target) (d : Decision)
        (body : Text)
        → authorize_at env route meta before raw ≡ ok (target, d)
        → d.allowed ≡ true
        → (length (mux_round_trip env route meta turns jar target body).sent ≤ 11)
          × IsAuthorizedTrip before raw 11
              (mux_round_trip env route meta turns jar target body).sent
    unfolding mux_round_trip
    mux_round_trip-IsAuthorizedTrip jar before raw target d body found allowed = (
      round_trip-length 11 jar meta.method body target,
      round_trip-IsAuthorizedTrip 11 jar meta.method body before raw target d found allowed,
    )

    -- Every request of a round trip carries the fields of the client but for hop-by-hop fields, cookies
    -- and encodings, and it has the method and the body of the client, or is a GET without a body.
    pub mux_round_trip-IsRewritten :
        (jar : List CookieRow) (target : Target) (body : Text)
        → All
            (IsRewritten meta meta.method body)
            (mux_round_trip env route meta turns jar target body).sent
    unfolding mux_round_trip
    mux_round_trip-IsRewritten jar target body =
        round_trip-IsRewritten 11 jar meta.method body meta.method body target (inl (refl, refl))
