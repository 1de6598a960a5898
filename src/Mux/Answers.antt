-- ===== src/Mux/Answers.antt =====
-- executeMux of internal/proxy/mux.go: the request of a stream that has ended, from its authorisation to
-- the last frame of the answer.
use tvpn.Admin.{answer}
use tvpn.Base.{
  Bool, Bool-cases, List, Option, Result-cases, [], any, ap, arith, err, false, filter,
  if◌then◌else◌, inl, inr, length, list_eq, map, nat_eq, none, not, ok, refl, some, suc, sym, true,
  ℕ, ◌++◌, ◌+◌, ◌==◌, ◌||◌, ◌∙◌, ◌∷◌, ◌≡◌, ◌≤◌, ◌⊎◌,
}
use tvpn.Cookies.{CookieRow, cookies}
use tvpn.Gateway.{normalize_client_url}
use tvpn.Gateway.Contexts.{denied}
use tvpn.Guard.{Target}
use tvpn.Headers.{Header, canonical_header_key, has_name, is_hop_header}
use tvpn.Mux.{MuxRequest, frame_response_error}
use tvpn.Mux.Execute.{MuxEnv, Trip, Turn, authorize_at, http_cookie_url, mux_round_trip}
use tvpn.Mux.Redirects.{IsAuthorizedTrip, mux_round_trip-IsAuthorizedTrip}
use tvpn.Policy.{Decision}
use tvpn.Store.{Route}
use tvpn.Text.{Text, fields, join, text}
use tvpn.Upstream.Wire.{Response, Sent}

abbrev pub frame_response : ℕ
frame_response = 11

abbrev pub frame_response_chunk : ℕ
frame_response_chunk = 12

abbrev pub frame_response_end : ℕ
frame_response_end = 13

-- What executing a request does: the jar, the requests that were sent, the frames that the browser gets,
-- each a kind and a payload, and the URL that the audit log is given as denied.
pub record Executed : Type 0 where
  pub jar : List CookieRow
  pub sent : List Sent
  pub frames : List (ℕ × Text)
  pub denied : Option Text

-- The fields that the browser may not see.
unfoldable pub is_hidden : Text → Bool
is_hidden name =
    let canonical = canonical_header_key name in
    canonical == text "Set-Cookie" || canonical == text "Tvpn-Error-Code" || is_hop_header canonical

-- The map of names to joined values, which a header's loop builds; each name once.
unfoldable pub visible_fields : Header → List Text → Header → Header
visible_fields h seen [] = []
visible_fields h seen ((name, value) ∷ fields) =
    let rest = visible_fields h (name ∷ seen) fields in
    let rest_seen = visible_fields h seen fields in
    if any (λ s. s == name) seen || is_hidden name
    then rest_seen
    else (name, join (text ", ") (map (λ (f : Text × Text). f.1) (filter (has_name name) h))) ∷ rest

-- muxError
abbrev pub error_frame : Text → ℕ × Text
error_frame message = (frame_response_error, message)

abbrev pub chunk_frame : Text → ℕ × Text
chunk_frame chunk = (frame_response_chunk, chunk)

module _ (env : MuxEnv) (route : Route) (meta : MuxRequest) where
  -- `cookie.Name+"="+cookie.Value`, or nothing where they cannot be read.
  abbrev visible_cookies : Turn → Target → List CookieRow → List Text
  visible_cookies turn target jar =
      elim (cookies env.aead env.public_suffix env.show_id turn.read_fails turn.now route.context_id
        (http_cookie_url target.url) true jar) [
          | none ↦ []
          | some l ↦ map (λ (c : Text × Text). c.0 ++ (text "=" ++ c.1)) l
        ]

  abbrev metadata : Turn → Target → List CookieRow → Response → Text
  metadata turn target jar response =
      env.encode response.status response.status_text
        (visible_fields response.header [] response.header) (env.parsers.show_url target.url)
        (visible_cookies turn target jar)

  -- The frames of an answer: its metadata, what is read of its body, and its end or an error.
  unfoldable pub answer_frames : Turn → Target → List CookieRow → Response → List (ℕ × Text)
  unfolding visible_fields is_hidden
  answer_frames turn target jar response =
      (frame_response, metadata turn target jar response)
      ∷ (map chunk_frame response.chunks
          ++ ((if response.interrupted
                then error_frame (text "error.proxy.mux.response_interrupted")
                else (frame_response_end, []))
              ∷ []))

  -- The frames go out one by one; after the first that cannot be written there is none. `n` is the number
  -- of the first.
  unfoldable pub written : (ℕ → Bool) → ℕ → List (ℕ × Text) → List (ℕ × Text)
  written unwritable n [] = []
  written unwritable n (f ∷ frames) =
      let rest = written unwritable (suc n) frames in if unwritable n then [] else f ∷ rest

  -- What a round trip gives the browser.
  abbrev answered : Turn → Trip → Executed
  answered turn trip = elim trip.result [
    | err e ↦ record {
      jar = trip.jar;
      sent = trip.sent;
      frames = written turn.unwritable 0 (error_frame (text "error.proxy.upstream_error") ∷ []);
      denied = none;
    }
    | ok (response, target) ↦ record {
      jar = trip.jar;
      sent = trip.sent;
      frames = written turn.unwritable 0 (answer_frames turn target trip.jar response);
      denied = none;
    }
  ]

  abbrev refused : Turn → List CookieRow → Text → Executed
  refused turn jar raw = record {
    jar = jar;
    sent = [];
    frames = written turn.unwritable 0 (error_frame (text "error.proxy.target_denied") ∷ []);
    denied = some raw;
  }

  -- The URL of the request, as the browser's page would be known to the target.
  abbrev pub client_url : Text
  client_url = normalize_client_url env.parsers env.proxy_base_domain env.by_label route meta.url

  -- Service.executeMux; `last` is the turn in which the answer goes out.
  unfoldable pub execute_mux : Turn → (ℕ → Turn) → Turn → List CookieRow → Text → Executed
  unfolding answer_frames written
  execute_mux turn turns last jar body =
      if meta.method == text "CONNECT" || meta.method == text "TRACE"
      then record {
        jar = jar;
        sent = [];
        frames =
            written last.unwritable 0
              (error_frame (text "error.proxy.mux.unsupported_method") ∷ []);
        denied = none;
      }
      else elim (authorize_at env route meta turn client_url) [
        | err e ↦ refused last jar client_url
        | ok (target, decision) ↦
            if not decision.allowed
            then refused last jar client_url
            else answered last (mux_round_trip env route meta turns jar target body)
      ]

  -- Nothing is sent, or the URL was authorised and the requests are those of its round trip.
  execute_mux-sent :
      (turn : Turn) (turns : ℕ → Turn) (last : Turn) (jar : List CookieRow) (body : Text)
      → ((execute_mux turn turns last jar body).sent ≡ [])
        ⊎ ((target : Target) × (d : Decision) × (authorize_at env route meta turn client_url
              ≡ ok (target, d))
            × (d.allowed ≡ true)
            × ((execute_mux turn turns last jar body).sent
                ≡ (mux_round_trip env route meta turns jar target body).sent))
  unfolding execute_mux
  execute_mux-sent turn turns last jar body =
      elim (Bool-cases (meta.method == text "CONNECT" || meta.method == text "TRACE")) [
        | inl odd ↦ inl (ground arith)
        | inr usual ↦ elim (Result-cases (authorize_at env route meta turn client_url)) [
          | inr (e, failed) ↦ inl (ground arith)
          | inl ((target, d), found) ↦ elim (Bool-cases d.allowed) [
            | inr denied ↦ inl (ground arith)
            | inl allowed ↦
                elim (Result-cases (mux_round_trip env route meta turns jar target body).result) [
                  | inr (e, broken) ↦ inr (target, d, found, allowed, ground arith)
                  | inl (answer, came) ↦ inr (target, d, found, allowed, ground arith)
                ]
          ]
        ]
      ]

  -- Whatever a stream asks for, at most eleven requests leave the server. The first is for the target that
  -- the policies of the route's owner allow for the URL of the stream, each further one for the target that
  -- they allow, when the answer before it has come, for the location that this answer names; and each is
  -- dialled as the rules for upstream proxies say when it is sent.
  pub execute_mux-IsAuthorizedTrip :
      (turn : Turn) (turns : ℕ → Turn) (last : Turn) (jar : List CookieRow) (body : Text)
      → (length (execute_mux turn turns last jar body).sent ≤ 11)
        × IsAuthorizedTrip env route meta turns turn client_url 11
            (execute_mux turn turns last jar body).sent
  unfolding IsAuthorizedTrip
  execute_mux-IsAuthorizedTrip turn turns last jar body =
      elim (execute_mux-sent turn turns last jar body) [
        | inl nothing ↦ rw nothing (ground arith, tt)
        | inr (target, d, found, allowed, same) ↦ rw same (
            mux_round_trip-IsAuthorizedTrip env route meta turns jar turn client_url target d body
              found allowed)
      ]

  -- The frame that ends an answer.
  abbrev pub is_final : ℕ × Text → Bool
  is_final f = f.0 == frame_response_end || f.0 == frame_response_error

  -- One frame ends the answer, and it is the last.
  abbrev pub IsEnded : List (ℕ × Text) → Type 0
  IsEnded frames =
      (before : List (ℕ × Text)) × (end : ℕ × Text) × (frames ≡ before ++ (end ∷ []))
      × (is_final end ≡ true)
      × (any is_final before ≡ false)

  -- A frame could not be written: the browser has the ones before it, none of which ends the answer.
  abbrev pub IsCutOff : Turn → List (ℕ × Text) → Type 0
  IsCutOff last frames = (last.unwritable (length frames) ≡ true) × (any is_final frames ≡ false)

  no_chunk-final : (chunks : List Text) → any is_final (map chunk_frame chunks) ≡ false
  no_chunk-final [] = refl
  no_chunk-final (chunk ∷ chunks) = no_chunk-final chunks

  answer_frames-IsEnded :
      (turn : Turn) (target : Target) (jar : List CookieRow) (response : Response)
      → IsEnded (answer_frames turn target jar response)
  unfolding answer_frames
  answer_frames-IsEnded turn target jar response =
      let chunks : List (ℕ × Text) = map chunk_frame response.chunks in
      let head : ℕ × Text = (frame_response, metadata turn target jar response) in
      elim (Bool-cases response.interrupted) [
        | inl broken ↦ (
          head ∷ chunks,
          error_frame (text "error.proxy.mux.response_interrupted"),
          ground arith,
          refl,
          no_chunk-final response.chunks,
        )
        | inr whole ↦ (
          head ∷ chunks,
          (frame_response_end, []),
          ground arith,
          refl,
          no_chunk-final response.chunks,
        )
      ]

  -- Frames that end are written to their end, or are cut off at one that cannot be written.
  written-ends :
      (unwritable : ℕ → Bool) (n : ℕ) (before : List (ℕ × Text)) (end : ℕ × Text)
      → is_final end ≡ true
      → any is_final before ≡ false
      → (written unwritable n (before ++ (end ∷ [])) ≡ before ++ (end ∷ []))
        ⊎ ((unwritable (n + length (written unwritable n (before ++ (end ∷ [])))) ≡ true)
            × (any is_final (written unwritable n (before ++ (end ∷ []))) ≡ false))
  unfolding written
  written-ends unwritable n [] end final plain = elim (Bool-cases (unwritable n)) [
    | inl broken ↦
        let same : n + 0 ≡ n = omega arith in
        inr (rw broken (ap unwritable same ∙ broken), ground arith)
    | inr writable ↦ inl (ground arith)
  ]
  written-ends unwritable n (f ∷ before) end final plain = elim (Bool-cases (unwritable n)) [
    | inl broken ↦
        let same : n + 0 ≡ n = omega arith in
        inr (rw broken (ap unwritable same ∙ broken), ground arith)
    | inr writable ↦ elim (written-ends unwritable (suc n) before end final (ground arith)) [
      | inl whole ↦ inl (ground arith)
      | inr (broken, none_final) ↦
          let rest = written unwritable (suc n) (before ++ (end ∷ [])) in
          let same : n + suc (length rest) ≡ suc n + length rest = omega arith in
          inr (rw writable (ap unwritable same ∙ broken), ground arith)
    ]
  ]

  written-IsEnded :
      (last : Turn) (frames : List (ℕ × Text))
      → IsEnded frames
      → IsEnded (written last.unwritable 0 frames)
        ⊎ IsCutOff last (written last.unwritable 0 frames)
  written-IsEnded last frames (before, end, e, final, plain) =
      elim (written-ends last.unwritable 0 before end final plain) [
        | inl whole ↦ inl (before, end, ap (written last.unwritable 0) e ∙ whole, final, plain)
        | inr (broken, none_final) ↦
            let count = length (written last.unwritable 0 (before ++ (end ∷ []))) in
            let same : 0 + count ≡ count = omega arith in
            inr (rw e (ap last.unwritable (sym same) ∙ broken, none_final))
      ]

  error-IsEnded : (message : Text) → IsEnded (error_frame message ∷ [])
  error-IsEnded message = ([], error_frame message, refl, refl, refl)

  -- The frames of a stream that has ended and whose answer, if any, has a finite body end with one frame for
  -- the end of the response or for an error, and no such frame comes before, unless a frame could not be
  -- written: then the browser has the frames before that one, none of which ends the answer.
  pub execute_mux-IsEnded :
      (turn : Turn) (turns : ℕ → Turn) (last : Turn) (jar : List CookieRow) (body : Text)
      → IsEnded (execute_mux turn turns last jar body).frames
        ⊎ IsCutOff last (execute_mux turn turns last jar body).frames
  unfolding execute_mux
  execute_mux-IsEnded turn turns last jar body =
      let as_error = λ (message : Text). written-IsEnded last _ (error-IsEnded message) in
      elim (Bool-cases (meta.method == text "CONNECT" || meta.method == text "TRACE")) [
        | inl odd ↦ rw odd (as_error (text "error.proxy.mux.unsupported_method"))
        | inr usual ↦ elim (Result-cases (authorize_at env route meta turn client_url)) [
          | inr (e, failed) ↦ rw (usual, failed) (as_error (text "error.proxy.target_denied"))
          | inl ((target, d), found) ↦ elim (Bool-cases d.allowed) [
            | inr denied ↦ rw (usual, found, denied) (as_error (text "error.proxy.target_denied"))
            | inl allowed ↦
                let trip = mux_round_trip env route meta turns jar target body in
                elim (Result-cases trip.result) [
                  | inr (e, broken) ↦
                      rw (usual, found, allowed, broken)
                        (as_error (text "error.proxy.upstream_error"))
                  | inl ((response, final_target), came) ↦
                      rw (usual, found, allowed, came)
                        (written-IsEnded last _
                          (answer_frames-IsEnded last final_target trip.jar response))
                ]
          ]
        ]
      ]
