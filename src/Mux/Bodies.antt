-- ===== src/Mux/Bodies.antt =====
-- What a client sends for one stream is what executeMux is given, whatever frames of other streams
-- stand between.
use mathlib.Core.Path.{subst}
use mathlib.Core.List.{Memᴰ, append-nil, append_assoc}
use tvpn.Base.{
  All, Bool, Bool-cases, List, Option, Option-cases, [], arith, find, if◌then◌else◌, inl, inr,
  length, length-append, list_eq, map, nat_eq, none, refl, some, true, ℕ, ◌++◌, ◌+◌, ◌<◌, ◌==◌, ◌^◌,
  ◌∙◌, ◌∷◌, ◌≡◌, ◌≤◌,
}
use tvpn.Mux.{
  Frame, Mux, MuxRequest, Stream, append_chunk, cancel_stream, end_stream, frame_bytes, frame_chunk,
  frame_end, frame_start, handle, has_id, max_mux_request_body, open_stream, parse_frame,
  send_error, serve_mux, start_stream, stream_of, valid_meta,
}
use tvpn.Mux.Frames.{parse_frame-frame_bytes}
use tvpn.Mux.Streams.{extended, stream_of-handle_ne}
use tvpn.Text.{Text}

-- The payloads of a stream's frames, in order: what the client sends as the body.
unfoldable pub sent_body : ℕ → List Frame → Text
sent_body id [] = []
sent_body id (f ∷ fs) = let rest = sent_body id fs in if f.id == id then f.payload ++ rest else rest

-- Frames of a stream are chunks; any frame of another stream may stand between them.
abbrev pub HasOnlyChunks : ℕ → List Frame → Type 0
HasOnlyChunks id [] = Unit
HasOnlyChunks id (f ∷ fs) = (f.id ≡ id → f.kind ≡ frame_chunk) × HasOnlyChunks id fs

-- The messages that carry frames.
abbrev pub messages_of : List Frame → List (Bool × Text)
messages_of fs = map (λ (f : Frame). (true, frame_bytes f.kind f.id f.payload)) fs

-- The rounds of the loop for frames.
unfoldable pub received : (Text → Option MuxRequest) → List Frame → Mux → Mux
received decode [] m = m
received decode (f ∷ fs) m = received decode fs (handle decode f m)

extended-found :
    (id : ℕ) (payload : Text) (l : List Stream) {s : Stream}
    → find (has_id id) l ≡ some s
    → find (has_id id) (extended id payload l) ≡ some (record s { body = s.body ++ payload })
extended-found id payload [] h = cc
extended-found id payload (s ∷ l) {s = found} h =
    ground (arith, extended-found id payload l {s = found})

chunk-stream_of :
    (decode : Text → Option MuxRequest) (id : ℕ) (payload : Text) (m : Mux) {s : Stream}
    → stream_of id m ≡ some s
    → length s.body + length payload ≤ max_mux_request_body
    → stream_of id (handle decode (record { kind = frame_chunk; id = id; payload = payload }) m)
      ≡ some (record s { body = s.body ++ payload })
unfolding handle append_chunk
chunk-stream_of decode id payload m {s = found} e small =
    let grown = extended-found id payload m.streams {s = found} e in ground arith

received-stream_of :
    (decode : Text → Option MuxRequest) (id : ℕ) (fs : List Frame) (m : Mux) {s : Stream}
    → stream_of id m ≡ some s
    → HasOnlyChunks id fs
    → length s.body + length (sent_body id fs) ≤ max_mux_request_body
    → stream_of id (received decode fs m) ≡ some (record s { body = s.body ++ sent_body id fs })
unfolding received sent_body
received-stream_of decode id [] m {s = s} e only small = rw (append-nil s.body, e)
received-stream_of decode id (f ∷ fs) m {s = s} e only small = elim (Bool-cases (f.id == id)) [
  | inl same ↦
      let ids : f.id ≡ id = ground arith in
      let size = length-append f.payload (sent_body id fs) in
      let long = length-append s.body f.payload in
      let step : stream_of id (handle decode f m) ≡ some (record s { body = s.body ++ f.payload }) =
        subst
          (λ (g : Frame).
            stream_of id (handle decode g m) ≡ some (record s { body = s.body ++ f.payload }))
          (ground (arith, only.0 ids))
          (chunk-stream_of decode id f.payload m {s = s} e (ground arith)) in
      let rest =
        received-stream_of decode id fs (handle decode f m)
          {s = record s { body = s.body ++ f.payload }} step only.1 (ground arith) in
      ground (arith, rest, append_assoc s.body f.payload (sent_body id fs))
  | inr differs ↦
      let step = stream_of-handle_ne decode f m id (λ q. ground arith) in
      let rest =
        received-stream_of decode id fs (handle decode f m) {s = s} (step ∙ e) only.1
          (ground arith) in
      ground (arith, rest)
]

end_stream-executed :
    (id : ℕ) (m : Mux) {s : Stream} → Memᴰ s m.executed → Memᴰ s (end_stream id m).executed
unfolding end_stream
end_stream-executed id m {s = s} h = elim (Option-cases (stream_of id m)) [
  | inl absent ↦ ground arith
  | inr (t, e) ↦ let deeper : Memᴰ s (t ∷ m.executed) = Memᴰ.tail h in ground arith
]

-- A frame adds to the requests handed to executeMux and removes none.
handle-executed :
    (decode : Text → Option MuxRequest) (f : Frame) (m : Mux) {s : Stream}
    → Memᴰ s m.executed
    → Memᴰ s (handle decode f m).executed
unfolding handle start_stream open_stream send_error append_chunk cancel_stream
handle-executed decode f m {s = s} h =
    let ended = end_stream-executed f.id m {s = s} h in ground arith

serve_mux-executed :
    (decode : Text → Option MuxRequest) (messages : List (Bool × Text)) (m : Mux) {s : Stream}
    → Memᴰ s m.executed
    → Memᴰ s (serve_mux decode messages m).executed
unfolding serve_mux
serve_mux-executed decode [] m h = h
serve_mux-executed decode ((is_binary, message) ∷ rest) m {s = s} h =
    elim (Option-cases (parse_frame is_binary message)) [
      | inl closed ↦ ground arith
      | inr (f, e) ↦
          let more =
            serve_mux-executed decode rest (handle decode f m) {s = s}
              (handle-executed decode f m {s = s} h) in
          ground arith
    ]

serve_mux-frame :
    (decode : Text → Option MuxRequest) (kind id : ℕ) (payload : Text) (rest : List (Bool × Text))
    (m : Mux)
    → id < 2 ^ 32
    → serve_mux decode ((true, frame_bytes kind id payload) ∷ rest) m
      ≡ serve_mux decode rest (handle decode (record { kind = kind; id = id; payload = payload }) m)
unfolding serve_mux
serve_mux-frame decode kind id payload rest m h =
    ground (arith, parse_frame-frame_bytes kind id payload h)

serve_mux-received :
    (decode : Text → Option MuxRequest) (fs : List Frame) (rest : List (Bool × Text)) (m : Mux)
    → All (λ f. f.id < 2 ^ 32) fs
    → serve_mux decode (messages_of fs ++ rest) m ≡ serve_mux decode rest (received decode fs m)
unfolding serve_mux received
serve_mux-received decode [] rest m h = refl
serve_mux-received decode (f ∷ fs) rest m h =
    serve_mux-frame decode f.kind f.id f.payload (messages_of fs ++ rest) m h.0
    ∙ serve_mux-received decode fs rest (handle decode f m) h.1

start-stream_of :
    (decode : Text → Option MuxRequest) (id : ℕ) (payload : Text) (meta : MuxRequest) (m : Mux)
    → stream_of id m ≡ none
    → valid_meta (decode payload) ≡ some meta
    → stream_of id (start_stream decode id payload m)
      ≡ some (record { id = id; meta = meta; body = [] })
unfolding start_stream open_stream
start-stream_of decode id payload meta m absent e = ground arith

end_stream-delivers :
    (id : ℕ) (m : Mux) {s : Stream} → stream_of id m ≡ some s → Memᴰ s (end_stream id m).executed
unfolding end_stream
end_stream-delivers id m {s = s} e =
    let first : Memᴰ s (s ∷ m.executed) = Memᴰ.head refl in ground arith

-- A client opens a stream that is not in use with metadata that decode, sends chunks for it, among
-- frames of other streams in any order, that make at most the limit, and ends it: then executeMux is
-- given the stream's metadata and the payloads of its chunks in their order, whatever messages follow.
pub serve_mux-delivers :
    (decode : Text → Option MuxRequest) (id : ℕ) (payload : Text) (meta : MuxRequest)
    (fs : List Frame) (rest : List (Bool × Text)) (m : Mux)
    → id < 2 ^ 32
    → All (λ f. f.id < 2 ^ 32) fs
    → stream_of id m ≡ none
    → valid_meta (decode payload) ≡ some meta
    → HasOnlyChunks id fs
    → length (sent_body id fs) ≤ max_mux_request_body
    → Memᴰ
        (record { id = id; meta = meta; body = sent_body id fs })
        (serve_mux decode
          ((true, frame_bytes frame_start id payload)
            ∷ (messages_of fs ++ ((true, frame_bytes frame_end id []) ∷ rest)))
          m).executed
unfolding handle
serve_mux-delivers decode id payload meta fs rest m hid hfs absent e only small =
    let m1 = start_stream decode id payload m in
    let last = (true, frame_bytes frame_end id []) ∷ rest in
    let found =
      received-stream_of decode id fs m1 (start-stream_of decode id payload meta m absent e) only
        (omega (arith, small)) in
    let run =
      serve_mux-frame decode frame_start id payload (messages_of fs ++ last) m hid
      ∙ serve_mux-received decode fs last m1 hfs
      ∙ serve_mux-frame decode frame_end id [] rest (received decode fs m1) hid in
    rw run (
      serve_mux-executed decode rest (end_stream id (received decode fs m1))
        (end_stream-delivers id (received decode fs m1) found))
