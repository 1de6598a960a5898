-- ===== src/Mux.antt =====
-- internal/proxy/mux.go: many requests over one connection. A frame is a version byte, a kind, the
-- number of a stream in four bytes and a payload; a stream collects a request until it is ended.
pub mod Frames
pub mod Streams
pub mod Bodies
pub mod Execute
pub mod Redirects
pub mod Answers
use tvpn.Base.{
  Bool, List, Option, [], filter, find, if◌then◌else◌, length, list_eq, ltb, map, nat_eq, none, not,
  some, update_where, ℕ, ◌%◌, ◌&&◌, ◌*◌, ◌++◌, ◌+◌, ◌/◌, ◌==◌, ◌^◌, ◌||◌, ◌∷◌,
}
use tvpn.Text.{Text, text}

abbrev pub frame_start : ℕ
frame_start = 1

abbrev pub frame_chunk : ℕ
frame_chunk = 2

abbrev pub frame_end : ℕ
frame_end = 3

abbrev pub frame_cancel : ℕ
frame_cancel = 4

abbrev pub frame_response_error : ℕ
frame_response_error = 14

-- 32 << 20
abbrev pub max_mux_request_body : ℕ
max_mux_request_body = 33554432

pub record Frame : Type 0 where
  pub kind : ℕ
  pub id : ℕ
  pub payload : Text

-- binary.BigEndian.PutUint32
unfoldable pub put_uint32 : ℕ → Text
put_uint32 id = id / 2 ^ 24 % 256 ∷ id / 2 ^ 16 % 256 ∷ id / 2 ^ 8 % 256 ∷ id % 256 ∷ []

-- muxWriter.send: the bytes of the message.
unfoldable pub frame_bytes : ℕ → ℕ → Text → Text
unfolding put_uint32
frame_bytes kind id payload = 1 ∷ kind ∷ (put_uint32 id ++ payload)

-- The test of the message and the fields that the loop reads; `none` closes the connection.
unfoldable pub parse_frame : Bool → Text → Option Frame
parse_frame is_binary (v ∷ kind ∷ a ∷ b ∷ c ∷ d ∷ payload) =
    if is_binary && v == 1
    then some (record { kind = kind; id = ((a * 256 + b) * 256 + c) * 256 + d; payload = payload })
    else none
parse_frame is_binary _ = none

pub record MuxRequest : Type 0 where
  pub method : Text
  pub url : Text
  pub headers : List (Text × Text)

-- muxState, with its key in the map of streams.
pub record Stream : Type 0 where
  pub id : ℕ
  pub meta : MuxRequest
  pub body : Text

-- The state of a connection: the open streams, the error frames that were sent, the requests that were
-- handed to executeMux and the streams whose context was cancelled, latest first.
pub record Mux : Type 0 where
  pub streams : List Stream
  pub errors : List (ℕ × Text)
  pub executed : List Stream
  pub cancelled : List ℕ

abbrev pub has_id : ℕ → Stream → Bool
has_id id s = s.id == id

-- states[id]
abbrev pub stream_of : ℕ → Mux → Option Stream
stream_of id m = find (has_id id) m.streams

-- delete(states, id)
abbrev pub without : ℕ → List Stream → List Stream
without id l = filter (λ s. not (has_id id s)) l

unfoldable pub send_error : ℕ → Text → Mux → Mux
send_error id message m = record m { errors = (id, message) ∷ m.errors }

-- The metadata must name a URL and a method; `none` is what json.Unmarshal refuses.
unfoldable pub valid_meta : Option MuxRequest → Option MuxRequest
valid_meta none = none
valid_meta (some meta) = if meta.url == [] || meta.method == [] then none else some meta

unfoldable pub open_stream : ℕ → Option MuxRequest → Mux → Mux
unfolding send_error
open_stream id none m = send_error id (text "error.proxy.mux.invalid_metadata") m
open_stream id (some meta) m = record m {
  streams = record { id = id; meta = meta; body = [] } ∷ m.streams;
}

-- `case frameStart`
unfoldable pub start_stream : (Text → Option MuxRequest) → ℕ → Text → Mux → Mux
unfolding send_error valid_meta open_stream
start_stream decode id payload m = elim (stream_of id m) [
  | some _ ↦ send_error id (text "error.proxy.mux.duplicate_stream") m
  | none ↦ open_stream id (valid_meta (decode payload)) m
]

-- `case frameChunk`: a stream that grows too large is cancelled and dropped.
unfoldable pub append_chunk : ℕ → Text → Mux → Mux
unfolding send_error
append_chunk id payload m = elim (stream_of id m) [
  | none ↦ m
  | some s ↦
      if ltb max_mux_request_body (length s.body + length payload)
      then send_error id (text "error.proxy.mux.body_too_large")
          (record m { streams = without id m.streams; cancelled = id ∷ m.cancelled })
      else record m {
        streams = update_where (has_id id) (λ t. record t { body = t.body ++ payload }) m.streams;
      }
]

-- `case frameEnd`
unfoldable pub end_stream : ℕ → Mux → Mux
end_stream id m = elim (stream_of id m) [
  | none ↦ m
  | some s ↦ record m { streams = without id m.streams; executed = s ∷ m.executed }
]

-- `case frameCancel`
unfoldable pub cancel_stream : ℕ → Mux → Mux
cancel_stream id m = elim (stream_of id m) [
  | none ↦ m
  | some s ↦ record m { streams = without id m.streams; cancelled = id ∷ m.cancelled }
]

-- One round of the loop of serveMux, for a frame; a kind that is not known is ignored.
unfoldable pub handle : (Text → Option MuxRequest) → Frame → Mux → Mux
handle decode f m =
    if f.kind == frame_start
    then start_stream decode f.id f.payload m
    else if f.kind == frame_chunk
    then append_chunk f.id f.payload m
    else if f.kind == frame_end
    then end_stream f.id m
    else if f.kind == frame_cancel
    then cancel_stream f.id m
    else m

-- The loop: messages with their type, until one is no frame. When the loop is left, the context of
-- every open stream is cancelled.
unfoldable pub serve_mux : (Text → Option MuxRequest) → List (Bool × Text) → Mux → Mux
serve_mux decode [] m = record m {
  streams = [];
  cancelled = map (λ (s : Stream). s.id) m.streams ++ m.cancelled;
}
serve_mux decode ((is_binary, message) ∷ rest) m = elim (parse_frame is_binary message) [
  | none ↦ record m {
    streams = [];
    cancelled = map (λ (s : Stream). s.id) m.streams ++ m.cancelled;
  }
  | some f ↦ serve_mux decode rest (handle decode f m)
]
