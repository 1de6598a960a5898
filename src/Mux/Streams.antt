-- ===== src/Mux/Streams.antt =====
-- The map of streams: one entry for each number, no body above the limit, and no frame of one stream
-- touches another.
use tvpn.Base.{
  All, All-at, Bool, Bool-cases, List, Option, Option-cases, [], arith, find, find_sound,
  if◌then◌else◌, inl, inr, length, length-append, list_eq, ltb, nat_eq, none, refl, some,
  update_where, ℕ, ◌++◌, ◌+◌, ◌==◌, ◌∷◌, ◌≡◌, ◌≢◌, ◌≤◌,
}
use tvpn.Mux.{
  Frame, Mux, MuxRequest, Stream, append_chunk, cancel_stream, end_stream, handle, has_id,
  max_mux_request_body, open_stream, parse_frame, send_error, serve_mux, start_stream, stream_of,
  valid_meta, without,
}
use tvpn.Text.{Text, text}

abbrev pub HasUniqueIds : List Stream → Type 0
HasUniqueIds [] = Unit
HasUniqueIds (s ∷ l) = (find (has_id s.id) l ≡ none) × HasUniqueIds l

abbrev pub IsSmall : Stream → Type 0
IsSmall s = length s.body ≤ max_mux_request_body

-- The invariant of a connection.
pub record IsValid (m : Mux) : Type 0 where
  pub unique : HasUniqueIds m.streams
  pub small : All IsSmall m.streams
  pub executed_small : All IsSmall m.executed

-- The streams after a chunk for one of them.
abbrev pub extended : ℕ → Text → List Stream → List Stream
extended id payload l = update_where (has_id id) (λ t. record t { body = t.body ++ payload }) l

find-without :
    (id other : ℕ) (l : List Stream)
    → find (has_id other) (without id l) ≡ (if other == id then none else find (has_id other) l)
find-without id other [] = ground arith
find-without id other (s ∷ l) = ground (arith, find-without id other l)

find-extended :
    (id other : ℕ) (payload : Text) (l : List Stream)
    → other ≢ id
    → find (has_id other) (extended id payload l) ≡ find (has_id other) l
find-extended id other payload [] h = refl
find-extended id other payload (s ∷ l) h = ground (arith, find-extended id other payload l h)

-- A frame of one stream leaves every other stream as it is.
pub stream_of-handle_ne :
    (decode : Text → Option MuxRequest) (f : Frame) (m : Mux) (other : ℕ)
    → other ≢ f.id
    → stream_of other (handle decode f m) ≡ stream_of other m
unfolding handle start_stream append_chunk end_stream cancel_stream
stream_of-handle_ne decode f m other h =
    ground
      (arith, find-without f.id other m.streams, find-extended f.id other f.payload m.streams h)

find-without-none :
    (id other : ℕ) (l : List Stream)
    → find (has_id other) l ≡ none
    → find (has_id other) (without id l) ≡ none
find-without-none id other l h = ground (arith, find-without id other l)

find-extended-none :
    (id other : ℕ) (payload : Text) (l : List Stream)
    → find (has_id other) l ≡ none
    → find (has_id other) (extended id payload l) ≡ none
find-extended-none id other payload [] h = refl
find-extended-none id other payload (s ∷ l) h =
    ground (arith, find-extended-none id other payload l)

without-HasUniqueIds : (id : ℕ) (l : List Stream) → HasUniqueIds l → HasUniqueIds (without id l)
without-HasUniqueIds id [] h = h
without-HasUniqueIds id (s ∷ l) h =
    let rest = without-HasUniqueIds id l h.1 in
    let absent = find-without-none id s.id l h.0 in ground arith

extended-HasUniqueIds :
    (id : ℕ) (payload : Text) (l : List Stream)
    → HasUniqueIds l
    → HasUniqueIds (extended id payload l)
extended-HasUniqueIds id payload [] h = h
extended-HasUniqueIds id payload (s ∷ l) h = (
  ground (arith, find-extended-none id s.id payload l h.0),
  extended-HasUniqueIds id payload l h.1,
)

without-IsSmall : (id : ℕ) (l : List Stream) → All IsSmall l → All IsSmall (without id l)
without-IsSmall id [] h = h
without-IsSmall id (s ∷ l) h = let rest = without-IsSmall id l h.1 in ground arith

extended-absent :
    (id : ℕ) (payload : Text) (l : List Stream)
    → find (has_id id) l ≡ none
    → extended id payload l ≡ l
extended-absent id payload [] h = refl
extended-absent id payload (s ∷ l) h = ground (arith, extended-absent id payload l)

extended-IsSmall :
    (id : ℕ) (payload : Text) (l : List Stream) {s : Stream}
    → HasUniqueIds l
    → All IsSmall l
    → find (has_id id) l ≡ some s
    → length s.body + length payload ≤ max_mux_request_body
    → All IsSmall (extended id payload l)
extended-IsSmall id payload [] u a e h = tt
extended-IsSmall id payload (s ∷ l) {s = found} u a e h = elim (Bool-cases (s.id == id)) [
  | inl same ↦ (
    ground (arith, length-append s.body payload),
    rw (extended-absent id payload l (ground arith)) a.1,
  )
  | inr differs ↦ (ground arith, extended-IsSmall id payload l {s = found} u.1 a.1 (ground arith) h)
]

started-IsValid :
    (s : Stream) (m : Mux)
    → stream_of s.id m ≡ none
    → s.body ≡ []
    → IsValid m
    → IsValid (record m { streams = s ∷ m.streams })
started-IsValid s m absent empty h = record {
  unique = (absent, h.unique);
  small = (rw empty (omega arith), h.small);
  executed_small = h.executed_small;
}

dropped-IsValid :
    (id : ℕ) (m : Mux) (cancelled : List ℕ)
    → IsValid m
    → IsValid (record m { streams = without id m.streams; cancelled = cancelled })
dropped-IsValid id m cancelled h = record {
  unique = without-HasUniqueIds id m.streams h.unique;
  small = without-IsSmall id m.streams h.small;
  executed_small = h.executed_small;
}

ended-IsValid :
    (id : ℕ) (m : Mux) {s : Stream}
    → stream_of id m ≡ some s
    → IsValid m
    → IsValid (record m { streams = without id m.streams; executed = s ∷ m.executed })
ended-IsValid id m e h = record {
  unique = without-HasUniqueIds id m.streams h.unique;
  small = without-IsSmall id m.streams h.small;
  executed_small =
      (All-at IsSmall h.small (find_sound (has_id id) m.streams e).0, h.executed_small);
}

failed-IsValid :
    (id : ℕ) (message : Text) (m : Mux)
    → IsValid m
    → IsValid (record m { errors = (id, message) ∷ m.errors })
failed-IsValid id message m h = record {
  unique = h.unique;
  small = h.small;
  executed_small = h.executed_small;
}

grown-IsValid :
    (id : ℕ) (payload : Text) (m : Mux) {s : Stream}
    → stream_of id m ≡ some s
    → length s.body + length payload ≤ max_mux_request_body
    → IsValid m
    → IsValid (record m { streams = extended id payload m.streams })
grown-IsValid id payload m e small h = record {
  unique = extended-HasUniqueIds id payload m.streams h.unique;
  small = extended-IsSmall id payload m.streams h.unique h.small e small;
  executed_small = h.executed_small;
}

start_stream-IsValid :
    (decode : Text → Option MuxRequest) (id : ℕ) (payload : Text) (m : Mux)
    → IsValid m
    → IsValid (start_stream decode id payload m)
unfolding start_stream open_stream send_error
start_stream-IsValid decode id payload m h =
    let duplicate = failed-IsValid id (text "error.proxy.mux.duplicate_stream") m h in
    let invalid = failed-IsValid id (text "error.proxy.mux.invalid_metadata") m h in
    elim (Option-cases (stream_of id m)) [
      | inr (s, e) ↦ ground arith
      | inl absent ↦ elim (Option-cases (valid_meta (decode payload))) [
        | inl refused ↦ ground arith
        | inr (meta, e) ↦
            let started =
              started-IsValid (record { id = id; meta = meta; body = [] }) m absent refl h in
            ground arith
      ]
    ]

append_chunk-IsValid :
    (id : ℕ) (payload : Text) (m : Mux) → IsValid m → IsValid (append_chunk id payload m)
unfolding append_chunk send_error
append_chunk-IsValid id payload m h =
    let dropped = dropped-IsValid id m (id ∷ m.cancelled) h in
    elim (Option-cases (stream_of id m)) [
      | inl absent ↦ ground arith
      | inr (s, e) ↦ elim (Bool-cases (ltb max_mux_request_body (length s.body + length payload))) [
        | inl large ↦
            let failed =
              failed-IsValid id (text "error.proxy.mux.body_too_large")
                (record m { streams = without id m.streams; cancelled = id ∷ m.cancelled })
                dropped in
            ground arith
        | inr small ↦ let grown = grown-IsValid id payload m e (ground arith) h in ground arith
      ]
    ]

end_stream-IsValid : (id : ℕ) (m : Mux) → IsValid m → IsValid (end_stream id m)
unfolding end_stream
end_stream-IsValid id m h = elim (Option-cases (stream_of id m)) [
  | inl absent ↦ ground arith
  | inr (s, e) ↦ let ended = ended-IsValid id m e h in ground arith
]

cancel_stream-IsValid : (id : ℕ) (m : Mux) → IsValid m → IsValid (cancel_stream id m)
unfolding cancel_stream
cancel_stream-IsValid id m h =
    let dropped = dropped-IsValid id m (id ∷ m.cancelled) h in ground arith

-- Whatever frame the loop handles, the numbers of the open streams stay distinct and every body, of an open
-- stream or of one that was handed on, stays within the limit.
pub handle-IsValid :
    (decode : Text → Option MuxRequest) (f : Frame) (m : Mux)
    → IsValid m
    → IsValid (handle decode f m)
unfolding handle
handle-IsValid decode f m h =
    let started = start_stream-IsValid decode f.id f.payload m h in
    let appended = append_chunk-IsValid f.id f.payload m h in
    let ended = end_stream-IsValid f.id m h in
    let dropped = cancel_stream-IsValid f.id m h in ground arith

-- No request that the loop hands on has a body above the limit.
pub serve_mux-IsSmall :
    (decode : Text → Option MuxRequest) (messages : List (Bool × Text)) (m : Mux)
    → IsValid m
    → All IsSmall (serve_mux decode messages m).executed
unfolding serve_mux
serve_mux-IsSmall decode [] m h = h.executed_small
serve_mux-IsSmall decode ((is_binary, message) ∷ rest) m h =
    elim (Option-cases (parse_frame is_binary message)) [
      | inl closed ↦ let small = h.executed_small in ground arith
      | inr (f, e) ↦
          let more =
            serve_mux-IsSmall decode rest (handle decode f m) (handle-IsValid decode f m h) in
          ground arith
    ]
