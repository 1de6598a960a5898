-- ===== src/Mux/Frames.antt =====
-- What is sent as a frame is read as the same frame.
use tvpn.Base.{
  All, Bool, Bool-cases, [], arith, inl, inr, list_eq, nat_eq, some, true, ℕ, ◌%◌, ◌&&◌, ◌*◌, ◌+◌,
  ◌/◌, ◌<◌, ◌==◌, ◌^◌, ◌∷◌, ◌≡◌,
}
use tvpn.Mux.{Frame, frame_bytes, parse_frame, put_uint32}
use tvpn.Text.{Text}

uint32_parts :
    (id : ℕ)
    → id < 2 ^ 32
    → ((id / 2 ^ 24 % 256 * 256 + id / 2 ^ 16 % 256) * 256 + id / 2 ^ 8 % 256) * 256 + id % 256 ≡ id
uint32_parts id h = omega arith

-- A frame with a stream number of four bytes survives sending and reading.
pub parse_frame-frame_bytes :
    (kind id : ℕ) (payload : Text)
    → id < 2 ^ 32
    → parse_frame true (frame_bytes kind id payload)
      ≡ some (record { kind = kind; id = id; payload = payload })
unfolding parse_frame frame_bytes
parse_frame-frame_bytes kind id payload h = rw (uint32_parts id h)

byte_parts :
    (a b c d : ℕ)
    → a < 256
    → b < 256
    → c < 256
    → d < 256
    → put_uint32 (((a * 256 + b) * 256 + c) * 256 + d) ≡ a ∷ b ∷ c ∷ d ∷ []
unfolding put_uint32
byte_parts a b c d ha hb hc hd = ground arith

-- Conversely a message that is read as a frame is the bytes of that frame, if it consists of bytes.
pub frame_bytes-parse_frame :
    (is_binary : Bool) (message : Text) (f : Frame)
    → All (λ c. c < 256) message
    → parse_frame is_binary message ≡ some f
    → (frame_bytes f.kind f.id f.payload ≡ message) × (is_binary ≡ true)
unfolding parse_frame frame_bytes
frame_bytes-parse_frame is_binary (v ∷ kind ∷ a ∷ b ∷ c ∷ d ∷ payload) f small h =
    elim (Bool-cases (is_binary && v == 1)) [
      | inl good ↦
          let shape : f ≡ record {
            kind = kind;
            id = ((a * 256 + b) * 256 + c) * 256 + d;
            payload = payload;
          } =
            ground arith in
          let bytes =
            byte_parts a b c d small.1.1.0 small.1.1.1.0 small.1.1.1.1.0 small.1.1.1.1.1.0 in
          (rw shape (ground (arith, bytes)), ground arith)
      | inr bad ↦ absurd (ground arith)
    ]
frame_bytes-parse_frame is_binary _ f small h = cc
