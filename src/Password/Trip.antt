-- ===== src/Password/Trip.antt =====
-- A password is checked against its hash.
use mathlib.Core.List.{append-nil, append_assoc}
use tvpn.Base.{
  All, List, [], ap, arith, false, length, list_beq, list_eq, nat_eq, refl, some, sym, text_eq_iff,
  true, ℕ, ◌++◌, ◌==◌, ◌↔◌, ◌∙◌, ◌∷◌, ◌≡◌, ◌≤◌,
}
use tvpn.Net.{atoi, atoi_from, is_digit}
use tvpn.Password.{
  Argon, argon_iterations, argon_key_length, argon_memory, argon_parallelism, cut, decode_part,
  hash_password, hash_prefix, parse_uint32, read_cost, read_costs, set_cost, verify_costs,
  verify_key, verify_parts, verify_password,
}
use tvpn.Text.{Text, split, split_from, text}

-- What the code relies on: Base64 is undone by decoding and has no dollar sign, and a key has the
-- length that was asked for.
pub record IsArgon (lib : Argon) : Type 0 where
  pub decode_encode : (bytes : Text) → lib.decode (lib.encode bytes) ≡ some bytes
  pub encode_plain : (bytes : Text) → All (λ c. c == b'$' ≡ false) (lib.encode bytes)
  pub key_length :
      (password salt : Text) (t m p n : ℕ) → length (lib.id_key password salt t m p n) ≡ n

split_from_plain :
    (piece s : Text) → All (λ c. c == b'$' ≡ false) s → split_from piece b'$' s ≡ (piece ++ s) ∷ []
unfolding split_from
split_from_plain piece [] h = rw (append-nil piece)
split_from_plain piece (c ∷ s) h = rw (h.0) (
    split_from_plain (piece ++ c ∷ []) s h.1
    ∙ ap (λ (t : Text). t ∷ []) (append_assoc piece (c ∷ []) s))

split_from_append :
    (piece s rest : Text)
    → All (λ c. c == b'$' ≡ false) s
    → split_from piece b'$' (s ++ b'$' ∷ rest) ≡ (piece ++ s) ∷ split_from [] b'$' rest
unfolding split_from
split_from_append piece [] rest h = rw (append-nil piece)
split_from_append piece (c ∷ s) rest h = rw (h.0) (
    split_from_append (piece ++ c ∷ []) s rest h.1
    ∙ ap (λ (t : Text). t ∷ split_from [] b'$' rest) (append_assoc piece (c ∷ []) s))

module _ (lib : Argon) (is : IsArgon lib) where
  abbrev key_of : Text → Text → Text
  key_of password salt =
      lib.id_key password salt argon_iterations argon_memory argon_parallelism argon_key_length

  split-hash :
      (salt key : Text)
      → split (hash_prefix ++ (lib.encode salt ++ b'$' ∷ lib.encode key)) b'$'
        ≡ []
          ∷ text "argon2id"
          ∷ text "v=19"
          ∷ text "m=65536,t=3,p=2"
          ∷ lib.encode salt
          ∷ lib.encode key
          ∷ []
  unfolding split split_from
  split-hash salt key =
      ap (λ (l : List Text). [] ∷ text "argon2id" ∷ text "v=19" ∷ text "m=65536,t=3,p=2" ∷ l)
        (split_from_append [] (lib.encode salt) (lib.encode key) (is.encode_plain salt)
          ∙ ap (λ (l : List Text). lib.encode salt ∷ l)
              (split_from_plain [] (lib.encode key) (is.encode_plain key)))

  costs_read :
      read_costs
        (split (text "m=65536,t=3,p=2") b',')
        (record { memory = 0; iterations = 0; parallelism = 0 })
      ≡ some (record {
        memory = argon_memory;
        iterations = argon_iterations;
        parallelism = argon_parallelism;
      })
  unfolding read_costs read_cost cut parse_uint32 set_cost atoi atoi_from is_digit split split_from
      list_beq
  costs_read = refl

  decode-encode :
      (low high : ℕ) (bytes : Text)
      → low ≤ length bytes
      → length bytes ≤ high
      → decode_part lib low high (lib.encode bytes) ≡ some bytes
  unfolding decode_part
  decode-encode low high bytes l h = ground (arith, is.decode_encode bytes)

  verify_parts-hash :
      (salt password other : Text)
      → length salt ≡ 16
      → verify_parts lib other (
          []
          ∷ text "argon2id"
          ∷ text "v=19"
          ∷ text "m=65536,t=3,p=2"
          ∷ lib.encode salt
          ∷ lib.encode (key_of password salt)
          ∷ [])
        ≡ (key_of other salt == key_of password salt)
  unfolding verify_parts verify_costs verify_key list_beq
  verify_parts-hash salt password other size =
      let long =
        is.key_length password salt argon_iterations argon_memory argon_parallelism
          argon_key_length in
      rw (
        costs_read,
        decode-encode 8 64 salt (omega (arith, size)) (omega (arith, size)),
        decode-encode 16 64 (key_of password salt) (omega (arith, long)) (omega (arith, long)),
        long,
      )

  -- A password is accepted against the hash of another exactly if both have the same Argon2 key under
  -- the salt of the hash; in particular against its own. The salt has the length that the code draws.
  pub verify_password-hash_password :
      (salt password other hashed : Text)
      → length salt ≡ 16
      → hash_password lib (some salt) password ≡ some hashed
      → (verify_password lib other hashed ≡ true) ↔ (key_of other salt ≡ key_of password salt)
  unfolding verify_password hash_password
  verify_password-hash_password salt password other hashed size h =
      let key = key_of password salt in
      let shape : hashed ≡ hash_prefix ++ (lib.encode salt ++ b'$' ∷ lib.encode key) =
        ground arith in
      let checked : verify_password lib other hashed ≡ (key_of other salt == key) =
        ap (verify_password lib other) shape
        ∙ ap (verify_parts lib other) (split-hash salt key)
        ∙ verify_parts-hash salt password other size in
      let (to, from) = text_eq_iff (key_of other salt) key in
      (λ v. to (sym checked ∙ v), λ e. checked ∙ from e)
