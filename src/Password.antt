-- ===== src/Password.antt =====
-- internal/auth/password.go: how the hash of a password is written and checked. Argon2 and Base64 are
-- a library's.
pub mod Trip
use tvpn.Base.{
  Bool, List, Option, [], false, if◌then◌else◌, length, list_eq, ltb, nat_eq, none, not, some, ℕ,
  ◌&&◌, ◌++◌, ◌==◌, ◌||◌, ◌∷◌,
}
use tvpn.Net.{atoi}
use tvpn.Text.{Text, split, text}

-- argon2.IDKey, and base64.RawStdEncoding.
pub record Argon : Type 0 where
  -- IDKey password salt iterations memory parallelism length
  pub id_key : Text → Text → ℕ → ℕ → ℕ → ℕ → Text
  pub encode : Text → Text
  pub decode : Text → Option Text

abbrev pub argon_memory : ℕ
argon_memory = 65536

abbrev pub argon_iterations : ℕ
argon_iterations = 3

abbrev pub argon_parallelism : ℕ
argon_parallelism = 2

abbrev pub argon_key_length : ℕ
argon_key_length = 32

-- The text up to the salt, for the parameters above.
abbrev pub hash_prefix : Text
hash_prefix = text "$argon2id$v=19$m=65536,t=3,p=2$"

-- HashPassword; `salt` is what the random source gave. `none` is an error.
unfoldable pub hash_password : Argon → Option Text → Text → Option Text
hash_password lib none password = none
hash_password lib (some salt) password =
    let key =
      lib.id_key password salt argon_iterations argon_memory argon_parallelism argon_key_length in
    if ltb (length password) 12
    then none
    else some (hash_prefix ++ (lib.encode salt ++ b'$' ∷ lib.encode key))

pub record Costs : Type 0 where
  pub memory : ℕ
  pub iterations : ℕ
  pub parallelism : ℕ

-- strings.Cut at an equals sign.
unfoldable pub cut : Text → Text → Option (Text × Text)
cut before [] = none
cut before (c ∷ s) =
    let rest = cut (before ++ c ∷ []) s in if c == b'=' then some (before, s) else rest

-- strconv.ParseUint(value, 10, 32)
unfoldable pub parse_uint32 : Text → Option ℕ
parse_uint32 value = elim (atoi value) [
  | none ↦ none
  | some n ↦ if ltb 4294967295 n then none else some n
]

-- The switch on the key.
unfoldable pub set_cost : Text → ℕ → Costs → Option Costs
set_cost key n costs =
    if key == text "m"
    then some (record costs { memory = n })
    else if key == text "t"
    then some (record costs { iterations = n })
    else if key == text "p"
    then some (record costs { parallelism = n })
    else none

unfoldable pub read_cost : Option (Text × Text) → Costs → Option Costs
read_cost none costs = none
read_cost (some (key, value)) costs = elim (parse_uint32 value) [
  | none ↦ none
  | some n ↦ set_cost key n costs
]

-- The loop over the parameters.
unfoldable pub read_costs : List Text → Costs → Option Costs
read_costs [] costs = some costs
read_costs (item ∷ items) costs = elim (read_cost (cut [] item) costs) [
  | none ↦ none
  | some next ↦ read_costs items next
]

abbrev pub is_in_limits : Costs → Bool
is_in_limits c = not (
    c.memory == 0
    || ltb 262144 c.memory
    || c.iterations == 0
    || ltb 10 c.iterations
    || c.parallelism == 0
    || ltb 16 c.parallelism)

-- A decoded part, if its length is in a range.
unfoldable pub decode_part : Argon → ℕ → ℕ → Text → Option Text
decode_part lib low high part = elim (lib.decode part) [
  | none ↦ none
  | some bytes ↦ if ltb (length bytes) low || ltb high (length bytes) then none else some bytes
]

unfoldable pub verify_key : Argon → Text → Costs → Option Text → Option Text → Bool
verify_key lib password c (some salt) (some want) =
    lib.id_key password salt c.iterations c.memory c.parallelism (length want) == want
verify_key lib password c _ _ = false

unfoldable pub verify_costs : Argon → Text → Text → Text → Option Costs → Bool
verify_costs lib password salt key none = false
verify_costs lib password salt key (some c) =
    is_in_limits c
    && verify_key lib password c (decode_part lib 8 64 salt) (decode_part lib 16 64 key)

unfoldable pub verify_parts : Argon → Text → List Text → Bool
verify_parts lib password (first ∷ name ∷ version ∷ costs ∷ salt ∷ key ∷ []) =
    name == text "argon2id"
    && version == text "v=19"
    && verify_costs lib password salt key
        (read_costs (split costs b',') (record { memory = 0; iterations = 0; parallelism = 0 }))
verify_parts lib password _ = false

-- VerifyPassword
unfoldable pub verify_password : Argon → Text → Text → Bool
verify_password lib password encoded = verify_parts lib password (split encoded b'$')
