-- ===== src/Policy/Ranges.antt =====
-- The addresses that count as not public, as ranges of numbers.
use tvpn.Base.{
  All, Bool, Bool-ext, List, [], any, any_at, ap, arith, false, inl, inr, leb, not, refl, sym,
  text_eq_iff, true, ℕ, ◌%◌, ◌&&◌, ◌*◌, ◌+◌, ◌-◌, ◌/◌, ◌<◌, ◌^◌, ◌||◌, ◌∙◌, ◌∷◌, ◌≡◌, ◌≢◌, ◌≤◌, ◌⊎◌,
}
use tvpn.Net.{Addr, Prefix, is_global_unicast, prefix_contains, unmap, v4, v6}
use tvpn.Net.Ranges.{pow-pos, prefix_contains_v4_iff}
use tvpn.Policy.{is_non_public, non_public_prefixes}
use tvpn.Text.{Text}

-- The number of the IPv4 address a.b.c.d.
abbrev pub dotted : ℕ → ℕ → ℕ → ℕ → ℕ
dotted a b c d = ((a * 256 + b) * 256 + c) * 256 + d

pub record Range : Type 0 where
  pub first : ℕ
  pub last : ℕ

abbrev pub within : ℕ → Range → Bool
within n r = leb r.first n && leb n r.last

-- The special purpose ranges of IPv4: this network, private use, shared address space, loopback,
-- link local, documentation, benchmarking, multicast and the reserved block.
abbrev pub reserved_v4 : List Range
reserved_v4 =
    record { first = dotted 0 0 0 0; last = dotted 0 255 255 255 }
    ∷ record { first = dotted 10 0 0 0; last = dotted 10 255 255 255 }
    ∷ record { first = dotted 100 64 0 0; last = dotted 100 127 255 255 }
    ∷ record { first = dotted 127 0 0 0; last = dotted 127 255 255 255 }
    ∷ record { first = dotted 169 254 0 0; last = dotted 169 254 255 255 }
    ∷ record { first = dotted 172 16 0 0; last = dotted 172 31 255 255 }
    ∷ record { first = dotted 192 0 0 0; last = dotted 192 0 0 255 }
    ∷ record { first = dotted 192 0 2 0; last = dotted 192 0 2 255 }
    ∷ record { first = dotted 192 168 0 0; last = dotted 192 168 255 255 }
    ∷ record { first = dotted 198 18 0 0; last = dotted 198 19 255 255 }
    ∷ record { first = dotted 198 51 100 0; last = dotted 198 51 100 255 }
    ∷ record { first = dotted 203 0 113 0; last = dotted 203 0 113 255 }
    ∷ record { first = dotted 224 0 0 0; last = dotted 239 255 255 255 }
    ∷ record { first = dotted 240 0 0 0; last = dotted 255 255 255 255 }
    ∷ []

-- The range of an IPv4 prefix; no IPv4 address is in an IPv6 prefix.
block : ℕ → Addr → ℕ → Bool
block n (v4 p) bits = within n (record { first = p; last = p + 2 ^ (32 - bits) - 1 })
block n (v6 p zone) bits = false

abbrev IsAligned : Addr → ℕ → Type 0
IsAligned (v4 p) bits = p % 2 ^ (32 - bits) ≡ 0
IsAligned (v6 p zone) bits = Unit

within-intro :
    (k p n : ℕ) → (p ≤ n) × (n < p + k) → within n (record { first = p; last = p + k - 1 }) ≡ true
within-intro k p n h = ground arith

within-elim :
    (k p n : ℕ)
    → 0 < k
    → within n (record { first = p; last = p + k - 1 }) ≡ true
    → (p ≤ n) × (n < p + k)
within-elim k p n pos h = ground arith

prefix_contains-block :
    (n : ℕ) (a : Addr) (bits : ℕ)
    → IsAligned a bits
    → prefix_contains (record { addr = a; bits = bits }) (v4 n) ≡ block n a bits
unfolding block
prefix_contains-block n (v4 p) bits h =
    let (to, from) = prefix_contains_v4_iff p bits n h in
    Bool-ext _ _ (λ e. within-intro (2 ^ (32 - bits)) p n (to e))
      (λ e. from (within-elim (2 ^ (32 - bits)) p n (pow-pos (32 - bits)) e))
prefix_contains-block n (v6 p zone) bits h = unfold prefix_contains in refl

any-block :
    (n : ℕ) (l : List Prefix)
    → All (λ p. IsAligned p.addr p.bits) l
    → any (λ p. prefix_contains p (v4 n)) l ≡ any (λ p. block n p.addr p.bits) l
any-block n [] h = refl
any-block n (p ∷ l) h = cc (prefix_contains-block n p.addr p.bits h.0, any-block n l h.1)

any-reserved :
    (n : ℕ) → any (λ p. prefix_contains p (v4 n)) non_public_prefixes ≡ any (within n) reserved_v4
unfolding block
any-reserved n = any-block n non_public_prefixes (omega arith)

not_global-cases :
    (n : ℕ)
    → n < 2 ^ 32
    → is_global_unicast (v4 n) ≡ false
    → (n ≡ 0)
      ⊎ ((n ≡ 0xffffffff) ⊎ ((n / 2 ^ 24 ≡ 127) ⊎ ((n / 2 ^ 28 ≡ 14) ⊎ (n / 2 ^ 16 ≡ 0xa9fe))))
unfolding is_global_unicast
not_global-cases n small h = ground arith

-- What is no global unicast address lies in one of the ranges.
not_global-reserved :
    (n : ℕ) → n < 2 ^ 32 → is_global_unicast (v4 n) ≡ false → any (within n) reserved_v4 ≡ true
not_global-reserved n small h = elim (not_global-cases n small h) [
  | inl unspecified ↦ any_at (within n) reserved_v4 0 (ground arith)
  | inr (inl broadcast) ↦ any_at (within n) reserved_v4 13 (ground arith)
  | inr (inr (inl loopback)) ↦ any_at (within n) reserved_v4 3 (ground arith)
  | inr (inr (inr (inl multicast))) ↦ any_at (within n) reserved_v4 12 (ground arith)
  | inr (inr (inr (inr link_local))) ↦ any_at (within n) reserved_v4 4 (ground arith)
]

-- An IPv4 address is not public exactly when it lies in one of the ranges.
pub non_public-reserved : (n : ℕ) → n < 2 ^ 32 → is_non_public (v4 n) ≡ any (within n) reserved_v4
unfolding is_non_public unmap
non_public-reserved n small = ground (arith, any-reserved n, not_global-reserved n small)

-- An IPv4-mapped IPv6 address is judged as the IPv4 address in it, whatever its zone.
pub non_public-mapped :
    (n : ℕ) (zone : Text)
    → n < 2 ^ 32
    → is_non_public (v6 (0xffff * 2 ^ 32 + n) zone) ≡ any (within n) reserved_v4
unfolding is_non_public
non_public-mapped n zone small =
    let same : unmap (v6 (0xffff * 2 ^ 32 + n) zone) ≡ v4 n = unfold unmap in ground arith in
    let plain : unmap (v4 n) ≡ v4 n = unfold unmap in refl in
    ap judge_plain same ∙ (sym (ap judge_plain plain) ∙ non_public-reserved n small)
  where
    judge_plain : Addr → Bool
    judge_plain a =
        any (λ prefix. prefix_contains prefix a) non_public_prefixes || not (is_global_unicast a)

zoned-outside :
    (n : ℕ) (zone : Text)
    → zone ≢ []
    → any (λ p. prefix_contains p (v6 n zone)) non_public_prefixes ≡ false
unfolding prefix_contains
zoned-outside n zone h = ground (arith, text_eq_iff zone [])

-- A unique local address that carries a zone counts as public: no prefix holds an address with a
-- zone, and such an address is a global unicast address.
pub non_public-zoned :
    (n : ℕ) (zone : Text) → n / 2 ^ 121 ≡ 0x7e → zone ≢ [] → is_non_public (v6 n zone) ≡ false
unfolding is_non_public unmap is_global_unicast
non_public-zoned n zone local zoned = ground (arith, zoned-outside n zone zoned)
