-- ===== src/Net.antt =====
-- The values of the packages `net`, `net/netip` and `net/url` that the code passes around: addresses,
-- prefixes and parsed URLs. Parsing is not modelled here: it is a parameter of what uses it.
pub mod Ranges
use tvpn.Base.{
  Bool, Comparable, Option, [], arith, drop, false, if◌then◌else◌, leb, list_eq, nat_eq, none, not,
  some, suc, text_eq_iff, true, zero, ℕ, ◌%◌, ◌&&◌, ◌*◌, ◌++◌, ◌+◌, ◌-◌, ◌/◌, ◌==◌, ◌^◌, ◌||◌, ◌↔◌,
  ◌∷◌, ◌≡◌,
}
use tvpn.Text.{Text, contains, has_prefix, text}

-- netip.Addr. An IPv6 address may carry a zone; the empty text is no zone.
pub data Addr : Type 0 where
  v4 : ℕ → Addr
  v6 : ℕ → Text → Addr

-- Addr.Unmap: an IPv4-mapped IPv6 address is the IPv4 address, and loses its zone.
unfoldable pub unmap : Addr → Addr
unmap (v4 n) = v4 n
unmap (v6 n zone) = if n / 2 ^ 32 == 0xffff then v4 (n % 2 ^ 32) else v6 n zone

unfoldable pub addr_beq : Addr → Addr → Bool
addr_beq (v4 a) (v4 b) = a == b
addr_beq (v6 a y) (v6 b z) = a == b && y == z
addr_beq (v4 a) (v6 b z) = false
addr_beq (v6 a y) (v4 b) = false

pub addr_beq_iff : (a b : Addr) → (addr_beq a b ≡ true) ↔ (a ≡ b)
unfolding addr_beq
addr_beq_iff (v4 a) (v4 b) = ground arith
addr_beq_iff (v6 a y) (v6 b z) = ground (arith, text_eq_iff y z)
addr_beq_iff (v4 a) (v6 b z) = ground arith
addr_beq_iff (v6 a y) (v4 b) = ground arith

instance abbrev pub addr_eq : Comparable Addr
addr_eq = record { same = addr_beq; same_iff = addr_beq_iff }

-- netip.Prefix: an address with its length in bits.
pub record Prefix : Type 0 where
  pub addr : Addr
  pub bits : ℕ

-- The families agree, and the leading bits; an address with a zone is in no prefix.
unfoldable pub contains_addr : Addr → ℕ → Addr → Bool
contains_addr (v4 p) bits (v4 n) = n / 2 ^ (32 - bits) == p / 2 ^ (32 - bits)
contains_addr (v6 p _) bits (v6 n zone) = zone == [] && n / 2 ^ (128 - bits) == p / 2 ^ (128 - bits)
contains_addr (v4 p) bits (v6 n zone) = false
contains_addr (v6 p _) bits (v4 n) = false

-- Prefix.Contains
unfoldable pub prefix_contains : Prefix → Addr → Bool
unfolding contains_addr
prefix_contains prefix ip = contains_addr prefix.addr prefix.bits ip

-- Addr.IsGlobalUnicast of an unmapped address: not unspecified, not the limited broadcast address,
-- not loopback, not multicast, not link local.
unfoldable pub is_global_unicast : Addr → Bool
is_global_unicast (v4 n) =
    not (n == 0 || n == 0xffffffff || n / 2 ^ 24 == 127 || n / 2 ^ 28 == 14 || n / 2 ^ 16 == 0xa9fe)
is_global_unicast (v6 n zone) =
    not (n == 0 && zone == [] || n == 1 || n / 2 ^ 120 == 0xff || n / 2 ^ 118 == 0x3fa)

-- url.URL, with the user information and the text that no field holds left out.
pub record Url : Type 0 where
  pub scheme : Text
  -- `User != nil`
  pub user : Bool
  pub host : Text
  pub path : Text
  pub escaped_path : Text
  pub raw_query : Text
  pub fragment : Text

-- `[` opens an IPv6 literal: what stands before the first `]`.
unfoldable pub until_bracket : Text → Text
until_bracket [] = []
until_bracket (c ∷ s) = let rest = until_bracket s in if c == b']' then [] else c ∷ rest

unfoldable pub after_bracket : Text → Text
after_bracket [] = []
after_bracket (c ∷ s) = let rest = after_bracket s in if c == b']' then s else rest

unfoldable pub until_colon : Text → Text
until_colon [] = []
until_colon (c ∷ s) = let rest = until_colon s in if c == b':' then [] else c ∷ rest

unfoldable pub from_colon : Text → Text
from_colon [] = []
from_colon (c ∷ s) = let rest = from_colon s in if c == b':' then c ∷ s else rest

-- URL.Hostname and URL.Port: the host field without its brackets, and what follows the colon. The
-- parser has checked that the port is a colon and digits.
unfoldable pub hostname_of : Text → Text
hostname_of [] = []
hostname_of (c ∷ s) =
    let inside = until_bracket s in
    let plain = until_colon (c ∷ s) in if c == b'[' then inside else plain

unfoldable pub port_of : Text → Text
port_of [] = []
port_of (c ∷ s) =
    let inside = drop 1 (after_bracket s) in
    let plain = drop 1 (from_colon (c ∷ s)) in if c == b'[' then inside else plain

unfoldable pub hostname : Url → Text
unfolding hostname_of until_bracket until_colon
hostname u = hostname_of u.host

unfoldable pub port : Url → Text
unfolding port_of after_bracket from_colon
port u = port_of u.host

-- The decimal digits of a number, by fuel; a number below 10 ^ fuel has all of them.
unfoldable pub digits_from : ℕ → ℕ → Text → Text
digits_from zero n acc = acc
digits_from (suc fuel) n acc =
    let more = digits_from fuel (n / 10) ((48 + n % 10) ∷ acc) in
    if n / 10 == 0 then (48 + n % 10) ∷ acc else more

-- strconv.Itoa; the ports of the code have at most five digits.
unfoldable pub itoa : ℕ → Text
unfolding digits_from
itoa n = digits_from (suc n) n []

unfoldable pub is_digit : ℕ → Bool
is_digit c = leb 48 c && leb c 57

unfoldable pub atoi_from : ℕ → Text → Option ℕ
atoi_from acc [] = some acc
atoi_from acc (c ∷ s) =
    let rest = atoi_from (acc * 10 + (c - 48)) s in if is_digit c then rest else none

-- strconv.Atoi of a port, which is digits without a sign. Any value above 65535 is treated alike.
unfoldable pub atoi : Text → Option ℕ
unfolding atoi_from is_digit
atoi [] = none
atoi (c ∷ s) = atoi_from 0 (c ∷ s)

-- net.JoinHostPort
unfoldable pub join_host_port : Text → Text → Text
unfolding contains has_prefix
join_host_port host port =
    if contains host (text ":") then b'[' ∷ (host ++ (text "]:" ++ port)) else host ++ b':' ∷ port

-- What the code takes from `net`, `net/url`, `net/netip` and `golang.org/x/net/idna` to read and to
-- print the values above. A failed call is `none`.
pub record Parsers : Type 0 where
  pub parse_url : Text → Option Url
  pub show_url : Url → Text
  -- The base, and the reference that it resolves.
  pub resolve_reference : Url → Text → Option Url
  pub parse_prefix : Text → Option Prefix
  -- `prefix.Masked().String()`
  pub show_masked : Prefix → Text
  pub parse_addr : Text → Option Addr
  pub to_ascii : Text → Option Text
  -- net.SplitHostPort, the host alone
  pub split_host : Text → Option Text
