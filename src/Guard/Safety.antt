-- ===== src/Guard/Safety.antt =====
-- What the guard promises of a target that it lets through.
use tvpn.Base.{
  >>=-eq-ok, All, Bool, Bool-cases, List, Option, [], arith, fail_if, fail_if-false, false, inl,
  inr, list_eq, nat_eq, none, ok, ok-injective, refl, some, sym, true, ℕ, ◌==◌, ◌||◌, ◌∷◌, ◌≡◌, ◌≢◌,
  ◌≤◌,
}
use tvpn.Guard.{
  Guard, Resolver, Target, ascii_host, check_addresses, control_plane, credentials_or_empty_host,
  find_addresses, hard_denied, host_with_port, is_control_plane, is_http, normalize_target_url,
  parse_target, resolve, target_port,
}
use tvpn.Net.{Addr, Parsers, Url, addr_eq, hostname, unmap}
use tvpn.Net.Ranges.{unmap_idem}
use tvpn.Text.{Text, text, to_lower, trim_suffix}

pub record IsSafe (g : Guard) (t : Target) : Type 0 where
  pub host : Text
  pub host_field : t.url.host ≡ host_with_port host t.port t.url.scheme
  pub http : is_http t.url.scheme ≡ true
  pub no_user : t.url.user ≡ false
  pub no_fragment : t.url.fragment ≡ []
  pub outside : is_control_plane g host ≡ false
  pub port_low : 1 ≤ t.port
  pub port_high : t.port ≤ 65535
  pub some_address : t.addresses ≢ []
  pub plain : All (λ a. (unmap a ≡ a) × (hard_denied a ≡ false)) t.addresses

check_addresses-plain :
    (l checked : List Addr)
    → check_addresses l ≡ ok checked
    → All (λ a. (unmap a ≡ a) × (hard_denied a ≡ false)) checked
unfolding check_addresses
check_addresses-plain [] checked h = let e : checked ≡ [] = ground arith in rw e tt
check_addresses-plain (a ∷ l) checked h = elim (Bool-cases (hard_denied (unmap a))) [
  | inl denied ↦ cc (rw (denied, check_addresses) at h)
  | inr free ↦
      let (rest, e, same) = >>=-eq-ok (check_addresses l) _ (rw (free, check_addresses) at h) in
      let shape : checked ≡ unmap a ∷ rest = ground arith in
      rw shape ((unmap_idem a, free), check_addresses-plain l rest e)
]

find_addresses-some :
    (literal : Option Addr) (answer : Option (List Addr)) (found : List Addr)
    → find_addresses literal answer ≡ ok found
    → found ≢ []
unfolding find_addresses
find_addresses-some (some a) answer found h e = cc
find_addresses-some none (some (a ∷ l)) found h e = cc
find_addresses-some none (some []) found h e = cc
find_addresses-some none none found h e = cc

check_addresses-some :
    (l checked : List Addr) → check_addresses l ≡ ok checked → l ≢ [] → checked ≢ []
unfolding check_addresses
check_addresses-some [] checked h ne e = ne refl
check_addresses-some (a ∷ l) checked h ne e = ground arith

target_port-range :
    (parsed : Url) (number : ℕ) → target_port parsed ≡ ok number → (1 ≤ number) × (number ≤ 65535)
unfolding target_port
target_port-range parsed number h = ground arith

parse_target-http :
    (o : Option Url) (parsed : Url) → parse_target o ≡ ok parsed → is_http parsed.scheme ≡ true
unfolding parse_target
parse_target-http none parsed h = cc
parse_target-http (some u) parsed h = elim (Bool-cases (is_http u.scheme)) [
  | inl http ↦ let e : parsed ≡ u = ground arith in rw e http
  | inr other ↦ cc (rw other at h)
]

fail_if-user :
    (a b : Bool) {u : Unit {0}} → fail_if (a || b) credentials_or_empty_host ≡ ok u → a ≡ false
fail_if-user a b h = ground arith

-- A target that the guard lets through is an absolute HTTP or HTTPS URL with no credentials and no
-- fragment, outside the control plane, with a port in range, and has addresses: each is unmapped and
-- none is a metadata service.
pub resolve-IsSafe :
    (g : Guard) (lib : Parsers) (lookup : Resolver) (raw : Text) (t : Target)
    → resolve g lib lookup raw ≡ ok t
    → IsSafe g t
unfolding resolve
resolve-IsSafe g lib lookup raw t h =
    let (parsed, parsed_ok, h1) =
      >>=-eq-ok (parse_target (lib.parse_url (normalize_target_url raw))) _ h in
    let (_, user_ok, h2) =
      >>=-eq-ok (fail_if (parsed.user || hostname parsed == []) credentials_or_empty_host) _ h1 in
    let (host, host_ok, h3) =
      >>=-eq-ok (ascii_host (lib.to_ascii (trim_suffix (to_lower (hostname parsed)) (text ".")))) _
        h2 in
    let (_, plane_ok, h4) = >>=-eq-ok (fail_if (is_control_plane g host) control_plane) _ h3 in
    let (number, port_ok, h5) = >>=-eq-ok (target_port parsed) _ h4 in
    let (found, found_ok, h6) =
      >>=-eq-ok (find_addresses (lib.parse_addr host) (lookup host)) _ h5 in
    let (addresses, addresses_ok, h7) = >>=-eq-ok (check_addresses found) _ h6 in
    let scheme_ok = parse_target-http (lib.parse_url (normalize_target_url raw)) parsed parsed_ok in
    let range = target_port-range parsed number port_ok in
    let nonempty = find_addresses-some _ _ found found_ok in
    let plain = check_addresses-plain found addresses addresses_ok in
    let made : t ≡ record {
      url = record parsed { host = host_with_port host number parsed.scheme; fragment = [] };
      addresses = addresses;
      port = number;
    } =
      sym (ok-injective h7) in
    rw made (record {
      host = host;
      host_field = refl;
      http = scheme_ok;
      no_user = fail_if-user (parsed.user) (hostname parsed == []) user_ok;
      no_fragment = refl;
      outside = fail_if-false _ _ plane_ok;
      port_low = range.0;
      port_high = range.1;
      some_address = check_addresses-some found addresses addresses_ok nonempty;
      plain = plain;
    })
