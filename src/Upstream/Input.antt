-- ===== src/Upstream/Input.antt =====
-- What normalizeUpstreamInput accepts.
use tvpn.Base.{
  >>=-eq-ok, Bool, [], arith, fail_if, fail_if-false, false, inl, inr, list_eq, ltb, nat_eq, not,
  ok, ok-injective, refl, text_eq_iff, true, ◌!=◌, ◌&&◌, ◌==◌, ◌||◌, ◌↔◌, ◌≡◌, ◌≢◌, ◌≤◌, ◌⊎◌,
}
use tvpn.Text.{Text, contains, contains_any, text, trim_space}
use tvpn.Upstream.{
  UpstreamInput, UpstreamType, host_with_a_port, http_proxy, invalid_proxy_host, invalid_proxy_port,
  invalid_type, is_known_type, name_required, normal_host, normalize_upstream_input, socks5_proxy,
  unknown_type, username_needed,
}

-- The contract of an input that is stored.
pub record IsProxyInput (is_ip : Text → Bool) (i : UpstreamInput) : Type 0 where
  pub named : i.name ≢ []
  pub known : i.type ≡ http_proxy ⊎ i.type ≡ socks5_proxy
  pub hosted : (i.host ≢ []) × (contains_any i.host (text "/?#@ \\") ≡ false)
  pub bare : contains i.host (text ":") ≡ true → is_ip i.host ≡ true
  pub in_range : (1 ≤ i.port) × (i.port ≤ 65535)
  pub with_user : i.password ≢ [] → i.username ≢ []

known-type : (t : UpstreamType) → is_known_type t ≡ true → (t ≡ http_proxy) ⊎ (t ≡ socks5_proxy)
unfolding is_known_type
known-type http_proxy h = inl refl
known-type socks5_proxy h = inr refl
known-type (unknown_type t) h = cc

empty_iff : (s : Text) → (s == [] ≡ true) ↔ (s ≡ [])
empty_iff s = text_eq_iff s []

-- What normalizeUpstreamInput returns without an error has a name, a known type, a host without the
-- characters of a URL and, unless it is an address, without a colon, a port in range, and a user name
-- if it has a password.
pub normalize_upstream_input-IsProxyInput :
    (is_ip : Text → Bool) (raw i : UpstreamInput)
    → normalize_upstream_input is_ip raw ≡ ok i
    → IsProxyInput is_ip i
unfolding normalize_upstream_input
normalize_upstream_input-IsProxyInput is_ip raw i h =
    let name = trim_space raw.name in
    let host = normal_host raw.host in
    let username = trim_space raw.username in
    let (u1, c1, h1) = >>=-eq-ok (fail_if (name == []) name_required) _ h in
    let (u2, c2, h2) = >>=-eq-ok (fail_if (not (is_known_type raw.type)) invalid_type) _ h1 in
    let (u3, c3, h3) =
      >>=-eq-ok (fail_if (host == [] || contains_any host (text "/?#@ \\")) invalid_proxy_host) _
        h2 in
    let (u4, c4, h4) =
      >>=-eq-ok (fail_if (contains host (text ":") && not (is_ip host)) host_with_a_port) _ h3 in
    let (u5, c5, h5) =
      >>=-eq-ok (fail_if (ltb raw.port 1 || ltb 65535 raw.port) invalid_proxy_port) _ h4 in
    let (u6, c6, h6) =
      >>=-eq-ok (fail_if (raw.password != [] && username == []) username_needed) _ h5 in
    let f1 = fail_if-false _ name_required c1 in
    let f2 = fail_if-false _ invalid_type c2 in
    let f3 = fail_if-false _ invalid_proxy_host c3 in
    let f4 = fail_if-false _ host_with_a_port c4 in
    let f5 = fail_if-false _ invalid_proxy_port c5 in
    let f6 = fail_if-false _ username_needed c6 in
    rw (← ok-injective h6) (record {
      named = λ e. ground (arith, (empty_iff name).1 e);
      known = known-type raw.type (ground arith);
      hosted = (λ e. ground (arith, (empty_iff host).1 e), ground arith);
      bare = λ c. ground arith;
      in_range = (ground arith, ground arith);
      with_user = λ p e. ground (arith, (empty_iff username).1 e, (empty_iff raw.password).0, p);
    })
