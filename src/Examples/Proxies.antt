-- ===== src/Examples/Proxies.antt =====
-- Examples for the upstream proxies.
use mathlib.Core.List.{Memᴰ}
use tvpn.Base.{Bool, [], false, list_beq, none, refl, some, true, ℕ, ◌++◌, ◌∷◌, ◌≡◌, ◌⊎◌}
use tvpn.Cookies.{decrypt}
use tvpn.Examples.{mark_cipher, news_target, public_address}
use tvpn.Net.{
  Addr, addr_beq, after_bracket, digits_from, from_colon, itoa, join_host_port, port, port_of,
}
use tvpn.Store.{Route}
use tvpn.Text.{Text, contains, has_prefix, text}
use tvpn.Upstream.{Upstream, UpstreamDb, UpstreamInput, http_proxy, socks5_proxy}
use tvpn.Upstream.Access.{
  Dial, IsThrough, MayGoDirect, authorized, by_http, dial_proxy, dialled, direct, direct_allowed,
  first_address, found_proxy, is_proxy_assigned, password_of, pinned_address, proxy_url,
  socks_dialer, transport, transport-IsPermitted,
}

abbrev input : UpstreamInput
input = record {
  name = text "out";
  type = socks5_proxy;
  host = text "[::1]";
  port = 1080;
  username = text "u";
  password = [];
  clear_password = false;
  enabled = true;
}

abbrev proxy : Upstream
proxy = record {
  id = 6;
  name = text "old";
  type = http_proxy;
  host = text "x";
  port = 80;
  username = [];
  password_encrypted = some (text "n" ++ (0 ∷ text "v"));
  enabled = true;
}

abbrev plain_id : ℕ → Text
plain_id id = []

abbrev plain_address : Addr → Text
plain_address a = text "8.8.8.8"

abbrev any_address : Text → Bool
any_address t = true

abbrev never : ℕ → Bool
never n = false

abbrev outputs : UpstreamDb
outputs = record {
  proxies = proxy ∷ [];
  user_proxies = (9, 6) ∷ [];
  group_proxies = [];
  memberships = [];
  restricted = true;
  direct_users = [];
  direct_groups = [];
  context_proxies = some 6 ∷ none ∷ [];
}

abbrev normal_input : UpstreamInput
normal_input = record input { host = text "::1" }

abbrev changed : UpstreamDb
changed = record outputs {
  proxies =
      record proxy {
        name = text "out";
        type = socks5_proxy;
        host = text "::1";
        port = 1080;
        username = text "u";
      }
      ∷ [];
}

abbrev deleted : UpstreamDb
deleted = record outputs { proxies = []; user_proxies = []; context_proxies = none ∷ [] }

abbrev through : Route
through = record {
  id = 3;
  context_id = 1;
  user_id = 9;
  scheme = text "http";
  host = text "a.io";
  port = 80;
  current_url = [];
  upstream_proxy_id = some 6;
  compatibility_mode = false;
}

abbrev dial : Dial
dial =
    by_http (record { type = http_proxy; host = text "x:80"; userinfo = none }) (text "8.8.8.8:80")

transport-IsPermitted_example :
    (dialled mark_cipher plain_id plain_address never dial
      ≡ join_host_port (plain_address public_address) (itoa 80))
    × ((through.upstream_proxy_id ≡ none
          × MayGoDirect mark_cipher plain_id plain_address never outputs 9
          × ((t : Text) × (dial ≡ direct t)))
        ⊎ ((u : Upstream) × (through.upstream_proxy_id ≡ some u.id)
            × Memᴰ u outputs.proxies
            × (u.enabled ≡ true)
            × (is_proxy_assigned outputs 9 u.id ≡ true)
            × IsThrough mark_cipher plain_id plain_address never u dial))
unfolding addr_beq after_bracket authorized contains decrypt dial_proxy digits_from direct_allowed
    first_address found_proxy from_colon has_prefix itoa join_host_port list_beq password_of
    pinned_address port port_of proxy_url socks_dialer transport
transport-IsPermitted_example =
    transport-IsPermitted mark_cipher plain_id plain_address never outputs news_target through false
      dial public_address [] refl refl
