-- ===== src/Examples.antt =====
-- Concrete data for the examples, which apply the theorems to it.
pub mod Targets
pub mod Stores
pub mod Accounts
pub mod Streams
pub mod Proxies
pub mod Admins
pub mod Trips
pub mod Settings
use tvpn.Base.{[], false, none, some, true, ◌∷◌}
use tvpn.Cookies.{Aead}
use tvpn.Guard.{Guard, Resolver, Target}
use tvpn.Net.{Addr, Parsers, Url, port, v4}
use tvpn.Policy.{Policy, exact_host, whitelist}
use tvpn.Text.{Text, text}

-- A URL of plain HTTP and its host.
abbrev pub news : Url
news = record {
  scheme = text "http";
  user = false;
  host = text "a.io";
  path = text "/";
  escaped_path = text "/";
  raw_query = [];
  fragment = [];
}

-- The parsers of a world in which every URL is the same.
abbrev pub parsers : Parsers
parsers = record {
  parse_url = λ t. some news;
  show_url = λ u. u.host;
  resolve_reference = λ u t. some u;
  parse_prefix = λ t. none;
  show_masked = λ p. [];
  parse_addr = λ t. none;
  to_ascii = λ t. some t;
  split_host = λ t. none;
}

abbrev pub public_address : Addr
public_address = v4 134744072

abbrev pub guard : Guard
guard = record { app_host = text "vpn.io"; proxy_domain = text "p.io" }

abbrev pub lookup_one : Resolver
lookup_one host = some (public_address ∷ [])

abbrev pub news_target : Target
news_target = record { url = news; addresses = public_address ∷ []; port = 80 }

abbrev pub news_only : Policy
news_only = record {
  id = 7;
  name = text "news";
  mode = whitelist;
  enabled = true;
  rules = record { id = 1; kind = exact_host; value = text "a.io" } ∷ [];
}

abbrev pub plain_hash : Text → Text
plain_hash t = t

-- A cipher that only marks a text as sealed.
abbrev pub mark_cipher : Aead
mark_cipher = record {
  nonce_size = 1;
  seal = λ nonce value aad. 0 ∷ value;
  unseal = λ nonce sealed aad. elim sealed [ [] ↦ none | x ∷ value ↦ some value ];
}
