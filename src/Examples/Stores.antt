-- ===== src/Examples/Stores.antt =====
-- Examples for contexts, routes, tickets and the cookie jar.
use mathlib.Core.List.{Memᴰ}
use tvpn.Base.{
  List, Option, [], arith, err, false, list_beq, none, ok, refl, some, true, ℕ, ◌++◌, ◌∷◌, ◌≡◌, ◌≢◌,
}
use tvpn.Cookies.{
  Cookie, CookieRow, clean_part, clean_parts, cons_opened, cookie_path, cookie_scope, cookies,
  decrypt, default_cookie_path, domain_matches, encrypt, open_rows, path_matches, put_row,
  remove_row, rooted_dir, save_cookie, save_cookies, save_scoped,
}
use tvpn.Cookies.Seal.{OpensSealed, decrypt-encrypt}
use tvpn.Cookies.Sent.{IsDue, cookies-IsDue}
use tvpn.Cookies.Trip.{cookies-save_cookies}
use tvpn.Examples.{mark_cipher, news, plain_hash}
use tvpn.Net.{
  addr_beq, after_bracket, atoi, atoi_from, from_colon, hostname, hostname_of, is_digit, port,
  port_of, until_bracket, until_colon,
}
use tvpn.Store.{
  Context, Db, Route, RouteRow, StoreError, Ticket, as_route, authenticate_proxy, check_owner,
  close_context, consume_ticket, create_route, create_ticket, insert_ticket, route_port,
  upsert_route,
}
use tvpn.Store.Closing.{close_context-unreachable}
use tvpn.Store.Labels.{joined, parse_label, route_by_label}
use tvpn.Store.Routes.{HasUniqueRoutes, create_route-HasUniqueRoutes}
use tvpn.Store.Tickets.{
  consume_ticket-authenticates, consume_ticket-once, create_ticket-consume, create_ticket-expired,
  no_fault, opened,
}
use tvpn.Text.{
  Text, has_prefix, has_suffix, join, split, split_from, text, to_lower, trim_prefix, trim_suffix,
}

abbrev open_context : Context
open_context = record {
  id = 1;
  user_id = 9;
  current_url = text "http://a.io/";
  upstream_proxy_id = none;
  compatibility_mode = false;
  last_active_at = 0;
  is_open = true;
}

abbrev ticket : Ticket
ticket = record {
  token_hash = text "t";
  user_id = 9;
  context_id = 1;
  expires_at = 100;
  used_at = none;
}

abbrev with_ticket : Db
with_ticket = record {
  contexts = open_context ∷ [];
  routes = [];
  tickets = ticket ∷ [];
  sessions = [];
}

abbrev after_use : Db
after_use = record with_ticket {
  tickets = record ticket { used_at = some 10 } ∷ [];
  sessions = record { token_hash = text "s"; user_id = 9; expires_at = 60 } ∷ [];
}

consume_ticket-once_example :
    (e : StoreError) × (consume_ticket plain_hash no_fault after_use 20
        (some (text "r"))
        50
        (text "t")
      ≡ err e)
unfolding addr_beq consume_ticket list_beq
consume_ticket-once_example =
    consume_ticket-once plain_hash (text "t") no_fault no_fault with_ticket 10 20 50 50
      (some (text "s")) (some (text "r")) (after_use, text "s", 9, 1) refl (omega arith)

consume_ticket-authenticates_example :
    authenticate_proxy plain_hash no_fault after_use 30 (text "s") ≡ ok 9
unfolding addr_beq authenticate_proxy consume_ticket list_beq
consume_ticket-authenticates_example =
    consume_ticket-authenticates plain_hash (text "t") no_fault with_ticket 10 30 50
      (some (text "s")) (after_use, text "s", 9, 1) refl (omega arith)

abbrev without_ticket : Db
without_ticket = record with_ticket { tickets = [] }

abbrev issued : Db
issued = record with_ticket { tickets = record ticket { expires_at = 120000000010 } ∷ [] }

create_ticket-consume_example :
    consume_ticket plain_hash no_fault issued 20 (some (text "s")) 50 (text "t")
    ≡ ok (opened plain_hash (text "t") issued 10 20 50 9 (text "s"), text "s", 9, 1)
unfolding addr_beq check_owner consume_ticket create_ticket insert_ticket list_beq
create_ticket-consume_example =
    create_ticket-consume plain_hash (text "t") no_fault without_ticket issued 10 20 50 9 1
      (some (text "t")) (text "s") refl (omega arith) refl

create_ticket-expired_example :
    (e : StoreError) × (consume_ticket plain_hash no_fault issued 120000000010
        (some (text "s"))
        50
        (text "t")
      ≡ err e)
unfolding addr_beq check_owner consume_ticket create_ticket insert_ticket list_beq
create_ticket-expired_example =
    create_ticket-expired plain_hash (text "t") no_fault no_fault without_ticket issued 10
      120000000010 50 9 1 (some (text "t")) (some (text "s")) refl (omega arith)

abbrev news_row : RouteRow
news_row = record { id = 3; context_id = 1; scheme = text "http"; host = text "a.io"; port = 80 }

abbrev news_route : Route
news_route = record {
  id = 3;
  context_id = 1;
  user_id = 9;
  scheme = text "http";
  host = text "a.io";
  port = 80;
  current_url = [];
  upstream_proxy_id = none;
  compatibility_mode = false;
}

abbrev routed : Db
routed = record with_ticket { routes = news_row ∷ [] }

create_route-HasUniqueRoutes_example : HasUniqueRoutes (news_row ∷ [])
unfolding addr_beq after_bracket as_route atoi atoi_from create_route from_colon hostname
    hostname_of is_digit list_beq port port_of route_port until_bracket until_colon upsert_route
create_route-HasUniqueRoutes_example =
    create_route-HasUniqueRoutes false with_ticket 3 1 9 news (routed, news_route) tt refl

abbrev two_contexts : Db
two_contexts = record {
  contexts = open_context ∷ record open_context { id = 2 } ∷ [];
  routes = record news_row { context_id = 2 } ∷ [];
  tickets = [];
  sessions = [];
}

abbrev one_closed : Db
one_closed = record two_contexts {
  contexts = record open_context { is_open = false } ∷ record open_context { id = 2 } ∷ [];
}

abbrev by_name : Text → Option ℕ
by_name t = some 3

abbrev foreign_route : Route
foreign_route = record news_route { context_id = 2; current_url = text "http://a.io/" }

close_context-unreachable_example : foreign_route.context_id ≢ 1
unfolding addr_beq after_bracket close_context from_colon joined list_beq parse_label port port_of
    route_by_label
close_context-unreachable_example =
    close_context-unreachable plain_hash by_name no_fault no_fault two_contexts one_closed 1 9
      (text "0123456789abcdef0123456789abcdef") foreign_route (refl, (refl, tt)) refl refl

abbrev session_cookie : Cookie
session_cookie = record {
  name = text "c";
  value = text "v";
  domain = [];
  path = text "/";
  max_age_negative = false;
  expires = none;
  secure = false;
  http_only = true;
}

mark_cipher-OpensSealed : OpensSealed mark_cipher
mark_cipher-OpensSealed nonce value aad h = refl

abbrev no_suffix : Text → Text
no_suffix domain = []

abbrev no_text : ℕ → Text
no_text id = []

decrypt-encrypt_example :
    decrypt mark_cipher (text "n" ++ (0 ∷ text "v")) (text "aad") ≡ some (text "v")
unfolding addr_beq decrypt encrypt list_beq
decrypt-encrypt_example =
    decrypt-encrypt mark_cipher (text "n") (text "v") (text "aad") (text "n" ++ (0 ∷ text "v"))
      mark_cipher-OpensSealed (omega arith) refl

cookies-save_cookies_example :
    cookies mark_cipher no_suffix no_text false 20 1 news false
      (save_cookies mark_cipher no_suffix no_text
        (λ n. false)
        (λ n. some (text "n"))
        10
        1
        news
        (session_cookie ∷ [])
        []).0
    ≡ some ((text "c", text "v") ∷ [])
unfolding addr_beq clean_part clean_parts cons_opened cookie_path cookie_scope cookies decrypt
    default_cookie_path domain_matches encrypt has_prefix has_suffix hostname hostname_of join
    list_beq open_rows path_matches put_row remove_row rooted_dir save_cookie save_cookies
    save_scoped split split_from to_lower trim_prefix trim_suffix until_bracket until_colon
cookies-save_cookies_example =
    cookies-save_cookies mark_cipher no_suffix no_text (text "n") 10 20 1 news session_cookie
      mark_cipher-OpensSealed (omega arith) refl refl (λ h. cc) (λ e h. cc) refl

abbrev jar : List CookieRow
jar =
    record {
      context_id = 1;
      name = text "c";
      domain = text "a.io";
      path = text "/";
      sealed = text "n" ++ (0 ∷ text "v");
      host_only = true;
      secure = false;
      http_only = true;
      expires_at = none;
    }
    ∷ []

cookies-IsDue_example : (r : CookieRow) × Memᴰ r jar × (text "c" ≡ r.name) × IsDue 20 1 news false r
unfolding addr_beq clean_part clean_parts cons_opened cookie_path cookies decrypt
    default_cookie_path domain_matches has_prefix has_suffix hostname hostname_of join list_beq
    open_rows path_matches rooted_dir split split_from to_lower trim_suffix until_bracket
    until_colon
cookies-IsDue_example =
    cookies-IsDue mark_cipher no_suffix no_text false 20 1 news false jar
      ((text "c", text "v") ∷ []) refl (text "c", text "v") (Memᴰ.head refl)
