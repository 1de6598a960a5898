-- ===== src/Examples/Trips.antt =====
-- Examples for the requests that leave the server, and for contexts.
use tvpn.Access.{Request}
use tvpn.Admin.{audit}
use tvpn.Authorize.{authorize, decide, effective_policies, resolved}
use tvpn.Base.{
  All, Bool, Result, [], all, err, false, if◌then◌else◌, length, list_beq, list_eq, nat_eq, none,
  ok, refl, some, true, ℕ, ◌++◌, ◌+◌, ◌==◌, ◌∷◌, ◌≡◌, ◌≤◌, ◌⊎◌,
}
use tvpn.Config.{env}
use tvpn.Cookies.{
  clean_part, clean_parts, cons_opened, cookie_path, cookie_scope, cookies, decrypt,
  default_cookie_path, domain_matches, encrypt, open_rows, path_matches, put_row, remove_row,
  rooted_dir, save_cookie, save_cookies, save_scoped,
}
use tvpn.Examples.{guard, lookup_one, mark_cipher, news_only, news_target, parsers, plain_hash}
use tvpn.Gateway.{map_found, map_parsed, map_proxy_url}
use tvpn.Gateway.Contexts.{Moment, ProxyDb, ProxyEnv, note, query_suffix, route_url, safe_url}
use tvpn.Gateway.Forward.{
  forward_dial, forward_header, forward_location, forward_request, forward_target, map_field,
}
use tvpn.Gateway.Opened.{IsAuthorizedUrl}
use tvpn.Gateway.Outgoing.{
  IsMapped, forward_header-IsMapped, forward_request-IsAuthorizedUrl, is_public_field,
}
use tvpn.Gateway.PageUrls.{rewrite_url-other_host}
use tvpn.Gateway.Pages.{
  carry_out, concat, finish_html, forward, page_config, rewrite_body, rewrite_html, send_page,
  take_answer, visited,
}
use tvpn.Gateway.Rewriting.{
  HtmlLib, Rewriting, at_url_mark, insert_scripts, is_inert, is_url_attribute, last_value, no_node,
  rewrite_attributes, rewrite_candidates, rewrite_element, rewrite_parts, rewrite_refresh,
  rewrite_resolved, rewrite_url, rewrite_value, route_for, set_last, walk,
}
use tvpn.Gateway.Shown.{forward-IsAllowed}
use tvpn.Guard.{
  ascii_host, check_addresses, explicit_port, find_addresses, hard_denied, host_with_port,
  looked_up, normalize_target_url, parse_target, resolve, strip_port, target_port,
}
use tvpn.Headers.{
  Header, add_vary, canonical_from, canonical_header_key, connection_names, copy_fields,
  copy_response_headers, delete_all, first_value, header_add, header_del, header_get, header_set,
  header_values, is_hop_header, is_withheld, lists_field, set_default, share_response,
  strip_hop_headers, translate_cors,
}
use tvpn.Headers.Copied.{IsAllowed}
use tvpn.Ldap.{check_ca, dial, secure_connection}
use tvpn.Mux.{MuxRequest}
use tvpn.Mux.Answers.{
  IsCutOff, IsEnded, client_url, execute_mux, execute_mux-IsAuthorizedTrip, execute_mux-IsEnded,
}
use tvpn.Mux.Execute.{MuxEnv, Turn}
use tvpn.Mux.Redirects.{IsAuthorizedTrip}
use tvpn.Net.{
  Url, addr_beq, after_bracket, atoi, atoi_from, contains_addr, digits_from, from_colon, hostname,
  hostname_of, is_digit, is_global_unicast, itoa, join_host_port, port, port_of, prefix_contains,
  unmap, until_bracket, until_colon,
}
use tvpn.Policy.{
  evaluate, evaluate_from, exact_host, is_non_public, judge, match, matches_any, matches_cidr,
  matches_kind, matches_url_prefix, verdict,
}
use tvpn.Policy.Effective.{RuleRow, Tables, effective, insert_by, order_by_name}
use tvpn.Store.{
  Context, Route, StoreError, as_route, check_owner, create_route, no_rows, resolve_route,
  route_port, update_current_url, upsert_route,
}
use tvpn.Store.Labels.{joined, parse_label, route_by_label, route_label}
use tvpn.Text.{
  Text, contains, equal_fold, fields, has_prefix, has_suffix, join, push_left, split, split_from,
  text, to_lower, trim_left, trim_prefix, trim_right, trim_space, trim_suffix, words_from,
}
use tvpn.Upstream.{UpstreamDb}
use tvpn.Upstream.Access.{
  authorized, dial_proxy, direct, direct_allowed, first_address, found_proxy, password_of,
  pinned_address, proxy_url, socks_dialer, transport,
}
use tvpn.Upstream.Wire.{Response, Sent}

abbrev news_row : RuleRow
news_row = record { policy = 7; rule = record { id = 1; kind = exact_host; value = text "a.io" } }

-- The policy holds for user 9.
abbrev news_tables : Tables
news_tables = record {
  policies = record news_only { rules = [] } ∷ [];
  policy_rules = news_row ∷ [];
  user_policies = (9, 7) ∷ [];
  user_ldap_groups = [];
  ldap_group_policies = [];
}

abbrev no_faults : ℕ → Bool
no_faults n = false

abbrev open_outputs : UpstreamDb
open_outputs = record {
  proxies = [];
  user_proxies = [];
  group_proxies = [];
  memberships = [];
  restricted = false;
  direct_users = [];
  direct_groups = [];
  context_proxies = [];
}

abbrev plain_answer : Response
plain_answer = record {
  status = 200;
  status_text = text "OK";
  header = [];
  cookies = [];
  chunks = text "hi" ∷ [];
  interrupted = false;
}

-- The first answer is a redirect, the next ones are plain.
abbrev moved_answer : Response
moved_answer = record plain_answer { status = 302; header = (text "Location", text "/b") ∷ [] }

abbrev turn_of : Response → Turn
turn_of response = record {
  lookup = lookup_one;
  policies = some news_tables;
  outputs = open_outputs;
  fails = no_faults;
  read_fails = false;
  save_fails = no_faults;
  nonces = λ n. none;
  now = 50;
  no_socks = false;
  reply = λ s. some response;
  unwritable = λ n. false;
}

abbrev two_turns : ℕ → Turn
two_turns n = if n == 10 then turn_of moved_answer else turn_of plain_answer

abbrev no_label : Text → Result StoreError Route
no_label label = err no_rows

abbrev mux_env : MuxEnv
mux_env = record {
  guard = guard;
  parsers = parsers;
  aead = mark_cipher;
  public_suffix = λ t. [];
  show_id = λ id. [];
  collate = λ a b. true;
  show_addr = λ a. text "8.8.8.8";
  is_request = λ method url. true;
  encode = λ status reason fields url stored. text "{}";
  proxy_base_domain = text "p.io";
  by_label = no_label;
}

abbrev trip_route : Route
trip_route = record {
  id = 3;
  context_id = 1;
  user_id = 9;
  scheme = text "http";
  host = text "a.io";
  port = 80;
  current_url = [];
  upstream_proxy_id = none;
  compatibility_mode = false;
}

abbrev post_meta : MuxRequest
post_meta = record { method = text "POST"; url = text "http://a.io/"; headers = [] }

execute_mux-IsAuthorizedTrip_example :
    (length
        (execute_mux mux_env trip_route post_meta
          (turn_of plain_answer)
          two_turns
          (turn_of plain_answer)
          []
          (text "body")).sent
      ≤ 11)
    × IsAuthorizedTrip mux_env trip_route post_meta two_turns
        (turn_of plain_answer)
        (client_url mux_env trip_route post_meta)
        11
        (execute_mux mux_env trip_route post_meta
          (turn_of plain_answer)
          two_turns
          (turn_of plain_answer)
          []
          (text "body")).sent
execute_mux-IsAuthorizedTrip_example =
    execute_mux-IsAuthorizedTrip mux_env trip_route post_meta (turn_of plain_answer) two_turns
      (turn_of plain_answer) [] (text "body")

execute_mux-IsEnded_example :
    IsEnded mux_env trip_route post_meta
      (execute_mux mux_env trip_route post_meta
        (turn_of plain_answer)
        two_turns
        (turn_of plain_answer)
        []
        (text "body")).frames
    ⊎ IsCutOff mux_env trip_route post_meta
        (turn_of plain_answer)
        (execute_mux mux_env trip_route post_meta
          (turn_of plain_answer)
          two_turns
          (turn_of plain_answer)
          []
          (text "body")).frames
execute_mux-IsEnded_example =
    execute_mux-IsEnded mux_env trip_route post_meta (turn_of plain_answer) two_turns
      (turn_of plain_answer) [] (text "body")

abbrev proxy_env : ProxyEnv
proxy_env = record {
  guard = guard;
  parsers = parsers;
  aead = mark_cipher;
  public_suffix = λ t. [];
  show_id = λ id. text "1-2";
  show_addr = λ a. text "8.8.8.8";
  parse_uuid = λ t. none;
  query_escape = λ t. t;
  parse_set_cookie = λ t. none;
  hash = plain_hash;
  collate = λ a b. true;
  app_scheme = text "https";
  proxy_base_domain = text "p.io";
  session_ttl = 1000;
}

abbrev moment : Moment
moment = record {
  now = 50;
  lookup = lookup_one;
  policies = some news_tables;
  fails = λ k n. false;
  ids = λ n. n + 5;
  token = some (text "tok");
  nonces = λ n. none;
  no_socks = false;
}

abbrev news_context : Context
news_context = record {
  id = 1;
  user_id = 9;
  current_url = text "a.io";
  upstream_proxy_id = none;
  compatibility_mode = false;
  last_active_at = 40;
  is_open = true;
}

abbrev opened : ProxyDb
opened = record {
  store = record { contexts = news_context ∷ []; routes = []; tickets = []; sessions = [] };
  outputs = open_outputs;
  jar = [];
  events = [];
}

abbrev page_request : Request
page_request = record {
  method = text "GET";
  host = text "x.p.io";
  path = text "/";
  escaped_path = text "/";
  raw_query = [];
  header = (text "Accept", text "a") ∷ (text "Origin", text "http://evil/") ∷ [];
  cookies = [];
}

abbrev page_sent : Sent
page_sent = record {
  method = text "GET";
  target = news_target;
  header = (text "Accept", text "a") ∷ [];
  cookies = [];
  body = [];
  dial = direct (text "8.8.8.8:80");
}

forward_request-IsAuthorizedUrl_example :
    IsAuthorizedUrl proxy_env moment opened 9
      (forward_target proxy_env moment opened trip_route page_request)
      news_target
    × (forward_dial proxy_env moment opened trip_route news_target ≡ ok page_sent.dial)
    × (page_sent.header ≡ forward_header proxy_env moment opened trip_route page_request.header)
    × (page_sent.method ≡ page_request.method)
unfolding addr_beq after_bracket ascii_host atoi atoi_from authorize authorized canonical_from
    canonical_header_key check_addresses check_ca clean_part clean_parts connection_names
    cons_opened contains contains_addr cookie_path cookies decide decrypt default_cookie_path
    delete_all dial dial_proxy digits_from direct_allowed domain_matches effective
    effective_policies env equal_fold evaluate evaluate_from explicit_port find_addresses
    first_address first_value forward_header forward_request forward_target found_proxy from_colon
    hard_denied has_prefix has_suffix header_del header_get header_set header_values host_with_port
    hostname hostname_of insert_by is_digit is_global_unicast is_non_public itoa join join_host_port
    joined judge list_beq looked_up map_field map_found map_parsed map_proxy_url match matches_any
    matches_cidr matches_kind matches_url_prefix normalize_target_url note open_rows order_by_name
    parse_label parse_target password_of path_matches pinned_address port port_of prefix_contains
    proxy_url push_left query_suffix resolve resolved rooted_dir route_by_label safe_url
    secure_connection socks_dialer split split_from strip_hop_headers strip_port target_port
    to_lower transport trim_left trim_right trim_space trim_suffix unmap until_bracket until_colon
    verdict
forward_request-IsAuthorizedUrl_example =
    forward_request-IsAuthorizedUrl proxy_env moment opened trip_route page_request [] page_sent
      refl

forward_header-IsMapped_example :
    (all
        (is_public_field proxy_env moment opened page_request.header)
        (forward_header proxy_env moment opened trip_route page_request.header)
      ≡ true)
    × IsMapped proxy_env moment opened trip_route
        (text "Origin")
        (forward_header proxy_env moment opened trip_route page_request.header)
    × IsMapped proxy_env moment opened trip_route
        (text "Referer")
        (forward_header proxy_env moment opened trip_route page_request.header)
forward_header-IsMapped_example =
    forward_header-IsMapped proxy_env moment opened trip_route page_request.header

abbrev fresh_context : Context
fresh_context = record news_context { id = 5; last_active_at = 50 }

abbrev html_lib : HtmlLib
html_lib = record {
  parse_html = λ t. some no_node;
  render = λ d. none;
  css_parts = λ t. [];
  path_escape = λ t. t;
  encode_config = λ url context stored compatible. [];
}

abbrev page_kept : Rewriting
page_kept = record { db = opened; asked = 0 }

-- http://a.io//b.io/
abbrev two_slashes : Url
two_slashes = record news_target.url { escaped_path = text "//b.io/" }

abbrev doubling : ProxyEnv
doubling = record proxy_env {
  parsers = record parsers { resolve_reference = λ u t. some two_slashes };
}

rewrite_url-other_host_example :
    (behind : Text) × ((rewrite_url doubling html_lib moment trip_route news_target.url page_kept
        (text "http://a.io//b.io/")).1
      ≡ text "//" ++ (text "b.io/" ++ behind))
unfolding addr_beq after_bracket as_route atoi atoi_from check_owner create_route equal_fold
    from_colon has_prefix hostname hostname_of is_digit is_inert list_beq port port_of push_left
    query_suffix resolve_route resolved rewrite_resolved rewrite_url route_for route_label
    route_port route_url to_lower trim_left trim_right trim_space until_bracket until_colon
    upsert_route
rewrite_url-other_host_example =
    rewrite_url-other_host doubling html_lib moment trip_route news_target.url page_kept
      (text "http://a.io//b.io/") two_slashes (text "b.io/") refl refl refl refl refl

abbrev shown_header : Header
shown_header = (text "Referrer-Policy", text "no-referrer") ∷ []

forward-IsAllowed_example :
    All IsAllowed shown_header
    × (header_values (text "Referrer-Policy") shown_header ≡ text "no-referrer" ∷ [])
unfolding add_vary addr_beq after_bracket as_route ascii_host at_url_mark atoi atoi_from audit
    authorize authorized canonical_from canonical_header_key carry_out check_addresses check_ca
    check_owner clean_part clean_parts concat connection_names cons_opened contains contains_addr
    cookie_path cookie_scope cookies copy_fields copy_response_headers create_route decide decrypt
    default_cookie_path delete_all dial dial_proxy digits_from direct_allowed domain_matches
    effective effective_policies encrypt env equal_fold evaluate evaluate_from explicit_port fields
    find_addresses finish_html first_address first_value forward forward_header forward_location
    forward_request forward_target found_proxy from_colon hard_denied has_prefix has_suffix
    header_add header_del header_get header_set header_values host_with_port hostname hostname_of
    insert_by insert_scripts is_digit is_global_unicast is_hop_header is_inert is_non_public
    is_url_attribute is_withheld itoa join join_host_port joined judge last_value list_beq
    lists_field looked_up map_field map_found map_parsed map_proxy_url match matches_any
    matches_cidr matches_kind matches_url_prefix normalize_target_url note open_rows order_by_name
    page_config parse_label parse_target password_of path_matches pinned_address port port_of
    prefix_contains proxy_url push_left put_row query_suffix remove_row resolve resolve_route
    resolved rewrite_attributes rewrite_body rewrite_candidates rewrite_element rewrite_html
    rewrite_parts rewrite_refresh rewrite_resolved rewrite_url rewrite_value rooted_dir
    route_by_label route_for route_label route_port route_url safe_url save_cookie save_cookies
    save_scoped secure_connection send_page set_default set_last share_response socks_dialer split
    split_from strip_hop_headers strip_port take_answer target_port to_lower translate_cors
    transport trim_left trim_prefix trim_right trim_space trim_suffix unmap until_bracket
    until_colon update_current_url upsert_route verdict visited walk words_from
forward-IsAllowed_example =
    forward-IsAllowed proxy_env html_lib moment trip_route opened (λ s. some plain_answer)
      page_request [] 200 shown_header (text "hi" ∷ []) refl
