-- ===== src/Examples/Streams.antt =====
-- Examples for the streams of a connection, the headers and the hosts of the proxy.
use mathlib.Core.List.{Memᴰ}
use tvpn.Access.{Request, bearer_token, request_cookie, two_words}
use tvpn.Auth.{AuthDb, session_by_program_token}
use tvpn.Base.{
  List, Option, Result, [], arith, err, false, if◌then◌else◌, list_beq, list_eq, nat_eq, none, ok,
  refl, some, true, ◌++◌, ◌==◌, ◌||◌, ◌∷◌, ◌≡◌,
}
use tvpn.Cookies.{
  clean_part, clean_parts, cons_opened, cookie_path, cookies, decrypt, default_cookie_path,
  domain_matches, open_rows, path_matches, rooted_dir,
}
use tvpn.Examples.{guard, news, parsers, plain_hash}
use tvpn.Gateway.{
  compatibility_request_allowed, cookie_owner, dispatch, has_proxy_cookie, has_proxy_token,
  map_found, map_parsed, map_proxy_url, on_target, serve_http, serve_label, serve_route,
  token_owner,
}
use tvpn.Gateway.Entry.{IsEntitled, serve_http-IsEntitled}
use tvpn.Gateway.Mapping.{IsProxied, map_proxy_url-IsProxied}
use tvpn.Guard.{app_hostname, host_with_port, is_control_plane, new_guard, strip_port}
use tvpn.Headers.{Header, canonical_from, canonical_header_key, first_value, header_get}
use tvpn.Mux.{
  Frame, Mux, MuxRequest, append_chunk, cancel_stream, end_stream, frame_bytes, frame_end,
  frame_start, handle, open_stream, parse_frame, put_uint32, send_error, serve_mux, start_stream,
  stream_of, valid_meta,
}
use tvpn.Mux.Bodies.{messages_of, sent_body, serve_mux-delivers}
use tvpn.Mux.Frames.{parse_frame-frame_bytes}
use tvpn.Mux.Streams.{IsValid, handle-IsValid, stream_of-handle_ne}
use tvpn.Net.{
  Parsers, Url, addr_beq, after_bracket, digits_from, from_colon, hostname, hostname_of, itoa,
  join_host_port, port, port_of, until_bracket, until_colon,
}
use tvpn.Server.{
  classify_request_host, handler, handler-is_control_plane, is_answered, is_proxy_host,
  request_host,
}
use tvpn.Store.{Db, Route, StoreError, authenticate_proxy, no_rows}
use tvpn.Store.Tickets.{no_fault}
use tvpn.Text.{
  Text, contains, equal_fold, fields, has_prefix, has_suffix, join, split, split_from, text,
  to_lower, trim_suffix, words_from,
}

abbrev start_meta : MuxRequest
start_meta = record { method = text "POST"; url = text "http://a.io/"; headers = [] }

abbrev decode_one : Text → Option MuxRequest
decode_one t = some start_meta

abbrev idle : Mux
idle = record { streams = []; errors = []; executed = []; cancelled = [] }

abbrev mixed : List Frame
mixed =
    record { kind = 2; id = 1; payload = text "a" }
    ∷ record { kind = 1; id = 2; payload = text "m" }
    ∷ record { kind = 2; id = 1; payload = text "b" }
    ∷ []

serve_mux-delivers_example :
    Memᴰ
      (record { id = 1; meta = start_meta; body = sent_body 1 mixed })
      (serve_mux decode_one
        ((true, frame_bytes frame_start 1 (text "m"))
          ∷ (messages_of mixed ++ ((true, frame_bytes frame_end 1 []) ∷ [])))
        idle).executed
unfolding addr_beq append_chunk cancel_stream end_stream frame_bytes handle list_beq open_stream
    parse_frame put_uint32 send_error sent_body serve_mux start_stream valid_meta
serve_mux-delivers_example =
    serve_mux-delivers decode_one 1 (text "m") start_meta mixed [] idle (omega arith)
      (omega arith, (omega arith, (omega arith, tt))) refl refl
      ((λ h. refl), ((λ h. absurd (ground arith)), ((λ h. refl), tt))) (omega arith)

parse_frame-frame_bytes_example :
    parse_frame true (frame_bytes 2 70000 (text "a"))
    ≡ some (record { kind = 2; id = 70000; payload = text "a" })
parse_frame-frame_bytes_example = parse_frame-frame_bytes 2 70000 (text "a") (omega arith)

stream_of-handle_ne_example :
    stream_of 1 (handle decode_one (record { kind = 1; id = 2; payload = [] }) idle)
    ≡ stream_of 1 idle
stream_of-handle_ne_example =
    stream_of-handle_ne decode_one (record { kind = 1; id = 2; payload = [] }) idle 1 (ground arith)

-- The same stream is started twice.
handle-IsValid_example : IsValid (
    handle decode_one
      (record { kind = 1; id = 1; payload = [] })
      (handle decode_one (record { kind = 1; id = 1; payload = [] }) idle))
handle-IsValid_example =
    handle-IsValid decode_one (record { kind = 1; id = 1; payload = [] })
      (handle decode_one (record { kind = 1; id = 1; payload = [] }) idle)
      (handle-IsValid decode_one (record { kind = 1; id = 1; payload = [] }) idle
        (record { unique = tt; small = tt; executed_small = tt }))

abbrev fields_sent : Header
fields_sent =
    (text "Connection", text "close, X-Secret")
    ∷ (text "X-Secret", text "1")
    ∷ (text "Te", text "trailers")
    ∷ (text "Accept", text "*/*")
    ∷ []

abbrev page_route : Route
page_route = record {
  id = 3;
  context_id = 1;
  user_id = 9;
  scheme = text "http";
  host = text "a.io";
  port = 80;
  current_url = [];
  upstream_proxy_id = none;
  compatibility_mode = false;
}

abbrev label_x : Text → Result StoreError Route
label_x label = if label == text "x" then ok page_route else err no_rows

abbrev proxy_db : Db
proxy_db = record {
  contexts = [];
  routes = [];
  tickets = [];
  sessions = record { token_hash = text "s"; user_id = 9; expires_at = 60 } ∷ [];
}

abbrev no_auth : AuthDb
no_auth = record { users = []; ldap_groups = []; user_groups = []; sessions = []; tokens = [] }

abbrev visit : Request
visit = record {
  method = text "GET";
  host = text "x.p.io";
  path = text "/";
  escaped_path = text "/";
  raw_query = [];
  header = [];
  cookies = (text "tvpn_proxy_session", text "s") ∷ [];
}

serve_http-IsEntitled_example :
    (label_x (text "x") ≡ ok page_route)
    × IsEntitled parsers
        (text "p.io")
        label_x
        plain_hash
        no_fault
        no_auth
        proxy_db
        50
        visit
        page_route
unfolding addr_beq after_bracket authenticate_proxy bearer_token canonical_from canonical_header_key
    clean_part clean_parts compatibility_request_allowed cons_opened contains cookie_owner
    cookie_path cookies decrypt default_cookie_path digits_from dispatch domain_matches equal_fold
    fields first_value from_colon has_prefix has_proxy_cookie has_proxy_token has_suffix header_get
    host_with_port hostname hostname_of itoa join join_host_port list_beq map_found map_parsed
    map_proxy_url open_rows path_matches port port_of request_cookie rooted_dir serve_http
    serve_label serve_route session_by_program_token split split_from strip_port to_lower
    token_owner trim_suffix two_words until_bracket until_colon words_from
serve_http-IsEntitled_example =
    serve_http-IsEntitled parsers (text "p.io") label_x plain_hash no_fault no_auth proxy_db 50
      visit page_route refl

abbrev proxied : Parsers
proxied = record parsers { parse_url = λ t. some (record news { host = text "X.p.io" }) }

map_proxy_url-IsProxied_example :
    (parsed : Url) × (r : Route) × IsProxied proxied
      (text "p.io")
      label_x
      (text "http://X.p.io/")
      parsed
      r
    × (r.context_id ≡ page_route.context_id)
    × (r.user_id ≡ page_route.user_id)
    × (text "a.io" ≡ proxied.show_url (on_target proxied (text "p.io") label_x r parsed r.scheme))
unfolding addr_beq after_bracket contains digits_from from_colon has_prefix has_suffix
    host_with_port hostname hostname_of itoa join_host_port list_beq map_found map_parsed
    map_proxy_url port port_of strip_port to_lower trim_suffix until_bracket until_colon
map_proxy_url-IsProxied_example =
    map_proxy_url-IsProxied proxied (text "p.io") label_x page_route (text "http://X.p.io/")
      (text "a.io") refl

abbrev app_origin : Url
app_origin = record news { host = text "vpn.io" }

abbrev app_parsers : Parsers
app_parsers = record parsers { parse_url = λ t. some app_origin }

abbrev any_request : Request
any_request = record {
  method = text "GET";
  host = text "x.p.io";
  path = text "/";
  escaped_path = text "/";
  raw_query = [];
  header = [];
  cookies = [];
}

handler-is_control_plane_example :
    is_answered (handler app_parsers app_origin (text "p.io") any_request) ≡ (
      has_prefix any_request.path (text "/health/")
      || is_control_plane guard (request_host app_parsers any_request))
unfolding addr_beq app_hostname classify_request_host clean_part clean_parts cons_opened cookie_path
    cookies decrypt default_cookie_path domain_matches handler has_prefix has_suffix hostname
    hostname_of is_proxy_host join list_beq new_guard open_rows path_matches rooted_dir split
    split_from strip_port to_lower trim_suffix until_bracket until_colon
handler-is_control_plane_example =
    handler-is_control_plane app_parsers (text "https://vpn.io") (text "p.io") app_origin guard
      any_request refl refl
