-- ===== src/Examples/Targets.antt =====
-- Examples for the policies, the guard and what a user may reach.
use mathlib.Core.List.{Memᴰ}
use tvpn.Authorize.{authorize, authorize_web_socket, decide, parse_web_socket, resolved}
use tvpn.Authorize.Sound.{IsGranted, as_socket, authorize-IsGranted, authorize_web_socket-IsGranted}
use tvpn.Base.{
  All, Bool, [], any, arith, false, if◌then◌else◌, inl, list_beq, list_eq, nat_eq, refl, some, true,
  ◌*◌, ◌+◌, ◌==◌, ◌^◌, ◌||◌, ◌↔◌, ◌∷◌, ◌≡◌, ◌≢◌, ◌⊎◌,
}
use tvpn.Examples.{guard, lookup_one, news, news_only, news_target, parsers, public_address}
use tvpn.Guard.{
  Target, ascii_host, check_addresses, explicit_port, find_addresses, hard_denied, host_with_port,
  looked_up, normalize_target_url, parse_target, resolve, target_port,
}
use tvpn.Guard.Safety.{IsSafe, resolve-IsSafe}
use tvpn.Net.{
  Parsers, Url, addr_beq, after_bracket, atoi, atoi_from, contains_addr, digits_from, from_colon,
  hostname, hostname_of, is_digit, is_global_unicast, itoa, join_host_port, port, port_of,
  prefix_contains, unmap, until_bracket, until_colon, v6,
}
use tvpn.Policy.{
  Policy, allowed_scheme, evaluate, evaluate_from, exact_host, is_non_public, judge, match,
  matches_any, matches_cidr, matches_kind, matches_url_prefix, verdict,
}
use tvpn.Policy.Decide.{Permits, evaluate-policy_id, evaluate_iff}
use tvpn.Policy.Effective.{
  AllAssigned, RuleRow, Tables, effective, evaluate-effective_iff, is_assigned,
}
use tvpn.Policy.Ranges.{non_public-mapped, non_public-zoned, reserved_v4, within}
use tvpn.Policy.Rules.{
  validate_cidr, validate_host, validate_kind, validate_rule, validate_rule-canonical,
  validate_url_prefix,
}
use tvpn.Text.{
  Text, contains, contains_any, equal_fold, has_prefix, has_suffix, push_left, text, to_lower,
  trim_left, trim_right, trim_space, trim_suffix,
}

evaluate_iff_example :
    ((evaluate parsers (news_only ∷ []) news (public_address ∷ [])).allowed ≡ true)
    ↔ (((news_only ∷ []) ≢ []) × All (Permits parsers news (public_address ∷ [])) (news_only ∷ []))
evaluate_iff_example = evaluate_iff parsers news (public_address ∷ []) (news_only ∷ [])

resolve-IsSafe_example : IsSafe guard news_target
unfolding addr_beq after_bracket ascii_host atoi atoi_from check_addresses contains digits_from
    explicit_port find_addresses from_colon hard_denied has_prefix has_suffix host_with_port
    hostname hostname_of is_digit itoa join_host_port list_beq looked_up normalize_target_url
    parse_target port port_of push_left resolve target_port to_lower trim_left trim_right trim_space
    trim_suffix unmap until_bracket until_colon
resolve-IsSafe_example = resolve-IsSafe guard parsers lookup_one (text "a.io") news_target refl

authorize-IsGranted_example :
    IsSafe guard news_target × IsGranted parsers (some (news_only ∷ [])) news_target
unfolding addr_beq after_bracket ascii_host atoi atoi_from authorize check_addresses contains
    contains_addr decide digits_from equal_fold evaluate evaluate_from explicit_port find_addresses
    from_colon hard_denied has_prefix has_suffix host_with_port hostname hostname_of is_digit
    is_global_unicast is_non_public itoa join_host_port judge list_beq looked_up match matches_any
    matches_cidr matches_kind matches_url_prefix normalize_target_url parse_target port port_of
    prefix_contains push_left resolve resolved target_port to_lower trim_left trim_right trim_space
    trim_suffix unmap until_bracket until_colon verdict
authorize-IsGranted_example =
    authorize-IsGranted guard parsers lookup_one (some (news_only ∷ [])) (text "a.io") news_target
      (record { allowed = true; reason = text "allowed"; policy_id = 0 }) refl refl

abbrev news_row : RuleRow
news_row = record { policy = 7; rule = record { id = 1; kind = exact_host; value = text "a.io" } }

abbrev tables : Tables
tables = record {
  policies = record news_only { rules = [] } ∷ [];
  policy_rules = news_row ∷ [];
  user_policies = (9, 7) ∷ [];
  user_ldap_groups = [];
  ldap_group_policies = [];
}

abbrev always_before : Text → Text → Bool
always_before a b = true

evaluate-effective_iff_example :
    ((evaluate parsers (effective always_before tables 9) news (public_address ∷ [])).allowed
      ≡ true)
    ↔ (((p : Policy) × Memᴰ p tables.policies × (is_assigned tables 9 p ≡ true))
        × AllAssigned always_before parsers tables 9 news (public_address ∷ []))
evaluate-effective_iff_example =
    evaluate-effective_iff always_before parsers tables 9 news (public_address ∷ [])

evaluate-policy_id_example :
    ((news_only ∷ []) ≡ [])
    ⊎ ((item : Policy) × Memᴰ item (news_only ∷ [])
        × (¬ (Permits parsers (record news { host = text "b.io" }) [] item))
        × ((evaluate parsers (news_only ∷ []) (record news { host = text "b.io" }) []).policy_id
            ≡ item.id))
unfolding addr_beq contains_addr equal_fold evaluate evaluate_from has_prefix has_suffix hostname
    hostname_of is_global_unicast is_non_public judge list_beq match matches_any matches_cidr
    matches_kind matches_url_prefix prefix_contains to_lower trim_suffix unmap until_bracket
    until_colon verdict
evaluate-policy_id_example =
    evaluate-policy_id parsers (record news { host = text "b.io" }) [] (news_only ∷ []) refl

non_public-mapped_example :
    is_non_public (v6 (0xffff * 2 ^ 32 + 167772161) (text "eth0"))
    ≡ any (within 167772161) reserved_v4
non_public-mapped_example = non_public-mapped 167772161 (text "eth0") (omega arith)

non_public-zoned_example : is_non_public (v6 (0x7e * 2 ^ 121) (text "eth0")) ≡ false
non_public-zoned_example = non_public-zoned (0x7e * 2 ^ 121) (text "eth0") (omega arith) (λ e. cc)

validate_rule-canonical_example :
    (to_lower (text "a.io") ≡ text "a.io") × (contains_any (text "a.io") (text "/:@") ≡ false)
unfolding addr_beq allowed_scheme contains_any list_beq push_left to_lower trim_left trim_right
    trim_space trim_suffix validate_cidr validate_host validate_kind validate_rule
    validate_url_prefix
validate_rule-canonical_example =
    validate_rule-canonical parsers exact_host (text "A.io.") (text "a.io") (inl refl) refl

abbrev socket_news : Url
socket_news = record news { scheme = text "wss" }

-- A world in which a text that begins with w is a web socket.
abbrev socket_parsers : Parsers
socket_parsers = record parsers {
  parse_url = λ t.
      if has_prefix t (text "w")
      then some socket_news
      else some (record news { scheme = text "https" });
  show_url = λ u. text "https://a.io";
}

abbrev socket_target : Target
socket_target = record { url = socket_news; addresses = public_address ∷ []; port = 443 }

authorize_web_socket-IsGranted_example :
    ((parsed : Url) × (target : Target) × (socket_target
        ≡ as_socket guard socket_parsers lookup_one parsed target)
      × ((parsed.scheme == text "ws" || parsed.scheme == text "wss") ≡ true)
      × IsSafe guard target)
    × IsGranted socket_parsers (some (news_only ∷ [])) socket_target
unfolding addr_beq after_bracket ascii_host atoi atoi_from authorize_web_socket check_addresses
    contains contains_addr decide digits_from equal_fold evaluate evaluate_from explicit_port
    find_addresses from_colon hard_denied has_prefix has_suffix host_with_port hostname hostname_of
    is_digit is_global_unicast is_non_public itoa join_host_port judge list_beq looked_up match
    matches_any matches_cidr matches_kind matches_url_prefix normalize_target_url parse_target
    parse_web_socket port port_of prefix_contains push_left resolve resolved target_port to_lower
    trim_left trim_right trim_space trim_suffix unmap until_bracket until_colon verdict
authorize_web_socket-IsGranted_example =
    authorize_web_socket-IsGranted guard socket_parsers lookup_one (some (news_only ∷ []))
      (text "wss://a.io") socket_target
      (record { allowed = true; reason = text "allowed"; policy_id = 0 }) refl refl
