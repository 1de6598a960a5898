-- ===== src/Gateway/Mapping.antt =====
-- mapProxyURL and normalizeClientURL: what is read as a proxied URL.
use tvpn.Base.{
  Bool-cases, Option-cases, Result, Result-cases, arith, inl, inr, ok, some, true, ◌≡◌, ◌⊎◌,
}
use tvpn.Gateway.{
  client_scheme, is_below_base, is_same_owner, label_of, map_found, map_parsed, map_proxy_url,
  normalize_client_url, normalize_found, normalize_parsed, on_target,
}
use tvpn.Net.{Parsers, Url, hostname}
use tvpn.Store.{Route, StoreError}
use tvpn.Text.{Text, to_lower}

module _ (lib : Parsers) (proxy_base_domain : Text)
    (by_label : Text → Result StoreError Route) where
  -- The text is a URL below the base domain whose label names this route.
  pub record IsProxied (value : Text) (parsed : Url) (r : Route) : Type 0 where
    pub readable : lib.parse_url value ≡ some parsed
    pub below : is_below_base lib proxy_base_domain by_label (to_lower (hostname parsed)) ≡ true
    pub named :
        by_label (label_of lib proxy_base_domain by_label (to_lower (hostname parsed))) ≡ ok r

  -- In the context of a route a URL is mapped only if it is a proxied one of a route of the same
  -- context and user, and then to the URL with that route's scheme and host.
  pub map_proxy_url-IsProxied :
      (current : Route) (value mapped : Text)
      → map_proxy_url lib proxy_base_domain by_label (some current) value ≡ some mapped
      → (parsed : Url) × (r : Route) × IsProxied value parsed r
        × (r.context_id ≡ current.context_id)
        × (r.user_id ≡ current.user_id)
        × (mapped ≡ lib.show_url (on_target lib proxy_base_domain by_label r parsed r.scheme))
  unfolding map_proxy_url map_parsed map_found
  map_proxy_url-IsProxied current value mapped h = elim (Option-cases (lib.parse_url value)) [
    | inl unread ↦ absurd (ground arith)
    | inr (parsed, e) ↦
        elim (Result-cases
          (by_label (label_of lib proxy_base_domain by_label (to_lower (hostname parsed))))) [
            | inr (x, missing) ↦ absurd (ground arith)
            | inl (r, found) ↦ (
              parsed,
              r,
              record { readable = e; below = ground arith; named = found },
              ground arith,
              ground arith,
              ground arith,
            )
          ]
  ]

  -- A client's URL is changed only if it is a proxied one of a route of the same context and user;
  -- every other URL stays as it is.
  pub normalize_client_url-cases :
      (current : Route) (value : Text)
      → (normalize_client_url lib proxy_base_domain by_label current value ≡ value)
        ⊎ ((parsed : Url) × (r : Route) × IsProxied value parsed r
            × (r.context_id ≡ current.context_id)
            × (r.user_id ≡ current.user_id)
            × (normalize_client_url lib proxy_base_domain by_label current value
                ≡ lib.show_url (
                    on_target lib proxy_base_domain by_label r parsed
                      (client_scheme lib proxy_base_domain by_label parsed.scheme r.scheme))))
  unfolding normalize_client_url normalize_parsed normalize_found
  normalize_client_url-cases current value = elim (Option-cases (lib.parse_url value)) [
    | inl unread ↦ inl (ground arith)
    | inr (parsed, e) ↦
        elim (Bool-cases
          (is_below_base lib proxy_base_domain by_label (to_lower (hostname parsed)))) [
            | inr outside ↦ inl (ground arith)
            | inl inside ↦
                elim (Result-cases (
                  by_label
                    (label_of lib proxy_base_domain by_label (to_lower (hostname parsed))))) [
                      | inr (x, missing) ↦ inl (ground arith)
                      | inl (r, found) ↦
                          elim (Bool-cases
                            (is_same_owner lib proxy_base_domain by_label r current)) [
                              | inr foreign ↦ inl (ground arith)
                              | inl own ↦ inr (
                                parsed,
                                r,
                                record { readable = e; below = inside; named = found },
                                ground arith,
                                ground arith,
                                ground arith,
                              )
                            ]
                    ]
          ]
  ]
