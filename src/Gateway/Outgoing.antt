-- ===== src/Gateway/Outgoing.antt =====
-- What forward lets out: where a request goes, and what its header tells the target.
use mathlib.Core.Path.{subst}
use tvpn.Access.{Request}
use tvpn.Base.{
  Bool, Bool-cases, List, Option-cases, Result-cases, [], all, ap, arith, false, filter, find,
  find_sound, inl, inr, list_beq, list_eq, map, nat_eq, not, ok, refl, some, sym, text_eq_iff, true,
  ◌&&◌, ◌++◌, ◌==◌, ◌∙◌, ◌∷◌, ◌≡◌, ◌≢◌, ◌⊎◌,
}
use tvpn.Cookies.{cookies}
use tvpn.Gateway.Contexts.{Moment, ProxyDb, ProxyEnv, authorize_for}
use tvpn.Gateway.Forward.{
  forward_dial, forward_header, forward_request, forward_target, map_field, mapped_for,
  private_names, sends,
}
use tvpn.Gateway.Opened.{IsAuthorizedUrl}
use tvpn.Headers.{
  Header, canonical_header_key, delete_all, first_value, has_name, header_del, header_get,
  header_set, header_values, strip_hop_headers,
}
use tvpn.Headers.Hop.{delete_all-filter, is_end_to_end, is_named, strip_hop_headers-filter}
use tvpn.Headers.Laws.{
  filter-del_ne, filter-del_same, first_text, header_get-values, header_values-set_ne,
  header_values-set_same,
}
use tvpn.Ldap.{dial}
use tvpn.Store.{Route}
use tvpn.Text.{Text, text}
use tvpn.Upstream.Wire.{Sent}

module _ {A : Type 0} (p q : A → Bool) where
  all-filter_sub : (l : List A) → all p l ≡ true → all p (filter q l) ≡ true
  all-filter_sub [] h = refl
  all-filter_sub (x ∷ l) h = ground (arith, all-filter_sub l)

  all-filter : (l : List A) → ((x : A) → q x ≡ true → p x ≡ true) → all p (filter q l) ≡ true
  all-filter [] sub = refl
  all-filter (x ∷ l) sub = ground (arith, all-filter l sub, sub x)

  all-and : (l : List A) → all p l ≡ true → all q l ≡ true → all (λ x. p x && q x) l ≡ true
  all-and [] h k = refl
  all-and (x ∷ l) h k = ground (arith, all-and l)

all-append :
    {A : Type 0} (p : A → Bool) (xs ys : List A)
    → all p xs ≡ true
    → all p ys ≡ true
    → all p (xs ++ ys) ≡ true
all-append p [] ys h k = k
all-append p (x ∷ xs) ys h k = ground (arith, all-append p xs ys)

module _ (env : ProxyEnv) (m : Moment) (db : ProxyDb) where
  -- A field of the browser that a target may see: none with a name of these six, none with the name of a
  -- single hop, and none that a Connection field of the browser names.
  abbrev pub is_public_field : Header → Text × Text → Bool
  is_public_field h f =
      not (
        is_named
          (text "Cookie"
            ∷ text "Accept-Encoding"
            ∷ text "X-Forwarded-For"
            ∷ text "X-Forwarded-Host"
            ∷ text "X-Forwarded-Proto"
            ∷ text "Tvpn-Error-Code"
            ∷ [])
          f)
      && is_end_to_end h f

  cleaned-public :
      (h : Header) → all (is_public_field h) (delete_all private_names (strip_hop_headers h)) ≡ true
  cleaned-public h =
      let not_private = λ (f : Text × Text). not (is_named private_names f) in
      let direct_fields = filter (is_end_to_end h) h in
      rw (strip_hop_headers-filter h, delete_all-filter private_names)
        (all-and not_private (is_end_to_end h) (filter not_private direct_fields)
          (all-filter not_private not_private direct_fields (λ f e. e))
          (all-filter_sub (is_end_to_end h) not_private direct_fields
            (all-filter (is_end_to_end h) (is_end_to_end h) h (λ f e. e))))

  all-found :
      {A : Type 0} (p q : A → Bool) (l : List A) (x : A)
      → all p l ≡ true
      → find q l ≡ some x
      → p x ≡ true
  all-found p q [] x a e = cc
  all-found p q (y ∷ l) x a e = elim (Bool-cases (q y)) [
    | inl hit ↦ ground arith
    | inr miss ↦ all-found p q l x (ground arith) (ground arith)
  ]

  -- A name under which the header has a value is one that a target may see.
  present-public :
      (name value : Text) (h whole : Header)
      → header_get name h == [] ≡ false
      → all (is_public_field whole) h ≡ true
      → is_public_field whole (canonical_header_key name, value) ≡ true
  unfolding header_get first_value
  present-public name value h whole given_here clean =
      elim (Option-cases (find (has_name (canonical_header_key name)) h)) [
        | inl missing ↦
            let empty = (text_eq_iff (header_get name h) []).1 (ap first_value missing) in
            absurd (ground (arith, empty))
        | inr (f, e) ↦
            let (mem, hit) = find_sound (has_name (canonical_header_key name)) h e in
            subst (λ key. is_public_field whole (key, value) ≡ true)
              ((text_eq_iff f.0 (canonical_header_key name)).0 hit)
              (all-found (is_public_field whole) (has_name (canonical_header_key name)) h f clean e)
      ]

  map_field-public :
      (route : Route) (name : Text) (h whole : Header)
      → all (is_public_field whole) h ≡ true
      → all (is_public_field whole) (map_field env m db route name h) ≡ true
  unfolding map_field header_del header_set
  map_field-public route name h whole clean =
      let rest =
        all-filter_sub (is_public_field whole) (λ f. not (has_name (canonical_header_key name) f)) h
          clean in
      elim (Bool-cases (header_get name h == [])) [
        | inl missing ↦ ground arith
        | inr given_here ↦ elim (Option-cases (mapped_for env m db route (header_get name h))) [
          | inl unmapped ↦ ground (arith, rest)
          | inr (mapped, e) ↦
              let added =
                all-append (is_public_field whole)
                  (filter (λ f. not (has_name (canonical_header_key name) f)) h)
                  ((canonical_header_key name, mapped) ∷ []) rest
                  (ground (arith, present-public name mapped h whole given_here clean)) in
              ground (arith, added)
        ]
      ]

  -- The field is absent or empty, or holds what a proxied URL stands for.
  abbrev pub IsMapped : Route → Text → Header → Type 0
  IsMapped route name h =
      (header_get name h ≡ [])
      ⊎ ((value : Text) × (mapped_for env m db route value ≡ some (header_get name h)))

  get-set_same :
      (name value : Text) (h : Header) → header_get name (header_set name value h) ≡ value
  unfolding first_text
  get-set_same name value h =
      header_get-values name (header_set name value h)
      ∙ ap first_text (header_values-set_same name value h)

  get-del_same : (name : Text) (h : Header) → header_get name (header_del name h) ≡ []
  unfolding first_text header_values header_del
  get-del_same name h =
      header_get-values name (header_del name h)
      ∙ ap (λ l. first_text (map (λ (f : Text × Text). f.1) l))
          (filter-del_same (canonical_header_key name) h)

  map_field-IsMapped :
      (route : Route) (name : Text) (h : Header)
      → IsMapped route name (map_field env m db route name h)
  unfolding map_field
  map_field-IsMapped route name h = elim (Bool-cases (header_get name h == [])) [
    | inl missing ↦
        let empty = (text_eq_iff (header_get name h) []).0 missing in inl (ground (arith, empty))
    | inr given_here ↦ elim (Option-cases (mapped_for env m db route (header_get name h))) [
      | inl unmapped ↦ inl (ground (arith, get-del_same name h))
      | inr (mapped, e) ↦ inr (header_get name h, ground (arith, get-set_same name mapped h))
    ]
  ]

  get-values :
      (name : Text) (h k : Header)
      → header_values name h ≡ header_values name k
      → header_get name h ≡ header_get name k
  get-values name h k same =
      header_get-values name h ∙ ap first_text same ∙ sym (header_get-values name k)

  map_field-other :
      (route : Route) (name other : Text) (h : Header)
      → canonical_header_key name ≢ canonical_header_key other
      → header_get name (map_field env m db route other h) ≡ header_get name h
  unfolding map_field header_values header_del
  map_field-other route name other h differ =
      let gone : header_values name (header_del other h) ≡ header_values name h =
        ap (map (λ (f : Text × Text). f.1))
          (filter-del_ne (canonical_header_key name) (canonical_header_key other) h differ) in
      elim (Bool-cases (header_get other h == [])) [
        | inl missing ↦ ground arith
        | inr given_here ↦ elim (Option-cases (mapped_for env m db route (header_get other h))) [
          | inl unmapped ↦ ground (arith, get-values name (header_del other h) h gone)
          | inr (mapped, e) ↦ ground (
            arith,
            get-values name (header_set other mapped h) h
                (header_values-set_ne name other mapped h differ),
          )
        ]
      ]

  text-differ : (a b : Text) → a == b ≡ false → a ≢ b
  text-differ a b h e = absurd (ground (arith, (text_eq_iff a b).1 e))

  origin-differs :
      canonical_header_key (text "Origin") == canonical_header_key (text "Referer") ≡ false
  unfolding canonical_header_key list_beq
  origin-differs = refl

  -- Of the fields of the browser, none with the name Cookie, Accept-Encoding, X-Forwarded-For,
  -- X-Forwarded-Host, X-Forwarded-Proto or Tvpn-Error-Code, no hop-by-hop field and none that a Connection
  -- field names reaches a target, and the origin and the referrer that a target sees, if any, are mapped from proxied URLs.
  pub forward_header-IsMapped :
      (route : Route) (h : Header)
      → (all (is_public_field h) (forward_header env m db route h) ≡ true)
        × IsMapped route (text "Origin") (forward_header env m db route h)
        × IsMapped route (text "Referer") (forward_header env m db route h)
  unfolding forward_header
  forward_header-IsMapped route h =
      let clean = delete_all private_names (strip_hop_headers h) in
      let with_origin = map_field env m db route (text "Origin") clean in
      let same =
        map_field-other route (text "Origin") (text "Referer") with_origin
          (text-differ _ _ origin-differs) in
      (
        map_field-public route (text "Referer") with_origin h
            (map_field-public route (text "Origin") clean h (cleaned-public h)),
        subst (λ value. (value ≡ []) ⊎ ((v : Text) × (mapped_for env m db route v ≡ some value)))
            (sym same) (map_field-IsMapped route (text "Origin") clean),
        map_field-IsMapped route (text "Referer") with_origin,
      )

  sends-injective : (a b : Sent) → sends a ≡ sends b → a ≡ b
  sends-injective a b h = cc

  -- A request that forward sends is for the URL of its route's origin with the path and the query of the
  -- browser, which was authorised for the owner of the route; it is dialled as the rules for upstream
  -- proxies say, and has the method of the browser and the mapped header.
  pub forward_request-IsAuthorizedUrl :
      (route : Route) (r : Request) (body : Text) (s : Sent)
      → forward_request env m db route r body ≡ sends s
      → IsAuthorizedUrl env m db route.user_id (forward_target env m db route r) s.target
        × (forward_dial env m db route s.target ≡ ok s.dial)
        × (s.header ≡ forward_header env m db route r.header)
        × (s.method ≡ r.method)
  unfolding forward_request
  forward_request-IsAuthorizedUrl route r body s h =
      elim (Result-cases (authorize_for env m route.user_id (forward_target env m db route r))) [
        | inr (e, failed) ↦ absurd (ground arith)
        | inl ((target, d), found) ↦ elim (Bool-cases d.allowed) [
          | inr refusal ↦ absurd (ground arith)
          | inl allowed ↦
              elim (Option-cases (
                cookies env.aead env.public_suffix env.show_id (m.fails 0 0) m.now route.context_id
                  target.url false db.jar)) [
                    | inl unread ↦ absurd (ground arith)
                    | inr (stored, read) ↦
                        elim (Result-cases (forward_dial env m db route target)) [
                          | inr (e, undialled) ↦ absurd (ground arith)
                          | inl (dial, dialled_as) ↦
                              let made : Sent = record {
                                method = r.method;
                                target = target;
                                header = forward_header env m db route r.header;
                                cookies = stored;
                                body = body;
                                dial = dial;
                              } in
                              let same : made ≡ s = sends-injective made s (ground arith) in
                              rw (← same) ((d, found, allowed), dialled_as, refl, refl)
                        ]
                  ]
        ]
      ]
