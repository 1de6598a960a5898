-- ===== src/Headers/Hop.antt =====
-- Hop-by-hop fields: stripHopHeaders in one test for each field.
use tvpn.Base.{
  Bool, List, [], any, ap, arith, filter, list_eq, map, nat_eq, not, refl, sym, true, ◌&&◌, ◌==◌,
  ◌∙◌, ◌∷◌, ◌≡◌,
}
use tvpn.Headers.{
  Header, canonical_from, canonical_header_key, canonical_hop_names, connection_names, delete_all,
  has_name, header_del, header_values, hop_names, is_hop_header, strip_hop_headers,
}
use tvpn.Text.{Text, text}

-- The field has one of the names.
abbrev pub is_named : List Text → Text × Text → Bool
is_named names f = any (λ name. has_name (canonical_header_key name) f) names

-- The field goes end to end: neither its name is a hop-by-hop name nor does Connection list it.
abbrev pub is_end_to_end : Header → Text × Text → Bool
is_end_to_end h f =
    not (is_named (connection_names (header_values (text "Connection") h)) f)
    && not (is_hop_header f.0)

filter-filter :
    (p q r : Text × Text → Bool) (h : Header)
    → ((f : Text × Text) → r f ≡ (q f && p f))
    → filter p (filter q h) ≡ filter r h
filter-filter p q r [] e = refl
filter-filter p q r (f ∷ h) e = ground (arith, e f, filter-filter p q r h e)

filter-ext :
    (p q : Text × Text → Bool) (h : Header)
    → ((f : Text × Text) → p f ≡ q f)
    → filter p h ≡ filter q h
filter-ext p q [] e = refl
filter-ext p q (f ∷ h) e = ground (arith, e f, filter-ext p q h e)

filter-true : (h : Header) → filter (λ (f : Text × Text). true) h ≡ h
filter-true [] = refl
filter-true (f ∷ h) = ground (arith, filter-true h)

pub delete_all-filter :
    (names : List Text) (h : Header) → delete_all names h ≡ filter (λ f. not (is_named names f)) h
unfolding delete_all header_del
delete_all-filter [] h = sym (filter-true h)
delete_all-filter (name ∷ names) h =
    delete_all-filter names (header_del name h)
    ∙ filter-filter _ _ (λ f. not (is_named (name ∷ names) f)) h (λ f. ground arith)

canonical_names : map canonical_header_key hop_names ≡ canonical_hop_names
unfolding canonical_header_key canonical_from
canonical_names = refl

hop_names-canonical : (f : Text × Text) → is_named hop_names f ≡ is_hop_header f.0
unfolding is_hop_header
hop_names-canonical f = ap (λ (names : List Text). any (λ name. f.0 == name) names) canonical_names

-- stripHopHeaders keeps, in their order, the fields that go end to end, and no other: those whose name
-- is none of the nine hop-by-hop names and is not listed by a Connection field.
pub strip_hop_headers-filter : (h : Header) → strip_hop_headers h ≡ filter (is_end_to_end h) h
unfolding strip_hop_headers
strip_hop_headers-filter h =
    let listed = connection_names (header_values (text "Connection") h) in
    delete_all-filter hop_names (delete_all listed h)
    ∙ ap (filter (λ f. not (is_named hop_names f))) (delete_all-filter listed h)
    ∙ filter-filter (λ f. not (is_named hop_names f)) (λ f. not (is_named listed f))
        (is_end_to_end h) h (λ f. ground (arith, hop_names-canonical f))
