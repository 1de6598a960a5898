-- ===== src/Headers/Cors.antt =====
-- Which origin may read a response: translateCORS.
use mathlib.Core.Bool.{false≢true}
use tvpn.Base.{
  Bool, Bool-cases, [], any, ap, arith, false, if◌then◌else◌, inl, inr, list_beq, list_eq, nat_eq,
  refl, sym, text_eq_iff, ◌==◌, ◌||◌, ◌∙◌, ◌≡◌,
}
use tvpn.Headers.{
  Header, add_vary, allow_origin, canonical_from, canonical_header_key, header_add, header_get,
  header_set, header_values, lists_field, set_default, share_response, translate_cors,
}
use tvpn.Headers.Laws.{
  first_text, header_get-values, header_values-add_ne, header_values-set_ne, header_values-set_same,
}
use tvpn.Text.{Text, text}

-- The origin that a response allows after the translation.
unfoldable pub allowed_after : Header → Text → Text → Bool → Text
allowed_after response browser_origin upstream_origin compatibility_mode =
    let before = header_get allow_origin response in
    if browser_origin == [] || upstream_origin == []
    then before
    else if compatibility_mode || before == upstream_origin
    then browser_origin
    else before

get-set_same : (name value : Text) (h : Header) → header_get name (header_set name value h) ≡ value
unfolding first_text
get-set_same name value h =
    header_get-values name (header_set name value h)
    ∙ ap first_text (header_values-set_same name value h)

differ : {a b : Text} → a ≡ b → (b == a) ≡ false → ⊥
differ {a} {b} e d = absurd (false≢true (sym d ∙ (text_eq_iff b a).1 (sym e)))

get-set_ne :
    (a b value : Text) (h : Header)
    → (canonical_header_key b == canonical_header_key a) ≡ false
    → header_get a (header_set b value h) ≡ header_get a h
get-set_ne a b value h d =
    header_get-values a (header_set b value h)
    ∙ ap first_text (header_values-set_ne a b value h (λ e. differ e d))
    ∙ sym (header_get-values a h)

get-add_vary :
    (a value : Text) (h : Header)
    → (canonical_header_key (text "Vary") == canonical_header_key a) ≡ false
    → header_get a (add_vary value h) ≡ header_get a h
unfolding add_vary
get-add_vary a value h d =
    elim (Bool-cases (any (lists_field value) (header_values (text "Vary") h))) [
      | inl listed ↦ rw listed
      | inr missing ↦ rw missing (
          header_get-values a (header_add (text "Vary") value h)
          ∙ ap first_text (header_values-add_ne a (text "Vary") value h (λ e. differ e d))
          ∙ sym (header_get-values a h))
    ]

get-set_default :
    (a b value : Text) (h : Header)
    → (canonical_header_key b == canonical_header_key a) ≡ false
    → header_get a (set_default b value h) ≡ header_get a h
unfolding set_default
get-set_default a b value h d = ground (arith, get-set_ne a b value h d)

-- None of the other fields that translateCORS writes is the field of the allowed origin.
written-other :
    (canonical_header_key (text "Access-Control-Allow-Credentials")
        == canonical_header_key allow_origin
      ≡ false)
    × (canonical_header_key (text "Vary") == canonical_header_key allow_origin ≡ false)
    × (canonical_header_key (text "Access-Control-Allow-Methods")
          == canonical_header_key allow_origin
        ≡ false)
    × (canonical_header_key (text "Access-Control-Allow-Headers")
          == canonical_header_key allow_origin
        ≡ false)
unfolding canonical_header_key canonical_from list_beq
written-other = (refl, refl, refl, refl)

shared-allow_origin :
    (response request : Header) (browser_origin : Text)
    → header_get allow_origin (share_response response request browser_origin) ≡ browser_origin
unfolding share_response
shared-allow_origin response request browser_origin =
    let asked = header_get (text "Access-Control-Request-Method") request in
    let asked_headers = header_get (text "Access-Control-Request-Headers") request in
    let allowed = header_set allow_origin browser_origin response in
    let trusted = header_set (text "Access-Control-Allow-Credentials") (text "true") allowed in
    let shared = add_vary (text "Origin") trusted in
    let methods = set_default (text "Access-Control-Allow-Methods") asked shared in
    let full = set_default (text "Access-Control-Allow-Headers") asked_headers methods in
    let base : header_get allow_origin shared ≡ browser_origin =
      get-add_vary allow_origin (text "Origin") trusted written-other.1
      ∙ get-set_ne allow_origin (text "Access-Control-Allow-Credentials") (text "true") allowed
          written-other.0
      ∙ get-set_same allow_origin browser_origin response in
    elim (Bool-cases (asked == [])) [
      | inl simple ↦ ap (λ b. header_get allow_origin (if b then shared else full)) simple ∙ base
      | inr preflight ↦
          ap (λ b. header_get allow_origin (if b then shared else full)) preflight
          ∙ get-set_default allow_origin (text "Access-Control-Allow-Headers") asked_headers methods
              written-other.3
          ∙ get-set_default allow_origin (text "Access-Control-Allow-Methods") asked shared
              written-other.2
          ∙ base
    ]

-- After the translation the allowed origin is the browser's if both origins are known and either the
-- route is in compatibility mode or the target allowed its own origin; otherwise it is what it was.
pub translate_cors-allow_origin :
    (response request : Header) (browser_origin upstream_origin : Text) (compatibility_mode : Bool)
    → header_get allow_origin
        (translate_cors response request browser_origin upstream_origin compatibility_mode)
      ≡ allowed_after response browser_origin upstream_origin compatibility_mode
unfolding translate_cors allowed_after
translate_cors-allow_origin response request browser_origin upstream_origin compatibility_mode =
    let shared = shared-allow_origin response request browser_origin in
    let set = get-set_same allow_origin browser_origin response in ground arith
