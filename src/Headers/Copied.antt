-- ===== src/Headers/Copied.antt =====
-- What copyResponseHeaders lets through to the browser.
use mathlib.Core.List.{append-nil, append_assoc}
use tvpn.Base.{
  All, Bool, Bool-cases, [], all, and-eq-true, ap, arith, false, filter, if◌then◌else◌, inl, inr,
  list_beq, list_eq, map, nat_eq, not, refl, sym, text_eq_iff, true, ℕ, ◌++◌, ◌==◌, ◌∙◌, ◌∷◌, ◌≡◌,
  ◌≢◌,
}
use tvpn.Headers.{
  Header, canonical_from, canonical_header_key, copy_fields, copy_response_headers, has_name,
  header_add, header_del, header_set, header_values, is_hop_header, is_token_byte, is_withheld,
  upper_byte,
}
use tvpn.Headers.Laws.{filter-append, header_values-set_ne, header_values-set_same}
use tvpn.Text.{Text, lower_byte, text}

-- Every name is in canonical form, as net/http keeps them.
abbrev pub IsCanonical : Header → Type 0
IsCanonical h = All (λ f. canonical_header_key f.0 ≡ f.0) h

pub All-filter :
    (P : Text × Text → Type 0) (p : Text × Text → Bool) (h : Header) → All P h → All P (filter p h)
All-filter P p [] a = tt
All-filter P p (f ∷ h) a = let rest = All-filter P p h a.1 in ground arith

pub All-append : (P : Text × Text → Type 0) (h k : Header) → All P h → All P k → All P (h ++ k)
All-append P [] k a b = b
All-append P (f ∷ h) k a b = (a.0, All-append P h k a.1 b)

abbrev pub IsAllowed : Text × Text → Type 0
IsAllowed f = is_withheld f.0 ≡ false

raised-is_token_byte :
    (b : Bool) (c : ℕ)
    → is_token_byte c ≡ true
    → is_token_byte (if b then upper_byte c else lower_byte c) ≡ true
raised-is_token_byte b c h = ground arith

canonical_from-tokens :
    (b : Bool) (name : Text)
    → all is_token_byte name ≡ true
    → all is_token_byte (canonical_from b name) ≡ true
unfolding canonical_from
canonical_from-tokens b [] h = refl
canonical_from-tokens b (c ∷ s) h =
    let (first, others) = and-eq-true (is_token_byte c) (all is_token_byte s) h in
    rw (raised-is_token_byte b c first, canonical_from-tokens (c == b'-') s others)

raised_idem :
    (b : Bool) (c : ℕ)
    → ◌≡◌ {A = ℕ}
        (if b
          then upper_byte (if b then upper_byte c else lower_byte c)
          else lower_byte (if b then upper_byte c else lower_byte c))
        (if b then upper_byte c else lower_byte c)
raised_idem b c = ground arith

raised-dash :
    (b : Bool) (c : ℕ) → ((if b then upper_byte c else lower_byte c) == b'-') ≡ (c == b'-')
raised-dash b c = ground arith

canonical_from_idem :
    (b : Bool) (name : Text) → canonical_from b (canonical_from b name) ≡ canonical_from b name
unfolding canonical_from
canonical_from_idem b [] = refl
canonical_from_idem b (c ∷ s) =
    rw (raised_idem b c, raised-dash b c, canonical_from_idem (c == b'-') s)

pub canonical_idem :
    (name : Text) → canonical_header_key (canonical_header_key name) ≡ canonical_header_key name
unfolding canonical_header_key
canonical_idem name = ground (arith, canonical_from_idem true name, canonical_from-tokens true name)

-- A field after the fields that are copied so far.
abbrev copied : Text → Text → Header → Header
copied canonical value dst = if is_withheld canonical then dst else header_add canonical value dst

copied-IsAllowed :
    (name value : Text) (dst : Header)
    → All IsAllowed dst
    → All IsAllowed (copied (canonical_header_key name) value dst)
unfolding header_add
copied-IsAllowed name value dst a = elim (Bool-cases (is_withheld (canonical_header_key name))) [
  | inl withheld ↦ rw withheld a
  | inr allowed ↦
      rw (allowed, canonical_idem name)
        (All-append IsAllowed dst ((canonical_header_key name, value) ∷ []) a (allowed, tt))
]

copy_fields-IsAllowed : (src dst : Header) → All IsAllowed dst → All IsAllowed (copy_fields dst src)
unfolding copy_fields
copy_fields-IsAllowed [] dst a = a
copy_fields-IsAllowed ((name, value) ∷ src) dst a =
    copy_fields-IsAllowed src (copied (canonical_header_key name) value dst)
      (copied-IsAllowed name value dst a)

copied-filter :
    (name n value : Text) (dst : Header)
    → is_withheld name ≡ false
    → canonical_header_key n ≡ n
    → filter (has_name name) (copied n value dst)
      ≡ filter (has_name name) dst ++ filter (has_name name) ((n, value) ∷ [])
unfolding header_add
copied-filter name n value dst allowed key = elim (Bool-cases (n == name)) [
  | inl hit ↦
      let e = (text_eq_iff n name).0 hit in
      rw (key, e, allowed) (filter-append (has_name name) dst ((name, value) ∷ []))
  | inr miss ↦
      rw (key, miss, append-nil (filter (has_name name) dst))
        (elim (Bool-cases (is_withheld n)) [
          | inl withheld ↦ rw withheld
          | inr free ↦
              rw (free, filter-append (has_name name) dst ((n, value) ∷ []), miss) (append-nil _)
        ])
]

copy_fields-filter :
    (name : Text) (src dst : Header)
    → IsCanonical src
    → is_withheld name ≡ false
    → filter (has_name name) (copy_fields dst src)
      ≡ filter (has_name name) dst ++ filter (has_name name) src
unfolding copy_fields header_add
copy_fields-filter name [] dst c allowed = sym (append-nil _)
copy_fields-filter name ((n, value) ∷ src) dst c allowed =
    ap (λ (k : Text). filter (has_name name) (copy_fields (copied k value dst) src)) c.0
    ∙ copy_fields-filter name src (copied n value dst) c.1 allowed
    ∙ ap (λ l. l ++ filter (has_name name) src) (copied-filter name n value dst allowed c.0)
    ∙ append_assoc (filter (has_name name) dst) (filter (has_name name) ((n, value) ∷ []))
        (filter (has_name name) src)
    ∙ ap (λ l. filter (has_name name) dst ++ l)
        (sym (filter-append (has_name name) ((n, value) ∷ []) src))

-- The browser gets no cookie, no content security policy, no frame option, no error code of tvpn and
-- no hop-by-hop field of the target; the referrer policy is no-referrer.
pub copy_response_headers-IsAllowed :
    (src : Header)
    → All IsAllowed (copy_response_headers [] src)
      × (header_values (text "Referrer-Policy") (copy_response_headers [] src)
          ≡ text "no-referrer" ∷ [])
unfolding copy_response_headers header_set header_del header_values canonical_header_key
    canonical_from is_withheld is_hop_header list_beq
copy_response_headers-IsAllowed src =
    let fields = copy_fields [] src in
    let kept =
      All-filter IsAllowed (λ f. not (has_name (text "Referrer-Policy") f)) fields
        (copy_fields-IsAllowed src [] tt) in
    (
      All-append IsAllowed (filter (λ f. not (has_name (text "Referrer-Policy") f)) fields)
          ((text "Referrer-Policy", text "no-referrer") ∷ []) kept (refl, tt),
      header_values-set_same (text "Referrer-Policy") (text "no-referrer") fields,
    )

referrer_key : canonical_header_key (text "Referrer-Policy") ≡ text "Referrer-Policy"
unfolding canonical_header_key canonical_from
referrer_key = refl

map-append :
    (h k : Header)
    → map (λ (f : Text × Text). f.1) (h ++ k)
      ≡ map (λ (f : Text × Text). f.1) h ++ map (λ (f : Text × Text). f.1) k
map-append [] k = refl
map-append (f ∷ h) k = ground (arith, map-append h k)

values_copied :
    (name : Text) (src dst : Header)
    → IsCanonical src
    → canonical_header_key name ≡ name
    → is_withheld name ≡ false
    → header_values name (copy_fields dst src) ≡ header_values name dst ++ header_values name src
unfolding header_values
values_copied name src dst c key allowed = rw key (
    ap (map (λ (f : Text × Text). f.1)) (copy_fields-filter name src dst c allowed)
    ∙ map-append (filter (has_name name) dst) (filter (has_name name) src))

-- Every other field of the target arrives with all its values in their order, after those that were
-- set before.
pub copy_response_headers-values :
    (name : Text) (src dst : Header)
    → IsCanonical src
    → canonical_header_key name ≡ name
    → is_withheld name ≡ false
    → name ≢ text "Referrer-Policy"
    → header_values name (copy_response_headers dst src)
      ≡ header_values name dst ++ header_values name src
unfolding copy_response_headers
copy_response_headers-values name src dst c key allowed other =
    header_values-set_ne name (text "Referrer-Policy") (text "no-referrer") (copy_fields dst src)
      (λ e. other (sym key ∙ e ∙ referrer_key))
    ∙ values_copied name src dst c key allowed
