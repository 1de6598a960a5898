-- ===== src/Headers/Laws.antt =====
-- The values of a field after setting, adding and deleting fields.
use mathlib.Core.List.{append-nil}
use tvpn.Base.{
  Bool, Bool-cases, List, [], arith, false, filter, find, inl, inr, list_eq, map, nat_eq, not, refl,
  sym, text_eq_iff, text_eq_self, true, ◌++◌, ◌==◌, ◌∙◌, ◌∷◌, ◌≡◌, ◌≢◌,
}
use tvpn.Headers.{
  Header, canonical_header_key, first_value, has_name, header_add, header_del, header_get,
  header_set, header_values,
}
use tvpn.Text.{Text}

pub filter-append :
    (p : Text × Text → Bool) (h k : Header) → filter p (h ++ k) ≡ filter p h ++ filter p k
filter-append p [] k = refl
filter-append p (f ∷ h) k = ground (arith, filter-append p h k)

-- Deleting the fields of one name.
pub filter-del_same :
    (key : Text) (h : Header) → filter (has_name key) (filter (λ f. not (has_name key f)) h) ≡ []
filter-del_same key [] = refl
filter-del_same key (f ∷ h) = ground (arith, filter-del_same key h)

has_name_ne : (a b : Text) (f : Text × Text) → a ≢ b → has_name a f ≡ true → has_name b f ≡ false
has_name_ne a b f d h = elim (Bool-cases (has_name b f)) [
  | inl both ↦ absurd (d (sym ((text_eq_iff f.0 a).0 h) ∙ (text_eq_iff f.0 b).0 both))
  | inr miss ↦ miss
]

pub filter-del_ne :
    (a b : Text) (h : Header)
    → a ≢ b
    → filter (has_name a) (filter (λ f. not (has_name b f)) h) ≡ filter (has_name a) h
filter-del_ne a b [] d = refl
filter-del_ne a b (f ∷ h) d =
    let rest = filter-del_ne a b h d in let away = has_name_ne a b f d in ground arith

-- Setting one field gives it that value alone, and leaves every other field.
pub header_values-set_same :
    (name value : Text) (h : Header) → header_values name (header_set name value h) ≡ value ∷ []
unfolding header_values header_set header_del
header_values-set_same name value h =
    let key = canonical_header_key name in
    let self = text_eq_self key in
    rw (
      filter-append (has_name key) (filter (λ f. not (has_name key f)) h) ((key, value) ∷ []),
      filter-del_same key h,
      self,
    )

key_ne :
    (a b : Text)
    → canonical_header_key a ≢ canonical_header_key b
    → (canonical_header_key b == canonical_header_key a) ≡ false
key_ne a b d = elim (Bool-cases (canonical_header_key b == canonical_header_key a)) [
  | inl same ↦
      absurd (d (sym ((text_eq_iff (canonical_header_key b) (canonical_header_key a)).0 same)))
  | inr miss ↦ miss
]

pub header_values-set_ne :
    (a b value : Text) (h : Header)
    → canonical_header_key a ≢ canonical_header_key b
    → header_values a (header_set b value h) ≡ header_values a h
unfolding header_values header_set header_del
header_values-set_ne a b value h d =
    let key = canonical_header_key b in
    rw (
      filter-append (has_name (canonical_header_key a)) (filter (λ f. not (has_name key f)) h)
          ((key, value) ∷ []),
      filter-del_ne (canonical_header_key a) key h d,
      key_ne a b d,
      append-nil (filter (has_name (canonical_header_key a)) h),
    )

pub header_values-add_ne :
    (a b value : Text) (h : Header)
    → canonical_header_key a ≢ canonical_header_key b
    → header_values a (header_add b value h) ≡ header_values a h
unfolding header_values header_add
header_values-add_ne a b value h d =
    let key = canonical_header_key b in
    rw (
      filter-append (has_name (canonical_header_key a)) h ((key, value) ∷ []),
      key_ne a b d,
      append-nil (filter (has_name (canonical_header_key a)) h),
    )

unfoldable pub first_text : List Text → Text
first_text [] = []
first_text (t ∷ l) = t

first-found :
    (p : Text × Text → Bool) (h : Header)
    → first_value (find p h) ≡ first_text (map (λ (f : Text × Text). f.1) (filter p h))
unfolding first_value first_text
first-found p [] = refl
first-found p (f ∷ h) = ground (arith, first-found p h)

-- Get is the first of the values.
pub header_get-values :
    (name : Text) (h : Header) → header_get name h ≡ first_text (header_values name h)
unfolding header_get header_values
header_get-values name h = first-found (has_name (canonical_header_key name)) h
