-- ===== src/Text/Laws.antt =====
-- What the tests on texts mean.
use tvpn.Base.{
  Bool-cases, [], ap, arith, inl, inr, length, list_eq, nat_eq, refl, text_eq_iff, text_eq_self,
  true, ℕ, ◌++◌, ◌==◌, ◌↔◌, ◌∷◌, ◌≡◌,
}
use tvpn.Text.{Text, equal_fold, has_prefix, has_suffix, lower_byte, to_lower}

has_suffix_sound : (s suffix : Text) → has_suffix s suffix ≡ true → (t : Text) × (s ≡ t ++ suffix)
unfolding has_suffix
has_suffix_sound [] suffix h = ([], (text_eq_iff [] suffix).0 h)
has_suffix_sound (c ∷ s) suffix h = elim (Bool-cases ((c ∷ s) == suffix)) [
  | inl same ↦ ([], (text_eq_iff (c ∷ s) suffix).0 same)
  | inr other ↦
      let (t, e) = has_suffix_sound s suffix (ground arith) in (c ∷ t, ap (λ (l : Text). c ∷ l) e)
]

has_suffix_self : (s : Text) → has_suffix s s ≡ true
unfolding has_suffix
has_suffix_self [] = text_eq_self []
has_suffix_self (c ∷ s) = ground (arith, text_eq_self (c ∷ s))

has_suffix_append : (t suffix : Text) → has_suffix (t ++ suffix) suffix ≡ true
unfolding has_suffix
has_suffix_append [] suffix = has_suffix_self suffix
has_suffix_append (c ∷ t) suffix = ground (arith, has_suffix_append t suffix)

-- A text has a suffix exactly when it is something followed by the suffix.
pub has_suffix_iff :
    (s suffix : Text) → (has_suffix s suffix ≡ true) ↔ ((t : Text) × (s ≡ t ++ suffix))
has_suffix_iff s suffix = (has_suffix_sound s suffix, λ w. rw w.1 (has_suffix_append w.0 suffix))

has_prefix_sound : (s prefix : Text) → has_prefix s prefix ≡ true → (t : Text) × (s ≡ prefix ++ t)
unfolding has_prefix
has_prefix_sound s [] h = (s, refl)
has_prefix_sound [] (p ∷ ps) h = cc
has_prefix_sound (c ∷ s) (p ∷ ps) h =
    let (t, e) = has_prefix_sound s ps (ground arith) in (t, ground (arith, e))

has_prefix_append : (prefix t : Text) → has_prefix (prefix ++ t) prefix ≡ true
unfolding has_prefix
has_prefix_append [] t = refl
has_prefix_append (p ∷ ps) t = ground (arith, has_prefix_append ps t)

-- A text has a prefix exactly when it is the prefix followed by something.
pub has_prefix_iff :
    (s prefix : Text) → (has_prefix s prefix ≡ true) ↔ ((t : Text) × (s ≡ prefix ++ t))
has_prefix_iff s prefix = (has_prefix_sound s prefix, λ w. rw w.1 (has_prefix_append prefix w.0))

lower_byte_idem : (c : ℕ) → lower_byte (lower_byte c) ≡ lower_byte c
lower_byte_idem c = ground arith

pub to_lower_idem : (s : Text) → to_lower (to_lower s) ≡ to_lower s
unfolding to_lower
to_lower_idem [] = refl
to_lower_idem (c ∷ s) = cc (lower_byte_idem c, to_lower_idem s)

pub to_lower-append : (s t : Text) → to_lower (s ++ t) ≡ to_lower s ++ to_lower t
unfolding to_lower
to_lower-append [] t = refl
to_lower-append (c ∷ s) t = cc (to_lower-append s t)

-- Two texts are equal under case folding exactly when they have the same lower case.
pub equal_fold_iff : (s t : Text) → (equal_fold s t ≡ true) ↔ (to_lower s ≡ to_lower t)
unfolding equal_fold
equal_fold_iff s t = text_eq_iff (to_lower s) (to_lower t)

pub length-to_lower : (s : Text) → length (to_lower s) ≡ length s
unfolding to_lower
length-to_lower [] = refl
length-to_lower (c ∷ s) = omega (arith, length-to_lower s)
