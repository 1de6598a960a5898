-- ===== src/Auth/Scopes.antt =====
-- What ValidateScopes accepts.
use tvpn.Auth.{in_scopes, scope_admin, scope_proxy, scope_required, validate_from, validate_scopes}
use tvpn.Base.{
  >>=-eq-ok, All, Bool, Bool-cases, List, [], ap, arith, fail_if, false, if◌then◌else◌, inl, inr,
  length, list_eq, nat_eq, ok, ok-injective, refl, sym, text_eq_iff, true, ◌++◌, ◌==◌, ◌>>◌, ◌||◌,
  ◌∙◌, ◌∷◌, ◌≡◌, ◌≢◌, ◌⊎◌,
}
use tvpn.Text.{Text, trim_space}

-- Each scope once.
abbrev pub IsDistinct : List Text → Type 0
IsDistinct [] = Unit
IsDistinct (s ∷ l) = (in_scopes s l ≡ false) × IsDistinct l

-- A scope that a user may have: proxy, or admin for an administrator.
abbrev pub MayHold : Bool → Text → Type 0
MayHold admin scope = (scope ≡ scope_proxy) ⊎ ((scope ≡ scope_admin) × (admin ≡ true))

-- The contract of ValidateScopes.
pub record IsGrantable (admin : Bool) (scopes : List Text) : Type 0 where
  pub some_scope : length scopes ≢ 0
  pub permitted : All (MayHold admin) scopes
  pub distinct : IsDistinct scopes

in_scopes-append :
    (s : Text) (l k : List Text) → in_scopes s (l ++ k) ≡ (in_scopes s l || in_scopes s k)
in_scopes-append s [] k = refl
in_scopes-append s (t ∷ l) k = ground (arith, in_scopes-append s l k)

text_eq-sym : (s t : Text) → (s == t) ≡ (t == s)
text_eq-sym s t = ground (arith, text_eq_iff s t, text_eq_iff t s)

IsDistinct-append :
    (l : List Text) (s : Text) → IsDistinct l → in_scopes s l ≡ false → IsDistinct (l ++ (s ∷ []))
IsDistinct-append [] s d h = (refl, tt)
IsDistinct-append (t ∷ l) s d h = (
  ground (arith, d.0, in_scopes-append t l (s ∷ []), text_eq-sym s t),
  IsDistinct-append l s d.1 (ground arith),
)

All-append_one :
    (P : Text → Type 0) (l : List Text) (s : Text) → All P l → P s → All P (l ++ (s ∷ []))
All-append_one P [] s a h = (h, tt)
All-append_one P (t ∷ l) s a h = (a.0, All-append_one P l s a.1 h)

validate_from-IsGrantable :
    (admin : Bool) (result scopes : List Text) {granted : List Text}
    → All (MayHold admin) result
    → IsDistinct result
    → validate_from admin result scopes ≡ ok granted
    → All (MayHold admin) granted × IsDistinct granted
unfolding validate_from
validate_from-IsGrantable admin result [] a d h = rw (← ok-injective h) (a, d)
validate_from-IsGrantable admin result (raw ∷ scopes) {granted = granted} a d h =
    let scope = trim_space raw in
    let kept = if in_scopes scope result then result else result ++ (scope ∷ []) in
    let rest : validate_from admin kept scopes ≡ ok granted = ground arith in
    let may : MayHold admin scope =
      ground (arith, text_eq_iff scope scope_proxy, text_eq_iff scope scope_admin) in
    elim (Bool-cases (in_scopes scope result)) [
      | inl seen ↦ validate_from-IsGrantable admin result scopes {granted = granted} a d (
          ap (λ b. validate_from admin (if b then result else result ++ (scope ∷ [])) scopes)
            (sym seen)
          ∙ rest)
      | inr fresh ↦
          validate_from-IsGrantable admin (result ++ (scope ∷ [])) scopes {granted = granted}
            (All-append_one (MayHold admin) result scope a may)
            (IsDistinct-append result scope d fresh)
            (ap (λ b. validate_from admin (if b then result else result ++ (scope ∷ [])) scopes)
                (sym fresh)
              ∙ rest)
    ]

nonempty-ok :
    (result granted : List Text)
    → (fail_if (length result == 0) scope_required >> ok result) ≡ ok granted
    → (length result ≢ 0) × (result ≡ granted)
nonempty-ok [] granted h = cc
nonempty-ok (s ∷ l) granted h =
    let (u, passed, e) = >>=-eq-ok (fail_if (length (s ∷ l) == 0) scope_required) _ h in
    (ground arith, ok-injective e)

-- What ValidateScopes returns without an error is not empty, has no scope twice, and every scope of it
-- is proxy, or admin where the user is an administrator.
pub validate_scopes-IsGrantable :
    (scopes : List Text) (admin : Bool) (granted : List Text)
    → validate_scopes scopes admin ≡ ok granted
    → IsGrantable admin granted
unfolding validate_scopes
validate_scopes-IsGrantable scopes admin granted h =
    let (result, found, h') = >>=-eq-ok (validate_from admin [] scopes) _ h in
    let (some_scope, same) = nonempty-ok result granted h' in
    let (permitted, distinct) =
      validate_from-IsGrantable admin [] scopes {granted = result} tt tt found in
    rw (← same) (record { some_scope = some_scope; permitted = permitted; distinct = distinct })
