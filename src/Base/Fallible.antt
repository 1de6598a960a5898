-- ===== src/Base/Fallible.antt =====
-- Results of fallible code, with the error as a value.
use mathlib.Core.Path.{◌≡◌, refl}
use mathlib.Core.Logic.{◌⊎◌, inl, inr}
use mathlib.Core.Bool.{Bool, true, false}

-- What a Go function with an error result gives.
pub data Result {ℓ κ} (E : Type κ) (A : Type ℓ) : Type (ℓ ⊔ κ) where
  ok : A → Result E A
  err : E → Result E A

module _ {ν} {E : Type ν} where
  -- `if test { return error }`
  abbrev pub fail_if : Bool → E → Result E (Unit {0})
  fail_if test reason = elim test [ true ↦ err reason | false ↦ ok tt ]

  pub fail_if-false :
      (test : Bool) (reason : E) {u : Unit {0}} → fail_if test reason ≡ ok u → test ≡ false
  fail_if-false false reason passed = refl
  fail_if-false true reason passed = cc

  module _ {ℓ} {A : Type ℓ} where
    pub Result-cases :
        (r : Result E A) → ((value : A) × (r ≡ ok value)) ⊎ ((reason : E) × (r ≡ err reason))
    Result-cases (err reason) = inr (reason, refl)
    Result-cases (ok value) = inl (value, refl)

    pub ok-injective : {a b : A} → ◌≡◌ {A = Result E A} (ok a) (ok b) → a ≡ b
    ok-injective h = cc

    infixl 5 ◌>>=◌
    -- The early return of an error.
    abbrev pub ◌>>=◌ {κ} : {B : Type κ} → Result E A → (A → Result E B) → Result E B
    r >>= next = elim r [ err reason ↦ err reason | ok value ↦ next value ]

    pub >>=-eq-ok {κ} :
        {B : Type κ} (r : Result E A) (next : A → Result E B) {b : B}
        → (r >>= next) ≡ ok b
        → (value : A) × (r ≡ ok value) × (next value ≡ ok b)
    >>=-eq-ok (err reason) next h = cc
    >>=-eq-ok (ok value) next h = (value, refl, h)

  infixl 5 ◌>>◌
  abbrev pub ◌>>◌ {κ} : {B : Type κ} → Result E (Unit {0}) → Result E B → Result E B
  check >> rest = check >>= λ passed. rest
