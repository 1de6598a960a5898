-- ===== src/Base/Lists.antt =====
-- Lists measured and searched over the native numbers, and predicates on their elements.
use Prim.Native.Nat.{ℕ, zero, suc, ◌+◌}
use mathlib.Core.Path.{◌≡◌, refl, ap}
use mathlib.Core.Logic.{◌⊎◌, inl, inr}
use mathlib.Core.Bool.{Bool, true, false, ◌&&◌, ◌||◌}
use mathlib.Core.Option.{Option, none, some}
use mathlib.Core.List.{List, [], ◌∷◌, ◌++◌, map, Memᴰ}
use native.Mathlib.Omega.{arith}
use native.Mathlib.Nat.{zero-add, add-zero, suc-add}
use tvpn.Base.Tests.{if◌then◌else◌, Bool-cases}

module _ {ℓ} {A : Type ℓ} where
  abbrev pub length : List A → ℕ
  length [] = 0
  length (x ∷ xs) = suc (length xs)

  abbrev pub take : ℕ → List A → List A
  take zero xs = []
  take (suc n) [] = []
  take (suc n) (x ∷ xs) = x ∷ take n xs

  abbrev pub drop : ℕ → List A → List A
  drop zero xs = xs
  drop (suc n) [] = []
  drop (suc n) (x ∷ xs) = drop n xs

  abbrev pub any : (A → Bool) → List A → Bool
  any p [] = false
  any p (x ∷ xs) = p x || any p xs

  abbrev pub all : (A → Bool) → List A → Bool
  all p [] = true
  all p (x ∷ xs) = p x && all p xs

  -- The rows of a table that satisfy a WHERE clause.
  abbrev pub filter : (A → Bool) → List A → List A
  filter p [] = []
  filter p (x ∷ xs) = let rest = filter p xs in if p x then x ∷ rest else rest

  -- The first row that satisfies a WHERE clause.
  abbrev pub find : (A → Bool) → List A → Option A
  find p [] = none
  find p (x ∷ xs) = let rest = find p xs in if p x then some x else rest

  -- UPDATE … WHERE: the rows that satisfy the test are changed.
  abbrev pub update_where : (A → Bool) → (A → A) → List A → List A
  update_where p f [] = []
  update_where p f (x ∷ xs) = (if p x then f x else x) ∷ update_where p f xs

  -- The number of rows that satisfy a test.
  abbrev pub count_where : (A → Bool) → List A → ℕ
  count_where p [] = 0
  count_where p (x ∷ xs) = (if p x then 1 else 0) + count_where p xs

  pub length-append : (xs ys : List A) → length (xs ++ ys) ≡ length xs + length ys
  length-append [] ys = omega arith
  length-append (x ∷ xs) ys = omega (arith, length-append xs ys)

module _ {ℓ κ} {A : Type ℓ} where
  abbrev pub All : (A → Type κ) → List A → Type κ
  All P [] = Unit
  All P (x ∷ xs) = P x × All P xs

module _ {ℓ} {A : Type ℓ} where
  pub any_sound :
      (p : A → Bool) (xs : List A) → any p xs ≡ true → (x : A) × Memᴰ x xs × (p x ≡ true)
  any_sound p [] h = cc
  any_sound p (x ∷ xs) h = elim (Bool-cases (p x)) [
    | inl hit ↦ (x, Memᴰ.head refl, hit)
    | inr miss ↦ let (y, m, hy) = any_sound p xs (ground arith) in (y, Memᴰ.tail m, hy)
  ]

  pub any_complete : (p : A → Bool) {x : A} {xs : List A} → Memᴰ x xs → p x ≡ true → any p xs ≡ true
  any_complete p (Memᴰ.head e) h = rw (← e, h)
  any_complete p (Memᴰ.tail {x = y} m) h = ground (arith, any_complete p m h)

  pub all_sound : (p : A → Bool) {x : A} {xs : List A} → all p xs ≡ true → Memᴰ x xs → p x ≡ true
  all_sound p h (Memᴰ.head e) = rw e (ground arith)
  all_sound p h (Memᴰ.tail {x = y} m) = all_sound p (ground arith) m

  pub find_sound :
      (p : A → Bool) (xs : List A) {x : A} → find p xs ≡ some x → Memᴰ x xs × (p x ≡ true)
  find_sound p [] h = cc
  find_sound p (y ∷ xs) h = elim (Bool-cases (p y)) [
    | inl hit ↦ (Memᴰ.head (ground arith), ground arith)
    | inr miss ↦ let (m, hx) = find_sound p xs (ground arith) in (Memᴰ.tail m, hx)
  ]

  pub find-none : (p : A → Bool) {x : A} {xs : List A} → find p xs ≡ none → Memᴰ x xs → p x ≡ false
  find-none p h (Memᴰ.head e) = rw e (ground arith)
  find-none p h (Memᴰ.tail {x = y} m) = find-none p (ground arith) m

module _ {ℓ κ} {A : Type ℓ} (P : A → Type κ) where
  pub All-append_left : (xs ys : List A) → All P (xs ++ ys) → All P xs
  All-append_left [] ys h = tt
  All-append_left (x ∷ xs) ys h = (h.0, All-append_left xs ys h.1)

  pub All-intro : (xs : List A) → ((x : A) → Memᴰ x xs → P x) → All P xs
  All-intro [] h = tt
  All-intro (x ∷ xs) h = (h x (Memᴰ.head refl), All-intro xs (λ y m. h y (Memᴰ.tail m)))

  pub All-at : {x : A} {xs : List A} → All P xs → Memᴰ x xs → P x
  All-at h (Memᴰ.head e) = rw e h.0
  All-at h (Memᴰ.tail {x = y} m) = All-at h.1 m

module _ {ℓ} {A : Type ℓ} where
  -- The test of the element at a position.
  abbrev pub test_at : (A → Bool) → List A → ℕ → Bool
  test_at p [] i = false
  test_at p (x ∷ xs) zero = p x
  test_at p (x ∷ xs) (suc i) = test_at p xs i

  pub any_at : (p : A → Bool) (xs : List A) (i : ℕ) → test_at p xs i ≡ true → any p xs ≡ true
  any_at p [] i h = cc
  any_at p (x ∷ xs) zero h = ground arith
  any_at p (x ∷ xs) (suc i) h = ground (arith, any_at p xs i h)

  pub mem-cases : {x y : A} {xs : List A} → Memᴰ x (y ∷ xs) → (x ≡ y) ⊎ Memᴰ x xs
  mem-cases (Memᴰ.head e) = inl e
  mem-cases (Memᴰ.tail m) = inr m

  filter-mem_keep :
      (p : A → Bool) {x y : A} (xs : List A)
      → p y ≡ true
      → (Memᴰ x (filter p xs) → Memᴰ x xs × (p x ≡ true))
      → Memᴰ x (y ∷ filter p xs)
      → Memᴰ x (y ∷ xs) × (p x ≡ true)
  filter-mem_keep p xs keep rest (Memᴰ.head e) = (Memᴰ.head e, rw e keep)
  filter-mem_keep p xs keep rest (Memᴰ.tail m) = let (n, h) = rest m in (Memᴰ.tail n, h)

  pub filter-mem :
      (p : A → Bool) {x : A} (xs : List A) → Memᴰ x (filter p xs) → Memᴰ x xs × (p x ≡ true)
  filter-mem p [] m = elim m [ ]
  filter-mem p (y ∷ xs) m = elim (Bool-cases (p y)) [
    | inl keep ↦ filter-mem_keep p xs keep (filter-mem p xs) (rw keep at m)
    | inr skip ↦ let (n, h) = filter-mem p xs (rw skip at m) in (Memᴰ.tail n, h)
  ]

  pub mem-filter :
      (p : A → Bool) {x : A} {xs : List A} → Memᴰ x xs → p x ≡ true → Memᴰ x (filter p xs)
  mem-filter p (Memᴰ.head {x = y} {xs = xs} e) h = rw (← e, h) (Memᴰ.head refl)
  mem-filter p (Memᴰ.tail {x = y} m) h = elim (Bool-cases (p y)) [
    | inl keep ↦ rw keep (Memᴰ.tail (mem-filter p m h))
    | inr skip ↦ rw skip (mem-filter p m h)
  ]

module _ {ℓ κ} {A : Type ℓ} {B : Type κ} where
  pub map-mem : (f : A → B) {x : A} {xs : List A} → Memᴰ x xs → Memᴰ (f x) (map f xs)
  map-mem f (Memᴰ.head e) = Memᴰ.head (ap f e)
  map-mem f (Memᴰ.tail m) = Memᴰ.tail (map-mem f m)

  pub mem-map :
      (f : A → B) {y : B} (xs : List A) → Memᴰ y (map f xs) → (x : A) × Memᴰ x xs × (y ≡ f x)
  mem-map f [] m = elim m [ ]
  mem-map f (x ∷ xs) (Memᴰ.head e) = (x, Memᴰ.head refl, e)
  mem-map f (x ∷ xs) (Memᴰ.tail m) = let (z, n, e) = mem-map f xs m in (z, Memᴰ.tail n, e)

module _ {ℓ} {A : Type ℓ} where
  pub take_exact : (n : ℕ) (xs ys : List A) → length xs ≡ n → take n (xs ++ ys) ≡ xs
  take_exact zero [] ys h = refl
  take_exact zero (x ∷ xs) ys h = absurd (omega arith)
  take_exact (suc n) [] ys h = absurd (omega arith)
  take_exact (suc n) (x ∷ xs) ys h = cc (take_exact n xs ys (omega arith))

  pub drop_exact : (n : ℕ) (xs ys : List A) → length xs ≡ n → drop n (xs ++ ys) ≡ ys
  drop_exact zero [] ys h = refl
  drop_exact zero (x ∷ xs) ys h = absurd (omega arith)
  drop_exact (suc n) [] ys h = absurd (omega arith)
  drop_exact (suc n) (x ∷ xs) ys h = drop_exact n xs ys (omega arith)

  pub drop-add : (m n : ℕ) (xs : List A) → drop (m + n) xs ≡ drop n (drop m xs)
  drop-add zero n xs = rw zero-add
  drop-add (suc m) zero [] = rw add-zero
  drop-add (suc m) (suc n) [] = rw suc-add
  drop-add (suc m) n (x ∷ xs) = rw suc-add (drop-add m n xs)
