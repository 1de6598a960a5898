-- ===== src/Admin/Counts.antt =====
-- How the number of the rows that satisfy a test changes with an UPDATE.
use tvpn.Base.{
  Bool, List, [], any, arith, count_where, false, refl, true, update_where, ◌&&◌, ◌+◌, ◌∷◌, ◌≡◌,
  ◌≤◌,
}

module _ {A : Type 0} (p q : A → Bool) (f : A → A) where
  -- An UPDATE takes away at most as many rows as it touches.
  pub count_where-update_where :
      (l : List A) → count_where p l ≤ count_where p (update_where q f l) + count_where q l
  count_where-update_where [] = ground arith
  count_where-update_where (x ∷ l) = ground (arith, count_where-update_where l)

  -- An UPDATE of rows that do not satisfy the test takes none away.
  pub count_where-unaffected :
      (l : List A)
      → any (λ x. q x && p x) l ≡ false
      → count_where p l ≤ count_where p (update_where q f l)
  count_where-unaffected [] h = ground arith
  count_where-unaffected (x ∷ l) h = ground (arith, count_where-unaffected l)

  -- An UPDATE that keeps the test of every row takes none away.
  pub count_where-kept :
      (l : List A)
      → ((x : A) → p x ≡ true → p (f x) ≡ true)
      → count_where p l ≤ count_where p (update_where q f l)
  count_where-kept [] keeps = ground arith
  count_where-kept (x ∷ l) keeps = ground (arith, count_where-kept l keeps, keeps x)

  -- An UPDATE that leaves the test of the rows that it touches as it is.
  pub count_where-same :
      (l : List A)
      → ((x : A) → q x ≡ true → p (f x) ≡ p x)
      → count_where p (update_where q f l) ≡ count_where p l
  count_where-same [] same = refl
  count_where-same (x ∷ l) same = ground (arith, count_where-same l same, same x)

  -- An UPDATE after which no row that it touched satisfies the test takes away those that did.
  pub count_where-removed :
      (l : List A)
      → ((x : A) → p (f x) ≡ false)
      → count_where p (update_where q f l) + count_where (λ x. q x && p x) l ≡ count_where p l
  count_where-removed [] gone = refl
  count_where-removed (x ∷ l) gone = ground (arith, count_where-removed l gone, gone x)

module _ {A : Type 0} (p q : A → Bool) where
  -- A row that is there is counted.
  pub count_where-any :
      (l : List A) → any (λ x. q x && p x) l ≡ true → 1 ≤ count_where (λ x. q x && p x) l
  count_where-any [] h = cc
  count_where-any (x ∷ l) h = ground (arith, count_where-any l)

  -- A stricter test counts no more.
  pub count_where-le : (l : List A) → count_where (λ x. q x && p x) l ≤ count_where q l
  count_where-le [] = ground arith
  count_where-le (x ∷ l) = ground (arith, count_where-le l)

pub count_where-none :
    {A : Type 0} (p q : A → Bool) (l : List A)
    → ((x : A) → p x ≡ true → q x ≡ true)
    → any q l ≡ false
    → count_where p l ≡ 0
count_where-none p q [] sub h = refl
count_where-none p q (x ∷ l) sub h = ground (arith, count_where-none p q l sub, sub x)
