-- ===== src/Db/Counting.antt =====
-- How deletions and updates change the number of rows that pass a test.
use adonis_authkit.Prelude.{
  ◌+◌, ◌≤◌, ◌≡◌, refl, Bool, true, false, not, ◌&&◌, some, List, [], ◌∷◌, arith, first, keep, count,
  count-first,
}
use adonis_authkit.Db.{amend}

module _ {ℓ} {A : Type ℓ} (p q : A → Bool) where
  pub count-keep-split :
      (xs : List A) → count p xs ≡ count p (keep (λ x. not (q x)) xs) + count (λ x. p x && q x) xs
  count-keep-split [] = refl
  count-keep-split (x ∷ xs) = ground (arith, count-keep-split xs)

  pub count-and-le : (xs : List A) → count (λ x. p x && q x) xs ≤ count q xs
  count-and-le [] = omega arith
  count-and-le (x ∷ xs) = ground (arith, count-and-le xs)

  -- Rows that pass `p` survive in an update of others.
  pub count-keep-le-amend :
      (f : A → A) (xs : List A) → count p (keep (λ x. not (q x)) xs) ≤ count p (amend q f xs)
  count-keep-le-amend f [] = omega arith
  count-keep-le-amend f (x ∷ xs) = ground (arith, count-keep-le-amend f xs)

  pub count-le-amend :
      (f : A → A)
      → ((x : A) → p x ≡ true → p (f x) ≡ true)
      → (xs : List A) → count p xs ≤ count p (amend q f xs)
  count-le-amend f h [] = omega arith
  count-le-amend f h (x ∷ xs) = ground (arith, count-le-amend f h xs, h x)

  -- The row that a query found, with its key, is the only one with that key.
  pub count_unique :
      (f : A → Bool) (xs : List A) {r : A}
      → first f xs ≡ some r
      → q r ≡ true
      → count q xs ≤ 1
      → p r ≡ false
      → count (λ x. p x && q x) xs ≡ 0
  count_unique f [] e k u n = ground arith
  count_unique f (x ∷ xs) {r} e k u n =
      ground (arith, count_unique f xs {r = r}, count-and-le xs, count-first f q xs {x = r})

  -- Nothing that passes `q` is left.
  pub count-keep-none : (xs : List A) → count q (keep (λ x. not (q x)) xs) ≡ 0
  count-keep-none [] = refl
  count-keep-none (x ∷ xs) = ground (arith, count-keep-none xs)

  -- A deletion of other rows leaves the count.
  pub count-keep-other :
      ((x : A) → p x ≡ true → q x ≡ false)
      → (xs : List A) → count p (keep (λ x. not (q x)) xs) ≡ count p xs
  count-keep-other h [] = refl
  count-keep-other h (x ∷ xs) = ground (arith, count-keep-other h xs, h x)

  -- An update after which no row passes `p` keeps the rows that it does not reach.
  pub count-amend-lost :
      (f : A → A)
      → ((x : A) → p (f x) ≡ false)
      → (xs : List A) → count p (amend q f xs) ≡ count p (keep (λ x. not (q x)) xs)
  count-amend-lost f h [] = refl
  count-amend-lost f h (x ∷ xs) = ground (arith, count-amend-lost f h xs, h x)

  -- An update that leaves the test leaves the count.
  pub count-amend-same :
      (f : A → A) → ((x : A) → p (f x) ≡ p x) → (xs : List A) → count p (amend q f xs) ≡ count p xs
  count-amend-same f h [] = refl
  count-amend-same f h (x ∷ xs) = ground (arith, count-amend-same f h xs, h x)

  -- At most the rows that an update reaches are new among those that pass.
  pub count-amend-le :
      (f : A → A)
      → (xs : List A) → count p (amend q f xs) ≤ count p (keep (λ x. not (q x)) xs) + count q xs
  count-amend-le f [] = omega arith
  count-amend-le f (x ∷ xs) = ground (arith, count-amend-le f xs)
