-- ===== src/Db/Finding.antt =====
-- How insertions, updates and deletions of the rows of one key change what a query finds.
use adonis_authkit.Prelude.{
  ◌≡◌, refl, Bool, true, false, not, none, some, List, [], ◌∷◌, ◌++◌, arith, first, keep,
  Bool-cases, inl, inr, count, count-first, first-holds, ◌≤◌, ◌&&◌,
}
use adonis_authkit.Db.{amend}
use adonis_authkit.Db.Counting.{count-amend-lost, count-keep-split}

module _ {ℓ} {A : Type ℓ} (p : A → Bool) where
  pub first-append-here :
      (xs : List A) (r : A) → first p xs ≡ none → p r ≡ true → first p (xs ++ r ∷ []) ≡ some r
  first-append-here [] r h k = ground arith
  first-append-here (x ∷ xs) r h k = ground (arith, first-append-here xs r)

  pub first-append-other : (xs : List A) (r : A) → p r ≡ false → first p (xs ++ r ∷ []) ≡ first p xs
  first-append-other [] r k = ground arith
  first-append-other (x ∷ xs) r k = ground (arith, first-append-other xs r)

  pub first-keep-not : (xs : List A) → first p (keep (λ x. not (p x)) xs) ≡ none
  first-keep-not [] = refl
  first-keep-not (x ∷ xs) = ground (arith, first-keep-not xs)

  pub first-amend-here :
      (f : A → A) (xs : List A) {x : A}
      → ((y : A) → p y ≡ true → p (f y) ≡ true)
      → first p xs ≡ some x
      → first p (amend p f xs) ≡ some (f x)
  first-amend-here f [] k h = ground arith
  first-amend-here f (y ∷ xs) {x} k h = elim (Bool-cases (p y)) [
    | inl e ↦ ground (arith, k y)
    | inr e ↦ ground (arith, first-amend-here f xs {x = x} k)
  ]

module _ {ℓ} {A : Type ℓ} (p q : A → Bool) (apart : (x : A) → p x ≡ true → q x ≡ false) where
  pub first-keep-other : (xs : List A) → first q (keep (λ x. not (p x)) xs) ≡ first q xs
  first-keep-other [] = refl
  first-keep-other (x ∷ xs) = ground (arith, first-keep-other xs, apart x)

  pub first-amend-other :
      (f : A → A) (xs : List A)
      → ((y : A) → p y ≡ true → q (f y) ≡ false)
      → first q (amend p f xs) ≡ first q xs
  first-amend-other f [] k = refl
  first-amend-other f (x ∷ xs) k = ground (arith, first-amend-other f xs k, apart x, k x)

module _ {ℓ} {A : Type ℓ} (q : A → Bool) where
  pub first-count_zero : (xs : List A) → count q xs ≡ 0 → first q xs ≡ none
  first-count_zero [] h = refl
  first-count_zero (x ∷ xs) h = ground (arith, first-count_zero xs)

  -- The one row that passes is found, and an update makes it pass no more.
  pub first-amend-used :
      (p : A → Bool) (f : A → A) (xs : List A) {r : A}
      → first q xs ≡ some r
      → p r ≡ true
      → ((x : A) → q (f x) ≡ false)
      → count q xs ≤ 1
      → first q (amend p f xs) ≡ none
  first-amend-used p f xs {r} found own lost once = first-count_zero (amend p f xs) (
      omega (
        arith,
        count-amend-lost q p f lost xs,
        count-keep-split q p xs,
        count-first q (λ x. q x && p x) xs found (both (first-holds q xs found) own),
      ))
    where
      both : {a b : Bool} → a ≡ true → b ≡ true → (a && b) ≡ true
      both {a} {b} h k = rw (h, k) refl

  -- An update that keeps the test is seen in the row that is found.
  pub first-amend-kept :
      (p : A → Bool) (f : A → A)
      → ((x : A) → q (f x) ≡ q x)
      → (xs : List A) {r : A} → first q xs ≡ some r
      → p r ≡ true
      → first q (amend p f xs) ≡ some (f r)
  first-amend-kept p f h [] {r} e k = absurd (cc e)
  first-amend-kept p f h (x ∷ xs) {r} e k = elim (Bool-cases (q x)) [
    | inl here ↦ ground (arith, h x)
    | inr there ↦ ground (arith, h x, first-amend-kept p f h xs {r = r})
  ]

  -- The only row that passes a test is the one that is found, also when it was found by another.
  pub first-only :
      (p : A → Bool) (xs : List A) {r : A}
      → first p xs ≡ some r
      → q r ≡ true
      → count q xs ≤ 1
      → first q xs ≡ some r
  first-only p [] {r} e k once = absurd (cc e)
  first-only p (x ∷ xs) {r} e k once =
      ground (arith, first-only p xs {r = r}, count-first p q xs {x = r})
