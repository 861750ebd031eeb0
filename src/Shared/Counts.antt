-- ===== src/Shared/Counts.antt =====
-- How counts and lookups over a table change under an update.
use Prim.Native.Nat.{ℕ, suc, ◌+◌, ◌≤◌}
use mathlib.Core.Path.{◌≡◌, refl}
use mathlib.Core.Bool.{Bool, true, false, ◌&&◌}
use mathlib.Core.Option.{none, some}
use mathlib.Core.List.{List, [], ◌∷◌}
use native.Mathlib.Omega.{arith}
use movie_api.Shared.Tests.{◌==◌}
use movie_api.Shared.Rows.{length, first, count, update, insert_by, sort_by}

-- 1 for true, so that counts are sums.
abbrev pub bit : Bool → ℕ
bit true = 1
bit false = 0

module _ {ℓ} {A : Type ℓ} where
  pub first-true : (p : A → Bool) (xs : List A) {x : A} → first p xs ≡ some x → p x ≡ true
  first-true p [] h = cc
  first-true p (y ∷ ys) {x} h = ground (arith, first-true p ys {x = x})

  pub update_of_none :
      (p : A → Bool) (f : A → A) (xs : List A) → first p xs ≡ none → update p f xs ≡ xs
  update_of_none p f [] h = refl
  update_of_none p f (x ∷ xs) h = ground (arith, update_of_none p f xs)

  pub count_le :
      (p q : A → Bool) (xs : List A) → ((x : A) → p x ≡ true → q x ≡ true) → count p xs ≤ count q xs
  count_le p q [] h = omega arith
  count_le p q (x ∷ xs) h = ground (arith, count_le p q xs h, h x)

  pub count-update_le :
      (p q : A → Bool) (f : A → A) (xs : List A)
      → ((x : A) → p (f x) ≡ true → p x ≡ true)
      → count p (update q f xs) ≤ count p xs
  count-update_le p q f [] h = omega arith
  count-update_le p q f (x ∷ xs) h = ground (arith, count-update_le p q f xs h, h x)

module _ {ℓ} {A : Type ℓ} (before : A → A → Bool) where
  length-insert_by : (x : A) (xs : List A) → length (insert_by before x xs) ≡ suc (length xs)
  length-insert_by x [] = refl
  length-insert_by x (y ∷ ys) = ground (arith, length-insert_by x ys)

  -- Sorting keeps the number of rows,
  pub length-sort_by : (xs : List A) → length (sort_by before xs) ≡ length xs
  length-sort_by [] = refl
  length-sort_by (x ∷ xs) =
      ground (arith, length-insert_by x (sort_by before xs), length-sort_by xs)

  count-insert_by :
      (p : A → Bool) (x : A) (xs : List A) → count p (insert_by before x xs) ≡ count p (x ∷ xs)
  count-insert_by p x [] = refl
  count-insert_by p x (y ∷ ys) = ground (arith, count-insert_by p x ys)

  -- and of those that pass a test.
  pub count-sort_by : (p : A → Bool) (xs : List A) → count p (sort_by before xs) ≡ count p xs
  count-sort_by p [] = refl
  count-sort_by p (x ∷ xs) =
      ground (arith, count-insert_by p x (sort_by before xs), count-sort_by p xs)

module _ {ℓ} {A : Type ℓ} (key : A → ℕ) where
  -- No two rows have the same key.
  abbrev pub Unique : List A → Type ℓ
  Unique [] = Unit
  Unique (x ∷ xs) = (first (λ y. key y == key x) xs ≡ none) × Unique xs

  first-update-none :
      (q : A → Bool) (f : A → A) (k : ℕ) (xs : List A)
      → ((x : A) → key (f x) ≡ key x)
      → first (λ y. key y == k) xs ≡ none
      → first (λ y. key y == k) (update q f xs) ≡ none
  first-update-none q f k [] h e = refl
  first-update-none q f k (x ∷ xs) h e = ground (arith, first-update-none q f k xs h, h x)

  pub update-Unique :
      (q : A → Bool) (f : A → A) (xs : List A)
      → ((x : A) → key (f x) ≡ key x)
      → Unique xs
      → Unique (update q f xs)
  update-Unique q f [] h u = tt
  update-Unique q f (x ∷ xs) h u =
      (ground (arith, first-update-none q f (key x) xs h u.0, h x), update-Unique q f xs h u.1)

  pub first_of_both :
      (q : A → Bool) (k : ℕ) (xs : List A) {r : A}
      → Unique xs
      → first (λ y. key y == k && q y) xs ≡ some r
      → first (λ y. key y == k) xs ≡ some r
  first_of_both q k [] u e = cc
  first_of_both q k (x ∷ xs) {r} u e =
      ground
        (arith, first_of_both q k xs {r = r} u.1, first-true (λ y. key y == k && q y) xs {x = r})

  -- Where a test fixes the key, the row that it finds is the row of the key,
  pub key_of_first :
      (p : A → Bool) (k : ℕ) (xs : List A) {r : A}
      → ((x : A) → p x ≡ true → key x ≡ k)
      → Unique xs
      → first p xs ≡ some r
      → first (λ y. key y == k) xs ≡ some r
  key_of_first p k [] fixes u e = cc
  key_of_first p k (x ∷ xs) {r} fixes u e =
      ground
        (arith, fixes x, fixes r, key_of_first p k xs {r = r} fixes u.1, first-true p xs {x = r})

  -- and the row of the key, if it passes the test, is what the test finds.
  pub first_of_key :
      (p : A → Bool) (k : ℕ) (xs : List A) {r : A}
      → ((x : A) → p x ≡ true → key x ≡ k)
      → p r ≡ true
      → first (λ y. key y == k) xs ≡ some r
      → first p xs ≡ some r
  first_of_key p k [] fixes ok e = cc
  first_of_key p k (x ∷ xs) {r} fixes ok e =
      ground (arith, fixes x, first_of_key p k xs {r = r} fixes ok)

  pub count-update :
      (p : A → Bool) (f : A → A) (k : ℕ) (xs : List A) {r : A}
      → Unique xs
      → first (λ y. key y == k) xs ≡ some r
      → count p (update (λ y. key y == k) f xs) + bit (p r) ≡ count p xs + bit (p (f r))
  count-update p f k [] u e = cc
  count-update p f k (x ∷ xs) {r} u e =
      ground
        (arith, count-update p f k xs {r = r} u.1, update_of_none (λ y. key y == key x) f xs u.0)
