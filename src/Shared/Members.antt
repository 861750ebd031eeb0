-- ===== src/Shared/Members.antt =====
-- Which rows a query answers: membership in a selection, a sorted list and an updated table.
use Prim.Native.Nat.{ℕ, zero, suc}
use mathlib.Core.Path.{◌≡◌, refl, sym, ap, subst, ◌∙◌}
use mathlib.Core.Logic.{inl, inr, ◌↔◌}
use mathlib.Core.Bool.{Bool, true, false}
use mathlib.Core.Option.{none, some}
use mathlib.Core.List.{List, [], ◌∷◌}
use native.Mathlib.Omega.{arith}
use movie_api.Shared.Tests.{if◌then◌else◌, Bool-cases, ◌==◌, ==_iff}
use movie_api.Shared.Counts.{Unique}
use movie_api.Shared.Rows.{first, exists, select, update, take, insert_by, sort_by, All, In}

module _ {A : Type 0} where
  In-select_of : (p : A → Bool) (x : A) (xs : List A) → p x ≡ true → In x xs → In x (select p xs)
  In-select_of p x [] e i = i
  In-select_of p x (y ∷ xs) e i = ground (arith, In-select_of p x xs e)

  In-of_select : (p : A → Bool) (x : A) (xs : List A) → In x (select p xs) → In x xs × (p x ≡ true)
  In-of_select p x [] i = absurd i
  In-of_select p x (y ∷ xs) i = ground (arith, In-of_select p x xs)

  -- A selection holds the rows of the table that pass the test.
  pub In-select :
      (p : A → Bool) (x : A) (xs : List A) → In x (select p xs) ↔ (In x xs × (p x ≡ true))
  In-select p x xs = (In-of_select p x xs, λ b. In-select_of p x xs b.1 b.0)

  -- The first rows are rows.
  pub In-take : (n : ℕ) (x : A) (xs : List A) → In x (take n xs) → In x xs
  In-take zero x xs i = absurd i
  In-take (suc n) x [] i = absurd i
  In-take (suc n) x (y ∷ xs) i = ground (arith, In-take n x xs)

  pub In-first : (p : A → Bool) (xs : List A) {x : A} → first p xs ≡ some x → In x xs
  In-first p [] e = cc
  In-first p (y ∷ xs) {x} e = ground (arith, In-first p xs {x = x})

  pub In-update_other :
      (q : A → Bool) (f : A → A) (x : A) (xs : List A)
      → q x ≡ false
      → In x xs
      → In x (update q f xs)
  In-update_other q f x [] e i = i
  In-update_other q f x (y ∷ xs) e i = ground (arith, In-update_other q f x xs e)

module _ {A : Type 0} (before : A → A → Bool) where
  In-insert_by : (x y : A) (xs : List A) → In x (y ∷ xs) → In x (insert_by before y xs)
  In-insert_by x y [] i = i
  In-insert_by x y (z ∷ xs) i = ground (arith, In-insert_by x y xs)

  In-of_insert_by : (x y : A) (xs : List A) → In x (insert_by before y xs) → In x (y ∷ xs)
  In-of_insert_by x y [] i = i
  In-of_insert_by x y (z ∷ xs) i = ground (arith, In-of_insert_by x y xs)

  In-sort_by_of : (x : A) (xs : List A) → In x xs → In x (sort_by before xs)
  In-sort_by_of x [] i = i
  In-sort_by_of x (y ∷ xs) i =
      In-insert_by x y (sort_by before xs) (ground (arith, In-sort_by_of x xs))

  In-of_sort_by : (x : A) (xs : List A) → In x (sort_by before xs) → In x xs
  In-of_sort_by x [] i = i
  In-of_sort_by x (y ∷ xs) i =
      ground (arith, In-of_insert_by x y (sort_by before xs) i, In-of_sort_by x xs)

  -- Sorting keeps the rows.
  pub In-sort_by : (x : A) (xs : List A) → In x (sort_by before xs) ↔ In x xs
  In-sort_by x xs = (In-of_sort_by x xs, In-sort_by_of x xs)

-- Every row stands in the given relation to each row behind it.
abbrev pub IsOrdered {ℓ κ} : {A : Type ℓ} → (A → A → Type κ) → List A → Type κ
IsOrdered R [] = Unit
IsOrdered R (x ∷ xs) = All (R x) xs × IsOrdered R xs

-- What holds of every row holds of a row.
pub All-In : {A : Type 0} (P : A → Type 0) (xs : List A) {x : A} → All P xs → In x xs → P x
All-In P [] h i = absurd i
All-In P (y ∷ ys) h (inl e) = subst P e h.0
All-In P (y ∷ ys) h (inr i) = All-In P ys h.1 i

module _ {ℓ κ} {A : Type ℓ} where
  pub All-map : (P Q : A → Type κ) (xs : List A) → ((x : A) → P x → Q x) → All P xs → All Q xs
  All-map P Q [] f h = tt
  All-map P Q (x ∷ xs) f h = (f x h.0, All-map P Q xs f h.1)

  All-insert_by :
      (before : A → A → Bool) (P : A → Type κ) (x : A) (xs : List A)
      → P x
      → All P xs
      → All P (insert_by before x xs)
  All-insert_by before P x [] p h = (p, tt)
  All-insert_by before P x (y ∷ ys) p h = elim (Bool-cases (before y x)) [
    | inl later ↦ rw later (h.0, All-insert_by before P x ys p h.1)
    | inr now ↦ rw now (p, h)
  ]

module _ {ℓ κ} {A : Type ℓ} (before : A → A → Bool) (R : A → A → Type κ)
    (forward : (x y : A) → before x y ≡ true → R x y)
    (backward : (x y : A) → before x y ≡ false → R y x)
    (trans : (x y z : A) → R x y → R y z → R x z) where
  insert_by-IsOrdered : (x : A) (xs : List A) → IsOrdered R xs → IsOrdered R (insert_by before x xs)
  insert_by-IsOrdered x [] h = (tt, tt)
  insert_by-IsOrdered x (y ∷ ys) h = elim (Bool-cases (before y x)) [
    | inl later ↦
        rw later
          (All-insert_by before (R y) x ys (forward y x later) h.0, insert_by-IsOrdered x ys h.1)
    | inr now ↦
        rw now
          ((backward y x now, All-map (R y) (R x) ys (λ z. trans x y z (backward y x now)) h.0), h)
  ]

  -- Sorting by a test that decides the order gives a list in order.
  pub sort_by-IsOrdered : (xs : List A) → IsOrdered R (sort_by before xs)
  sort_by-IsOrdered [] = tt
  sort_by-IsOrdered (x ∷ xs) = insert_by-IsOrdered x (sort_by before xs) (sort_by-IsOrdered xs)

none≢some {ℓ} : {A : Type ℓ} {a : A} → none ≡ some a → ⊥
none≢some e = cc

module _ {A : Type 0} (key : A → ℕ) where
  -- Under unique keys a row of the table is what its key finds.
  pub first_of_In :
      (r : A) (xs : List A) → Unique key xs → In r xs → first (λ y. key y == key r) xs ≡ some r
  first_of_In r [] u i = absurd i
  first_of_In r (x ∷ xs) u (inl e) = ground (arith, ap key e)
  first_of_In r (x ∷ xs) u (inr i) = elim (Bool-cases (key x == key r)) [
    | inl same ↦ absurd (
        none≢some (
          sym u.0
          ∙ (ap (λ k. first (λ y. key y == k) xs) ((==_iff _ _).0 same) ∙ first_of_In r xs u.1 i)))
    | inr other ↦ rw other (first_of_In r xs u.1 i)
  ]

  -- A row that replaces the rows of its key is in the table where the key was.
  pub In-replaced :
      (x y : A) (xs : List A)
      → key x ≡ key y
      → In x xs
      → In y (update (λ z. key z == key y) (λ _. y) xs)
  In-replaced x y [] same i = absurd i
  In-replaced x y (z ∷ xs) same (inl e) =
      let here : (key z == key y) ≡ true = (==_iff _ _).1 (ap key e ∙ same) in rw here (inl refl)
  In-replaced x y (z ∷ xs) same (inr i) = elim (Bool-cases (key z == key y)) [
    | inl here ↦ rw here (inl refl)
    | inr other ↦ rw other (inr (In-replaced x y xs same i))
  ]

  -- After an update that keeps the keys, a key finds its row, updated if it was chosen.
  pub first-update :
      (q : A → Bool) (f : A → A) (k : ℕ) (xs : List A) {r : A}
      → ((x : A) → key (f x) ≡ key x)
      → first (λ y. key y == k) xs ≡ some r
      → first (λ y. key y == k) (update q f xs) ≡ some (if q r then f r else r)
  first-update q f k [] same e = cc
  first-update q f k (x ∷ xs) {r} same e =
      ground (arith, same x, first-update q f k xs {r = r} same)

module _ {A : Type 0} where
  -- An update of the rows that pass a test, which they still pass, is found by the test.
  pub first-update_self :
      (p : A → Bool) (f : A → A) (xs : List A) {r : A}
      → ((x : A) → p (f x) ≡ p x)
      → first p xs ≡ some r
      → first p (update p f xs) ≡ some (f r)
  first-update_self p f [] same e = cc
  first-update_self p f (x ∷ xs) {r} same e =
      ground (arith, same x, first-update_self p f xs {r = r} same)

  pub exists-update_self :
      (p : A → Bool) (f : A → A) (xs : List A)
      → ((x : A) → p (f x) ≡ p x)
      → exists p (update p f xs) ≡ exists p xs
  exists-update_self p f [] same = refl
  exists-update_self p f (x ∷ xs) same = ground (arith, same x, exists-update_self p f xs same)

  pub All-update :
      (P : A → Type 0) (q : A → Bool) (f : A → A) (xs : List A)
      → ((x : A) → P x → P (f x))
      → All P xs
      → All P (update q f xs)
  All-update P q f [] keep h = tt
  All-update P q f (x ∷ xs) keep h = (
    elim (Bool-cases (q x)) [ inl chosen ↦ rw chosen (keep x h.0) | inr other ↦ rw other h.0 ],
    All-update P q f xs keep h.1,
  )
