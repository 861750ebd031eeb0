-- ===== src/Publishing/Starved.antt =====
-- Which due movies keep a sweep from the others.
use movie_api.Shared.{
  ℕ, zero, suc, ◌≤◌, ◌≡◌, refl, Bool, true, false, ◌&&◌, none, some, List, [], ◌∷◌, arith, ltb, ok,
  run, length, select, take, insert_by, sort_by, All, All-In, IsOrdered, sort_by-IsOrdered, In,
  In-select, In-sort_by, In-take, Bool-cases, Option-cases, inl, inr,
}
use movie_api.Publishing.{PublishState, Content, CatalogDb, is_single, movie_is_publishable}
use movie_api.Publishing.Sweep.{is_due, earlier, due_movies, sweep_due_scheduled_movies}
use movie_api.Publishing.Due.{sweep_blocked}

-- The time to go live lies before an instant.
abbrev pub goes_live_before : ℕ → PublishState → Bool
goes_live_before cut s = elim s.publish_at [ none ↦ false | some at ↦ ltb at cut ]

-- a movie that a sweep asks for
abbrev pub is_due_movie : ℕ → Content → Bool
is_due_movie now m = is_single m.type && is_due now m.state

module _ {A : Type 0} where
  All-of_In : (P : A → Type 0) (xs : List A) → ((x : A) → In x xs → P x) → All P xs
  All-of_In P [] h = tt
  All-of_In P (x ∷ xs) h = (h x (inl refl), All-of_In P xs (λ y i. h y (inr i)))

  length-insert_by :
      (before : A → A → Bool) (p : A → Bool) (x : A) (xs : List A)
      → length (select p (insert_by before x xs)) ≡ length (select p (x ∷ xs))
  length-insert_by before p x [] = refl
  length-insert_by before p x (y ∷ ys) = ground (arith, length-insert_by before p x ys)

  -- Sorting keeps how many rows pass a test.
  length-select_sorted :
      (before : A → A → Bool) (p : A → Bool) (xs : List A)
      → length (select p (sort_by before xs)) ≡ length (select p xs)
  length-select_sorted before p [] = refl
  length-select_sorted before p (x ∷ xs) =
      ground
        (arith, length-insert_by before p x (sort_by before xs), length-select_sorted before p xs)

  length-select_twice :
      (p q : A → Bool) (xs : List A)
      → length (select p (select q xs)) ≡ length (select (λ x. q x && p x) xs)
  length-select_twice p q [] = refl
  length-select_twice p q (x ∷ xs) = ground (arith, length-select_twice p q xs)

  none_behind :
      (p : A → Bool) (x : A) (xs : List A)
      → p x ≡ false
      → All (λ y. p y ≡ true → p x ≡ true) xs
      → length (select p xs) ≡ 0
  none_behind p x [] out h = refl
  none_behind p x (y ∷ ys) out h = ground (arith, h.0, none_behind p x ys out h.1)

  -- In an order in which the rows that pass a test come first, the first n rows pass it where n do.
  first_pass :
      (p : A → Bool) (n : ℕ) (xs : List A)
      → IsOrdered (λ x y. p y ≡ true → p x ≡ true) xs
      → n ≤ length (select p xs)
      → All (λ x. p x ≡ true) (take n xs)
  first_pass p zero xs sorted many = tt
  first_pass p (suc n) [] sorted many = tt
  first_pass p (suc n) (x ∷ xs) sorted many = elim (Bool-cases (p x)) [
    | inl passes ↦ (passes, first_pass p n xs sorted.1 (ground arith))
    | inr fails ↦ absurd (ground (arith, none_behind p x xs fails sorted.0))
  ]

module _ (cut : ℕ) where
  abbrev is_old : Content → Bool
  is_old m = goes_live_before cut m.state

  earlier_old : (a b : Content) → earlier a.state b.state ≡ true → is_old b ≡ true → is_old a ≡ true
  earlier_old a b first_a old = elim (Option-cases a.state.publish_at) [
    | inl unset ↦ ground arith
    | inr (at, set) ↦ elim (Option-cases b.state.publish_at) [
      | inl unset_b ↦ ground arith
      | inr (bt, set_b) ↦ ground arith
    ]
  ]

  later_old : (a b : Content) → earlier a.state b.state ≡ false → is_old a ≡ true → is_old b ≡ true
  later_old a b not_first old = elim (Option-cases a.state.publish_at) [
    | inl unset ↦ ground arith
    | inr (at, set) ↦ elim (Option-cases b.state.publish_at) [
      | inl unset_b ↦ ground arith
      | inr (bt, set_b) ↦ ground arith
    ]
  ]

  taken_old :
      (now limit : ℕ) (rows : List Content)
      → limit ≤ length (select (λ m. is_due_movie now m && is_old m) rows)
      → All (λ m. is_old m ≡ true) (due_movies now limit rows)
  taken_old now limit rows many =
      let due = select (is_due_movie now) rows in
      let before = λ (a : Content) (b : Content). earlier a.state b.state in
      first_pass is_old limit (sort_by before due)
        (sort_by-IsOrdered before (λ x y. is_old y ≡ true → is_old x ≡ true) earlier_old later_old
          (λ x y z f g old. f (g old)) due)
        (omega (
          arith,
          length-select_sorted before is_old due,
          length-select_twice is_old (is_due_movie now) rows,
          many,
        ))

-- Where at least as many movies as the limit are due since before an instant, and no movie that is due
-- since before it is ready, a sweep publishes nothing: also no movie that is due since later and ready.
pub sweep_starved :
    (now limit cut : ℕ) (t : CatalogDb)
    → limit ≤ length (select (λ m. is_due_movie now m && goes_live_before cut m.state) t.contents)
    → All
        (λ m.
          (is_due_movie now m
            && goes_live_before cut m.state
            && movie_is_publishable t.transcode_jobs m)
          ≡ false)
        t.contents
    → run (sweep_due_scheduled_movies now limit) t ≡ (ok 0, t)
sweep_starved now limit cut t many unready =
    let due = select (is_due_movie now) t.contents in
    let before = λ (a : Content) (b : Content). earlier a.state b.state in
    sweep_blocked now limit t (
      All-of_In (λ m. movie_is_publishable t.transcode_jobs m ≡ false)
        (due_movies now limit t.contents)
        (λ m taken.
          let stored =
            (In-select (is_due_movie now) m t.contents).0
              ((In-sort_by before m due).0 (In-take limit m (sort_by before due) taken)) in
          let old =
            All-In (λ m. is_old cut m ≡ true) (due_movies now limit t.contents)
              (taken_old cut now limit t.contents many) taken in
          let stuck = All-In _ t.contents unready stored.0 in ground (arith, stored.1, old, stuck)))
