-- ===== src/Publishing/Due.antt =====
-- What a sweep publishes.
use movie_api.Shared.{
  ℕ, zero, suc, ◌≤◌, ◌≡◌, refl, sym, ap, subst, ◌∙◌, Bool, true, false, ◌&&◌, none, some, List, [],
  ◌∷◌, arith, if◌then◌else◌, ◌==◌, ok, Result, run, length, first, update, select, take, sort_by,
  All, All-update, In, In-select, In-sort_by, length-sort_by, Bool-cases, ℕ-cases, inl, inr,
}
use movie_api.Publishing.{
  PublishState, Content, CatalogDb, is_single, series_is_publishable, movie_is_publishable,
}
use movie_api.Publishing.Sweep.{
  is_due, earlier, due_rows, promote_rows, live_series, live_movie, due_series, promote_series,
  sweep_due_scheduled_series, due_movies, promote_movies, sweep_due_scheduled_movies,
}

module _ {A : Type 0} (key : A → ℕ) (live : A → A) where
  pub promote_none :
      (ready : A → Bool) (due rows : List A)
      → (promote_rows key live ready due rows).1 ≡ 0
      → (promote_rows key live ready due rows).0 ≡ rows
  unfolding promote_rows
  promote_none ready [] rows e = refl
  promote_none ready (a ∷ due) rows e = elim (Bool-cases (ready a)) [
    | inl ok_now ↦ ground arith
    | inr not_ready ↦ ground (arith, promote_none ready due rows)
  ]

  -- A property of the stored rows and of each promoted row is kept.
  pub promote-All :
      (P : A → Type 0) (ready : A → Bool) (due rows : List A)
      → ((a : A) → ready a ≡ true → P (live a))
      → All P rows
      → All P (promote_rows key live ready due rows).0
  unfolding promote_rows
  promote-All P ready [] rows made h = h
  promote-All P ready (a ∷ due) rows made h = elim (Bool-cases (ready a)) [
    | inl ok_now ↦ rw ok_now (
        promote-All P ready due (update (λ r. key r == key a) (λ _. live a) rows) made
          (All-update P (λ r. key r == key a) (λ _. live a) rows (λ _ _. made a ok_now) h))
    | inr not_ready ↦ rw not_ready (promote-All P ready due rows made h)
  ]

  -- Where no row taken up is ready, nothing is promoted.
  pub promote_unready :
      (ready : A → Bool) (due rows : List A)
      → All (λ a. ready a ≡ false) due
      → promote_rows key live ready due rows ≡ (rows, 0)
  unfolding promote_rows
  promote_unready ready [] rows h = refl
  promote_unready ready (a ∷ due) rows h = ground (arith, h.0, promote_unready ready due rows h.1)

  module _ (same_key : (a : A) → key (live a) ≡ key a) where
    -- the row of a key after a row is promoted
    first-live :
        (k : ℕ) (a : A) (rows : List A)
        → first (λ r. key r == k) (update (λ r. key r == key a) (λ _. live a) rows)
          ≡ elim (first (λ r. key r == k) rows) [
            | none ↦ none
            | some r ↦ some (if key a == k then live a else r)
          ]
    first-live k a [] = refl
    first-live k a (x ∷ xs) = ground (arith, first-live k a xs, same_key a)

    -- The row of the key is a promoted one.
    abbrev pub IsLive : ℕ → List A → Type 0
    IsLive k rows = (a : A) × (first (λ r. key r == k) rows ≡ some (live a))

    live_stays :
        (ready : A → Bool) (k : ℕ) (due rows : List A)
        → IsLive k rows
        → IsLive k (promote_rows key live ready due rows).0
    unfolding promote_rows
    live_stays ready k [] rows h = h
    live_stays ready k (b ∷ due) rows (a, found) = elim (Bool-cases (ready b)) [
      | inl ok_now ↦
          let changed = update (λ r. key r == key b) (λ _. live b) rows in
          rw ok_now (
            live_stays ready k due changed (elim (Bool-cases (key b == k)) [
              | inl same ↦ (b, ground (arith, first-live k b rows))
              | inr other ↦ (a, ground (arith, first-live k b rows))
            ]))
      | inr not_ready ↦ rw not_ready (live_stays ready k due rows (a, found))
    ]

    present :
        (k : ℕ) (b : A) (rows : List A) {r : A}
        → first (λ r. key r == k) rows ≡ some r
        → (r' : A) × (first (λ r. key r == k) (update (λ r. key r == key b) (λ _. live b) rows)
            ≡ some r')
    present k b rows {r} found = elim (Bool-cases (key b == k)) [
      | inl same ↦ (live b, ground (arith, first-live k b rows))
      | inr other ↦ (r, ground (arith, first-live k b rows))
    ]

    -- A stored row that is taken up and ready is promoted.
    pub promotes :
        (ready : A → Bool) (s : A) (due rows : List A) {r : A}
        → In s due
        → ready s ≡ true
        → first (λ r. key r == key s) rows ≡ some r
        → IsLive (key s) (promote_rows key live ready due rows).0
    unfolding promote_rows
    promotes ready s [] rows i ok_now found = absurd i
    promotes ready s (b ∷ due) rows {r} (inl e) ok_now found =
        let changed = update (λ r. key r == key b) (λ _. live b) rows in
        rw (ap ready e ∙ ok_now) (
          live_stays ready (key s) due changed
            (b, ground (arith, first-live (key s) b rows, ap key e)))
    promotes ready s (b ∷ due) rows {r} (inr i) ok_now found = elim (Bool-cases (ready b)) [
      | inl b_ready ↦
          let (r', there) = present (key s) b rows found in
          rw b_ready
            (promotes ready s due (update (λ r. key r == key b) (λ _. live b) rows) i ok_now there)
      | inr unready ↦ rw unready (promotes ready s due rows i ok_now found)
    ]

first_stored :
    {A : Type 0} (key : A → ℕ) (a : A) (rows : List A)
    → In a rows
    → (r : A) × (first (λ r. key r == key a) rows ≡ some r)
first_stored key a [] i = absurd i
first_stored key a (x ∷ xs) (inl e) = (x, ground (arith, ap key e))
first_stored key a (x ∷ xs) (inr i) = elim (Bool-cases (key x == key a)) [
  | inl same ↦ (x, ground arith)
  | inr other ↦ let (r, found) = first_stored key a xs i in (r, ground arith)
]

take_all : {A : Type 0} (n : ℕ) (xs : List A) → length xs ≤ n → take n xs ≡ xs
take_all zero [] e = refl
take_all zero (x ∷ xs) e = absurd (omega (arith, e))
take_all (suc n) [] e = refl
take_all (suc n) (x ∷ xs) e = ap (λ ys. x ∷ ys) (take_all n xs (omega (arith, e)))

module _ {A : Type 0} (state : A → PublishState) where
  -- With room for all that are due, a sweep takes up each of them.
  In-due_rows :
      (now limit : ℕ) (wanted : A → Bool) (rows : List A) (a : A)
      → In a rows
      → wanted a ≡ true
      → is_due now (state a) ≡ true
      → length (select (λ b. wanted b && is_due now (state b)) rows) ≤ limit
      → In a (due_rows state now limit wanted rows)
  In-due_rows now limit wanted rows a stored kind due few =
      let p = λ (b : A). wanted b && is_due now (state b) in
      let before = λ (b : A) (c : A). earlier (state b) (state c) in
      let sorted = sort_by before (select p rows) in
      subst (λ xs. In a xs)
        (sym (take_all limit sorted (omega (arith, length-sort_by before (select p rows), few))))
        ((In-sort_by before a (select p rows)).1
          ((In-select p a rows).1 (stored, ground (arith, kind, due))))

-- A sweep of series answers how many it promoted, and stores the rows of its loop,
pub sweep_series-promote :
    (now limit : ℕ) (t : CatalogDb)
    → run (sweep_due_scheduled_series now limit) t ≡ (
      ok (promote_series (due_series now limit t.series) t.series).1,
      record t { series = (promote_series (due_series now limit t.series) t.series).0 },
    )
unfolding sweep_due_scheduled_series
sweep_series-promote now limit t =
    let due = due_series now limit t.series in
    elim (ℕ-cases (promote_series due t.series).1) [
      | inl idle ↦
          ground
            (arith, promote_none (λ s. s.id) live_series series_is_publishable due t.series idle)
      | inr (n, some_ready) ↦ ground arith
    ]

-- and so does a sweep of movies.
pub sweep_movies-promote :
    (now limit : ℕ) (t : CatalogDb)
    → run (sweep_due_scheduled_movies now limit) t ≡ (
      ok (promote_movies t (due_movies now limit t.contents)).1,
      record t { contents = (promote_movies t (due_movies now limit t.contents)).0 },
    )
unfolding sweep_due_scheduled_movies
sweep_movies-promote now limit t =
    let due = due_movies now limit t.contents in
    let ready = movie_is_publishable t.transcode_jobs in
    elim (ℕ-cases (promote_movies t due).1) [
      | inl idle ↦ ground (arith, promote_none (λ m. m.id) live_movie ready due t.contents idle)
      | inr (n, some_ready) ↦ ground arith
    ]

-- the rows that are due, before the limit
abbrev pub due_count : ℕ → CatalogDb → ℕ
due_count now t =
    length (select (λ (m : Content). is_single m.type && is_due now m.state) t.contents)

-- Where no more movies are due than the limit, a sweep publishes each stored movie that is due and
-- ready: its id then finds a row that is published, public and without a time to go live.
pub sweep_publishes :
    (now limit : ℕ) (t : CatalogDb) (m : Content)
    → In m t.contents
    → is_single m.type ≡ true
    → is_due now m.state ≡ true
    → movie_is_publishable t.transcode_jobs m ≡ true
    → due_count now t ≤ limit
    → (a : Content) × (first
          (λ (r : Content). r.id == m.id)
          (run (sweep_due_scheduled_movies now limit) t).1.contents
        ≡ some (live_movie a))
sweep_publishes now limit t m stored kind due ready few =
    subst
      (λ (r : Result ℕ × CatalogDb).
        (a : Content) × (first (λ (r : Content). r.id == m.id) r.1.contents ≡ some (live_movie a)))
      (sym (sweep_movies-promote now limit t))
      (promotes (λ m. m.id) live_movie (λ _. refl) (movie_is_publishable t.transcode_jobs) m
        (due_movies now limit t.contents) t.contents
        (In-due_rows (λ (m : Content). m.state) now limit (λ m. is_single m.type) t.contents m
          stored kind due few)
        ready (first_stored (λ m. m.id) m t.contents stored).1)

-- Where none of the movies that a sweep takes up is ready, it publishes nothing.
pub sweep_blocked :
    (now limit : ℕ) (t : CatalogDb)
    → All (λ m. movie_is_publishable t.transcode_jobs m ≡ false) (due_movies now limit t.contents)
    → run (sweep_due_scheduled_movies now limit) t ≡ (ok 0, t)
sweep_blocked now limit t unready =
    sweep_movies-promote now limit t
    ∙ ap (λ (r : List Content × ℕ). (ok r.1, record t { contents = r.0 }))
        (promote_unready (λ m. m.id) live_movie (movie_is_publishable t.transcode_jobs)
          (due_movies now limit t.contents) t.contents unready)
