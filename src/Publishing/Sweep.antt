-- ===== src/Publishing/Sweep.antt =====
-- app/services/publish_sweeper.py: titles that were scheduled go live when they are due and ready. A
-- sweep is taken as running with no other transaction on its rows; the loop around the two sweeps,
-- its sleeping and its logs are left out.
use movie_api.Shared.{
  ℕ, zero, suc, Bool, true, false, not, ◌&&◌, none, some, List, [], ◌∷◌, if◌then◌else◌, ltb, leb,
  ◌==◌, Tx, pure, gets, modify, commit, ◌>>=◌, ◌>>◌, update, select, take, sort_by,
}
use movie_api.Publishing.{
  PublishState, Series, Content, CatalogDb, is_single, promote, series_is_publishable,
  movie_is_publishable,
}

-- `is_published.is_(False)`, `publish_at.is_not(None)`, `publish_at <= now`
abbrev pub is_due : ℕ → PublishState → Bool
is_due now s = not s.is_published && elim s.publish_at [ none ↦ false | some at ↦ leb at now ]

-- `order_by(publish_at.asc())`
abbrev pub earlier : PublishState → PublishState → Bool
earlier a b = elim a.publish_at [
  | none ↦ false
  | some at ↦ elim b.publish_at [ none ↦ true | some bt ↦ ltb at bt ]
]

-- What the two loops share: the rows of the table, their states, and which are ready.
module _ {A : Type 0} (state : A → PublishState) where
  -- the rows that a sweep takes up
  abbrev pub due_rows : ℕ → ℕ → (A → Bool) → List A → List A
  due_rows now limit wanted rows = take limit (
      sort_by (λ a b. earlier (state a) (state b))
        (select (λ a. wanted a && is_due now (state a)) rows))

module _ {A : Type 0} (key : A → ℕ) (live : A → A) where
  -- its loop: the rows that are ready are promoted, and counted
  unfoldable pub promote_rows : (A → Bool) → List A → List A → List A × ℕ
  promote_rows ready [] rows = (rows, 0)
  promote_rows ready (a ∷ due) rows =
      let changed = update (λ r. key r == key a) (λ _. live a) rows in
      let (rows', n) = promote_rows ready due (if ready a then changed else rows) in
      (rows', if ready a then suc n else n)

abbrev pub live_series : Series → Series
live_series s = record s { state = promote s.state }

abbrev pub live_movie : Content → Content
live_movie m = record m { state = promote m.state }

abbrev pub due_series : ℕ → ℕ → List Series → List Series
due_series now limit rows = due_rows (λ (s : Series). s.state) now limit (λ _. true) rows

abbrev pub promote_series : List Series → List Series → List Series × ℕ
promote_series due rows = promote_rows (λ s. s.id) live_series series_is_publishable due rows

-- `sweep_due_scheduled_series`
unfoldable pub sweep_due_scheduled_series : ℕ → ℕ → Tx CatalogDb ℕ
sweep_due_scheduled_series now limit = do
  swept ← gets (λ t. promote_series (due_series now limit t.series) t.series)
  elim swept.1 [
    | zero ↦ pure 0
    | suc n ↦ do modify (λ t. record t { series = swept.0 }); commit; pure (suc n)
  ]

abbrev pub due_movies : ℕ → ℕ → List Content → List Content
due_movies now limit rows =
    due_rows (λ (m : Content). m.state) now limit (λ m. is_single m.type) rows

abbrev pub promote_movies : CatalogDb → List Content → List Content × ℕ
promote_movies t due =
    promote_rows (λ m. m.id) live_movie (movie_is_publishable t.transcode_jobs) due t.contents

-- `sweep_due_scheduled_movies`
unfoldable pub sweep_due_scheduled_movies : ℕ → ℕ → Tx CatalogDb ℕ
sweep_due_scheduled_movies now limit = do
  swept ← gets (λ t. promote_movies t (due_movies now limit t.contents))
  elim swept.1 [
    | zero ↦ pure 0
    | suc n ↦ do modify (λ t. record t { contents = swept.0 }); commit; pure (suc n)
  ]
