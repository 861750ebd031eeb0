-- ===== src/Publishing/SeriesAdmin.antt =====
-- The handlers of app/routers/series.py that change a series; the descriptive columns, which they
-- copy, are left out, and the slug that `unique_series_slug` makes is an argument.
use movie_api.Shared.{
  ℕ, String, Bool, false, not, ◌&&◌, ◌||◌, Option, none, some, ◌∷◌, if◌then◌else◌, str_eq, ◌==◌,
  Result, ok, err, not_found, server_error, fixed, Tx, pure, gets, or_raise, modify, commit,
  raise_if, ◌>>=◌, ◌>>◌, first, exists, update,
}
use movie_api.Publishing.{
  PublishState, Series, CatalogDb, is_live, status_error, read_status, apply_series_publish_state,
  apply_legacy_is_published, ensure_series_publishable,
}

-- a result of a pure step
abbrev pub check {ℓ} : {T A : Type ℓ} → Result A → Tx T A
check r c = (r, c)

abbrev pub with_slug : String → Series → Bool
with_slug slug s = str_eq s.slug slug

-- the query of `get_series_or_404`
abbrev pub is_shown : String → Bool → Series → Bool
is_shown slug published_only s = str_eq s.slug slug && (not published_only || s.state.is_published)

unfoldable pub get_series_or_404 : String → Bool → Tx CatalogDb Series
get_series_or_404 slug published_only = do
  found ← gets (λ (t : CatalogDb). first (is_shown slug published_only) t.series)
  or_raise found (not_found (fixed "Series not found"))

-- `CreateSeriesBody`
pub record CreateSeriesBody : Type 0 where
  pub monthly_price_usd : ℕ
  pub status : String
  pub publish_at : Option ℕ

-- `SeriesUpdate`: an unset field is none, and None counts as unset where the handler pops it
pub record SeriesUpdate : Type 0 where
  pub monthly_price_usd : Option ℕ
  pub status : Option String
  pub publish_at : Option (Option ℕ)
  pub is_published : Option Bool
  pub poster_key : Option (Option String)
  pub banner_key : Option (Option String)

-- the state that the new row gets before it is added
unfoldable pub created_state : CreateSeriesBody → Result PublishState
created_state d = elim (read_status d.status) [
  | none ↦ err status_error
  | some status ↦
      elim (apply_series_publish_state (some d.status) (some d.publish_at)
        (record { status = status; is_published = false; publish_at = d.publish_at })) [
          | err e ↦ err e
          | ok s ↦
              if is_live s.status then apply_series_publish_state (some "draft") none s else ok s
        ]
]

unfoldable pub create_series : ℕ → ℕ → String → CreateSeriesBody → Tx CatalogDb Series
create_series now id slug d = do
  state ← check (created_state d)
  let series : Series = record {
    id = id;
    slug = slug;
    monthly_price_usd = d.monthly_price_usd;
    poster_key = none;
    banner_key = none;
    created_at = now;
    state = state;
  }
  taken ← gets (λ (t : CatalogDb). exists (with_slug slug) t.series)
  raise_if taken (server_error (fixed "duplicate slug"))
  modify (λ t. record t { series = series ∷ t.series })
  commit
  pure series

-- the key that an upload leaves; `optimize` is `optimize_r2_image`, which gives the key back where
-- it fails
abbrev pub optimized : (String → String) → Option String → Option (Option String) → Option String
optimized optimize old none = old
optimized optimize old (some none) = none
optimized optimize old (some (some key)) = some (if str_eq key "" then key else optimize key)

-- the state that `update_series` gives the row
unfoldable pub updated_state : SeriesUpdate → PublishState → Result PublishState
updated_state d s = elim d.status [
  | some status ↦ apply_series_publish_state (some status) d.publish_at s
  | none ↦ elim d.publish_at [
    | some at ↦ apply_series_publish_state none (some at) s
    | none ↦ elim d.is_published [
      | some is_published ↦ apply_legacy_is_published is_published s
      | none ↦ ok s
    ]
  ]
]

-- the row with the other columns of the request
unfoldable pub with_update : (String → String) → SeriesUpdate → Series → PublishState → Series
with_update optimize d old state = record old {
  monthly_price_usd = elim d.monthly_price_usd [ none ↦ old.monthly_price_usd | some p ↦ p ];
  poster_key = optimized optimize old.poster_key d.poster_key;
  banner_key = optimized optimize old.banner_key d.banner_key;
  state = state;
}

unfoldable pub update_series : (String → String) → String → SeriesUpdate → Tx CatalogDb Series
update_series optimize slug d = do
  old ← get_series_or_404 slug false
  state ← check (updated_state d old.state)
  let series : Series = with_update optimize d old state
  check (if is_live state.status then ensure_series_publishable series else ok tt)
  modify (λ t. record t { series = update (λ s. s.id == old.id) (λ _. series) t.series })
  commit
  pure series
