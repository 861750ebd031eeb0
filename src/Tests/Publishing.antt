-- ===== src/Tests/Publishing.antt =====
-- Publishing and the sweeper at concrete titles.
use movie_api.Shared.{
  ℕ, ◌≡◌, refl, String, true, false, Option, none, some, [], ◌∷◌, arith, ◌==◌, ok, run, first,
  update, All, inl,
}
use movie_api.Shop.{single}
use movie_api.Publishing.{
  draft, scheduled, PublishState, Series, Content, CatalogDb, movie_is_publishable,
  ensure_movie_publishable,
}
use movie_api.Publishing.ContentAdmin.{ContentUpdate, changed_content, by_content_id, update_movie}
use movie_api.Publishing.Sweep.{live_movie, sweep_due_scheduled_series, sweep_due_scheduled_movies}
use movie_api.Publishing.Due.{sweep_publishes}
use movie_api.Publishing.Starved.{sweep_starved}
use movie_api.Publishing.Shelf.{IsShelved, sweeps, SeriesStep-IsShelved}
use movie_api.Publishing.Movies.{IsSettled, MovieStep, MovieStep-IsSettled, unchecked_publish}

abbrev planned : ℕ → PublishState
planned at = record { status = scheduled; is_published = false; publish_at = some at }

abbrev a_draft : PublishState
a_draft = record { status = draft; is_published = false; publish_at = none }

abbrev movie_row : ℕ → String → Option String → Option String → PublishState → Content
movie_row id slug poster hls state = record {
  id = id;
  slug = slug;
  type = single;
  series_id = none;
  poster_key = poster;
  hls_master_key = hls;
  audio_key = none;
  transcode_status = "pending";
  is_free = false;
  created_at = id;
  state = state;
}

abbrev ready_movie : Content
ready_movie =
    movie_row 1 "the-ride" (some "posters/1.webp") (some "hls/1/master.m3u8") (planned 100)

abbrev bare_movie : Content
bare_movie = movie_row 2 "no-video" none none (planned 90)

abbrev plain_draft : Content
plain_draft = movie_row 3 "rough-cut" none none a_draft

abbrev a_series : Series
a_series = record {
  id = 7;
  slug = "saga";
  monthly_price_usd = 399;
  poster_key = some "posters/saga.webp";
  banner_key = none;
  created_at = 1;
  state = planned 50;
}

abbrev catalog : CatalogDb
catalog = record {
  series = a_series ∷ [];
  contents = ready_movie ∷ bare_movie ∷ plain_draft ∷ [];
  transcode_jobs = [];
}

sweep_publishes_example :
    (a : Content) × (first
        (λ (r : Content). r.id == 1)
        (run (sweep_due_scheduled_movies 120 25) catalog).1.contents
      ≡ some (live_movie a))
unfolding movie_is_publishable ensure_movie_publishable
sweep_publishes_example =
    sweep_publishes 120 25 catalog ready_movie (inl refl) refl refl refl (omega arith)

-- The limit of one is used up by the movie that has no poster.
sweep_starved_example : run (sweep_due_scheduled_movies 120 1) catalog ≡ (ok 0, catalog)
unfolding movie_is_publishable ensure_movie_publishable
sweep_starved_example = sweep_starved 120 1 100 catalog (omega arith) (refl, (refl, (refl, tt)))

SeriesStep-IsShelved_example :
    All IsShelved (run (sweep_due_scheduled_series 60 25) catalog).1.series
SeriesStep-IsShelved_example = SeriesStep-IsShelved {t = catalog} ((refl, refl), tt) (sweeps 60 25)

abbrev publish_now : ContentUpdate
publish_now = record {
  status = some (some "published");
  is_published = none;
  publish_at = none;
  is_free = none;
}

MovieStep-IsSettled_example :
    All IsSettled (run (update_movie "the-ride" publish_now) catalog).1.contents
MovieStep-IsSettled_example =
    MovieStep-IsSettled {t = catalog} (refl, (refl, (refl, tt)))
      (MovieStep.updates "the-ride" publish_now refl)

abbrev flag_on : ContentUpdate
flag_on = record { status = none; is_published = some true; publish_at = none; is_free = none }

unchecked_publish_example :
    let public = changed_content flag_on plain_draft (record a_draft { is_published = true }) in
    run (update_movie "rough-cut" flag_on) catalog ≡ (
      ok public,
      record catalog { contents = update (by_content_id 3) (λ _. public) catalog.contents },
    )
unchecked_publish_example =
    unchecked_publish "rough-cut" flag_on plain_draft catalog refl refl refl refl refl
