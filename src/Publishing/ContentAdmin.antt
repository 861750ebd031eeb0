-- ===== src/Publishing/ContentAdmin.antt =====
-- The handlers that change a movie (app/routers/movies.py, app/routers/admin/movies.py), a podcast
-- (app/routers/admin/podcasts.py) and an episode (app/routers/series.py). The descriptive columns,
-- which they copy, are left out.
use movie_api.Shared.{
  ℕ, String, Bool, true, false, ◌&&◌, Option, none, some, if◌then◌else◌, str_eq, ◌==◌, opt_eq,
  Result, ok, err, not_found, fixed, Tx, pure, gets, or_raise, modify, commit, ◌>>=◌, ◌>>◌, first,
  update,
}
use movie_api.Shop.{ContentType, episode}
use movie_api.Publishing.{
  PublishState, Content, CatalogDb, is_single, is_podcast, is_live, status_error, read_status,
  apply_movie_publish_state, ensure_movie_publishable, ensure_podcast_publishable,
}
use movie_api.Publishing.SeriesAdmin.{check, get_series_or_404}

-- `ContentUpdate`: an unset field is none; so is a Boolean that is set to None, which the code writes
-- and the column refuses
pub record ContentUpdate : Type 0 where
  pub status : Option (Option String)
  pub is_published : Option Bool
  pub publish_at : Option (Option ℕ)
  pub is_free : Option Bool

abbrev pub flag : Option Bool → Bool → Bool
flag none old = old
flag (some new) old = new

abbrev pub joined : Option (Option String) → Option String
joined none = none
joined (some status) = status

abbrev pub by_content_id : ℕ → Content → Bool
by_content_id id m = m.id == id

-- the state of a movie after the fields are set, and then `apply_movie_publish_state`
unfoldable pub movie_state : ContentUpdate → ContentType → PublishState → Result PublishState
movie_state d type old =
    let set : PublishState = record old { is_published = flag d.is_published old.is_published } in
    elim (joined d.status) [
      | some status ↦ apply_movie_publish_state type (some status) d.publish_at set
      | none ↦ elim d.publish_at [
        | some at ↦ apply_movie_publish_state type none (some at) set
        | none ↦ ok set
      ]
    ]

-- the row with the other columns of the request
abbrev pub changed_content : ContentUpdate → Content → PublishState → Content
changed_content d old state = record old { is_free = flag d.is_free old.is_free; state = state }

-- what both handlers do with the movie that they find
unfoldable pub change_movie : ContentUpdate → Option Content → Tx CatalogDb Content
change_movie d found = do
  old ← or_raise found (not_found (fixed "Movie not found"))
  state ← check (movie_state d old.type old.state)
  let movie : Content = changed_content d old state
  jobs ← gets (λ (t : CatalogDb). t.transcode_jobs)
  check (if is_live state.status then ensure_movie_publishable jobs movie else ok tt)
  modify (λ t. record t { contents = update (by_content_id old.id) (λ _. movie) t.contents })
  commit
  pure movie

abbrev pub movie_of_slug : String → Content → Bool
movie_of_slug slug m = str_eq m.slug slug && is_single m.type

abbrev pub movie_of_id : ℕ → Content → Bool
movie_of_id id m = m.id == id && is_single m.type

unfoldable pub update_movie : String → ContentUpdate → Tx CatalogDb Content
unfolding change_movie
update_movie slug d = do
  found ← gets (λ (t : CatalogDb). first (movie_of_slug slug) t.contents)
  change_movie d found

unfoldable pub update_admin_movie : ℕ → ContentUpdate → Tx CatalogDb Content
unfolding change_movie
update_admin_movie movie_id d = do
  found ← gets (λ (t : CatalogDb). first (movie_of_id movie_id) t.contents)
  change_movie d found

-- the state of a podcast: a status decides whether it is public
unfoldable pub podcast_state : ContentUpdate → PublishState → Result PublishState
podcast_state d old =
    let at : Option ℕ = elim d.publish_at [ none ↦ old.publish_at | some at ↦ at ] in
    elim d.status [
      | none ↦ ok (record {
        status = old.status;
        is_published = flag d.is_published old.is_published;
        publish_at = at;
      })
      | some none ↦ err status_error
      | some (some text) ↦ elim (read_status text) [
        | none ↦ err status_error
        | some status ↦
            ok (record { status = status; is_published = is_live status; publish_at = at })
      ]
    ]

unfoldable pub update_admin_podcast : ℕ → ContentUpdate → Tx CatalogDb Content
unfolding podcast_state
update_admin_podcast podcast_id d = do
  found ← gets (λ (t : CatalogDb). first (λ m. m.id == podcast_id && is_podcast m.type) t.contents)
  old ← or_raise found (not_found (fixed "Podcast not found"))
  state ← check (podcast_state d old.state)
  let podcast : Content = changed_content d old state
  check (if is_live state.status then ensure_podcast_publishable podcast else ok tt)
  modify (λ t. record t { contents = update (by_content_id old.id) (λ _. podcast) t.contents })
  commit
  pure podcast

-- the state of an episode: `is_published` of the request goes first
unfoldable pub episode_state : ContentUpdate → PublishState → Result PublishState
episode_state d old =
    let at : Option ℕ = elim d.publish_at [ none ↦ old.publish_at | some at ↦ at ] in
    elim d.status [
      | none ↦ ok (record {
        status = old.status;
        is_published = flag d.is_published old.is_published;
        publish_at = at;
      })
      | some none ↦ err status_error
      | some (some text) ↦ elim (read_status text) [
        | none ↦ err status_error
        | some status ↦ ok (record {
          status = status;
          is_published = flag d.is_published (is_live status);
          publish_at = at;
        })
      ]
    ]

abbrev pub is_episode : ContentType → Bool
is_episode episode = true
is_episode _ = false

-- the query of `_get_episode_or_404`
abbrev pub episode_of : String → ℕ → Content → Bool
episode_of slug series_id m =
    str_eq m.slug slug && opt_eq m.series_id series_id && is_episode m.type

-- `_get_episode_or_404`
unfoldable pub get_episode_or_404 : ℕ → String → Tx CatalogDb Content
get_episode_or_404 series_id slug = do
  found ← gets (λ (t : CatalogDb). first (episode_of slug series_id) t.contents)
  or_raise found (not_found (fixed "Episode not found"))

unfoldable pub update_episode : String → String → ContentUpdate → Tx CatalogDb Content
unfolding episode_state get_episode_or_404
update_episode slug episode_slug d = do
  series ← get_series_or_404 slug false
  old ← get_episode_or_404 series.id episode_slug
  state ← check (episode_state d old.state)
  let changed : Content = changed_content d old state
  modify (λ t. record t { contents = update (by_content_id old.id) (λ _. changed) t.contents })
  commit
  pure changed
