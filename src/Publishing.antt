-- ===== src/Publishing.antt =====
-- Publishing titles: app/core/content_status.py, app/services/content_publish.py and
-- series_publish.py, on the columns of app/models/content.py, series.py and transcode_job.py that
-- they and the handlers of app/routers read or write. A time without a zone is one of UTC, as the
-- code makes it. The status is a data type, since whatever stores one validates it first.

pub mod SeriesAdmin
pub mod ContentAdmin
pub mod Sweep
pub mod Due
pub mod Starved
pub mod Shelf
pub mod Movies
use movie_api.Shared.{
  ℕ, String, Bool, true, false, not, ◌||◌, Option, none, some, List, if◌then◌else◌, is_some, str_eq,
  ◌==◌, Result, ok, err, HttpError, unprocessable, fixed, exists,
}
use movie_api.Shop.{ContentType, single, podcast}

-- `VALID_CONTENT_STATUSES`
pub data ContentStatus : Type 0 where
  draft review scheduled published : ContentStatus

-- `validate_content_status`
unfoldable pub read_status : String → Option ContentStatus
read_status text =
    if str_eq text "draft"
    then some draft
    else if str_eq text "review"
    then some review
    else if str_eq text "scheduled"
    then some scheduled
    else if str_eq text "published"
    then some published
    else none

-- the three columns of a title that say when it is public
pub record PublishState : Type 0 where
  pub status : ContentStatus
  pub is_published : Bool
  pub publish_at : Option ℕ

pub record Series : Type 0 where
  pub id : ℕ
  pub slug : String
  pub monthly_price_usd : ℕ
  pub poster_key : Option String
  pub banner_key : Option String
  pub created_at : ℕ
  pub state : PublishState

pub record Content : Type 0 where
  pub id : ℕ
  pub slug : String
  pub type : ContentType
  pub series_id : Option ℕ
  pub poster_key : Option String
  pub hls_master_key : Option String
  pub audio_key : Option String
  pub transcode_status : String
  pub is_free : Bool
  pub created_at : ℕ
  pub state : PublishState

pub record TranscodeJob : Type 0 where
  pub content_id : ℕ

pub record CatalogDb : Type 0 where
  pub series : List Series
  pub contents : List Content
  pub transcode_jobs : List TranscodeJob

-- `if text`, of an optional text
abbrev pub is_set : Option String → Bool
is_set none = false
is_set (some text) = not (str_eq text "")

abbrev pub is_single : ContentType → Bool
is_single single = true
is_single _ = false

abbrev pub is_podcast : ContentType → Bool
is_podcast podcast = true
is_podcast _ = false

abbrev pub is_live : ContentStatus → Bool
is_live published = true
is_live _ = false

abbrev pub status_error : HttpError
status_error =
    unprocessable (fixed "status must be one of ['draft', 'published', 'review', 'scheduled']")

abbrev pub schedule_error : HttpError
schedule_error = unprocessable (fixed "publish_at is required when status is scheduled.")

abbrev pub poster_error : HttpError
poster_error = unprocessable (fixed "A poster is required before publishing.")

abbrev pub video_error : HttpError
video_error = unprocessable (fixed "A movie video is required before publishing.")

abbrev pub cover_error : HttpError
cover_error = unprocessable (fixed "A cover image is required before publishing.")

abbrev pub audio_error : HttpError
audio_error = unprocessable (fixed "An audio file is required before publishing.")

-- the last part of `apply_series_publish_state`
unfoldable pub settle : PublishState → Result PublishState
settle s = elim s.status [
  | published ↦ ok (record s { is_published = true; publish_at = none })
  | scheduled ↦
      if is_some s.publish_at then ok (record s { is_published = false }) else err schedule_error
  | draft ↦ ok (record s { is_published = false; publish_at = none })
  | review ↦ ok (record s { is_published = false; publish_at = none })
]

-- `apply_series_publish_state`; no `publish_at` is the case that `publish_at_set` is False
unfoldable pub apply_series_publish_state :
    Option String → Option (Option ℕ) → PublishState → Result PublishState
unfolding settle
apply_series_publish_state status publish_at s =
    let timed : PublishState = elim publish_at [
      | none ↦ s
      | some at ↦ record s { publish_at = at }
    ] in
    elim status [
      | none ↦ settle timed
      | some text ↦ elim (read_status text) [
        | none ↦ err status_error
        | some new ↦ settle (record timed { status = new })
      ]
    ]

-- `promote_scheduled_series_to_published`, `promote_scheduled_movie_to_published`
unfoldable pub promote : PublishState → PublishState
promote s = record { status = published; is_published = true; publish_at = none }

-- `apply_legacy_is_published`
unfoldable pub apply_legacy_is_published : Bool → PublishState → Result PublishState
unfolding apply_series_publish_state settle read_status
apply_legacy_is_published true s = apply_series_publish_state (some "published") none s
apply_legacy_is_published false s = apply_series_publish_state (some "draft") none s

-- `ensure_series_publishable`
unfoldable pub ensure_series_publishable : Series → Result {0} Unit
ensure_series_publishable s = if is_set s.poster_key then ok tt else err poster_error

-- `series_is_publishable`
unfoldable pub series_is_publishable : Series → Bool
unfolding ensure_series_publishable
series_is_publishable s = elim (ensure_series_publishable s) [ ok _ ↦ true | err _ ↦ false ]

-- `apply_movie_publish_state`, which leaves other contents alone
unfoldable pub apply_movie_publish_state :
    ContentType → Option String → Option (Option ℕ) → PublishState → Result PublishState
unfolding apply_series_publish_state
apply_movie_publish_state type status publish_at s =
    let applied = apply_series_publish_state status publish_at s in
    if is_single type then applied else ok s

-- `ensure_movie_publishable`
unfoldable pub ensure_movie_publishable : List TranscodeJob → Content → Result {0} Unit
ensure_movie_publishable jobs m =
    if not (is_single m.type)
    then ok tt
    else if not (is_set m.poster_key)
    then err poster_error
    else if is_set m.hls_master_key
    then ok tt
    else if str_eq m.transcode_status "processing" || str_eq m.transcode_status "ready"
    then ok tt
    else if exists (λ (job : TranscodeJob). job.content_id == m.id) jobs
    then ok tt
    else err video_error

-- `movie_is_publishable`
unfoldable pub movie_is_publishable : List TranscodeJob → Content → Bool
unfolding ensure_movie_publishable
movie_is_publishable jobs m = elim (ensure_movie_publishable jobs m) [ ok _ ↦ true | err _ ↦ false ]

-- `ensure_podcast_publishable`
unfoldable pub ensure_podcast_publishable : Content → Result {0} Unit
ensure_podcast_publishable p =
    if not (is_podcast p.type)
    then ok tt
    else if not (is_set p.poster_key)
    then err cover_error
    else if is_set p.audio_key
    then ok tt
    else err audio_error
