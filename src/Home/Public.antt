-- ===== src/Home/Public.antt =====
-- What the home page shows: resolve_public_sections of app/catalog/home_sections.py. The database's
-- order of names is the parameter `name_before`. An item shows as the row that it refers to, and is of
-- a kind that its section accepts.
use movie_api.Shared.{
  ℕ, zero, suc, ◌+◌, String, Bool, not, ◌&&◌, ◌||◌, Option, none, some, List, [], ◌∷◌, ltb,
  if◌then◌else◌, ◌==◌, select, first, take, sort_by, map,
}
use movie_api.Community.Listing.{drop}
use movie_api.Publishing.{Series, Content}
use movie_api.Home.{
  ItemKind, SectionType, hero, banners, tv, free_today, trending, most_watched, coming_soon, series,
  plans, movie, series_item, tv_channel, banner, HomeSection, HomeSectionItem, TvChannel,
  HeroFeaturedItem, PromotionBanner, HomeDb, kind_index, is_full, effective_item_limit,
}
use movie_api.Home.Sections.{section_items}
use movie_api.Home.Rails.{
  is_public_movie, resolve_hero_slides, list_active_promotion_banners, resolve_free_today_movies,
  resolve_coming_soon_movies,
}

-- the loop of a rail: the rows that items refer to, up to the limit
abbrev pub collect :
    {A : Type 0} → (HomeSectionItem → Option A) → Option ℕ → ℕ → List HomeSectionItem → List A
collect find cap n [] = []
collect find cap n (i ∷ rows) = elim (find i) [
  | none ↦ collect find cap n rows
  | some a ↦
      let rest = collect find cap (suc n) rows in a ∷ (if is_full cap (suc n) then [] else rest)
]

-- `cap or default`
abbrev pub cap_or : Option ℕ → ℕ → ℕ
cap_or none other = other
cap_or (some zero) other = other
cap_or (some (suc n)) other = suc n

-- `xs[:cap] if cap else xs`
abbrev pub shortened : {A : Type 0} → Option ℕ → List A → List A
shortened none xs = xs
shortened (some zero) xs = xs
shortened (some (suc n)) xs = take (suc n) xs

-- `xs[:cap] if cap is not None else xs`
abbrev pub cut : {A : Type 0} → Option ℕ → List A → List A
cut none xs = xs
cut (some n) xs = take n xs

-- What a section shows.
pub record PublicSection : Type 0 where
  pub section : HomeSection
  pub movies : List Content
  pub series : List Series
  pub channels : List TvChannel
  pub banners : List PromotionBanner
  pub hero_slides : List HeroFeaturedItem

abbrev pub empty_section : HomeSection → PublicSection
empty_section s = record {
  section = s;
  movies = [];
  series = [];
  channels = [];
  banners = [];
  hero_slides = [];
}

abbrev pub find_banner : HomeDb → HomeSectionItem → Option PromotionBanner
find_banner t i =
    if kind_index i.item_kind == kind_index banner
    then first (λ (b : PromotionBanner). b.id == i.ref_id && b.is_active) t.banners
    else none

abbrev pub find_channel : HomeDb → HomeSectionItem → Option TvChannel
find_channel t i =
    if kind_index i.item_kind == kind_index tv_channel
    then first (λ (c : TvChannel). c.id == i.ref_id && c.is_published) t.channels
    else none

abbrev pub find_series : HomeDb → HomeSectionItem → Option Series
find_series t i =
    if kind_index i.item_kind == kind_index series_item
    then first (λ (s : Series). s.id == i.ref_id && s.state.is_published) t.catalog.series
    else none

-- a movie or a series on a rail
pub data Pick : Type 0 where
  movie_pick : Content → Pick
  series_pick : Series → Pick

abbrev pub movie_of : Option Content → Option Pick
movie_of none = none
movie_of (some m) = some (movie_pick m)

abbrev pub serial_of : Option Series → Option Pick
serial_of none = none
serial_of (some s) = some (series_pick s)

abbrev pub pick_of : HomeDb → ℕ → ItemKind → Option Pick
pick_of t id movie = movie_of (first (λ m. m.id == id && is_public_movie m) t.catalog.contents)
pick_of t id series_item =
    serial_of (first (λ (s : Series). s.id == id && s.state.is_published) t.catalog.series)
pick_of t id _ = none

abbrev pub find_pick : HomeDb → HomeSectionItem → Option Pick
find_pick t i = pick_of t i.ref_id i.item_kind

abbrev pub movies_of : List Pick → List Content
movies_of [] = []
movies_of (movie_pick m ∷ picks) = m ∷ movies_of picks
movies_of (series_pick s ∷ picks) = movies_of picks

abbrev pub series_of : List Pick → List Series
series_of [] = []
series_of (movie_pick m ∷ picks) = series_of picks
series_of (series_pick s ∷ picks) = s ∷ series_of picks

-- the newest public movies
abbrev pub newest_movies : ℕ → HomeDb → List Content
newest_movies n t = take n (
    sort_by (λ (a b : Content). ltb b.created_at a.created_at)
      (select is_public_movie t.catalog.contents))

-- what fills a movie rail on which nothing picked is shown
unfoldable pub filled_movies : HomeDb → SectionType → Option ℕ → List Content
filled_movies t free_today cap = resolve_free_today_movies t
filled_movies t coming_soon cap = resolve_coming_soon_movies t
filled_movies t most_watched cap = take (cap_or cap 10) (newest_movies (cap_or cap 12 + 10) t)
filled_movies t trending cap = take (cap_or cap 12) (drop 10 (newest_movies (cap_or cap 12 + 10) t))
filled_movies t _ cap = []

-- the movies of a movie rail: the picked ones, or the fill
abbrev pub rail_movies : HomeDb → SectionType → Option ℕ → List Pick → List Content
rail_movies t type cap [] = cut cap (filled_movies t type cap)
rail_movies t type cap (p ∷ picks) = cut cap (movies_of (p ∷ picks))

-- the list if there is anything on it, and else the other
abbrev pub or_else : {A : Type 0} → List A → List A → List A
or_else [] ys = ys
or_else (x ∷ xs) ys = x ∷ xs

module _ (name_before : String → String → Bool) where
  -- live first, then by position and name
  abbrev pub channel_before : TvChannel → TvChannel → Bool
  channel_before a b =
      (a.is_live && not b.is_live)
      || ((a.is_live && b.is_live || not a.is_live && not b.is_live)
          && (ltb a.sort_order b.sort_order
              || (a.sort_order == b.sort_order && name_before a.name b.name)))

  -- the channels that fill an empty rail
  abbrev pub filled_channels : HomeDb → Option ℕ → List TvChannel
  filled_channels t cap =
      take (cap_or cap 12)
        (sort_by channel_before (select (λ (c : TvChannel). c.is_published) t.channels))

  -- the series that fill an empty rail
  abbrev pub filled_series : HomeDb → Option ℕ → List Series
  filled_series t cap = take (cap_or cap 12) (
      sort_by (λ (a b : Series). ltb b.created_at a.created_at)
        (select (λ (s : Series). s.state.is_published) t.catalog.series))

  -- one turn of the loop of `resolve_public_sections`, by the section's type and its limit
  unfoldable pub resolve_typed : ℕ → HomeDb → HomeSection → SectionType → Option ℕ → PublicSection
  resolve_typed now t s plans cap = empty_section s
  resolve_typed now t s hero cap = record (empty_section s) {
    hero_slides = shortened cap (resolve_hero_slides now "home" t);
  }
  resolve_typed now t s banners cap = record (empty_section s) {
    banners = shortened cap (
        or_else (collect (find_banner t) cap 0 (section_items t s.id))
          (list_active_promotion_banners now "home" t));
  }
  resolve_typed now t s tv cap = record (empty_section s) {
    channels =
        or_else (collect (find_channel t) cap 0 (section_items t s.id)) (filled_channels t cap);
  }
  resolve_typed now t s series cap = record (empty_section s) {
    series = or_else (collect (find_series t) cap 0 (section_items t s.id)) (filled_series t cap);
  }
  resolve_typed now t s type cap =
      let picks = collect (find_pick t) cap 0 (section_items t s.id) in
      record (empty_section s) { movies = rail_movies t type cap picks; series = series_of picks }

  unfoldable pub resolve_section : ℕ → HomeDb → HomeSection → PublicSection
  unfolding resolve_typed
  resolve_section now t s = resolve_typed now t s s.type (effective_item_limit s.type s.item_limit)

  -- `resolve_public_sections`
  unfoldable pub resolve_public_sections : ℕ → HomeDb → List PublicSection
  unfolding resolve_section
  resolve_public_sections now t = map (resolve_section now t) (
      sort_by
        (λ (a b : HomeSection).
          ltb a.sort_order b.sort_order
          || (a.sort_order == b.sort_order && ltb a.created_at b.created_at))
        (select (λ (s : HomeSection). s.is_visible) t.sections))
