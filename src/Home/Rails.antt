-- ===== src/Home/Rails.antt =====
-- The rails that other parts of the catalog fill: app/catalog/hero_featured.py, promotion_banners.py,
-- free_today.py and coming_soon.py. A slide shows as its row of hero_featured_items.
use movie_api.Shared.{
  ℕ, String, Bool, true, false, ◌&&◌, ◌||◌, Option, none, some, List, [], ◌∷◌, ltb, leb,
  if◌then◌else◌, str_eq, ◌==◌, length, select, first, exists, take, sort_by,
}
use movie_api.Publishing.{Series, Content, is_single, is_set}
use movie_api.Home.{
  free_today, movie, HomeSection, HomeSectionItem, movie_slide, series_slide, custom_slide,
  HeroFeaturedItem, PromotionBanner, RailItem, HomeDb, type_index, kind_index, on_section,
}
use movie_api.Home.Sections.{item_before}

-- `starts_at` and `ends_at` of a slide or a banner
abbrev pub is_running : ℕ → Option ℕ → Option ℕ → Bool
is_running now starts_at ends_at =
    elim starts_at [ none ↦ true | some at ↦ leb at now ]
    && elim ends_at [ none ↦ true | some at ↦ leb now at ]

-- `order_by(sort_order.asc(), created_at.desc())`, of two rows by these columns
abbrev pub goes_before : ℕ → ℕ → ℕ → ℕ → Bool
goes_before order created order' created' =
    ltb order order' || (order == order' && ltb created' created)

-- a movie that the page may show
abbrev pub is_public_movie : Content → Bool
is_public_movie m = is_single m.type && m.state.is_published

-- `list_active_hero_items`
unfoldable pub list_active_hero_items : ℕ → String → HomeDb → List HeroFeaturedItem
list_active_hero_items now placement t =
    sort_by
      (λ (a b : HeroFeaturedItem). goes_before a.sort_order a.created_at b.sort_order b.created_at)
      (select
        (λ (h : HeroFeaturedItem).
          str_eq h.placement placement && h.is_active && is_running now h.starts_at h.ends_at)
        t.heroes)

-- whether `_build_slide` gives a slide
abbrev pub has_slide : HomeDb → HeroFeaturedItem → Bool
has_slide t h = elim h.content_id [
  | none ↦ elim h.content_type [ custom_slide ↦ true | movie_slide ↦ false | series_slide ↦ false ]
  | some id ↦ elim h.content_type [
    | custom_slide ↦ true
    | movie_slide ↦ exists (λ (m : Content). m.id == id && is_public_movie m) t.catalog.contents
    | series_slide ↦ exists (λ (s : Series). s.id == id && s.state.is_published) t.catalog.series
  ]
]

-- `resolve_hero_slides`
unfoldable pub resolve_hero_slides : ℕ → String → HomeDb → List HeroFeaturedItem
unfolding list_active_hero_items
resolve_hero_slides now placement t = select (has_slide t) (list_active_hero_items now placement t)

-- `list_active_promotion_banners`
unfoldable pub list_active_promotion_banners : ℕ → String → HomeDb → List PromotionBanner
list_active_promotion_banners now placement t =
    sort_by
      (λ (a b : PromotionBanner). goes_before a.sort_order a.created_at b.sort_order b.created_at)
      (select
        (λ (b : PromotionBanner).
          str_eq b.placement placement && b.is_active && is_running now b.starts_at b.ends_at)
        t.banners)

-- The titles that rows refer to, in the order of the rows: a join.
abbrev pub joined_movies {ℓ} :
    {R : Type ℓ} → (R → ℕ) → (Content → Bool) → List Content → List R → List Content
joined_movies ref p movies [] = []
joined_movies ref p movies (r ∷ rows) = elim (first (λ m. m.id == ref r && p m) movies) [
  | none ↦ joined_movies ref p movies rows
  | some m ↦ m ∷ joined_movies ref p movies rows
]

abbrev pub rail_before : RailItem → RailItem → Bool
rail_before a b = goes_before a.sort_order a.created_at b.sort_order b.created_at

abbrev pub is_movie_kind : HomeSectionItem → Bool
is_movie_kind i = kind_index i.item_kind == kind_index movie

-- the visible rail with the lowest position
abbrev pub free_today_section : HomeDb → Option HomeSection
free_today_section t =
    first (λ _. true)
      (sort_by (λ (a b : HomeSection). ltb a.sort_order b.sort_order)
        (select (λ s. type_index s.type == type_index free_today && s.is_visible) t.sections))

-- the rail of the table free_today_items
abbrev pub legacy_free_today : HomeDb → List Content
legacy_free_today t = take 10 (
    joined_movies (λ (r : RailItem). r.content_id) is_public_movie t.catalog.contents
      (sort_by rail_before t.free_today_items))

-- the movies of a section, if it has any, and else the rail of the table
abbrev pub free_today_rail : HomeDb → Option HomeSection → List Content
free_today_rail t none = legacy_free_today t
free_today_rail t (some s) =
    let picks = select is_movie_kind (select (on_section s.id) t.items) in
    if ltb 0 (length picks)
    then take 10 (
        joined_movies (λ (i : HomeSectionItem). i.ref_id) is_public_movie t.catalog.contents
          (sort_by item_before picks))
    else legacy_free_today t

-- `resolve_free_today_movies`
unfoldable pub resolve_free_today_movies : HomeDb → List Content
resolve_free_today_movies t = free_today_rail t (free_today_section t)

-- `resolve_coming_soon_movies`
unfoldable pub resolve_coming_soon_movies : HomeDb → List Content
resolve_coming_soon_movies t = take 20 (
    joined_movies (λ (r : RailItem). r.content_id) (λ m. is_single m.type && is_set m.poster_key)
      t.catalog.contents (sort_by rail_before t.coming_soon_items))
