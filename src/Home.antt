-- ===== src/Home.antt =====
-- The sections of the home page: the rules of app/schemas/home_section.py and the admin's operations
-- of app/catalog/home_sections.py and app/routers/admin/home_sections.py, on the columns of
-- app/models/home_section.py, hero_featured_item.py, tv_channel.py, promotion_banner.py and
-- coming_soon_item.py that they read or write. A position is taken as not negative. Requests run one
-- after another: validate_item_add counts without a lock, so that two additions at once may both pass.
pub mod Sections
pub mod Strict
pub mod Order
pub mod Reorder
pub mod Limits
pub mod Steps
pub mod Capacity
pub mod Rails
pub mod Public
pub mod Shown
pub mod Published
use movie_api.Shared.{
  ℕ, zero, suc, ◌+◌, ◌-◌, String, Bool, true, false, not, ◌&&◌, ◌||◌, Option, none, some, List, [],
  ◌∷◌, ◌++◌, ltb, leb, if◌then◌else◌, is_some, str_eq, ◌==◌, lower, squeezed, HttpError, not_found,
  conflict, fixed, signed_in_on, Tx, pure, raise, gets, or_raise, modify, commit, raise_if, ◌>>=◌,
  ◌>>◌, length, select, first, exists, count, update,
}
use movie_api.Publishing.{Series, Content, CatalogDb, is_single}

-- `SECTION_TYPES`
pub data SectionType : Type 0 where
  hero banners tv free_today trending most_watched coming_soon series genre custom plans :
      SectionType

-- `ItemKind`
pub data ItemKind : Type 0 where
  movie series_item tv_channel hero_slide banner : ItemKind

pub record HomeSection : Type 0 where
  pub id : ℕ
  pub type : SectionType
  pub genre_name : Option String
  pub is_visible : Bool
  pub sort_order : ℕ
  pub item_limit : Option ℕ
  pub created_at : ℕ

pub record HomeSectionItem : Type 0 where
  pub id : ℕ
  pub section_id : ℕ
  pub item_kind : ItemKind
  pub ref_id : ℕ
  pub sort_order : ℕ
  pub created_at : ℕ

-- `is_live` stands for `status == "live"`
pub record TvChannel : Type 0 where
  pub id : ℕ
  pub name : String
  pub is_live : Bool
  pub is_published : Bool
  pub sort_order : ℕ

pub data HeroType : Type 0 where
  movie_slide series_slide custom_slide : HeroType

pub record HeroFeaturedItem : Type 0 where
  pub id : ℕ
  pub content_type : HeroType
  pub content_id : Option ℕ
  pub placement : String
  pub is_active : Bool
  pub sort_order : ℕ
  pub starts_at : Option ℕ
  pub ends_at : Option ℕ
  pub created_at : ℕ

pub record PromotionBanner : Type 0 where
  pub id : ℕ
  pub placement : String
  pub is_active : Bool
  pub sort_order : ℕ
  pub starts_at : Option ℕ
  pub ends_at : Option ℕ
  pub created_at : ℕ

-- A row of the tables free_today_items and coming_soon_items.
pub record RailItem : Type 0 where
  pub content_id : ℕ
  pub sort_order : ℕ
  pub created_at : ℕ

pub record HomeDb : Type 0 where
  pub sections : List HomeSection
  pub items : List HomeSectionItem
  pub catalog : CatalogDb
  pub channels : List TvChannel
  pub heroes : List HeroFeaturedItem
  pub banners : List PromotionBanner
  pub free_today_items : List RailItem
  pub coming_soon_items : List RailItem

-- equality of section types and of item kinds, by their places in the lists of the schema
abbrev pub type_index : SectionType → ℕ
type_index hero = 0
type_index banners = 1
type_index tv = 2
type_index free_today = 3
type_index trending = 4
type_index most_watched = 5
type_index coming_soon = 6
type_index series = 7
type_index genre = 8
type_index custom = 9
type_index plans = 10

abbrev pub kind_index : ItemKind → ℕ
kind_index movie = 0
kind_index series_item = 1
kind_index tv_channel = 2
kind_index hero_slide = 3
kind_index banner = 4

-- membership in `SINGLETON_TYPES`
abbrev pub is_singleton : SectionType → Bool
is_singleton genre = false
is_singleton custom = false
is_singleton _ = true

-- `SECTION_CAPS.get`
abbrev pub section_cap : SectionType → Option ℕ
section_cap hero = some 10
section_cap banners = some 10
section_cap free_today = some 10
section_cap most_watched = some 10
section_cap plans = none
section_cap _ = some 12

-- membership in `LIMIT_EDITABLE_TYPES`
abbrev pub is_limit_editable : SectionType → Bool
is_limit_editable hero = false
is_limit_editable banners = false
is_limit_editable plans = false
is_limit_editable _ = true

unfoldable pub effective_item_limit : SectionType → Option ℕ → Option ℕ
effective_item_limit type none = section_cap type
effective_item_limit type (some chosen) =
    if is_limit_editable type then some chosen else section_cap type

-- membership in `ITEM_KINDS_BY_TYPE`
abbrev pub accepts : SectionType → ItemKind → Bool
accepts custom movie = true
accepts custom series_item = true
accepts series series_item = true
accepts tv tv_channel = true
accepts hero hero_slide = true
accepts banners banner = true
accepts free_today movie = true
accepts trending movie = true
accepts most_watched movie = true
accepts coming_soon movie = true
accepts genre movie = true
accepts _ _ = false

-- whether the title, channel, slide or banner is stored
abbrev pub is_stored : HomeDb → ItemKind → ℕ → Bool
is_stored t movie ref_id =
    exists (λ (m : Content). m.id == ref_id && is_single m.type) t.catalog.contents
is_stored t series_item ref_id = exists (λ (s : Series). s.id == ref_id) t.catalog.series
is_stored t tv_channel ref_id = exists (λ (c : TvChannel). c.id == ref_id) t.channels
is_stored t hero_slide ref_id = exists (λ (h : HeroFeaturedItem). h.id == ref_id) t.heroes
is_stored t banner ref_id = exists (λ (b : PromotionBanner). b.id == ref_id) t.banners

abbrev pub on_section : ℕ → HomeSectionItem → Bool
on_section section_id i = i.section_id == section_id

abbrev pub by_section_id : ℕ → HomeSection → Bool
by_section_id section_id s = s.id == section_id

abbrev pub by_item_id : ℕ → HomeSectionItem → Bool
by_item_id item_id i = i.id == item_id

-- `_count_section_items`
abbrev pub count_section_items : HomeDb → ℕ → ℕ
count_section_items t section_id = count (on_section section_id) t.items

-- the item is on the section already
abbrev pub is_same_item : ℕ → ItemKind → ℕ → HomeSectionItem → Bool
is_same_item section_id kind ref_id i =
    i.section_id == section_id
    && (kind_index i.item_kind == kind_index kind)
    && (i.ref_id == ref_id)

-- a limit that is set is reached
abbrev pub is_full : Option ℕ → ℕ → Bool
is_full none n = false
is_full (some cap) n = leb cap n

-- `validate_item_add`, with the statuses that the handler gives its errors
unfoldable pub validate_item_add : HomeSection → ItemKind → ℕ → Tx HomeDb Unit
unfolding effective_item_limit
validate_item_add section kind ref_id = do
  raise_if (not (accepts section.type kind)) (conflict (fixed "sections do not accept the item"))
  known ← gets (λ (t : HomeDb). is_stored t kind ref_id)
  raise_if (not known) (not_found (fixed "item not found"))
  dup ← gets (λ (t : HomeDb). exists (is_same_item section.id kind ref_id) t.items)
  raise_if dup (conflict (fixed "Already on this section"))
  n ← gets (λ t. count_section_items t section.id)
  raise_if (is_full (effective_item_limit section.type section.item_limit) n)
      (conflict (fixed "This section is limited"))

-- `_normalize_genre`: " ".join(name.strip().split())
unfoldable pub normalize_genre : String → String
normalize_genre name = squeezed name

abbrev pub same_genre : String → HomeSection → Bool
same_genre name s =
    (type_index s.type == type_index genre)
    && elim s.genre_name [ none ↦ false | some g ↦ str_eq (lower g) (lower name) ]

-- the part of `validate_section_create` on a genre
unfoldable pub validate_genre : String → Tx HomeDb (Option String)
validate_genre name = do
  raise_if (str_eq name "") (conflict (fixed "genre_name is required for genre sections"))
  dup ← gets (λ (t : HomeDb). exists (same_genre name) t.sections)
  raise_if dup (conflict (fixed "A rail for that genre already exists"))
  pure (some name)

-- `validate_section_create`: the genre to store
unfoldable pub validate_section_create : SectionType → Option String → Tx HomeDb (Option String)
validate_section_create type genre_name = do
  taken ← gets (λ (t : HomeDb). exists (λ s. type_index s.type == type_index type) t.sections)
  raise_if (is_singleton type && taken) (conflict (fixed "section already exists"))
  if type_index type == type_index genre
      then validate_genre (normalize_genre (elim genre_name [ none ↦ "" | some g ↦ g ]))
      else pure none

-- a limit that is set is passed
abbrev pub is_over : Option ℕ → ℕ → Bool
is_over none n = false
is_over (some wanted) n = ltb wanted n

-- `validate_item_limit`
unfoldable pub validate_item_limit : HomeSection → Option ℕ → Tx HomeDb Unit
unfolding effective_item_limit
validate_item_limit section limit = do
  raise_if (not (is_limit_editable section.type))
      (conflict (fixed "This section's limit can't be changed"))
  n ← gets (λ t. count_section_items t section.id)
  raise_if (is_over (effective_item_limit section.type limit) n)
      (conflict (fixed "This section has too many items"))
