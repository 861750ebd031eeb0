-- ===== src/Home/Sections.antt =====
-- The handlers of app/routers/admin/home_sections.py that change sections and their items, and the
-- orders of app/catalog/home_sections.py. Titles are left out, and so are the response bodies.
use movie_api.Shared.{
  ℕ, suc, String, Bool, true, false, not, ◌&&◌, ◌||◌, Option, none, some, List, [], ◌∷◌, ltb,
  if◌then◌else◌, str_eq, ◌==◌, HttpError, not_found, conflict, fixed, Tx, pure, gets, or_raise,
  modify, commit, raise_if, ◌>>=◌, ◌>>◌, select, first, exists, update, sort_by,
}
use movie_api.Community.Listing.{mem}
use movie_api.Home.{
  SectionType, genre, custom, ItemKind, HomeSection, HomeSectionItem, HomeDb, type_index,
  on_section, by_section_id, by_item_id, validate_item_add, validate_section_create,
  validate_item_limit, normalize_genre,
}

abbrev pub section_error : HttpError
section_error = not_found (fixed "Home section not found")

abbrev pub item_error : HttpError
item_error = not_found (fixed "Home section item not found")

unfoldable pub admin_create_home_section :
    ℕ → ℕ → SectionType → Option String → Bool → ℕ → Tx HomeDb HomeSection
unfolding validate_section_create
admin_create_home_section now id type genre_name is_visible sort_order = do
  stored_genre ← validate_section_create type genre_name
  let section : HomeSection = record {
    id = id;
    type = type;
    genre_name = stored_genre;
    is_visible = is_visible;
    sort_order = sort_order;
    item_limit = none;
    created_at = now;
  }
  modify (λ t. record t { sections = section ∷ t.sections })
  commit
  pure section

-- `HomeSectionUpdate`; a limit of None is `some none`
pub record HomeSectionUpdate : Type 0 where
  pub genre_name : Option String
  pub is_visible : Option Bool
  pub sort_order : Option ℕ
  pub item_limit : Option (Option ℕ)

abbrev pub given {ℓ} : {A : Type ℓ} → Option A → A → A
given none old = old
given (some new) old = new

abbrev pub is_genre : SectionType → Bool
is_genre type = type_index type == type_index genre

-- the new genre of a genre section, unless it is blank
abbrev pub new_genre : HomeSectionUpdate → HomeSection → Option String
new_genre d s = elim d.genre_name [
  | none ↦ s.genre_name
  | some name ↦
      let words = normalize_genre name in
      if is_genre s.type && not (str_eq words "") then some words else s.genre_name
]

-- the row after the fields of the request are set
abbrev pub with_changes : HomeSectionUpdate → HomeSection → HomeSection
with_changes d s = record s {
  genre_name = new_genre d s;
  is_visible = given d.is_visible s.is_visible;
  sort_order = given d.sort_order s.sort_order;
  item_limit = given d.item_limit s.item_limit;
}

unfoldable pub admin_update_home_section : ℕ → HomeSectionUpdate → Tx HomeDb HomeSection
unfolding validate_item_limit
admin_update_home_section section_id d = do
  found ← gets (λ (t : HomeDb). first (by_section_id section_id) t.sections)
  section ← or_raise found section_error
  elim d.item_limit [ none ↦ pure tt | some limit ↦ validate_item_limit section limit ]
  let changed : HomeSection = with_changes d section
  modify
      (λ t. record t { sections = update (by_section_id section_id) (with_changes d) t.sections })
  commit
  pure changed

abbrev pub is_deletable : SectionType → Bool
is_deletable genre = true
is_deletable custom = true
is_deletable _ = false

-- `admin_delete_home_section`: the items go with their section
unfoldable pub admin_delete_home_section : ℕ → Tx HomeDb Unit
admin_delete_home_section section_id = do
  found ← gets (λ (t : HomeDb). first (by_section_id section_id) t.sections)
  section ← or_raise found section_error
  raise_if (not (is_deletable section.type))
      (conflict (fixed "Hide this section instead of deleting it"))
  modify (λ t. record t {
    sections = select (λ s. not (by_section_id section_id s)) t.sections;
    items = select (λ i. not (on_section section_id i)) t.items;
  })
  commit

unfoldable pub admin_create_home_section_item :
    ℕ → ℕ → ℕ → ItemKind → ℕ → ℕ → Tx HomeDb HomeSectionItem
unfolding validate_item_add
admin_create_home_section_item now id section_id kind ref_id sort_order = do
  found ← gets (λ (t : HomeDb). first (by_section_id section_id) t.sections)
  section ← or_raise found section_error
  validate_item_add section kind ref_id
  let item : HomeSectionItem = record {
    id = id;
    section_id = section_id;
    item_kind = kind;
    ref_id = ref_id;
    sort_order = sort_order;
    created_at = now;
  }
  modify (λ t. record t { items = item ∷ t.items })
  commit
  pure item

unfoldable pub admin_update_home_section_item : ℕ → ℕ → Tx HomeDb HomeSectionItem
admin_update_home_section_item item_id sort_order = do
  found ← gets (λ (t : HomeDb). first (by_item_id item_id) t.items)
  item ← or_raise found item_error
  modify (λ t. record t {
    items = update (by_item_id item_id) (λ i. record i { sort_order = sort_order }) t.items;
  })
  commit
  pure (record item { sort_order = sort_order })

unfoldable pub admin_delete_home_section_item : ℕ → Tx HomeDb Unit
admin_delete_home_section_item item_id = do
  found ← gets (λ (t : HomeDb). first (by_item_id item_id) t.items)
  item ← or_raise found item_error
  modify (λ t. record t { items = select (λ i. not (by_item_id item_id i)) t.items })
  commit

-- `len(ids) == len(set(ids))`
abbrev pub is_distinct : List ℕ → Bool
is_distinct [] = true
is_distinct (k ∷ ks) = not (mem k ks) && is_distinct ks

-- for index, item_id in enumerate(ids): `by_id[item_id].sort_order = index`, from an index on
unfoldable pub number_items : ℕ → List ℕ → List HomeSectionItem → List HomeSectionItem
number_items n [] rows = rows
number_items n (k ∷ ks) rows =
    number_items (suc n) ks (update (by_item_id k) (λ i. record i { sort_order = n }) rows)

abbrev pub item_ids : List HomeSectionItem → List ℕ
item_ids [] = []
item_ids (i ∷ rows) = i.id ∷ item_ids rows

-- `set(a) <= set(b)`
abbrev pub is_subset : List ℕ → List ℕ → Bool
is_subset [] ks = true
is_subset (j ∷ js) ks = mem j ks && is_subset js ks

-- the guard of `reorder_section_items`
abbrev pub is_order_of : List ℕ → List HomeSectionItem → Bool
is_order_of ids rows =
    is_distinct ids && is_subset ids (item_ids rows) && is_subset (item_ids rows) ids

-- `admin_reorder_home_section_items`, with `reorder_section_items`
unfoldable pub reorder_section_items : ℕ → List ℕ → Tx HomeDb Unit
reorder_section_items section_id ids = do
  known ← gets (λ (t : HomeDb). exists (by_section_id section_id) t.sections)
  raise_if (not known) section_error
  rows ← gets (λ (t : HomeDb). select (on_section section_id) t.items)
  raise_if (not (is_order_of ids rows))
      (conflict (fixed "This rail changed. Refresh and try again."))
  modify (λ t. record t { items = number_items 0 ids t.items })
  commit

-- the loop of `reorder_sections`
unfoldable pub number_sections : ℕ → List ℕ → List HomeSection → List HomeSection
number_sections n [] rows = rows
number_sections n (k ∷ ks) rows =
    number_sections (suc n) ks (update (by_section_id k) (λ s. record s { sort_order = n }) rows)

abbrev pub section_ids : List HomeSection → List ℕ
section_ids [] = []
section_ids (s ∷ rows) = s.id ∷ section_ids rows

-- `admin_reorder_home_sections`, with `reorder_sections`: an id may come twice, and its last place counts
unfoldable pub reorder_sections : List ℕ → Tx HomeDb Unit
reorder_sections ids = do
  known ← gets (λ (t : HomeDb). is_subset ids (section_ids t.sections))
  raise_if (not known) (not_found (fixed "One or more sections were not found"))
  modify (λ t. record t { sections = number_sections 0 ids t.sections })
  commit

-- `order_by(sort_order.asc(), created_at.desc())`
abbrev pub item_before : HomeSectionItem → HomeSectionItem → Bool
item_before a b =
    ltb a.sort_order b.sort_order || (a.sort_order == b.sort_order && ltb b.created_at a.created_at)

-- the rows of `list_section_items_admin`
unfoldable pub section_items : HomeDb → ℕ → List HomeSectionItem
section_items t section_id = sort_by item_before (select (on_section section_id) t.items)
