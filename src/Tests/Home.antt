-- ===== src/Tests/Home.antt =====
-- The home page's sections at concrete rows.
use movie_api.Shared.{
  ℕ, ◌+◌, ◌≡◌, ◌≤◌, refl, true, false, inl, Option, none, some, [], ◌∷◌, ok, run, squeezed, lstrip,
}
use movie_api.Home.{
  SectionType, custom, trending, movie, HomeSection, HomeSectionItem, HomeDb, effective_item_limit,
  validate_item_limit, normalize_genre,
}
use movie_api.Home.Sections.{
  HomeSectionUpdate, admin_update_home_section, reorder_section_items, section_items, item_ids,
}
use movie_api.Home.Reorder.{reorder_lists}
use movie_api.Home.Limits.{IsLimited}
use movie_api.Home.Public.{resolve_section, resolve_typed}
use movie_api.Home.Shown.{shown, section_shows}
use movie_api.Home.Published.{IsListed, section_lists}
use movie_api.Shop.{single}
use movie_api.Publishing.{published, Content}
use movie_api.Home.Capacity.{updates, HomeStep-IsLimited}

abbrev section_row : ℕ → SectionType → Option ℕ → HomeSection
section_row id type limit = record {
  id = id;
  type = type;
  genre_name = none;
  is_visible = true;
  sort_order = id;
  item_limit = limit;
  created_at = 0;
}

abbrev pick : ℕ → ℕ → ℕ → HomeSectionItem
pick id section_id sort_order = record {
  id = id;
  section_id = section_id;
  item_kind = movie;
  ref_id = id + 100;
  sort_order = sort_order;
  created_at = 0;
}

abbrev film : Content
film = record {
  id = 111;
  slug = "the-ride";
  type = single;
  series_id = none;
  poster_key = some "posters/1.webp";
  hls_master_key = some "hls/1/master.m3u8";
  audio_key = none;
  transcode_status = "done";
  is_free = false;
  created_at = 0;
  state = record { status = published; is_published = true; publish_at = none };
}

abbrev home : HomeDb
home = record {
  sections = section_row 1 trending (some 2) ∷ section_row 2 custom none ∷ [];
  items = pick 11 1 0 ∷ pick 12 1 1 ∷ pick 21 2 0 ∷ [];
  catalog = record { series = []; contents = film ∷ []; transcode_jobs = [] };
  channels = [];
  heroes = [];
  banners = [];
  free_today_items = [];
  coming_soon_items = [];
}

swapped : (run (reorder_section_items 1 (12 ∷ 11 ∷ [])) home).0 ≡ ok tt
unfolding reorder_section_items
swapped = refl

reorder_lists_example :
    item_ids (section_items (run (reorder_section_items 1 (12 ∷ 11 ∷ [])) home).1 1) ≡ 12 ∷ 11 ∷ []
reorder_lists_example = reorder_lists 1 (12 ∷ 11 ∷ []) home (refl, (refl, (refl, tt))) swapped

-- A limit of one is refused on a rail of two.
abbrev lower_limit : HomeSectionUpdate
lower_limit = record {
  genre_name = none;
  is_visible = none;
  sort_order = none;
  item_limit = some (some 1);
}

home-IsLimited : IsLimited home
unfolding effective_item_limit
home-IsLimited = ((refl, (refl, tt)), (refl, (refl, tt)))

HomeStep-IsLimited_example : IsLimited (run (admin_update_home_section 1 lower_limit) home).1
HomeStep-IsLimited_example = HomeStep-IsLimited {t = home} home-IsLimited (updates 1 lower_limit)

limit_refused : (run (admin_update_home_section 1 lower_limit) home).1 ≡ home
unfolding admin_update_home_section validate_item_limit effective_item_limit
limit_refused = refl

words_kept : normalize_genre "  Sci   Fi " ≡ "Sci Fi"
unfolding normalize_genre squeezed lstrip
words_kept = refl

limit_set : effective_item_limit trending (some 2) ≡ some 2
unfolding effective_item_limit
limit_set = refl

section_shows_example :
    shown (resolve_section (λ a b. false) 5 home (section_row 1 trending (some 2))) ≤ 2
section_shows_example =
    section_shows (λ a b. false) 5 1 home (section_row 1 trending (some 2)) limit_set

section_lists_example : IsListed home film
unfolding resolve_section resolve_typed effective_item_limit section_items
section_lists_example =
    section_lists (λ a b. false) 5 home (section_row 1 trending (some 2)) film refl (inl refl)
