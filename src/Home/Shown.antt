-- ===== src/Home/Shown.antt =====
-- How much a section of the home page shows.
use movie_api.Shared.{
  ℕ, zero, suc, ◌+◌, ◌≤◌, ◌<◌, ◌≡◌, refl, sym, subst, String, Bool, Option, some, List, [], ◌∷◌,
  arith, length, take, Option-cases, inl, inr,
}
use movie_api.Home.{
  SectionType, hero, banners, tv, free_today, trending, most_watched, coming_soon, series, genre,
  custom, plans, HomeSection, HomeSectionItem, HomeDb, effective_item_limit,
}
use movie_api.Home.Sections.{section_items}
use movie_api.Home.Rails.{resolve_hero_slides, list_active_promotion_banners}
use movie_api.Home.Public.{
  collect, PublicSection, Pick, movie_pick, series_pick, movies_of, series_of, filled_movies,
  rail_movies, or_else, find_pick, find_banner, find_channel, find_series, filled_channels,
  filled_series, resolve_typed, resolve_section,
}

length-take : {A : Type 0} (n : ℕ) (xs : List A) → length (take n xs) ≤ n
length-take zero xs = omega arith
length-take (suc n) [] = omega arith
length-take (suc n) (x ∷ xs) = omega (arith, length-take n xs)

length-collect :
    {A : Type 0} (find : HomeSectionItem → Option A) (cap n : ℕ) (rows : List HomeSectionItem)
    → n < cap
    → length (collect find (some cap) n rows) + n ≤ cap
length-collect find cap n [] room = omega (arith, room)
length-collect find cap n (i ∷ rows) room = elim (Option-cases (find i)) [
  | inl missing ↦ ground (arith, length-collect find cap n rows room)
  | inr (a, found) ↦ ground (arith, length-collect find cap (suc n) rows)
]

length-or_else :
    {A : Type 0} (n : ℕ) (xs ys : List A)
    → length xs ≤ n
    → length ys ≤ n
    → length (or_else xs ys) ≤ n
length-or_else n [] ys le le' = le'
length-or_else n (x ∷ xs) ys le le' = le

length-picks :
    (picks : List Pick) → length (movies_of picks) + length (series_of picks) ≡ length picks
length-picks [] = refl
length-picks (movie_pick m ∷ picks) = omega (arith, length-picks picks)
length-picks (series_pick s ∷ picks) = omega (arith, length-picks picks)

length-cut : {A : Type 0} (n : ℕ) (xs : List A) → length (take n xs) ≤ length xs
length-cut zero xs = omega arith
length-cut (suc n) [] = omega arith
length-cut (suc n) (x ∷ xs) = omega (arith, length-cut n xs)

length-rail :
    (t : HomeDb) (type : SectionType) (cap : ℕ) (picks : List Pick)
    → length picks ≤ cap
    → length (rail_movies t type (some cap) picks) + length (series_of picks) ≤ cap
length-rail t type cap [] le = omega (arith, length-take cap (filled_movies t type (some cap)))
length-rail t type cap (p ∷ picks) le =
    omega (arith, length-picks (p ∷ picks), length-cut cap (movies_of (p ∷ picks)), le)

-- how many cards a section shows
abbrev pub shown : PublicSection → ℕ
shown p =
    length p.movies + length p.series + length p.channels + length p.banners + length p.hero_slides

module _ (name_before : String → String → Bool) where
  rail_shows :
      (now c : ℕ) (t : HomeDb) (s : HomeSection) (type : SectionType)
      → let picks = collect (find_pick t) (some (suc c)) 0 (section_items t s.id) in
        length (rail_movies t type (some (suc c)) picks) + length (series_of picks) + 0 + 0 + 0
        ≤ suc c
  rail_shows now c t s type =
      let rows = section_items t s.id in
      let picks = collect (find_pick t) (some (suc c)) 0 rows in
      let few : length picks ≤ suc c =
        omega (arith, length-collect (find_pick t) (suc c) 0 rows (omega arith)) in
      omega (arith, length-rail t type (suc c) picks few)

  typed_shows :
      (now c : ℕ) (t : HomeDb) (s : HomeSection) (type : SectionType)
      → shown (resolve_typed name_before now t s type (some (suc c))) ≤ suc c
  unfolding resolve_typed
  typed_shows now c t s plans = omega arith
  typed_shows now c t s hero = omega (arith, length-take (suc c) (resolve_hero_slides now "home" t))
  typed_shows now c t s banners = omega (
    arith,
    length-take (suc c) (
        or_else (collect (find_banner t) (some (suc c)) 0 (section_items t s.id))
          (list_active_promotion_banners now "home" t)),
  )
  typed_shows now c t s tv =
      let rows = section_items t s.id in
      let picks = collect (find_channel t) (some (suc c)) 0 rows in
      let few : length picks ≤ suc c =
        omega (arith, length-collect (find_channel t) (suc c) 0 rows (omega arith)) in
      let fill = filled_channels name_before t (some (suc c)) in
      omega (arith, length-or_else (suc c) picks fill few (length-take (suc c) _))
  typed_shows now c t s series =
      let rows = section_items t s.id in
      let picks = collect (find_series t) (some (suc c)) 0 rows in
      let few : length picks ≤ suc c =
        omega (arith, length-collect (find_series t) (suc c) 0 rows (omega arith)) in
      let fill = filled_series name_before t (some (suc c)) in
      omega (arith, length-or_else (suc c) picks fill few (length-take (suc c) _))
  typed_shows now c t s free_today = rail_shows now c t s free_today
  typed_shows now c t s trending = rail_shows now c t s trending
  typed_shows now c t s most_watched = rail_shows now c t s most_watched
  typed_shows now c t s coming_soon = rail_shows now c t s coming_soon
  typed_shows now c t s genre = rail_shows now c t s genre
  typed_shows now c t s custom = rail_shows now c t s custom

  -- A section whose limit is set and not 0 shows no more than its limit, whether its items were picked
  -- or filled in.
  pub section_shows :
      (now c : ℕ) (t : HomeDb) (s : HomeSection)
      → effective_item_limit s.type s.item_limit ≡ some (suc c)
      → shown (resolve_section name_before now t s) ≤ suc c
  unfolding resolve_section
  section_shows now c t s limit =
      subst (λ cap. shown (resolve_typed name_before now t s s.type cap) ≤ suc c) (sym limit)
        (typed_shows now c t s s.type)
