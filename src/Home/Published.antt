-- ===== src/Home/Published.antt =====
-- Which movies a section of the home page shows.
use movie_api.Shared.{
  ℕ, zero, suc, ◌≡◌, refl, subst, String, Bool, true, false, ◌&&◌, ◌==◌, Option, none, some, List,
  [], ◌∷◌, arith, In, In-select, In-take, In-first, In-sort_by, first-true, first, select,
  Option-cases, inl, inr, ltb, length, All, if◌then◌else◌, ◌+◌,
}
use movie_api.Community.Listing.{drop}
use movie_api.Publishing.{Content, Series}
use movie_api.Home.{
  SectionType, hero, banners, tv, free_today, trending, most_watched, coming_soon, series, genre,
  custom, plans, HomeSection, HomeSectionItem, ItemKind, is_full, movie, series_item, tv_channel,
  hero_slide, banner, HomeDb, RailItem, type_index, on_section,
}
use movie_api.Home.Sections.{section_items}
use movie_api.Home.Rails.{
  is_public_movie, joined_movies, legacy_free_today, free_today_section, resolve_free_today_movies,
  free_today_rail, is_movie_kind,
}
use movie_api.Home.Public.{
  collect, cut, movie_of, serial_of, pick_of, Pick, movie_pick, series_pick, movies_of,
  filled_movies, rail_movies, find_pick, newest_movies, cap_or, resolve_typed, resolve_section,
}

-- a movie of the catalog that is published
abbrev pub IsListed : HomeDb → Content → Type 0
IsListed t m = In m t.catalog.contents × (is_public_movie m ≡ true)

In-drop : {A : Type 0} (n : ℕ) (x : A) (xs : List A) → In x (drop n xs) → In x xs
In-drop zero x xs i = i
In-drop (suc n) x [] i = i
In-drop (suc n) x (y ∷ xs) i = inr (In-drop n x xs i)

In-cut : {A : Type 0} (cap : Option ℕ) (x : A) (xs : List A) → In x (cut cap xs) → In x xs
In-cut none x xs i = i
In-cut (some n) x xs i = In-take n x xs i

and_right : (a b : Bool) → a && b ≡ true → b ≡ true
and_right a b h = ground arith

In-joined_movies :
    {R : Type 0} (ref : R → ℕ) (p : Content → Bool) (movies : List Content) (rows : List R)
    (m : Content)
    → In m (joined_movies ref p movies rows)
    → In m movies × (p m ≡ true)
In-joined_movies ref p movies [] m i = absurd i
In-joined_movies ref p movies (r ∷ rows) m i =
    elim (Option-cases (first (λ (m : Content). m.id == ref r && p m) movies)) [
      | inl missing ↦ In-joined_movies ref p movies rows m (subst (λ f. In m (joins f)) missing i)
      | inr (a, found) ↦ elim (subst (λ f. In m (joins f)) found i) [
        | inl same ↦
            subst (λ x. In x movies × (p x ≡ true)) same
              (In-first _ movies found, and_right _ _ (first-true _ movies found))
        | inr later ↦ In-joined_movies ref p movies rows m later
      ]
    ]
  where
    joins : Option Content → List Content
    joins f = elim f [
      | none ↦ joined_movies ref p movies rows
      | some m ↦ m ∷ joined_movies ref p movies rows
    ]

In-newest_movies : (n : ℕ) (t : HomeDb) (m : Content) → In m (newest_movies n t) → IsListed t m
In-newest_movies n t m i = (In-select _ m _).0 ((In-sort_by _ m _).0 (In-take n m _ i))

In-legacy_free_today : (t : HomeDb) (m : Content) → In m (legacy_free_today t) → IsListed t m
In-legacy_free_today t m i =
    In-joined_movies (λ (r : RailItem). r.content_id) is_public_movie t.catalog.contents _ m
      (In-take 10 m _ i)

in_branch :
    {P : Type 0} (b : Bool) (xs ys : List Content) (m : Content)
    → In m (if b then xs else ys)
    → (In m xs → P)
    → (In m ys → P)
    → P
in_branch true xs ys m i f g = f i
in_branch false xs ys m i f g = g i

In-free_today_rail :
    (t : HomeDb) (s : Option HomeSection) (m : Content) → In m (free_today_rail t s) → IsListed t m
In-free_today_rail t none m i = In-legacy_free_today t m i
In-free_today_rail t (some s) m i =
    in_branch (ltb 0 (length (select is_movie_kind (select (on_section s.id) t.items)))) _ _ m i
      (λ i.
        In-joined_movies (λ (i : HomeSectionItem). i.ref_id) is_public_movie t.catalog.contents _ m
          (In-take 10 m _ i))
      (In-legacy_free_today t m)

-- Every fill but the rail of announced movies is published.
In-filled_movies :
    (t : HomeDb) (type : SectionType) (limit : Option ℕ) (m : Content)
    → type_index type == type_index coming_soon ≡ false
    → In m (filled_movies t type limit)
    → IsListed t m
unfolding filled_movies resolve_free_today_movies
In-filled_movies t free_today limit m other i = In-free_today_rail t (free_today_section t) m i
In-filled_movies t coming_soon limit m other i = cc
In-filled_movies t most_watched limit m other i =
    In-newest_movies (cap_or limit 12 + 10) t m (In-take (cap_or limit 10) m _ i)
In-filled_movies t trending limit m other i =
    In-newest_movies (cap_or limit 12 + 10) t m (In-drop 10 m _ (In-take (cap_or limit 12) m _ i))
In-filled_movies t hero limit m other i = absurd i
In-filled_movies t banners limit m other i = absurd i
In-filled_movies t tv limit m other i = absurd i
In-filled_movies t series limit m other i = absurd i
In-filled_movies t genre limit m other i = absurd i
In-filled_movies t custom limit m other i = absurd i
In-filled_movies t plans limit m other i = absurd i

-- what a find gives: a picked movie is published
abbrev IsPick : HomeDb → Pick → Type 0
IsPick t (movie_pick m) = IsListed t m
IsPick t (series_pick s) = Unit

In-movies_of :
    (t : HomeDb) (picks : List Pick) (m : Content)
    → All (IsPick t) picks
    → In m (movies_of picks)
    → IsListed t m
In-movies_of t [] m h i = absurd i
In-movies_of t (movie_pick a ∷ picks) m h (inl same) = subst (IsListed t) same h.0
In-movies_of t (movie_pick a ∷ picks) m h (inr i) = In-movies_of t picks m h.1 i
In-movies_of t (series_pick a ∷ picks) m h i = In-movies_of t picks m h.1 i

movie_of-IsPick :
    (t : HomeDb) (o : Option Content) (p : Pick)
    → ((m : Content) → o ≡ some m → IsListed t m)
    → movie_of o ≡ some p
    → IsPick t p
movie_of-IsPick t none p h found = cc
movie_of-IsPick t (some m) p h found =
    let same : movie_pick m ≡ p = cc in subst (IsPick t) same (h m refl)

serial_of-IsPick : (t : HomeDb) (o : Option Series) (p : Pick) → serial_of o ≡ some p → IsPick t p
serial_of-IsPick t none p found = cc
serial_of-IsPick t (some s) p found = let same : series_pick s ≡ p = cc in subst (IsPick t) same tt

pick_of-IsPick :
    (t : HomeDb) (id : ℕ) (kind : ItemKind) (p : Pick) → pick_of t id kind ≡ some p → IsPick t p
pick_of-IsPick t id movie p found =
    movie_of-IsPick t _ p
      (λ m e. (In-first _ t.catalog.contents e, and_right _ _ (first-true _ t.catalog.contents e)))
      found
pick_of-IsPick t id series_item p found = serial_of-IsPick t _ p found
pick_of-IsPick t id tv_channel p found = cc
pick_of-IsPick t id hero_slide p found = cc
pick_of-IsPick t id banner p found = cc

All-collect :
    {A : Type 0} (P : A → Type 0) (find : HomeSectionItem → Option A) (limit : Option ℕ) (n : ℕ)
    (rows : List HomeSectionItem)
    → ((i : HomeSectionItem) (a : A) → find i ≡ some a → P a)
    → All P (collect find limit n rows)
All-collect P find limit n [] h = tt
All-collect P find limit n (i ∷ rows) h = elim (Option-cases (find i)) [
  | inl missing ↦ rw (missing, All) (All-collect P find limit n rows h)
  | inr (a, found) ↦
      rw (found, All)
        (h i a found, kept (is_full limit (suc n)) _ (All-collect P find limit (suc n) rows h))
]
  where
    kept : (b : Bool) (xs : List _) → All P xs → All P (if b then [] else xs)
    kept true xs h = tt
    kept false xs h = h

rail_lists :
    (t : HomeDb) (type : SectionType) (limit : Option ℕ) (picks : List Pick) (m : Content)
    → type_index type == type_index coming_soon ≡ false
    → All (IsPick t) picks
    → In m (rail_movies t type limit picks)
    → IsListed t m
rail_lists t type limit [] m other h i = In-filled_movies t type limit m other (In-cut limit m _ i)
rail_lists t type limit (p ∷ picks) m other h i =
    In-movies_of t (p ∷ picks) m h (In-cut limit m _ i)

collect-IsPick :
    (t : HomeDb) (s : HomeSection) (limit : Option ℕ)
    → All (IsPick t) (collect (find_pick t) limit 0 (section_items t s.id))
collect-IsPick t s limit =
    All-collect (IsPick t) (find_pick t) limit 0 (section_items t s.id)
      (λ i p found. pick_of-IsPick t i.ref_id i.item_kind p found)

module _ (name_before : String → String → Bool) where
  typed_lists :
      (now : ℕ) (t : HomeDb) (s : HomeSection) (type : SectionType) (limit : Option ℕ) (m : Content)
      → type_index type == type_index coming_soon ≡ false
      → In m (resolve_typed name_before now t s type limit).movies
      → IsListed t m
  unfolding resolve_typed
  typed_lists now t s plans limit m other i = absurd i
  typed_lists now t s hero limit m other i = absurd i
  typed_lists now t s banners limit m other i = absurd i
  typed_lists now t s tv limit m other i = absurd i
  typed_lists now t s series limit m other i = absurd i
  typed_lists now t s free_today limit m other i =
      rail_lists t free_today limit _ m other (collect-IsPick t s limit) i
  typed_lists now t s trending limit m other i =
      rail_lists t trending limit _ m other (collect-IsPick t s limit) i
  typed_lists now t s most_watched limit m other i =
      rail_lists t most_watched limit _ m other (collect-IsPick t s limit) i
  typed_lists now t s coming_soon limit m other i = cc
  typed_lists now t s genre limit m other i =
      rail_lists t genre limit _ m other (collect-IsPick t s limit) i
  typed_lists now t s custom limit m other i =
      rail_lists t custom limit _ m other (collect-IsPick t s limit) i

  -- Every movie that a section shows is a movie of the catalog that is published, unless the section
  -- is the rail of announced movies.
  pub section_lists :
      (now : ℕ) (t : HomeDb) (s : HomeSection) (m : Content)
      → type_index s.type == type_index coming_soon ≡ false
      → In m (resolve_section name_before now t s).movies
      → IsListed t m
  unfolding resolve_section
  section_lists now t s m other i = typed_lists now t s s.type _ m other i
