-- ===== src/Home/Steps.antt =====
-- Each request of an admin on the sections, and what it stores.
use movie_api.Shared.{
  ℕ, ◌≡◌, ◌⊎◌, refl, String, Bool, false, Option, none, some, ◌∷◌, arith, ok, err, run, Conn,
  HttpError, conflict, not_found, fixed, first, exists, update, Bool-cases, Option-cases,
  Result-cases, inl, inr,
}
use movie_api.Home.{
  SectionType, ItemKind, HomeSection, HomeSectionItem, HomeDb, by_section_id, effective_item_limit,
  is_limit_editable, is_full, is_over, validate_item_limit, validate_item_add, count_section_items,
  accepts, is_stored, is_same_item, validate_section_create, validate_genre,
}
use movie_api.Home.Sections.{
  HomeSectionUpdate, with_changes, admin_create_home_section, admin_update_home_section,
  admin_create_home_section_item,
}

-- A check of a new item changes nothing, and passes only below the section's limit.
validate_add-cases :
    (s : HomeSection) (kind : ItemKind) (ref_id : ℕ) (c : Conn HomeDb)
    → ((e : HttpError) × (validate_item_add s kind ref_id c ≡ (err e, c)))
      ⊎ ((validate_item_add s kind ref_id c ≡ (ok tt, c))
          × (is_full (effective_item_limit s.type s.item_limit) (count_section_items c.current s.id)
              ≡ false))
unfolding validate_item_add
validate_add-cases s kind ref_id c = elim (Bool-cases (accepts s.type kind)) [
  | inr refused ↦ inl (conflict (fixed "sections do not accept the item"), ground arith)
  | inl taken ↦ elim (Bool-cases (is_stored c.current kind ref_id)) [
    | inr missing ↦ inl (not_found (fixed "item not found"), ground arith)
    | inl known ↦ elim (Bool-cases (exists (is_same_item s.id kind ref_id) c.current.items)) [
      | inl twice ↦ inl (conflict (fixed "Already on this section"), ground arith)
      | inr new ↦
          elim (Bool-cases (
            is_full (effective_item_limit s.type s.item_limit)
              (count_section_items c.current s.id))) [
                | inl full ↦ inl (conflict (fixed "This section is limited"), ground arith)
                | inr room ↦ inr (ground arith, room)
              ]
    ]
  ]
]

pub add_stores :
    (now id section_id : ℕ) (kind : ItemKind) (ref_id sort_order : ℕ) (t : HomeDb)
    → ((run (admin_create_home_section_item now id section_id kind ref_id sort_order) t).1 ≡ t)
      ⊎ ((s : HomeSection) × (item : HomeSectionItem) × (first (by_section_id section_id) t.sections
            ≡ some s)
          × (is_full (effective_item_limit s.type s.item_limit) (count_section_items t s.id)
              ≡ false)
          × (item.section_id ≡ section_id)
          × ((run (admin_create_home_section_item now id section_id kind ref_id sort_order) t).1
              ≡ record t { items = item ∷ t.items }))
unfolding admin_create_home_section_item
add_stores now id section_id kind ref_id sort_order t =
    elim (Option-cases (first (by_section_id section_id) t.sections)) [
      | inl missing ↦ inl (ground arith)
      | inr (s, found) ↦
          elim (validate_add-cases s kind ref_id (record { current = t; saved = t })) [
            | inl (e, refused) ↦ inl (ground arith)
            | inr (passed, room) ↦
                let item : HomeSectionItem = record {
                  id = id;
                  section_id = section_id;
                  item_kind = kind;
                  ref_id = ref_id;
                  sort_order = sort_order;
                  created_at = now;
                } in
                inr (s, item, found, room, refl, ground arith)
          ]
    ]

validate_limit-cases :
    (s : HomeSection) (limit : Option ℕ) (c : Conn HomeDb)
    → ((e : HttpError) × (validate_item_limit s limit c ≡ (err e, c)))
      ⊎ ((validate_item_limit s limit c ≡ (ok tt, c))
          × (is_over (effective_item_limit s.type limit) (count_section_items c.current s.id)
              ≡ false))
unfolding validate_item_limit
validate_limit-cases s limit c = elim (Bool-cases (is_limit_editable s.type)) [
  | inr fixed_limit ↦ inl (conflict (fixed "This section's limit can't be changed"), ground arith)
  | inl editable ↦
      elim (Bool-cases
        (is_over (effective_item_limit s.type limit) (count_section_items c.current s.id))) [
          | inl over ↦ inl (conflict (fixed "This section has too many items"), ground arith)
          | inr within ↦ inr (ground arith, within)
        ]
]

pub update_stores :
    (section_id : ℕ) (d : HomeSectionUpdate) (t : HomeDb)
    → ((run (admin_update_home_section section_id d) t).1 ≡ t)
      ⊎ ((s : HomeSection) × (first (by_section_id section_id) t.sections ≡ some s)
          × ((d.item_limit ≡ none)
              ⊎ ((limit : Option ℕ) × (d.item_limit ≡ some limit)
                  × (is_over (effective_item_limit s.type limit) (count_section_items t s.id)
                      ≡ false)))
          × ((run (admin_update_home_section section_id d) t).1 ≡ record t {
            sections = update (by_section_id section_id) (with_changes d) t.sections;
          }))
unfolding admin_update_home_section
update_stores section_id d t = elim (Option-cases (first (by_section_id section_id) t.sections)) [
  | inl missing ↦ inl (ground arith)
  | inr (s, found) ↦ elim (Option-cases d.item_limit) [
    | inl unset ↦ inr (s, found, inl unset, ground arith)
    | inr (limit, set) ↦ elim (validate_limit-cases s limit (record { current = t; saved = t })) [
      | inl (e, refused) ↦ inl (ground arith)
      | inr (passed, within) ↦ inr (s, found, inr (limit, set, within), ground arith)
    ]
  ]
]

validate_create-keeps :
    (type : SectionType) (genre_name : Option String) (c : Conn HomeDb)
    → (validate_section_create type genre_name c).1 ≡ c
unfolding validate_section_create validate_genre
validate_create-keeps type genre_name c = ground arith

pub create_section_stores :
    (now id : ℕ) (type : SectionType) (genre_name : Option String) (is_visible : Bool)
    (sort_order : ℕ) (t : HomeDb)
    → ((run (admin_create_home_section now id type genre_name is_visible sort_order) t).1 ≡ t)
      ⊎ ((s : HomeSection) × (s.id ≡ id)
          × ((run (admin_create_home_section now id type genre_name is_visible sort_order) t).1
              ≡ record t { sections = s ∷ t.sections }))
unfolding admin_create_home_section
create_section_stores now id type genre_name is_visible sort_order t =
    let c : Conn HomeDb = record { current = t; saved = t } in
    elim (Result-cases (validate_section_create type genre_name c).0) [
      | inl (e, refused) ↦ inl (ground (arith, validate_create-keeps type genre_name c))
      | inr (stored_genre, checked) ↦
          let s : HomeSection = record {
            id = id;
            type = type;
            genre_name = stored_genre;
            is_visible = is_visible;
            sort_order = sort_order;
            item_limit = none;
            created_at = now;
          } in
          inr (s, refl, ground (arith, validate_create-keeps type genre_name c))
    ]
