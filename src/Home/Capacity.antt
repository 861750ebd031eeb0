-- ===== src/Home/Capacity.antt =====
-- The sections stay within their limits over the requests of admins.
use movie_api.Shared.{
  ℕ, suc, ◌≤◌, ◌≡◌, ◌⊎◌, refl, sym, ap, subst, ◌∙◌, String, Bool, false, not, Option, none, some,
  List, [], ◌∷◌, arith, ◌==◌, ==_iff, run, select, first, exists, count, update, All, All-update,
  Unique, update-Unique, first-true, Bool-cases, Option-cases, inl, inr, update_of_none,
}
use movie_api.Home.{
  SectionType, ItemKind, HomeSection, HomeSectionItem, HomeDb, on_section, by_section_id,
  by_item_id, effective_item_limit, is_full, is_over,
}
use movie_api.Home.Sections.{
  HomeSectionUpdate, with_changes, admin_create_home_section, admin_update_home_section,
  admin_delete_home_section, admin_create_home_section_item, admin_update_home_section_item,
  admin_delete_home_section_item, reorder_section_items, reorder_sections, number_items,
  number_sections, is_deletable, is_order_of, is_subset, section_ids,
}
use movie_api.Home.Limits.{
  IsWithin, IsLimited, fewer_items, select_fewer, moved_same, number_same, number_sections-IsWithin,
  select-Unique, select-All,
}
use movie_api.Home.Steps.{add_stores, update_stores, create_section_stores}

-- A request of an admin on the sections; a new section has an id that no row has yet.
pub data HomeStep (t : HomeDb) : HomeDb → Type 0 where
  creates :
      (now id : ℕ) (type : SectionType) (genre_name : Option String) (is_visible : Bool)
      (sort_order : ℕ)
      → first (by_section_id id) t.sections ≡ none
      → count (on_section id) t.items ≡ 0
      → HomeStep t
          (run (admin_create_home_section now id type genre_name is_visible sort_order) t).1
  updates :
      (section_id : ℕ) (d : HomeSectionUpdate)
      → HomeStep t (run (admin_update_home_section section_id d) t).1
  deletes : (section_id : ℕ) → HomeStep t (run (admin_delete_home_section section_id) t).1
  adds :
      (now id section_id : ℕ) (kind : ItemKind) (ref_id sort_order : ℕ)
      → HomeStep t
          (run (admin_create_home_section_item now id section_id kind ref_id sort_order) t).1
  moves :
      (item_id sort_order : ℕ)
      → HomeStep t (run (admin_update_home_section_item item_id sort_order) t).1
  removes : (item_id : ℕ) → HomeStep t (run (admin_delete_home_section_item item_id) t).1
  reorders :
      (section_id : ℕ) (ids : List ℕ) → HomeStep t (run (reorder_section_items section_id ids) t).1
  reorders_sections : (ids : List ℕ) → HomeStep t (run (reorder_sections ids) t).1

module _ (P Q : HomeSection → Type 0) (k : ℕ) where
  missing-All :
      (sections : List HomeSection)
      → first (by_section_id k) sections ≡ none
      → ((x : HomeSection) → by_section_id k x ≡ false → P x → Q x)
      → All P sections
      → All Q sections
  missing-All [] e other h = tt
  missing-All (x ∷ xs) e other h = elim (Bool-cases (by_section_id k x)) [
    | inl here ↦ absurd (ground arith)
    | inr there ↦ (other x there h.0, missing-All xs (ground arith) other h.1)
  ]

  -- The section of an id and the others each have the new property.
  found-All :
      (sections : List HomeSection) {s : HomeSection}
      → Unique (λ (s : HomeSection). s.id) sections
      → first (by_section_id k) sections ≡ some s
      → Q s
      → ((x : HomeSection) → by_section_id k x ≡ false → P x → Q x)
      → All P sections
      → All Q sections
  found-All [] u e q other h = tt
  found-All (x ∷ xs) {s} u e q other h = elim (Bool-cases (by_section_id k x)) [
    | inl here ↦
        let same : s ≡ x = ground arith in
        let gone =
          ap (λ n. first (λ (y : HomeSection). y.id == n) xs) (sym ((==_iff x.id k).0 here))
          ∙ u.0 in
        (subst Q same q, missing-All xs gone other h.1)
    | inr there ↦ (other x there h.0, found-All xs u.1 (ground arith) q other h.1)
  ]

  -- The same, of an update of that section.
  updated-All :
      (f : HomeSection → HomeSection) (sections : List HomeSection) {s : HomeSection}
      → Unique (λ (s : HomeSection). s.id) sections
      → first (by_section_id k) sections ≡ some s
      → P (f s)
      → All P sections
      → All P (update (by_section_id k) f sections)
  updated-All f [] u e q h = tt
  updated-All f (x ∷ xs) {s} u e q h = elim (Bool-cases (by_section_id k x)) [
    | inl here ↦
        let same : s ≡ x = ground arith in
        let gone =
          ap (λ n. first (λ (y : HomeSection). y.id == n) xs) (sym ((==_iff x.id k).0 here))
          ∙ u.0 in
        rw here (
          subst (λ y. P (f y)) same q,
          subst (All P) (sym (update_of_none (by_section_id k) f xs gone)) h.1,
        )
    | inr there ↦ rw there (h.0, updated-All f xs u.1 (ground arith) q h.1)
  ]

is_over_none : (limit : Option ℕ) → is_over limit 0 ≡ false
is_over_none none = refl
is_over_none (some cap) = ground arith

room_for_one : (limit : Option ℕ) (n : ℕ) → is_full limit n ≡ false → is_over limit (suc n) ≡ false
room_for_one none n e = refl
room_for_one (some cap) n e = ground arith

adds-IsLimited :
    (section_id : ℕ) (item : HomeSectionItem) (s : HomeSection) (t : HomeDb)
    → IsLimited t
    → first (by_section_id section_id) t.sections ≡ some s
    → is_full (effective_item_limit s.type s.item_limit) (count (on_section s.id) t.items) ≡ false
    → item.section_id ≡ section_id
    → IsLimited (record t { items = item ∷ t.items })
adds-IsLimited section_id item s t (u, h) found room here =
    let id = (==_iff s.id section_id).0 (first-true (by_section_id section_id) t.sections found) in
    let n = count (on_section s.id) t.items in
    (
      u,
      found-All (IsWithin t.items) (IsWithin (item ∷ t.items)) section_id t.sections u found
          (ground (
            arith,
            id,
            room_for_one (effective_item_limit s.type s.item_limit) n room,
            ==_iff item.section_id s.id,
          ))
          (λ x other e. ground (arith, ==_iff item.section_id x.id, ==_iff x.id section_id)) h,
    )

updates-IsLimited :
    (section_id : ℕ) (d : HomeSectionUpdate) (s : HomeSection) (t : HomeDb)
    → IsLimited t
    → first (by_section_id section_id) t.sections ≡ some s
    → ((d.item_limit ≡ none)
        ⊎ ((limit : Option ℕ) × (d.item_limit ≡ some limit)
            × (is_over (effective_item_limit s.type limit) (count (on_section s.id) t.items)
                ≡ false)))
    → IsLimited
        (record t { sections = update (by_section_id section_id) (with_changes d) t.sections })
updates-IsLimited section_id d s t (u, h) found checked = (
  update-Unique (λ s. s.id) (by_section_id section_id) (with_changes d) t.sections (λ x. refl) u,
  elim checked [
    | inl unset ↦
        All-update (IsWithin t.items) (by_section_id section_id) (with_changes d) t.sections
          (λ x e. ground (arith, unset, e)) h
    | inr (limit, set, within) ↦
        updated-All (IsWithin t.items) (IsWithin t.items) section_id (with_changes d) t.sections u
          found (ground (arith, set, within)) h
  ],
)

-- Fewer items on each section, and the same sections.
fewer-IsLimited :
    (items : List HomeSectionItem) (t : HomeDb)
    → ((k : ℕ) → count (on_section k) items ≤ count (on_section k) t.items)
    → IsLimited t
    → IsLimited (record t { items = items })
fewer-IsLimited items t le (u, h) = (u, fewer_items t.items items t.sections le h)

-- a state that is limited, under another name
same-IsLimited : (t u : HomeDb) → u ≡ t → IsLimited t → IsLimited u
same-IsLimited t u e h = subst IsLimited (sym e) h

deletes-IsLimited :
    (section_id : ℕ) (t : HomeDb)
    → IsLimited t
    → IsLimited (run (admin_delete_home_section section_id) t).1
unfolding admin_delete_home_section
deletes-IsLimited section_id t (u, h) =
    let t' = (run (admin_delete_home_section section_id) t).1 in
    elim (Option-cases (first (by_section_id section_id) t.sections)) [
      | inl missing ↦ same-IsLimited t t' (ground arith) (u, h)
      | inr (s, found) ↦ elim (Bool-cases (is_deletable s.type)) [
        | inr kept ↦ same-IsLimited t t' (ground arith) (u, h)
        | inl gone ↦
            let q = λ (i : HomeSectionItem). not (on_section section_id i) in
            let p = λ (x : HomeSection). not (by_section_id section_id x) in
            let smaller : HomeDb = record t {
              sections = select p t.sections;
              items = select q t.items;
            } in
            same-IsLimited smaller t' (ground arith) (
              select-Unique p t.sections u,
              select-All (IsWithin (select q t.items)) p t.sections (
                  fewer_items t.items (select q t.items) t.sections
                    (λ k. select_fewer (on_section k) q t.items) h),
            )
      ]
    ]

moves-IsLimited :
    (item_id sort_order : ℕ) (t : HomeDb)
    → IsLimited t
    → IsLimited (run (admin_update_home_section_item item_id sort_order) t).1
unfolding admin_update_home_section_item
moves-IsLimited item_id sort_order t h =
    let t' = (run (admin_update_home_section_item item_id sort_order) t).1 in
    let moved = update (by_item_id item_id) (λ i. record i { sort_order = sort_order }) t.items in
    elim (Option-cases (first (by_item_id item_id) t.items)) [
      | inl missing ↦ same-IsLimited t t' (ground arith) h
      | inr (i, found) ↦
          same-IsLimited (record t { items = moved }) t' (ground arith)
            (fewer-IsLimited moved t
              (λ k. omega (arith, moved_same k sort_order (by_item_id item_id) t.items)) h)
    ]

removes-IsLimited :
    (item_id : ℕ) (t : HomeDb)
    → IsLimited t
    → IsLimited (run (admin_delete_home_section_item item_id) t).1
unfolding admin_delete_home_section_item
removes-IsLimited item_id t h =
    let t' = (run (admin_delete_home_section_item item_id) t).1 in
    let q = λ (i : HomeSectionItem). not (by_item_id item_id i) in
    elim (Option-cases (first (by_item_id item_id) t.items)) [
      | inl missing ↦ same-IsLimited t t' (ground arith) h
      | inr (i, found) ↦
          same-IsLimited (record t { items = select q t.items }) t' (ground arith)
            (fewer-IsLimited (select q t.items) t (λ k. select_fewer (on_section k) q t.items) h)
    ]

reorders-IsLimited :
    (section_id : ℕ) (ids : List ℕ) (t : HomeDb)
    → IsLimited t
    → IsLimited (run (reorder_section_items section_id ids) t).1
unfolding reorder_section_items
reorders-IsLimited section_id ids t h =
    let t' = (run (reorder_section_items section_id ids) t).1 in
    elim (Bool-cases (exists (by_section_id section_id) t.sections)) [
      | inr missing ↦ same-IsLimited t t' (ground arith) h
      | inl known ↦ elim (Bool-cases (is_order_of ids (select (on_section section_id) t.items))) [
        | inr stale ↦ same-IsLimited t t' (ground arith) h
        | inl current ↦
            same-IsLimited (record t { items = number_items 0 ids t.items }) t' (ground arith)
              (fewer-IsLimited (number_items 0 ids t.items) t
                (λ k. omega (arith, number_same k 0 ids t.items)) h)
      ]
    ]

reorders_sections-IsLimited :
    (ids : List ℕ) (t : HomeDb) → IsLimited t → IsLimited (run (reorder_sections ids) t).1
unfolding reorder_sections
reorders_sections-IsLimited ids t h =
    let t' = (run (reorder_sections ids) t).1 in
    elim (Bool-cases (is_subset ids (section_ids t.sections))) [
      | inr unknown ↦ same-IsLimited t t' (ground arith) h
      | inl known ↦
          same-IsLimited (record t { sections = number_sections 0 ids t.sections }) t'
            (ground arith) (number_sections-IsWithin t.items 0 ids t.sections h)
    ]

-- Where section ids are unique and no section has more items than its limit, the same holds after any
-- request of an admin that creates, changes, deletes or reorders sections or their items.
pub HomeStep-IsLimited : {t u : HomeDb} → IsLimited t → HomeStep t u → IsLimited u
HomeStep-IsLimited {t} {u} h (creates now id type genre_name is_visible sort_order fresh empty) =
    elim (create_section_stores now id type genre_name is_visible sort_order t) [
      | inl same ↦ same-IsLimited t u same h
      | inr (s, key, stored) ↦
          same-IsLimited (record t { sections = s ∷ t.sections }) u stored
            (
              (subst (λ k. first (by_section_id k) t.sections ≡ none) (sym key) fresh, h.0),
              (
                ground (
                  arith,
                  ap (λ k. count (on_section k) t.items) key,
                  empty,
                  is_over_none (effective_item_limit s.type s.item_limit),
                ),
                h.1,
              ),
            )
    ]
HomeStep-IsLimited {t} {u} h (updates section_id d) = elim (update_stores section_id d t) [
  | inl same ↦ same-IsLimited t u same h
  | inr (s, found, checked, stored) ↦
      same-IsLimited
        (record t { sections = update (by_section_id section_id) (with_changes d) t.sections }) u
        stored (updates-IsLimited section_id d s t h found checked)
]
HomeStep-IsLimited {t} {u} h (deletes section_id) = deletes-IsLimited section_id t h
HomeStep-IsLimited {t} {u} h (adds now id section_id kind ref_id sort_order) =
    elim (add_stores now id section_id kind ref_id sort_order t) [
      | inl same ↦ same-IsLimited t u same h
      | inr (s, item, found, room, here, stored) ↦
          same-IsLimited (record t { items = item ∷ t.items }) u stored
            (adds-IsLimited section_id item s t h found room here)
    ]
HomeStep-IsLimited {t} {u} h (moves item_id sort_order) = moves-IsLimited item_id sort_order t h
HomeStep-IsLimited {t} {u} h (removes item_id) = removes-IsLimited item_id t h
HomeStep-IsLimited {t} {u} h (reorders section_id ids) = reorders-IsLimited section_id ids t h
HomeStep-IsLimited {t} {u} h (reorders_sections ids) = reorders_sections-IsLimited ids t h
