-- ===== src/Home/Limits.antt =====
-- The limits of the sections over the requests of admins.
use movie_api.Shared.{
  ℕ, suc, ◌≤◌, ◌≡◌, refl, ◌∙◌, Bool, false, Option, none, some, List, [], ◌∷◌, arith, ◌==◌, select,
  first, count, update, All, All-map, All-update, Unique, update-Unique, Bool-cases, inl, inr,
}
use movie_api.Home.{
  HomeSection, HomeSectionItem, HomeDb, on_section, by_section_id, by_item_id, effective_item_limit,
  is_over,
}
use movie_api.Home.Sections.{number_items, number_sections}

-- The section has no more items than its limit, if it has one.
abbrev pub IsWithin : List HomeSectionItem → HomeSection → Type 0
IsWithin items s =
    is_over (effective_item_limit s.type s.item_limit) (count (on_section s.id) items) ≡ false

-- Section ids are unique, and every section is within its limit.
abbrev pub IsLimited : HomeDb → Type 0
IsLimited t = Unique (λ (s : HomeSection). s.id) t.sections × All (IsWithin t.items) t.sections

fewer : (limit : Option ℕ) (m n : ℕ) → m ≤ n → is_over limit n ≡ false → is_over limit m ≡ false
fewer none m n le e = refl
fewer (some cap) m n le e = ground arith

-- Fewer items on each section keep the sections within their limits.
pub fewer_items :
    (old new : List HomeSectionItem) (sections : List HomeSection)
    → ((k : ℕ) → count (on_section k) new ≤ count (on_section k) old)
    → All (IsWithin old) sections
    → All (IsWithin new) sections
fewer_items old new sections le h =
    All-map (IsWithin old) (IsWithin new) sections
      (λ s e.
        fewer (effective_item_limit s.type s.item_limit) (count (on_section s.id) new)
          (count (on_section s.id) old) (le s.id) e)
      h

pub select_fewer :
    (p q : HomeSectionItem → Bool) (items : List HomeSectionItem)
    → count p (select q items) ≤ count p items
select_fewer p q [] = omega arith
select_fewer p q (i ∷ items) = ground (arith, select_fewer p q items)

pub moved_same :
    (k n : ℕ) (p : HomeSectionItem → Bool) (items : List HomeSectionItem)
    → count (on_section k) (update p (λ i. record i { sort_order = n }) items)
      ≡ count (on_section k) items
moved_same k n p [] = refl
moved_same k n p (i ∷ items) = ground (arith, moved_same k n p items)

pub number_same :
    (k n : ℕ) (ids : List ℕ) (items : List HomeSectionItem)
    → count (on_section k) (number_items n ids items) ≡ count (on_section k) items
unfolding number_items
number_same k n [] items = refl
number_same k n (j ∷ ids) items =
    number_same k (suc n) ids (update (by_item_id j) (λ i. record i { sort_order = n }) items)
    ∙ moved_same k n (by_item_id j) items

pub number_sections-IsWithin :
    (items : List HomeSectionItem) (n : ℕ) (ids : List ℕ) (sections : List HomeSection)
    → Unique (λ (s : HomeSection). s.id) sections × All (IsWithin items) sections
    → let moved = number_sections n ids sections in
      Unique (λ (s : HomeSection). s.id) moved × All (IsWithin items) moved
unfolding number_sections
number_sections-IsWithin items n [] sections h = h
number_sections-IsWithin items n (k ∷ ids) sections (u, h) =
    number_sections-IsWithin items (suc n) ids
      (update (by_section_id k) (λ s. record s { sort_order = n }) sections)
      (
        update-Unique (λ s. s.id) (by_section_id k) (λ s. record s { sort_order = n }) sections
            (λ s. refl) u,
        All-update (IsWithin items) (by_section_id k) (λ s. record s { sort_order = n }) sections
            (λ s e. e) h,
      )

select-first-none :
    (q : HomeSection → Bool) (k : ℕ) (sections : List HomeSection)
    → first (λ s. s.id == k) sections ≡ none
    → first (λ s. s.id == k) (select q sections) ≡ none
select-first-none q k [] e = refl
select-first-none q k (s ∷ sections) e = ground (arith, select-first-none q k sections)

pub select-Unique :
    (q : HomeSection → Bool) (sections : List HomeSection)
    → Unique (λ (s : HomeSection). s.id) sections
    → Unique (λ (s : HomeSection). s.id) (select q sections)
select-Unique q [] u = tt
select-Unique q (s ∷ sections) u = elim (Bool-cases (q s)) [
  | inl kept ↦ rw kept (select-first-none q s.id sections u.0, select-Unique q sections u.1)
  | inr gone ↦ rw gone (select-Unique q sections u.1)
]

pub select-All :
    (P : HomeSection → Type 0) (q : HomeSection → Bool) (sections : List HomeSection)
    → All P sections
    → All P (select q sections)
select-All P q [] h = tt
select-All P q (s ∷ sections) h = elim (Bool-cases (q s)) [
  | inl kept ↦ rw kept (h.0, select-All P q sections h.1)
  | inr gone ↦ rw gone (select-All P q sections h.1)
]
