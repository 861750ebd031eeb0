-- ===== src/Home/Reorder.antt =====
-- What a reorder of a section's items does to its list.
use movie_api.Shared.{
  ℕ, ◌≤◌, ◌≡◌, refl, sym, ap, subst, ◌∙◌, Bool, true, false, none, List, [], ◌∷◌, map, arith, ◌==◌,
  ==_iff, ok, run, select, first, exists, count, sort_by, In, In-sort_by, count-sort_by, Unique,
  IsOrdered, sort_by-IsOrdered, Bool-cases, inl, inr,
}
use movie_api.Community.Listing.{mem}
use movie_api.Home.{HomeSectionItem, HomeDb, on_section, by_section_id, by_item_id}
use movie_api.Home.Sections.{
  is_subset, item_ids, number_items, is_order_of, reorder_section_items, item_before, section_items,
}
use movie_api.Home.Strict.{rank, IsStrict-same, rank-IsStrict}
use movie_api.Home.Order.{
  renumber, number_items-map, renumber_keeps, renumber-rank, select-map, mem-item_ids, mem-of_In,
  item_ids-IsStrict,
}

is_subset-mem :
    (a : ℕ) (js ks : List ℕ) → is_subset js ks ≡ true → mem a js ≡ true → mem a ks ≡ true
is_subset-mem a [] ks s m = cc
is_subset-mem a (j ∷ js) ks s m = ground (arith, ==_iff j a, ==_iff a j, is_subset-mem a js ks)

same_Bool : (b c : Bool) → (b ≡ true → c ≡ true) → (c ≡ true → b ≡ true) → b ≡ c
same_Bool true c f g = sym (f refl)
same_Bool false true f g = g refl
same_Bool false false f g = refl

In-map :
    (g : HomeSectionItem → HomeSectionItem) (i : HomeSectionItem) (rows : List HomeSectionItem)
    → In i (map g rows)
    → (r : HomeSectionItem) × In r rows × (g r ≡ i)
In-map g i [] h = absurd h
In-map g i (r ∷ rows) (inl e) = (r, inl refl, e)
In-map g i (r ∷ rows) (inr h) = let (q, there, e) = In-map g i rows h in (q, inr there, e)

map-In :
    (g : HomeSectionItem → HomeSectionItem) (r : HomeSectionItem) (rows : List HomeSectionItem)
    → In r rows
    → In (g r) (map g rows)
map-In g r [] h = h
map-In g r (q ∷ rows) (inl e) = inl (ap g e)
map-In g r (q ∷ rows) (inr h) = inr (map-In g r rows h)

count-select :
    (p q : HomeSectionItem → Bool) (rows : List HomeSectionItem)
    → count p (select q rows) ≤ count p rows
count-select p q [] = omega arith
count-select p q (i ∷ rows) = ground (arith, count-select p q rows)

count-map :
    (g : HomeSectionItem → HomeSectionItem) (p : HomeSectionItem → Bool)
    (rows : List HomeSectionItem)
    → ((i : HomeSectionItem) → p (g i) ≡ p i)
    → count p (map g rows) ≡ count p rows
count-map g p [] e = refl
count-map g p (i ∷ rows) e = ground (arith, e i, count-map g p rows e)

count-none :
    (k : ℕ) (rows : List HomeSectionItem)
    → first (λ i. i.id == k) rows ≡ none
    → count (by_item_id k) rows ≡ 0
count-none k [] e = refl
count-none k (i ∷ rows) e = ground (arith, count-none k rows)

count-Unique :
    (k : ℕ) (rows : List HomeSectionItem)
    → Unique (λ (i : HomeSectionItem). i.id) rows
    → count (by_item_id k) rows ≤ 1
count-Unique k [] u = omega arith
count-Unique k (i ∷ rows) u = elim (Bool-cases (i.id == k)) [
  | inl here ↦
      let e = (==_iff i.id k).0 here in
      let gone = count-none k rows (ap (λ n. first (λ j. j.id == n) rows) (sym e) ∙ u.0) in
      ground arith
  | inr other ↦ ground (arith, count-Unique k rows u.1)
]

reorder_stores :
    (section_id : ℕ) (ids : List ℕ) (t : HomeDb)
    → (run (reorder_section_items section_id ids) t).0 ≡ ok tt
    → (is_order_of ids (select (on_section section_id) t.items) ≡ true)
      × ((run (reorder_section_items section_id ids) t).1.items ≡ number_items 0 ids t.items)
unfolding reorder_section_items
reorder_stores section_id ids t done =
    elim (Bool-cases (exists (by_section_id section_id) t.sections)) [
      | inr missing ↦ ground arith
      | inl known ↦ elim (Bool-cases (is_order_of ids (select (on_section section_id) t.items))) [
        | inr stale ↦ ground arith
        | inl current ↦ (current, ground arith)
      ]
    ]

module _ (section_id : ℕ) (ids : List ℕ) (items : List HomeSectionItem)
    (order : is_order_of ids (select (on_section section_id) items) ≡ true) where
  -- the rail after the loop, which is the rail with its items renumbered
  abbrev rail : List HomeSectionItem
  rail = select (on_section section_id) items

  abbrev new_rail : List HomeSectionItem
  new_rail = select (on_section section_id) (number_items 0 ids items)

  new_rail-map : new_rail ≡ map (renumber 0 ids) rail
  new_rail-map =
      ap (select (on_section section_id)) (number_items-map 0 ids items)
      ∙ select-map (renumber 0 ids) (on_section section_id) items
          (λ i. ap (λ n. n == section_id) (renumber_keeps 0 ids i).1)

  listed : (r : HomeSectionItem) → In r rail → mem r.id ids ≡ true
  listed r h = is_subset-mem r.id (item_ids rail) ids (ground (arith, order)) (mem-of_In r rail h)

  placed :
      (i : HomeSectionItem)
      → In i (sort_by item_before new_rail)
      → (i.sort_order ≡ rank i.id ids) × (mem i.id ids ≡ true)
  placed i h =
      let there = subst (In i) new_rail-map ((In-sort_by item_before i new_rail).0 h) in
      let (r, here, e) = In-map (renumber 0 ids) i rail there in
      let known = listed r here in
      let id = (renumber_keeps 0 ids r).0 in
      let at : (renumber 0 ids r).sort_order ≡ rank r.id ids =
        omega (arith, renumber-rank 0 ids r (ground (arith, order)) known) in
      subst (λ (j : HomeSectionItem). (j.sort_order ≡ rank j.id ids) × (mem j.id ids ≡ true)) e
        (at ∙ ap (λ a. rank a ids) (sym id), ap (λ a. mem a ids) id ∙ known)

  same_members : (a : ℕ) → mem a (item_ids (sort_by item_before new_rail)) ≡ mem a ids
  same_members a =
      same_Bool (mem a (item_ids (sort_by item_before new_rail))) (mem a ids)
        (λ m.
          (let (i, here, e) = mem-item_ids a (sort_by item_before new_rail) m in
            subst (λ b. mem b ids ≡ true) e (placed i here).1))
        (λ m.
          (let (r, here, e) =
              mem-item_ids a rail (is_subset-mem a ids (item_ids rail) (ground (arith, order)) m) in
            let moved =
              subst (In (renumber 0 ids r)) (sym new_rail-map)
                (map-In (renumber 0 ids) r rail here) in
            let stays = (In-sort_by item_before (renumber 0 ids r) new_rail).1 moved in
            subst (λ b. mem b (item_ids (sort_by item_before new_rail)) ≡ true)
              ((renumber_keeps 0 ids r).0 ∙ e)
              (mem-of_In (renumber 0 ids r) (sort_by item_before new_rail) stays)))

  single :
      Unique (λ (i : HomeSectionItem). i.id) items
      → (k : ℕ) → count (by_item_id k) (sort_by item_before new_rail) ≤ 1
  single u k = omega (
    arith,
    count-sort_by item_before (by_item_id k) new_rail,
    ap (count (by_item_id k)) new_rail-map,
    count-map (renumber 0 ids) (by_item_id k) rail
        (λ i. ap (λ n. n == k) (renumber_keeps 0 ids i).0),
    count-select (by_item_id k) (on_section section_id) items,
    count-Unique k items u,
  )

  ordered :
      IsOrdered
        (λ (a b : HomeSectionItem). a.sort_order ≤ b.sort_order)
        (sort_by item_before new_rail)
  ordered =
      sort_by-IsOrdered item_before (λ (a b : HomeSectionItem). a.sort_order ≤ b.sort_order)
        (λ a b e. ground (arith, e)) (λ a b e. ground (arith, e)) (λ a b c x y. omega (arith, x, y))
        new_rail

-- Where the ids of items are unique, a reorder of a section's items that goes through leaves the
-- section listing exactly the given ids, in the given order.
pub reorder_lists :
    (section_id : ℕ) (ids : List ℕ) (t : HomeDb)
    → Unique (λ (i : HomeSectionItem). i.id) t.items
    → (run (reorder_section_items section_id ids) t).0 ≡ ok tt
    → item_ids (section_items (run (reorder_section_items section_id ids) t).1 section_id) ≡ ids
unfolding section_items
reorder_lists section_id ids t unique done =
    let (order, stored) = reorder_stores section_id ids t done in
    let L = sort_by item_before (new_rail section_id ids t.items order) in
    ap (λ rows. item_ids (sort_by item_before (select (on_section section_id) rows))) stored
    ∙ IsStrict-same (λ a. rank a ids) (item_ids L) ids
        (item_ids-IsStrict ids L (ordered section_id ids t.items order)
          (single section_id ids t.items order unique) (placed section_id ids t.items order))
        (rank-IsStrict ids (ground (arith, order))) (same_members section_id ids t.items order)
