-- ===== src/Home/Order.antt =====
-- The order of the items of a section.
use movie_api.Shared.{
  ℕ, suc, ◌+◌, ◌≤◌, ◌<◌, ◌≡◌, refl, sym, ap, subst, ◌∙◌, Bool, true, false, List, [], ◌∷◌, map,
  arith, if◌then◌else◌, ◌==◌, ==_iff, ==_refl, select, count, update, All-In, In, IsOrdered,
  Bool-cases, inl, inr,
}
use movie_api.Community.Listing.{mem}
use movie_api.Home.{HomeSectionItem, by_item_id}
use movie_api.Home.Sections.{is_distinct, item_ids, number_items}
use movie_api.Home.Strict.{IsStrict, rank, rank_injective}

-- what the loop of a reorder does to one item
abbrev pub renumber : ℕ → List ℕ → HomeSectionItem → HomeSectionItem
renumber n [] i = i
renumber n (k ∷ ks) i =
    renumber (suc n) ks (if by_item_id k i then record i { sort_order = n } else i)

map-update :
    (g : HomeSectionItem → HomeSectionItem) (p : HomeSectionItem → Bool)
    (f : HomeSectionItem → HomeSectionItem) (rows : List HomeSectionItem)
    → map g (update p f rows) ≡ map (λ i. g (if p i then f i else i)) rows
map-update g p f [] = refl
map-update g p f (i ∷ rows) = ap (λ r. g (if p i then f i else i) ∷ r) (map-update g p f rows)

map_id : (rows : List HomeSectionItem) → map (λ i. i) rows ≡ rows
map_id [] = refl
map_id (i ∷ rows) = ap (λ r. i ∷ r) (map_id rows)

pub number_items-map :
    (n : ℕ) (ks : List ℕ) (rows : List HomeSectionItem)
    → number_items n ks rows ≡ map (renumber n ks) rows
unfolding number_items
number_items-map n [] rows = sym (map_id rows)
number_items-map n (k ∷ ks) rows =
    number_items-map (suc n) ks (update (by_item_id k) (λ i. record i { sort_order = n }) rows)
    ∙ map-update (renumber (suc n) ks) (by_item_id k) (λ i. record i { sort_order = n }) rows

pub renumber_keeps :
    (n : ℕ) (ks : List ℕ) (i : HomeSectionItem)
    → ((renumber n ks i).id ≡ i.id) × ((renumber n ks i).section_id ≡ i.section_id)
renumber_keeps n [] i = (refl, refl)
renumber_keeps n (k ∷ ks) i =
    let next : HomeSectionItem = if by_item_id k i then record i { sort_order = n } else i in
    ground (arith, renumber_keeps (suc n) ks next)

renumber_other :
    (n : ℕ) (ks : List ℕ) (i : HomeSectionItem) → mem i.id ks ≡ false → renumber n ks i ≡ i
renumber_other n [] i m = refl
renumber_other n (k ∷ ks) i m =
    ground (arith, renumber_other (suc n) ks i, ==_iff i.id k, ==_iff k i.id)

pub renumber-rank :
    (n : ℕ) (ks : List ℕ) (i : HomeSectionItem)
    → is_distinct ks ≡ true
    → mem i.id ks ≡ true
    → (renumber n ks i).sort_order ≡ n + rank i.id ks
renumber-rank n [] i d m = cc
renumber-rank n (k ∷ ks) i d m = elim (Bool-cases (by_item_id k i)) [
  | inl here ↦
      let e = (==_iff i.id k).0 here in
      let once : mem k ks ≡ false = ground (arith, d) in
      let next : HomeSectionItem = record i { sort_order = n } in
      let kept = renumber_other (suc n) ks next (ap (λ a. mem a ks) e ∙ once) in
      ground (arith, kept, e, ==_iff k i.id)
  | inr other ↦ ground (arith, renumber-rank (suc n) ks i, ==_iff i.id k, ==_iff k i.id)
]

pub select-map :
    (g : HomeSectionItem → HomeSectionItem) (p : HomeSectionItem → Bool)
    (rows : List HomeSectionItem)
    → ((i : HomeSectionItem) → p (g i) ≡ p i)
    → select p (map g rows) ≡ map g (select p rows)
select-map g p [] e = refl
select-map g p (i ∷ rows) e = ground (arith, e i, select-map g p rows e)

pub mem-item_ids :
    (a : ℕ) (rows : List HomeSectionItem)
    → mem a (item_ids rows) ≡ true
    → (i : HomeSectionItem) × In i rows × (i.id ≡ a)
mem-item_ids a [] m = cc
mem-item_ids a (i ∷ rows) m = elim (Bool-cases (i.id == a)) [
  | inl here ↦ (i, inl refl, (==_iff i.id a).0 here)
  | inr other ↦
      let (j, there, same) = mem-item_ids a rows (ground (arith, ==_iff i.id a, ==_iff a i.id)) in
      (j, inr there, same)
]

pub mem-of_In :
    (i : HomeSectionItem) (rows : List HomeSectionItem)
    → In i rows
    → mem i.id (item_ids rows) ≡ true
mem-of_In i [] h = absurd h
mem-of_In i (j ∷ rows) (inl e) = ground (arith, ap (λ (k : HomeSectionItem). k.id) e, ==_refl i.id)
mem-of_In i (j ∷ rows) (inr h) = ground (arith, mem-of_In i rows h)

count-In :
    (k : ℕ) (i : HomeSectionItem) (rows : List HomeSectionItem)
    → In i rows
    → i.id ≡ k
    → 1 ≤ count (by_item_id k) rows
count-In k i [] h e = absurd h
count-In k i (j ∷ rows) (inl same) e =
    ground (arith, ap (λ (k : HomeSectionItem). k.id) same, ==_iff j.id k)
count-In k i (j ∷ rows) (inr h) e = ground (arith, count-In k i rows h e)

-- A sorted rail whose items have the places of their ids, each id once, lists the ids by place.
pub item_ids-IsStrict :
    (ks : List ℕ) (rows : List HomeSectionItem)
    → IsOrdered (λ (a b : HomeSectionItem). a.sort_order ≤ b.sort_order) rows
    → ((k : ℕ) → count (by_item_id k) rows ≤ 1)
    → ((i : HomeSectionItem) → In i rows → (i.sort_order ≡ rank i.id ks) × (mem i.id ks ≡ true))
    → IsStrict (λ a. rank a ks) (item_ids rows)
item_ids-IsStrict ks [] sorted single placed = tt
item_ids-IsStrict ks (i ∷ rows) sorted single placed = (
  λ y m.
      (let (j, there, same) = mem-item_ids y rows m in
        let le =
          All-In (λ (b : HomeSectionItem). i.sort_order ≤ b.sort_order) rows sorted.0 there in
        let (here, known) = placed i (inl refl) in
        let (at, known') = placed j (inr there) in
        elim (Bool-cases (i.id == j.id)) [
          | inl twice ↦ absurd (
              ground (
                arith,
                single i.id,
                ==_refl i.id,
                count-In i.id j rows there (sym ((==_iff i.id j.id).0 twice)),
              ))
          | inr other ↦
              subst (λ a. rank i.id ks < rank a ks) same
                (ground
                  (arith, le, here, at, ==_iff i.id j.id, rank_injective ks i.id j.id known known'))
        ]),
  item_ids-IsStrict ks rows sorted.1 (λ k. ground (arith, single k)) (λ j h. placed j (inr h)),
)
