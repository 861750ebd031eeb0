-- ===== src/Community/Ids.antt =====
-- Sets of ids as lists, and which of the comments' ids they hold (app/services/comments.py).
use movie_api.Shared.{
  ℕ, ◌≤◌, ◌<◌, ◌≡◌, refl, subst, ap, Bool, true, false, ◌&&◌, ◌||◌, List, [], ◌∷◌, ◌++◌, map,
  length, ◌==◌, ==_iff, ==_refl, select, count, In, Bool-cases, ◌⊎◌, inl, inr, arith, count_le,
}
use movie_api.Community.{Comment}
use movie_api.Community.Listing.{mem, comment_id_of}

pub List-cases : {A : Type 0} (xs : List A) → (xs ≡ []) ⊎ ((y : A) × (ys : List A) × (xs ≡ y ∷ ys))
List-cases [] = inl refl
List-cases (y ∷ ys) = inr (y, ys, refl)

pub mem_here : (a : ℕ) (xs : List ℕ) → mem a (a ∷ xs) ≡ true
mem_here a xs = ground (arith, ==_refl a)

mem_there : (a x : ℕ) (xs : List ℕ) → mem a xs ≡ true → mem a (x ∷ xs) ≡ true
mem_there a x xs e = ground arith

pub mem-++ : (a : ℕ) (xs ys : List ℕ) → mem a (xs ++ ys) ≡ (mem a xs || mem a ys)
mem-++ a [] ys = refl
mem-++ a (x ∷ xs) ys = ground (arith, mem-++ a xs ys)

pub mem-select : (p : ℕ → Bool) (a : ℕ) (xs : List ℕ) → mem a (select p xs) ≡ (mem a xs && p a)
mem-select p a [] = refl
mem-select p a (x ∷ xs) = elim (Bool-cases (x == a)) [
  | inl same ↦ let e = ap p ((==_iff x a).0 same) in ground (arith, mem-select p a xs)
  | inr other ↦ ground (arith, mem-select p a xs)
]

-- Which ids a selection of rows has.
pub mem-ids :
    (r : Comment → Bool) (c : Comment) (rows : List Comment)
    → In c rows
    → r c ≡ true
    → mem c.id (map comment_id_of (select r rows)) ≡ true
mem-ids r c [] i e = absurd i
mem-ids r c (x ∷ rows) (inl same) e =
    subst (λ (y : Comment). mem y.id (map comment_id_of (select r (x ∷ rows))) ≡ true) same
      (ground (arith, ap r same, ==_refl x.id))
mem-ids r c (x ∷ rows) (inr i) e = ground (arith, mem-ids r c rows i e)

pub ids-In :
    (r : Comment → Bool) (a : ℕ) (rows : List Comment)
    → mem a (map comment_id_of (select r rows)) ≡ true
    → (c : Comment) × In c rows × (r c ≡ true) × (c.id ≡ a)
ids-In r a [] e = absurd (ground arith)
ids-In r a (x ∷ rows) e = elim (Bool-cases (r x)) [
  | inl chosen ↦ elim (Bool-cases (x.id == a)) [
    | inl same ↦ (x, inl refl, chosen, (==_iff x.id a).0 same)
    | inr other ↦ let (c, i, rc, same) = ids-In r a rows (ground arith) in (c, inr i, rc, same)
  ]
  | inr other ↦ let (c, i, rc, same) = ids-In r a rows (ground arith) in (c, inr i, rc, same)
]

-- A row that one test takes and the other does not makes a difference.
pub count_lt :
    (p q : Comment → Bool) (c : Comment) (rows : List Comment)
    → ((x : Comment) → p x ≡ true → q x ≡ true)
    → In c rows
    → p c ≡ false
    → q c ≡ true
    → count p rows < count q rows
count_lt p q c [] h i pc qc = absurd i
count_lt p q c (x ∷ rows) h (inl same) pc qc =
    let e = ap p same in let e' = ap q same in ground (arith, count_le p q rows h)
count_lt p q c (x ∷ rows) h (inr i) pc qc = ground (arith, count_lt p q c rows h i pc qc, h x)

pub count-length : (p : Comment → Bool) (rows : List Comment) → count p rows ≤ length rows
count-length p [] = omega arith
count-length p (x ∷ rows) = ground (arith, count-length p rows)
