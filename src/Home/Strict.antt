-- ===== src/Home/Strict.antt =====
-- Lists of ids in the order of a number that tells them apart: such a list is known by its members.
use movie_api.Shared.{
  ℕ, suc, ◌<◌, ◌≡◌, refl, ap, ◌∙◌, true, false, List, [], ◌∷◌, arith, if◌then◌else◌, ◌==◌, ==_iff,
  ==_refl, Bool-cases, inl, inr,
}
use movie_api.Community.Listing.{mem}
use movie_api.Home.Sections.{is_distinct}

-- Each id has a smaller number than those behind it.
abbrev pub IsStrict : (ℕ → ℕ) → List ℕ → Type 0
IsStrict f [] = Unit
IsStrict f (x ∷ xs) = ((y : ℕ) → mem y xs ≡ true → f x < f y) × IsStrict f xs

-- the place of an id
abbrev pub rank : ℕ → List ℕ → ℕ
rank a [] = 0
rank a (k ∷ ks) = let rest = rank a ks in if k == a then 0 else suc rest

mem_head : (a : ℕ) (xs : List ℕ) → mem a (a ∷ xs) ≡ true
mem_head a xs = ground (arith, ==_refl a)

not_behind : (f : ℕ → ℕ) (x : ℕ) (xs : List ℕ) → IsStrict f (x ∷ xs) → mem x xs ≡ false
not_behind f x xs h = elim (Bool-cases (mem x xs)) [
  | inl again ↦ absurd (omega (arith, h.0 x again))
  | inr once ↦ once
]

pub IsStrict-same :
    (f : ℕ → ℕ) (xs ys : List ℕ)
    → IsStrict f xs
    → IsStrict f ys
    → ((a : ℕ) → mem a xs ≡ mem a ys)
    → xs ≡ ys
IsStrict-same f [] [] h g same = refl
IsStrict-same f [] (y ∷ ys) h g same = absurd (ground (arith, same y, mem_head y ys))
IsStrict-same f (x ∷ xs) [] h g same = absurd (ground (arith, same x, mem_head x xs))
IsStrict-same f (x ∷ xs) (y ∷ ys) h g same = elim (Bool-cases (x == y)) [
  | inr other ↦ absurd (
      ground
        (arith, same x, same y, mem_head x xs, mem_head y ys, h.0 y, g.0 x, ==_iff x y, ==_iff y x))
  | inl equal ↦
      let e = (==_iff x y).0 equal in
      let tails = IsStrict-same f xs ys h.1 g.1 (λ a.
        ground
          (arith, same a, not_behind f x xs h, not_behind f y ys g, ==_iff x a, ==_iff y a, e)) in
      ap (λ z. z ∷ xs) e ∙ ap (λ zs. y ∷ zs) tails
]

IsStrict-suc :
    (f g : ℕ → ℕ) (xs : List ℕ)
    → ((a : ℕ) → mem a xs ≡ true → g a ≡ suc (f a))
    → IsStrict f xs
    → IsStrict g xs
IsStrict-suc f g [] e h = tt
IsStrict-suc f g (x ∷ xs) e h = (
  λ y m. ground (arith, e x, e y, h.0 y, mem_head x xs),
  IsStrict-suc f g xs (λ a m. ground (arith, e a)) h.1,
)

-- Distinct ids stand in the order of their places.
pub rank-IsStrict : (ks : List ℕ) → is_distinct ks ≡ true → IsStrict (λ a. rank a ks) ks
rank-IsStrict [] d = tt
rank-IsStrict (k ∷ ks) d = (
  λ y m. ground (arith, d, ==_iff k y, ==_refl k),
  IsStrict-suc (λ a. rank a ks) (λ a. rank a (k ∷ ks)) ks (λ a m. ground (arith, d, ==_iff k a))
      (rank-IsStrict ks (ground (arith, d))),
)

-- Ids at the same place are the same.
pub rank_injective :
    (ks : List ℕ) (a b : ℕ) → mem a ks ≡ true → mem b ks ≡ true → rank a ks ≡ rank b ks → a ≡ b
rank_injective [] a b m n e = cc
rank_injective (k ∷ ks) a b m n e = ground (arith, ==_iff k a, ==_iff k b, rank_injective ks a b)
