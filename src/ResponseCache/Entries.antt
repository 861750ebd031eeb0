-- ===== src/ResponseCache/Entries.antt =====
-- The entries of the cache after keys are popped, and how many they are.
use movie_api.Shared.{
  ℕ, zero, suc, ◌+◌, ◌≤◌, ◌≡◌, refl, String, Bool, true, false, none, List, [], ◌∷◌, arith,
  if◌then◌else◌, min, str_eq, eq_iff, length, count, take, All,
}
use movie_api.Shared.Dict.{Dict, lookup, remove, lookup-remove}
use movie_api.ResponseCache.{pop_all, keys}

-- `k in ks`
abbrev pub has_key : List String → String → Bool
has_key [] k = false
has_key (j ∷ js) k = if str_eq j k then true else has_key js k

module _ {ℓ} {V : Type ℓ} where
  -- A popped key reads as missing, and the others as before.
  pub lookup-pop_all :
      (ks : List String) (k : String) (d : Dict V)
      → lookup k (pop_all ks d) ≡ (if has_key ks k then none else lookup k d)
  lookup-pop_all [] k d = refl
  lookup-pop_all (j ∷ js) k d =
      ground (arith, lookup-pop_all js k (remove j d), lookup-remove j k d)

  -- the entry's key is among these
  abbrev pub keyed : List String → String × V → Bool
  keyed ks e = has_key ks e.0

  length-remove :
      (k : String) (d : Dict V) → length (remove k d) + count (keyed (k ∷ [])) d ≡ length d
  unfolding remove
  length-remove k [] = refl
  length-remove k ((j, v) ∷ d) = ground (arith, length-remove k d, eq_iff j k, eq_iff k j)

  count-remove :
      (k : String) (ks : List String) (d : Dict V)
      → count (keyed ks) (remove k d) + count (keyed (k ∷ [])) d ≡ count (keyed (k ∷ ks)) d
  unfolding remove
  count-remove k ks [] = refl
  count-remove k ks ((j, v) ∷ d) = ground (arith, count-remove k ks d, eq_iff j k, eq_iff k j)

  -- Popping takes out the entries with those keys, and no others.
  pub length-pop_all :
      (ks : List String) (d : Dict V) → length (pop_all ks d) + count (keyed ks) d ≡ length d
  length-pop_all [] d = none_keyed d
    where
      none_keyed : (xs : Dict V) → length xs + count (keyed []) xs ≡ length xs
      none_keyed [] = refl
      none_keyed (x ∷ xs) = ground (arith, none_keyed xs)
  length-pop_all (k ∷ ks) d =
      ground (arith, length-pop_all ks (remove k d), count-remove k ks d, length-remove k d)

  -- The first entries all count where their keys are among those counted.
  pub count-take :
      (p : String × V → Bool) (n : ℕ) (xs : Dict V)
      → All (λ e. p e ≡ true) (take n xs)
      → min n (length xs) ≤ count p xs
  count-take p zero xs h = omega arith
  count-take p (suc n) [] h = omega arith
  count-take p (suc n) (x ∷ xs) h = ground (arith, h.0, count-take p n xs h.1)

  wider :
      (k : String) (ks : List String) (xs : Dict V)
      → All (λ e. keyed ks e ≡ true) xs
      → All (λ e. keyed (k ∷ ks) e ≡ true) xs
  wider k ks [] h = tt
  wider k ks (x ∷ xs) h = (ground (arith, h.0), wider k ks xs h.1)

  -- An entry's key is among the keys.
  pub keys_lem : (xs : Dict V) → All (λ e. keyed (keys xs) e ≡ true) xs
  keys_lem [] = tt
  keys_lem ((k, v) ∷ xs) = (ground (arith, eq_iff k k), wider k (keys xs) xs (keys_lem xs))
