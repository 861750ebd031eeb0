-- ===== src/ResponseCache/Refinement.antt =====
-- The cache against a function from keys to entries, which forgets nothing for want of room.
use text.Mathlib.Text.{starts_with}
use movie_api.Shared.{
  ℕ, ◌+◌, ◌≡◌, ◌⊎◌, inl, inr, take, select, sort_by, ◌-◌, Bool-cases, refl, String, false, not,
  ◌&&◌, Option, none, some, List, [], ◌∷◌, arith, ltb, leb, if◌then◌else◌, is_some, str_eq, eq_iff,
  length,
}
use movie_api.Shared.Dict.{lookup, put, remove, lookup-put, lookup-remove}
use movie_api.ResponseCache.{
  is_expired, ends_before, Cache, CacheCall, get, set, delete, delete_prefix, run_calls, pop_all,
  keys, with_prefix, cache_get, cache_set, evict_catalog_cache, drop_expired, drop_oldest,
  delete_local, delete_local_prefix, catalog_cache_max_entries,
}
use movie_api.ResponseCache.Entries.{has_key, lookup-pop_all}

-- What was last written under each key, and when it ends
abbrev pub View : Type 0 → Type 0
View V = String → Option (ℕ × Option V)

has_key-prefix :
    (prefix k : String) (ks : List String)
    → has_key (with_prefix prefix ks) k ≡ has_key ks k && starts_with k prefix
has_key-prefix prefix k [] = refl
has_key-prefix prefix k (j ∷ js) = ground (arith, has_key-prefix prefix k js, eq_iff j k)

module _ {V : Type 0} where
  -- an entry as a reader at this time sees it
  abbrev pub fresh : ℕ → Option (ℕ × Option V) → Option (ℕ × Option V)
  fresh now none = none
  fresh now (some (e, v)) = if leb e now then none else some (e, v)

  abbrev pub value_of : Option (ℕ × Option V) → Option V
  value_of none = none
  value_of (some (e, v)) = v

  -- the same calls on a view
  unfoldable pub replay : List (CacheCall V) → View V → List (Option V)
  replay [] f = []
  replay (get now key ∷ calls) f = value_of (fresh now (f key)) ∷ replay calls f
  replay (set now key value ttl ∷ calls) f =
      replay calls (λ k. if str_eq key k then some (now + ttl, value) else f k)
  replay (delete key ∷ calls) f = replay calls (λ k. if str_eq key k then none else f k)
  replay (delete_prefix prefix ∷ calls) f =
      replay calls (λ k. if starts_with k prefix then none else f k)

  -- each answer is that of the view, or a miss
  abbrev pub IsAnswered : List (Option V) → List (Option V) → Type 0
  IsAnswered [] [] = Unit
  IsAnswered (a ∷ given) (b ∷ expected) = ((a ≡ none) ⊎ (a ≡ b)) × IsAnswered given expected
  IsAnswered _ _ = ⊥

  -- what the cache holds is what the view holds there
  abbrev pub IsPartOf : Cache V → View V → Type 0
  IsPartOf c f = (k : String) → (lookup k c ≡ none) ⊎ (lookup k c ≡ f k)

  lookup-keys : (k : String) (c : Cache V) → has_key (keys c) k ≡ false → lookup k c ≡ none
  unfolding lookup
  lookup-keys k [] e = refl
  lookup-keys k ((j, v) ∷ c) e = ground (arith, lookup-keys k c)

  pub lookup-prefix :
      (prefix k : String) (c : Cache V)
      → lookup k (delete_local_prefix prefix c)
        ≡ (if starts_with k prefix then none else lookup k c)
  unfolding delete_local_prefix
  lookup-prefix prefix k c = ground (
    arith,
    lookup-pop_all (with_prefix prefix (keys c)) k c,
    has_key-prefix prefix k (keys c),
    lookup-keys k c,
  )

  pop_all-IsPartOf :
      (ks : List String) (c : Cache V) (f : View V) → IsPartOf c f → IsPartOf (pop_all ks c) f
  pop_all-IsPartOf ks c f h k = ground (arith, lookup-pop_all ks k c, h k)

  evict-IsPartOf :
      (now : ℕ) (c : Cache V) (f : View V) → IsPartOf c f → IsPartOf (evict_catalog_cache now c) f
  unfolding evict_catalog_cache drop_expired drop_oldest
  evict-IsPartOf now c f h =
      let old = keys (select (is_expired now) c) in
      let live = pop_all old c in
      let n = length live - catalog_cache_max_entries + 1 in
      let kept = pop_all-IsPartOf old c f h in
      elim (Bool-cases (ltb (length live) catalog_cache_max_entries)) [
        | inl room ↦ rw room kept
        | inr full ↦
            rw full (pop_all-IsPartOf (keys (take n (sort_by ends_before live))) live f kept)
      ]

  put-IsPartOf :
      (key : String) (e : ℕ × Option V) (c : Cache V) (f : View V)
      → IsPartOf c f
      → IsPartOf (put key e c) (λ k. if str_eq key k then some e else f k)
  put-IsPartOf key e c f h k = ground (arith, lookup-put key k e c, h k)

  set-IsPartOf :
      (now : ℕ) (key : String) (value : Option V) (ttl : ℕ) (c : Cache V) (f : View V)
      → IsPartOf c f
      → IsPartOf
          (cache_set now key value ttl c)
          (λ k. if str_eq key k then some (now + ttl, value) else f k)
  unfolding cache_set
  set-IsPartOf now key value ttl c f h =
      elim (Bool-cases (leb catalog_cache_max_entries (length c) && not (is_some (lookup key c)))) [
        | inl full ↦ rw full (
            put-IsPartOf key (now + ttl, value) (evict_catalog_cache now c) f
              (evict-IsPartOf now c f h))
        | inr room ↦ rw room (put-IsPartOf key (now + ttl, value) c f h)
      ]

  get-IsPartOf :
      (now : ℕ) (key : String) (c : Cache V) (f : View V)
      → IsPartOf c f
      → IsPartOf (cache_get now key c).1 f
        × (((cache_get now key c).0 ≡ none)
            ⊎ ((cache_get now key c).0 ≡ value_of (fresh now (f key))))
  unfolding cache_get
  get-IsPartOf now key c f h = let part = pop_all-IsPartOf (key ∷ []) c f h in ground (arith, h key)

  -- Over any calls, from a cache whose entries are those of the view, each read answers nothing or
  -- what the view answers, where a write sets a key's entry, a deletion removes the entries with the
  -- key or the prefix, and an entry that has ended is not seen.
  pub run_refines :
      (calls : List (CacheCall V)) (c : Cache V) (f : View V)
      → IsPartOf c f
      → IsAnswered (run_calls calls c).0 (replay calls f)
  unfolding run_calls replay delete_local
  run_refines [] c f h = tt
  run_refines (get now key ∷ calls) c f h =
      let (part, answer) = get-IsPartOf now key c f h in
      (answer, run_refines calls (cache_get now key c).1 f part)
  run_refines (set now key value ttl ∷ calls) c f h =
      run_refines calls (cache_set now key value ttl c)
        (λ k. if str_eq key k then some (now + ttl, value) else f k)
        (set-IsPartOf now key value ttl c f h)
  run_refines (delete key ∷ calls) c f h =
      run_refines calls (remove key c) (λ k. if str_eq key k then none else f k)
        (λ k. ground (arith, lookup-remove key k c, h k))
  run_refines (delete_prefix prefix ∷ calls) c f h =
      run_refines calls (delete_local_prefix prefix c)
        (λ k. if starts_with k prefix then none else f k)
        (λ k. ground (arith, lookup-prefix prefix k c, h k))
