-- ===== src/ResponseCache/Exact.antt =====
-- The cache where it has room: it answers as a function from keys to entries would.
use text.Mathlib.Text.{starts_with}
use movie_api.Shared.{
  ℕ, suc, ◌+◌, ◌≤◌, ◌<◌, ◌≡◌, refl, sym, ap, ap₂, ◌∙◌, String, Option, none, some, List, [], ◌∷◌,
  arith, if◌then◌else◌, str_eq, eq_iff, length,
}
use movie_api.Shared.Dict.{lookup, remove, lookup-put, lookup-remove, length-put-le}
use movie_api.ResponseCache.{
  Cache, CacheCall, get, set, delete, delete_prefix, run_calls, keys, with_prefix, cache_get,
  cache_set, delete_local, delete_local_prefix, catalog_cache_max_entries,
}
use movie_api.ResponseCache.Capacity.{get_small, pop_small}
use movie_api.ResponseCache.Refinement.{View, fresh, value_of, replay, lookup-prefix}

module _ {V : Type 0} where
  -- what a reader sees at a later time, of what is seen now
  fresh_later :
      (now later : ℕ) (e : Option (ℕ × Option V))
      → now ≤ later
      → fresh later (fresh now e) ≡ fresh later e
  fresh_later now later none le = refl
  fresh_later now later (some (e, v)) le = ground arith

  -- a reader at this time sees the view in the cache
  abbrev pub IsWhole : ℕ → Cache V → View V → Type 0
  IsWhole now c f = (k : String) → fresh now (lookup k c) ≡ fresh now (f k)

  -- the calls that write
  abbrev pub writes : List (CacheCall V) → ℕ
  writes [] = 0
  writes (set _ _ _ _ ∷ calls) = suc (writes calls)
  writes (_ ∷ calls) = writes calls

  -- The calls read times that do not go back.
  abbrev pub IsTimed : ℕ → List (CacheCall V) → Type 0
  IsTimed now [] = Unit
  IsTimed now (get later _ ∷ calls) = (now ≤ later) × IsTimed later calls
  IsTimed now (set later _ _ _ ∷ calls) = (now ≤ later) × IsTimed later calls
  IsTimed now (delete _ ∷ calls) = IsTimed now calls
  IsTimed now (delete_prefix _ ∷ calls) = IsTimed now calls

  IsWhole-later :
      (now later : ℕ) (c : Cache V) (f : View V) → now ≤ later → IsWhole now c f → IsWhole later c f
  IsWhole-later now later c f le h k =
      sym (fresh_later now later (lookup k c) le)
      ∙ ap (fresh later) (h k)
      ∙ fresh_later now later (f k) le

  get-IsWhole :
      (now : ℕ) (key : String) (c : Cache V) (f : View V)
      → IsWhole now c f
      → IsWhole now (cache_get now key c).1 f
        × ((cache_get now key c).0 ≡ value_of (fresh now (f key)))
  unfolding cache_get
  get-IsWhole now key c f h =
      (λ k. ground (arith, lookup-remove key k c, h k, eq_iff key k), ground (arith, h key))

  set-IsWhole :
      (now : ℕ) (key : String) (value : Option V) (ttl : ℕ) (c : Cache V) (f : View V)
      → length c < catalog_cache_max_entries
      → IsWhole now c f
      → IsWhole now
          (cache_set now key value ttl c)
          (λ k. if str_eq key k then some (now + ttl, value) else f k)
        × (length (cache_set now key value ttl c) ≤ length c + 1)
  unfolding cache_set
  set-IsWhole now key value ttl c f small h =
      let entry : ℕ × Option V = (now + ttl, value) in
      (
        λ k. ground (arith, lookup-put key k entry c, h k),
        ground (arith, length-put-le key entry c),
      )

  -- Over calls whose times do not go back, from a cache with room for all their writes that a reader
  -- sees as the view, each read answers exactly what the view answers.
  pub run_exact :
      (calls : List (CacheCall V)) (now : ℕ) (c : Cache V) (f : View V)
      → IsTimed now calls
      → IsWhole now c f
      → length c + writes calls ≤ catalog_cache_max_entries
      → (run_calls calls c).0 ≡ replay calls f
  unfolding run_calls replay delete_local delete_local_prefix
  run_exact [] now c f timed h room = refl
  run_exact (get later key ∷ calls) now c f (le, timed) h room =
      let (whole, answer) = get-IsWhole later key c f (IsWhole-later now later c f le h) in
      let rest =
        run_exact calls later (cache_get later key c).1 f timed whole
          (omega (arith, get_small later key c, room)) in
      ap₂ (◌∷◌) answer rest
  run_exact (set later key value ttl ∷ calls) now c f (le, timed) h room =
      let (whole, small) =
        set-IsWhole later key value ttl c f (omega (arith, room))
          (IsWhole-later now later c f le h) in
      run_exact calls later (cache_set later key value ttl c)
        (λ k. if str_eq key k then some (later + ttl, value) else f k) timed whole
        (omega (arith, small, room))
  run_exact (delete key ∷ calls) now c f timed h room =
      run_exact calls now (remove key c) (λ k. if str_eq key k then none else f k) timed
        (λ k. ground (arith, lookup-remove key k c, h k))
        (omega (arith, pop_small (key ∷ []) c, room))
  run_exact (delete_prefix prefix ∷ calls) now c f timed h room =
      run_exact calls now (delete_local_prefix prefix c)
        (λ k. if starts_with k prefix then none else f k) timed
        (λ k. ground (arith, lookup-prefix prefix k c, h k))
        (omega (arith, pop_small (with_prefix prefix (keys c)) c, room))
