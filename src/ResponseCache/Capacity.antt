-- ===== src/ResponseCache/Capacity.antt =====
-- How many entries the cache holds.
use movie_api.Shared.{
  ℕ, ◌+◌, ◌-◌, ◌≤◌, ◌<◌, String, Option, List, [], ◌∷◌, arith, length-sort_by, count-sort_by,
  length, take, sort_by,
}
use movie_api.Shared.Dict.{length-put_old, length-put-le}
use movie_api.ResponseCache.{
  Cache, CacheCall, get, set, delete, delete_prefix, run_calls, pop_all, keys, with_prefix,
  ends_before, cache_get, cache_set, evict_catalog_cache, drop_oldest, drop_expired, delete_local,
  delete_local_prefix, catalog_cache_max_entries,
}
use movie_api.ResponseCache.Entries.{keyed, length-pop_all, count-take, keys_lem}

module _ {V : Type 0} where
  length-drop_oldest :
      (n : ℕ) (c : Cache V) → n ≤ length c → length (drop_oldest n c) + n ≤ length c
  unfolding drop_oldest
  length-drop_oldest n c enough =
      let sorted = sort_by ends_before c in
      let old = keys (take n sorted) in
      omega (
        arith,
        length-pop_all old c,
        count-sort_by ends_before (keyed old) c,
        length-sort_by ends_before c,
        count-take (keyed old) n sorted (keys_lem (take n sorted)),
      )

  length-evict :
      (now : ℕ) (c : Cache V) → length (evict_catalog_cache now c) < catalog_cache_max_entries
  unfolding evict_catalog_cache
  length-evict now c =
      let live = drop_expired now c in
      ground (arith, length-drop_oldest (length live - catalog_cache_max_entries + 1) live)

  set_small :
      (now : ℕ) (key : String) (value : Option V) (ttl : ℕ) (c : Cache V)
      → length c ≤ catalog_cache_max_entries
      → length (cache_set now key value ttl c) ≤ catalog_cache_max_entries
  unfolding cache_set
  set_small now key value ttl c small =
      let entry : ℕ × Option V = (now + ttl, value) in
      ground (
        arith,
        length-evict now c,
        length-put_old key entry c,
        length-put-le key entry c,
        length-put-le key entry (evict_catalog_cache now c),
      )

  pub pop_small : (ks : List String) (c : Cache V) → length (pop_all ks c) ≤ length c
  pop_small ks c = omega (arith, length-pop_all ks c)

  pub get_small : (now : ℕ) (key : String) (c : Cache V) → length (cache_get now key c).1 ≤ length c
  unfolding cache_get
  get_small now key c = ground (arith, pop_small (key ∷ []) c)

  -- After any calls, reads, writes and deletions of keys and of prefixes, a cache of at most 512
  -- entries has at most 512 entries.
  pub run_small :
      (calls : List (CacheCall V)) (c : Cache V)
      → length c ≤ catalog_cache_max_entries
      → length (run_calls calls c).1 ≤ catalog_cache_max_entries
  unfolding run_calls delete_local delete_local_prefix
  run_small [] c small = small
  run_small (get now key ∷ calls) c small =
      run_small calls (cache_get now key c).1 (omega (arith, get_small now key c))
  run_small (set now key value ttl ∷ calls) c small =
      run_small calls (cache_set now key value ttl c) (set_small now key value ttl c small)
  run_small (delete key ∷ calls) c small =
      run_small calls (delete_local key c) (omega (arith, pop_small (key ∷ []) c))
  run_small (delete_prefix prefix ∷ calls) c small =
      run_small calls (delete_local_prefix prefix c)
        (omega (arith, pop_small (with_prefix prefix (keys c)) c))
