-- ===== src/ResponseCache.antt =====
-- app/services/response_cache.py: the answers of catalog endpoints, remembered by a worker and, where
-- one is set up, in Redis. Each reading of the monotonic clock is an argument `now`, in microseconds,
-- and the module's `_CACHE` is the state. A cached None reads like a missing entry, as in the program.
pub mod Entries
pub mod Capacity
pub mod Refinement
pub mod Layered
pub mod Exact
use Prim.Native.String.{◌++◌}
use text.Mathlib.Text.{starts_with}
use movie_api.Shared.{
  ℕ, ◌+◌, ◌-◌, String, Bool, true, false, not, ◌&&◌, Option, none, some, List, [], ◌∷◌, ltb, leb,
  if◌then◌else◌, is_some, seconds, length, select, take, sort_by,
}
use movie_api.Shared.Dict.{Dict, lookup, put, remove}
use movie_api.SharedCache.{
  Redis, Shared, cache_get_bytes, cache_set_bytes, cache_delete_bytes, cache_delete_pattern,
}

abbrev pub catalog_ttl_seconds : ℕ
catalog_ttl_seconds = seconds 30

abbrev pub catalog_cache_max_entries : ℕ
catalog_cache_max_entries = 512

abbrev pub redis_key_prefix : String
redis_key_prefix = "catalog:"

-- `_CACHE`: when an entry ends, and its value
abbrev pub Cache : Type 0 → Type 0
Cache V = Dict (ℕ × Option V)

-- for key in keys: `_CACHE.pop(key, None)`
abbrev pub pop_all {ℓ} : {V : Type ℓ} → List String → Dict V → Dict V
pop_all [] c = c
pop_all (k ∷ ks) c = pop_all ks (remove k c)

abbrev pub keys {ℓ} : {V : Type ℓ} → Dict V → List String
keys [] = []
keys ((k, v) ∷ d) = k ∷ keys d

-- the keys with the prefix
abbrev pub with_prefix : String → List String → List String
with_prefix prefix [] = []
with_prefix prefix (k ∷ ks) =
    let rest = with_prefix prefix ks in if starts_with k prefix then k ∷ rest else rest

module _ {V : Type 0} where
  -- an entry that has ended
  abbrev pub is_expired : ℕ → String × (ℕ × Option V) → Bool
  is_expired now (k, (expires_at, value)) = leb expires_at now

  -- `key=lambda item: item[1][0]`
  abbrev pub ends_before : String × (ℕ × Option V) → String × (ℕ × Option V) → Bool
  ends_before (k, (e, v)) (j, (f, w)) = ltb e f

  unfoldable pub cache_get : ℕ → String → Cache V → Option V × Cache V
  cache_get now key c = elim (lookup key c) [
    | none ↦ (none, c)
    | some (expires_at, value) ↦ if leb expires_at now then (none, remove key c) else (value, c)
  ]

  -- the first step of `_evict_catalog_cache`
  unfoldable pub drop_expired : ℕ → Cache V → Cache V
  drop_expired now c = pop_all (keys (select (is_expired now) c)) c

  -- its second step
  unfoldable pub drop_oldest : ℕ → Cache V → Cache V
  drop_oldest n c = pop_all (keys (take n (sort_by ends_before c))) c

  -- `_evict_catalog_cache`
  unfoldable pub evict_catalog_cache : ℕ → Cache V → Cache V
  evict_catalog_cache now c =
      let live : Cache V = drop_expired now c in
      if ltb (length live) catalog_cache_max_entries
      then live
      else drop_oldest (length live - catalog_cache_max_entries + 1) live

  unfoldable pub cache_set : ℕ → String → Option V → ℕ → Cache V → Cache V
  cache_set now key value ttl_seconds c =
      let room : Cache V =
        if leb catalog_cache_max_entries (length c) && not (is_some (lookup key c))
        then evict_catalog_cache now c
        else c in
      put key (now + ttl_seconds, value) room

  -- `_CACHE.pop(key, None)` in `cache_delete`
  unfoldable pub delete_local : String → Cache V → Cache V
  delete_local key c = remove key c

  -- the loop of `cache_delete_prefix`
  unfoldable pub delete_local_prefix : String → Cache V → Cache V
  delete_local_prefix prefix c = pop_all (with_prefix prefix (keys c)) c

-- The worker's own entries, and what it knows of Redis
pub record Layers (V S : Type 0) : Type 0 where
  pub local : Cache V
  pub shared : Shared S

-- `json.loads` and `json.dumps(_to_jsonable(value), default=str)`, which raise where they give none
pub record Json (V : Type 0) : Type 0 where
  pub loads : String → Option (Option V)
  pub dumps : Option V → Option String

module _ {V S : Type 0} (service : Redis S) (redis_url : Option String) (json : Json V) where
  unfoldable pub cache_get_async : ℕ → ℕ → String → Layers V S → Option V × Layers V S
  cache_get_async now later key l =
      let (local, c) = cache_get now key l.local in
      elim local [
        | some value ↦ (some value, record l { local = c })
        | none ↦
            (let (raw, s) = cache_get_bytes service redis_url (redis_key_prefix ++ key) l.shared in
              let missed : Layers V S = record { local = c; shared = s } in
              elim raw [
                | none ↦ (none, missed)
                | some text ↦ elim (json.loads text) [
                  | none ↦ (none, missed)
                  | some value ↦ (
                    value,
                    record missed { local = cache_set later key value catalog_ttl_seconds c },
                  )
                ]
              ])
      ]

  unfoldable pub cache_set_async : ℕ → String → Option V → ℕ → Layers V S → Layers V S
  cache_set_async now key value ttl_seconds l =
      let written : Layers V S = record l { local = cache_set now key value ttl_seconds l.local } in
      elim (json.dumps value) [
        | none ↦ written
        | some text ↦ record written {
          shared =
              cache_set_bytes service redis_url (redis_key_prefix ++ key) text ttl_seconds l.shared;
        }
      ]

  -- `cache_get_or_set`: `made` is what the factory gives; whether it was called comes with the answer.
  unfoldable pub cache_get_or_set :
      ℕ → ℕ → ℕ → String → Option V → ℕ → Layers V S → (Option V × Bool) × Layers V S
  cache_get_or_set now later last key made ttl_seconds l =
      let (cached, l') = cache_get_async now later key l in
      elim cached [
        | some value ↦ ((some value, false), l')
        | none ↦ ((made, true), cache_set_async last key made ttl_seconds l')
      ]

module _ {V S : Type 0} (service : Redis S) (redis_url : Option String) where
  unfoldable pub cache_delete : String → Layers V S → Layers V S
  cache_delete key l = record {
    local = delete_local key l.local;
    shared = cache_delete_bytes service redis_url (redis_key_prefix ++ key) l.shared;
  }

  unfoldable pub cache_delete_prefix : String → Layers V S → Layers V S
  cache_delete_prefix prefix l = record {
    local = delete_local_prefix prefix l.local;
    shared = cache_delete_pattern service redis_url (redis_key_prefix ++ prefix ++ "*") l.shared;
  }

-- A call of the worker's own cache, with the time that it reads.
pub data CacheCall (V : Type 0) : Type 0 where
  get : ℕ → String → CacheCall V
  set : ℕ → String → Option V → ℕ → CacheCall V
  delete delete_prefix : String → CacheCall V

-- What the reads among the calls answer, in order, and what the calls leave.
module _ {V : Type 0} where
  unfoldable pub run_calls : List (CacheCall V) → Cache V → List (Option V) × Cache V
  run_calls [] c = ([], c)
  run_calls (get now key ∷ calls) c =
      let (value, c') = cache_get now key c in
      let (values, c'') = run_calls calls c' in (value ∷ values, c'')
  run_calls (set now key value ttl ∷ calls) c = run_calls calls (cache_set now key value ttl c)
  run_calls (delete key ∷ calls) c = run_calls calls (delete_local key c)
  run_calls (delete_prefix prefix ∷ calls) c = run_calls calls (delete_local_prefix prefix c)
