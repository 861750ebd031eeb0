-- ===== src/ResponseCache/Layered.antt =====
-- The two layers together: what is served again, and what a deletion leaves.
use Prim.Native.String.{◌++◌}
use movie_api.Shared.{
  ℕ, ◌+◌, ◌<◌, ◌≡◌, String, true, false, Option, none, some, [], ◌∷◌, arith, eq_refl,
}
use movie_api.Shared.Dict.{lookup, lookup-put, lookup-remove}
use movie_api.SharedCache.{Redis, Shared, client, cache_get_bytes, cache_delete_bytes}
use movie_api.ResponseCache.{
  Cache, Layers, Json, redis_key_prefix, cache_get, cache_set, cache_get_async, cache_set_async,
  cache_get_or_set, cache_delete, delete_local,
}

module _ {V : Type 0} where
  lookup-cache_set :
      (now : ℕ) (key : String) (value : Option V) (ttl : ℕ) (c : Cache V)
      → lookup key (cache_set now key value ttl c) ≡ some (now + ttl, value)
  unfolding cache_set
  lookup-cache_set now key value ttl c = simp (lookup-put, eq_refl)

module _ {V S : Type 0} (service : Redis S) (redis_url : Option String) (json : Json V) where
  -- A live entry of the worker is the answer, and nothing changes.
  get_or_set_hit :
      (now later last key_end : ℕ) (key : String) (made : Option V) (v : V) (ttl : ℕ)
      (l : Layers V S)
      → lookup key l.local ≡ some (key_end, some v)
      → now < key_end
      → (cache_get_or_set service redis_url json now later last key made ttl l).0 ≡ (some v, false)
  unfolding cache_get_or_set cache_get_async cache_get
  get_or_set_hit now later last key_end key made v ttl l entry soon = ground arith

  -- The factory's value is the worker's entry after it was called.
  get_or_set_made :
      (now later last : ℕ) (key : String) (v : V) (ttl : ℕ) (l : Layers V S)
      → (cache_get_or_set service redis_url json now later last key (some v) ttl l).0
        ≡ (some v, true)
      → lookup key
          (cache_get_or_set service redis_url json now later last key (some v) ttl l).1.local
        ≡ some (last + ttl, some v)
  unfolding cache_get_or_set cache_set_async
  get_or_set_made now later last key v ttl l called = ground (
    arith,
    lookup-cache_set last key (some v) ttl
        (cache_get_async service redis_url json now later key l).1.local,
  )

  -- After the factory was called for a key and gave a value, the worker answers the same value for
  -- the key, without calling the factory, at any time before the entry's time to live is over,
  -- whatever Redis does.
  pub served_again :
      (now later last now' later' last' : ℕ) (key : String) (v : V) (made : Option V) (ttl : ℕ)
      (l : Layers V S)
      → (cache_get_or_set service redis_url json now later last key (some v) ttl l).0
        ≡ (some v, true)
      → now' < last + ttl
      → (cache_get_or_set service redis_url json now' later' last' key made ttl
          (cache_get_or_set service redis_url json now later last key (some v) ttl l).1).0
        ≡ (some v, false)
  served_again now later last now' later' last' key v made ttl l called soon =
      get_or_set_hit now' later' last' (last + ttl) key made v ttl
        (cache_get_or_set service redis_url json now later last key (some v) ttl l).1
        (get_or_set_made now later last key v ttl l called) soon

  deleted_bytes :
      (key : String) (s : Shared S)
      → ((s : S) → (service.get key (service.delete (key ∷ []) s).1).0 ≡ some none)
      → (cache_get_bytes service redis_url key (cache_delete_bytes service redis_url key s)).0
        ≡ none
  unfolding cache_get_bytes cache_delete_bytes client
  deleted_bytes key s removes = ground (arith, removes s.server)

  local_missed :
      (now later : ℕ) (key : String) (l : Layers V S)
      → lookup key l.local ≡ none
      → (cache_get_bytes service redis_url (redis_key_prefix ++ key) l.shared).0 ≡ none
      → (cache_get_async service redis_url json now later key l).0 ≡ none
  unfolding cache_get_async cache_get
  local_missed now later key l gone missing = ground arith

  -- A deletion that Redis carries out, or one where there is no Redis: the next read is a miss.
  pub deleted_misses :
      (now later : ℕ) (key : String) (l : Layers V S)
      → ((s : S)
          → (service.get
              (redis_key_prefix ++ key)
              (service.delete ((redis_key_prefix ++ key) ∷ []) s).1).0
            ≡ some none)
      → (cache_get_async service redis_url json now later key
          (cache_delete service redis_url key l)).0
        ≡ none
  unfolding cache_delete delete_local
  deleted_misses now later key l removes =
      local_missed now later key (cache_delete service redis_url key l)
        (ground (arith, lookup-remove key key l.local, eq_refl key))
        (deleted_bytes (redis_key_prefix ++ key) l.shared removes)
