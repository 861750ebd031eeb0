-- ===== src/SharedCache.antt =====
-- app/services/shared_cache.py: bytes in Redis, where one is set up; every failure reads as a miss
-- and writes nothing more. The client library is the parameter `redis`, whose calls may raise.
use movie_api.Shared.{
  ℕ, ◌/◌, String, Bool, true, false, Option, none, some, List, [], ◌∷◌, max, if◌then◌else◌, str_eq,
  strip,
}

-- The calls of redis.asyncio on a server with the state S; the flag or the `some` says that the
-- call returned, and otherwise it raised.
pub record Redis (S : Type 0) : Type 0 where
  pub from_url : String → Bool
  pub get : String → S → Option (Option String) × S
  pub set : String → String → ℕ → S → Bool × S
  pub delete : List String → S → Bool × S
  pub scan_iter : String → S → Option (List String) × S

-- `_redis` (whether there is a client), `_redis_failed`, and the server
pub record Shared (S : Type 0) : Type 0 where
  pub redis : Bool
  pub redis_failed : Bool
  pub server : S

module _ {S : Type 0} (service : Redis S) (redis_url : Option String) where
  abbrev url : String
  url = strip (elim redis_url [ none ↦ "" | some u ↦ u ])

  -- `_client`: whether there is one
  unfoldable pub client : Shared S → Bool × Shared S
  client s =
      if s.redis_failed
      then (false, s)
      else if s.redis
      then (true, s)
      else if str_eq url ""
      then (false, s)
      else if service.from_url url
      then (true, record s { redis = true })
      else (false, record s { redis_failed = true })

  unfoldable pub cache_get_bytes : String → Shared S → Option String × Shared S
  cache_get_bytes key s =
      let (connected, s') = client s in
      if connected
      then (let (answer, server') = service.get key s'.server in
          (elim answer [ none ↦ none | some value ↦ value ], record s' { server = server' }))
      else (none, s')

  -- `ttl_seconds` is in microseconds here, as every duration.
  unfoldable pub cache_set_bytes : String → String → ℕ → Shared S → Shared S
  cache_set_bytes key value ttl_seconds s =
      let (connected, s') = client s in
      if connected
      then (let (_, server') = service.set key value (max 1 (ttl_seconds / 1000000)) s'.server in
          record s' { server = server' })
      else s'

  unfoldable pub cache_delete_bytes : String → Shared S → Shared S
  cache_delete_bytes key s =
      let (connected, s') = client s in
      if connected
      then (let (_, server') = service.delete (key ∷ []) s'.server in
          record s' { server = server' })
      else s'

  unfoldable pub cache_delete_pattern : String → Shared S → Shared S
  cache_delete_pattern pattern s =
      let (connected, s') = client s in
      if connected
      then (let (found, server') = service.scan_iter pattern s'.server in
          let scanned : Shared S = record s' { server = server' } in
          elim found [
            | none ↦ scanned
            | some [] ↦ scanned
            | some (k ∷ ks) ↦
                (let (_, server'') = service.delete (k ∷ ks) server' in
                  record scanned { server = server'' })
          ])
      else s'
