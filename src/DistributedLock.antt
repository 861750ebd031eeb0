-- ===== src/DistributedLock.antt =====
-- app/services/distributed_lock.py: one owner of a loop among the processes, by a key of Redis, or
-- by a file lock where Redis is absent or fails. The client library and `fcntl.flock` are the
-- parameter `service`; a call of Redis that raises gives none. The token is an argument, since it
-- holds a random UUID. A refresh and a release are two round trips to Redis, a GET and what follows
-- where the key is owned; Trips lets those of several processes interleave.
pub mod Laws
pub mod Trips
pub mod Ownership
use Prim.Native.String.{◌++◌}
use movie_api.Shared.{
  ℕ, String, Bool, true, false, Option, none, some, max, if◌then◌else◌, str_eq, strip,
  colons_dashed,
}

-- The calls on the outside, whose state is S: Redis, its clock, and the file locks.
pub record LockService (S : Type 0) : Type 0 where
  pub from_url : String → Bool
  pub set_nx : String → String → ℕ → S → Option Bool × S
  pub get : String → S → Option (Option String) × S
  pub expire : String → ℕ → S → Bool × S
  pub delete : String → S → Bool × S
  pub flock : String → S → Bool × S
  pub unflock : String → S → S

-- `_redis_sync` (whether there is a client) and `_redis_failed` of a process
pub record Process : Type 0 where
  pub redis_sync : Bool
  pub redis_failed : Bool

pub data Backend : Type 0 where
  redis flock : Backend

pub record HeldLock : Type 0 where
  pub name : String
  pub token : String
  pub ttl_seconds : ℕ
  pub backend : Backend
  pub file : Option String

abbrev pub is_owner : String → Option String → Bool
is_owner token none = false
is_owner token (some current) = str_eq current token

-- the path of the lock's file
abbrev pub path_of : Option String → String → String
path_of flock_path name =
    let fallback = "/tmp/reeltime-" ++ colons_dashed name ++ ".lock" in
    elim flock_path [ none ↦ fallback | some p ↦ if str_eq p "" then fallback else p ]

module _ {S : Type 0} (service : LockService S) where
  -- the GET of the key, and its comparison with the token
  unfoldable pub owns : HeldLock → S → Bool × S
  owns lock s =
      let (current, s') = service.get lock.name s in
      (elim current [ none ↦ false | some owner ↦ is_owner lock.token owner ], s')

  -- the lines of `refresh` within its `try`
  unfoldable pub extend : HeldLock → S → Bool × S
  unfolding owns
  extend lock s =
      let (mine, s') = owns lock s in
      if mine then service.expire lock.name lock.ttl_seconds s' else (false, s')

  -- the lines of `release` within its first `try`
  unfoldable pub give_up : HeldLock → S → S
  unfolding owns
  give_up lock s =
      let (mine, s') = owns lock s in if mine then (service.delete lock.name s').1 else s'

  -- the fallback of `try_acquire`
  unfoldable pub try_flock : String → String → ℕ → Option String → S → Option HeldLock × S
  try_flock name token ttl flock_path s =
      let path = path_of flock_path name in
      let (locked, s') = service.flock path s in
      let held : HeldLock = record {
        name = name;
        token = token;
        ttl_seconds = ttl;
        backend = flock;
        file = some path;
      } in
      (if locked then some held else none, s')

module _ {S : Type 0} (service : LockService S) (redis_url : Option String) where
  -- `_sync_redis`: whether there is a client
  unfoldable pub sync_redis : Process → Bool × Process
  sync_redis p =
      let url = strip (elim redis_url [ none ↦ "" | some u ↦ u ]) in
      if p.redis_failed
      then (false, p)
      else if p.redis_sync
      then (true, p)
      else if str_eq url ""
      then (false, p)
      else if service.from_url url
      then (true, record p { redis_sync = true })
      else (false, record p { redis_failed = true })

  unfoldable pub refresh : HeldLock → Process → S → Bool × Process × S
  refresh lock p s = elim lock.backend [
    | flock ↦ (true, p, s)
    | redis ↦
        (let (connected, p') = sync_redis p in
          if connected
          then (let (done, s') = extend service lock s in (done, p', s'))
          else (false, p', s))
  ]

  unfoldable pub release : HeldLock → Process → S → HeldLock × Process × S
  release lock p s = elim lock.backend [
    | redis ↦
        (let (connected, p') = sync_redis p in
          (lock, p', if connected then give_up service lock s else s))
    | flock ↦ elim lock.file [
      | none ↦ (lock, p, s)
      | some path ↦ (record lock { file = none }, p, service.unflock path s)
    ]
  ]

  unfoldable pub try_acquire :
      String → String → ℕ → Option String → Process → S → Option HeldLock × Process × S
  try_acquire name token ttl_seconds flock_path p s =
      let ttl = max 30 ttl_seconds in
      let (connected, p') = sync_redis p in
      let held : HeldLock = record {
        name = name;
        token = token;
        ttl_seconds = ttl;
        backend = redis;
        file = none;
      } in
      if connected
      then (let (answer, s') = service.set_nx name token ttl s in
          elim answer [
            | some is_new ↦ (if is_new then some held else none, p', s')
            | none ↦
                (let (taken, s'') = try_flock service name token ttl flock_path s' in
                  (taken, p', s''))
          ])
      else (let (taken, s') = try_flock service name token ttl flock_path s in (taken, p', s'))
