-- ===== src/Tests/Locks.antt =====
-- Locks at concrete calls, on a Redis that is the map of its keys.
use movie_api.Shared.{
  ℕ, ◌-◌, ◌≡◌, refl, String, Bool, true, false, Option, none, some, List, [], ◌∷◌, arith, ltb, max,
  if◌then◌else◌, str_eq, eq_iff, eq_refl, All, strip, lstrip, rstrip,
}
use movie_api.DistributedLock.{LockService, Process, redis, HeldLock, sync_redis, owns, try_acquire}
use movie_api.DistributedLock.Laws.{LockLaws, token_of}
use movie_api.DistributedLock.Trips.{
  Trip, removal, LockCall, acquire, start, send, pass, seconds_of, is_claim, ask, start_trip,
  finish_trip, run_locks,
}
use movie_api.DistributedLock.Ownership.{granted_alone}

abbrev Keys : Type 0
Keys = String → Option (String × ℕ)

abbrev set_if_new : String → String → ℕ → Keys → Option Bool × Keys
set_if_new name token ttl s = elim (s name) [
  | none ↦ (some true, λ k. if str_eq name k then some (token, ttl) else s k)
  | some _ ↦ (some false, s)
]

abbrev lasting : ℕ → Option (String × ℕ) → Option (String × ℕ)
lasting ttl none = none
lasting ttl (some (token, left)) = some (token, ttl)

abbrev later : ℕ → Option (String × ℕ) → Option (String × ℕ)
later n none = none
later n (some (token, left)) = if ltb n left then some (token, left - n) else none

abbrev by_map : LockService Keys
by_map = record {
  from_url = λ _. true;
  set_nx = set_if_new;
  get = λ name s. (some (token_of (s name)), s);
  expire = λ name ttl s. (true, λ k. if str_eq name k then lasting ttl (s k) else s k);
  delete = λ name s. (true, λ k. if str_eq name k then none else s k);
  flock = λ _ s. (true, s);
  unflock = λ _ s. s;
}

abbrev owner_of : String → Keys → Option (String × ℕ)
owner_of name s = s name

abbrev wait : ℕ → Keys → Keys
wait n s = λ k. later n (s k)

by_map_laws : LockLaws by_map owner_of wait
by_map_laws = record {
  set_new = λ name token ttl s new. ground (arith, eq_refl name);
  set_keeps = λ name token ttl s key e held. ground (arith, eq_iff name key);
  get_reads = λ name s value read. ground arith;
  get_keeps = λ name s key. refl;
  expire_keeps = λ name ttl s key other. ground arith;
  delete_keeps = λ name s key other. ground arith;
  flock_keeps = λ path s key. (refl, refl);
  wait_keeps = λ n s key token left held soon. ground arith;
}

abbrev fresh_process : Process
fresh_process = record { redis_sync = false; redis_failed = false }

abbrev no_keys : Keys
no_keys k = none

abbrev sweeper_lock : HeldLock
sweeper_lock = record {
  name = "sweeper";
  token = "1-a";
  ttl_seconds = 180;
  backend = redis;
  file = none;
}

abbrev lock_with : String → String → HeldLock
lock_with name token = record sweeper_lock { name = name; token = token }

-- A second process asks twice, the second time after a minute, and a third gives back a lock that it
-- lost; the lock of another loop is being given back.
abbrev others : List LockCall
others =
    acquire "sweeper" "2-b" 180 none fresh_process
    ∷ start (removal (lock_with "sweeper" "3-c")) fresh_process
    ∷ pass 60
    ∷ send 0
    ∷ acquire "sweeper" "2-c" 180 none fresh_process
    ∷ []

abbrev outstanding : List Trip
outstanding = removal (lock_with "monitor" "2-m") ∷ []

acquired :
    (try_acquire by_map (some "redis://r") "sweeper" "1-a" 180 none fresh_process no_keys).0
    ≡ some sweeper_lock
unfolding try_acquire sync_redis strip lstrip rstrip
acquired = refl

granted_alone_example :
    let (_, _, held) =
      try_acquire by_map (some "redis://r") "sweeper" "1-a" 180 none fresh_process no_keys in
    let (locks, _, s') = run_locks by_map (some "redis://r") wait others outstanding held in
    (owner_of "sweeper" s' ≡ some ("1-a", max 30 180 - seconds_of others))
    × All (λ lock. is_claim "sweeper" lock ≡ false) locks
granted_alone_example =
    granted_alone by_map owner_of wait by_map_laws (some "redis://r") "sweeper" "1-a" 180 none
      fresh_process no_keys sweeper_lock others outstanding acquired refl (refl, tt) (refl, tt)
      (omega arith)

abbrev one_key : Keys
one_key k = if str_eq "sweeper" k then some ("0-z", 1) else none

-- A release whose GET was answered before the key expired deletes the key of the next owner, and a
-- third process is granted the lock beside it.
late_release :
    (run_locks by_map
      (some "redis://r")
      wait
      (start (removal (lock_with "sweeper" "0-z")) fresh_process
        ∷ pass 1
        ∷ acquire "sweeper" "1-a" 180 none fresh_process
        ∷ send 0
        ∷ acquire "sweeper" "2-b" 180 none fresh_process
        ∷ [])
      []
      one_key).0
    ≡ sweeper_lock ∷ lock_with "sweeper" "2-b" ∷ []
unfolding run_locks start_trip ask owns finish_trip try_acquire sync_redis strip lstrip rstrip
late_release = refl
