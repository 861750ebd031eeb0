-- ===== src/DistributedLock/Ownership.antt =====
-- Who owns the key of a lock in Redis, over the calls of all processes.
use movie_api.Shared.{
  ℕ, zero, suc, ◌-◌, ◌<◌, ◌≡◌, refl, ◌∙◌, ◌&&◌, Bool, if◌then◌else◌, String, true, false, Option,
  none, some, List, [], ◌∷◌, arith, max, str_eq, eq_iff, All, Option-cases, inl, inr,
}
use movie_api.DistributedLock.{
  LockService, Process, redis, HeldLock, is_owner, path_of, owns, try_flock, try_acquire,
}
use movie_api.DistributedLock.Laws.{LockLaws}
use movie_api.DistributedLock.Trips.{
  Trip, renewal, removal, lock_of, LockCall, acquire, start, send, pass, seconds_of, IsForeign,
  IsElsewhere, is_claim, granted_to, nth_trip, without_trip, ask, start_trip, finish_trip,
  run_locks,
}

-- the value that a read gives, or None where it raises
abbrev got : {S : Type 0} → LockService S → String → S → Option String
got service name s = elim (service.get name s).0 [ none ↦ none | some value ↦ value ]

granted-All :
    (name : String) (taken : Option HeldLock) (locks : List HeldLock)
    → All (λ lock. is_claim name lock ≡ false) (granted_to taken [])
    → All (λ lock. is_claim name lock ≡ false) locks
    → All (λ lock. is_claim name lock ≡ false) (granted_to taken locks)
granted-All name none locks one all = all
granted-All name (some lock) locks one all = (one.0, all)

module _ {S : Type 0} (service : LockService S) (owner : String → S → Option (String × ℕ))
    (wait : ℕ → S → S) (laws : LockLaws service owner wait) (redis_url : Option String)
    (name token : String) where
  acquire_keeps :
      (left : ℕ) (s : S) (j other : String) (ttl : ℕ) (flock_path : Option String) (p : Process)
      → owner name s ≡ some (token, left)
      → let (taken, _, s') = try_acquire service redis_url j other ttl flock_path p s in
        (owner name s' ≡ some (token, left))
        × All (λ lock. is_claim name lock ≡ false) (granted_to taken [])
  unfolding try_acquire try_flock
  acquire_keeps left s j other ttl flock_path p mine =
      let asked = service.set_nx j other (max 30 ttl) s in
      ground (
        arith,
        laws.set_keeps j other (max 30 ttl) s name (token, left),
        laws.flock_keeps (path_of flock_path j) asked.1 name,
        laws.flock_keeps (path_of flock_path j) s name,
      )

  foreign_get :
      (left : ℕ) (s : S) (lock : HeldLock) (value : Option String)
      → owner name s ≡ some (token, left)
      → str_eq lock.token token ≡ false
      → (service.get lock.name s).0 ≡ some value
      → is_owner lock.token value ≡ true
      → str_eq lock.name name ≡ false
  foreign_get left s lock none mine foreign read same = cc
  foreign_get left s lock (some v) mine foreign read same = ground (
    arith,
    laws.get_reads lock.name s (some v),
    eq_iff v lock.token,
    eq_iff lock.name name,
    eq_iff lock.token token,
  )

  owns_keeps :
      (left : ℕ) (s : S) (lock : HeldLock)
      → owner name s ≡ some (token, left)
      → str_eq lock.token token ≡ false
      → let (mine, s') = owns service lock s in
        (owner name s' ≡ some (token, left)) × ((mine && str_eq lock.name name) ≡ false)
  unfolding owns
  owns_keeps left s lock mine foreign = ground (
    arith,
    laws.get_keeps lock.name s name,
    foreign_get left s lock (got service lock.name s) mine foreign,
  )

  start_keeps :
      (left : ℕ) (s : S) (trip : Trip) (p : Process)
      → owner name s ≡ some (token, left)
      → str_eq (lock_of trip).token token ≡ false
      → let (outstanding, s') = start_trip service redis_url trip p s in
        (owner name s' ≡ some (token, left))
        × ((outstanding && str_eq (lock_of trip).name name) ≡ false)
  unfolding start_trip ask
  start_keeps left s (renewal lock) p mine foreign =
      ground (arith, owns_keeps left s lock mine foreign)
  start_keeps left s (removal lock) p mine foreign = elim (Option-cases lock.file) [
    | inl missing ↦ ground (arith, owns_keeps left s lock mine foreign)
    | inr (path, found) ↦
        ground (arith, owns_keeps left s lock mine foreign, laws.flock_keeps path s name)
  ]

  finish_keeps :
      (s : S) (trip : Trip)
      → IsElsewhere name trip
      → owner name (finish_trip service redis_url trip s) ≡ owner name s
  unfolding finish_trip
  finish_keeps s (renewal lock) elsewhere =
      laws.expire_keeps lock.name lock.ttl_seconds s name elsewhere
  finish_keeps s (removal lock) elsewhere = laws.delete_keeps lock.name s name elsewhere

  send_keeps :
      (n : ℕ) (trips : List Trip) (s : S)
      → All (IsElsewhere name) trips
      → owner name
          (elim (nth_trip n trips) [ none ↦ s | some trip ↦ finish_trip service redis_url trip s ])
        ≡ owner name s
  send_keeps n [] s away = refl
  send_keeps zero (trip ∷ trips) s away = finish_keeps s trip away.0
  send_keeps (suc n) (trip ∷ trips) s away = send_keeps n trips s away.1

  without_trip-All :
      (n : ℕ) (trips : List Trip)
      → All (IsElsewhere name) trips
      → All (IsElsewhere name) (without_trip n trips)
  without_trip-All n [] away = tt
  without_trip-All zero (trip ∷ trips) away = away.1
  without_trip-All (suc n) (trip ∷ trips) away = (away.0, without_trip-All n trips away.1)

  outstanding-All :
      (outstanding : Bool) (trip : Trip) (trips : List Trip)
      → (outstanding && str_eq (lock_of trip).name name) ≡ false
      → All (IsElsewhere name) trips
      → All (IsElsewhere name) (if outstanding then trip ∷ trips else trips)
  outstanding-All true trip trips elsewhere away = (elsewhere, away)
  outstanding-All false trip trips elsewhere away = away

  owner_stays :
      (calls : List LockCall) (trips : List Trip) (left : ℕ) (s : S)
      → owner name s ≡ some (token, left)
      → All (IsElsewhere name) trips
      → IsForeign token calls
      → seconds_of calls < left
      → let (locks, _, s') = run_locks service redis_url wait calls trips s in
        (owner name s' ≡ some (token, left - seconds_of calls))
        × All (λ lock. is_claim name lock ≡ false) locks
  unfolding run_locks
  owner_stays [] trips left s mine away foreign soon = (ground arith, tt)
  owner_stays (acquire j other ttl flock_path p ∷ calls) trips left s mine away foreign soon =
      let (stays, none_granted) = acquire_keeps left s j other ttl flock_path p mine in
      let s' = (try_acquire service redis_url j other ttl flock_path p s).2 in
      let (kept, later) = owner_stays calls trips left s' stays away foreign soon in
      (
        kept,
        granted-All name (try_acquire service redis_url j other ttl flock_path p s).0 _ none_granted
            later,
      )
  owner_stays (start trip p ∷ calls) trips left s mine away (other, foreign) soon =
      let (stays, elsewhere) = start_keeps left s trip p mine other in
      let (outstanding, s') = start_trip service redis_url trip p s in
      owner_stays calls (if outstanding then trip ∷ trips else trips) left s' stays
        (outstanding-All outstanding trip trips elsewhere away) foreign soon
  owner_stays (send n ∷ calls) trips left s mine away foreign soon =
      owner_stays calls (without_trip n trips) left _ (send_keeps n trips s away ∙ mine)
        (without_trip-All n trips away) foreign soon
  owner_stays (pass n ∷ calls) trips left s mine away foreign soon =
      let (kept, later) =
        owner_stays calls trips (left - n) (wait n s)
          (laws.wait_keeps n s name token left mine (omega (arith, soon))) away foreign
          (omega (arith, soon)) in
      (ground arith, later)

  granted_owner :
      (ttl : ℕ) (flock_path : Option String) (p : Process) (s : S) (lock : HeldLock)
      → (try_acquire service redis_url name token ttl flock_path p s).0 ≡ some lock
      → lock.backend ≡ redis
      → owner name (try_acquire service redis_url name token ttl flock_path p s).2
        ≡ some (token, max 30 ttl)
  unfolding try_acquire try_flock
  granted_owner ttl flock_path p s lock taken by_redis =
      ground (arith, laws.set_new name token (max 30 ttl) s)

  -- After Redis granted the lock, where no process then stands between the GET and the EXPIRE or DELETE
  -- of a refresh or release on its name: over any round trips of the processes that start no refresh or
  -- release of a lock with its token, in any interleaving, and in less time than its time to live,
  -- which is at least 30 seconds, the token still owns the key, and Redis granted the name to no call.
  pub granted_alone :
      (ttl : ℕ) (flock_path : Option String) (p : Process) (s : S) (lock : HeldLock)
      (calls : List LockCall) (trips : List Trip)
      → (try_acquire service redis_url name token ttl flock_path p s).0 ≡ some lock
      → lock.backend ≡ redis
      → All (IsElsewhere name) trips
      → IsForeign token calls
      → seconds_of calls < max 30 ttl
      → let (_, _, held) = try_acquire service redis_url name token ttl flock_path p s in
        let (locks, _, s') = run_locks service redis_url wait calls trips held in
        (owner name s' ≡ some (token, max 30 ttl - seconds_of calls))
        × All (λ lock. is_claim name lock ≡ false) locks
  granted_alone ttl flock_path p s lock calls trips taken by_redis away foreign soon =
      owner_stays calls trips (max 30 ttl)
        (try_acquire service redis_url name token ttl flock_path p s).2
        (granted_owner ttl flock_path p s lock taken by_redis) away foreign soon
