-- ===== src/DistributedLock/Trips.antt =====
-- The calls of several processes, one round trip to Redis at a time: between the GET of a refresh or a
-- release and its EXPIRE or DELETE, other processes may act and seconds may pass.
use movie_api.Shared.{
  ℕ, zero, suc, ◌+◌, ◌≡◌, String, Bool, false, Option, none, some, List, [], ◌∷◌, arith,
  if◌then◌else◌, str_eq, Option-cases, inl, inr,
}
use movie_api.DistributedLock.{
  LockService, Process, redis, flock, HeldLock, sync_redis, owns, extend, give_up, refresh, release,
  try_acquire,
}

-- A refresh or a release of a lock, of which the EXPIRE or the DELETE may be outstanding.
pub data Trip : Type 0 where
  renewal removal : HeldLock → Trip

abbrev pub lock_of : Trip → HeldLock
lock_of (renewal lock) = lock
lock_of (removal lock) = lock

-- A process acquires a lock, starts a trip, or sends the EXPIRE or DELETE of the n-th outstanding trip,
-- counted from the newest; or seconds pass. What a process gives up is never sent.
pub data LockCall : Type 0 where
  acquire : String → String → ℕ → Option String → Process → LockCall
  start : Trip → Process → LockCall
  send : ℕ → LockCall
  pass : ℕ → LockCall

abbrev pub seconds_of : List LockCall → ℕ
seconds_of [] = 0
seconds_of (pass n ∷ calls) = n + seconds_of calls
seconds_of (_ ∷ calls) = seconds_of calls

-- No call starts to renew or to give back a lock with this token.
abbrev pub IsForeign : String → List LockCall → Type 0
IsForeign token [] = Unit
IsForeign token (start trip _ ∷ calls) =
    (str_eq (lock_of trip).token token ≡ false) × IsForeign token calls
IsForeign token (_ ∷ calls) = IsForeign token calls

-- a trip on another name
abbrev pub IsElsewhere : String → Trip → Type 0
IsElsewhere name trip = str_eq (lock_of trip).name name ≡ false

-- a lock on the name that Redis granted
abbrev pub is_claim : String → HeldLock → Bool
is_claim name lock = elim lock.backend [ redis ↦ str_eq lock.name name | flock ↦ false ]

abbrev pub granted_to : Option HeldLock → List HeldLock → List HeldLock
granted_to none locks = locks
granted_to (some lock) locks = lock ∷ locks

abbrev pub nth_trip : ℕ → List Trip → Option Trip
nth_trip n [] = none
nth_trip zero (trip ∷ trips) = some trip
nth_trip (suc n) (trip ∷ trips) = nth_trip n trips

abbrev pub without_trip : ℕ → List Trip → List Trip
without_trip n [] = []
without_trip zero (trip ∷ trips) = trips
without_trip (suc n) (trip ∷ trips) = trip ∷ without_trip n trips

module _ {S : Type 0} (service : LockService S) (redis_url : Option String) where
  -- a refresh or a release up to the answer of the GET: whether more is to be sent
  unfoldable pub ask : HeldLock → Process → S → Bool × S
  unfolding owns
  ask lock p s = if (sync_redis service redis_url p).0 then owns service lock s else (false, s)

  unfoldable pub start_trip : Trip → Process → S → Bool × S
  unfolding ask
  start_trip (renewal lock) p s = elim lock.backend [ redis ↦ ask lock p s | flock ↦ (false, s) ]
  start_trip (removal lock) p s = elim lock.backend [
    | redis ↦ ask lock p s
    | flock ↦ (false, elim lock.file [ none ↦ s | some path ↦ service.unflock path s ])
  ]

  -- the EXPIRE of a refresh, the DELETE of a release
  unfoldable pub finish_trip : Trip → S → S
  finish_trip (renewal lock) s = (service.expire lock.name lock.ttl_seconds s).1
  finish_trip (removal lock) s = (service.delete lock.name s).1

  -- both parts with nothing between them
  unfoldable pub whole_trip : Trip → Process → S → S
  unfolding start_trip finish_trip
  whole_trip trip p s =
      let (outstanding, s') = start_trip trip p s in if outstanding then finish_trip trip s' else s'

  -- A trip that nothing interrupts is a call of `refresh`,
  pub whole_trip-refresh :
      (lock : HeldLock) (p : Process) (s : S)
      → (refresh service redis_url lock p s).2 ≡ whole_trip (renewal lock) p s
  unfolding refresh extend whole_trip start_trip ask finish_trip
  whole_trip-refresh lock p s = ground arith

  -- or of `release`.
  pub whole_trip-release :
      (lock : HeldLock) (p : Process) (s : S)
      → (release service redis_url lock p s).2 ≡ whole_trip (removal lock) p s
  unfolding release give_up whole_trip start_trip ask finish_trip
  whole_trip-release lock p s = elim (Option-cases lock.file) [
    | inl missing ↦ ground arith
    | inr (path, found) ↦ ground arith
  ]

module _ {S : Type 0} (service : LockService S) (redis_url : Option String) (wait : ℕ → S → S) where
  -- The locks that the calls acquire, in order, the trips that are outstanding, the newest first, and
  -- the state that the calls leave.
  unfoldable pub run_locks : List LockCall → List Trip → S → List HeldLock × List Trip × S
  unfolding start_trip finish_trip
  run_locks [] trips s = ([], trips, s)
  run_locks (acquire name token ttl flock_path p ∷ calls) trips s =
      let (taken, _, s') = try_acquire service redis_url name token ttl flock_path p s in
      let (locks, trips', s'') = run_locks calls trips s' in (granted_to taken locks, trips', s'')
  run_locks (start trip p ∷ calls) trips s =
      let (outstanding, s') = start_trip service redis_url trip p s in
      run_locks calls (if outstanding then trip ∷ trips else trips) s'
  run_locks (send n ∷ calls) trips s =
      run_locks calls (without_trip n trips)
        (elim (nth_trip n trips) [ none ↦ s | some trip ↦ finish_trip service redis_url trip s ])
  run_locks (pass n ∷ calls) trips s = run_locks calls trips (wait n s)
