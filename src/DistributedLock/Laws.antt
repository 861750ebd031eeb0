-- ===== src/DistributedLock/Laws.antt =====
-- What the lock relies on of Redis and of file locks.
use movie_api.Shared.{ℕ, ◌-◌, ◌<◌, ◌≡◌, String, Bool, true, false, ◌&&◌, Option, none, some, str_eq}
use movie_api.DistributedLock.{LockService}

abbrev pub token_of : Option (String × ℕ) → Option String
token_of none = none
token_of (some (token, _)) = some token

abbrev pub is_new : Option Bool → Bool
is_new none = false
is_new (some b) = b

-- What Redis documents of these calls, where `owner` is the value of a key with its remaining
-- seconds, and `wait` lets seconds pass. A call that raises may have been carried out or not.
pub record LockLaws {S : Type 0} (service : LockService S)
    (owner : String → S → Option (String × ℕ)) (wait : ℕ → S → S) : Type 0 where
  pub set_new :
      (name token : String) (ttl : ℕ) (s : S)
      → (service.set_nx name token ttl s).0 ≡ some true
      → owner name (service.set_nx name token ttl s).1 ≡ some (token, ttl)
  pub set_keeps :
      (name token : String) (ttl : ℕ) (s : S) (key : String) (e : String × ℕ)
      → owner key s ≡ some e
      → (owner key (service.set_nx name token ttl s).1 ≡ some e)
        × ((str_eq name key && is_new (service.set_nx name token ttl s).0) ≡ false)
  pub get_reads :
      (name : String) (s : S) (value : Option String)
      → (service.get name s).0 ≡ some value
      → value ≡ token_of (owner name s)
  pub get_keeps :
      (name : String) (s : S) (key : String) → owner key (service.get name s).1 ≡ owner key s
  pub expire_keeps :
      (name : String) (ttl : ℕ) (s : S) (key : String)
      → str_eq name key ≡ false
      → owner key (service.expire name ttl s).1 ≡ owner key s
  pub delete_keeps :
      (name : String) (s : S) (key : String)
      → str_eq name key ≡ false
      → owner key (service.delete name s).1 ≡ owner key s
  pub flock_keeps :
      (path : String) (s : S) (key : String)
      → (owner key (service.flock path s).1 ≡ owner key s)
        × (owner key (service.unflock path s) ≡ owner key s)
  pub wait_keeps :
      (n : ℕ) (s : S) (key token : String) (left : ℕ)
      → owner key s ≡ some (token, left)
      → n < left
      → owner key (wait n s) ≡ some (token, left - n)
