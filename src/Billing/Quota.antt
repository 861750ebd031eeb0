-- ===== src/Billing/Quota.antt =====
-- app/billing/bakong_quota.py: the circuit breaker of the checks at Bakong. Redis is not part of the
-- repository: what its client answers is an argument (`none` without a client, without the key, or
-- where the call fails), and what the code writes to it is a result.
pub mod Deadlines
use movie_api.Shared.{
  ℕ, ◌+◌, ◌-◌, ◌/◌, Bool, true, false, Option, none, some, ltb, max, min, if◌then◌else◌, seconds,
}

abbrev pub default_cooldown_seconds : ℕ
default_cooldown_seconds = seconds 3600

abbrev pub transient_cooldown_seconds : ℕ
transient_cooldown_seconds = seconds 30

-- `_blocked_until_monotonic`
pub record Circuit : Type 0 where
  pub blocked_until : ℕ

-- `client.set(_REDIS_KEY, str(until_unix), ex=ttl)`
pub record RedisSet : Type 0 where
  pub until_unix : ℕ
  pub ttl_seconds : ℕ

-- The deadline that goes to Redis: the later of the one there and the new one.
unfoldable pub shared_deadline : ℕ → ℕ → Option ℕ → RedisSet
shared_deadline unix cooldown existing =
    let until : ℕ = elim existing [ none ↦ unix + cooldown | some e ↦ max (unix + cooldown) e ] in
    record { until_unix = until; ttl_seconds = max 60 ((until - unix) / seconds 1 + 60) }

-- `_set_blocked_until`, at the instants of the two clocks
unfoldable pub set_blocked_until : ℕ → ℕ → Option ℕ → ℕ → Circuit → Circuit × RedisSet
unfolding shared_deadline
set_blocked_until mono unix existing cooldown_seconds q =
    let cooldown : ℕ = max (seconds 5) cooldown_seconds in
    let until_mono : ℕ = mono + cooldown in
    (
      if ltb q.blocked_until until_mono then record { blocked_until = until_mono } else q,
      shared_deadline unix cooldown existing,
    )

-- `note_bakong_rate_limited`
unfoldable pub note_bakong_rate_limited : ℕ → ℕ → Option ℕ → Circuit → Circuit × RedisSet
unfolding set_blocked_until
note_bakong_rate_limited mono unix existing =
    set_blocked_until mono unix existing default_cooldown_seconds

-- `note_bakong_transient`, of a cooldown that it bounds
unfoldable pub note_bakong_transient : ℕ → ℕ → Option ℕ → ℕ → Circuit → Circuit × RedisSet
unfolding set_blocked_until
note_bakong_transient mono unix existing cooldown_seconds =
    set_blocked_until mono unix existing (max (seconds 5) (min cooldown_seconds (seconds 120)))

-- `bakong_checks_blocked`; `shared` is what Redis has under the key
unfoldable pub bakong_checks_blocked : ℕ → ℕ → Option ℕ → Circuit → Bool
bakong_checks_blocked mono unix none q = ltb mono q.blocked_until
bakong_checks_blocked mono unix (some deadline) q =
    if ltb unix deadline then true else ltb mono q.blocked_until

-- `bakong_checks_blocked_remaining_seconds`
unfoldable pub bakong_checks_blocked_remaining_seconds : ℕ → ℕ → Option ℕ → Circuit → ℕ
bakong_checks_blocked_remaining_seconds mono unix none q = q.blocked_until - mono
bakong_checks_blocked_remaining_seconds mono unix (some deadline) q = deadline - unix

-- `clear_bakong_rate_limit` on this worker; it also deletes the key in Redis
unfoldable pub clear_bakong_rate_limit : Circuit → Circuit
clear_bakong_rate_limit q = record { blocked_until = 0 }
