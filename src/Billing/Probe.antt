-- ===== src/Billing/Probe.antt =====
-- `probe_khqr_status` and `check_khqr_paid` of app/billing/bakong.py, over the check cache and the
-- circuit breaker of one worker. The answer of Bakong or of the payment gateway is an argument, as
-- `_remote_check_khqr_paid` and `_local_check_khqr_paid` read it; so is what Redis has. A probe takes
-- one reading of each clock.
pub mod Answers
use movie_api.Shared.{
  ℕ, String, Bool, true, false, not, ◌&&◌, Option, none, some, if◌then◌else◌, str_eq,
}
use movie_api.Billing.CheckCache.{
  Md5Status, paid, unpaid, unknown, CheckCache, get_cached_md5_status, set_cached_md5_status,
  consume_intent_nbc_check, max_nbc_checks_per_intent,
}
use movie_api.Billing.Quota.{
  Circuit, bakong_checks_blocked, note_bakong_rate_limited, note_bakong_transient,
  clear_bakong_rate_limit, transient_cooldown_seconds,
}

-- `(paid, inconclusive, quota_exhausted)`
pub record Answer : Type 0 where
  pub is_paid : Bool
  pub inconclusive : Bool
  pub quota_exhausted : Bool

-- What a worker keeps between probes.
pub record Worker : Type 0 where
  pub cache : CheckCache
  pub circuit : Circuit

-- The clocks, and the deadline in Redis, at a probe.
pub record Instant : Type 0 where
  pub mono : ℕ
  pub unix : ℕ
  pub shared : Option ℕ

-- The last lines of `probe_khqr_status`: the status of an answer, and the circuit after it.
unfoldable pub read_answer : Instant → Answer → Circuit → Md5Status × Circuit
read_answer at a q =
    if a.is_paid
    then (paid, clear_bakong_rate_limit q)
    else if a.inconclusive
    then (
      unknown,
      if a.quota_exhausted
          then (note_bakong_rate_limited at.mono at.unix at.shared q).0
          else (note_bakong_transient at.mono at.unix at.shared transient_cooldown_seconds q).0,
    )
    else (unpaid, q)

-- The budget of the intent; an empty id has none to spend.
unfoldable pub may_ask : ℕ → String → CheckCache → Bool × CheckCache
may_ask now intent_id c =
    if str_eq intent_id ""
    then (true, c)
    else consume_intent_nbc_check now intent_id max_nbc_checks_per_intent c

-- A probe that the cache does not answer.
unfoldable pub probe_uncached : Instant → Answer → String → String → Worker → Md5Status × Worker
probe_uncached at a md5 intent_id w =
    if bakong_checks_blocked at.mono at.unix at.shared w.circuit
    then (unknown, record w { cache = set_cached_md5_status at.mono md5 unknown none w.cache })
    else let (granted, c) = may_ask at.mono intent_id w.cache in
      if not granted
      then (unknown, record w { cache = set_cached_md5_status at.mono md5 unknown none c })
      else let (status, q) = read_answer at a w.circuit in
        (status, record { cache = set_cached_md5_status at.mono md5 status none c; circuit = q })

-- `probe_khqr_status`
unfoldable pub probe_khqr_status : Instant → Answer → String → String → Worker → Md5Status × Worker
unfolding probe_uncached
probe_khqr_status at a md5 intent_id w =
    if str_eq md5 ""
    then (unpaid, w)
    else let (hit, c) = get_cached_md5_status at.mono md5 w.cache in
      elim hit [
        | some status ↦ (status, record w { cache = c })
        | none ↦ probe_uncached at a md5 intent_id (record w { cache = c })
      ]

abbrev pub status_is_paid : Md5Status → Bool
status_is_paid paid = true
status_is_paid _ = false

-- `check_khqr_paid`
unfoldable pub check_khqr_paid : Instant → Answer → String → String → Worker → Bool × Worker
unfolding probe_khqr_status
check_khqr_paid at a md5 intent_id w =
    let (status, w') = probe_khqr_status at a md5 intent_id w in (status_is_paid status, w')
