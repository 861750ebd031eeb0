-- ===== src/Billing/Probe/Answers.antt =====
-- What a probe may answer, and when Bakong is asked at all.
use movie_api.Shared.{
  ℕ, ◌+◌, ◌<◌, ◌≡◌, ◌≢◌, ◌⊎◌, String, true, Option, none, some, arith, if◌then◌else◌, eq_iff,
}
use movie_api.Billing.CheckCache.{
  Md5Status, paid, CheckCache, get_cached_md5_status, set_cached_md5_status, ttl_for_status,
}
use movie_api.Billing.CheckCache.Freshness.{get-set_md5}
use movie_api.Billing.Quota.{bakong_checks_blocked}
use movie_api.Billing.Probe.{
  Answer, Worker, Instant, probe_khqr_status, probe_uncached, may_ask, read_answer,
}

-- What the cache gives out for this text at this instant.
abbrev pub cached : Instant → String → Worker → Option Md5Status
cached at md5 w = (get_cached_md5_status at.mono md5 w.cache).0

-- A probe answers `paid` only if Bakong said so in this answer, or the cache still holds it.
pub paid_means_paid :
    (at : Instant) (a : Answer) (md5 intent_id : String) (w : Worker)
    → (probe_khqr_status at a md5 intent_id w).0 ≡ paid
    → (a.is_paid ≡ true) ⊎ (cached at md5 w ≡ some paid)
unfolding probe_khqr_status probe_uncached read_answer
paid_means_paid at a md5 intent_id w e = ground arith

-- While the circuit is open, a probe comes out the same whatever Bakong would answer: it is not asked.
pub blocked_asks_nothing :
    (at : Instant) (a b : Answer) (md5 intent_id : String) (w : Worker)
    → bakong_checks_blocked at.mono at.unix at.shared w.circuit ≡ true
    → probe_khqr_status at a md5 intent_id w ≡ probe_khqr_status at b md5 intent_id w
unfolding probe_khqr_status probe_uncached
blocked_asks_nothing at a b md5 intent_id w blocked = ground arith

-- The cache in which an uncached probe writes its status.
budgeted : Instant → String → Worker → CheckCache
budgeted at intent_id w =
    if bakong_checks_blocked at.mono at.unix at.shared w.circuit
    then w.cache
    else (may_ask at.mono intent_id w.cache).1

uncached_writes :
    (at : Instant) (a : Answer) (md5 intent_id : String) (w : Worker)
    → let (status, w') = probe_uncached at a md5 intent_id w in
      w'.cache ≡ set_cached_md5_status at.mono md5 status none (budgeted at intent_id w)
unfolding probe_uncached budgeted
uncached_writes at a md5 intent_id w = ground arith

uncached_remembers :
    (at : Instant) (a : Answer) (md5 intent_id : String) (w : Worker) (later : ℕ)
    → md5 ≢ ""
    → let (status, w') = probe_uncached at a md5 intent_id w in
      later < at.mono + ttl_for_status status
      → (get_cached_md5_status later md5 w'.cache).0 ≡ some status
uncached_remembers at a md5 intent_id w later named soon =
    let status = (probe_uncached at a md5 intent_id w).0 in
    rw (uncached_writes at a md5 intent_id w)
      (ground (arith, (get-set_md5 at.mono later md5 status (budgeted at intent_id w) named).0))

probe_cached :
    (at : Instant) (a : Answer) (md5 intent_id : String) (w : Worker) {status : Md5Status}
    → md5 ≢ ""
    → cached at md5 w ≡ some status
    → (probe_khqr_status at a md5 intent_id w).0 ≡ status
unfolding probe_khqr_status
probe_cached at a md5 intent_id w named hit = ground (arith, eq_iff md5 "")

probe_missed :
    (at : Instant) (a : Answer) (md5 intent_id : String) (w : Worker)
    → md5 ≢ ""
    → cached at md5 w ≡ none
    → probe_khqr_status at a md5 intent_id w
      ≡ probe_uncached at a md5 intent_id
          (record w { cache = (get_cached_md5_status at.mono md5 w.cache).1 })
unfolding probe_khqr_status
probe_missed at a md5 intent_id w named missing = ground (arith, eq_iff md5 "")

-- A status that was probed for a nonempty md5 without a remembered answer is answered again, for any
-- intent and whatever Bakong would now say, for as long as it is remembered.
pub probe_again :
    (at next : Instant) (a b : Answer) (md5 intent_id other_id : String) (w : Worker)
    → md5 ≢ ""
    → cached at md5 w ≡ none
    → next.mono < at.mono + ttl_for_status (probe_khqr_status at a md5 intent_id w).0
    → let (status, w') = probe_khqr_status at a md5 intent_id w in
      (probe_khqr_status next b md5 other_id w').0 ≡ status
probe_again at next a b md5 intent_id other_id w named missing soon =
    let start : Worker = record w { cache = (get_cached_md5_status at.mono md5 w.cache).1 } in
    let same = probe_missed at a md5 intent_id w named missing in
    rw same (
      probe_cached next b md5 other_id (probe_uncached at a md5 intent_id start).1 named
        (uncached_remembers at a md5 intent_id start next.mono named (rw same at soon)))
