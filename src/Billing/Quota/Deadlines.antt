-- ===== src/Billing/Quota/Deadlines.antt =====
-- How long the circuit stays open to no check.
use movie_api.Shared.{ℕ, ◌+◌, ◌≤◌, ◌<◌, ◌≡◌, ◌↔◌, true, Option, none, some, arith, max, seconds}
use movie_api.Billing.Quota.{
  Circuit, set_blocked_until, note_bakong_transient, bakong_checks_blocked,
}

-- A pause blocks this worker until its cooldown, of five seconds at least, is over, and longer
-- exactly if an earlier pause lasts longer: a pause never shortens another.
pub blocked_iff :
    (mono unix later other : ℕ) (existing : Option ℕ) (cooldown : ℕ) (q : Circuit)
    → (bakong_checks_blocked later other none (set_blocked_until mono unix existing cooldown q).0
        ≡ true)
      ↔ (later < max (mono + max (seconds 5) cooldown) q.blocked_until)
unfolding bakong_checks_blocked set_blocked_until
blocked_iff mono unix later other existing cooldown q = (λ e. ground arith, λ h. ground arith)

-- A worker that reads what another wrote to Redis is blocked for the whole cooldown as well, and
-- Redis keeps the key for longer than that.
pub shared_blocked :
    (mono unix here_mono later : ℕ) (existing : Option ℕ) (cooldown : ℕ) (q here : Circuit)
    → later < unix + max (seconds 5) cooldown
    → let (_, written) = set_blocked_until mono unix existing cooldown q in
      (bakong_checks_blocked here_mono later (some written.until_unix) here ≡ true)
      × (written.until_unix < unix + seconds written.ttl_seconds)
unfolding bakong_checks_blocked set_blocked_until
shared_blocked mono unix here_mono later existing cooldown q here soon =
    (ground arith, ground arith)

-- A transient failure sets the deadline of a worker whose earlier pause is over to 5 seconds at least
-- and 120 at most from now.
pub transient_bounds :
    (mono unix : ℕ) (existing : Option ℕ) (cooldown : ℕ) (q : Circuit)
    → q.blocked_until ≤ mono
    → let q' = (note_bakong_transient mono unix existing cooldown q).0 in
      (mono + seconds 5 ≤ q'.blocked_until) × (q'.blocked_until ≤ mono + seconds 120)
unfolding note_bakong_transient
transient_bounds mono unix existing cooldown q idle = ground arith
