-- ===== src/Tests/Checks.antt =====
-- The check cache, the circuit breaker, a probe and a settlement at concrete inputs.
use movie_api.Shared.{
  ℕ, suc, ◌+◌, ◌<◌, ◌≡◌, ◌≢◌, ◌⊎◌, refl, String, Bool, true, false, none, some, [], ◌∷◌, arith, min,
  max, seconds, eq_iff, Conn, ok, length,
}
use movie_api.Shared.Dict.{lookup, put}
use movie_api.Shop.{pending, bakong, ShopDb}
use movie_api.Billing.CheckCache.{
  paid, CheckCache, get_cached_md5_status, ttl_for_status, consume_intent_nbc_check,
}
use movie_api.Billing.CheckCache.Budget.{granted, granted_in_window}
use movie_api.Billing.Quota.{Circuit, bakong_checks_blocked}
use movie_api.Billing.Probe.{
  Answer, Worker, Instant, probe_khqr_status, probe_uncached, read_answer, may_ask,
}
use movie_api.Billing.Probe.Answers.{cached}
use movie_api.Billing.Settle.{SettleSettings, settle_bakong_intent_if_paid, bakong_md5s_paid}
use movie_api.Billing.Settle.Evidence.{PaidText, settle_evidence}
use movie_api.Billing.Settle.Playback.{settle_first, settle_pending_movie_bakong_for_buyer}
use movie_api.Billing.Fulfillment.{fulfill_payment_intent, grant}
use movie_api.Tests.Access.{shop, movie_intent}

abbrev pub empty_cache : CheckCache
empty_cache = record { md5_cache = []; polled_at = []; nbc_checks = [] }

named : ◌≢◌ {A = String} "bkg-1" ""
named e = cc ((eq_iff "bkg-1" "").1 e)

-- Three checks at a cap of two.
cap_of_two : granted "bkg-1" 2 (0 ∷ 1 ∷ 2 ∷ []) empty_cache ≡ 2
unfolding consume_intent_nbc_check lookup put
cap_of_two = refl

no_entry : lookup {V = ℕ × ℕ} "bkg-1" [] ≡ none
unfolding lookup
no_entry = refl

granted_in_window_example :
    granted "bkg-1" 2 (0 ∷ 1 ∷ 2 ∷ []) empty_cache
    ≡ min (suc (length {A = ℕ} (1 ∷ 2 ∷ []))) (max 1 2)
granted_in_window_example =
    granted_in_window "bkg-1" 2 0 (1 ∷ 2 ∷ []) empty_cache named no_entry (omega arith)
      (omega arith, (omega arith, tt))

abbrev pub idle : Circuit
idle = record { blocked_until = 0 }

abbrev pub worker : Worker
worker = record { cache = empty_cache; circuit = idle }

abbrev pub noon : Instant
noon = record { mono = seconds 100; unix = 0; shared = none }

abbrev pub said_paid : Answer
said_paid = record { is_paid = true; inconclusive = false; quota_exhausted = false }

abbrev pub said_nothing : Answer
said_nothing = record { is_paid = false; inconclusive = true; quota_exhausted = true }

answered_paid : (probe_khqr_status noon said_paid "bkg-1" "bkg-1" worker).0 ≡ paid
unfolding probe_khqr_status probe_uncached may_ask read_answer get_cached_md5_status lookup
    bakong_checks_blocked consume_intent_nbc_check
answered_paid = refl

abbrev pub paused : Worker
paused = record { cache = empty_cache; circuit = record { blocked_until = seconds 101 } }

pub is_paused : bakong_checks_blocked noon.mono noon.unix noon.shared paused.circuit ≡ true
unfolding bakong_checks_blocked
is_paused = refl

nothing_cached : cached noon "bkg-1" worker ≡ none
unfolding get_cached_md5_status lookup
nothing_cached = refl

still_remembered :
    seconds 130
    < seconds 100 + ttl_for_status (probe_khqr_status noon said_paid "bkg-1" "bkg-1" worker).0
unfolding ttl_for_status
still_remembered = rw answered_paid (omega arith)

abbrev half_minute_later : Instant
half_minute_later = record { mono = seconds 130; unix = 0; shared = none }

abbrev pub settle_settings : SettleSettings
settle_settings = record { bakong_nbc_settle_enabled = true; bakong_qr_ttl_minutes = 10 }

abbrev pub all_paid : String → Answer
all_paid md5 = said_paid

abbrev pub connection : Conn ShopDb
connection = record { current = shop; saved = shop }

-- The state of the worker after the settlement.
abbrev pub settled_worker : Worker
settled_worker = (bakong_md5s_paid settle_settings noon all_paid movie_intent worker).1

settles :
    (settle_bakong_intent_if_paid settle_settings noon all_paid 10 9 movie_intent worker
      connection).0
    ≡ ok (true, settled_worker)
unfolding settle_bakong_intent_if_paid bakong_md5s_paid probe_khqr_status probe_uncached may_ask
    read_answer get_cached_md5_status lookup bakong_checks_blocked consume_intent_nbc_check
    fulfill_payment_intent grant
settles = refl

settle_evidence_example :
    ◌≡◌ {A = Bool} true true
      × (movie_intent.method ≡ bakong)
      × (movie_intent.status ≡ pending)
      × PaidText noon all_paid movie_intent worker
    ⊎ ◌≡◌ {A = Bool} true false
      × ((settle_bakong_intent_if_paid settle_settings noon all_paid 10 9 movie_intent worker
            connection).1
          ≡ connection)
settle_evidence_example =
    settle_evidence settle_settings noon all_paid 10 9 movie_intent worker settled_worker true
      connection refl settles

-- Before playback, the buyer of the movie intent.
settles_before_playback :
    (settle_pending_movie_bakong_for_buyer settle_settings noon all_paid 10 9 100
      (some 7)
      none
      worker
      connection).0
    ≡ ok (true, settled_worker)
unfolding settle_pending_movie_bakong_for_buyer settle_first settle_bakong_intent_if_paid
    bakong_md5s_paid probe_khqr_status probe_uncached may_ask read_answer get_cached_md5_status
    lookup bakong_checks_blocked consume_intent_nbc_check fulfill_payment_intent grant
settles_before_playback = refl
