-- ===== src/Tests/Polls.antt =====
-- Polls of the movie intent of the shop of the tests.
use movie_api.Shared.{String, ◌≡◌, refl, ok}
use movie_api.Shared.Dict.{lookup}
use movie_api.Billing.Fulfillment.{set_succeeded, fulfill_payment_intent, grant}
use movie_api.Billing.CheckCache.{get_cached_md5_status, consume_intent_nbc_check}
use movie_api.Billing.Quota.{bakong_checks_blocked}
use movie_api.Billing.Probe.{Answer, probe_khqr_status, probe_uncached, read_answer, may_ask}
use movie_api.Billing.Settle.{
  settle_bakong_intent_if_paid, bakong_md5s_paid, mark_succeeded_if_already_purchased,
  already_owned,
}
use movie_api.Billing.Polls.{settle_pending_intent_on_poll, poll_bakong, polled}
use movie_api.Tests.Access.{movie_intent}
use movie_api.Tests.Checks.{
  worker, noon, all_paid, said_nothing, connection, settle_settings, settled_worker,
}

abbrev all_silent : String → Answer
all_silent md5 = said_nothing

polls_paid :
    (settle_pending_intent_on_poll settle_settings noon all_paid 10 9 movie_intent worker
      connection).0
    ≡ ok (set_succeeded 10 movie_intent, polled noon movie_intent settled_worker)
unfolding settle_pending_intent_on_poll poll_bakong mark_succeeded_if_already_purchased
    already_owned settle_bakong_intent_if_paid bakong_md5s_paid probe_khqr_status probe_uncached
    may_ask read_answer get_cached_md5_status lookup bakong_checks_blocked consume_intent_nbc_check
    fulfill_payment_intent grant
polls_paid = refl
