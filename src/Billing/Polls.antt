-- ===== src/Billing/Polls.antt =====
-- load_buyer_intent and settle_pending_intent_on_poll of app/billing/intents.py: a buyer's client
-- polls an intent, which settles it where Bakong reports it, or a sibling of it, as paid.
pub mod Paused
pub mod Receipts
use movie_api.Shared.{
  ℕ, String, Bool, not, ◌&&◌, ◌||◌, Option, none, some, ltb, if◌then◌else◌, first, update, sort_by,
  str_eq, opt_eq, is_some, Tx, pure, gets, modify, commit, or_raise, ◌>>=◌, ◌>>◌, HttpError,
  not_found, fixed,
}
use movie_api.Models.{User}
use movie_api.Shop.{PaymentIntent, ShopDb, superseded}
use movie_api.Access.{guest_eq}
use movie_api.Billing.Fulfillment.{by_intent_id}
use movie_api.Billing.CheckCache.{mark_intent_polled}
use movie_api.Billing.Quota.{bakong_checks_blocked}
use movie_api.Billing.Probe.{Answer, Worker, Instant}
use movie_api.Billing.Settle.{
  SettleSettings, is_bakong, is_pending, truthy, settle_bakong_intent_if_paid,
  mark_succeeded_if_already_purchased,
}
use movie_api.Billing.Settle.Playback.{is_movie, newer_intent}

abbrev pub missing_error : HttpError
missing_error = not_found (fixed "Payment intent not found")

-- `load_buyer_intent`
unfoldable pub load_buyer_intent : String → Option User → Option String → Tx ShopDb PaymentIntent
load_buyer_intent intent_id (some user) guest_id = do
  found ← gets (λ t. first (λ i. by_intent_id intent_id i && opt_eq i.user_id user.id) t.intents)
  or_raise found missing_error
load_buyer_intent intent_id none guest_id = do
  guest ← or_raise (truthy guest_id) missing_error
  found ← gets (λ t. first (λ i. by_intent_id intent_id i && guest_eq i.guest_id guest) t.intents)
  or_raise found missing_error

-- `db.refresh(intent)`; the row is there, since it is never deleted
abbrev pub reload : PaymentIntent → Tx ShopDb PaymentIntent
reload i = do
  found ← gets (λ t. first (by_intent_id i.intent_id) t.intents)
  pure (elim found [ none ↦ i | some row ↦ row ])

-- `commit_with_telegram` and `db.refresh`: the intent as it is then stored
abbrev pub committed : PaymentIntent → Worker → Tx ShopDb (PaymentIntent × Worker)
committed i w = do commit; i' ← reload i; pure (i', w)

-- `identity`: an intent without a user and a guest has the intents without a guest as siblings
abbrev pub same_buyer : PaymentIntent → PaymentIntent → Bool
same_buyer i other = elim i.user_id [
  | some user_id ↦ opt_eq other.user_id user_id
  | none ↦ elim i.guest_id [
    | some guest_id ↦ guest_eq other.guest_id guest_id
    | none ↦ not (is_some other.guest_id)
  ]
]

-- The conditions of the query for a sibling.
abbrev pub is_sibling : PaymentIntent → ℕ → PaymentIntent → Bool
is_sibling i content_id other =
    same_buyer i other
    && is_bakong other.method
    && is_movie other.kind
    && opt_eq other.content_id content_id
    && is_pending other.status
    && not (by_intent_id i.intent_id other)
    && is_some other.bakong_md5

-- `mark_intent_polled`, on the cache of the worker
abbrev pub polled : Instant → PaymentIntent → Worker → Worker
polled at i w = record w { cache = mark_intent_polled at.mono i.intent_id w.cache }

abbrev pub supersede : Option ℕ → PaymentIntent → PaymentIntent
supersede at i = record i { status = superseded; resolved_at = at }

module _ (s : SettleSettings) (at : Instant) (nbc : String → Answer) (now new_id : ℕ) where
  -- The branch of an intent for a title that is not paid itself.
  unfoldable pub poll_sibling : PaymentIntent → ℕ → Worker → Tx ShopDb (PaymentIntent × Worker)
  poll_sibling i content_id w = do
    found ← gets (λ t. first (is_sibling i content_id) (sort_by newer_intent t.intents))
    elim found [
      | none ↦ pure (i, polled at i w)
      | some sibling ↦ do
        (settled, w') ← settle_bakong_intent_if_paid s at nbc now new_id sibling w
        if not settled then pure (i, polled at i w') else do
          receipt ← reload sibling
          modify (λ t. record t {
            intents = update (by_intent_id i.intent_id) (supersede receipt.resolved_at) t.intents;
          })
          committed i (polled at i w')
    ]

  -- `settle_pending_intent_on_poll` from its check of Bakong on.
  unfoldable pub poll_bakong : PaymentIntent → Worker → Tx ShopDb (PaymentIntent × Worker)
  unfolding poll_sibling
  poll_bakong i w = do
    (settled, w') ← settle_bakong_intent_if_paid s at nbc now new_id i w
    if settled then committed i (polled at i w') else elim i.content_id [
      | none ↦ pure (i, polled at i w')
      | some content_id ↦ poll_sibling i content_id w'
    ]

  -- `settle_pending_intent_on_poll`
  unfoldable pub settle_pending_intent_on_poll :
      PaymentIntent → Worker → Tx ShopDb (PaymentIntent × Worker)
  unfolding poll_bakong
  settle_pending_intent_on_poll i w =
      if not (is_bakong i.method) || not (is_pending i.status) then pure (i, w) else do
        owned ← mark_succeeded_if_already_purchased now i
        if owned
            then committed i w
            else if not (s.bakong_nbc_settle_enabled && is_some (truthy i.bakong_md5))
            then pure (i, w)
            else if bakong_checks_blocked at.mono at.unix at.shared w.circuit
            then pure (i, polled at i w)
            else poll_bakong i w
