-- ===== src/Billing/Checkout/Failed.antt =====
-- A checkout that fails, of app/billing/intents.py: what it leaves in the tables.
use movie_api.Shared.{
  ℕ, String, first, ◌≡◌, Bool, true, false, Option, some, Result, err, Conn, run, HttpError, inl,
  inr, Option-cases, Result-cases, arith,
}
use movie_api.Models.{User}
use movie_api.Shop.{PaymentIntent, ShopDb, SubscriptionPlan}
use movie_api.Billing.Fulfillment.{by_intent_id, fulfill_payment_intent}
use movie_api.Billing.Fulfillment.Once.{grant-saved, marked}
use movie_api.Billing.Plans.{resolve_active_plan}
use movie_api.Billing.Probe.{Answer, Worker, Instant}
use movie_api.Billing.Settle.{
  SettleSettings, settle_bakong_intent_if_paid, mark_succeeded_if_already_purchased,
}
use movie_api.Billing.Checkout.{
  Khqr, Fresh, regenerate_bakong_qr, refresh_pending, owned_already, refresh_stale,
  reuse_or_refresh_pending, validate_payment_amount, oldest, series_unlock_price_usd, movie_lookup,
  series_lookup, plan_lookup,
}
use movie_api.Billing.Checkout.Create.{
  commit_new_intent_or_reuse, new_movie_intent, create_or_reuse_movie_bakong_intent,
  new_series_intent, create_or_reuse_series_bakong_intent, new_plan_intent,
  create_or_reuse_subscription_bakong_intent, CheckoutRequest, movie_bakong_intent,
  series_unlock_bakong_intent, subscription_bakong_intent, user_of, guest_of, bakong_checkout,
  on_sale, movie_intent, series_intent, plan_intent,
}

-- A failure leaves what is stored as it was.
abbrev Kept {ℓ} : {A : Type ℓ} → Conn ShopDb → Result A × Conn ShopDb → Type ℓ
Kept c r = (e : HttpError) → r.0 ≡ err e → r.1.saved ≡ c.saved

module _ (now new_id : ℕ) where
  fulfill-saved :
      (intent_id : String) (bank : Option String) (c : Conn ShopDb)
      → (fulfill_payment_intent now new_id intent_id bank c).1.saved ≡ c.saved
  unfolding fulfill_payment_intent
  fulfill-saved intent_id bank c =
      elim (Option-cases (first (by_intent_id intent_id) c.current.intents)) [
        | inl missing ↦ ground arith
        | inr (i, found) ↦ ground (
          arith,
          grant-saved now new_id i bank
              (record { current = marked now intent_id c.current; saved = c.saved }),
        )
      ]

  mark-saved :
      (i : PaymentIntent) (c : Conn ShopDb)
      → (mark_succeeded_if_already_purchased now i c).1.saved ≡ c.saved
  unfolding mark_succeeded_if_already_purchased
  mark-saved i c = ground arith

module _ (s : SettleSettings) (configured : String) (at : Instant) (nbc : String → Answer)
    (now new_id : ℕ) (khqr : ℕ → String → Result Khqr) (fresh : Fresh) where
  settle-saved :
      (i : PaymentIntent) (w : Worker) (c : Conn ShopDb)
      → (settle_bakong_intent_if_paid s at nbc now new_id i w c).1.saved ≡ c.saved
  unfolding settle_bakong_intent_if_paid
  settle-saved i w c = ground (arith, fulfill-saved now new_id i.intent_id (some "bakong") c)

  owned-saved :
      (check : Bool) (i : PaymentIntent) (c : Conn ShopDb)
      → (owned_already s at nbc now new_id khqr fresh check i c).1.saved ≡ c.saved
  unfolding owned_already
  owned-saved check i c = ground (arith, mark-saved now new_id i c)

  refresh-Kept :
      (i : PaymentIntent) (w : Worker) (c : Conn ShopDb)
      → Kept c (refresh_pending s at nbc now new_id khqr fresh i w c)
  unfolding refresh_pending regenerate_bakong_qr
  refresh-Kept i w c e failed = ground arith

  stale-Kept :
      (check : Bool) (i : PaymentIntent) (w : Worker) (c : Conn ShopDb)
      → Kept c (refresh_stale s at nbc now new_id khqr fresh check i w c)
  unfolding refresh_stale
  stale-Kept check i w c e failed =
      let settled = settle_bakong_intent_if_paid s at nbc now new_id i w c in
      let owned = owned_already s at nbc now new_id khqr fresh check i settled.1 in
      elim (Result-cases settled.0) [
        | inl (e', refused) ↦ ground (arith, settle-saved i w c)
        | inr ((paid_now, w'), answered) ↦
            ground (
              arith,
              settle-saved i w c,
              owned-saved check i settled.1,
              refresh-Kept i w' owned.1 e,
            )
      ]

  reuse-Kept :
      (check : Bool) (i : PaymentIntent) (w : Worker) (c : Conn ShopDb)
      → Kept c (reuse_or_refresh_pending s at nbc now new_id khqr fresh check i w c)
  unfolding reuse_or_refresh_pending
  reuse-Kept check i w c e failed = ground (arith, stale-Kept check i w c e, owned-saved check i c)

  commit-Kept :
      (lookup : PaymentIntent → Bool) (check : Bool) (i : PaymentIntent) (w : Worker)
      (c : Conn ShopDb)
      → Kept c
          (commit_new_intent_or_reuse s configured at nbc now new_id khqr fresh lookup check i w c)
  unfolding commit_new_intent_or_reuse
  commit-Kept lookup check i w c e failed = elim (Option-cases (oldest lookup c.saved)) [
    | inl missing ↦ ground arith
    | inr (winner, found) ↦
        ground (arith, reuse-Kept check winner w (record { current = c.saved; saved = c.saved }) e)
  ]

  new_movie-Kept :
      (content_id : ℕ) (user : Option User) (guest_id : Option String) (w : Worker)
      (c : Conn ShopDb)
      → Kept c
          (new_movie_intent s configured at nbc now new_id khqr fresh content_id user guest_id w c)
  unfolding new_movie_intent
  new_movie-Kept content_id user guest_id w c e failed =
      elim (Option-cases (first (on_sale content_id) c.current.contents)) [
        | inl missing ↦ ground arith
        | inr (film, found) ↦ elim (Result-cases (validate_payment_amount film.price_usd)) [
          | inl (e', cheap) ↦ ground arith
          | inr (amount, fair) ↦ elim (Result-cases (khqr amount fresh.bill_number)) [
            | inl (e', no_qr) ↦ ground arith
            | inr (q, made) ↦ ground (
              arith,
              commit-Kept (movie_lookup user guest_id content_id) true
                  (movie_intent configured fresh now q film.id amount user guest_id) w c e,
            )
          ]
        ]
      ]

  new_series-Kept :
      (series_id : ℕ) (user : Option User) (guest_id : Option String) (w : Worker) (c : Conn ShopDb)
      → Kept c
          (new_series_intent s configured at nbc now new_id khqr fresh series_id user guest_id w c)
  unfolding new_series_intent
  new_series-Kept series_id user guest_id w c e failed =
      elim (Result-cases (validate_payment_amount (some series_unlock_price_usd))) [
        | inl (e', cheap) ↦ ground arith
        | inr (amount, fair) ↦ elim (Result-cases (khqr amount fresh.bill_number)) [
          | inl (e', no_qr) ↦ ground arith
          | inr (q, made) ↦ ground (
            arith,
            commit-Kept (series_lookup user guest_id series_id) true
                (series_intent configured fresh now q series_id amount user guest_id) w c e,
          )
        ]
      ]

  new_plan-Kept :
      (plan : SubscriptionPlan) (amount : ℕ) (user : User) (w : Worker) (c : Conn ShopDb)
      → Kept c (new_plan_intent s configured at nbc now new_id khqr fresh plan amount user w c)
  unfolding new_plan_intent
  new_plan-Kept plan amount user w c e failed =
      elim (Result-cases (khqr amount fresh.bill_number)) [
        | inl (e', no_qr) ↦ ground arith
        | inr (q, made) ↦ ground (
          arith,
          commit-Kept (plan_lookup user plan.code amount) false
              (plan_intent configured fresh now q plan amount user) w c e,
        )
      ]

  movie-Kept :
      (content_id : ℕ) (user : Option User) (guest_id : Option String) (w : Worker)
      (c : Conn ShopDb)
      → Kept c (
          create_or_reuse_movie_bakong_intent s configured at nbc now new_id khqr fresh content_id
            user guest_id w c)
  unfolding create_or_reuse_movie_bakong_intent
  movie-Kept content_id user guest_id w c e failed =
      elim (Option-cases (oldest (movie_lookup user guest_id content_id) c.current)) [
        | inl first_time ↦ ground (arith, new_movie-Kept content_id user guest_id w c e)
        | inr (i, waiting) ↦ ground (arith, reuse-Kept true i w c e)
      ]

  series-Kept :
      (series_id : ℕ) (user : Option User) (guest_id : Option String) (w : Worker) (c : Conn ShopDb)
      → Kept c (
          create_or_reuse_series_bakong_intent s configured at nbc now new_id khqr fresh series_id
            user guest_id w c)
  unfolding create_or_reuse_series_bakong_intent
  series-Kept series_id user guest_id w c e failed =
      elim (Option-cases (oldest (series_lookup user guest_id series_id) c.current)) [
        | inl first_time ↦ ground (arith, new_series-Kept series_id user guest_id w c e)
        | inr (i, waiting) ↦ ground (arith, reuse-Kept true i w c e)
      ]

  plan-Kept :
      (user : User) (plan_code : Option String) (w : Worker) (c : Conn ShopDb)
      → Kept c (
          create_or_reuse_subscription_bakong_intent s configured at nbc now new_id khqr fresh user
            plan_code w c)
  unfolding create_or_reuse_subscription_bakong_intent
  plan-Kept user plan_code w c e failed =
      elim (Result-cases (resolve_active_plan c.current plan_code)) [
        | inl (e', no_plan) ↦ ground arith
        | inr (plan, chosen) ↦ elim (Result-cases (validate_payment_amount (some plan.price_usd))) [
          | inl (e', cheap) ↦ ground arith
          | inr (amount, fair) ↦
              elim (Option-cases (oldest (plan_lookup user plan.code amount) c.current)) [
                | inl first_time ↦ ground (arith, new_plan-Kept plan amount user w c e)
                | inr (i, waiting) ↦ ground (arith, reuse-Kept false i w c e)
              ]
        ]
      ]

  -- A checkout that answers an error leaves the tables as they were: it stores no intent, changes
  -- none, and settles none.
  pub failed_checkout_stores_nothing :
      (request : CheckoutRequest) (w : Worker) (t : ShopDb) (e : HttpError)
      → let after = run (bakong_checkout s configured at nbc now new_id khqr fresh request w) t in
        after.0 ≡ err e → after.1 ≡ t
  unfolding bakong_checkout
  failed_checkout_stores_nothing (movie_bakong_intent content_id buyer) w t e failed =
      movie-Kept content_id (user_of buyer) (guest_of buyer) w (record { current = t; saved = t }) e
        failed
  failed_checkout_stores_nothing (series_unlock_bakong_intent series_id buyer) w t e failed =
      series-Kept series_id (user_of buyer) (guest_of buyer) w (record { current = t; saved = t }) e
        failed
  failed_checkout_stores_nothing (subscription_bakong_intent user plan_code) w t e failed =
      plan-Kept user plan_code w (record { current = t; saved = t }) e failed
