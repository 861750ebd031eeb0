-- ===== src/Billing/Fulfillment.antt =====
-- app/billing/fulfillment.py: what a verified payment grants. The handler runs under the lock of
-- its intent's row, and its caller commits.
pub mod Once
pub mod Grants
use movie_api.Shared.{
  ℕ, zero, ◌+◌, String, Bool, true, false, not, ◌&&◌, Option, none, some, List, [], ◌∷◌, ltb, leb,
  ◌==◌, if◌then◌else◌, first, exists, update, sort_by, str_eq, opt_eq, Tx, pure, raise, gets,
  modify, or_raise, ◌>>=◌, ◌>>◌, Result, HttpError, server_error, fixed, days, is_some,
}
use movie_api.Shop.{
  Purchase, SeriesPurchase, Subscription, SubscriptionPayment, SubscriptionPlan, PaymentIntent,
  Kind, movie, sub, series, IntentStatus, pending, succeeded, SubscriptionStatus, active, Alert,
  ShopDb,
}
use movie_api.Billing.Plans.{resolve_plan_for_intent}

-- `_billing_interval_days`: the snapshot of the checkout, if there is a positive one
unfoldable pub billing_interval_days : PaymentIntent → SubscriptionPlan → ℕ
billing_interval_days i plan = elim i.plan_interval_days [
  | none ↦ plan.billing_interval_days
  | some n ↦ if ltb 0 n then n else plan.billing_interval_days
]

abbrev pub by_intent_id : String → PaymentIntent → Bool
by_intent_id intent_id i = str_eq i.intent_id intent_id

abbrev pub is_succeeded : IntentStatus → Bool
is_succeeded succeeded = true
is_succeeded _ = false

-- `insert … on_conflict_do_nothing(index_elements=["intent_id"])`
abbrev pub insert_new {ℓ} : {A : Type ℓ} → (A → Bool) → A → List A → List A
insert_new same row rows = if exists same rows then rows else row ∷ rows

-- `notify_payment_succeeded`: the alert is queued; its wording is not modelled
abbrev pub notify_payment_succeeded : PaymentIntent → Option String → Tx ShopDb Unit
notify_payment_succeeded i bank =
    modify (λ t. record t { alerts = record { intent_id = i.intent_id; bank = bank } ∷ t.alerts })

abbrev pub purchase_of : String → Purchase → Bool
purchase_of intent_id r = str_eq r.intent_id intent_id

abbrev pub series_purchase_of : String → SeriesPurchase → Bool
series_purchase_of intent_id r = str_eq r.intent_id intent_id

abbrev pub payment_of : String → SubscriptionPayment → Bool
payment_of intent_id r = str_eq r.intent_id intent_id

-- The branch of a movie.
grant_movie : PaymentIntent → ℕ → Option String → Tx ShopDb Unit
grant_movie i content_id bank = do
  existing ← gets (λ t. exists (purchase_of i.intent_id) t.purchases)
  if existing then pure tt else do
    modify (λ t. record t {
      purchases =
          insert_new (purchase_of i.intent_id)
            (record {
              user_id = i.user_id;
              guest_id = i.guest_id;
              content_id = content_id;
              intent_id = i.intent_id;
              order_id = i.order_id;
              bank = bank;
              amount_usd = i.amount_usd;
            })
            t.purchases;
    })
    notify_payment_succeeded i bank

-- The branch of a series.
grant_series : PaymentIntent → ℕ → Option String → Tx ShopDb Unit
grant_series i series_id bank = do
  existing ← gets (λ t. exists (series_purchase_of i.intent_id) t.series_purchases)
  if existing then pure tt else do
    modify (λ t. record t {
      series_purchases =
          insert_new (series_purchase_of i.intent_id)
            (record {
              user_id = i.user_id;
              guest_id = i.guest_id;
              series_id = series_id;
              intent_id = i.intent_id;
              order_id = i.order_id;
              bank = bank;
              amount_usd = i.amount_usd;
            })
            t.series_purchases;
    })
    notify_payment_succeeded i bank

abbrev pub later_end : Subscription → Subscription → Bool
later_end a b = ltb b.current_period_end a.current_period_end

-- The user's subscription with the latest end.
unfoldable pub latest_subscription : ShopDb → ℕ → Option Subscription
latest_subscription t user_id =
    first (λ r. r.user_id == user_id) (sort_by later_end t.subscriptions)

-- Where the paid period starts: at the end of the one that still runs, or now.
unfoldable pub period_start : ℕ → Option Subscription → ℕ
period_start now none = now
period_start now (some r) = if ltb now r.current_period_end then r.current_period_end else now

-- The subscription as it is stored after the payment; `new_id` is the key of a new row.
unfoldable pub extend_subscription : ℕ → ℕ → ℕ → String → ℕ → Option Subscription → Subscription
extend_subscription now new_id user_id plan_code period_end none = record {
  id = new_id;
  user_id = user_id;
  plan = plan_code;
  status = active;
  current_period_start = now;
  current_period_end = period_end;
}
extend_subscription now new_id user_id plan_code period_end (some r) = record r {
  plan = plan_code;
  status = active;
  current_period_start = if leb r.current_period_end now then now else r.current_period_start;
  current_period_end = period_end;
}

-- The row is added if it is new, and written over the old one otherwise.
unfoldable pub store_subscription :
    Option Subscription → Subscription → List Subscription → List Subscription
store_subscription none r rows = r ∷ rows
store_subscription (some old) r rows = update (λ x. x.id == old.id) (λ _. r) rows

-- The branch of a subscription, once the user and the plan are known.
grant_period : ℕ → ℕ → PaymentIntent → ℕ → SubscriptionPlan → Option String → Tx ShopDb Unit
grant_period now new_id i user_id plan bank = do
  found ← gets (λ t. latest_subscription t user_id)
  let period_end : ℕ = period_start now found + days (billing_interval_days i plan)
  let row : Subscription = extend_subscription now new_id user_id plan.code period_end found
  modify (λ t. record t {
    subscriptions = store_subscription found row t.subscriptions;
    subscription_payments =
        insert_new (payment_of i.intent_id)
          (record {
            subscription_id = row.id;
            intent_id = i.intent_id;
            order_id = i.order_id;
            bank = bank;
            amount_usd = i.amount_usd;
            period_extended_to = period_end;
          })
          t.subscription_payments;
  })
  notify_payment_succeeded i bank

-- The branch of a subscription. A row without a user breaks the table's constraint.
grant_subscription : ℕ → ℕ → PaymentIntent → Option String → Tx ShopDb Unit
unfolding grant_period
grant_subscription now new_id i bank = do
  existing ← gets (λ t. exists (payment_of i.intent_id) t.subscription_payments)
  if existing then pure tt else do
    plan ← λ c. (resolve_plan_for_intent c.current i, c)
    user_id ← or_raise i.user_id (server_error (fixed "subscriptions.user_id is not null"))
    grant_period now new_id i user_id plan bank

-- What the intent's kind calls for.
unfoldable pub grant : ℕ → ℕ → PaymentIntent → Option String → Tx ShopDb Unit
unfolding grant_movie grant_series grant_subscription
grant now new_id i bank = elim i.kind [
  | movie ↦ elim i.content_id [
    | some content_id ↦ grant_movie i content_id bank
    | none ↦ notify_payment_succeeded i bank
  ]
  | series ↦ elim i.series_id [
    | some series_id ↦ grant_series i series_id bank
    | none ↦ notify_payment_succeeded i bank
  ]
  | sub ↦ grant_subscription now new_id i bank
]

abbrev pub set_succeeded : ℕ → PaymentIntent → PaymentIntent
set_succeeded now i = record i { status = succeeded; resolved_at = some now }

-- `fulfill_payment_intent`
unfoldable pub fulfill_payment_intent : ℕ → ℕ → String → Option String → Tx ShopDb Unit
fulfill_payment_intent now new_id intent_id bank = do
  locked ← gets (λ t. first (by_intent_id intent_id) t.intents)
  elim locked [
    | none ↦ pure tt
    | some i ↦ if is_succeeded i.status then pure tt else do
      modify (λ t. record t {
        intents = update (by_intent_id intent_id) (set_succeeded now) t.intents;
      })
      grant now new_id i bank
  ]
