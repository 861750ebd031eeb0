-- ===== src/Billing/Checkout.antt =====
-- app/billing/intents.py and app/billing/intent_helpers.py: a checkout answers the pending intent of
-- its buyer for what is bought, and makes one where there is none. The KHQR, which a third-party
-- package or the payment service makes, and the random texts are arguments.
pub mod Create
pub mod Failed
pub mod Again
pub mod Race
use Prim.Native.String.{◌++◌}
use movie_api.Shared.{
  ℕ, String, Bool, true, false, not, ◌&&◌, ◌||◌, Option, none, some, List, ◌∷◌, ltb, ◌==◌,
  if◌then◌else◌, first, exists, select, update, sort_by, str_eq, opt_eq, is_some, strip, Tx, Result,
  ok, err, pure, raise, gets, modify, commit, or_raise, raise_if, ◌>>=◌, ◌>>◌, HttpError, not_found,
  conflict, unprocessable, server_error, fixed,
}
use movie_api.Models.{User}
use movie_api.Shop.{
  Content, ContentType, single, Purchase, SubscriptionPlan, PaymentIntent, Kind, movie, sub, series,
  Method, bakong, IntentStatus, pending, ShopDb,
}
use movie_api.Access.{guest_eq, has_series_purchase, user_has_active_subscription}
use movie_api.Billing.Plans.{resolve_active_plan}
use movie_api.Billing.Fulfillment.{by_intent_id}
use movie_api.Billing.CheckCache.{reset_intent_nbc_checks}
use movie_api.Billing.Probe.{Answer, Worker, Instant}
use movie_api.Billing.Settle.{
  SettleSettings, is_bakong, is_pending, truthy, qr_is_stale, bakong_qr_confirmed_unpaid,
  settle_bakong_intent_if_paid, mark_succeeded_if_already_purchased,
}
use movie_api.Billing.Settle.Playback.{is_movie}
use movie_api.Billing.Polls.{committed}

abbrev pub is_sub : Kind → Bool
is_sub sub = true
is_sub _ = false

abbrev pub is_series : Kind → Bool
is_series series = true
is_series _ = false

-- `MIN_PAID_USD`, in cents
abbrev pub min_paid_usd : ℕ
min_paid_usd = 3

-- `SERIES_UNLOCK_PRICE_USD`
abbrev pub series_unlock_price_usd : ℕ
series_unlock_price_usd = 250

abbrev pub amount_error : HttpError
amount_error = unprocessable (fixed "USD payments must be at least 0.03")

-- `validate_payment_amount`
unfoldable pub validate_payment_amount : Option ℕ → Result ℕ
validate_payment_amount none = err amount_error
validate_payment_amount (some amount) =
    if ltb amount min_paid_usd then err amount_error else ok amount

-- `validate_usd_price` of app/core/money.py, for a price that is not negative
unfoldable pub validate_usd_price : ℕ → Option ℕ
validate_usd_price amount =
    if amount == 0 then some amount else if ltb amount min_paid_usd then none else some amount

-- `bakong_merchant_name`; `configured` is the setting of that name
unfoldable pub bakong_merchant_name : String → PaymentIntent → String
bakong_merchant_name configured i =
    elim (truthy (some (strip (elim i.bakong_merchant_name [ none ↦ "" | some m ↦ m ])))) [
      | some name ↦ name
      | none ↦ elim (truthy (some (strip configured))) [
        | some name ↦ name
        | none ↦ "Reeltime Media"
      ]
    ]

-- The answer of `generate_khqr`.
pub record Khqr : Type 0 where
  pub qr_string : String
  pub md5 : String
  pub merchant_name : String

-- What a checkout draws at random for a new intent, `uuid.uuid4().hex` twice and `bill_number`, and
-- the clock of the database.
pub record Fresh : Type 0 where
  pub intent_hex : String
  pub order_hex : String
  pub bill_number : String
  pub created_at : ℕ

-- `a or b`, of optional texts
abbrev pub or_text : Option String → Option String → Option String
or_text a b = elim (truthy a) [ some x ↦ some x | none ↦ b ]

-- What `regenerate_bakong_qr` writes to the intent.
abbrev pub regenerated : ℕ → Khqr → PaymentIntent → PaymentIntent
regenerated now q i = record i {
  bakong_prev_md5 = i.bakong_md5;
  bakong_md5 = some q.md5;
  bakong_qr = some q.qr_string;
  bakong_merchant_name = or_text (some q.merchant_name) i.bakong_merchant_name;
  bakong_qr_created_at = some now;
}

abbrev pub of_result : {A : Type 0} → Result A → Tx ShopDb A
of_result r c = (r, c)

-- `regenerate_bakong_qr`: the row, and the budget of checks
unfoldable pub regenerate_bakong_qr :
    ℕ → (ℕ → String → Result Khqr) → String → PaymentIntent → Worker → Tx ShopDb Worker
regenerate_bakong_qr now khqr bill_number i w = do
  q ← of_result (khqr i.amount_usd bill_number)
  modify
      (λ t. record t { intents = update (by_intent_id i.intent_id) (regenerated now q) t.intents })
  pure (record w { cache = reset_intent_nbc_checks (some i.intent_id) w.cache })

-- `_identity_filter`, and the same on a purchase
abbrev pub identity : Option User → Option String → PaymentIntent → Bool
identity (some user) guest_id i = opt_eq i.user_id user.id
identity none (some guest_id) i = guest_eq i.guest_id guest_id
identity none none i = not (is_some i.guest_id)

abbrev pub purchase_identity : Option User → Option String → Purchase → Bool
purchase_identity (some user) guest_id r = opt_eq r.user_id user.id
purchase_identity none (some guest_id) r = guest_eq r.guest_id guest_id
purchase_identity none none r = not (is_some r.guest_id)

-- The conditions that the three lookups of a pending intent share.
abbrev pub waits : PaymentIntent → Bool
waits i = is_bakong i.method && is_pending i.status

-- `.order_by(PaymentIntent.created_at.asc())`, and the first row
abbrev pub oldest : (PaymentIntent → Bool) → ShopDb → Option PaymentIntent
oldest wanted t = first wanted (sort_by (λ a b. ltb a.created_at b.created_at) t.intents)

abbrev pub movie_lookup : Option User → Option String → ℕ → PaymentIntent → Bool
movie_lookup user guest_id content_id i =
    identity user guest_id i && waits i && is_movie i.kind && opt_eq i.content_id content_id

abbrev pub series_lookup : Option User → Option String → ℕ → PaymentIntent → Bool
series_lookup user guest_id series_id i =
    identity user guest_id i && waits i && is_series i.kind && opt_eq i.series_id series_id

abbrev pub plan_lookup : User → String → ℕ → PaymentIntent → Bool
plan_lookup user code amount i =
    identity (some user) none i
    && waits i
    && is_sub i.kind
    && elim i.plan_code [ none ↦ i.amount_usd == amount | some c ↦ str_eq c code ]

-- What every branch of a checkout reads: the settings, the clocks, what Bakong answers for a text,
-- the id of a new subscription, and what `generate_khqr` answers for an amount and a bill number.
module _ (s : SettleSettings) (at : Instant) (nbc : String → Answer) (now new_id : ℕ)
    (khqr : ℕ → String → Result Khqr) (fresh : Fresh) where
  -- The end of `_reuse_or_refresh_pending`: a new KHQR where the old one is not paid.
  unfoldable pub refresh_pending : PaymentIntent → Worker → Tx ShopDb (PaymentIntent × Worker)
  refresh_pending i w =
      let (unpaid, w') = bakong_qr_confirmed_unpaid s at nbc i w in
      if not unpaid
      then pure (i, w')
      else regenerate_bakong_qr now khqr fresh.bill_number i w' >>= (λ w2. committed i w2)

  -- `check_ownership and await mark_succeeded_if_already_purchased(…)`
  unfoldable pub owned_already : Bool → PaymentIntent → Tx ShopDb Bool
  owned_already check_ownership i =
      if check_ownership then mark_succeeded_if_already_purchased now i else pure false

  -- `_reuse_or_refresh_pending` of a QR that is stale
  unfoldable pub refresh_stale : Bool → PaymentIntent → Worker → Tx ShopDb (PaymentIntent × Worker)
  unfolding refresh_pending owned_already
  refresh_stale check_ownership i w = do
    (settled, w') ← settle_bakong_intent_if_paid s at nbc now new_id i w
    if settled then committed i w' else do
      owned ← owned_already check_ownership i
      if owned then committed i w' else refresh_pending i w'

  -- `_reuse_or_refresh_pending`
  unfoldable pub reuse_or_refresh_pending :
      Bool → PaymentIntent → Worker → Tx ShopDb (PaymentIntent × Worker)
  unfolding refresh_stale owned_already
  reuse_or_refresh_pending check_ownership i w =
      if qr_is_stale s now i
      then refresh_stale check_ownership i w
      else do owned ← owned_already check_ownership i; if owned then committed i w else pure (i, w)
