-- ===== src/Billing/Checkout/Create.antt =====
-- _commit_new_intent_or_reuse and the three create_or_reuse_… functions of app/billing/intents.py,
-- with the unique indexes on payment_intents (alembic/versions/0030_bakong_checkout.py and
-- 0048_atomic_sessions_and_checkout.py). The locks on rows keep other requests away and are no
-- part of what one request computes.
use Prim.Native.String.{◌++◌}
use movie_api.Shared.{
  ℕ, String, Bool, true, false, ◌&&◌, ◌||◌, Option, none, some, ◌∷◌, ◌==◌, if◌then◌else◌, first,
  exists, str_eq, opt_eq, Tx, Result, ok, pure, gets, modify, commit, or_raise, raise_if, ◌>>=◌,
  ◌>>◌, HttpError, not_found, conflict, server_error, fixed,
}
use movie_api.Models.{User}
use movie_api.Shop.{
  Content, single, Purchase, SubscriptionPlan, PaymentIntent, Kind, movie, sub, series, bakong,
  pending, ShopDb,
}
use movie_api.Access.{guest_eq, has_series_purchase, user_has_active_subscription}
use movie_api.Billing.Plans.{resolve_active_plan, nonempty}
use movie_api.Billing.Probe.{Answer, Worker, Instant}
use movie_api.Billing.Settle.{SettleSettings}
use movie_api.Billing.Settle.Playback.{is_movie}
use movie_api.Billing.Checkout.{
  is_sub, is_series, series_unlock_price_usd, validate_payment_amount, Khqr, Fresh, or_text,
  of_result, purchase_identity, waits, oldest, movie_lookup, series_lookup, plan_lookup,
  reuse_or_refresh_pending,
}

-- Two columns hold the same value, and not null.
abbrev pub both : Option ℕ → Option ℕ → Bool
both none b = false
both (some a) b = opt_eq b a

abbrev pub both_text : Option String → Option String → Bool
both_text none b = false
both_text (some a) b = guest_eq b a

abbrev pub one_buyer : PaymentIntent → PaymentIntent → Bool
one_buyer i j = both i.user_id j.user_id || both_text i.guest_id j.guest_id

-- The five indexes uq_pending_bakong_….
abbrev pub same_pending : PaymentIntent → PaymentIntent → Bool
same_pending i j = waits i && waits j && elim i.kind [
  | movie ↦ is_movie j.kind && both i.content_id j.content_id && one_buyer i j
  | series ↦ is_series j.kind && both i.series_id j.series_id && one_buyer i j
  | sub ↦ is_sub j.kind && both i.user_id j.user_id && both_text i.plan_code j.plan_code
]

-- A unique index keeps the two rows apart.
abbrev pub clash : PaymentIntent → PaymentIntent → Bool
clash i j =
    str_eq j.intent_id i.intent_id
    || str_eq j.order_id i.order_id
    || both_text i.bakong_md5 j.bakong_md5
    || same_pending i j

-- What a buyer asks for at the three routes of app/billing/router.py, with the buyer: the series is
-- the one that its slug names, and a guest is known by the id in a cookie.
pub data Buyer : Type 0 where
  signed_in : User → Buyer
  guest : String → Buyer

pub data CheckoutRequest : Type 0 where
  movie_bakong_intent : ℕ → Buyer → CheckoutRequest
  series_unlock_bakong_intent : ℕ → Buyer → CheckoutRequest
  subscription_bakong_intent : User → Option String → CheckoutRequest

abbrev pub user_of : Buyer → Option User
user_of (signed_in user) = some user
user_of (guest _) = none

-- `None if user else get_or_create_guest_id(request, response)`
abbrev pub guest_of : Buyer → Option String
guest_of (signed_in _) = none
guest_of (guest id) = some id

abbrev pub rollback : Tx ShopDb Unit
rollback c = (ok tt, record c { current = c.saved })

abbrev pub integrity_error : HttpError
integrity_error = server_error (fixed "IntegrityError")

abbrev pub user_id_of : Option User → Option ℕ
user_id_of none = none
user_id_of (some user) = some user.id

abbrev pub add_intent : PaymentIntent → ShopDb → ShopDb
add_intent i t = record t { intents = i ∷ t.intents }

-- The query for the movie.
abbrev pub on_sale : ℕ → Content → Bool
on_sale content_id c =
    c.id == content_id && elim c.type [ single ↦ true | _ ↦ false ] && c.is_published

-- The query for an earlier purchase.
abbrev pub bought_by : Option User → Option String → ℕ → Purchase → Bool
bought_by user guest_id content_id r =
    purchase_identity user guest_id r && r.content_id == content_id

-- `PaymentIntent(…)`, with the columns in which the three kinds agree; `configured` is the setting
-- bakong_merchant_name.
abbrev pub new_intent : String → Fresh → ℕ → Khqr → Kind → String → ℕ → PaymentIntent
new_intent configured fresh now q kind order_id amount = record {
  intent_id = "bkg-" ++ fresh.intent_hex;
  order_id = order_id;
  user_id = none;
  guest_id = none;
  method = bakong;
  bakong_md5 = some q.md5;
  bakong_prev_md5 = none;
  bakong_qr = some q.qr_string;
  bakong_merchant_name = or_text (some q.merchant_name) (nonempty configured);
  bakong_qr_created_at = some now;
  kind = kind;
  content_id = none;
  series_id = none;
  plan_code = none;
  plan_interval_days = none;
  amount_usd = amount;
  status = pending;
  created_at = fresh.created_at;
  resolved_at = none;
}

module _ (configured : String) (fresh : Fresh) (now : ℕ) (q : Khqr) where
  abbrev pub movie_intent : ℕ → ℕ → Option User → Option String → PaymentIntent
  movie_intent content_id amount user guest_id =
      let plain = new_intent configured fresh now q movie ("movie-" ++ fresh.order_hex) amount in
      record plain { user_id = user_id_of user; guest_id = guest_id; content_id = some content_id }

  abbrev pub series_intent : ℕ → ℕ → Option User → Option String → PaymentIntent
  series_intent series_id amount user guest_id =
      let plain = new_intent configured fresh now q series ("series-" ++ fresh.order_hex) amount in
      record plain { user_id = user_id_of user; guest_id = guest_id; series_id = some series_id }

  abbrev pub plan_intent : SubscriptionPlan → ℕ → User → PaymentIntent
  plan_intent plan amount user =
      let order_id = "sub-" ++ plan.code ++ "-" ++ fresh.order_hex in
      let plain = new_intent configured fresh now q sub order_id amount in
      record plain {
        user_id = some user.id;
        plan_code = some plan.code;
        plan_interval_days = some plan.billing_interval_days;
      }

module _ (s : SettleSettings) (configured : String) (at : Instant) (nbc : String → Answer)
    (now new_id : ℕ) (khqr : ℕ → String → Result Khqr) (fresh : Fresh) where
  -- `_commit_new_intent_or_reuse`: `lookup` has the conditions of `pending_lookup`
  unfoldable pub commit_new_intent_or_reuse :
      (PaymentIntent → Bool) → Bool → PaymentIntent → Worker → Tx ShopDb (PaymentIntent × Worker)
  commit_new_intent_or_reuse lookup check_ownership i w = do
    taken ← gets (λ t. exists (clash i) t.intents)
    if taken
        then rollback
          >> (gets (λ t. oldest lookup t) >>= (λ found.
              or_raise found integrity_error >>= (λ winner.
                reuse_or_refresh_pending s at nbc now new_id khqr fresh check_ownership winner w)))
        else modify (add_intent i) >> (commit >> pure (i, w))

  -- `create_or_reuse_movie_bakong_intent`, where no intent is pending
  unfoldable pub new_movie_intent :
      ℕ → Option User → Option String → Worker → Tx ShopDb (PaymentIntent × Worker)
  unfolding commit_new_intent_or_reuse
  new_movie_intent content_id user guest_id w = do
    found ← gets (λ t. first (on_sale content_id) t.contents)
    film ← or_raise found (not_found (fixed "Movie not found"))
    amount ← of_result (validate_payment_amount film.price_usd)
    q ← of_result (khqr amount fresh.bill_number)
    commit_new_intent_or_reuse (movie_lookup user guest_id content_id) true
        (movie_intent configured fresh now q film.id amount user guest_id) w

  -- `create_or_reuse_movie_bakong_intent`
  unfoldable pub create_or_reuse_movie_bakong_intent :
      ℕ → Option User → Option String → Worker → Tx ShopDb (PaymentIntent × Worker)
  unfolding new_movie_intent
  create_or_reuse_movie_bakong_intent content_id user guest_id w = do
    bought ← gets (λ t. exists (bought_by user guest_id content_id) t.purchases)
    raise_if bought (conflict (fixed "Movie already purchased"))
    waiting ← gets (λ t. oldest (movie_lookup user guest_id content_id) t)
    elim waiting [
      | none ↦ new_movie_intent content_id user guest_id w
      | some i ↦ reuse_or_refresh_pending s at nbc now new_id khqr fresh true i w
    ]

  -- `create_or_reuse_series_bakong_intent`, where no intent is pending
  unfoldable pub new_series_intent :
      ℕ → Option User → Option String → Worker → Tx ShopDb (PaymentIntent × Worker)
  unfolding commit_new_intent_or_reuse
  new_series_intent series_id user guest_id w = do
    amount ← of_result (validate_payment_amount (some series_unlock_price_usd))
    q ← of_result (khqr amount fresh.bill_number)
    commit_new_intent_or_reuse (series_lookup user guest_id series_id) true
        (series_intent configured fresh now q series_id amount user guest_id) w

  -- `create_or_reuse_series_bakong_intent`
  unfoldable pub create_or_reuse_series_bakong_intent :
      ℕ → Option User → Option String → Worker → Tx ShopDb (PaymentIntent × Worker)
  unfolding new_series_intent
  create_or_reuse_series_bakong_intent series_id user guest_id w = do
    subscribed ←
        gets (λ t. elim user [ none ↦ false | some u ↦ user_has_active_subscription now t u.id ])
    raise_if subscribed (conflict (fixed "You already have an active subscription"))
    unlocked ← gets (λ t. has_series_purchase t series_id (user_id_of user) guest_id)
    raise_if unlocked (conflict (fixed "Series already unlocked"))
    waiting ← gets (λ t. oldest (series_lookup user guest_id series_id) t)
    elim waiting [
      | none ↦ new_series_intent series_id user guest_id w
      | some i ↦ reuse_or_refresh_pending s at nbc now new_id khqr fresh true i w
    ]

  -- `create_or_reuse_subscription_bakong_intent`, where no intent is pending
  unfoldable pub new_plan_intent :
      SubscriptionPlan → ℕ → User → Worker → Tx ShopDb (PaymentIntent × Worker)
  unfolding commit_new_intent_or_reuse
  new_plan_intent plan amount user w = do
    q ← of_result (khqr amount fresh.bill_number)
    commit_new_intent_or_reuse (plan_lookup user plan.code amount) false
        (plan_intent configured fresh now q plan amount user) w

  -- `create_or_reuse_subscription_bakong_intent`; subs don't use the ownership check
  unfoldable pub create_or_reuse_subscription_bakong_intent :
      User → Option String → Worker → Tx ShopDb (PaymentIntent × Worker)
  unfolding new_plan_intent
  create_or_reuse_subscription_bakong_intent user plan_code w = do
    resolved ← gets (λ t. resolve_active_plan t plan_code)
    plan ← of_result resolved
    amount ← of_result (validate_payment_amount (some plan.price_usd))
    waiting ← gets (λ t. oldest (plan_lookup user plan.code amount) t)
    elim waiting [
      | none ↦ new_plan_intent plan amount user w
      | some i ↦ reuse_or_refresh_pending s at nbc now new_id khqr fresh false i w
    ]

  -- `create_movie_bakong_intent`, `create_series_unlock_bakong_intent` and
  -- `create_subscription_bakong_intent` of app/billing/router.py
  unfoldable pub bakong_checkout : CheckoutRequest → Worker → Tx ShopDb (PaymentIntent × Worker)
  bakong_checkout (movie_bakong_intent content_id buyer) =
      create_or_reuse_movie_bakong_intent content_id (user_of buyer) (guest_of buyer)
  bakong_checkout (series_unlock_bakong_intent series_id buyer) =
      create_or_reuse_series_bakong_intent series_id (user_of buyer) (guest_of buyer)
  bakong_checkout (subscription_bakong_intent user plan_code) =
      create_or_reuse_subscription_bakong_intent user plan_code
