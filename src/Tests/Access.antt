-- ===== src/Tests/Access.antt =====
-- Who may watch what in a small shop, and the payments that open titles there.
use movie_api.Shared.{
  ◌<◌, ◌≡◌, ◌≢◌, ◌↔◌, ◌⊎◌, refl, String, true, false, none, some, [], ◌∷◌, arith, run, ok, days,
  eq_iff,
}
use movie_api.Models.{User}
use movie_api.Shop.{
  single, episode, Content, Subscription, SubscriptionPlan, PaymentIntent, movie, sub, series,
  pending, active, bakong, ShopDb,
}
use movie_api.Access.{can_access_content, user_has_active_subscription}
use movie_api.Access.Grant.{Grant}
use movie_api.Access.Entitlement.{IsAdmin, can_access_content_iff}
use movie_api.Billing.Plans.{resolve_plan_for_intent, plan_code_from_order_id}
use movie_api.Billing.Fulfillment.{
  latest_subscription, period_start, billing_interval_days, fulfill_payment_intent, grant,
}
use movie_api.Billing.Fulfillment.Once.{
  fulfill, fulfill_twice, SingleReceipts, fulfill-SingleReceipts,
}
use movie_api.Billing.Fulfillment.Grants.{paid_until, paid_subscription_runs}

abbrev pub buyer : User
buyer = record {
  id = 7;
  email = "a@x";
  password_hash = some "h:secret";
  google_id = none;
  telegram_id = none;
  apple_id = none;
  avatar_url = none;
  full_name = none;
  role = "user";
  is_active = true;
}

abbrev pub film : Content
film = record {
  id = 100;
  type = single;
  series_id = none;
  price_usd = some 299;
  is_published = true;
  is_free = false;
}

abbrev first_episode : Content
first_episode = record film { id = 101; type = episode; series_id = some 50; price_usd = none }

abbrev monthly : SubscriptionPlan
monthly = record {
  code = "all-month";
  price_usd = 499;
  billing_interval_days = 30;
  is_active = true;
  sort_order = 0;
  created_at = 0;
}

abbrev pub movie_intent : PaymentIntent
movie_intent = record {
  intent_id = "bkg-1";
  order_id = "movie-1";
  user_id = some 7;
  guest_id = some "g1";
  method = bakong;
  bakong_md5 = some "md5-new";
  bakong_prev_md5 = some "md5-old";
  bakong_qr = some "qr";
  bakong_merchant_name = none;
  bakong_qr_created_at = some 0;
  kind = movie;
  content_id = some 100;
  series_id = none;
  plan_code = none;
  plan_interval_days = none;
  amount_usd = 299;
  status = pending;
  created_at = 0;
  resolved_at = none;
}

abbrev series_intent : PaymentIntent
series_intent = record movie_intent {
  intent_id = "bkg-2";
  kind = series;
  content_id = none;
  series_id = some 50;
}

abbrev sub_intent : PaymentIntent
sub_intent = record movie_intent {
  intent_id = "bkg-3";
  order_id = "sub-all-month-0f";
  kind = sub;
  content_id = none;
  amount_usd = 499;
}

-- The subscription still runs for five days.
abbrev running : Subscription
running = record {
  id = 1;
  user_id = 7;
  plan = "all-month";
  status = active;
  current_period_start = 0;
  current_period_end = days 5;
}

abbrev pub shop : ShopDb
shop = record {
  users = buyer ∷ [];
  contents = film ∷ first_episode ∷ [];
  purchases = [];
  series_purchases = [];
  subscriptions = running ∷ [];
  subscription_payments = [];
  plans = monthly ∷ [];
  intents = movie_intent ∷ series_intent ∷ sub_intent ∷ [];
  home_sections = [];
  home_section_items = [];
  free_today_items = [];
  alerts = [];
}

-- A plan code may hold dashes: the last one ends it.
test_plan_code : plan_code_from_order_id "sub-all-month-0f" ≡ some "all-month"
unfolding plan_code_from_order_id
test_plan_code = refl

can_access_content_iff_example : (can_access_content 0 shop (some buyer) none film none ≡ true) ↔ (
    IsAdmin (some buyer)
    ⊎ (film.is_published ≡ true) × ((film.is_free ≡ true) ⊎ Grant 0 shop film (some buyer) none))
can_access_content_iff_example = can_access_content_iff 0 shop film (some buyer) none

-- The shop after the movie was paid.
abbrev paid_shop : ShopDb
paid_shop = (run (fulfill 10 9 "bkg-1" (some "bakong")) shop).1

fulfill_once : run (fulfill 10 9 "bkg-1" (some "bakong")) shop ≡ (ok tt, paid_shop)
unfolding fulfill_payment_intent grant
fulfill_once = refl

fulfill_twice_example : run (fulfill 20 9 "bkg-1" none) paid_shop ≡ (ok tt, paid_shop)
fulfill_twice_example =
    fulfill_twice 10 9 20 9 "bkg-1" (some "bakong") none shop paid_shop fulfill_once

shop-SingleReceipts : SingleReceipts shop
shop-SingleReceipts = record {
  movies = λ k. omega arith;
  unlocks = λ k. omega arith;
  payments = λ k. omega arith;
}

fulfill-SingleReceipts_example : SingleReceipts paid_shop
fulfill-SingleReceipts_example =
    fulfill-SingleReceipts 10 9 "bkg-1" (some "bakong") shop shop-SingleReceipts

named : ◌≢◌ {A = String} "g1" ""
named e = cc ((eq_iff "g1" "").1 e)

plan_found : resolve_plan_for_intent shop sub_intent ≡ ok monthly
unfolding resolve_plan_for_intent
plan_found = refl

-- The month is added to the five days that were left.
until_day_35 : paid_until 10 shop 7 sub_intent monthly ≡ days 35
unfolding latest_subscription period_start billing_interval_days
until_day_35 = refl

in_time : days 34 < paid_until 10 shop 7 sub_intent monthly
in_time = omega (arith, until_day_35)

paid_subscription_runs_example :
    let (r, t') = run (fulfill 10 9 "bkg-3" none) shop in
    (r ≡ ok tt) × (user_has_active_subscription (days 34) t' 7 ≡ true)
paid_subscription_runs_example =
    paid_subscription_runs 10 9 "bkg-3" none shop sub_intent 7 monthly (days 34)
      (record { found = refl; unsettled = refl }) refl refl refl plan_found in_time
