-- ===== src/Billing/Fulfillment/Grants.antt =====
-- What a fulfilled intent opens to its buyer, in terms of the rules of access.
use movie_api.Shared.{
  ℕ, ◌+◌, ◌<◌, ◌≡◌, ◌≢◌, refl, sym, subst, String, Bool, true, false, Option, none, some, List, [],
  ◌∷◌, arith, first, exists, update, ◌==◌, run, ok, inl, inr, In, In-first, In-sort_by, first-true,
  sort_by, days,
}
use movie_api.Models.{User}
use movie_api.Shop.{
  single, episode, Content, Subscription, SubscriptionPlan, PaymentIntent, movie, sub, series,
  active, ShopDb,
}
use movie_api.Access.{can_access_content, user_has_active_subscription}
use movie_api.Access.Grant.{bought, bought_as_guest, unlocked, Subscribed-iff}
use movie_api.Access.Entitlement.{can_access_content_iff}
use movie_api.Billing.Plans.{resolve_plan_for_intent}
use movie_api.Billing.Fulfillment.{
  fulfill_payment_intent, grant, by_intent_id, is_succeeded, purchase_of, series_purchase_of,
  payment_of, latest_subscription, later_end, period_start, billing_interval_days,
  extend_subscription, store_subscription,
}
use movie_api.Billing.Fulfillment.Once.{fulfill, marked}

-- The intent of this id is stored and not yet fulfilled.
pub record IsOpen (t : ShopDb) (intent_id : String) (i : PaymentIntent) : Type 0 where
  pub found : first (by_intent_id intent_id) t.intents ≡ some i
  pub unsettled : is_succeeded i.status ≡ false

module _ (now new_id : ℕ) (intent_id : String) (bank : Option String) (t : ShopDb)
    (i : PaymentIntent) (o : IsOpen t intent_id i) where
  movie_purchases :
      (content_id : ℕ)
      → i.kind ≡ movie
      → i.content_id ≡ some content_id
      → exists (purchase_of i.intent_id) t.purchases ≡ false
      → (run (fulfill now new_id intent_id bank) t).1.purchases
        ≡ record {
          user_id = i.user_id;
          guest_id = i.guest_id;
          content_id = content_id;
          intent_id = i.intent_id;
          order_id = i.order_id;
          bank = bank;
          amount_usd = i.amount_usd;
        }
          ∷ t.purchases
  unfolding fulfill_payment_intent grant
  movie_purchases content_id kind content fresh = ground arith

  series_unlocks :
      (series_id : ℕ)
      → i.kind ≡ series
      → i.series_id ≡ some series_id
      → exists (series_purchase_of i.intent_id) t.series_purchases ≡ false
      → (run (fulfill now new_id intent_id bank) t).1.series_purchases
        ≡ record {
          user_id = i.user_id;
          guest_id = i.guest_id;
          series_id = series_id;
          intent_id = i.intent_id;
          order_id = i.order_id;
          bank = bank;
          amount_usd = i.amount_usd;
        }
          ∷ t.series_purchases
  unfolding fulfill_payment_intent grant
  series_unlocks series_id kind content fresh = ground arith

  -- An open intent for a movie, fulfilled with no purchase recorded for it before, lets its buyer
  -- watch the movie, published as a single title, at any later time.
  pub paid_movie_opens :
      (c : Content) (u : User) (later : ℕ)
      → i.kind ≡ movie
      → i.content_id ≡ some c.id
      → i.user_id ≡ some u.id
      → exists (purchase_of i.intent_id) t.purchases ≡ false
      → c.type ≡ single
      → c.is_published ≡ true
      → can_access_content later (run (fulfill now new_id intent_id bank) t).1 (some u) none c none
        ≡ true
  paid_movie_opens c u later kind content buyer fresh ty out =
      (can_access_content_iff later _ c (some u) none).1 (
        inr (
          out,
          inr (
              bought u ty (
                _,
                subst (In _) (sym (movie_purchases c.id kind content fresh)) (inl refl),
                buyer,
                refl,
              )),
        ))

  -- An open intent of a guest with a nonempty token for a movie, fulfilled with no purchase recorded
  -- for it before, lets that guest watch the movie, published as a single title, at any later time.
  pub paid_movie_opens_guest :
      (c : Content) (guest : String) (later : ℕ)
      → i.kind ≡ movie
      → i.content_id ≡ some c.id
      → i.guest_id ≡ some guest
      → guest ≢ ""
      → exists (purchase_of i.intent_id) t.purchases ≡ false
      → c.type ≡ single
      → c.is_published ≡ true
      → can_access_content later
          (run (fulfill now new_id intent_id bank) t).1
          none
          (some guest)
          c
          none
        ≡ true
  paid_movie_opens_guest c guest later kind content buyer named fresh ty out =
      (can_access_content_iff later _ c none (some guest)).1 (
        inr (
          out,
          inr (
              bought_as_guest guest named ty (
                _,
                subst (In _) (sym (movie_purchases c.id kind content fresh)) (inl refl),
                buyer,
                refl,
              )),
        ))

  -- An open intent for a series, fulfilled with no series purchase recorded for it before, opens each
  -- published episode of the series to its buyer at any later time.
  pub paid_series_opens :
      (series_id : ℕ) (c : Content) (u : User) (later : ℕ)
      → i.kind ≡ series
      → i.series_id ≡ some series_id
      → i.user_id ≡ some u.id
      → exists (series_purchase_of i.intent_id) t.series_purchases ≡ false
      → c.type ≡ episode
      → c.series_id ≡ some series_id
      → c.is_published ≡ true
      → can_access_content later (run (fulfill now new_id intent_id bank) t).1 (some u) none c none
        ≡ true
  paid_series_opens series_id c u later kind content buyer fresh ty placed out =
      (can_access_content_iff later _ c (some u) none).1 (
        inr (
          out,
          inr (
              unlocked u series_id ty placed (
                _,
                subst (In _) (sym (series_unlocks series_id kind content fresh)) (inl refl),
                buyer,
                refl,
              )),
        ))

-- The end of the period that a payment buys.
abbrev pub paid_until : ℕ → ShopDb → ℕ → PaymentIntent → SubscriptionPlan → ℕ
paid_until now t user_id i plan =
    period_start now (latest_subscription t user_id) + days (billing_interval_days i plan)

module _ (now new_id : ℕ) (intent_id : String) (bank : Option String) (t : ShopDb)
    (i : PaymentIntent) (o : IsOpen t intent_id i) (user_id : ℕ) (plan : SubscriptionPlan) where
  marked-plan : resolve_plan_for_intent (marked now intent_id t) i ≡ resolve_plan_for_intent t i
  unfolding resolve_plan_for_intent
  marked-plan = refl

  marked-latest :
      latest_subscription (marked now intent_id t) user_id ≡ latest_subscription t user_id
  unfolding latest_subscription
  marked-latest = refl

  sub_stored :
      i.kind ≡ sub
      → i.user_id ≡ some user_id
      → exists (payment_of i.intent_id) t.subscription_payments ≡ false
      → resolve_plan_for_intent t i ≡ ok plan
      → let (r, t') = run (fulfill now new_id intent_id bank) t in
        let found = latest_subscription t user_id in
        (r ≡ ok tt)
        × (t'.subscriptions
            ≡ store_subscription found
                (extend_subscription now new_id user_id plan.code
                  (paid_until now t user_id i plan)
                  found)
                t.subscriptions)
  unfolding fulfill_payment_intent grant
  sub_stored kind buyer fresh resolved = ground (arith, marked-plan, marked-latest)

-- The row that is stored belongs to the user, is active and ends at the new end.
extended_fields :
    (now new_id user_id : ℕ) (plan_code : String) (period_end : ℕ) (found : Option Subscription)
    → ((r : Subscription) → found ≡ some r → r.user_id ≡ user_id)
    → let row = extend_subscription now new_id user_id plan_code period_end found in
      (row.user_id ≡ user_id) × (row.status ≡ active) × (row.current_period_end ≡ period_end)
unfolding extend_subscription
extended_fields now new_id user_id plan_code period_end none own = (refl, refl, refl)
extended_fields now new_id user_id plan_code period_end (some r) own = (own r refl, refl, refl)

latest-user :
    (t : ShopDb) (user_id : ℕ) (r : Subscription)
    → latest_subscription t user_id ≡ some r
    → In r t.subscriptions × (r.user_id ≡ user_id)
unfolding latest_subscription
latest-user t user_id r found =
    let own = first-true (λ (x : Subscription). x.user_id == user_id) _ found in
    (
      (In-sort_by later_end r t.subscriptions).0
          (In-first (λ x. x.user_id == user_id) (sort_by later_end t.subscriptions) found),
      ground arith,
    )

In-update_hit :
    {A : Type 0} (q : A → Bool) (f : A → A) (x : A) (xs : List A)
    → q x ≡ true
    → In x xs
    → In (f x) (update q f xs)
In-update_hit q f x [] hit i = i
In-update_hit q f x (y ∷ xs) hit i = ground (arith, In-update_hit q f x xs hit)

In-store :
    (found : Option Subscription) (row : Subscription) (rows : List Subscription)
    → ((r : Subscription) → found ≡ some r → In r rows)
    → In row (store_subscription found row rows)
unfolding store_subscription
In-store none row rows stored = inl refl
In-store (some old) row rows stored =
    In-update_hit (λ x. x.id == old.id) (λ _. row) old rows (ground arith) (stored old refl)

-- An open subscription intent of a user whose plan can be resolved, fulfilled with no payment recorded
-- for it before, goes through, and the user then has an active subscription at every instant before
-- the end of the period bought, which starts at the end of the running subscription, or now.
pub paid_subscription_runs :
    (now new_id : ℕ) (intent_id : String) (bank : Option String) (t : ShopDb) (i : PaymentIntent)
    (user_id : ℕ) (plan : SubscriptionPlan) (later : ℕ)
    → IsOpen t intent_id i
    → i.kind ≡ sub
    → i.user_id ≡ some user_id
    → exists (payment_of i.intent_id) t.subscription_payments ≡ false
    → resolve_plan_for_intent t i ≡ ok plan
    → later < paid_until now t user_id i plan
    → let (r, t') = run (fulfill now new_id intent_id bank) t in
      (r ≡ ok tt) × (user_has_active_subscription later t' user_id ≡ true)
paid_subscription_runs now new_id intent_id bank t i user_id plan later o kind buyer fresh resolved
      soon =
    let (done, stored) =
      sub_stored now new_id intent_id bank t i o user_id plan kind buyer fresh resolved in
    let found = latest_subscription t user_id in
    let until = paid_until now t user_id i plan in
    let row = extend_subscription now new_id user_id plan.code until found in
    let (own, running, ends) =
      extended_fields now new_id user_id plan.code until found
        (λ r e. (latest-user t user_id r e).1) in
    (
      done,
      (Subscribed-iff later _ user_id).1 (
        row,
        subst (In row) (sym stored)
            (In-store found row t.subscriptions (λ r e. (latest-user t user_id r e).0)),
        own,
        running,
        subst (λ n. later < n) (sym ends) soon,
      ),
    )
