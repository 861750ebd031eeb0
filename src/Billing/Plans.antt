-- ===== src/Billing/Plans.antt =====
-- app/billing/subscription_plans.py, and the choice of the plan that a paid intent is for
-- (`_resolve_plan_for_subscription_intent` of app/billing/fulfillment.py).
use movie_api.Shared.{
  ℕ, String, Bool, true, ◌&&◌, ◌||◌, Option, none, some, List, [], ◌∷◌, ltb, ◌==◌, if◌then◌else◌,
  select, first, sort_by, str_eq, Result, ok, err, not_found, fixed, strip, before_last_dash,
  after_sub,
}
use movie_api.Shop.{SubscriptionPlan, PaymentIntent, ShopDb}

-- `order_by(sort_order.asc(), created_at.asc())`
abbrev pub plan_before : SubscriptionPlan → SubscriptionPlan → Bool
plan_before a b =
    ltb a.sort_order b.sort_order || a.sort_order == b.sort_order && ltb a.created_at b.created_at

-- `list_subscription_plans`
unfoldable pub list_subscription_plans : ShopDb → Bool → List SubscriptionPlan
list_subscription_plans t active_only =
    sort_by plan_before (if active_only then select (λ p. p.is_active) t.plans else t.plans)

-- `get_subscription_plan_by_code`
unfoldable pub get_subscription_plan_by_code : ShopDb → String → Option SubscriptionPlan
get_subscription_plan_by_code t plan_code = first (λ p. str_eq p.code plan_code) t.plans

-- The plan of this code, if it is active.
unfoldable pub active_plan_by_code : ShopDb → String → Option SubscriptionPlan
unfolding get_subscription_plan_by_code
active_plan_by_code t plan_code = elim (get_subscription_plan_by_code t plan_code) [
  | none ↦ none
  | some p ↦ if p.is_active then some p else none
]

-- The first active plan in the listing's order.
unfoldable pub default_plan : ShopDb → Option SubscriptionPlan
unfolding list_subscription_plans
default_plan t = first (λ p. true) (list_subscription_plans t true)

resolve_default : ShopDb → Result SubscriptionPlan
unfolding default_plan
resolve_default t = elim (default_plan t) [
  | none ↦ err (not_found (fixed "No active subscription plan configured"))
  | some p ↦ ok p
]

-- `resolve_active_plan`; an empty code counts as none
unfoldable pub resolve_active_plan : ShopDb → Option String → Result SubscriptionPlan
unfolding active_plan_by_code resolve_default
resolve_active_plan t none = resolve_default t
resolve_active_plan t (some plan_code) =
    if str_eq plan_code "" then resolve_default t else elim (active_plan_by_code t plan_code) [
      | none ↦ err (not_found (fixed "Subscription plan not found"))
      | some p ↦ ok p
    ]

-- `x or None` for a text
abbrev pub nonempty : String → Option String
nonempty s = if str_eq s "" then none else some s

-- `_plan_code_from_order_id`
unfoldable pub plan_code_from_order_id : String → Option String
unfolding after_sub before_last_dash
plan_code_from_order_id order_id = elim (after_sub order_id) [
  | none ↦ none
  | some rest ↦ elim (before_last_dash rest) [ none ↦ none | some plan_code ↦ nonempty plan_code ]
]

-- The code that an intent carries, in its column or else in its order id.
unfoldable pub coded : PaymentIntent → Option String
unfolding plan_code_from_order_id strip
coded i = elim i.plan_code [
  | none ↦ plan_code_from_order_id i.order_id
  | some column ↦
      if str_eq (strip column) "" then plan_code_from_order_id i.order_id else some (strip column)
]

-- `max(plans, key=billing_interval_days)`: the first of the longest
longest : SubscriptionPlan → List SubscriptionPlan → SubscriptionPlan
longest best [] = best
longest best (p ∷ rest) =
    longest (if ltb best.billing_interval_days p.billing_interval_days then p else best) rest

-- The active plans at the intent's amount, the longest of them, or else the default.
unfoldable pub plan_by_amount : ShopDb → ℕ → Result SubscriptionPlan
unfolding longest list_subscription_plans resolve_active_plan
plan_by_amount t amount =
    elim (select (λ p. p.price_usd == amount) (list_subscription_plans t true)) [
      | [] ↦ resolve_active_plan t none
      | p ∷ rest ↦ ok (longest p rest)
    ]

-- `_resolve_plan_for_subscription_intent`
unfoldable pub resolve_plan_for_intent : ShopDb → PaymentIntent → Result SubscriptionPlan
unfolding coded active_plan_by_code plan_by_amount
resolve_plan_for_intent t i = elim (coded i) [
  | none ↦ plan_by_amount t i.amount_usd
  | some plan_code ↦ elim (active_plan_by_code t plan_code) [
    | none ↦ plan_by_amount t i.amount_usd
    | some p ↦ ok p
  ]
]
