-- ===== src/Billing/Settle.antt =====
-- app/billing/bakong_settle.py and app/billing/ownership.py: pending intents that turn out to be
-- paid, or to be for a title that their buyer owns already.
pub mod Evidence
pub mod Playback
use movie_api.Shared.{
  ℕ, ◌+◌, String, Bool, true, false, not, ◌&&◌, ◌||◌, Option, none, some, List, [], ◌∷◌, ltb, leb,
  ◌==◌, if◌then◌else◌, first, exists, update, select, sort_by, str_eq, opt_eq, is_some, Tx, pure,
  raise, gets, modify, ◌>>=◌, ◌>>◌, minutes,
}
use movie_api.Shop.{
  Purchase, SeriesPurchase, PaymentIntent, Kind, movie, sub, series, IntentStatus, pending,
  superseded, Method, bakong, ShopDb,
}
use movie_api.Access.{guest_eq, user_bought, guest_bought, has_series_purchase}
use movie_api.Billing.Fulfillment.{by_intent_id, is_succeeded, fulfill_payment_intent}
use movie_api.Billing.CheckCache.{Md5Status, paid, unpaid, unknown}
use movie_api.Billing.Probe.{Answer, Worker, Instant, probe_khqr_status, check_khqr_paid}

-- `get_settings()`: the two settings that are read here
pub record SettleSettings : Type 0 where
  pub bakong_nbc_settle_enabled : Bool
  pub bakong_qr_ttl_minutes : ℕ

-- `qr_issued_at`; `created_at` is never null in a stored row
unfoldable pub qr_issued_at : PaymentIntent → ℕ
qr_issued_at i = elim i.bakong_qr_created_at [ none ↦ i.created_at | some at ↦ at ]

-- `qr_is_stale`
unfoldable pub qr_is_stale : SettleSettings → ℕ → PaymentIntent → Bool
unfolding qr_issued_at
qr_is_stale s now i = leb (qr_issued_at i + minutes s.bakong_qr_ttl_minutes) now

-- A text column that is there and not empty.
abbrev pub truthy : Option String → Option String
truthy none = none
truthy (some s) = if str_eq s "" then none else some s

-- `prev and prev != md5`
abbrev pub other_md5 : Option String → String → Option String
other_md5 prev md5 = elim (truthy prev) [
  | none ↦ none
  | some p ↦ if str_eq p md5 then none else some p
]

-- `bakong_md5s_paid`; `nbc` is what Bakong answers for a text during the call
unfoldable pub bakong_md5s_paid :
    SettleSettings → Instant → (String → Answer) → PaymentIntent → Worker → Bool × Worker
bakong_md5s_paid s at nbc i w =
    if not s.bakong_nbc_settle_enabled then (false, w) else elim (truthy i.bakong_md5) [
      | none ↦ (false, w)
      | some md5 ↦
          let (status, w') = probe_khqr_status at (nbc md5) md5 i.intent_id w in
          elim status [
            | paid ↦ (true, w')
            | unknown ↦ (false, w')
            | unpaid ↦ elim (other_md5 i.bakong_prev_md5 md5) [
              | none ↦ (false, w')
              | some prev ↦ check_khqr_paid at (nbc prev) prev i.intent_id w'
            ]
          ]
    ]

-- The loop of `bakong_qr_confirmed_unpaid`: every text must be confirmed as unpaid.
unfoldable pub all_unpaid :
    Instant → (String → Answer) → String → List String → Worker → Bool × Worker
all_unpaid at nbc intent_id [] w = (true, w)
all_unpaid at nbc intent_id (md5 ∷ rest) w =
    let (status, w') = probe_khqr_status at (nbc md5) md5 intent_id w in
    let later = all_unpaid at nbc intent_id rest w' in
    elim status [ paid ↦ (false, w') | unknown ↦ (false, w') | unpaid ↦ later ]

-- The texts that it looks at.
unfoldable pub intent_md5s : PaymentIntent → List String
intent_md5s i = elim (truthy i.bakong_md5) [
  | none ↦ elim (truthy i.bakong_prev_md5) [ none ↦ [] | some prev ↦ prev ∷ [] ]
  | some md5 ↦ elim (other_md5 i.bakong_prev_md5 md5) [
    | none ↦ md5 ∷ []
    | some prev ↦ md5 ∷ prev ∷ []
  ]
]

-- `bakong_qr_confirmed_unpaid`
unfoldable pub bakong_qr_confirmed_unpaid :
    SettleSettings → Instant → (String → Answer) → PaymentIntent → Worker → Bool × Worker
unfolding all_unpaid intent_md5s
bakong_qr_confirmed_unpaid s at nbc i w =
    if not s.bakong_nbc_settle_enabled
    then (true, w)
    else all_unpaid at nbc i.intent_id (intent_md5s i) w

abbrev pub is_pending : IntentStatus → Bool
is_pending pending = true
is_pending _ = false

abbrev pub is_bakong : Method → Bool
is_bakong bakong = true
is_bakong _ = false

-- `settle_bakong_intent_if_paid`; `now` and `new_id` are for the fulfilment
unfoldable pub settle_bakong_intent_if_paid :
    SettleSettings
    → Instant
    → (String → Answer)
    → ℕ
    → ℕ
    → PaymentIntent
    → Worker
    → Tx ShopDb (Bool × Worker)
settle_bakong_intent_if_paid s at nbc now new_id i w =
    if is_succeeded i.status
    then pure (true, w)
    else if not (is_bakong i.method) || not (is_pending i.status)
    then pure (false, w)
    else if not s.bakong_nbc_settle_enabled
    then pure (false, w)
    else do
      let checked : Bool × Worker = bakong_md5s_paid s at nbc i w
      if not checked.0 then pure (false, checked.1) else do
        fulfill_payment_intent now new_id i.intent_id (some "bakong")
        pure (true, checked.1)

-- The buyer owns the movie of an intent, or its series.
unfoldable pub owns_movie : ShopDb → PaymentIntent → ℕ → Bool
owns_movie t i content_id = elim i.user_id [
  | some u ↦ user_bought t u content_id
  | none ↦ elim (truthy i.guest_id) [ none ↦ false | some g ↦ guest_bought t g content_id ]
]

unfoldable pub owns_series : ShopDb → PaymentIntent → ℕ → Bool
owns_series t i series_id = has_series_purchase t series_id i.user_id i.guest_id

-- What the intent is for is owned already.
unfoldable pub already_owned : ShopDb → PaymentIntent → Bool
unfolding owns_movie owns_series
already_owned t i =
    let of_movie : Bool = elim i.content_id [
      | none ↦ false
      | some content_id ↦ owns_movie t i content_id
    ] in
    elim i.kind [
      | series ↦ elim i.series_id [ none ↦ of_movie | some series_id ↦ owns_series t i series_id ]
      | _ ↦ of_movie
    ]

abbrev pub set_superseded : ℕ → PaymentIntent → PaymentIntent
set_superseded now i = record i { status = superseded; resolved_at = some now }

-- `mark_succeeded_if_already_purchased`
unfoldable pub mark_succeeded_if_already_purchased : ℕ → PaymentIntent → Tx ShopDb Bool
mark_succeeded_if_already_purchased now i = do
  owned ← gets (λ t. already_owned t i)
  if not owned then pure false else do
    modify (λ t. record t {
      intents = update (by_intent_id i.intent_id) (set_superseded now) t.intents;
    })
    pure true
