-- ===== src/Shop.antt =====
-- The rows of the catalog's and the shop's tables (app/models/content.py, purchase.py,
-- series_purchase.py, subscription.py, subscription_payment.py, subscription_plan.py,
-- payment_intent.py, home_section.py, free_today_item.py, tv_channel.py), with the columns that the
-- modelled code reads or writes. Where a check constraint of the migrations lists the values of a
-- text column, the column is a data type. An amount of money is a number of cents.
use movie_api.Shared.{ℕ, String, Bool, Option, List}
use movie_api.Models.{User}

-- `content_type_check`
pub data ContentType : Type 0 where
  single episode podcast : ContentType

pub record Content : Type 0 where
  pub id : ℕ
  pub type : ContentType
  pub series_id : Option ℕ
  pub price_usd : Option ℕ
  pub is_published : Bool
  pub is_free : Bool

pub record TvChannel : Type 0 where
  pub id : ℕ
  pub is_free : Bool

pub record Purchase : Type 0 where
  pub user_id : Option ℕ
  pub guest_id : Option String
  pub content_id : ℕ
  pub intent_id : String
  pub order_id : String
  pub bank : Option String
  pub amount_usd : ℕ

pub record SeriesPurchase : Type 0 where
  pub user_id : Option ℕ
  pub guest_id : Option String
  pub series_id : ℕ
  pub intent_id : String
  pub order_id : String
  pub bank : Option String
  pub amount_usd : ℕ

-- The check constraint has the first three; app/services/tv_access_codes.py writes the fourth.
pub data SubscriptionStatus : Type 0 where
  active grace expired cancelled : SubscriptionStatus

pub record Subscription : Type 0 where
  pub id : ℕ
  pub user_id : ℕ
  pub plan : String
  pub status : SubscriptionStatus
  pub current_period_start : ℕ
  pub current_period_end : ℕ

pub record SubscriptionPayment : Type 0 where
  pub subscription_id : ℕ
  pub intent_id : String
  pub order_id : String
  pub bank : Option String
  pub amount_usd : ℕ
  pub period_extended_to : ℕ

pub record SubscriptionPlan : Type 0 where
  pub code : String
  pub price_usd : ℕ
  pub billing_interval_days : ℕ
  pub is_active : Bool
  pub sort_order : ℕ
  pub created_at : ℕ

-- `payment_intents_kind_check`; `movie` is the kind 'single'
pub data Kind : Type 0 where
  movie sub series : Kind

-- `payment_intents_status_check`
pub data IntentStatus : Type 0 where
  pending succeeded failed expired superseded : IntentStatus

pub data Method : Type 0 where
  baray bakong : Method

pub record PaymentIntent : Type 0 where
  pub intent_id : String
  pub order_id : String
  pub user_id : Option ℕ
  pub guest_id : Option String
  pub method : Method
  pub bakong_md5 : Option String
  pub bakong_prev_md5 : Option String
  pub bakong_qr : Option String
  pub bakong_merchant_name : Option String
  pub bakong_qr_created_at : Option ℕ
  pub kind : Kind
  pub content_id : Option ℕ
  pub series_id : Option ℕ
  pub plan_code : Option String
  pub plan_interval_days : Option ℕ
  pub amount_usd : ℕ
  pub status : IntentStatus
  pub created_at : ℕ
  pub resolved_at : Option ℕ

pub data SectionType : Type 0 where
  free_today other_section : SectionType

pub record HomeSection : Type 0 where
  pub id : ℕ
  pub type : SectionType
  pub is_visible : Bool

-- `is_movie` stands for `item_kind == "movie"`
pub record HomeSectionItem : Type 0 where
  pub section_id : ℕ
  pub is_movie : Bool
  pub ref_id : ℕ

pub record FreeTodayItem : Type 0 where
  pub content_id : ℕ

-- An alert of `queue_telegram_alert`, by the intent that it announces; it is delivered when the
-- session commits.
pub record Alert : Type 0 where
  pub intent_id : String
  pub bank : Option String

pub record ShopDb : Type 0 where
  pub users : List User
  pub contents : List Content
  pub purchases : List Purchase
  pub series_purchases : List SeriesPurchase
  pub subscriptions : List Subscription
  pub subscription_payments : List SubscriptionPayment
  pub plans : List SubscriptionPlan
  pub intents : List PaymentIntent
  pub home_sections : List HomeSection
  pub home_section_items : List HomeSectionItem
  pub free_today_items : List FreeTodayItem
  pub alerts : List Alert
