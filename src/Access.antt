-- ===== src/Access.antt =====
-- app/services/content_access.py: who may watch what, with the list of free movies
-- (app/catalog/free_today.py, app/catalog/home_sections.py). Every handler only reads.
pub mod Grant
pub mod Entitlement
use movie_api.Shared.{
  ℕ, String, Bool, true, false, not, ◌&&◌, ◌||◌, Option, none, some, List, ltb, leb, ◌==◌,
  if◌then◌else◌, exists, first, str_eq, opt_eq, Tx, gets, or_raise, raise_if, pure, ◌>>=◌, ◌>>◌,
  not_found, forbidden, fixed,
}
use movie_api.Models.{User}
use movie_api.Shop.{
  ContentType, single, episode, podcast, Content, TvChannel, Purchase, SeriesPurchase,
  SubscriptionStatus, active, Subscription, SectionType, free_today, other_section, HomeSection,
  HomeSectionItem, FreeTodayItem, ShopDb,
}

-- `user.role == "admin"`
abbrev pub is_admin : User → Bool
is_admin u = str_eq u.role "admin"

abbrev pub is_active_status : SubscriptionStatus → Bool
is_active_status active = true
is_active_status _ = false

-- The `where` of `user_has_active_subscription`.
abbrev pub runs_for : ℕ → ℕ → Subscription → Bool
runs_for now user_id r =
    r.user_id == user_id && is_active_status r.status && ltb now r.current_period_end

-- `user_has_active_subscription`
unfoldable pub user_has_active_subscription : ℕ → ShopDb → ℕ → Bool
user_has_active_subscription now t user_id = exists (runs_for now user_id) t.subscriptions

-- `column == guest_id` for a column that may be null
abbrev pub guest_eq : Option String → String → Bool
guest_eq none guest = false
guest_eq (some g) guest = str_eq g guest

-- `has_series_purchase`, by whom it is asked for
unfoldable pub user_series_purchase : ShopDb → ℕ → ℕ → Bool
user_series_purchase t series_id user_id =
    exists (λ (r : SeriesPurchase). opt_eq r.user_id user_id && r.series_id == series_id)
      t.series_purchases

unfoldable pub guest_series_purchase : ShopDb → ℕ → String → Bool
guest_series_purchase t series_id guest =
    exists (λ (r : SeriesPurchase). guest_eq r.guest_id guest && r.series_id == series_id)
      t.series_purchases

-- `has_series_purchase`; an empty guest id counts as none
unfoldable pub has_series_purchase : ShopDb → ℕ → Option ℕ → Option String → Bool
unfolding user_series_purchase guest_series_purchase
has_series_purchase t series_id (some user_id) guest_id = user_series_purchase t series_id user_id
has_series_purchase t series_id none none = false
has_series_purchase t series_id none (some guest) =
    if str_eq guest "" then false else guest_series_purchase t series_id guest

-- `_movie_is_free`: `price_usd <= 0` for an amount that is never negative
unfoldable pub movie_is_free : Content → Bool
movie_is_free c = if c.is_free then true else elim c.price_usd [ none ↦ true | some p ↦ leb p 0 ]

abbrev is_free_section : HomeSection → Bool
is_free_section s = elim s.type [ free_today ↦ s.is_visible | other_section ↦ false ]

-- `free_today_content_ids_from_sections`: whether a title is among them
unfoldable pub listed_on_home : ShopDb → ℕ → Bool
listed_on_home t content_id =
    exists
      (λ (i : HomeSectionItem).
        i.is_movie
        && i.ref_id == content_id
        && exists (λ (s : HomeSection). s.id == i.section_id && is_free_section s) t.home_sections)
      t.home_section_items

-- `free_today.is_free_today`
unfoldable pub is_free_today : ShopDb → ℕ → Bool
unfolding listed_on_home
is_free_today t content_id =
    if listed_on_home t content_id
    then true
    else exists (λ (i : FreeTodayItem). i.content_id == content_id) t.free_today_items

abbrev pub user_bought : ShopDb → ℕ → ℕ → Bool
user_bought t user_id content_id =
    exists (λ (r : Purchase). opt_eq r.user_id user_id && r.content_id == content_id) t.purchases

abbrev pub guest_bought : ShopDb → String → ℕ → Bool
guest_bought t guest content_id =
    exists (λ (r : Purchase). guest_eq r.guest_id guest && r.content_id == content_id) t.purchases

-- The branch `content.type == "single"`.
access_single : ℕ → ShopDb → Option User → Option String → Content → Option Bool → Bool
access_single now t user guest_id c known =
    if movie_is_free c
    then true
    else if elim known [ none ↦ is_free_today t c.id | some b ↦ b ]
    then true
    else elim user [
      | some u ↦ if user_has_active_subscription now t u.id then true else user_bought t u.id c.id
      | none ↦ elim guest_id [
        | none ↦ false
        | some guest ↦ if str_eq guest "" then false else guest_bought t guest c.id
      ]
    ]

-- The branch `content.type == "episode"`.
access_episode : ℕ → ShopDb → Option User → Option String → Content → Bool
access_episode now t user guest_id c = elim c.series_id [
  | none ↦ false
  | some series_id ↦ elim user [
    | some u ↦
        if user_has_active_subscription now t u.id
        then true
        else has_series_purchase t series_id (some u.id) none
    | none ↦ has_series_purchase t series_id none guest_id
  ]
]

-- The branch `content.type == "podcast"`.
access_podcast : ℕ → ShopDb → Option User → Bool
access_podcast now t none = false
access_podcast now t (some u) = user_has_active_subscription now t u.id

admin_user : Option User → Bool
admin_user none = false
admin_user (some u) = is_admin u

-- `can_access_content`; `known` is the argument `is_free_today`
unfoldable pub can_access_content :
    ℕ → ShopDb → Option User → Option String → Content → Option Bool → Bool
unfolding access_single access_episode access_podcast admin_user
can_access_content now t user guest_id c known =
    if admin_user user
    then true
    else if not c.is_published
    then false
    else if c.is_free
    then true
    else elim c.type [
      | single ↦ access_single now t user guest_id c known
      | episode ↦ access_episode now t user guest_id c
      | podcast ↦ access_podcast now t user
    ]

-- `can_access_channel`
unfoldable pub can_access_channel : ℕ → ShopDb → Option User → TvChannel → Bool
unfolding admin_user access_podcast
can_access_channel now t user channel =
    if admin_user user then true else if channel.is_free then true else access_podcast now t user

-- `get_published_content_or_404`
unfoldable pub get_published_content_or_404 : ℕ → Option User → Tx ShopDb Content
unfolding admin_user
get_published_content_or_404 content_id user = do
  found ← gets (λ t. first (λ (c : Content). c.id == content_id) t.contents)
  content ← or_raise found (not_found (fixed "Content not found"))
  raise_if (not (admin_user user) && not content.is_published)
      (not_found (fixed "Content not found"))
  pure content

-- `assert_can_track_watch_progress`
unfoldable pub assert_can_track_watch_progress : ℕ → User → ℕ → Tx ShopDb Content
unfolding get_published_content_or_404
assert_can_track_watch_progress now user content_id = do
  content ← get_published_content_or_404 content_id (some user)
  allowed ← gets (λ t. can_access_content now t (some user) none content none)
  raise_if (not allowed) (forbidden (fixed "You do not have access to this title"))
  pure content
