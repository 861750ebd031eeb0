-- ===== src/Access/Grant.antt =====
-- The rules of access written out case by case, and the queries read as facts about rows.
use movie_api.Shared.{
  ℕ, ◌<◌, ◌≡◌, ◌≢◌, ◌↔◌, ◌⊎◌, inl, inr, String, Bool, true, ◌&&◌, Option, none, some, List, [], ◌∷◌,
  arith, ◌==◌, first, exists, In, In-first, first-true, eq_iff, Option-cases, opt_eq,
}
use movie_api.Models.{User}
use movie_api.Shop.{
  single, episode, Content, Purchase, SeriesPurchase, active, Subscription, ShopDb,
}
use movie_api.Access.{
  runs_for, guest_eq, user_has_active_subscription, is_free_today, user_bought, guest_bought,
  user_series_purchase, guest_series_purchase,
}

-- A query finds a row exactly if a row of the table passes its test.
first_of_In :
    {A : Type 0} (p : A → Bool) (x : A) (xs : List A) → p x ≡ true → In x xs → exists p xs ≡ true
first_of_In p x [] e i = absurd i
first_of_In p x (y ∷ xs) e i = ground (arith, first_of_In p x xs e)

pub exists_iff :
    {A : Type 0} (p : A → Bool) (xs : List A)
    → (exists p xs ≡ true) ↔ ((x : A) × In x xs × (p x ≡ true))
exists_iff p xs = (
  λ e. elim (Option-cases (first p xs)) [
    | inl missing ↦ absurd (ground arith)
    | inr (x, found) ↦ (x, In-first p xs found, first-true p xs found)
  ],
  λ w. first_of_In p w.0 xs w.2 w.1,
)

-- A subscription of the user runs at this instant.
abbrev pub Subscribed : ℕ → ShopDb → ℕ → Type 0
Subscribed now t user_id =
    (r : Subscription) × In r t.subscriptions
    × (r.user_id ≡ user_id)
    × (r.status ≡ active)
    × (now < r.current_period_end)

abbrev pub UserBought : ShopDb → ℕ → ℕ → Type 0
UserBought t user_id content_id =
    (r : Purchase) × In r t.purchases × (r.user_id ≡ some user_id) × (r.content_id ≡ content_id)

abbrev pub GuestBought : ShopDb → String → ℕ → Type 0
GuestBought t guest content_id =
    (r : Purchase) × In r t.purchases × (r.guest_id ≡ some guest) × (r.content_id ≡ content_id)

abbrev pub UserUnlocked : ShopDb → ℕ → ℕ → Type 0
UserUnlocked t user_id series_id =
    (r : SeriesPurchase) × In r t.series_purchases
    × (r.user_id ≡ some user_id)
    × (r.series_id ≡ series_id)

abbrev pub GuestUnlocked : ShopDb → String → ℕ → Type 0
GuestUnlocked t guest series_id =
    (r : SeriesPurchase) × In r t.series_purchases
    × (r.guest_id ≡ some guest)
    × (r.series_id ≡ series_id)

-- What entitles a viewer to a published title that is not free as such.
-- An episode must belong to a series.
abbrev pub HasPlace : Content → Type 0
HasPlace c = c.type ≡ episode → c.series_id ≢ none

pub data Grant (now : ℕ) (t : ShopDb) (c : Content) : Option User → Option String → Type 0 where
  free_movie :
      {user : Option User} {guest : Option String}
      → c.type ≡ single
      → (c.price_usd ≡ none) ⊎ (c.price_usd ≡ some 0)
      → Grant now t c user guest
  listed_today :
      {user : Option User} {guest : Option String}
      → c.type ≡ single
      → is_free_today t c.id ≡ true
      → Grant now t c user guest
  subscribed :
      {guest : Option String} (u : User)
      → Subscribed now t u.id
      → HasPlace c
      → Grant now t c (some u) guest
  bought :
      {guest : Option String} (u : User)
      → c.type ≡ single
      → UserBought t u.id c.id
      → Grant now t c (some u) guest
  bought_as_guest :
      (guest : String)
      → guest ≢ ""
      → c.type ≡ single
      → GuestBought t guest c.id
      → Grant now t c none (some guest)
  unlocked :
      {guest : Option String} (u : User) (series_id : ℕ)
      → c.type ≡ episode
      → c.series_id ≡ some series_id
      → UserUnlocked t u.id series_id
      → Grant now t c (some u) guest
  unlocked_as_guest :
      (guest : String) (series_id : ℕ)
      → guest ≢ ""
      → c.type ≡ episode
      → c.series_id ≡ some series_id
      → GuestUnlocked t guest series_id
      → Grant now t c none (some guest)

-- The tests of the queries, read as facts about rows.
pub Subscribed-iff :
    (now : ℕ) (t : ShopDb) (user_id : ℕ)
    → (user_has_active_subscription now t user_id ≡ true) ↔ Subscribed now t user_id
unfolding user_has_active_subscription
Subscribed-iff now t user_id =
    let (left, right) = exists_iff (runs_for now user_id) t.subscriptions in
    (
      λ e. let (r, i, p) = left e in (r, i, ground arith, ground arith, ground arith),
      λ w. right (w.0, w.1, ground arith),
    )

pub user_bought_iff :
    (t : ShopDb) (user_id content_id : ℕ)
    → (user_bought t user_id content_id ≡ true) ↔ UserBought t user_id content_id
user_bought_iff t user_id content_id =
    let (left, right) =
      exists_iff (λ (r : Purchase). opt_eq r.user_id user_id && r.content_id == content_id)
        t.purchases in
    (
      λ e. let (r, i, p) = left e in (r, i, ground arith, ground arith),
      λ w. right (w.0, w.1, ground arith),
    )

guest_eq_iff :
    (column : Option String) (guest : String)
    → (guest_eq column guest ≡ true) ↔ (column ≡ some guest)
guest_eq_iff none guest = (λ e. cc, λ e. cc)
guest_eq_iff (some g) guest =
    (λ e. ground (arith, eq_iff g guest), λ e. ground (arith, eq_iff g guest))

pub guest_bought_iff :
    (t : ShopDb) (guest : String) (content_id : ℕ)
    → (guest_bought t guest content_id ≡ true) ↔ GuestBought t guest content_id
guest_bought_iff t guest content_id =
    let (left, right) =
      exists_iff (λ (r : Purchase). guest_eq r.guest_id guest && r.content_id == content_id)
        t.purchases in
    (
      λ e.
          let (r, i, p) = left e in
          (r, i, (guest_eq_iff r.guest_id guest).0 (ground arith), ground arith),
      λ w. right (w.0, w.1, ground (arith, guest_eq_iff w.0.guest_id guest)),
    )

pub UserUnlocked-iff :
    (t : ShopDb) (user_id series_id : ℕ)
    → (user_series_purchase t series_id user_id ≡ true) ↔ UserUnlocked t user_id series_id
unfolding user_series_purchase
UserUnlocked-iff t user_id series_id =
    let (left, right) =
      exists_iff (λ (r : SeriesPurchase). opt_eq r.user_id user_id && r.series_id == series_id)
        t.series_purchases in
    (
      λ e. let (r, i, p) = left e in (r, i, ground arith, ground arith),
      λ w. right (w.0, w.1, ground arith),
    )

pub GuestUnlocked-iff :
    (t : ShopDb) (guest : String) (series_id : ℕ)
    → (guest_series_purchase t series_id guest ≡ true) ↔ GuestUnlocked t guest series_id
unfolding guest_series_purchase
GuestUnlocked-iff t guest series_id =
    let (left, right) =
      exists_iff (λ (r : SeriesPurchase). guest_eq r.guest_id guest && r.series_id == series_id)
        t.series_purchases in
    (
      λ e.
          let (r, i, p) = left e in
          (r, i, (guest_eq_iff r.guest_id guest).0 (ground arith), ground arith),
      λ w. right (w.0, w.1, ground (arith, guest_eq_iff w.0.guest_id guest)),
    )
