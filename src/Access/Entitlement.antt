-- ===== src/Access/Entitlement.antt =====
-- The code decides the written rules of access.
use movie_api.Shared.{
  ℕ, ◌≡◌, ◌↔◌, ◌⊎◌, inl, inr, refl, subst, String, Bool, true, false, not, Option, none, some,
  arith, str_eq, eq_iff, Option-cases, Bool-cases, if◌then◌else◌,
}
use movie_api.Models.{User}
use movie_api.Shop.{ContentType, single, episode, podcast, Content, ShopDb}
use movie_api.Access.{
  user_has_active_subscription, has_series_purchase, is_free_today, can_access_content, user_bought,
  guest_bought, movie_is_free, access_single, access_episode, access_podcast, admin_user,
}
use movie_api.Access.Grant.{
  Grant, free_movie, listed_today, subscribed, bought, bought_as_guest, unlocked, unlocked_as_guest,
  Subscribed-iff, user_bought_iff, guest_bought_iff, UserUnlocked-iff, GuestUnlocked-iff,
}

abbrev pub IsAdmin : Option User → Type 0
IsAdmin user = (u : User) × (user ≡ some u) × (u.role ≡ "admin")

admin_user_iff : (user : Option User) → (admin_user user ≡ true) ↔ IsAdmin user
unfolding admin_user
admin_user_iff none = (λ e. cc, λ w. absurd (cc w.1))
admin_user_iff (some u) =
    (λ e. (u, refl, (eq_iff u.role "admin").0 e), λ w. ground (arith, eq_iff u.role "admin"))

module _ (now : ℕ) (t : ShopDb) (c : Content) where
  movie_is_free-Grant :
      (user : Option User) (guest : Option String)
      → c.type ≡ single
      → c.is_free ≡ false
      → movie_is_free c ≡ true
      → Grant now t c user guest
  unfolding movie_is_free
  movie_is_free-Grant user guest ty paid e = elim (Option-cases c.price_usd) [
    | inl unpriced ↦ free_movie ty (inl unpriced)
    | inr (p, priced) ↦
        let zero_price : p ≡ 0 = ground arith in
        free_movie ty (inr (subst (λ n. c.price_usd ≡ some n) zero_price priced))
  ]

  single-Grant :
      (user : Option User) (guest : Option String)
      → c.type ≡ single
      → c.is_free ≡ false
      → access_single now t user guest c none ≡ true
      → Grant now t c user guest
  unfolding access_single
  single-Grant user guest ty paid e = elim (Bool-cases (movie_is_free c)) [
    | inl free ↦ movie_is_free-Grant user guest ty paid free
    | inr priced ↦ elim (Bool-cases (is_free_today t c.id)) [
      | inl listed ↦ listed_today ty listed
      | inr unlisted ↦ paid_single user guest (ground arith)
    ]
  ]
    where
      paid_single :
          (user : Option User) (guest : Option String)
          → (elim user [
            | some u ↦
                if user_has_active_subscription now t u.id then true else user_bought t u.id c.id
            | none ↦ elim guest [
              | none ↦ false
              | some g ↦ if str_eq g "" then false else guest_bought t g c.id
            ]
          ])
            ≡ true
          → Grant now t c user guest
      paid_single (some u) guest e = elim (Bool-cases (user_has_active_subscription now t u.id)) [
        | inl runs ↦ subscribed u ((Subscribed-iff now t u.id).0 runs) (λ ep. absurd (ground arith))
        | inr lapsed ↦ bought u ty ((user_bought_iff t u.id c.id).0 (ground arith))
      ]
      paid_single none none e = absurd (cc)
      paid_single none (some g) e = elim (Bool-cases (str_eq g "")) [
        | inl empty ↦ absurd (ground arith)
        | inr named ↦
            bought_as_guest g (λ same. ground (arith, eq_iff g "")) ty
              ((guest_bought_iff t g c.id).0 (ground arith))
      ]

  episode-Grant :
      (user : Option User) (guest : Option String)
      → c.type ≡ episode
      → access_episode now t user guest c ≡ true
      → Grant now t c user guest
  unfolding access_episode has_series_purchase
  episode-Grant user guest ty e = elim (Option-cases c.series_id) [
    | inl homeless ↦ absurd (ground arith)
    | inr (series_id, placed) ↦ in_series user guest series_id placed (ground arith)
  ]
    where
      in_series :
          (user : Option User) (guest : Option String) (series_id : ℕ)
          → c.series_id ≡ some series_id
          → (elim user [
            | some u ↦
                if user_has_active_subscription now t u.id
                then true
                else has_series_purchase t series_id (some u.id) none
            | none ↦ has_series_purchase t series_id none guest
          ])
            ≡ true
          → Grant now t c user guest
      in_series (some u) guest series_id placed e =
          elim (Bool-cases (user_has_active_subscription now t u.id)) [
            | inl runs ↦
                subscribed u ((Subscribed-iff now t u.id).0 runs) (λ ep homeless. ground arith)
            | inr lapsed ↦
                unlocked u series_id ty placed
                  ((UserUnlocked-iff t u.id series_id).0 (ground arith))
          ]
      in_series none none series_id placed e = absurd (cc)
      in_series none (some g) series_id placed e = elim (Bool-cases (str_eq g "")) [
        | inl empty ↦ absurd (ground arith)
        | inr named ↦
            unlocked_as_guest g series_id (λ same. ground (arith, eq_iff g "")) ty placed
              ((GuestUnlocked-iff t g series_id).0 (ground arith))
      ]

  podcast-Grant :
      (user : Option User) (guest : Option String)
      → c.type ≡ podcast
      → access_podcast now t user ≡ true
      → Grant now t c user guest
  unfolding access_podcast
  podcast-Grant none guest ty e = absurd (cc)
  podcast-Grant (some u) guest ty e =
      subscribed u ((Subscribed-iff now t u.id).0 e) (λ ep. absurd (ground arith))

  -- What the branch of the title's type decides.
  by_type : Option User → Option String → ContentType → Bool
  by_type user guest single = access_single now t user guest c none
  by_type user guest episode = access_episode now t user guest c
  by_type user guest podcast = access_podcast now t user

  Grant-by_type :
      {user : Option User} {guest : Option String}
      → c.is_free ≡ false
      → Grant now t c user guest
      → by_type user guest c.type ≡ true
  unfolding by_type access_single access_episode access_podcast has_series_purchase movie_is_free
  Grant-by_type paid (free_movie ty (inl e)) = ground arith
  Grant-by_type paid (free_movie ty (inr e)) = ground arith
  Grant-by_type paid (listed_today ty e) = ground arith
  Grant-by_type paid (subscribed u s place) = elim (Option-cases c.series_id) [
    | inl homeless ↦
        ground (arith, (Subscribed-iff now t u.id).1 s, λ (e : c.type ≡ episode). place e homeless)
    | inr (series_id, placed) ↦ ground (arith, (Subscribed-iff now t u.id).1 s)
  ]
  Grant-by_type paid (bought u ty b) = ground (arith, (user_bought_iff t u.id c.id).1 b)
  Grant-by_type paid (bought_as_guest g named ty b) =
      ground (arith, (guest_bought_iff t g c.id).1 b, eq_iff g "")
  Grant-by_type paid (unlocked u series_id ty placed b) =
      ground (arith, (UserUnlocked-iff t u.id series_id).1 b)
  Grant-by_type paid (unlocked_as_guest g series_id named ty placed b) =
      ground (arith, (GuestUnlocked-iff t g series_id).1 b, eq_iff g "")

  by_type-Grant :
      (user : Option User) (guest : Option String) (ty : ContentType)
      → c.type ≡ ty
      → c.is_free ≡ false
      → by_type user guest ty ≡ true
      → Grant now t c user guest
  unfolding by_type
  by_type-Grant user guest single ty paid e = single-Grant user guest ty paid e
  by_type-Grant user guest episode ty paid e = episode-Grant user guest ty e
  by_type-Grant user guest podcast ty paid e = podcast-Grant user guest ty e

  can_access_content_split :
      (user : Option User) (guest : Option String)
      → can_access_content now t user guest c none ≡ (
          if admin_user user
          then true
          else if not c.is_published
          then false
          else if c.is_free
          then true
          else by_type user guest c.type)
  unfolding can_access_content by_type
  can_access_content_split user guest = ground arith

-- A viewer may watch a title exactly if they are an admin, or the title is published and is free as
-- such or granted to them: a movie without a price, listed as free today or bought, a subscription
-- that runs (for an episode only one of a series), or the unlocked series of an episode.
pub can_access_content_iff :
    (now : ℕ) (t : ShopDb) (c : Content) (user : Option User) (guest : Option String)
    → (can_access_content now t user guest c none ≡ true)
      ↔ (IsAdmin user ⊎ (c.is_published ≡ true) × ((c.is_free ≡ true) ⊎ Grant now t c user guest))
can_access_content_iff now t c user guest =
    let split = can_access_content_split now t c user guest in
    let (to_admin, of_admin) = admin_user_iff user in
    (
      λ e. elim (Bool-cases (admin_user user)) [
        | inl admin ↦ inl (to_admin admin)
        | inr plain ↦ elim (Bool-cases c.is_free) [
          | inl free ↦ inr (ground arith, inl free)
          | inr paid ↦
              inr (
                ground arith,
                inr (by_type-Grant now t c user guest c.type refl paid (ground arith)),
              )
        ]
      ],
      λ w. elim w [
        | inl admin ↦ ground (arith, of_admin admin)
        | inr (out, inl free) ↦ ground arith
        | inr (out, inr grant) ↦ elim (Bool-cases c.is_free) [
          | inl free ↦ ground arith
          | inr paid ↦ ground (arith, Grant-by_type now t c paid grant)
        ]
      ],
    )
