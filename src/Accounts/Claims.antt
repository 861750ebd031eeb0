-- ===== src/Accounts/Claims.antt =====
-- claim_guest_purchases of app/services/guest.py, as the end of a sign-in: what a guest bought is the
-- user's from then on.
use movie_api.Shared.{
  ℕ, ◌≡◌, refl, sym, ap, ◌∙◌, String, Bool, false, ◌&&◌, ◌||◌, Option, some, List, [], ◌∷◌, ◌==◌,
  ==_refl, exists, update, str_eq, opt_eq, run, ok, Conn, Result-cases, Bool-cases, inl, inr, arith,
}
use movie_api.Models.{User, Settings, Stamp}
use movie_api.Shop.{Purchase, SeriesPurchase}
use movie_api.Tokens.{Jwt}
use movie_api.Session.{create_session}
use movie_api.Access.{
  guest_eq, user_bought, guest_bought, user_series_purchase, guest_series_purchase,
}
use movie_api.Accounts.{
  AccountDb, auth_of, own_purchase, own_series, claimed, duplicate_pending, claim_guest_purchases,
  open_session, check_password, authenticate_user,
}

module _ (user_id : ℕ) (guest : String) where
  bought_after :
      (content_id : ℕ) (rows : List Purchase)
      → exists
          (λ (r : Purchase). opt_eq r.user_id user_id && r.content_id == content_id)
          (update (λ (r : Purchase). guest_eq r.guest_id guest) (own_purchase user_id) rows)
        ≡ (exists (λ (r : Purchase). opt_eq r.user_id user_id && r.content_id == content_id) rows
            || exists
                (λ (r : Purchase). guest_eq r.guest_id guest && r.content_id == content_id)
                rows)
  bought_after content_id [] = refl
  bought_after content_id (r ∷ rows) = ground (arith, bought_after content_id rows, ==_refl user_id)

  unlocked_after :
      (series_id : ℕ) (rows : List SeriesPurchase)
      → exists
          (λ (r : SeriesPurchase). opt_eq r.user_id user_id && r.series_id == series_id)
          (update (λ (r : SeriesPurchase). guest_eq r.guest_id guest) (own_series user_id) rows)
        ≡ (exists
              (λ (r : SeriesPurchase). opt_eq r.user_id user_id && r.series_id == series_id)
              rows
            || exists
                (λ (r : SeriesPurchase). guest_eq r.guest_id guest && r.series_id == series_id)
                rows)
  unlocked_after series_id [] = refl
  unlocked_after series_id (r ∷ rows) =
      ground (arith, unlocked_after series_id rows, ==_refl user_id)

  none_left :
      (content_id : ℕ) (rows : List Purchase)
      → exists
          (λ (r : Purchase). guest_eq r.guest_id guest && r.content_id == content_id)
          (update (λ (r : Purchase). guest_eq r.guest_id guest) (own_purchase user_id) rows)
        ≡ false
  none_left content_id [] = refl
  none_left content_id (r ∷ rows) = ground (arith, none_left content_id rows)

pub check-still :
    (verify : String → String → Bool) (email password : String) (c : Conn AccountDb)
    → (check_password verify email password c).1 ≡ c
unfolding check_password
check-still verify email password c = ground arith

module _ (j : Jwt) (s : Settings) (now : ℕ) (stamp : Stamp) (issued_at : ℕ) (agent : Option String)
    (guest : String) where
  -- What a sign-in with the cookie of a guest stores of the shop, but for its users.
  opened :
      (user : User) (c : Conn AccountDb)
      → str_eq guest "" ≡ false
      → {answer : User × j.Token}
      → (open_session j s now stamp issued_at user agent (some guest) c).0 ≡ ok answer
      → ((open_session j s now stamp issued_at user agent (some guest) c).1.saved.shop.purchases
          ≡ (claimed user.id guest c.current.shop).purchases)
        × ((open_session j s now stamp issued_at user agent
              (some guest)
              c).1.saved.shop.series_purchases
            ≡ (claimed user.id guest c.current.shop).series_purchases)
  unfolding open_session claim_guest_purchases
  opened user c named e =
      elim (Bool-cases (duplicate_pending (claimed user.id guest c.current.shop).intents)) [
        | inl doubled ↦ absurd (ground arith)
        | inr apart ↦
            let auth = auth_of (record c.current { shop = claimed user.id guest c.current.shop }) in
            elim (Result-cases
              (create_session s now now stamp user.id agent
                (record { current = auth; saved = auth })).0) [
                  | inl (x, failed) ↦ absurd (ground arith)
                  | inr (session, signed) ↦ (ground arith, ground arith)
                ]
      ]

  answered_user :
      (user : User) (c : Conn AccountDb) {answer : User × j.Token}
      → (open_session j s now stamp issued_at user agent (some guest) c).0 ≡ ok answer
      → answer.0 ≡ user
  unfolding open_session
  answered_user user c e = ground arith

  -- A sign-in by password with the cookie of a guest that goes through hands the guest's purchases to
  -- the user: the user has bought exactly the movies, and unlocked exactly the series, that either had
  -- before, and the guest has bought no movie any more.
  pub sign_in_claims :
      (verify : String → String → Bool) (email password : String) (t : AccountDb) (user : User)
      (token : j.Token) (content_id series_id : ℕ)
      → str_eq guest "" ≡ false
      → let signed =
          run
            (authenticate_user j verify s now stamp issued_at email password agent (some guest))
            t in
        signed.0 ≡ ok (user, token)
        → (user_bought signed.1.shop user.id content_id
            ≡ (user_bought t.shop user.id content_id || guest_bought t.shop guest content_id))
          × (user_series_purchase signed.1.shop series_id user.id ≡ (
              user_series_purchase t.shop series_id user.id
              || guest_series_purchase t.shop series_id guest))
          × (guest_bought signed.1.shop guest content_id ≡ false)
  unfolding authenticate_user user_series_purchase guest_series_purchase
  sign_in_claims verify email password t user token content_id series_id named e =
      let c : Conn AccountDb = record { current = t; saved = t } in
      let still = check-still verify email password c in
      elim (Result-cases (check_password verify email password c).0) [
        | inl (x, refused) ↦ absurd (ground arith)
        | inr (found, known) ↦
            let done : (open_session j s now stamp issued_at found agent (some guest) c).0
                ≡ ok (user, token) =
              ground arith in
            let same = answered_user found c done in
            let stored = opened found c named done in
            let left : (run
                  (authenticate_user j verify s now stamp issued_at email password agent
                    (some guest))
                  t).1
                ≡ (open_session j s now stamp issued_at found agent (some guest) c).1.saved =
              ground arith in
            let bought = ap (λ (u : AccountDb). u.shop.purchases) left ∙ stored.0 in
            let unlocked = ap (λ (u : AccountDb). u.shop.series_purchases) left ∙ stored.1 in
            let id : found.id ≡ user.id = ap (λ (u : User). u.id) (sym same) in
            (
              ap
                    (λ rows.
                      exists
                        (λ (r : Purchase). opt_eq r.user_id user.id && r.content_id == content_id)
                        rows)
                    (bought
                      ∙ ap
                          (λ k.
                            update (λ (r : Purchase). guest_eq r.guest_id guest) (own_purchase k)
                              t.shop.purchases)
                          id)
                  ∙ bought_after user.id guest content_id t.shop.purchases,
              ap
                    (λ rows.
                      exists
                        (λ (r : SeriesPurchase).
                          opt_eq r.user_id user.id && r.series_id == series_id)
                        rows)
                    (unlocked
                      ∙ ap
                          (λ k.
                            update (λ (r : SeriesPurchase). guest_eq r.guest_id guest)
                              (own_series k) t.shop.series_purchases)
                          id)
                  ∙ unlocked_after user.id guest series_id t.shop.series_purchases,
              ap
                    (λ rows.
                      exists
                        (λ (r : Purchase). guest_eq r.guest_id guest && r.content_id == content_id)
                        rows)
                    bought
                  ∙ none_left found.id guest content_id t.shop.purchases,
            )
      ]
