-- ===== src/Tests/Accounts.antt =====
-- Sign-ins by password and by Google, and a password reset, at concrete inputs.
use movie_api.Shared.{
  ◌≡◌, In, ◌≢◌, refl, String, Bool, true, false, ◌||◌, none, some, [], ◌∷◌, first, count, run, ok,
  err, eq_iff, inl, inr, lower,
}
use movie_api.Models.{User, Stamp}
use movie_api.Shop.{Purchase, PaymentIntent}
use movie_api.Tokens.{create_access_token}
use movie_api.Session.{by_user_id, create_session, revoke_all_user_sessions}
use movie_api.DeviceLabel.{device_label_from_user_agent}
use movie_api.Access.{user_bought, guest_bought, user_series_purchase, guest_series_purchase}
use movie_api.Billing.Checkout.Create.{integrity_error}
use movie_api.Devices.TvAccess.Login.{open_for}
use movie_api.Accounts.{
  AccountDb, PasswordResetToken, authenticate_user, check_password, open_session,
  claim_guest_purchases, duplicate_pending,
}
use movie_api.Accounts.Claims.{sign_in_claims}
use movie_api.Accounts.Collisions.{double_checkout_bars_login}
use movie_api.Accounts.Providers.{GoogleClaims, authenticate_google, link_google, finish}
use movie_api.Accounts.Identity.{google_identity}
use movie_api.Accounts.Resets.{reset_password, find_reset, reset_error}
use movie_api.Accounts.Single.{reset_once}
use movie_api.Tests.Access.{shop, buyer, movie_intent}
use movie_api.Tests.Session.{plain_jwt, settings, phone}

abbrev pub plain_hash : String → String
plain_hash x = x

abbrev checks_out : String → String → Bool
checks_out password password_hash = true

abbrev guest_purchase : Purchase
guest_purchase = record {
  user_id = none;
  guest_id = some "g9";
  content_id = 200;
  intent_id = "bkg-7";
  order_id = "movie-7";
  bank = none;
  amount_usd = 299;
}

abbrev reset_link : PasswordResetToken
reset_link = record { user_id = 7; token_hash = "link-1"; expires_at = 90; used_at = none }

abbrev pub accounts : AccountDb
accounts = record {
  shop = record shop { purchases = guest_purchase ∷ [] };
  sessions = phone ∷ [];
  resets = reset_link ∷ [];
  nonces = [];
}

abbrev pub signing_stamp : Stamp
signing_stamp = record { id = 5; created_at = 50 }

signs_in :
    (run
      (authenticate_user plain_jwt checks_out settings 50 signing_stamp 50 "A@x" "secret" none
        (some "g9"))
      accounts).0
    ≡ ok (buyer, create_access_token plain_jwt settings 50 7 "user" 5 0)
unfolding authenticate_user check_password open_session claim_guest_purchases duplicate_pending
    create_session device_label_from_user_agent lower
signs_in = refl

sign_in_claims_example :
    let signed =
      run
        (authenticate_user plain_jwt checks_out settings 50 signing_stamp 50 "A@x" "secret" none
          (some "g9"))
        accounts in
    (user_bought signed.1.shop 7 200
      ≡ (user_bought accounts.shop 7 200 || guest_bought accounts.shop "g9" 200))
    × (user_series_purchase signed.1.shop 50 7
        ≡ (user_series_purchase accounts.shop 50 7 || guest_series_purchase accounts.shop 50 "g9"))
    × (guest_bought signed.1.shop "g9" 200 ≡ false)
sign_in_claims_example =
    sign_in_claims plain_jwt settings 50 signing_stamp 50 none "g9" checks_out "A@x" "secret"
      accounts buyer (create_access_token plain_jwt settings 50 7 "user" 5 0) 200 50 refl signs_in

-- The user and the guest are both about to pay for movie 100.
abbrev own_pending : PaymentIntent
own_pending = record movie_intent { guest_id = none }

abbrev guest_pending : PaymentIntent
guest_pending = record movie_intent {
  intent_id = "bkg-9";
  order_id = "movie-9";
  user_id = none;
  guest_id = some "g9";
  bakong_md5 = some "md5-9";
}

abbrev doubled : AccountDb
doubled = record accounts { shop = record shop { intents = own_pending ∷ guest_pending ∷ [] } }

other_intent : ◌≢◌ {A = String} "bkg-1" "bkg-9"
other_intent e = cc ((eq_iff "bkg-1" "bkg-9").1 e)

password_fits : (run (check_password checks_out "A@x" "secret") doubled).0 ≡ ok buyer
unfolding check_password lower
password_fits = refl

double_checkout_bars_login_example :
    run
      (authenticate_user plain_jwt checks_out settings 50 signing_stamp 50 "A@x" "secret" none
        (some "g9"))
      doubled
    ≡ (err integrity_error, doubled)
double_checkout_bars_login_example =
    double_checkout_bars_login plain_jwt checks_out settings 50 signing_stamp 50 "A@x" "secret" none
      "g9" doubled buyer 100 own_pending guest_pending password_fits refl (inl refl)
      (inr (inl refl)) other_intent refl refl

abbrev google_claims : GoogleClaims
google_claims = record {
  sub = some "g-1";
  email = some "new@x";
  email_verified = true;
  name = some "New";
  given_name = none;
  picture = none;
}

abbrev newcomer : User
newcomer = record {
  id = 12;
  email = "new@x";
  password_hash = none;
  google_id = some "g-1";
  telegram_id = none;
  apple_id = none;
  avatar_url = none;
  full_name = some "New";
  role = "user";
  is_active = true;
}

google_signs_in :
    (run
      (authenticate_google plain_jwt settings 50 signing_stamp 50 12 none none (ok google_claims))
      accounts).0
    ≡ ok (newcomer, create_access_token plain_jwt settings 50 12 "user" 5 0)
unfolding authenticate_google link_google finish open_session claim_guest_purchases create_session
    device_label_from_user_agent lower
google_signs_in = refl

google_identity_example :
    (google_sub : String) × (google_claims.sub ≡ some google_sub)
    × (google_claims.email_verified ≡ true)
    × (newcomer.google_id ≡ some google_sub)
    × (newcomer.is_active ≡ true)
    × In newcomer
        (run
          (authenticate_google plain_jwt settings 50 signing_stamp 50 12 none none
            (ok google_claims))
          accounts).1.shop.users
google_identity_example =
    google_identity plain_jwt settings 50 signing_stamp 50 12 none none google_claims accounts
      newcomer (create_access_token plain_jwt settings 50 12 "user" 5 0) google_signs_in

resets_password :
    (run (reset_password plain_hash plain_hash 60 "link-1" "better") accounts).0 ≡ ok tt
unfolding reset_password find_reset revoke_all_user_sessions
resets_password = refl

reset_once_example :
    let t' = (run (reset_password plain_hash plain_hash 60 "link-1" "better") accounts).1 in
    (count (open_for 7) t'.sessions ≡ 0)
    × ((user : User) × (first (by_user_id 7) t'.shop.users ≡ some user)
        × (user.password_hash ≡ some "better"))
    × (run (reset_password plain_hash plain_hash 70 "link-1" "worse") t' ≡ (err reset_error, t'))
reset_once_example =
    reset_once plain_hash plain_hash 60 70 "link-1" "better" "worse" accounts reset_link refl
      resets_password
