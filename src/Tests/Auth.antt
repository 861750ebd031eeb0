-- ===== src/Tests/Auth.antt =====
-- Requests that carry a token, over the tables of the session tests.
use movie_api.Shared.{ℕ, ◌≡◌, ◌↔◌, ◌+◌, refl, none, some, arith, run, ok, err, minutes}
use movie_api.Models.{Session}
use movie_api.Tokens.{Payload, number, create_access_token}
use movie_api.DeviceLabel.{device_label_from_user_agent}
use movie_api.Session.{create_session, revoke_session, revoked_error}
use movie_api.Session.Limit.{sign_in}
use movie_api.Auth.{get_current_user}
use movie_api.Auth.Acceptance.{Live, ActiveUser, get_current_user-ok, sign_in-accepted}
use movie_api.Auth.Revoked.{revoked-refused}
use movie_api.Tests.Session.{plain_jwt, settings, alice, store}

-- The payload of a token of the phone.
abbrev phone_payload : Payload
phone_payload = record {
  sub = some 7;
  role = some "user";
  sid = some 1;
  ver = number 3;
  scope = none;
  exp = minutes 60;
}

get_current_user-ok_example :
    ((run (get_current_user plain_jwt 50 50 phone_payload) store).0 ≡ ok alice) ↔ (
      (p : Payload) × (user_id : ℕ) × (session_id : ℕ) × (plain_jwt.decode_at 50 phone_payload
        ≡ some p)
      × (p.sub ≡ some user_id)
      × (p.sid ≡ some session_id)
      × Live 50 session_id store
      × ActiveUser store user_id alice)
get_current_user-ok_example =
    get_current_user-ok plain_jwt 50 50 phone_payload store alice (refl, (refl, tt))

abbrev laptop : Session
laptop = record {
  id = 5;
  user_id = 7;
  device_label = "Unknown device";
  created_at = 50;
  expires_at = 50 + minutes 60;
  revoked_at = none;
  token_version = 0;
  refreshed_at = none;
}

signs_in_laptop :
    (run (sign_in settings 50 (record { id = 5; created_at = 50 }) 7 none) store).0 ≡ ok laptop
unfolding create_session device_label_from_user_agent
signs_in_laptop = refl

sign_in-accepted_example :
    let t' = (run (sign_in settings 50 (record { id = 5; created_at = 50 }) 7 none) store).1 in
    (run
      (get_current_user plain_jwt 100 110 (create_access_token plain_jwt settings 60 7 "user" 5 0))
      t').0
    ≡ ok alice
sign_in-accepted_example =
    sign_in-accepted plain_jwt settings 50 (record { id = 5; created_at = 50 }) none store alice
      laptop 60 100 110 signs_in_laptop refl refl (omega arith) (omega arith)

revokes_phone : (run (revoke_session 90 7 1) store).0 ≡ ok tt
unfolding revoke_session
revokes_phone = refl

revoked-refused_example :
    let t' = (run (revoke_session 90 7 1) store).1 in
    run (get_current_user plain_jwt 91 92 phone_payload) t' ≡ (err revoked_error, t')
revoked-refused_example =
    revoked-refused plain_jwt 90 7 1 store 91 92 phone_payload phone_payload 7 (refl, (refl, tt))
      revokes_phone refl refl refl
