-- ===== src/Tests/Devices.antt =====
-- A television that is paired, and one that is signed in by its id.
use movie_api.Shared.{
  ◌≡◌, ◌||◌, exists, refl, String, true, none, some, [], ◌∷◌, arith, count, run, minutes, ok, err,
  upper, strip,
}
use movie_api.Models.{Stamp}
use movie_api.Shop.{Subscription, active}
use movie_api.Session.{create_session}
use movie_api.DeviceLabel.{device_label_from_user_agent}
use movie_api.Tokens.{Payload, create_access_token}
use movie_api.Access.{user_has_active_subscription}
use movie_api.Auth.{get_current_user}
use movie_api.Devices.Pairing.{
  PairingCode, PairingDb, pending, confirmed, access_token, code_error, poll_pairing,
  confirm_pairing,
}
use movie_api.Devices.Pairing.Codes.{confirmation, poll_once}
use movie_api.Devices.Pairing.SignIn.{pairing-accepted, confirms, IsPaired, PairingStep-IsPaired}
use movie_api.Devices.TvAccess.{TvAccessCode, TvDb, login_with_tv_access_code, tv_subscription}
use movie_api.Devices.TvAccess.Login.{open_for}
use movie_api.Devices.TvAccess.Opens.{IsValid, login_opens}
use movie_api.Tests.Access.{shop}
use movie_api.Tests.Session.{plain_jwt, settings, alice, store}

abbrev plain_digest : String → String
plain_digest x = x

abbrev shown_code : PairingCode Payload
shown_code = record {
  code_hash = "code-1";
  status = pending;
  token = none;
  user_id = none;
  expires_at = minutes 10;
}

abbrev pairing_store : PairingDb Payload
pairing_store = record { auth = store; codes = shown_code ∷ [] }

abbrev tv_stamp : Stamp
tv_stamp = record { id = 5; created_at = 50 }

confirms_code :
    (confirmation plain_jwt plain_digest settings 50 tv_stamp 50 "code-1" alice none
      pairing_store).0
    ≡ ok tt
unfolding confirm_pairing create_session device_label_from_user_agent
confirms_code = refl

pairing-accepted_example :
    let t' =
      (confirmation plain_jwt plain_digest settings 50 tv_stamp 50 "code-1" alice none
        pairing_store).1 in
    (token : Payload) × ((run (poll_pairing Payload plain_digest 60 "code-1") t').0
      ≡ ok (access_token (some token)))
    × ((run
          (get_current_user plain_jwt 60 60 token)
          (run (poll_pairing Payload plain_digest 60 "code-1") t').1.auth).0
        ≡ ok alice)
pairing-accepted_example =
    pairing-accepted plain_jwt plain_digest settings 50 tv_stamp 50 "code-1" alice none
      pairing_store shown_code 60 60 60 confirms_code refl refl refl (omega arith) (omega arith)
      (omega arith)

abbrev confirmed_store : PairingDb Payload
confirmed_store = record {
  auth = store;
  codes =
      record shown_code {
        status = confirmed;
        token = some (create_access_token plain_jwt settings 50 7 "user" 1 0);
      }
      ∷ [];
}

pairing_store-IsPaired : IsPaired plain_jwt plain_digest settings 50 pairing_store
pairing_store-IsPaired = record {
  tokens = (refl, tt);
  sound = record { unique = (refl, (refl, tt)); within = λ u. ground arith };
}

PairingStep-IsPaired_example :
    IsPaired plain_jwt plain_digest settings 50
      (confirmation plain_jwt plain_digest settings 50 tv_stamp 50 "code-1" alice none
        pairing_store).1
PairingStep-IsPaired_example =
    PairingStep-IsPaired plain_jwt plain_digest settings pairing_store-IsPaired
      (confirms tv_stamp 50 "code-1" alice none refl)

polls_token :
    (run (poll_pairing Payload plain_digest 60 "code-1") confirmed_store).0
    ≡ ok (access_token (some (create_access_token plain_jwt settings 50 7 "user" 1 0)))
unfolding poll_pairing
polls_token = refl

poll_once_example :
    let t' = (run (poll_pairing Payload plain_digest 60 "code-1") confirmed_store).1 in
    run (poll_pairing Payload plain_digest 70 "code-1") t' ≡ (err code_error, t')
poll_once_example =
    poll_once Payload plain_digest 60 70 "code-1" confirmed_store
      (some (create_access_token plain_jwt settings 50 7 "user" 1 0)) polls_token

abbrev tv_row : TvAccessCode
tv_row = record {
  id = 3;
  code = "RT-ABCD";
  label = none;
  user_id = 7;
  expires_at = minutes 10;
  is_active = true;
  created_at = 0;
}

abbrev tv_owned : Subscription
tv_owned = record {
  id = 1;
  user_id = 7;
  plan = "tv_access";
  status = active;
  current_period_start = 0;
  current_period_end = minutes 10;
}

abbrev tv_store : TvDb
tv_store = record { auth = store; subscriptions = tv_owned ∷ []; codes = tv_row ∷ [] }

tv_store-IsValid : IsValid 50 " rt-abcd" tv_store tv_row alice
unfolding upper strip
tv_store-IsValid = record {
  found = refl;
  on = refl;
  early = omega arith;
  holder = refl;
  active = refl;
}

login_opens_example :
    let entered =
      run (login_with_tv_access_code plain_jwt settings 50 tv_stamp 50 " rt-abcd" none) tv_store in
    (token : Payload) × (entered.0 ≡ ok token)
    × ((run (get_current_user plain_jwt 60 60 token) entered.1.auth).0 ≡ ok alice)
    × (count (open_for 7) entered.1.auth.sessions ≡ 1)
    × (user_has_active_subscription 60 (record shop { subscriptions = entered.1.subscriptions }) 7
        ≡ (exists (tv_subscription 7) tv_store.subscriptions
            || user_has_active_subscription 60
                (record shop { subscriptions = tv_store.subscriptions })
                7))
login_opens_example =
    login_opens settings 50 tv_stamp none " rt-abcd" tv_store tv_row alice tv_store-IsValid
      (omega arith) plain_jwt 50 60 60 shop 60 (omega arith) (omega arith) (omega arith)
