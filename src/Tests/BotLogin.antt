-- ===== src/Tests/BotLogin.antt =====
-- A sign-in through the bot, at concrete inputs.
use movie_api.Shared.{◌≡◌, refl, none, some, [], ◌∷◌, run, ok, err}
use movie_api.Tokens.{create_access_token}
use movie_api.Session.{create_session}
use movie_api.DeviceLabel.{device_label_from_user_agent}
use movie_api.Accounts.{open_session, claim_guest_purchases}
use movie_api.Accounts.Providers.{login_telegram_identity, telegram_account}
use movie_api.Accounts.BotLogin.{
  TelegramBotLogin, BotDb, Sender, started, confirmed, access_token, login_expired, poll_bot_login,
  use_login,
}
use movie_api.Accounts.BotLogin.Confirmed.{bot_login_once}
use movie_api.Tests.Session.{plain_jwt, settings}
use movie_api.Tests.Accounts.{plain_hash, accounts, signing_stamp}

abbrev begun : TelegramBotLogin
begun = record {
  id = 1;
  code_hash = "c-1";
  status = started;
  telegram_id = some "55";
  telegram_first_name = none;
  telegram_last_name = none;
  telegram_username = none;
  expires_at = 90;
}

abbrev stranger : Sender
stranger = record { id = "66"; first_name = none; last_name = none; username = none }

abbrev begun_db : BotDb
begun_db = record { accounts = accounts; logins = begun ∷ [] }

abbrev confirmed_login : TelegramBotLogin
confirmed_login = record begun { status = confirmed }

abbrev confirmed_db : BotDb
confirmed_db = record { accounts = accounts; logins = confirmed_login ∷ [] }

hands_out :
    (run
      (poll_bot_login plain_hash plain_jwt settings 50 signing_stamp 50 12 "c-1" none none)
      confirmed_db).0
    ≡ ok (access_token (create_access_token plain_jwt settings 50 12 "user" 5 0))
unfolding poll_bot_login use_login login_telegram_identity telegram_account open_session
    claim_guest_purchases create_session device_label_from_user_agent
hands_out = refl

bot_login_once_example :
    let polled =
      run
        (poll_bot_login plain_hash plain_jwt settings 50 signing_stamp 50 12 "c-1" none none)
        confirmed_db in
    run
      (poll_bot_login plain_hash plain_jwt settings 60 signing_stamp 60 13 "c-1"
        (some "tv")
        (some "guest-2"))
      polled.1
    ≡ (err login_expired, polled.1)
bot_login_once_example =
    bot_login_once plain_hash plain_jwt settings 50 signing_stamp 50 12 "c-1" none none confirmed_db
      confirmed_login (create_access_token plain_jwt settings 50 12 "user" 5 0) 60 signing_stamp 60
      13 (some "tv") (some "guest-2") refl hands_out
