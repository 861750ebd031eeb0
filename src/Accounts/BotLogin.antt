-- ===== src/Accounts/BotLogin.antt =====
-- app/services/telegram_bot_login.py: a sign-in that the app starts, that a person confirms in the chat
-- with the bot, and whose token the app polls for. The bot's messages to the chat are left out; an
-- update of Telegram is taken apart already, and `digest` is SHA-256.
pub mod Confirmed
use movie_api.Shared.{
  ℕ, ◌+◌, ◌*◌, String, Bool, true, false, not, ◌&&◌, ◌||◌, Option, none, some, List, ◌∷◌, ltb, ◌==◌,
  if◌then◌else◌, first, exists, update, str_eq, Tx, gets, modify, commit, or_raise, raise_if, pure,
  zoom, ◌>>=◌, ◌>>◌, HttpError, not_found, unauthorized, server_error, fixed, minutes, is_some,
}
use movie_api.Models.{User, Settings, Stamp}
use movie_api.Tokens.{Jwt}
use movie_api.Access.{guest_eq}
use movie_api.Billing.Settle.{truthy}
use movie_api.Accounts.{AccountDb}
use movie_api.Accounts.Providers.{TelegramIdentity, login_telegram_identity}

-- The column `status`.
pub data BotStatus : Type 0 where
  pending started confirmed used expired : BotStatus

pub record TelegramBotLogin : Type 0 where
  pub id : ℕ
  pub code_hash : String
  pub status : BotStatus
  pub telegram_id : Option String
  pub telegram_first_name : Option String
  pub telegram_last_name : Option String
  pub telegram_username : Option String
  pub expires_at : ℕ

pub record BotDb : Type 0 where
  pub accounts : AccountDb
  pub logins : List TelegramBotLogin

-- `from` of a message; `id` is the text of the number
pub record Sender : Type 0 where
  pub id : String
  pub first_name : Option String
  pub last_name : Option String
  pub username : Option String

-- What a poll answers: the status, or the token.
pub data BotPoll (T : Type 0) : Type 0 where
  still : BotStatus → BotPoll T
  access_token : T → BotPoll T

abbrev pub of_code_hash : String → TelegramBotLogin → Bool
of_code_hash code_hash r = str_eq r.code_hash code_hash

abbrev pub by_login_id : ℕ → TelegramBotLogin → Bool
by_login_id id r = r.id == id

-- `row.status == "pending" or (row.status == "started" and row.telegram_id == str(sender_id))`
abbrev pub can_start : String → TelegramBotLogin → Bool
can_start sender_id r = elim r.status [
  | pending ↦ true
  | started ↦ guest_eq r.telegram_id sender_id
  | _ ↦ false
]

abbrev pub is_started : BotStatus → Bool
is_started started = true
is_started _ = false

abbrev pub is_confirmed : BotStatus → Bool
is_confirmed confirmed = true
is_confirmed _ = false

-- `row.status in ("used", "expired")`
abbrev pub is_over : BotStatus → Bool
is_over used = true
is_over expired = true
is_over _ = false

abbrev pub record_sender : Sender → TelegramBotLogin → TelegramBotLogin
record_sender sender r = record r {
  status = started;
  telegram_id = some sender.id;
  telegram_first_name = sender.first_name;
  telegram_last_name = sender.last_name;
  telegram_username = sender.username;
}

abbrev pub decide : Bool → TelegramBotLogin → TelegramBotLogin
decide approve r = record r { status = if approve then confirmed else expired }

abbrev pub set_login_used : TelegramBotLogin → TelegramBotLogin
set_login_used r = record r { status = used }

abbrev pub login_expired : HttpError
login_expired = not_found (fixed "This Telegram sign-in has expired.")

module _ (digest : String → String) where
  -- `start_bot_login`; `id` is the key of the row, and `code_hash` is a unique column
  unfoldable pub start_bot_login : Bool → ℕ → ℕ → ℕ → String → Tx BotDb (String × ℕ)
  start_bot_login configured expire_minutes now id raw_code = do
    raise_if (not configured) (unauthorized (fixed "Telegram sign-in is not configured"))
    taken ← gets (λ t. exists (of_code_hash (digest raw_code)) t.logins)
    raise_if taken (server_error (fixed "telegram_bot_logins_code_hash_key"))
    modify (λ t. record t {
      logins =
          record {
            id = id;
            code_hash = digest raw_code;
            status = pending;
            telegram_id = none;
            telegram_first_name = none;
            telegram_last_name = none;
            telegram_username = none;
            expires_at = now + minutes expire_minutes;
          }
          ∷ t.logins;
    })
    commit
    pure (raw_code, expire_minutes * 60)

  -- `_handle_message`, of `/start login-<code>` in a private chat by a person: whether the person is
  -- asked to confirm
  unfoldable pub handle_start : ℕ → Sender → String → Tx BotDb Bool
  handle_start now sender raw_code = do
    found ← gets (λ t. first (of_code_hash (digest raw_code)) t.logins)
    elim found [
      | none ↦ commit >> pure false
      | some row ↦
          if ltb row.expires_at now || not (can_start sender.id row)
          then commit >> pure false
          else modify (λ t. record t {
            logins = update (by_login_id row.id) (record_sender sender) t.logins;
          })
            >> (commit >> pure true)
    ]

  -- `_handle_callback`, of a button of the bot: whether it had an effect
  unfoldable pub handle_callback : ℕ → Bool → ℕ → String → Tx BotDb Bool
  handle_callback now approve login_id sender_id = do
    found ← gets (λ t. first (by_login_id login_id) t.logins)
    elim found [
      | none ↦ commit >> pure false
      | some row ↦
          if not (is_started row.status)
            || ltb row.expires_at now
            || not (guest_eq row.telegram_id sender_id)
          then commit >> pure false
          else modify
              (λ t. record t { logins = update (by_login_id row.id) (decide approve) t.logins })
            >> (commit >> pure true)
    ]

  -- The sign-in of a confirmed code, which is used up by it. The commit at the end of
  -- `login_telegram_identity` is of both tables, and stands here.
  unfoldable pub use_login :
      (j : Jwt)
      → Settings
      → ℕ
      → Stamp
      → ℕ
      → ℕ
      → Option String
      → Option String
      → TelegramBotLogin
      → String
      → Tx BotDb (BotPoll j.Token)
  use_login j s now stamp issued_at new_id user_agent guest_id row telegram_id = do
    modify (λ t. record t { logins = update (by_login_id row.id) set_login_used t.logins })
    (user, token) ←
        zoom (λ (t : BotDb). t.accounts) (λ t accounts. record t { accounts = accounts })
          (login_telegram_identity j s now stamp issued_at new_id user_agent guest_id (record {
            telegram_id = telegram_id;
            first_name = row.telegram_first_name;
            last_name = row.telegram_last_name;
            username = row.telegram_username;
            photo_url = none;
          }))
    commit
    pure (access_token token)

  -- `poll_bot_login`
  unfoldable pub poll_bot_login :
      (j : Jwt)
      → Settings
      → ℕ
      → Stamp
      → ℕ
      → ℕ
      → String
      → Option String
      → Option String
      → Tx BotDb (BotPoll j.Token)
  unfolding use_login
  poll_bot_login j s now stamp issued_at new_id raw_code user_agent guest_id = do
    found ← gets (λ t. first (of_code_hash (digest raw_code)) t.logins)
    row ← or_raise found login_expired
    raise_if (ltb row.expires_at now || is_over row.status) login_expired
    if not (is_confirmed row.status)
        then commit >> pure (still row.status)
        else elim (truthy row.telegram_id) [
          | none ↦ commit >> pure (still row.status)
          | some telegram_id ↦
              use_login j s now stamp issued_at new_id user_agent guest_id row telegram_id
        ]
