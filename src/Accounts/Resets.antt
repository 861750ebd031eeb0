-- ===== src/Accounts/Resets.antt =====
-- One-time secrets of app/services/auth.py: the links that reset a password, and the nonces of the
-- Telegram widget. SHA-256 is the parameter `digest`, password hashing `hash`, and whether the widget's
-- hash is right, `valid`.
use movie_api.Shared.{
  ℕ, ◌+◌, ◌-◌, ◌*◌, ◌/◌, String, Bool, true, false, not, ◌||◌, Option, none, some, ◌∷◌, ltb, ◌==◌,
  if◌then◌else◌, first, exists, select, update, str_eq, is_some, lower, Tx, gets, modify, commit,
  or_raise, raise_if, pure, ◌>>=◌, ◌>>◌, HttpError, unauthorized, server_error, fixed, minutes,
}
use movie_api.Models.{User, Settings, Stamp}
use movie_api.Tokens.{Jwt}
use movie_api.Session.{by_user_id, revoke_all_user_sessions}
use movie_api.Accounts.{
  AccountDb, PasswordResetToken, TelegramAuthNonce, on_session, set_users, has_email,
}
use movie_api.Accounts.Providers.{TelegramIdentity, login_telegram_identity}

abbrev pub of_token : String → PasswordResetToken → Bool
of_token token_hash r = str_eq r.token_hash token_hash

abbrev pub of_nonce : String → TelegramAuthNonce → Bool
of_nonce nonce_hash r = str_eq r.nonce_hash nonce_hash

abbrev pub reset_error : HttpError
reset_error = unauthorized (fixed "This reset link is invalid or has expired")

-- `row.used_at is not None or row.expires_at < now`
abbrev pub is_spent : ℕ → PasswordResetToken → Bool
is_spent now r = is_some r.used_at || ltb r.expires_at now

abbrev pub set_used : ℕ → PasswordResetToken → PasswordResetToken
set_used now r = record r { used_at = some now }

abbrev pub set_password : String → User → User
set_password password_hash u = record u { password_hash = some password_hash }

module _ (digest : String → String) where
  -- `request_password_reset`: to whom the link is sent, if to anybody
  unfoldable pub request_password_reset : ℕ → ℕ → String → String → Tx AccountDb (Option String)
  request_password_reset expire_minutes now raw_token email = do
    found ← gets (λ t. first (has_email (lower email)) t.shop.users)
    elim found [
      | none ↦ pure none
      | some user ↦ if not user.is_active then pure none else do
        modify (λ t. record t {
          resets =
              record {
                user_id = user.id;
                token_hash = digest raw_token;
                expires_at = now + minutes expire_minutes;
                used_at = none;
              }
              ∷ select (λ r. not (r.user_id == user.id)) t.resets;
        })
        commit
        pure (some user.email)
    ]

  -- The checks of `reset_password`: the token, and its user.
  unfoldable pub find_reset : ℕ → String → Tx AccountDb (PasswordResetToken × User)
  find_reset now token = do
    found ← gets (λ t. first (of_token (digest token)) t.resets)
    reset_token ← or_raise found reset_error
    raise_if (is_spent now reset_token) reset_error
    holder ← gets (λ t. first (by_user_id reset_token.user_id) t.shop.users)
    user ← or_raise holder reset_error
    raise_if (not user.is_active) reset_error
    pure (reset_token, user)

  -- `reset_password`
  unfoldable pub reset_password : (String → String) → ℕ → String → String → Tx AccountDb Unit
  unfolding find_reset
  reset_password hash now token new_password = do
    (reset_token, user) ← find_reset now token
    modify (set_users (update (by_user_id user.id) (set_password (hash new_password))))
    modify (λ t. record t {
      resets = update (of_token reset_token.token_hash) (set_used now) t.resets;
    })
    on_session (revoke_all_user_sessions now user.id)
    commit

  -- `start_telegram_auth`; the column `nonce_hash` is unique
  unfoldable pub start_telegram_auth : Bool → ℕ → ℕ → String → Tx AccountDb (String × ℕ)
  start_telegram_auth configured expire_minutes now raw_nonce = do
    raise_if (not configured) (unauthorized (fixed "Telegram sign-in is not configured"))
    taken ← gets (λ t. exists (of_nonce (digest raw_nonce)) t.nonces)
    raise_if taken (server_error (fixed "telegram_auth_nonces_nonce_hash_key"))
    modify (λ t. record t {
      nonces =
          record {
            nonce_hash = digest raw_nonce;
            is_pending = true;
            expires_at = now + minutes expire_minutes;
          }
          ∷ t.nonces;
    })
    commit
    pure (raw_nonce, expire_minutes * 60)

  abbrev pub nonce_error : HttpError
  nonce_error = unauthorized (fixed "Telegram sign-in session expired. Try again.")

  abbrev pub use_nonce : TelegramAuthNonce → TelegramAuthNonce
  use_nonce r = record r { is_pending = false }

  -- `_consume_telegram_nonce`
  unfoldable pub consume_telegram_nonce : ℕ → String → Tx AccountDb Unit
  consume_telegram_nonce now raw_nonce = do
    found ← gets (λ t. first (of_nonce (digest raw_nonce)) t.nonces)
    row ← or_raise found nonce_error
    raise_if (not row.is_pending || ltb row.expires_at now) nonce_error
    modify (λ t. record t { nonces = update (of_nonce row.nonce_hash) use_nonce t.nonces })

  -- `abs(now - auth_date) > max_age`, in seconds
  abbrev pub too_old : ℕ → ℕ → ℕ → Bool
  too_old now auth_date max_age =
      let seconds_now : ℕ = now / 1000000 in
      ltb max_age (seconds_now - auth_date) || ltb max_age (auth_date - seconds_now)

  -- `authenticate_telegram`
  unfoldable pub authenticate_telegram :
      (j : Jwt)
      → Bool
      → Settings
      → ℕ
      → Stamp
      → ℕ
      → ℕ
      → ℕ
      → ℕ
      → String
      → Bool
      → TelegramIdentity
      → Option String
      → Option String
      → Tx AccountDb (User × j.Token)
  unfolding consume_telegram_nonce
  authenticate_telegram j configured s now stamp issued_at new_id max_age auth_date nonce valid i
        user_agent guest_id =
      do
        raise_if (not configured) (unauthorized (fixed "Telegram sign-in is not configured"))
        raise_if (too_old now auth_date max_age)
            (unauthorized (fixed "Telegram sign-in expired. Try again."))
        raise_if (not valid) (unauthorized (fixed "Invalid Telegram sign-in"))
        consume_telegram_nonce now nonce
        login_telegram_identity j s now stamp issued_at new_id user_agent guest_id i
