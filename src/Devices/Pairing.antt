-- ===== src/Devices/Pairing.antt =====
-- app/services/device_pairing.py: a television shows a short-lived code, a signed-in phone confirms
-- it, and the television polls for its token. SHA-256 is the parameter `digest`.
pub mod Codes
pub mod SignIn
use movie_api.Shared.{
  ℕ, ◌+◌, ◌*◌, String, Bool, true, false, not, ◌||◌, Option, none, some, List, ◌∷◌, ltb,
  if◌then◌else◌, first, exists, update, str_eq, Tx, gets, modify, commit, or_raise, raise_if, pure,
  raise, zoom, ◌>>=◌, ◌>>◌, HttpError, not_found, server_error, fixed, minutes,
}
use movie_api.Models.{User, AuthDb, Settings, Stamp}
use movie_api.Tokens.{Jwt, create_access_token}
use movie_api.Session.{create_session}

-- `device_pairing_codes_status_check`
pub data PairingStatus : Type 0 where
  pending confirmed expired : PairingStatus

pub record PairingCode (T : Type 0) : Type 0 where
  pub code_hash : String
  pub status : PairingStatus
  pub token : Option T
  pub user_id : Option ℕ
  pub expires_at : ℕ

pub record PairingDb (T : Type 0) : Type 0 where
  pub auth : AuthDb
  pub codes : List (PairingCode T)

-- What a poll answers: `{"status": "pending"}`, or the token.
pub data Poll (T : Type 0) : Type 0 where
  waiting : Poll T
  access_token : Option T → Poll T

abbrev pub code_error : HttpError
code_error = not_found (fixed "This code has expired.")

abbrev pub is_pending : PairingStatus → Bool
is_pending pending = true
is_pending _ = false

abbrev pub is_expired : PairingStatus → Bool
is_expired expired = true
is_expired _ = false

abbrev pub of_hash : {T : Type 0} → String → PairingCode T → Bool
of_hash code_hash r = str_eq r.code_hash code_hash

-- What the poll that hands out the token writes to the code.
abbrev pub consume : {T : Type 0} → PairingCode T → PairingCode T
consume r = record r { status = expired; token = none }

module _ (T : Type 0) (digest : String → String) where
  -- `start_pairing`; `raw_code` is the random text, and the column `code_hash` is unique
  unfoldable pub start_pairing : ℕ → ℕ → String → Tx (PairingDb T) (String × ℕ)
  start_pairing expire_minutes now raw_code = do
    taken ← gets (λ t. exists (of_hash (digest raw_code)) t.codes)
    raise_if taken (server_error (fixed "device_pairing_codes_code_hash_key"))
    modify (λ t. record t {
      codes =
          record {
            code_hash = digest raw_code;
            status = pending;
            token = none;
            user_id = none;
            expires_at = now + minutes expire_minutes;
          }
          ∷ t.codes;
    })
    commit
    pure (raw_code, expire_minutes * 60)

  -- `_find_pending_or_confirmed`
  unfoldable pub find_pending_or_confirmed : ℕ → String → Tx (PairingDb T) (PairingCode T)
  find_pending_or_confirmed now raw_code = do
    found ← gets (λ t. first (of_hash (digest raw_code)) t.codes)
    pairing ← or_raise found code_error
    raise_if (ltb pairing.expires_at now || is_expired pairing.status) code_error
    pure pairing

  -- `poll_pairing`
  unfoldable pub poll_pairing : ℕ → String → Tx (PairingDb T) (Poll T)
  unfolding find_pending_or_confirmed
  poll_pairing now raw_code = do
    pairing ← find_pending_or_confirmed now raw_code
    if is_pending pairing.status then pure waiting else do
      modify (λ t. record t { codes = update (of_hash pairing.code_hash) consume t.codes })
      commit
      pure (access_token pairing.token)

module _ (j : Jwt) (digest : String → String) where
  -- What a confirmation writes to the code.
  abbrev pub confirm : User → j.Token → PairingCode j.Token → PairingCode j.Token
  confirm user token r = record r { token = some token; user_id = some user.id; status = confirmed }

  -- `confirm_pairing`; the session is counted at one instant and issued at the next
  unfoldable pub confirm_pairing :
      Settings → ℕ → Stamp → ℕ → String → User → Option String → Tx (PairingDb j.Token) Unit
  unfolding find_pending_or_confirmed
  confirm_pairing s now stamp issued_at raw_code user user_agent = do
    pairing ← find_pending_or_confirmed j.Token digest now raw_code
    raise_if (not (is_pending pairing.status)) code_error
    session ←
        zoom (λ t. t.auth) (λ t auth. record t { auth = auth })
          (create_session s now now stamp user.id user_agent)
    let token : j.Token = create_access_token j s issued_at user.id user.role session.id 0
    modify
        (λ t. record t { codes = update (of_hash pairing.code_hash) (confirm user token) t.codes })
    commit
