-- ===== src/Auth.antt =====
-- app/dependencies/auth.py: who makes a request, by the access token that it carries. The claim
-- `sub` of a token that the service signed is always a UUID; one that is none is read as missing.
pub mod Acceptance
pub mod Revoked
pub mod Guests
use movie_api.Shared.{
  ℕ, String, Bool, Option, none, some, not, Result, ok, err, fixed, unauthorized, forbidden, Tx,
  HttpError, str_eq, first, gets, modify, or_raise, pure, raise_if, raise, ◌>>=◌, ◌>>◌, Conn,
  if◌then◌else◌,
}
use movie_api.Models.{User, AuthDb}
use movie_api.Tokens.{Payload, Jwt, decode_access_token}
use movie_api.Session.{by_user_id, inactive_error, require_active_session}

abbrev pub payload_error : HttpError
payload_error = unauthorized (fixed "Invalid token payload")

-- The active user of this key.
unfoldable pub stored_user : ℕ → Tx AuthDb User
stored_user user_id = do
  found ← gets (λ t. first (by_user_id user_id) t.users)
  user ← or_raise found inactive_error
  raise_if (not user.is_active) inactive_error
  pure user

-- `get_current_user` once the token is decoded.
unfoldable pub user_of_payload : ℕ → Payload → Tx AuthDb User
unfolding stored_user
user_of_payload now payload = do
  user_id ← or_raise payload.sub payload_error
  require_active_session now payload.sid
  stored_user user_id

-- `except UnauthorizedError: return None`
unfoldable pub none_if_unauthorized : {A : Type 0} → Tx AuthDb A → Tx AuthDb (Option A)
none_if_unauthorized m c =
    let (r, c') = m c in
    elim r [
      | ok a ↦ (ok (some a), c')
      | err e ↦ elim e [ unauthorized detail ↦ (ok none, c') | other ↦ (err other, c') ]
    ]

-- The last lines of `get_current_user_optional`: the user, where there is an active one.
unfoldable pub active_or_none : Option ℕ → Tx AuthDb (Option User)
active_or_none none = pure none
active_or_none (some user_id) = do
  found ← gets (λ t. first (by_user_id user_id) t.users)
  pure (elim found [ none ↦ none | some user ↦ if not user.is_active then none else some user ])

module _ (j : Jwt) where
  -- `get_current_user`; the token is decoded at one reading of the clock, the session at the next
  unfoldable pub get_current_user : ℕ → ℕ → j.Token → Tx AuthDb User
  unfolding user_of_payload
  get_current_user decoded_at now token = do
    payload ← λ c. (decode_access_token j decoded_at token, c)
    user_of_payload now payload

  -- `get_current_session_id`
  unfoldable pub get_current_session_id : ℕ → ℕ → j.Token → Tx AuthDb ℕ
  get_current_session_id decoded_at now token = do
    payload ← λ c. (decode_access_token j decoded_at token, c)
    require_active_session now payload.sid

  -- The `try` of `get_current_user_optional`.
  unfoldable pub checked_payload : ℕ → ℕ → j.Token → Tx AuthDb Payload
  checked_payload decoded_at now token = do
    payload ← λ c. (decode_access_token j decoded_at token, c)
    require_active_session now payload.sid
    pure payload

  -- `get_current_user_optional`
  unfoldable pub get_current_user_optional : ℕ → ℕ → Option j.Token → Tx AuthDb (Option User)
  unfolding none_if_unauthorized active_or_none checked_payload
  get_current_user_optional decoded_at now none = pure none
  get_current_user_optional decoded_at now (some token) = do
    checked ← none_if_unauthorized (checked_payload decoded_at now token)
    elim checked [ none ↦ pure none | some payload ↦ active_or_none payload.sub ]

-- `require_admin`
unfoldable pub require_admin : User → Tx AuthDb User
require_admin current_user = do
  raise_if (not (str_eq current_user.role "admin")) (forbidden (fixed "Admin access required"))
  pure current_user
