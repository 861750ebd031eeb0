-- ===== src/Session.antt =====
-- app/services/session.py: the sessions of a user's devices. Row locks serialise what writes the
-- same user, so a handler runs alone; each reading of the clock is an argument.
pub mod Outcome
pub mod Limit
pub mod Rotation
pub mod Revocation
pub mod Lasting
use movie_api.Shared.{
  ℕ, ◌+◌, String, Bool, true, false, not, ◌&&◌, ◌||◌, Option, none, some, List, ◌∷◌, ltb, leb, ◌==◌,
  if◌then◌else◌, is_some, select, first, count, update, sort_by, Tx, pure, raise, gets, or_raise,
  modify, commit, raise_if, ◌>>=◌, ◌>>◌, Result, ok, err, HttpError, not_found, forbidden,
  unauthorized, fixed, signed_in_on, minutes, days,
}
use movie_api.DeviceLabel.{device_label_from_user_agent}
use movie_api.Models.{User, Session, AuthDb, Stamp, Settings}
use movie_api.Tokens.{
  Version, absent, number, malformed, Payload, Jwt, create_access_token,
  decode_expired_access_token,
}

-- `REFRESH_RETRY_WINDOW`
abbrev pub refresh_retry_window : ℕ
refresh_retry_window = minutes 2

abbrev pub by_user_id : ℕ → User → Bool
by_user_id user_id u = u.id == user_id

abbrev pub is_revoked : Session → Bool
is_revoked r = is_some r.revoked_at

-- The `where` of `_count_active_sessions`.
abbrev pub active_for : ℕ → ℕ → Session → Bool
active_for now user_id r = r.user_id == user_id && not (is_revoked r) && ltb now r.expires_at

-- `_count_active_sessions`
unfoldable pub count_active_sessions : ℕ → ℕ → Tx AuthDb ℕ
count_active_sessions now user_id = gets (λ t. count (active_for now user_id) t.sessions)

-- `create_session`
unfoldable pub create_session : Settings → ℕ → ℕ → Stamp → ℕ → Option String → Tx AuthDb Session
unfolding count_active_sessions
create_session s count_at now stamp user_id user_agent = do
  locked ← gets (λ t. first (by_user_id user_id) t.users)
  or_raise locked (not_found (fixed "User not found"))
  active_count ← count_active_sessions count_at user_id
  raise_if (leb s.max_active_sessions_per_user active_count)
      (forbidden (signed_in_on s.max_active_sessions_per_user))
  let session : Session = record {
    id = stamp.id;
    user_id = user_id;
    device_label = device_label_from_user_agent user_agent;
    created_at = stamp.created_at;
    expires_at = now + minutes s.access_token_expire_minutes;
    revoked_at = none;
    token_version = 0;
    refreshed_at = none;
  }
  modify (λ t. record t { sessions = session ∷ t.sessions })
  pure session

-- `get_active_session`
unfoldable pub get_active_session : ℕ → ℕ → Tx AuthDb (Option Session)
get_active_session now session_id =
    gets (λ t.
      first (λ r. r.id == session_id && not (is_revoked r) && ltb now r.expires_at) t.sessions)

-- `expires_at <= _refresh_cutoff(now)`, where no cutoff stands for never
unfoldable pub past_cutoff : Settings → ℕ → ℕ → Bool
past_cutoff s now expires_at = elim s.session_refresh_grace_days [
  | none ↦ false
  | some grace ↦ leb (expires_at + days grace) now
]

-- The `where` of `list_active_sessions`.
unfoldable pub can_be_used : Settings → ℕ → ℕ → Session → Bool
unfolding past_cutoff
can_be_used s now user_id r =
    r.user_id == user_id && not (is_revoked r) && not (past_cutoff s now r.expires_at)

-- Its `order_by`: the newest first.
abbrev pub newer : Session → Session → Bool
newer a b = ltb b.created_at a.created_at

-- `list_active_sessions`
unfoldable pub list_active_sessions : Settings → ℕ → ℕ → Tx AuthDb (List Session)
list_active_sessions s now user_id =
    gets (λ t. sort_by newer (select (can_be_used s now user_id) t.sessions))

abbrev pub set_revoked : ℕ → Session → Session
set_revoked now r = record r { revoked_at = some now }

abbrev pub by_session_id : ℕ → Session → Bool
by_session_id session_id r = r.id == session_id

-- `revoke_session`
unfoldable pub revoke_session : ℕ → ℕ → ℕ → Tx AuthDb Unit
revoke_session now user_id session_id = do
  found ← gets (λ t. first (λ r. r.id == session_id && r.user_id == user_id) t.sessions)
  session ← or_raise found (not_found (fixed "Session not found"))
  raise_if (is_revoked session) (not_found (fixed "Session not found"))
  modify
      (λ t. record t { sessions = update (by_session_id session.id) (set_revoked now) t.sessions })
  commit

-- `revoke_all_user_sessions`
unfoldable pub revoke_all_user_sessions : ℕ → ℕ → Tx AuthDb Unit
revoke_all_user_sessions now user_id = modify (λ t. record t {
  sessions = update (λ r. r.user_id == user_id && not (is_revoked r)) (set_revoked now) t.sessions;
})

-- `require_active_session`, of the claim `sid` as a UUID where it is one
unfoldable pub require_active_session : ℕ → Option ℕ → Tx AuthDb ℕ
unfolding get_active_session
require_active_session now sid = do
  session_id ← or_raise sid (unauthorized (fixed "Invalid token payload"))
  found ← get_active_session now session_id
  or_raise found (unauthorized (fixed "Session has been revoked. Please log in again."))
  pure session_id

-- Whether the session refreshed less than the retry window ago.
refreshed_recently : ℕ → Option ℕ → Bool
refreshed_recently now none = false
refreshed_recently now (some refreshed_at) = ltb now (refreshed_at + refresh_retry_window)

-- The version that a refresh moves to; `none` is a token that must not refresh. The test
-- `version == current - 1` is written without the subtraction.
unfoldable pub next_version : ℕ → ℕ → Session → Option ℕ
unfolding refreshed_recently
next_version now version r =
    if version == r.token_version
    then some (r.token_version + 1)
    else if version + 1 == r.token_version && refreshed_recently now r.refreshed_at
    then some r.token_version
    else none

abbrev pub revoked_error : HttpError
revoked_error = unauthorized (fixed "Session has been revoked. Please log in again.")

abbrev expired_error : HttpError
expired_error = unauthorized (fixed "Session has expired. Please log in again.")

abbrev pub inactive_error : HttpError
inactive_error = unauthorized (fixed "User not found or inactive")

-- Either the next version, or the session is revoked for good before the error is raised.
unfoldable pub rotate_or_revoke : ℕ → ℕ → Session → Tx AuthDb ℕ
unfolding next_version
rotate_or_revoke now version r = elim (next_version now version r) [
  | some next ↦ pure next
  | none ↦ do
    modify (λ t. record t { sessions = update (by_session_id r.id) (set_revoked now) t.sessions })
    commit
    raise revoked_error
]

-- What a refresh writes to its session.
abbrev pub extended : Settings → ℕ → ℕ → Session → Session
extended s now next r = record r {
  expires_at = now + minutes s.access_token_expire_minutes;
  token_version = next;
  refreshed_at = if next == r.token_version then r.refreshed_at else some now;
}

abbrev pub live_by_id : ℕ → Session → Bool
live_by_id session_id r = r.id == session_id && not (is_revoked r)

-- The second half of `refresh_session`: the user's lock, the device limit and the writes.
unfoldable pub extend_session : Settings → ℕ → ℕ → Session → ℕ → Tx AuthDb User
unfolding count_active_sessions
extend_session s now count_at r next = do
  locked ← gets (λ t. first (by_user_id r.user_id) t.users)
  user ← or_raise locked inactive_error
  raise_if (not user.is_active) inactive_error
  active_count ← count_active_sessions count_at r.user_id
  raise_if (leb r.expires_at now && leb s.max_active_sessions_per_user active_count) expired_error
  modify (λ t. record t { sessions = update (by_session_id r.id) (extended s now next) t.sessions })
  commit
  pure user

-- `refresh_session` once the claims are read: the row's checks, then the two halves.
unfoldable pub refresh_claims : Settings → ℕ → ℕ → ℕ → ℕ → ℕ → Tx AuthDb (User × Session × ℕ)
unfolding past_cutoff rotate_or_revoke extend_session
refresh_claims s now count_at session_id user_id version = do
  found ← gets (λ t. first (live_by_id session_id) t.sessions)
  session ← or_raise found revoked_error
  raise_if (not (session.user_id == user_id)) revoked_error
  raise_if (past_cutoff s now session.expires_at) expired_error
  next ← rotate_or_revoke now version session
  user ← extend_session s now count_at session next
  pure (user, session, next)

-- `int(payload.get("ver", 0))`
version_claim : Version → Option ℕ
version_claim absent = some 0
version_claim (number n) = some n
version_claim malformed = none

-- The claims `sid`, `sub` and `ver` of a payload, if all three can be read.
pub claims : Payload → Option (ℕ × ℕ × ℕ)
unfolding version_claim
claims p = elim p.sid [
  | none ↦ none
  | some sid ↦ elim p.sub [
    | none ↦ none
    | some sub ↦ elim (version_claim p.ver) [ none ↦ none | some ver ↦ some (sid, sub, ver) ]
  ]
]

module _ (j : Jwt) where
  -- `refresh_session`; `issued_at` is the clock reading of the token
  unfoldable pub refresh_session : Settings → ℕ → ℕ → ℕ → j.Token → Tx AuthDb j.Token
  unfolding claims
  refresh_session s now count_at issued_at token = do
    payload ← λ c. (decode_expired_access_token j token, c)
    (session_id, user_id, version) ←
        or_raise (claims payload) (unauthorized (fixed "Invalid token payload"))
    (user, session, next) ← refresh_claims s now count_at session_id user_id version
    pure (create_access_token j s issued_at user.id user.role session.id next)
