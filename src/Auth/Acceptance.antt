-- ===== src/Auth/Acceptance.antt =====
-- When a token makes a request a user's, and the token of a sign-in.
use movie_api.Shared.{
  ℕ, ◌+◌, ◌/◌, ◌<◌, ◌≡◌, ◌↔◌, ◌⊎◌, inl, inr, refl, sym, subst, true, Option, none, some, String,
  arith, ◌∷◌, first, run, ok, err, Unique, Option-cases, seconds, minutes, ==_iff,
}
use movie_api.Models.{User, Session, AuthDb, Settings, Stamp}
use movie_api.Tokens.{Payload, number, Jwt, create_access_token, decode_access_token}
use movie_api.Session.{
  by_session_id, by_user_id, require_active_session, create_session, revoked_error,
}
use movie_api.Session.Limit.{sign_in}
use movie_api.Session.Revocation.{require_active_session-ok}
use movie_api.Auth.{user_of_payload, stored_user, get_current_user}

-- The session is stored under this key, unrevoked and running.
abbrev pub Live : ℕ → ℕ → AuthDb → Type 0
Live now session_id t =
    (r : Session) × (first (by_session_id session_id) t.sessions ≡ some r)
    × (r.revoked_at ≡ none)
    × (now < r.expires_at)

-- The key is that of a stored, active user.
abbrev pub ActiveUser : AuthDb → ℕ → User → Type 0
ActiveUser t user_id u = (first (by_user_id user_id) t.users ≡ some u) × (u.is_active ≡ true)

-- A session that is not required successfully is answered by an error, and nothing is stored.
pub require_cases :
    (now session_id : ℕ) (t : AuthDb)
    → (run (require_active_session now (some session_id)) t ≡ (ok session_id, t))
      ⊎ (run (require_active_session now (some session_id)) t ≡ (err revoked_error, t))
unfolding require_active_session
require_cases now session_id t = ground arith

user_of_payload-ok :
    (now : ℕ) (p : Payload) (t : AuthDb) (u : User)
    → ((run (user_of_payload now p) t).0 ≡ ok u) ↔ (
        (user_id : ℕ) × (session_id : ℕ) × (p.sub ≡ some user_id)
        × (p.sid ≡ some session_id)
        × ((run (require_active_session now (some session_id)) t).0 ≡ ok session_id)
        × ActiveUser t user_id u)
unfolding user_of_payload require_active_session stored_user
user_of_payload-ok now p t u = (
  λ e. elim (Option-cases p.sub) [
    | inl missing ↦ absurd (ground arith)
    | inr (user_id, sub) ↦ elim (Option-cases p.sid) [
      | inl missing ↦ absurd (ground arith)
      | inr (session_id, sid) ↦
          (user_id, session_id, sub, sid, ground arith, (ground arith, ground arith))
    ]
  ],
  λ w. ground arith,
)

-- Where session keys are unique, a token is accepted as a user's exactly if it can be decoded, the user
-- it names is stored and active, and the session it names is stored, unrevoked and running.
pub get_current_user-ok :
    (j : Jwt) (decoded_at now : ℕ) (token : j.Token) (t : AuthDb) (u : User)
    → Unique (λ (x : Session). x.id) t.sessions
    → ((run (get_current_user j decoded_at now token) t).0 ≡ ok u) ↔ (
        (p : Payload) × (user_id : ℕ) × (session_id : ℕ) × (j.decode_at decoded_at token ≡ some p)
        × (p.sub ≡ some user_id)
        × (p.sid ≡ some session_id)
        × Live now session_id t
        × ActiveUser t user_id u)
unfolding get_current_user decode_access_token
get_current_user-ok j decoded_at now token t u unique = (
  λ e. elim (Option-cases (j.decode_at decoded_at token)) [
    | inl refused ↦ absurd (ground arith)
    | inr (p, decoded) ↦
        let (user_id, session_id, sub, sid, required, active) =
          (user_of_payload-ok now p t u).0 (ground arith) in
        (
          p,
          user_id,
          session_id,
          decoded,
          sub,
          sid,
          (require_active_session-ok now session_id t unique).0 required,
          active,
        )
  ],
  λ (p, user_id, session_id, decoded, sub, sid, live, active). ground (
    arith,
    (user_of_payload-ok now p t u).1 (
      user_id,
      session_id,
      sub,
      sid,
      (require_active_session-ok now session_id t unique).1 live,
      active,
    ),
  ),
)

-- What a sign-in that goes through stores: its session in front, running and unrevoked.
signed_in :
    (s : Settings) (now : ℕ) (stamp : Stamp) (user_id : ℕ) (agent : Option String) (t : AuthDb)
    (session : Session)
    → (run (sign_in s now stamp user_id agent) t).0 ≡ ok session
    → ((run (sign_in s now stamp user_id agent) t).1 ≡ record t { sessions = session ∷ t.sessions })
      × (session.revoked_at ≡ none)
      × (session.expires_at ≡ now + minutes s.access_token_expire_minutes)
unfolding create_session
signed_in s now stamp user_id agent t session signed = (ground arith, ground arith, ground arith)

-- The token of a session is decoded as its payload until its whole second of expiry.
token_decoded :
    (j : Jwt) (s : Settings) (issued_at user_id : ℕ) (role : String) (session_id decoded_at : ℕ)
    → decoded_at < seconds ((issued_at + minutes s.access_token_expire_minutes) / 1000000)
    → (p : Payload) × (j.decode_at decoded_at
          (create_access_token j s issued_at user_id role session_id 0)
        ≡ some p)
      × (p.sub ≡ some user_id)
      × (p.sid ≡ some session_id)
unfolding create_access_token
token_decoded j s issued_at user_id role session_id decoded_at early =
    let signed : Payload = record {
      sub = some user_id;
      role = some role;
      sid = some session_id;
      ver = number 0;
      scope = none;
      exp = issued_at + minutes s.access_token_expire_minutes;
    } in
    let read : Payload = record signed { exp = seconds (signed.exp / 1000000) } in
    (
      read,
      ground (arith, j.decode_at_lem decoded_at (j.encode signed) read (j.decode-encode signed)),
      refl,
      refl,
    )

-- A session in front of the table, unrevoked and running, is required successfully.
newest_required :
    (now : ℕ) (t : AuthDb) (r : Session)
    → r.revoked_at ≡ none
    → now < r.expires_at
    → (run (require_active_session now (some r.id)) (record t { sessions = r ∷ t.sessions })).0
      ≡ ok r.id
unfolding require_active_session
newest_required now t r live running = ground (arith, (==_iff r.id r.id).1 refl)

-- A sign-in of a stored, active user that goes through is answered by a session whose token is
-- accepted as that user's, until the session or the token ends.
pub sign_in-accepted :
    (j : Jwt) (s : Settings) (now : ℕ) (stamp : Stamp) (agent : Option String) (t : AuthDb)
    (u : User) (session : Session) (issued_at decoded_at later : ℕ)
    → (run (sign_in s now stamp u.id agent) t).0 ≡ ok session
    → first (by_user_id u.id) t.users ≡ some u
    → u.is_active ≡ true
    → decoded_at < seconds ((issued_at + minutes s.access_token_expire_minutes) / 1000000)
    → later < now + minutes s.access_token_expire_minutes
    → let t' = (run (sign_in s now stamp u.id agent) t).1 in
      (run
        (get_current_user j decoded_at later
          (create_access_token j s issued_at u.id u.role session.id 0))
        t').0
      ≡ ok u
unfolding get_current_user decode_access_token
sign_in-accepted j s now stamp agent t u session issued_at decoded_at later signed stored active
      early soon =
    let (written, live, expires) = signed_in s now stamp u.id agent t session signed in
    let (p, decoded, sub, sid) =
      token_decoded j s issued_at u.id u.role session.id decoded_at early in
    let t' = (run (sign_in s now stamp u.id agent) t).1 in
    ground (
      arith,
      (user_of_payload-ok later p t' u).1 (
        u.id,
        session.id,
        sub,
        sid,
        subst (λ t'. (run (require_active_session later (some session.id)) t').0 ≡ ok session.id)
            (sym written) (newest_required later t session live (omega (arith, expires, soon))),
        (subst (λ t'. first (by_user_id u.id) t'.users ≡ some u) (sym written) stored, active),
      ),
    )
