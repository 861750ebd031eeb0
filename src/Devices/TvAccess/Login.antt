-- ===== src/Devices/TvAccess/Login.antt =====
-- What entering the id of a television does: it always works while the id is valid, it leaves one
-- television signed in, and it opens the catalogue until the id expires.
use movie_api.Shared.{
  ℕ, ◌+◌, ◌<◌, ◌≡◌, ◌||◌, refl, sym, subst, String, Bool, true, not, ◌&&◌, Option, none, some, List,
  [], ◌∷◌, arith, first, count, exists, update, ◌==◌, run, ok, minutes, strip, upper, Conn,
  first-true, ==_iff,
}
use movie_api.Models.{User, Session, Settings, Stamp, AuthDb}
use movie_api.Shop.{Subscription}
use movie_api.DeviceLabel.{device_label_from_user_agent}
use movie_api.Tokens.{Jwt, create_access_token}
use movie_api.Session.{
  by_user_id, is_revoked, active_for, set_revoked, create_session, revoke_all_user_sessions,
}
use movie_api.Session.Limit.{sign_in}
use movie_api.Access.{runs_for}
use movie_api.Devices.TvAccess.{
  TvAccessCode, TvDb, of_code, tv_subscription, renew, admit_tv, switch_tv, tv_agent,
  login_with_tv_access_code,
}

-- The sessions of the user that are not revoked yet.
abbrev pub open_for : ℕ → Session → Bool
open_for user_id r = r.user_id == user_id && not (is_revoked r)

none_active :
    (now user_id : ℕ) (rows : List Session)
    → count (active_for now user_id) (update (open_for user_id) (set_revoked now) rows) ≡ 0
none_active now user_id [] = refl
none_active now user_id (r ∷ rows) = ground (arith, none_active now user_id rows)

pub none_open :
    (now user_id : ℕ) (rows : List Session)
    → count (open_for user_id) (update (open_for user_id) (set_revoked now) rows) ≡ 0
none_open now user_id [] = refl
none_open now user_id (r ∷ rows) = ground (arith, none_open now user_id rows)

-- The session of the television.
abbrev pub tv_session : Settings → ℕ → Stamp → ℕ → Option String → Session
tv_session s now stamp user_id agent = record {
  id = stamp.id;
  user_id = user_id;
  device_label = device_label_from_user_agent (tv_agent agent);
  created_at = stamp.created_at;
  expires_at = now + minutes s.access_token_expire_minutes;
  revoked_at = none;
  token_version = 0;
  refreshed_at = none;
}

abbrev pub conn : TvDb → Conn TvDb
conn t = record { current = t; saved = t }

-- What a login leaves: the subscription renewed, the other sessions revoked and one session more.
abbrev pub logged_in : Settings → ℕ → Stamp → ℕ → ℕ → Option String → TvDb → TvDb
logged_in s now stamp user_id expires_at agent t = record t {
  auth = record t.auth {
    sessions =
        tv_session s now stamp user_id agent
        ∷ update (open_for user_id) (set_revoked now) t.auth.sessions;
  };
  subscriptions = update (tv_subscription user_id) (renew expires_at) t.subscriptions;
}

module _ (s : Settings) (now : ℕ) (stamp : Stamp) (agent : Option String) where
  switched :
      (t : TvDb) (user : User)
      → first (by_user_id user.id) t.auth.users ≡ some user
      → 0 < s.max_active_sessions_per_user
      → switch_tv s now stamp user agent (conn t) ≡ (
        ok (tv_session s now stamp user.id agent),
        conn (record t {
          auth = record t.auth {
            sessions =
                tv_session s now stamp user.id agent
                ∷ update (open_for user.id) (set_revoked now) t.auth.sessions;
          };
        }),
      )
  unfolding switch_tv create_session revoke_all_user_sessions
  switched t user holder room = ground (arith, none_active now user.id t.auth.sessions)

  -- While an id is active and not expired, its user is stored and active, and the limit allows for a
  -- device at all, entering it signs the television in: every earlier session of the user is revoked,
  -- the new one is added, the subscription runs to the id's expiry, and the token names the session.
  pub login_lem :
      (j : Jwt) (issued_at : ℕ) (raw_code : String) (t : TvDb) (row : TvAccessCode) (user : User)
      → first (of_code (upper (strip raw_code))) t.codes ≡ some row
      → row.is_active ≡ true
      → now < row.expires_at
      → first (by_user_id row.user_id) t.auth.users ≡ some user
      → user.is_active ≡ true
      → 0 < s.max_active_sessions_per_user
      → run (login_with_tv_access_code j s now stamp issued_at raw_code agent) t ≡ (
        ok (create_access_token j s issued_at user.id user.role stamp.id 0),
        logged_in s now stamp user.id row.expires_at agent t,
      )
  unfolding login_with_tv_access_code admit_tv
  login_lem j issued_at raw_code t row user found on early holder active room =
      let same : row.user_id ≡ user.id = sym (
        (==_iff user.id row.user_id).0 (first-true (by_user_id row.user_id) t.auth.users holder)) in
      let t1 = record t {
        subscriptions = update (tv_subscription user.id) (renew row.expires_at) t.subscriptions;
      } in
      ground (
        arith,
        switched t1 user (subst (λ id. first (by_user_id id) t.auth.users ≡ some user) same holder)
            room,
      )

  -- The session service sees the login as a sign-in after the revocation.
  pub tv_sign_in :
      (auth : AuthDb) (user : User)
      → first (by_user_id user.id) auth.users ≡ some user
      → 0 < s.max_active_sessions_per_user
      → run
          (sign_in s now stamp user.id (tv_agent agent))
          (record auth { sessions = update (open_for user.id) (set_revoked now) auth.sessions })
        ≡ (
          ok (tv_session s now stamp user.id agent),
          record auth {
            sessions =
                tv_session s now stamp user.id agent
                ∷ update (open_for user.id) (set_revoked now) auth.sessions;
          },
        )
  unfolding create_session
  tv_sign_in auth user holder room = ground (arith, none_active now user.id auth.sessions)

-- Before the id expires the user has a running subscription exactly if they hold the id's, which was
-- renewed, or had a running one.
pub renewed_runs :
    (later user_id expires_at : ℕ) (rows : List Subscription)
    → later < expires_at
    → exists (runs_for later user_id) (update (tv_subscription user_id) (renew expires_at) rows)
      ≡ (exists (tv_subscription user_id) rows || exists (runs_for later user_id) rows)
renewed_runs later user_id expires_at [] early = refl
renewed_runs later user_id expires_at (r ∷ rows) early =
    ground (arith, renewed_runs later user_id expires_at rows early)
