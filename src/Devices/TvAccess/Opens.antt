-- ===== src/Devices/TvAccess/Opens.antt =====
-- A login with the id of a television, seen from the rest of the service.
use movie_api.Shared.{
  ℕ, ◌+◌, ◌/◌, ◌<◌, ◌≡◌, ◌||◌, sym, subst, ap, String, true, Option, some, arith, first, exists,
  run, ok, seconds, minutes, strip, upper, ==_iff, first-true, ==_refl, count, update,
}
use movie_api.Models.{User, Settings, Stamp, AuthDb}
use movie_api.Shop.{ShopDb}
use movie_api.Tokens.{Jwt, create_access_token}
use movie_api.Session.{by_user_id, set_revoked}
use movie_api.Access.{user_has_active_subscription}
use movie_api.Auth.{get_current_user}
use movie_api.Auth.Acceptance.{sign_in-accepted}
use movie_api.Devices.TvAccess.{
  TvAccessCode, TvDb, of_code, tv_subscription, tv_agent, login_with_tv_access_code,
}
use movie_api.Devices.TvAccess.Login.{
  open_for, tv_session, logged_in, login_lem, tv_sign_in, none_open, renewed_runs,
}

-- The id of this row is valid: active, not expired, and its user is stored and active.
pub record IsValid (now : ℕ) (raw_code : String) (t : TvDb) (row : TvAccessCode) (user : User)
    : Type 0 where
  pub found : first (of_code (upper (strip raw_code))) t.codes ≡ some row
  pub on : row.is_active ≡ true
  pub early : now < row.expires_at
  pub holder : first (by_user_id row.user_id) t.auth.users ≡ some user
  pub active : user.is_active ≡ true

module _ (s : Settings) (now : ℕ) (stamp : Stamp) (agent : Option String) (raw_code : String)
    (t : TvDb) (row : TvAccessCode) (user : User) (v : IsValid now raw_code t row user)
    (room : 0 < s.max_active_sessions_per_user) where
  after : TvDb
  after = logged_in s now stamp user.id row.expires_at agent t

  pub held : first (by_user_id user.id) t.auth.users ≡ some user
  held =
      subst (λ id. first (by_user_id id) t.auth.users ≡ some user)
        (sym (
          (==_iff user.id row.user_id).0
            (first-true (by_user_id row.user_id) t.auth.users v.holder)))
        v.holder

  accepted :
      (j : Jwt) (issued_at decoded_at later : ℕ)
      → decoded_at < seconds ((issued_at + minutes s.access_token_expire_minutes) / 1000000)
      → later < now + minutes s.access_token_expire_minutes
      → (run
          (get_current_user j decoded_at later
            (create_access_token j s issued_at user.id user.role stamp.id 0))
          after.auth).0
        ≡ ok user
  unfolding after
  accepted j issued_at decoded_at later decodes lives =
      let auth = record t.auth {
        sessions = update (open_for user.id) (set_revoked now) t.auth.sessions;
      } in
      let signed = tv_sign_in s now stamp agent t.auth user held room in
      subst
        (λ (a : AuthDb).
          (run
            (get_current_user j decoded_at later
              (create_access_token j s issued_at user.id user.role stamp.id 0))
            a).0
          ≡ ok user)
        (ap (λ p. p.1) signed)
        (sign_in-accepted j s now stamp (tv_agent agent) auth user
          (tv_session s now stamp user.id agent) issued_at decoded_at later (ap (λ p. p.0) signed)
          held v.active decodes lives)

  one_left : count (open_for user.id) after.auth.sessions ≡ 1
  unfolding after
  one_left = ground (arith, none_open now user.id t.auth.sessions, ==_refl user.id)

  entitled :
      (shop : ShopDb) (at : ℕ)
      → at < row.expires_at
      → user_has_active_subscription at
          (record shop { subscriptions = after.subscriptions })
          user.id
        ≡ (exists (tv_subscription user.id) t.subscriptions
            || user_has_active_subscription at
                (record shop { subscriptions = t.subscriptions })
                user.id)
  unfolding after user_has_active_subscription
  entitled shop at early = renewed_runs at user.id row.expires_at t.subscriptions early

  -- Entering a valid id, where the limit allows for a device at all, goes through. The token that it
  -- answers is accepted as the id's user until it or the session ends, and exactly one session of the
  -- user is left unrevoked. At every instant before the id's expiry the user then has an active
  -- subscription exactly if they hold the one of the id or had an active one already.
  pub login_opens :
      (j : Jwt) (issued_at decoded_at later : ℕ) (shop : ShopDb) (at : ℕ)
      → decoded_at < seconds ((issued_at + minutes s.access_token_expire_minutes) / 1000000)
      → later < now + minutes s.access_token_expire_minutes
      → at < row.expires_at
      → let t' = (run (login_with_tv_access_code j s now stamp issued_at raw_code agent) t).1 in
        (token : j.Token) × ((run
            (login_with_tv_access_code j s now stamp issued_at raw_code agent)
            t).0
          ≡ ok token)
        × ((run (get_current_user j decoded_at later token) t'.auth).0 ≡ ok user)
        × (count (open_for user.id) t'.auth.sessions ≡ 1)
        × (user_has_active_subscription at
              (record shop { subscriptions = t'.subscriptions })
              user.id
            ≡ (exists (tv_subscription user.id) t.subscriptions
                || user_has_active_subscription at
                    (record shop { subscriptions = t.subscriptions })
                    user.id))
  unfolding after
  login_opens j issued_at decoded_at later shop at decodes lives early =
      let entered =
        login_lem s now stamp agent j issued_at raw_code t row user v.found v.on v.early v.holder
          v.active room in
      let left = sym (ap (λ p. p.1) entered) in
      let token = create_access_token j s issued_at user.id user.role stamp.id 0 in
      (
        token,
        ap (λ p. p.0) entered,
        subst (λ (t' : TvDb). (run (get_current_user j decoded_at later token) t'.auth).0 ≡ ok user)
            left (accepted j issued_at decoded_at later decodes lives),
        subst (λ (t' : TvDb). count (open_for user.id) t'.auth.sessions ≡ 1) left one_left,
        subst
            (λ (t' : TvDb).
              user_has_active_subscription at (record shop { subscriptions = t'.subscriptions })
                user.id
              ≡ (exists (tv_subscription user.id) t.subscriptions
                  || user_has_active_subscription at
                      (record shop { subscriptions = t.subscriptions }) user.id))
            left (entitled shop at early),
      )
