-- ===== src/Tests/Session.antt =====
-- Sessions of one user at a limit of two devices, and PyJWT played by the payload itself.
use movie_api.Shared.{
  ℕ, ◌/◌, ◌≡◌, refl, true, none, some, [], ◌∷◌, arith, ltb, if◌then◌else◌, run, seconds, minutes,
  err, update,
}
use movie_api.Models.{User, Session, AuthDb, Settings}
use movie_api.Tokens.{Payload, Jwt}
use movie_api.DeviceLabel.{device_label_from_user_agent}
use movie_api.Session.{
  by_session_id, create_session, refresh_claims, revoke_session, past_cutoff, revoked_error,
  set_revoked,
}
use movie_api.Session.Limit.{
  IsSound, Reach, begin, wait, step, signs_in, revokes, sign_in, Reach-IsSound,
}
use movie_api.Session.Rotation.{replay_revokes}

test_label :
    device_label_from_user_agent (some "Mozilla/5.0 (iPhone; CPU OS) AppleWebKit CriOS/1 Safari/2")
    ≡ "Chrome on iOS"
unfolding device_label_from_user_agent
test_label = refl

-- The expiry is kept in whole seconds.
abbrev whole : Payload → Payload
whole p = record p { exp = seconds (p.exp / 1000000) }

pub decode_law :
    (now : ℕ) (t p : Payload)
    → some t ≡ some p
    → (if ltb now t.exp then some t else none) ≡ (if ltb now p.exp then some p else none)
decode_law now t p e = cc

abbrev pub plain_jwt : Jwt
plain_jwt = record {
  Token = Payload;
  encode = whole;
  decode = some;
  decode_at = λ now t. if ltb now t.exp then some t else none;
  decode-encode = λ p. refl;
  decode_at_lem = decode_law;
}

abbrev pub settings : Settings
settings = record {
  access_token_expire_minutes = 60;
  session_refresh_grace_days = none;
  max_active_sessions_per_user = 2;
}

abbrev pub alice : User
alice = record {
  id = 7;
  email = "a@x";
  password_hash = some "h:secret";
  google_id = none;
  telegram_id = none;
  apple_id = none;
  avatar_url = none;
  full_name = none;
  role = "user";
  is_active = true;
}

abbrev pub phone : Session
phone = record {
  id = 1;
  user_id = 7;
  device_label = "Safari on iOS";
  created_at = 10;
  expires_at = minutes 60;
  revoked_at = none;
  token_version = 3;
  refreshed_at = none;
}

abbrev old_tv : Session
old_tv = record phone { id = 2; user_id = 8; created_at = 20; revoked_at = some 30 }

abbrev pub store : AuthDb
store = record { users = alice ∷ []; sessions = phone ∷ old_tv ∷ [] }

-- A sign-in, and a third one that the limit refuses.
two_sign_ins :
    let once = run (sign_in settings 50 (record { id = 5; created_at = 50 }) 7 none) store in
    let twice = run (sign_in settings 60 (record { id = 6; created_at = 60 }) 7 none) once.1 in
    twice.1 ≡ once.1
unfolding create_session device_label_from_user_agent
two_sign_ins = refl

store-IsSound : IsSound settings 40 store
store-IsSound = record { unique = (refl, (refl, tt)); within = λ u. ground arith }

-- A sign-in, a wait, and a revocation.
abbrev after_sign_in : AuthDb
after_sign_in = (run (sign_in settings 40 (record { id = 5; created_at = 40 }) 7 none) store).1

journey : Reach plain_jwt settings 40 store 90 (run (revoke_session 90 7 1) after_sign_in).1
journey =
    step
      (wait 90 (omega arith)
        (step begin (signs_in (record { id = 5; created_at = 40 }) 7 none refl)))
      (revokes 7 1)

Reach-IsSound_example : IsSound settings 90 (run (revoke_session 90 7 1) after_sign_in).1
Reach-IsSound_example = Reach-IsSound plain_jwt store-IsSound journey

replay_revokes_example :
    let t' = (run (refresh_claims settings 50 50 1 7 3) store).1 in
    run (refresh_claims settings (minutes 3) (minutes 3) 1 7 3) t' ≡ (
      err revoked_error,
      record t' { sessions = update (by_session_id 1) (set_revoked (minutes 3)) t'.sessions },
    )
unfolding refresh_claims past_cutoff
replay_revokes_example =
    replay_revokes settings 50 50 (minutes 3) (minutes 3) 1 7 3 store alice phone 4
      (refl, (refl, tt)) refl refl (omega arith) refl
