-- ===== src/Devices/Pairing/SignIn.antt =====
-- From a confirmed code to a signed-in television, and what pairing keeps of the device limit.
use movie_api.Shared.{
  ℕ, ◌+◌, ◌/◌, ◌≤◌, ◌<◌, ◌≡◌, refl, sym, subst, ap, ◌∙◌, String, true, Option, none, some, arith,
  first, run, ok, All-update, first-update_self, Result-cases, inl, inr, seconds, minutes,
}
use movie_api.Models.{User, Settings, Stamp, AuthDb}
use movie_api.Tokens.{Jwt, create_access_token}
use movie_api.Session.{by_session_id, by_user_id}
use movie_api.Session.Limit.{IsSound, Step, Step-IsSound, sign_in-IsSound}
use movie_api.Auth.{get_current_user}
use movie_api.Auth.Acceptance.{sign_in-accepted}
use movie_api.Devices.Pairing.{
  PairingCode, PairingDb, access_token, of_hash, start_pairing, poll_pairing, confirm,
}
use movie_api.Devices.Pairing.Codes.{
  Holds, HoldsTokens, start-HoldsTokens, poll-HoldsTokens, confirmation, confirmed_code,
  unconfirmed,
}

module _ (T : Type 0) (digest : String → String) where
  start_auth :
      (expire_minutes now : ℕ) (raw_code : String) (t : PairingDb T)
      → (run (start_pairing T digest expire_minutes now raw_code) t).1.auth ≡ t.auth
  unfolding start_pairing
  start_auth expire_minutes now raw_code t = ground arith

  poll_auth :
      (now : ℕ) (raw_code : String) (t : PairingDb T)
      → (run (poll_pairing T digest now raw_code) t).1.auth ≡ t.auth
  unfolding poll_pairing
  poll_auth now raw_code t = ground arith

-- A pairing works: after a confirmation that goes through, by a stored, active user, the first poll
-- until the code's expiry hands out a token, and that token is accepted as the user's until it or the
-- session ends.
pub pairing-accepted :
    (j : Jwt) (digest : String → String) (s : Settings) (now : ℕ) (stamp : Stamp) (issued_at : ℕ)
    (raw_code : String) (user : User) (agent : Option String) (t : PairingDb j.Token)
    (r : PairingCode j.Token) (polled_at decoded_at later : ℕ)
    → (confirmation j digest s now stamp issued_at raw_code user agent t).0 ≡ ok tt
    → first (by_user_id user.id) t.auth.users ≡ some user
    → user.is_active ≡ true
    → first (of_hash (digest raw_code)) t.codes ≡ some r
    → polled_at ≤ r.expires_at
    → decoded_at < seconds ((issued_at + minutes s.access_token_expire_minutes) / 1000000)
    → later < now + minutes s.access_token_expire_minutes
    → let t' = (confirmation j digest s now stamp issued_at raw_code user agent t).1 in
      (token : j.Token) × ((run (poll_pairing j.Token digest polled_at raw_code) t').0
        ≡ ok (access_token (some token)))
      × ((run
            (get_current_user j decoded_at later token)
            (run (poll_pairing j.Token digest polled_at raw_code) t').1.auth).0
          ≡ ok user)
unfolding poll_pairing
pairing-accepted j digest s now stamp issued_at raw_code user agent t r polled_at decoded_at later
      done stored active found early decodes lives =
    let (x, session, same, waits, intime, signed, written) =
      confirmed_code j digest s now stamp issued_at raw_code user agent t done in
    let token = create_access_token j s issued_at user.id user.role session.id 0 in
    let t' = (confirmation j digest s now stamp issued_at raw_code user agent t).1 in
    let ready : first (of_hash (digest raw_code)) t'.codes ≡ some (confirm j digest user token r) =
      subst
        (λ (u : PairingDb j.Token).
          first (of_hash (digest raw_code)) u.codes ≡ some (confirm j digest user token r))
        (sym written)
        (first-update_self (of_hash (digest raw_code)) (confirm j digest user token) t.codes
          (λ y. refl) found) in
    (
      token,
      ground (arith, ready),
      subst (λ (auth : AuthDb). (run (get_current_user j decoded_at later token) auth).0 ≡ ok user)
          (sym (
            poll_auth j.Token digest polled_at raw_code t'
            ∙ ap (λ (u : PairingDb j.Token). u.auth) written))
          (sign_in-accepted j s now stamp agent t.auth user session issued_at decoded_at later
            signed stored active decodes lives),
    )

module _ (j : Jwt) (digest : String → String) (s : Settings) where
  -- One request on the codes at the instant `now`, or one of the session services.
  pub data PairingStep (now : ℕ) (t : PairingDb j.Token) : PairingDb j.Token → Type 0 where
    starts :
        (expire_minutes : ℕ) (raw_code : String)
        → PairingStep now t (run (start_pairing j.Token digest expire_minutes now raw_code) t).1
    confirms :
        (stamp : Stamp) (issued_at : ℕ) (raw_code : String) (user : User) (agent : Option String)
        → first (by_session_id stamp.id) t.auth.sessions ≡ none
        → PairingStep now t (confirmation j digest s now stamp issued_at raw_code user agent t).1
    polls :
        (raw_code : String) → PairingStep now t (run (poll_pairing j.Token digest now raw_code) t).1
    requests :
        {auth : AuthDb} → Step j s now t.auth auth → PairingStep now t (record t { auth = auth })

  -- Pairing keeps the device limit, and a token is stored at a code only while it waits there.
  pub record IsPaired (now : ℕ) (t : PairingDb j.Token) : Type 0 where
    pub tokens : HoldsTokens j.Token t
    pub sound : IsSound s now t.auth

  confirm-IsPaired :
      (now : ℕ) (stamp : Stamp) (issued_at : ℕ) (raw_code : String) (user : User)
      (agent : Option String) (t : PairingDb j.Token)
      → first (by_session_id stamp.id) t.auth.sessions ≡ none
      → IsPaired now t
      → IsPaired now (confirmation j digest s now stamp issued_at raw_code user agent t).1
  confirm-IsPaired now stamp issued_at raw_code user agent t fresh h =
      elim (Result-cases (confirmation j digest s now stamp issued_at raw_code user agent t).0) [
        | inl (e, failed) ↦
            subst (IsPaired now)
              (sym (unconfirmed j digest s now stamp issued_at raw_code user agent t e failed)) h
        | inr (u, done) ↦
            let (r, session, found, waits, early, signed, stored) =
              confirmed_code j digest s now stamp issued_at raw_code user agent t done in
            subst (IsPaired now) (sym stored) (record {
              tokens =
                  All-update Holds (of_hash (digest raw_code)) _ t.codes (λ x held. refl) h.tokens;
              sound = sign_in-IsSound now stamp user.id agent fresh h.sound;
            })
      ]

  -- Every step, at one instant and under a fresh key for a new session, keeps the device limit, and
  -- keeps a token stored at a code exactly while the code is confirmed.
  pub PairingStep-IsPaired :
      {now : ℕ} {t u : PairingDb j.Token} → IsPaired now t → PairingStep now t u → IsPaired now u
  PairingStep-IsPaired {now} {t} h (starts expire_minutes raw_code) = record {
    tokens = start-HoldsTokens j.Token digest expire_minutes now raw_code t h.tokens;
    sound =
        subst (IsSound s now) (sym (start_auth j.Token digest expire_minutes now raw_code t))
          h.sound;
  }
  PairingStep-IsPaired {now} {t} h (confirms stamp issued_at raw_code user agent fresh) =
      confirm-IsPaired now stamp issued_at raw_code user agent t fresh h
  PairingStep-IsPaired {now} {t} h (polls raw_code) = record {
    tokens = poll-HoldsTokens j.Token digest now raw_code t h.tokens;
    sound = subst (IsSound s now) (sym (poll_auth j.Token digest now raw_code t)) h.sound;
  }
  PairingStep-IsPaired h (requests st) = record {
    tokens = h.tokens;
    sound = Step-IsSound j h.sound st;
  }
