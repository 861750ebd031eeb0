-- ===== src/Devices/Pairing/Codes.antt =====
-- The life of a pairing code: a token is stored only between its confirmation and its first poll.
use movie_api.Shared.{
  ℕ, ◌≤◌, ◌≡◌, ◌⊎◌, ◌||◌, ltb, refl, sym, subst, String, Bool, true, false, Option, some, arith,
  first, update, eq_iff, run, ok, err, All, All-update, first-true, first-update_self, Option-cases,
  Bool-cases, inl, inr, Result, Result-cases, HttpError, is_some,
}
use movie_api.Session.Limit.{sign_in}
use movie_api.Models.{User, Session, Settings, Stamp}
use movie_api.Tokens.{Jwt, create_access_token}
use movie_api.Session.{create_session}
use movie_api.Devices.Pairing.{
  PairingStatus, pending, confirmed, PairingCode, PairingDb, access_token, code_error, is_pending,
  is_expired, of_hash, start_pairing, poll_pairing, consume, confirm, confirm_pairing,
}

abbrev pub is_confirmed : PairingStatus → Bool
is_confirmed confirmed = true
is_confirmed _ = false

-- The code holds a token exactly while it is confirmed.
abbrev pub Holds : {T : Type 0} → PairingCode T → Type 0
Holds r = is_some r.token ≡ is_confirmed r.status

abbrev pub HoldsTokens : (T : Type 0) → PairingDb T → Type 0
HoldsTokens T t = All Holds t.codes

module _ (T : Type 0) (digest : String → String) where
  pub start-HoldsTokens :
      (expire_minutes now : ℕ) (raw_code : String) (t : PairingDb T)
      → HoldsTokens T t
      → HoldsTokens T (run (start_pairing T digest expire_minutes now raw_code) t).1
  unfolding start_pairing
  start-HoldsTokens expire_minutes now raw_code t h = ground arith

  -- What a poll that hands out a token found and left.
  pub handed_out :
      (now : ℕ) (raw_code : String) (t : PairingDb T) (o : Option T)
      → (run (poll_pairing T digest now raw_code) t).0 ≡ ok (access_token o)
      → (r : PairingCode T) × (first (of_hash (digest raw_code)) t.codes ≡ some r)
        × (r.status ≡ confirmed)
        × (now ≤ r.expires_at)
        × (o ≡ r.token)
        × ((run (poll_pairing T digest now raw_code) t).1
            ≡ record t { codes = update (of_hash (digest raw_code)) consume t.codes })
  unfolding poll_pairing
  handed_out now raw_code t o e = elim (Option-cases (first (of_hash (digest raw_code)) t.codes)) [
    | inl missing ↦ absurd (ground arith)
    | inr (r, found) ↦
        let same =
          (eq_iff r.code_hash (digest raw_code)).0
            (first-true (of_hash (digest raw_code)) t.codes found) in
        (r, found, ground arith, ground arith, ground arith, ground arith)
  ]

  poll_stored :
      (now : ℕ) (raw_code : String) (t : PairingDb T)
      → ((run (poll_pairing T digest now raw_code) t).1 ≡ t)
        ⊎ ((k : String) × ((run (poll_pairing T digest now raw_code) t).1
              ≡ record t { codes = update (of_hash k) consume t.codes }))
  unfolding poll_pairing
  poll_stored now raw_code t = elim (Option-cases (first (of_hash (digest raw_code)) t.codes)) [
    | inl missing ↦ inl (ground arith)
    | inr (r, found) ↦
        elim (Bool-cases (ltb r.expires_at now || is_expired r.status || is_pending r.status)) [
          | inl held ↦ inl (ground arith)
          | inr fresh ↦ inr (r.code_hash, ground arith)
        ]
  ]

  pub poll-HoldsTokens :
      (now : ℕ) (raw_code : String) (t : PairingDb T)
      → HoldsTokens T t
      → HoldsTokens T (run (poll_pairing T digest now raw_code) t).1
  poll-HoldsTokens now raw_code t h = elim (poll_stored now raw_code t) [
    | inl same ↦ subst (HoldsTokens T) (sym same) h
    | inr (k, stored) ↦
        subst (HoldsTokens T) (sym stored)
          (All-update Holds (of_hash k) consume t.codes (λ x held. refl) h)
  ]

  -- A code that was polled for its token is answered as expired to every later poll.
  pub poll_once :
      (now later : ℕ) (raw_code : String) (t : PairingDb T) (o : Option T)
      → (run (poll_pairing T digest now raw_code) t).0 ≡ ok (access_token o)
      → let t' = (run (poll_pairing T digest now raw_code) t).1 in
        run (poll_pairing T digest later raw_code) t' ≡ (err code_error, t')
  unfolding poll_pairing
  poll_once now later raw_code t o e =
      let (r, found, status, early, same, stored) = handed_out now raw_code t o e in
      let spent = first-update_self (of_hash (digest raw_code)) consume t.codes (λ x. refl) found in
      ground (arith, stored)

module _ (j : Jwt) (digest : String → String) (s : Settings) (now : ℕ) (stamp : Stamp)
    (issued_at : ℕ) (raw_code : String) (user : User) (agent : Option String)
    (t : PairingDb j.Token) where
  abbrev pub confirmation : Result (Unit {0}) × PairingDb j.Token
  confirmation = run (confirm_pairing j digest s now stamp issued_at raw_code user agent) t

  -- A confirmation that goes through found a pending code in time; it signs the user in, and stores
  -- the token of the new session at the code.
  pub confirmed_code :
      confirmation.0 ≡ ok tt
      → (r : PairingCode j.Token) × (session : Session) × (first (of_hash (digest raw_code)) t.codes
          ≡ some r)
        × (r.status ≡ pending)
        × (now ≤ r.expires_at)
        × ((run (sign_in s now stamp user.id agent) t.auth).0 ≡ ok session)
        × (confirmation.1 ≡ record {
          auth = (run (sign_in s now stamp user.id agent) t.auth).1;
          codes =
              update
                (of_hash (digest raw_code))
                (confirm j digest user
                  (create_access_token j s issued_at user.id user.role session.id 0))
                t.codes;
        })
  unfolding confirm_pairing
  confirmed_code e = elim (Option-cases (first (of_hash (digest raw_code)) t.codes)) [
    | inl missing ↦ absurd (ground arith)
    | inr (r, found) ↦
        let same =
          (eq_iff r.code_hash (digest raw_code)).0
            (first-true (of_hash (digest raw_code)) t.codes found) in
        elim (Result-cases
          (create_session s now now stamp user.id agent
            (record { current = t.auth; saved = t.auth })).0) [
              | inl (x, failed) ↦ absurd (ground arith)
              | inr (session, signed) ↦
                  (r, session, found, ground arith, ground arith, ground arith, ground arith)
            ]
  ]

  -- One that fails changes nothing.
  pub unconfirmed : (e : HttpError) → confirmation.0 ≡ err e → confirmation.1 ≡ t
  unfolding confirm_pairing
  unconfirmed x e = ground arith
