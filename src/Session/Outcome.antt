-- ===== src/Session/Outcome.antt =====
-- What the handlers of sessions leave stored, branch by branch.
use movie_api.Shared.{
  ℕ, ◌<◌, ◌≡◌, sym, subst, ◌⊎◌, inl, inr, none, some, List, arith, ◌==◌, first, count, update, run,
  Option-cases, ◌&&◌, Unique, first-true, first_of_both, not,
}
use movie_api.Tokens.{Jwt, Payload, decode_expired_access_token}
use movie_api.Models.{Session, AuthDb, Settings}
use movie_api.Session.{
  active_for, is_revoked, by_session_id, revoke_session, refresh_claims, next_version, extended,
  live_by_id, refresh_session, claims,
}

-- What `revoke_session` stores, by the row that it finds.
module _ (now : ℕ) (t : AuthDb) (user_id session_id : ℕ) where
  pub revoke_missing :
      first (λ (r : Session). r.id == session_id && r.user_id == user_id) t.sessions ≡ none
      → (run (revoke_session now user_id session_id) t).1 ≡ t
  unfolding revoke_session
  revoke_missing missing = ground arith

  pub revoke_old :
      (r : Session) {at : ℕ}
      → first (λ (r : Session). r.id == session_id && r.user_id == user_id) t.sessions ≡ some r
      → r.revoked_at ≡ some at
      → (run (revoke_session now user_id session_id) t).1 ≡ t
  unfolding revoke_session
  revoke_old r found old = ground arith

  pub revoke_live :
      (r : Session)
      → first (λ (r : Session). r.id == session_id && r.user_id == user_id) t.sessions ≡ some r
      → r.revoked_at ≡ none
      → (run (revoke_session now user_id session_id) t).1 ≡ record t {
        sessions = update (by_session_id r.id) (λ x. record x { revoked_at = some now }) t.sessions;
      }
  unfolding revoke_session
  revoke_live r found live = ground arith

-- What a refresh may leave stored: the tables as they were, one session revoked, or one session
-- extended to the version that its token calls for, if there was a device slot for it.
abbrev pub Outcome : Settings → ℕ → ℕ → ℕ → ℕ → AuthDb → AuthDb → Type 0
Outcome s now count_at session_id version t stored =
    (stored ≡ t)
    ⊎ ((r : Session) × (first (live_by_id session_id) t.sessions ≡ some r)
        × (stored ≡ record t {
          sessions =
              update (by_session_id r.id) (λ x. record x { revoked_at = some now }) t.sessions;
        }))
    ⊎ ((r : Session) × (next : ℕ) × (first (live_by_id session_id) t.sessions ≡ some r)
        × (next_version now version r ≡ some next)
        × ((now < r.expires_at)
            ⊎ (count (active_for count_at r.user_id) t.sessions < s.max_active_sessions_per_user))
        × (stored
            ≡ record t { sessions = update (by_session_id r.id) (extended s now next) t.sessions }))

module _ (s : Settings) (now count_at session_id user_id version : ℕ) (t : AuthDb) where
  refresh_missing :
      first (live_by_id session_id) t.sessions ≡ none
      → (run (refresh_claims s now count_at session_id user_id version) t).1 ≡ t
  unfolding refresh_claims
  refresh_missing missing = ground arith

  refresh_replayed :
      (r : Session)
      → first (live_by_id session_id) t.sessions ≡ some r
      → next_version now version r ≡ none
      → let stored = (run (refresh_claims s now count_at session_id user_id version) t).1 in
        (stored ≡ t)
        ⊎ (stored ≡ record t {
          sessions =
              update (by_session_id r.id) (λ x. record x { revoked_at = some now }) t.sessions;
        })
  unfolding refresh_claims
  refresh_replayed r found replay = ground arith

  refresh_stepped :
      (r : Session) (next : ℕ)
      → first (live_by_id session_id) t.sessions ≡ some r
      → next_version now version r ≡ some next
      → let stored = (run (refresh_claims s now count_at session_id user_id version) t).1 in
        (stored ≡ t)
        ⊎ ((now < r.expires_at)
            ⊎ (count (active_for count_at r.user_id) t.sessions < s.max_active_sessions_per_user))
          × (stored ≡ record t {
            sessions = update (by_session_id r.id) (extended s now next) t.sessions;
          })
  unfolding refresh_claims
  refresh_stepped r next found step = ground arith

  pub refresh_claims-Outcome :
      Outcome s now count_at session_id version t
        (run (refresh_claims s now count_at session_id user_id version) t).1
  refresh_claims-Outcome = elim (Option-cases (first (live_by_id session_id) t.sessions)) [
    | inl missing ↦ inl (refresh_missing missing)
    | inr (r, found) ↦ elim (Option-cases (next_version now version r)) [
      | inl replay ↦ elim (refresh_replayed r found replay) [
        | inl same ↦ inl same
        | inr stored ↦ inr (inl (r, found, stored))
      ]
      | inr (next, step) ↦ elim (refresh_stepped r next found step) [
        | inl same ↦ inl same
        | inr (room, stored) ↦ inr (inr (r, next, found, step, room, stored))
      ]
    ]
  ]

-- A row found by key among the unrevoked ones is the row of that key.
pub first-live :
    (session_id : ℕ) (rows : List Session) (r : Session)
    → Unique (λ (x : Session). x.id) rows
    → first (live_by_id session_id) rows ≡ some r
    → (r.revoked_at ≡ none) × (first (by_session_id r.id) rows ≡ some r)
first-live session_id rows r u found =
    let holds = first-true (live_by_id session_id) rows found in
    let row =
      first_of_both (λ (x : Session). x.id) (λ x. not (is_revoked x)) session_id rows u found in
    let same : r.id ≡ session_id = ground arith in
    (ground arith, subst (λ k. first (by_session_id k) rows ≡ some r) (sym same) row)

module _ (j : Jwt) (s : Settings) (now count_at issued_at : ℕ) (token : j.Token) (t : AuthDb) where
  refresh_bad :
      j.decode token ≡ none → (run (refresh_session j s now count_at issued_at token) t).1 ≡ t
  unfolding refresh_session decode_expired_access_token
  refresh_bad bad = ground arith

  refresh_unreadable :
      (p : Payload)
      → j.decode token ≡ some p
      → claims p ≡ none
      → (run (refresh_session j s now count_at issued_at token) t).1 ≡ t
  unfolding refresh_session decode_expired_access_token
  refresh_unreadable p read unreadable = ground arith

  refresh_read :
      (p : Payload) {session_id user_id version : ℕ}
      → j.decode token ≡ some p
      → claims p ≡ some (session_id, user_id, version)
      → (run (refresh_session j s now count_at issued_at token) t).1
        ≡ (run (refresh_claims s now count_at session_id user_id version) t).1
  unfolding refresh_session decode_expired_access_token
  refresh_read p read e = ground arith

-- A refresh stores what it stores for the claims of its token, or nothing.
pub refresh_session_stored :
    (j : Jwt) (s : Settings) (now count_at issued_at : ℕ) (token : j.Token) (t : AuthDb)
    → let stored = (run (refresh_session j s now count_at issued_at token) t).1 in
      (stored ≡ t)
      ⊎ ((session_id user_id version : ℕ) × (stored
            ≡ (run (refresh_claims s now count_at session_id user_id version) t).1))
refresh_session_stored j s now count_at issued_at token t = elim (Option-cases (j.decode token)) [
  | inl bad ↦ inl (refresh_bad j s now count_at issued_at token t bad)
  | inr (p, read) ↦ elim (Option-cases (claims p)) [
    | inl unreadable ↦ inl (refresh_unreadable j s now count_at issued_at token t p read unreadable)
    | inr ((session_id, user_id, version), e) ↦
        inr (session_id, user_id, version, refresh_read j s now count_at issued_at token t p read e)
  ]
]
