-- ===== src/Auth/Revoked.antt =====
-- What revoking a session does to the tokens that name it.
use movie_api.Shared.{
  ℕ, ◌≡◌, inl, inr, refl, sym, subst, ap, some, arith, ◌==◌, first, run, ok, err, Unique,
  Option-cases, first-update, first-true, key_of_first, update-Unique, ◌&&◌,
}
use movie_api.Models.{Session, AuthDb}
use movie_api.Tokens.{Payload, Jwt, decode_access_token}
use movie_api.Session.{
  by_session_id, require_active_session, revoke_session, revoked_error, set_revoked,
}
use movie_api.Session.Revocation.{require_active_session-ok}
use movie_api.Session.Outcome.{revoke_missing, revoke_old, revoke_live}
use movie_api.Auth.Acceptance.{require_cases}
use movie_api.Auth.{user_of_payload, get_current_user}

-- Revoking leaves the session stored as revoked.
revoke-revokes :
    (now user_id session_id : ℕ) (t : AuthDb)
    → Unique (λ (x : Session). x.id) t.sessions
    → (run (revoke_session now user_id session_id) t).0 ≡ ok tt
    → (r : Session) × (first
          (by_session_id session_id)
          (run (revoke_session now user_id session_id) t).1.sessions
        ≡ some r)
      × (r.revoked_at ≡ some now)
unfolding revoke_session
revoke-revokes now user_id session_id t unique done =
    let owned = λ (x : Session). x.id == session_id && x.user_id == user_id in
    elim (Option-cases (first owned t.sessions)) [
      | inl missing ↦ absurd (ground arith)
      | inr (x, found) ↦ (
        set_revoked now x,
        ground (
          arith,
          first-true owned t.sessions found,
          first-update (λ (x : Session). x.id) (by_session_id x.id) (set_revoked now) session_id
              t.sessions {r = x} (λ y. refl)
              (key_of_first (λ (x : Session). x.id) owned session_id t.sessions
                (λ y e. ground arith) unique found),
        ),
        refl,
      )
    ]

revoke-Unique :
    (now user_id session_id : ℕ) (t : AuthDb)
    → Unique (λ (x : Session). x.id) t.sessions
    → Unique (λ (x : Session). x.id) (run (revoke_session now user_id session_id) t).1.sessions
revoke-Unique now user_id session_id t unique =
    let P = λ (t' : AuthDb). Unique (λ (x : Session). x.id) t'.sessions in
    elim (Option-cases
      (first (λ (x : Session). x.id == session_id && x.user_id == user_id) t.sessions)) [
        | inl missing ↦ subst P (sym (revoke_missing now t user_id session_id missing)) unique
        | inr (x, found) ↦ elim (Option-cases x.revoked_at) [
          | inr (at, old) ↦ subst P (sym (revoke_old now t user_id session_id x found old)) unique
          | inl live ↦ subst P (sym (revoke_live now t user_id session_id x found live)) (
              update-Unique (λ (x : Session). x.id) (by_session_id x.id) (set_revoked now)
                t.sessions (λ y. refl) unique)
        ]
      ]

-- A session that is stored as revoked is not required successfully.
revoked_required :
    (now session_id : ℕ) (t : AuthDb) (r : Session) (at : ℕ)
    → Unique (λ (x : Session). x.id) t.sessions
    → first (by_session_id session_id) t.sessions ≡ some r
    → r.revoked_at ≡ some at
    → run (require_active_session now (some session_id)) t ≡ (err revoked_error, t)
revoked_required now session_id t r at unique found old = elim (require_cases now session_id t) [
  | inl fine ↦
      let (x, same, live, running) =
        (require_active_session-ok now session_id t unique).0 (ap (λ a. a.0) fine) in
      absurd (ground arith)
  | inr refused ↦ refused
]

-- Where session keys are unique, once a session was revoked, a token that names it and a user is
-- answered by an error from then on.
pub revoked-refused :
    (j : Jwt) (now user_id session_id : ℕ) (t : AuthDb) (decoded_at later : ℕ) (token : j.Token)
    (p : Payload) (sub : ℕ)
    → Unique (λ (x : Session). x.id) t.sessions
    → (run (revoke_session now user_id session_id) t).0 ≡ ok tt
    → j.decode_at decoded_at token ≡ some p
    → p.sid ≡ some session_id
    → p.sub ≡ some sub
    → let t' = (run (revoke_session now user_id session_id) t).1 in
      run (get_current_user j decoded_at later token) t' ≡ (err revoked_error, t')
unfolding get_current_user decode_access_token user_of_payload
revoked-refused j now user_id session_id t decoded_at later token p sub unique done decoded sid
      named =
    let t' = (run (revoke_session now user_id session_id) t).1 in
    let (r, found, old) = revoke-revokes now user_id session_id t unique done in
    let refused =
      revoked_required later session_id t' r now (revoke-Unique now user_id session_id t unique)
        found old in
    ground (arith, refused)
