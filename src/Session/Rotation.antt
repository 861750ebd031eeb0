-- ===== src/Session/Rotation.antt =====
-- Token rotation: each refresh moves its session to a new version, and a token left behind cannot
-- be used again once the retry window is over.
use movie_api.Shared.{
  ℕ, ◌+◌, ◌≤◌, ◌≡◌, refl, sym, subst, false, none, some, List, [], ◌∷◌, arith, first, update, run,
  ok, err, Unique, Option-cases, inl, inr, first-true,
}
use movie_api.Models.{User, Session, AuthDb, Settings}
use movie_api.Session.{
  by_session_id, refresh_claims, past_cutoff, next_version, extended, live_by_id, revoked_error,
  refresh_retry_window,
}
use movie_api.Session.Outcome.{first-live}

-- After an update of the row with this key, a lookup finds the row as updated.
first-update_live :
    (k : ℕ) (f : Session → Session) (rows : List Session) {r : Session}
    → ((x : Session) → (f x).id ≡ x.id)
    → first (by_session_id k) rows ≡ some r
    → (f r).revoked_at ≡ none
    → first (live_by_id k) (update (by_session_id k) f rows) ≡ some (f r)
first-update_live k f [] same e live = cc
first-update_live k f (x ∷ rows) {r} same e live =
    ground (arith, same x, first-update_live k f rows {r = r} same)

live_key :
    (session_id : ℕ) (rows : List Session) (r : Session)
    → first (live_by_id session_id) rows ≡ some r
    → r.id ≡ session_id
live_key session_id rows r found =
    let holds = first-true (live_by_id session_id) rows found in ground arith

-- What a successful refresh did: its session is found, unrevoked and of this user, and the stored
-- tables hold that session extended to `next`.
refresh-ok :
    (s : Settings) (now count_at session_id user_id version : ℕ) (t : AuthDb) (user : User)
    (r : Session) (next : ℕ)
    → (run (refresh_claims s now count_at session_id user_id version) t).0 ≡ ok (user, r, next)
    → (first (live_by_id session_id) t.sessions ≡ some r)
      × (r.user_id ≡ user_id)
      × (next_version now version r ≡ some next)
      × ((run (refresh_claims s now count_at session_id user_id version) t).1
          ≡ record t { sessions = update (by_session_id r.id) (extended s now next) t.sessions })
unfolding refresh_claims
refresh-ok s now count_at session_id user_id version t user r next done =
    elim (Option-cases (first (live_by_id session_id) t.sessions)) [
      | inl missing ↦ absurd (ground arith)
      | inr (r', found) ↦ elim (Option-cases (next_version now version r')) [
        | inl replay ↦ absurd (ground arith)
        | inr (next', step) ↦ ground arith
      ]
    ]

-- A token whose version does not let it refresh revokes its session, and the revocation is stored
-- although the request fails.
refresh-revokes :
    (s : Settings) (now count_at session_id user_id version : ℕ) (t : AuthDb) (r : Session)
    → first (live_by_id session_id) t.sessions ≡ some r
    → r.user_id ≡ user_id
    → past_cutoff s now r.expires_at ≡ false
    → next_version now version r ≡ none
    → run (refresh_claims s now count_at session_id user_id version) t ≡ (
      err revoked_error,
      record t {
        sessions = update (by_session_id r.id) (λ x. record x { revoked_at = some now }) t.sessions;
      },
    )
unfolding refresh_claims
refresh-revokes s now count_at session_id user_id version t r found mine fresh replay = ground arith

-- The step of an outdated version: none, once the retry window has passed.
next_version-extended :
    (s : Settings) (now later version : ℕ) (r : Session)
    → version ≡ r.token_version
    → now + refresh_retry_window ≤ later
    → next_version later version (extended s now (version + 1) r) ≡ none
unfolding next_version
next_version-extended s now later version r same passed = ground arith

next_version-current :
    (now version next : ℕ) (r : Session)
    → version ≡ r.token_version
    → next_version now version r ≡ some next
    → next ≡ version + 1
unfolding next_version
next_version-current now version next r same step = ground arith

-- Where session keys are unique, a token at its session's current version that was refreshed is
-- refused when it comes again after the retry window, while the session may still be refreshed: the
-- answer is an error and the stored session is revoked.
pub replay_revokes :
    (s : Settings) (now count_at later recount_at session_id user_id version : ℕ) (t : AuthDb)
    (user : User) (r : Session) (next : ℕ)
    → Unique (λ (x : Session). x.id) t.sessions
    → (run (refresh_claims s now count_at session_id user_id version) t).0 ≡ ok (user, r, next)
    → version ≡ r.token_version
    → now + refresh_retry_window ≤ later
    → past_cutoff s later (extended s now next r).expires_at ≡ false
    → let t' = (run (refresh_claims s now count_at session_id user_id version) t).1 in
      run (refresh_claims s later recount_at session_id user_id version) t' ≡ (
        err revoked_error,
        record t' {
          sessions =
              update (by_session_id r.id) (λ x. record x { revoked_at = some later }) t'.sessions;
        },
      )
replay_revokes s now count_at later recount_at session_id user_id version t user r next u done same
      passed fresh =
    let (found, mine, step, stored) =
      refresh-ok s now count_at session_id user_id version t user r next done in
    let bumped = next_version-current now version next r same step in
    let (live, row) = first-live session_id t.sessions r u found in
    let key = live_key session_id t.sessions r found in
    let found' =
      subst
        (λ k.
          first (live_by_id k) (update (by_session_id r.id) (extended s now next) t.sessions)
          ≡ some (extended s now next r))
        key (first-update_live r.id (extended s now next) t.sessions (λ x. refl) row live) in
    subst
      (λ t'. run (refresh_claims s later recount_at session_id user_id version) t' ≡ (
        err revoked_error,
        record t' {
          sessions =
              update (by_session_id r.id) (λ x. record x { revoked_at = some later }) t'.sessions;
        },
      ))
      (sym stored)
      (refresh-revokes s later recount_at session_id user_id version
        (record t { sessions = update (by_session_id r.id) (extended s now next) t.sessions })
        (extended s now next r) found' mine fresh
        (subst (λ n. next_version later version (extended s now n r) ≡ none) (sym bumped)
          (next_version-extended s now later version r same passed)))
