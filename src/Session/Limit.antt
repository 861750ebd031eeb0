-- ===== src/Session/Limit.antt =====
-- The device limit: no user has more active sessions than the settings allow.
use movie_api.Shared.{
  ℕ, ◌≤◌, ◌<◌, String, ◌≡◌, refl, sym, subst, ◌⊎◌, inl, inr, Bool, true, Option, none, some, List,
  arith, ◌==◌, first, count, update, Tx, ◌>>=◌, ◌>>◌, run, commit, ok, Unique, count-update,
  update-Unique, count-update_le, count_le, Option-cases, not, ◌&&◌,
}
use movie_api.Session.Outcome.{
  revoke_missing, revoke_old, revoke_live, refresh_claims-Outcome, first-live,
  refresh_session_stored,
}
use movie_api.Tokens.{Jwt}
use movie_api.Models.{User, Session, AuthDb, Stamp, Settings}
use movie_api.Session.{
  active_for, is_revoked, by_session_id, create_session, revoke_session, revoke_all_user_sessions,
  refresh_claims, extended, refresh_session,
}

-- At the instant `now`: keys are unique, and every user is within the limit.
pub record IsSound (s : Settings) (now : ℕ) (t : AuthDb) : Type 0 where
  pub unique : Unique (λ (r : Session). r.id) t.sessions
  pub within : (u : ℕ) → count (active_for now u) t.sessions ≤ s.max_active_sessions_per_user

-- A sign-in at one instant, with its commit.
abbrev pub sign_in : Settings → ℕ → Stamp → ℕ → Option String → Tx AuthDb Session
sign_in s now stamp user_id agent = do
  session ← create_session s now now stamp user_id agent
  commit
  λ c. (ok session, c)

-- Sessions only lapse as time passes.
pub later-IsSound :
    {s : Settings} {t : AuthDb} (now later : ℕ) → now ≤ later → IsSound s now t → IsSound s later t
later-IsSound {t = t} now later le h = record {
  unique = h.unique;
  within = λ u. omega (
    arith,
    h.within u,
    count_le (active_for later u) (active_for now u) t.sessions (λ r active. ground arith),
  );
}

pub sign_in-IsSound :
    {s : Settings} {t : AuthDb} (now : ℕ) (stamp : Stamp) (user_id : ℕ) (agent : Option String)
    → first (by_session_id stamp.id) t.sessions ≡ none
    → IsSound s now t
    → IsSound s now (run (sign_in s now stamp user_id agent) t).1
unfolding create_session
sign_in-IsSound {t = t} now stamp user_id agent fresh h = record {
  unique = ground (arith, h.unique);
  within = λ u. ground (arith, h.within u);
}

module _ (s : Settings) (now : ℕ) {t : AuthDb} (h : IsSound s now t) where
  -- An update of the sessions that keeps the keys and activates none.
  update-IsSound :
      (q : Session → Bool) (f : Session → Session)
      → ((r : Session) → (f r).id ≡ r.id)
      → ((r : Session) (u : ℕ) → active_for now u (f r) ≡ true → active_for now u r ≡ true)
      → IsSound s now (record t { sessions = update q f t.sessions })
  update-IsSound q f same fewer = record {
    unique = update-Unique (λ (r : Session). r.id) q f t.sessions same h.unique;
    within = λ u.
        omega
          (arith, h.within u, count-update_le (active_for now u) q f t.sessions (λ r. fewer r u));
  }

  revoke-IsSound :
      (q : Session → Bool)
      → IsSound s now
          (record t { sessions = update q (λ r. record r { revoked_at = some now }) t.sessions })
  revoke-IsSound q = update-IsSound q _ (λ r. refl) (λ r u active. ground arith)

  pub revoke_session-IsSound :
      (user_id session_id : ℕ) → IsSound s now (run (revoke_session now user_id session_id) t).1
  revoke_session-IsSound user_id session_id =
      elim (Option-cases (first (λ r. r.id == session_id && r.user_id == user_id) t.sessions)) [
        | inl missing ↦
            subst (IsSound s now) (sym (revoke_missing now t user_id session_id missing)) h
        | inr (r, found) ↦ elim (Option-cases r.revoked_at) [
          | inl live ↦
              subst (IsSound s now) (sym (revoke_live now t user_id session_id r found live))
                (revoke-IsSound (by_session_id r.id))
          | inr (at, old) ↦
              subst (IsSound s now) (sym (revoke_old now t user_id session_id r found old)) h
        ]
      ]

  pub revoke_all-IsSound :
      (user_id : ℕ) → IsSound s now (run (revoke_all_user_sessions now user_id >> commit) t).1
  unfolding revoke_all_user_sessions
  revoke_all-IsSound user_id = revoke-IsSound (λ r. r.user_id == user_id && not (is_revoked r))

  -- A refresh within the limit keeps it: a session that still ran is counted already, and a lapsed
  -- one takes a slot that was counted free.
  extend-IsSound :
      {r : Session} (next : ℕ)
      → first (by_session_id r.id) t.sessions ≡ some r
      → r.revoked_at ≡ none
      → (now < r.expires_at)
        ⊎ (count (active_for now r.user_id) t.sessions < s.max_active_sessions_per_user)
      → IsSound s now
          (record t { sessions = update (by_session_id r.id) (extended s now next) t.sessions })
  extend-IsSound {r} next found live room = record {
    unique = update-Unique (λ (x : Session). x.id) _ _ t.sessions (λ x. refl) h.unique;
    within = λ u. ground (
      arith,
      h.within u,
      count-update (λ (x : Session). x.id) (active_for now u) (extended s now next) r.id t.sessions
          {r = r} h.unique found,
    );
  }

  refresh_claims-IsSound :
      (session_id user_id version : ℕ)
      → IsSound s now (run (refresh_claims s now now session_id user_id version) t).1
  refresh_claims-IsSound session_id user_id version =
      elim (refresh_claims-Outcome s now now session_id user_id version t) [
        | inl same ↦ subst (IsSound s now) (sym same) h
        | inr (inl (r, found, stored)) ↦
            subst (IsSound s now) (sym stored) (revoke-IsSound (by_session_id r.id))
        | inr (inr (r, next, found, step, room, stored)) ↦ subst (IsSound s now) (sym stored) (
            let (live, row) = first-live session_id t.sessions r h.unique found in
            extend-IsSound {r = r} next row live room)
      ]

-- One request of the session services at the instant `now`, or a change of the users' rows.
pub data Step (j : Jwt) (s : Settings) (now : ℕ) (t : AuthDb) : AuthDb → Type 0 where
  signs_in :
      (stamp : Stamp) (user_id : ℕ) (agent : Option String)
      → first (by_session_id stamp.id) t.sessions ≡ none
      → Step j s now t (run (sign_in s now stamp user_id agent) t).1
  refreshes :
      (issued_at : ℕ) (token : j.Token)
      → Step j s now t (run (refresh_session j s now now issued_at token) t).1
  revokes :
      (user_id session_id : ℕ) → Step j s now t (run (revoke_session now user_id session_id) t).1
  revokes_all :
      (user_id : ℕ) → Step j s now t (run (revoke_all_user_sessions now user_id >> commit) t).1
  users_change : (users : List User) → Step j s now t (record t { users = users })

-- The tables reached from `t` at `start`, by requests at instants that never go back.
pub data Reach (j : Jwt) (s : Settings) (start : ℕ) (t : AuthDb) : ℕ → AuthDb → Type 0 where
  begin : Reach j s start t start t
  wait :
      {now : ℕ} {u : AuthDb} (later : ℕ)
      → now ≤ later
      → Reach j s start t now u
      → Reach j s start t later u
  step :
      {now : ℕ} {u v : AuthDb}
      → Reach j s start t now u
      → Step j s now u v
      → Reach j s start t now v

module _ (j : Jwt) {s : Settings} where
  refresh_session-IsSound :
      (now issued_at : ℕ) (token : j.Token) {t : AuthDb}
      → IsSound s now t
      → IsSound s now (run (refresh_session j s now now issued_at token) t).1
  refresh_session-IsSound now issued_at token {t} h =
      elim (refresh_session_stored j s now now issued_at token t) [
        | inl same ↦ subst (IsSound s now) (sym same) h
        | inr (session_id, user_id, version, stored) ↦
            subst (IsSound s now) (sym stored)
              (refresh_claims-IsSound s now h session_id user_id version)
      ]

  pub Step-IsSound : {now : ℕ} {t u : AuthDb} → IsSound s now t → Step j s now t u → IsSound s now u
  Step-IsSound {now} h (signs_in stamp user_id agent fresh) =
      sign_in-IsSound now stamp user_id agent fresh h
  Step-IsSound {now} h (refreshes issued_at token) = refresh_session-IsSound now issued_at token h
  Step-IsSound {now} h (revokes user_id session_id) =
      revoke_session-IsSound s now h user_id session_id
  Step-IsSound {now} h (revokes_all user_id) = revoke_all-IsSound s now h user_id
  Step-IsSound h (users_change users) = record { unique = h.unique; within = h.within }

  -- From tables with unique session keys that respect the device limit, whatever sign-ins, refreshes and revocations follow,
  -- each at one instant and under a fresh key for a new session, every user stays within the limit
  -- of active sessions at every later instant.
  pub Reach-IsSound :
      {start : ℕ} {t : AuthDb} {now : ℕ} {u : AuthDb}
      → IsSound s start t
      → Reach j s start t now u
      → IsSound s now u
  Reach-IsSound h begin = h
  Reach-IsSound h (wait {now = now} later le r) = later-IsSound now later le (Reach-IsSound h r)
  Reach-IsSound h (step r st) = Step-IsSound (Reach-IsSound h r) st
