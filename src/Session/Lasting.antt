-- ===== src/Session/Lasting.antt =====
-- A revoked session stays revoked, whatever requests follow.
use movie_api.Shared.{
  ℕ, ◌≡◌, refl, sym, subst, Bool, true, not, ◌&&◌, Option, none, some, arith, ◌==◌, if◌then◌else◌,
  first, update, run, Unique, String, Option-cases, inl, inr, first-update, Bool-cases, ==_iff,
  first-true, commit, ◌>>◌,
}
use movie_api.Models.{Session, AuthDb, Settings, Stamp}
use movie_api.Tokens.{Jwt}
use movie_api.Session.{
  by_session_id, refresh_claims, is_revoked, revoke_session, extended, revoke_all_user_sessions,
  create_session,
}
use movie_api.Session.Outcome.{
  revoke_missing, revoke_old, revoke_live, refresh_claims-Outcome, first-live,
  refresh_session_stored,
}
use movie_api.Session.Limit.{
  IsSound, sign_in, Step, signs_in, refreshes, revokes, revokes_all, users_change, Reach, begin,
  wait, step, Reach-IsSound,
}

-- The session of this key is stored, and revoked.
abbrev pub Revoked : ℕ → AuthDb → Type 0
Revoked k t = (r : Session) × (first (by_session_id k) t.sessions ≡ some r) × (is_revoked r ≡ true)

module _ (k : ℕ) (t : AuthDb) (old : Revoked k t) where
  -- An update that leaves this row revoked.
  update-Revoked :
      (q : Session → Bool) (f : Session → Session)
      → ((x : Session) → (f x).id ≡ x.id)
      → (q old.0 ≡ true → is_revoked (f old.0) ≡ true)
      → Revoked k (record t { sessions = update q f t.sessions })
  update-Revoked q f same keeps = (
    if q old.0 then f old.0 else old.0,
    first-update (λ (x : Session). x.id) q f k t.sessions {r = old.0} same old.1,
    elim (Bool-cases (q old.0)) [ inl hit ↦ rw hit (keeps hit) | inr miss ↦ rw miss old.2 ],
  )

  revoke-Revoked :
      (q : Session → Bool) (now : ℕ)
      → Revoked k
          (record t { sessions = update q (λ x. record x { revoked_at = some now }) t.sessions })
  revoke-Revoked q now = update-Revoked q _ (λ x. refl) (λ hit. refl)

  revoke_all-Revoked :
      (now user_id : ℕ) → Revoked k (run (revoke_all_user_sessions now user_id >> commit) t).1
  unfolding revoke_all_user_sessions
  revoke_all-Revoked now user_id =
      revoke-Revoked (λ r. r.user_id == user_id && not (is_revoked r)) now

  revoke_session-Revoked :
      (now user_id session_id : ℕ) → Revoked k (run (revoke_session now user_id session_id) t).1
  revoke_session-Revoked now user_id session_id =
      elim (Option-cases
        (first (λ (r : Session). r.id == session_id && r.user_id == user_id) t.sessions)) [
          | inl missing ↦
              subst (Revoked k) (sym (revoke_missing now t user_id session_id missing)) old
          | inr (r, found) ↦ elim (Option-cases r.revoked_at) [
            | inl live ↦
                subst (Revoked k) (sym (revoke_live now t user_id session_id r found live))
                  (revoke-Revoked (by_session_id r.id) now)
            | inr (at, gone) ↦
                subst (Revoked k) (sym (revoke_old now t user_id session_id r found gone)) old
          ]
        ]

  -- The row that a refresh extends is unrevoked, so it is another.
  not_this :
      {r : Session}
      → r.revoked_at ≡ none
      → first (by_session_id r.id) t.sessions ≡ some r
      → by_session_id r.id old.0 ≡ true
      → ⊥
  not_this {r} live row hit =
      let own = first-true (by_session_id k) t.sessions old.1 in
      let same : r.id ≡ k = ground arith in
      let row' = subst (λ n. first (by_session_id n) t.sessions ≡ some r) same row in ground arith

  refresh_claims-Revoked :
      (s : Settings) (now count_at session_id user_id version : ℕ)
      → Unique (λ (x : Session). x.id) t.sessions
      → Revoked k (run (refresh_claims s now count_at session_id user_id version) t).1
  refresh_claims-Revoked s now count_at session_id user_id version u =
      elim (refresh_claims-Outcome s now count_at session_id user_id version t) [
        | inl same ↦ subst (Revoked k) (sym same) old
        | inr (inl (r, found, stored)) ↦
            subst (Revoked k) (sym stored) (revoke-Revoked (by_session_id r.id) now)
        | inr (inr (r, next, found, _, _, stored)) ↦
            let (live, row) = first-live session_id t.sessions r u found in
            subst (Revoked k) (sym stored) (
              update-Revoked (by_session_id r.id) (extended s now next) (λ x. refl)
                (λ hit. absurd (not_this {r = r} live row hit)))
      ]

  sign_in-Revoked :
      (s : Settings) (now : ℕ) (stamp : Stamp) (user_id : ℕ) (agent : Option String)
      → first (by_session_id stamp.id) t.sessions ≡ none
      → Revoked k (run (sign_in s now stamp user_id agent) t).1
  unfolding create_session
  sign_in-Revoked s now stamp user_id agent fresh = elim (Bool-cases (stamp.id == k)) [
    | inl same ↦
        let missing =
          subst (λ n. first (by_session_id n) t.sessions ≡ none) ((==_iff stamp.id k).0 same)
            fresh in
        absurd (ground arith)
    | inr other ↦ (old.0, ground arith, old.2)
  ]

module _ (j : Jwt) {s : Settings} (k : ℕ) where
  Step-Revoked :
      {now : ℕ} {t u : AuthDb}
      → Unique (λ (x : Session). x.id) t.sessions
      → Revoked k t
      → Step j s now t u
      → Revoked k u
  Step-Revoked {now} {t} un old (signs_in stamp user_id agent fresh) =
      sign_in-Revoked k t old s now stamp user_id agent fresh
  Step-Revoked {now} {t} un old (refreshes issued_at token) =
      elim (refresh_session_stored j s now now issued_at token t) [
        | inl same ↦ subst (Revoked k) (sym same) old
        | inr (session_id, user_id, version, stored) ↦
            subst (Revoked k) (sym stored)
              (refresh_claims-Revoked k t old s now now session_id user_id version un)
      ]
  Step-Revoked {now} {t} un old (revokes user_id session_id) =
      revoke_session-Revoked k t old now user_id session_id
  Step-Revoked {now} {t} un old (revokes_all user_id) = revoke_all-Revoked k t old now user_id
  Step-Revoked un old (users_change users) = old

  -- From tables with unique session keys that respect the device limit, once a session is revoked it is stored as revoked
  -- after any further requests.
  pub Reach-Revoked :
      {start : ℕ} {t : AuthDb} {now : ℕ} {u : AuthDb}
      → IsSound s start t
      → Revoked k t
      → Reach j s start t now u
      → Revoked k u
  Reach-Revoked sound old begin = old
  Reach-Revoked sound old (wait later le r) = Reach-Revoked sound old r
  Reach-Revoked sound old (step r st) =
      Step-Revoked (Reach-IsSound j sound r).unique (Reach-Revoked sound old r) st
