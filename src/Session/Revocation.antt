-- ===== src/Session/Revocation.antt =====
-- Revoked sessions stay revoked, a user revokes only their own, and every session that can still be
-- used is in the list from which its user may revoke it.
use movie_api.Shared.{
  ℕ, ◌≤◌, ◌<◌, ◌≡◌, ◌≢◌, ◌↔◌, refl, sym, subst, true, false, not, ◌&&◌, none, some, List, arith,
  ltb, ◌==◌, first, select, sort_by, run, ok, Unique, Option-cases, inl, inr, first-true,
  key_of_first, first_of_key, first_of_In, Bool-cases, In, In-select, In-sort_by, In-update_other,
  IsOrdered, sort_by-IsOrdered,
}
use movie_api.Models.{Session, AuthDb, Settings}
use movie_api.Session.Outcome.{revoke_missing, revoke_old, revoke_live}
use movie_api.Session.{
  by_session_id, past_cutoff, is_revoked, list_active_sessions, require_active_session,
  revoke_session, can_be_used, newer,
}

can_be_used_iff :
    (s : Settings) (now user_id : ℕ) (r : Session)
    → (can_be_used s now user_id r ≡ true)
      ↔ ((r.user_id ≡ user_id) × (r.revoked_at ≡ none) × (past_cutoff s now r.expires_at ≡ false))
unfolding can_be_used
can_be_used_iff s now user_id r = (λ e. ground arith, λ e. ground arith)

-- A session of the user that can still be used: it is stored, neither revoked nor past the cutoff.
abbrev pub Usable : Settings → ℕ → ℕ → AuthDb → Session → Type 0
Usable s now user_id t r =
    In r t.sessions
    × (r.user_id ≡ user_id)
    × (r.revoked_at ≡ none)
    × (past_cutoff s now r.expires_at ≡ false)

-- The list answers exactly the sessions of the user that can still be used, the newest first, and
-- changes nothing.
pub list_active_sessions_lem :
    (s : Settings) (now user_id : ℕ) (t : AuthDb)
    → (rows : List Session) × (run (list_active_sessions s now user_id) t ≡ (ok rows, t))
      × IsOrdered (λ (a b : Session). b.created_at ≤ a.created_at) rows
      × ((r : Session) → In r rows ↔ Usable s now user_id t r)
unfolding list_active_sessions
list_active_sessions_lem s now user_id t =
    let usable = can_be_used s now user_id in
    (
      sort_by newer (select usable t.sessions),
      refl,
      sort_by-IsOrdered newer (λ (a b : Session). b.created_at ≤ a.created_at)
          (λ a b e. ground arith) (λ a b e. ground arith) (λ a b c h k. omega arith)
          (select usable t.sessions),
      λ r. (
        λ i.
            let (stored, e) =
              (In-select usable r t.sessions).0
                ((In-sort_by newer r (select usable t.sessions)).0 i) in
            let (mine, live, fresh) = (can_be_used_iff s now user_id r).0 e in
            (stored, mine, live, fresh),
        λ u. (In-sort_by newer r (select usable t.sessions)).1 (
            (In-select usable r t.sessions).1
              (u.0, (can_be_used_iff s now user_id r).1 (u.1, u.2, u.3))),
      ),
    )

same_user :
    (user_id session_id : ℕ) (r x : Session) (rows : List Session)
    → r.id ≡ session_id
    → x.user_id ≡ user_id
    → first (by_session_id session_id) rows ≡ some x
    → first (by_session_id r.id) rows ≡ some r
    → r.user_id ≡ user_id
same_user user_id session_id r x rows same mine row own =
    let row' : first (by_session_id session_id) rows ≡ some r =
      subst (λ k. first (by_session_id k) rows ≡ some r) same own in
    ground arith

-- The row that a user's revocation finds is no row of another user.
different :
    (user_id session_id : ℕ) (r x : Session) (rows : List Session)
    → Unique (λ (x : Session). x.id) rows
    → In r rows
    → r.user_id ≢ user_id
    → first (λ (x : Session). x.id == session_id && x.user_id == user_id) rows ≡ some x
    → (r.id == x.id) ≡ false
different user_id session_id r x rows u i other found =
    let by = λ (y : Session). y.id == session_id && y.user_id == user_id in
    let holds = first-true by rows found in
    let row =
      key_of_first (λ (y : Session). y.id) by session_id rows (λ y e. ground arith) u found in
    let mine = first_of_In (λ (y : Session). y.id) r rows u i in
    elim (Bool-cases (r.id == x.id)) [
      | inr apart ↦ apart
      | inl same ↦
          absurd
            (other (same_user user_id session_id r x rows (ground arith) (ground arith) row mine))
    ]

-- Where session keys are unique, revoking keeps each stored session of another user as it is.
pub revoke_session-others :
    (now user_id session_id : ℕ) (t : AuthDb) (r : Session)
    → Unique (λ (x : Session). x.id) t.sessions
    → In r t.sessions
    → r.user_id ≢ user_id
    → In r (run (revoke_session now user_id session_id) t).1.sessions
revoke_session-others now user_id session_id t r u i other =
    let rows = t.sessions in
    elim (Option-cases (first (λ (x : Session). x.id == session_id && x.user_id == user_id) rows)) [
      | inl missing ↦
          subst (λ t'. In r t'.sessions) (sym (revoke_missing now t user_id session_id missing)) i
      | inr (x, found) ↦ elim (Option-cases x.revoked_at) [
        | inr (at, old) ↦
            subst (λ t'. In r t'.sessions) (sym (revoke_old now t user_id session_id x found old)) i
        | inl live ↦
            subst (λ t'. In r t'.sessions) (sym (revoke_live now t user_id session_id x found live))
              (In-update_other (by_session_id x.id) _ r rows
                (different user_id session_id r x rows u i other found) i)
      ]
    ]

-- Where session keys are unique, a session is required successfully exactly if it is stored under
-- the key, unrevoked and running.
pub require_active_session-ok :
    (now session_id : ℕ) (t : AuthDb)
    → Unique (λ (x : Session). x.id) t.sessions
    → ((run (require_active_session now (some session_id)) t).0 ≡ ok session_id) ↔ (
        (r : Session) × (first (by_session_id session_id) t.sessions ≡ some r)
        × (r.revoked_at ≡ none)
        × (now < r.expires_at))
unfolding require_active_session
require_active_session-ok now session_id t u =
    let running =
      λ (x : Session). x.id == session_id && not (is_revoked x) && ltb now x.expires_at in
    (
      λ e. elim (Option-cases (first running t.sessions)) [
        | inl missing ↦ absurd (ground arith)
        | inr (r, found) ↦
            let holds = first-true running t.sessions found in
            (
              r,
              key_of_first (λ (x : Session). x.id) running session_id t.sessions
                  (λ x e. ground arith) u found,
              ground arith,
              ground arith,
            )
      ],
      λ w. ground (
        arith,
        first-true (by_session_id session_id) t.sessions w.1,
        first_of_key (λ (x : Session). x.id) running session_id t.sessions {r = w.0}
            (λ x e. ground arith),
      ),
    )
