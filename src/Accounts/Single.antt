-- ===== src/Accounts/Single.antt =====
-- What reset_password of app/services/auth.py leaves: a link works once, and ends every session.
use movie_api.Shared.{
  ℕ, ◌≡◌, refl, String, some, arith, first, count, run, ok, err, eq_iff, first-true,
  first-update_self, Option-cases, inl, inr, ==_iff,
}
use movie_api.Models.{User}
use movie_api.Session.{by_user_id, revoke_all_user_sessions}
use movie_api.Devices.TvAccess.Login.{open_for, none_open}
use movie_api.Accounts.{AccountDb, PasswordResetToken}
use movie_api.Accounts.Resets.{
  of_token, set_used, set_password, reset_error, find_reset, reset_password,
}

-- A reset that goes through leaves its user without an unrevoked session and with the new password,
-- and the same link is refused from then on and changes nothing.
pub reset_once :
    (digest hash : String → String) (now later : ℕ) (token new_password other : String)
    (t : AccountDb) (r : PasswordResetToken)
    → first (of_token (digest token)) t.resets ≡ some r
    → (run (reset_password digest hash now token new_password) t).0 ≡ ok tt
    → let t' = (run (reset_password digest hash now token new_password) t).1 in
      (count (open_for r.user_id) t'.sessions ≡ 0)
      × ((user : User) × (first (by_user_id r.user_id) t'.shop.users ≡ some user)
          × (user.password_hash ≡ some (hash new_password)))
      × (run (reset_password digest hash later token other) t' ≡ (err reset_error, t'))
unfolding reset_password find_reset revoke_all_user_sessions
reset_once digest hash now later token new_password other t r found done =
    elim (Option-cases (first (by_user_id r.user_id) t.shop.users)) [
      | inl missing ↦ absurd (ground arith)
      | inr (user, holder) ↦
          let same =
            (==_iff user.id r.user_id).0 (first-true (by_user_id r.user_id) t.shop.users holder) in
          let key =
            (eq_iff r.token_hash (digest token)).0
              (first-true (of_token (digest token)) t.resets found) in
          let changed =
            first-update_self (by_user_id r.user_id) (set_password (hash new_password)) t.shop.users
              (λ u. refl) holder in
          let spent =
            first-update_self (of_token (digest token)) (set_used now) t.resets (λ x. refl) found in
          (
            ground (arith, none_open now r.user_id t.sessions),
            (set_password (hash new_password) user, ground (arith, changed), refl),
            ground (arith, spent),
          )
    ]
