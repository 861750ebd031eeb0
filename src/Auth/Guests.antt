-- ===== src/Auth/Guests.antt =====
-- Requests that may come without a user.
use movie_api.Shared.{
  ℕ, ◌≡◌, inl, inr, refl, Option, none, some, arith, run, ok, err, Option-cases, Result,
}
use movie_api.Models.{AuthDb}
use movie_api.Tokens.{Jwt, decode_access_token}
use movie_api.Session.{require_active_session}
use movie_api.Auth.{
  user_of_payload, stored_user, none_if_unauthorized, active_or_none, checked_payload,
  get_current_user, get_current_user_optional,
}
use movie_api.Auth.Acceptance.{require_cases}

-- The value of an answer that is no error.
abbrev pub ok_or_none : {A : Type 0} → Result A → Option A
ok_or_none (ok a) = some a
ok_or_none (err e) = none

-- The optional user is the user that `get_current_user` answers, and none where that is an error; a
-- request without a token has none.
pub optional-agrees :
    (j : Jwt) (decoded_at now : ℕ) (token : j.Token) (t : AuthDb)
    → (run (get_current_user_optional j decoded_at now (some token)) t
        ≡ (ok (ok_or_none (run (get_current_user j decoded_at now token) t).0), t))
      × (run (get_current_user_optional j decoded_at now none) t ≡ (ok none, t))
unfolding get_current_user get_current_user_optional decode_access_token user_of_payload stored_user
    none_if_unauthorized active_or_none checked_payload require_active_session
optional-agrees j decoded_at now token t = (
  elim (Option-cases (j.decode_at decoded_at token)) [
    | inl refused ↦ ground arith
    | inr (p, decoded) ↦ elim (Option-cases p.sid) [
      | inl missing ↦ ground arith
      | inr (session_id, sid) ↦ ground (arith, require_cases now session_id t)
    ]
  ],
  refl,
)
