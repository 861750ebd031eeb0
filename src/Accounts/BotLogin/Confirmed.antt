-- ===== src/Accounts/BotLogin/Confirmed.antt =====
-- Who may confirm a sign-in of app/services/telegram_bot_login.py, and how often it is good for a token.
use movie_api.Shared.{
  ℕ, ◌≡◌, refl, sym, subst, ap, ◌∙◌, String, Bool, false, Option, some, List, [], ◌∷◌, arith, first,
  update, str_eq, run, ok, err, Conn, Option-cases, inl, inr, ==_refl, if◌then◌else◌,
}
use movie_api.Models.{Settings, Stamp}
use movie_api.Tokens.{Jwt}
use movie_api.Access.{guest_eq}
use movie_api.Billing.Settle.{truthy}
use movie_api.Accounts.BotLogin.{
  started, TelegramBotLogin, BotDb, Sender, BotPoll, access_token, of_code_hash, by_login_id,
  set_login_used, login_expired, can_start, handle_start, handle_callback, use_login,
  poll_bot_login,
}

-- Once a person has tapped Start for a stored code, whose row its key finds as well, nobody else can
-- take the code over: another person's Start and another person's press of a button change nothing
-- and have no effect.
pub others_change_nothing :
    (digest : String → String) (now later : ℕ) (raw_code person : String) (other : Sender)
    (approve : Bool) (t : BotDb) (r : TelegramBotLogin)
    → first (of_code_hash (digest raw_code)) t.logins ≡ some r
    → first (by_login_id r.id) t.logins ≡ some r
    → r.status ≡ started
    → r.telegram_id ≡ some person
    → str_eq person other.id ≡ false
    → (run (handle_start digest now other raw_code) t ≡ (ok false, t))
      × (run (handle_callback digest later approve r.id other.id) t ≡ (ok false, t))
unfolding handle_start handle_callback
others_change_nothing digest now later raw_code person other approve t r by_code by_id begun theirs
      different =
    let not_theirs : guest_eq r.telegram_id other.id ≡ false =
      ap (λ o. guest_eq o other.id) theirs ∙ different in
    let closed : can_start other.id r ≡ false =
      subst (λ s. can_start other.id (record r { status = s }) ≡ false) (sym begun) not_theirs in
    (ground (arith, closed), ground (arith, not_theirs))

first_changed :
    {A : Type 0} (p q : A → Bool) (f : A → A) (xs : List A) {r : A}
    → ((x : A) → p (f x) ≡ p x)
    → first p xs ≡ some r
    → first p (update q f xs) ≡ some (if q r then f r else r)
first_changed p q f [] same e = cc
first_changed p q f (x ∷ xs) {r} same e =
    ground (arith, same x, first_changed p q f xs {r = r} same)

module _ (digest : String → String) (j : Jwt) (s : Settings) (now : ℕ) (stamp : Stamp)
    (issued_at new_id : ℕ) (raw_code : String) (agent guest_id : Option String) (t : BotDb) where
  refused :
      (later : ℕ) (fresh : Stamp) (issued id : ℕ) (other_agent other_guest : Option String)
      (u : BotDb) (r : TelegramBotLogin)
      → first (of_code_hash (digest raw_code)) u.logins ≡ some (set_login_used r)
      → run (poll_bot_login digest j s later fresh issued id raw_code other_agent other_guest) u
        ≡ (err login_expired, u)
  unfolding poll_bot_login
  refused later fresh issued id other_agent other_guest u r spent = ground arith

  use_stores :
      (r : TelegramBotLogin) (person : String) (c : Conn BotDb) {answer : BotPoll j.Token}
      → (use_login digest j s now stamp issued_at new_id agent guest_id r person c).0 ≡ ok answer
      → (use_login digest j s now stamp issued_at new_id agent guest_id r person c).1.saved.logins
        ≡ update (by_login_id r.id) set_login_used c.current.logins
  unfolding use_login
  use_stores r person c e = ground arith

  -- A poll that answers a token has used the code up.
  used_up :
      (r : TelegramBotLogin) (token : j.Token)
      → first (of_code_hash (digest raw_code)) t.logins ≡ some r
      → (run (poll_bot_login digest j s now stamp issued_at new_id raw_code agent guest_id) t).0
        ≡ ok (access_token token)
      → (run
          (poll_bot_login digest j s now stamp issued_at new_id raw_code agent guest_id)
          t).1.logins
        ≡ update (by_login_id r.id) set_login_used t.logins
  unfolding poll_bot_login
  used_up r token found e = elim (Option-cases (truthy r.telegram_id)) [
    | inl nobody ↦ absurd (ground arith)
    | inr (person, named) ↦ ground (
      arith,
      use_stores r person (record { current = t; saved = t }) {answer = access_token token},
    )
  ]

  -- A confirmed code is good for one token: in the tables that a poll which answers one leaves, a poll
  -- of the code, at any time and from any device and guest, is answered as expired and changes nothing.
  pub bot_login_once :
      (r : TelegramBotLogin) (token : j.Token) (later : ℕ) (fresh : Stamp) (issued id : ℕ)
      (other_agent other_guest : Option String)
      → first (of_code_hash (digest raw_code)) t.logins ≡ some r
      → let polled =
          run (poll_bot_login digest j s now stamp issued_at new_id raw_code agent guest_id) t in
        polled.0 ≡ ok (access_token token)
        → run
            (poll_bot_login digest j s later fresh issued id raw_code other_agent other_guest)
            polled.1
          ≡ (err login_expired, polled.1)
  bot_login_once r token later fresh issued id other_agent other_guest found e =
      let stored = used_up r token found e in
      let spent =
        first_changed (of_code_hash (digest raw_code)) (by_login_id r.id) set_login_used t.logins
          (λ x. refl) found in
      refused later fresh issued id other_agent other_guest
        (run (poll_bot_login digest j s now stamp issued_at new_id raw_code agent guest_id) t).1 r
        (ap (first (of_code_hash (digest raw_code))) stored
          ∙ (spent ∙ ground (arith, ==_refl r.id)))
