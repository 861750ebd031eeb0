-- ===== src/Accounts/Providers.antt =====
-- The sign-ins of app/services/auth.py by an identity that Google, Apple or Telegram vouches for. What a
-- provider's token says is an argument: `claims` is what its verification answers.
use Prim.Native.String.{◌++◌}
use movie_api.Shared.{
  ℕ, String, Bool, not, ◌&&◌, Option, none, some, ◌∷◌, if◌then◌else◌, first, exists, update, str_eq,
  is_some, strip, lower, Tx, Result, gets, modify, or_raise, raise_if, pure, ◌>>=◌, ◌>>◌, HttpError,
  conflict, unauthorized, server_error, fixed,
}
use movie_api.Models.{User, Settings, Stamp}
use movie_api.Tokens.{Jwt}
use movie_api.Session.{by_user_id}
use movie_api.Access.{guest_eq}
use movie_api.Billing.Settle.{truthy}
use movie_api.Billing.Plans.{nonempty}
use movie_api.Billing.Checkout.{or_text}
use movie_api.Accounts.{AccountDb, set_users, has_email, new_user, disabled_error, open_session}

-- The claims that are read.
pub record GoogleClaims : Type 0 where
  pub sub : Option String
  pub email : Option String
  pub email_verified : Bool
  pub name : Option String
  pub given_name : Option String
  pub picture : Option String

-- `email_verified` says that the claim, as a text in lower case, is "true"
pub record AppleClaims : Type 0 where
  pub sub : Option String
  pub email : Option String
  pub email_verified : Bool

pub record TelegramIdentity : Type 0 where
  pub telegram_id : String
  pub first_name : Option String
  pub last_name : Option String
  pub username : Option String
  pub photo_url : Option String

abbrev pub is_truthy : Option String → Bool
is_truthy a = is_some (truthy a)

-- `if name and not user.full_name`
abbrev pub fill_name : Option String → User → User
fill_name name u =
    if is_truthy name && not (is_truthy u.full_name) then record u { full_name = name } else u

abbrev pub fill_picture : Option String → User → User
fill_picture picture u = if is_truthy picture then record u { avatar_url = picture } else u

abbrev pub profile_error : String → HttpError
profile_error provider =
    unauthorized (fixed (provider ++ " account is missing required profile data"))

-- The write of a user who is stored already, and of a new one.
abbrev pub save_user : User → Tx AccountDb Unit
save_user user = modify (set_users (λ users. update (by_user_id user.id) (λ _. user) users))

abbrev pub insert_user : User → Tx AccountDb Unit
insert_user user = modify (set_users (λ users. user ∷ users))

module _ (j : Jwt) (s : Settings) (now : ℕ) (stamp : Stamp) (issued_at new_id : ℕ)
    (user_agent guest_id : Option String) where
  -- `if not user.is_active`, and the rest of a sign-in
  abbrev pub enter : User → Tx AccountDb (User × j.Token)
  enter user = do
    raise_if (not user.is_active) disabled_error
    open_session j s now stamp issued_at user user_agent guest_id

  -- The part that Google and Apple share; Apple sends no picture.
  unfoldable pub finish : Option String → Option String → User → Tx AccountDb (User × j.Token)
  finish name picture user = do
    let kept : User = fill_name name (fill_picture picture user)
    save_user kept
    enter kept

  -- The account of an email that is linked to a Google account.
  unfoldable pub link_google : String → String → Option String → Option String → Tx AccountDb User
  link_google google_sub email name picture = do
    found ← gets (λ t. first (has_email email) t.shop.users)
    elim found [
      | none ↦ do
        let plain : User = new_user new_id email name
        let user : User = record plain { google_id = some google_sub; avatar_url = picture }
        insert_user user
        pure user
      | some u ↦ do
        raise_if (is_truthy u.google_id && not (guest_eq u.google_id google_sub))
            (conflict (fixed "Email is linked to a different Google account"))
        let user : User =
            fill_name name (fill_picture picture (record u { google_id = some google_sub }))
        save_user user
        pure user
    ]

  -- `authenticate_google`
  unfoldable pub authenticate_google : Result GoogleClaims → Tx AccountDb (User × j.Token)
  unfolding link_google finish
  authenticate_google verified = do
    claims ← λ c. (verified, c)
    google_sub ← or_raise (truthy claims.sub) (profile_error "Google")
    raw_email ← or_raise (truthy claims.email) (profile_error "Google")
    raise_if (not claims.email_verified) (unauthorized (fixed "Google email is not verified"))
    let name : Option String = or_text claims.name claims.given_name
    known ← gets (λ t. first (λ (u : User). guest_eq u.google_id google_sub) t.shop.users)
    user ← elim known [
      | some u ↦ pure u
      | none ↦ link_google google_sub (lower raw_email) name claims.picture
    ]
    finish name claims.picture user

  -- The account of an email that is linked to an Apple account.
  unfoldable pub link_apple : String → AppleClaims → Option String → Tx AccountDb User
  link_apple apple_sub claims name = do
    raw_email ← or_raise (truthy claims.email) (profile_error "Apple")
    raise_if (not claims.email_verified) (unauthorized (fixed "Apple email is not verified"))
    let email : String = lower raw_email
    found ← gets (λ t. first (has_email email) t.shop.users)
    elim found [
      | none ↦ do
        let plain : User = new_user new_id email name
        let user : User = record plain { apple_id = some apple_sub }
        insert_user user
        pure user
      | some u ↦ do
        raise_if (is_truthy u.apple_id && not (guest_eq u.apple_id apple_sub))
            (conflict (fixed "Email is linked to a different Apple account"))
        let user : User = record u { apple_id = some apple_sub }
        save_user user
        pure user
    ]

  -- `authenticate_apple`
  unfoldable pub authenticate_apple :
      Result AppleClaims → Option String → Tx AccountDb (User × j.Token)
  unfolding link_apple finish
  authenticate_apple verified full_name = do
    claims ← λ c. (verified, c)
    apple_sub ← or_raise (truthy claims.sub) (profile_error "Apple")
    let name : Option String = elim full_name [ none ↦ none | some n ↦ nonempty (strip n) ]
    known ← gets (λ t. first (λ (u : User). guest_eq u.apple_id apple_sub) t.shop.users)
    user ← elim known [ some u ↦ pure u | none ↦ link_apple apple_sub claims name ]
    finish name none user

  -- The display name of `login_telegram_identity`.
  unfoldable pub telegram_display_name : TelegramIdentity → Option String
  telegram_display_name i =
      let part : Option String → Option String = λ p. elim (truthy p) [
        | none ↦ none
        | some n ↦ if str_eq (strip n) "" then none else some n
      ] in
      let joined : String = elim (part i.first_name) [
        | none ↦ elim (part i.last_name) [ none ↦ "" | some l ↦ l ]
        | some f ↦ elim (part i.last_name) [ none ↦ f | some l ↦ f ++ " " ++ l ]
      ] in
      if str_eq (strip joined) ""
      then elim (truthy i.username) [ none ↦ none | some u ↦ some (strip u) ]
      else some (strip joined)

  -- `telegram_synthetic_email`
  abbrev pub telegram_synthetic_email : String → String
  telegram_synthetic_email telegram_id = "telegram_" ++ telegram_id ++ "@users.reeltime.fun"

  -- The account of a Telegram identity; `email` is a unique column
  unfoldable pub telegram_account : TelegramIdentity → Tx AccountDb User
  unfolding telegram_display_name
  telegram_account i = do
    known ← gets (λ t. first (λ (u : User). guest_eq u.telegram_id i.telegram_id) t.shop.users)
    elim known [
      | some u ↦ do
        let user : User = fill_picture i.photo_url (fill_name (telegram_display_name i) u)
        save_user user
        pure user
      | none ↦ do
        let email : String = telegram_synthetic_email i.telegram_id
        taken ← gets (λ t. exists (has_email email) t.shop.users)
        raise_if taken (server_error (fixed "users_email_key"))
        let plain : User = new_user new_id email (telegram_display_name i)
        let user : User = record plain {
          telegram_id = some i.telegram_id;
          avatar_url = i.photo_url;
        }
        insert_user user
        pure user
    ]

  -- `login_telegram_identity`
  unfoldable pub login_telegram_identity : TelegramIdentity → Tx AccountDb (User × j.Token)
  unfolding telegram_account
  login_telegram_identity i = do user ← telegram_account i; enter user
