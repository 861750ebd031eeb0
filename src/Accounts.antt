-- ===== src/Accounts.antt =====
-- app/services/auth.py and app/services/guest.py: accounts, the ways to sign in, and the purchases of a
-- guest that an account takes over. Password hashing and the identity providers are arguments.
pub mod Providers
pub mod Resets
pub mod Claims
pub mod Collisions
pub mod Single
pub mod Identity
pub mod BotLogin
use movie_api.Shared.{
  ℕ, String, Bool, true, false, not, ◌&&◌, ◌||◌, Option, none, some, List, [], ◌∷◌, if◌then◌else◌,
  first, exists, update, str_eq, Tx, gets, modify, commit, or_raise, raise_if, pure, raise, zoom,
  ◌>>=◌, ◌>>◌, HttpError, conflict, unauthorized, fixed, lower,
}
use movie_api.Models.{User, Session, AuthDb, Settings, Stamp}
use movie_api.Shop.{Purchase, SeriesPurchase, PaymentIntent, ShopDb}
use movie_api.Tokens.{Jwt, create_access_token}
use movie_api.Session.{create_session}
use movie_api.Access.{guest_eq}
use movie_api.Billing.Settle.{truthy}
use movie_api.Billing.Checkout.Create.{same_pending, integrity_error}

pub record PasswordResetToken : Type 0 where
  pub user_id : ℕ
  pub token_hash : String
  pub expires_at : ℕ
  pub used_at : Option ℕ

-- The status of a nonce: `is_pending` is `status == "pending"`
pub record TelegramAuthNonce : Type 0 where
  pub nonce_hash : String
  pub is_pending : Bool
  pub expires_at : ℕ

-- The tables of the account services; the users are the shop's.
pub record AccountDb : Type 0 where
  pub shop : ShopDb
  pub sessions : List Session
  pub resets : List PasswordResetToken
  pub nonces : List TelegramAuthNonce

-- The tables of the session service, among them.
abbrev pub auth_of : AccountDb → AuthDb
auth_of t = record { users = t.shop.users; sessions = t.sessions }

abbrev pub put_auth : AccountDb → AuthDb → AccountDb
put_auth t auth = record t { shop = record t.shop { users = auth.users }; sessions = auth.sessions }

abbrev pub on_session : {A : Type 0} → Tx AuthDb A → Tx AccountDb A
on_session = zoom auth_of put_auth

abbrev pub set_users : (List User → List User) → AccountDb → AccountDb
set_users f t = record t { shop = record t.shop { users = f t.shop.users } }

-- `values(user_id=user_id, guest_id=None)`, in the three tables
abbrev pub own_purchase : ℕ → Purchase → Purchase
own_purchase user_id r = record r { user_id = some user_id; guest_id = none }

abbrev pub own_series : ℕ → SeriesPurchase → SeriesPurchase
own_series user_id r = record r { user_id = some user_id; guest_id = none }

abbrev pub own_intent : ℕ → PaymentIntent → PaymentIntent
own_intent user_id i = record i { user_id = some user_id; guest_id = none }

-- The tables once the purchases of a guest are a user's.
abbrev pub claimed : ℕ → String → ShopDb → ShopDb
claimed user_id guest_id t = record t {
  purchases =
      update (λ (r : Purchase). guest_eq r.guest_id guest_id) (own_purchase user_id) t.purchases;
  series_purchases =
      update (λ (r : SeriesPurchase). guest_eq r.guest_id guest_id) (own_series user_id)
        t.series_purchases;
  intents =
      update (λ (i : PaymentIntent). guest_eq i.guest_id guest_id) (own_intent user_id) t.intents;
}

-- Two rows that an index uq_pending_bakong_… keeps apart.
unfoldable pub duplicate_pending : List PaymentIntent → Bool
duplicate_pending [] = false
duplicate_pending (i ∷ intents) = exists (same_pending i) intents || duplicate_pending intents

-- `claim_guest_purchases`
unfoldable pub claim_guest_purchases : ℕ → Option String → Tx AccountDb Unit
claim_guest_purchases user_id guest_id = elim (truthy guest_id) [
  | none ↦ pure tt
  | some guest ↦ do
    modify (λ t. record t { shop = claimed user_id guest t.shop })
    doubled ← gets (λ t. duplicate_pending t.shop.intents)
    raise_if doubled integrity_error
]

abbrev pub disabled_error : HttpError
disabled_error = unauthorized (fixed "Account is disabled")

abbrev pub has_email : String → User → Bool
has_email email u = str_eq u.email email

-- A new account.
abbrev pub new_user : ℕ → String → Option String → User
new_user id email full_name = record {
  id = id;
  email = email;
  password_hash = none;
  google_id = none;
  telegram_id = none;
  apple_id = none;
  avatar_url = none;
  full_name = full_name;
  role = "user";
  is_active = true;
}

-- `register_user`; `hash` is `hash_password_async`
unfoldable pub register_user :
    (String → String) → ℕ → String → String → Option String → Option String → Tx AccountDb User
unfolding claim_guest_purchases
register_user hash id email password full_name guest_id = do
  taken ← gets (λ t. exists (has_email (lower email)) t.shop.users)
  raise_if taken (conflict (fixed "Unable to create account with this email"))
  let plain : User = new_user id (lower email) full_name
  let user : User = record plain { password_hash = some (hash password) }
  modify (set_users (λ users. user ∷ users))
  claim_guest_purchases user.id guest_id
  commit
  pure user

-- The end of every sign-in: the guest's purchases, the session and its token.
unfoldable pub open_session :
    (j : Jwt)
    → Settings
    → ℕ
    → Stamp
    → ℕ
    → User
    → Option String
    → Option String
    → Tx AccountDb (User × j.Token)
open_session j s now stamp issued_at user user_agent guest_id = do
  claim_guest_purchases user.id guest_id
  session ← on_session (create_session s now now stamp user.id user_agent)
  commit
  pure (user, create_access_token j s issued_at user.id user.role session.id 0)

abbrev pub password_error : HttpError
password_error = unauthorized (fixed "Invalid email or password")

-- The user of an email and a password; `verify` is `verify_password_async`
unfoldable pub check_password : (String → String → Bool) → String → String → Tx AccountDb User
check_password verify email password = do
  found ← gets (λ t. first (has_email (lower email)) t.shop.users)
  user ← or_raise found password_error
  password_hash ← or_raise (truthy user.password_hash) password_error
  raise_if (not (verify password password_hash)) password_error
  raise_if (not user.is_active) disabled_error
  pure user

-- `authenticate_user`
unfoldable pub authenticate_user :
    (j : Jwt)
    → (String → String → Bool)
    → Settings
    → ℕ
    → Stamp
    → ℕ
    → String
    → String
    → Option String
    → Option String
    → Tx AccountDb (User × j.Token)
unfolding check_password open_session
authenticate_user j verify s now stamp issued_at email password user_agent guest_id = do
  user ← check_password verify email password
  open_session j s now stamp issued_at user user_agent guest_id
