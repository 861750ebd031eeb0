-- ===== src/Devices/TvAccess.antt =====
-- app/services/tv_access_codes.py: an admin issues an id with a synthetic user and a subscription; a
-- television that enters the id is signed in as that user until the id expires. The constraints of the
-- tables are those of alembic/versions, by which the README sets the database up; the older
-- migrations/00_initial_schema.sql has no check on the status of a subscription.
pub mod Login
pub mod Opens
use Prim.Native.String.{◌++◌}
use movie_api.Shared.{
  ℕ, String, Bool, true, false, not, ◌&&◌, ◌||◌, Option, none, some, List, [], ◌∷◌, map, ltb, leb,
  ◌==◌, if◌then◌else◌, first, exists, select, update, sort_by, take, str_eq, is_some, Tx, gets,
  modify, commit, or_raise, raise_if, pure, raise, zoom, ◌>>=◌, ◌>>◌, HttpError, not_found,
  conflict, unauthorized, server_error, fixed, strip, upper, lower, without_dashes,
}
use movie_api.Models.{User, Session, AuthDb, Settings, Stamp}
use movie_api.Shop.{Subscription, SubscriptionStatus, active, cancelled}
use movie_api.Tokens.{Jwt, create_access_token}
use movie_api.Session.{by_user_id, create_session, revoke_all_user_sessions}
use movie_api.Billing.Settle.{truthy}

pub record TvAccessCode : Type 0 where
  pub id : ℕ
  pub code : String
  pub label : Option String
  pub user_id : ℕ
  pub expires_at : ℕ
  pub is_active : Bool
  pub created_at : ℕ

pub record TvDb : Type 0 where
  pub auth : AuthDb
  pub subscriptions : List Subscription
  pub codes : List TvAccessCode

-- `TvAccessCodeCreate`, `TvAccessCodeUpdate`: a field that was not set is `none`
pub record TvCreate : Type 0 where
  pub label : Option String
  pub expires_at : ℕ
  pub code : Option String
  pub is_active : Bool

pub record TvUpdate : Type 0 where
  pub label : Option (Option String)
  pub expires_at : Option ℕ
  pub is_active : Option Bool

-- The keys of the rows that a creation adds, the hash of a random password, and the clock reading for
-- `created_at`.
pub record TvKeys : Type 0 where
  pub user_id : ℕ
  pub subscription_id : ℕ
  pub code_id : ℕ
  pub password_hash : String
  pub created_at : ℕ

abbrev pub tv_plan : String
tv_plan = "tv_access"

abbrev pub of_code : String → TvAccessCode → Bool
of_code code r = str_eq r.code code

abbrev pub by_code_id : ℕ → TvAccessCode → Bool
by_code_id id r = r.id == id

-- The subscription that an id owns.
abbrev pub tv_subscription : ℕ → Subscription → Bool
tv_subscription user_id r = r.user_id == user_id && str_eq r.plan tv_plan

-- `_is_expired`
abbrev pub is_expired : ℕ → TvAccessCode → Bool
is_expired now r = leb r.expires_at now

-- `to_read`: the row, and whether it is expired
abbrev pub to_read : ℕ → TvAccessCode → TvAccessCode × Bool
to_read now r = (r, is_expired now r)

abbrev in_use_error : HttpError
in_use_error = conflict (fixed "This TV ID is already in use")

-- The first candidate of the loop that no row has.
unfoldable pub first_free : List TvAccessCode → List String → Option String
first_free codes [] = none
first_free codes (candidate ∷ rest) =
    let later = first_free codes rest in
    if exists (of_code candidate) codes then later else some candidate

-- `_unique_code`; the candidates are the random codes, of which it tries twelve
unfoldable pub unique_code : Option String → List String → Tx TvDb String
unfolding first_free
unique_code preferred candidates = elim (truthy preferred) [
  | some code ↦ do
    taken ← gets (λ t. exists (of_code code) t.codes)
    raise_if taken in_use_error
    pure code
  | none ↦ do
    free ← gets (λ t. first_free t.codes (take 12 candidates))
    or_raise free (conflict (fixed "Could not generate a unique TV ID. Try again."))
]

-- `list_tv_access_codes`
unfoldable pub list_tv_access_codes : ℕ → Tx TvDb (List (TvAccessCode × Bool))
list_tv_access_codes now =
    gets (λ t. map (to_read now) (sort_by (λ a b. ltb b.created_at a.created_at) t.codes))

abbrev pub tv_email : String → String
tv_email code = "tv+" ++ without_dashes (lower code) ++ "@tv.reeltime.local"

-- `data.label or f"TV {code}"`
abbrev pub name_of : Option String → String → String
name_of label code = elim (truthy label) [ some l ↦ l | none ↦ "TV " ++ code ]

-- The status that is written; the check constraint of the table refuses the second.
abbrev pub status_for : Bool → SubscriptionStatus
status_for on = if on then active else cancelled

abbrev pub status_error : HttpError
status_error = server_error (fixed "subscriptions_status_check")

-- `create_tv_access_code`; `email` is a unique column
unfoldable pub create_tv_access_code :
    ℕ → ℕ → TvKeys → List String → TvCreate → Tx TvDb (TvAccessCode × Bool)
unfolding unique_code
create_tv_access_code now later keys candidates d = do
  raise_if (leb d.expires_at now) (conflict (fixed "Expiry must be in the future"))
  code ← unique_code d.code candidates
  taken ← gets (λ t. exists (λ (u : User). str_eq u.email (tv_email code)) t.auth.users)
  raise_if taken (server_error (fixed "users_email_key"))
  raise_if (not d.is_active) status_error
  let user : User = record {
    id = keys.user_id;
    email = tv_email code;
    password_hash = some keys.password_hash;
    google_id = none;
    telegram_id = none;
    apple_id = none;
    avatar_url = none;
    full_name = some (name_of d.label code);
    role = "user";
    is_active = true;
  }
  let row : TvAccessCode = record {
    id = keys.code_id;
    code = code;
    label = d.label;
    user_id = keys.user_id;
    expires_at = d.expires_at;
    is_active = d.is_active;
    created_at = keys.created_at;
  }
  modify (λ t. record {
    auth = record t.auth { users = user ∷ t.auth.users };
    subscriptions =
        record {
          id = keys.subscription_id;
          user_id = keys.user_id;
          plan = tv_plan;
          status = status_for d.is_active;
          current_period_start = later;
          current_period_end = d.expires_at;
        }
        ∷ t.subscriptions;
    codes = row ∷ t.codes;
  })
  commit
  pure (to_read later row)

-- `_get_row`
unfoldable pub get_row : ℕ → Tx TvDb TvAccessCode
get_row code_id = do
  found ← gets (λ t. first (by_code_id code_id) t.codes)
  or_raise found (not_found (fixed "TV access ID not found"))

-- The changes of `update_tv_access_code`, one for each key of the payload.
abbrev pub set_name : String → User → User
set_name name u = record u { full_name = some name }

abbrev pub set_end : ℕ → Subscription → Subscription
set_end expires_at r = record r { current_period_end = expires_at }

unfoldable pub update_label : TvAccessCode → Option (Option String) → Tx TvDb TvAccessCode
update_label row none = pure row
update_label row (some label) = do
  modify (λ t. record t {
    auth = record t.auth {
      users = update (by_user_id row.user_id) (set_name (name_of label row.code)) t.auth.users;
    };
  })
  pure (record row { label = label })

unfoldable pub update_expiry : TvAccessCode → Option ℕ → Tx TvDb TvAccessCode
update_expiry row none = pure row
update_expiry row (some expires_at) = do
  modify (λ t. record t {
    subscriptions = update (tv_subscription row.user_id) (set_end expires_at) t.subscriptions;
  })
  pure (record row { expires_at = expires_at })

-- Writing the status fails where it is not one of the constraint's and there is a row to write.
unfoldable pub update_active : ℕ → TvAccessCode → Option Bool → Tx TvDb TvAccessCode
update_active now row none = pure row
update_active now row (some on) = do
  let kept : Bool = on && not (is_expired now row)
  owned ← gets (λ t. exists (tv_subscription row.user_id) t.subscriptions)
  raise_if (not kept && owned) status_error
  modify (λ t. record t {
    auth = record t.auth {
      users = update (by_user_id row.user_id) (λ u. record u { is_active = on }) t.auth.users;
    };
    subscriptions =
        update (tv_subscription row.user_id) (λ r. record r { status = status_for kept })
          t.subscriptions;
  })
  pure (record row { is_active = on })

-- `update_tv_access_code`; the code's row is written with the changes at the commit
unfoldable pub update_tv_access_code : ℕ → ℕ → TvUpdate → Tx TvDb (TvAccessCode × Bool)
unfolding get_row update_label update_expiry update_active
update_tv_access_code now code_id d = do
  row ← get_row code_id
  labelled ← update_label row d.label
  dated ← update_expiry labelled d.expires_at
  changed ← update_active now dated d.is_active
  modify (λ t. record t { codes = update (by_code_id code_id) (λ _. changed) t.codes })
  commit
  pure (to_read now changed)

-- `delete_tv_access_code`: the keys to the user cascade from sessions and ids, and not from
-- subscriptions.
unfoldable pub delete_tv_access_code : ℕ → Tx TvDb Unit
unfolding get_row
delete_tv_access_code code_id = do
  row ← get_row code_id
  user ← gets (λ t. first (by_user_id row.user_id) t.auth.users)
  elim user [
    | none ↦ do
      modify (λ t. record t { codes = select (λ r. not (by_code_id code_id r)) t.codes })
      commit
    | some u ↦ do
      owned ← gets (λ t. exists (λ (r : Subscription). r.user_id == u.id) t.subscriptions)
      raise_if owned (server_error (fixed "subscriptions_user_id_fkey"))
      modify (λ t. record t {
        auth = record {
          users = select (λ x. not (by_user_id u.id x)) t.auth.users;
          sessions = select (λ (x : Session). not (x.user_id == u.id)) t.auth.sessions;
        };
        codes = select (λ r. not (r.user_id == u.id)) t.codes;
      })
      commit
  ]

abbrev pub login_error : HttpError
login_error = unauthorized (fixed "Invalid or inactive TV ID")

abbrev pub renew : ℕ → Subscription → Subscription
renew expires_at r = record r { status = active; current_period_end = expires_at }

-- The first half of `login_with_tv_access_code`: the id, its user, and the subscription.
unfoldable pub admit_tv : ℕ → String → Tx TvDb User
admit_tv now raw_code = do
  found ← gets (λ t. first (of_code (upper (strip raw_code))) t.codes)
  row ← or_raise found login_error
  raise_if (not row.is_active) login_error
  raise_if (is_expired now row)
      (unauthorized (fixed "This TV ID has expired. Ask admin for a new one."))
  holder ← gets (λ t. first (by_user_id row.user_id) t.auth.users)
  user ← or_raise holder login_error
  raise_if (not user.is_active) login_error
  modify (λ t. record t {
    subscriptions = update (tv_subscription user.id) (renew row.expires_at) t.subscriptions;
  })
  commit
  pure user

-- A step of the session service as part of a login.
abbrev pub on_auth : {A : Type 0} → Tx AuthDb A → Tx TvDb A
on_auth = zoom (λ (t : TvDb). t.auth) (λ t auth. record t { auth = auth })

-- `user_agent or "REELTIME TV"`
abbrev pub tv_agent : Option String → Option String
tv_agent agent = some (elim (truthy agent) [ some a ↦ a | none ↦ "REELTIME TV" ])

-- The second half: the other televisions are signed out, and this one is signed in.
unfoldable pub switch_tv : Settings → ℕ → Stamp → User → Option String → Tx TvDb Session
switch_tv s now stamp user user_agent = do
  on_auth (revoke_all_user_sessions now user.id)
  commit
  session ← on_auth (create_session s now now stamp user.id (tv_agent user_agent))
  commit
  pure session

-- `login_with_tv_access_code`
unfoldable pub login_with_tv_access_code :
    (j : Jwt) → Settings → ℕ → Stamp → ℕ → String → Option String → Tx TvDb j.Token
unfolding admit_tv switch_tv
login_with_tv_access_code j s now stamp issued_at raw_code user_agent = do
  user ← admit_tv now raw_code
  session ← switch_tv s now stamp user user_agent
  pure (create_access_token j s issued_at user.id user.role session.id 0)
