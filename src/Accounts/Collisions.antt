-- ===== src/Accounts/Collisions.antt =====
-- A sign-in with the cookie of a guest who is about to pay for what the user is about to pay for
-- (app/services/guest.py with alembic/versions/0048_atomic_sessions_and_checkout.py).
use movie_api.Shared.{
  ℕ, ◌≡◌, ◌≢◌, refl, sym, subst, ap, ◌∙◌, String, Bool, true, false, Option, none, some, List, [],
  ◌∷◌, ==_refl, if◌then◌else◌, exists, update, run, ok, err, str_eq, In, Bool-cases, inl, inr,
  arith,
}
use movie_api.Models.{User, Settings, Stamp}
use movie_api.Shop.{PaymentIntent}
use movie_api.Tokens.{Jwt}
use movie_api.Access.{guest_eq}
use movie_api.Billing.Checkout.{movie_lookup}
use movie_api.Billing.Checkout.Create.{same_pending, integrity_error}
use movie_api.Accounts.{
  AccountDb, own_intent, duplicate_pending, claim_guest_purchases, open_session, check_password,
  authenticate_user,
}
use movie_api.Accounts.Claims.{check-still}

exists_In :
    {A : Type 0} (p : A → Bool) (x : A) (xs : List A) → p x ≡ true → In x xs → exists p xs ≡ true
exists_In p x [] e i = absurd i
exists_In p x (y ∷ xs) e (inl same) = ground (arith, ap p same)
exists_In p x (y ∷ xs) e (inr i) = ground (arith, exists_In p x xs e i)

-- Two different rows that an index keeps apart are noticed.
duplicate_of :
    (i k : PaymentIntent) (rows : List PaymentIntent)
    → In i rows
    → In k rows
    → i ≢ k
    → same_pending i k ≡ true
    → same_pending k i ≡ true
    → duplicate_pending rows ≡ true
unfolding duplicate_pending
duplicate_of i k [] a b different e e' = absurd a
duplicate_of i k (x ∷ rows) (inl a) (inl b) different e e' = absurd (different (sym a ∙ b))
duplicate_of i k (x ∷ rows) (inl a) (inr b) different e e' =
    let hit =
      exists_In (same_pending x) k rows (subst (λ y. same_pending y k ≡ true) (sym a) e) b in
    ground arith
duplicate_of i k (x ∷ rows) (inr a) (inl b) different e e' =
    let hit =
      exists_In (same_pending x) i rows (subst (λ y. same_pending y i ≡ true) (sym b) e') a in
    ground arith
duplicate_of i k (x ∷ rows) (inr a) (inr b) different e e' =
    let later = duplicate_of i k rows a b different e e' in
    elim (Bool-cases (exists (same_pending x) rows)) [
      | inl hit ↦ rw hit refl
      | inr none_here ↦ rw none_here later
    ]

In-update :
    {A : Type 0} (q : A → Bool) (f : A → A) (x : A) (xs : List A)
    → In x xs
    → In (if q x then f x else x) (update q f xs)
In-update q f x [] i = absurd i
In-update q f x (y ∷ xs) (inl same) = inl (ap (λ z. if q z then f z else z) same)
In-update q f x (y ∷ xs) (inr i) = inr (In-update q f x xs i)

module _ (user : User) (guest : String) (title : ℕ) where
  abbrev moved : PaymentIntent → PaymentIntent
  moved i = if guest_eq i.guest_id guest then own_intent user.id i else i

  kept_lookup :
      (i : PaymentIntent)
      → movie_lookup (some user) none title i ≡ true
      → movie_lookup (some user) none title (moved i) ≡ true
  kept_lookup i e = ground (arith, ==_refl user.id)

  guest_lookup :
      (k : PaymentIntent)
      → movie_lookup none (some guest) title k ≡ true
      → movie_lookup (some user) none title (moved k) ≡ true
  guest_lookup k e = ground (arith, ==_refl user.id)

  one_title :
      (i k : PaymentIntent)
      → movie_lookup (some user) none title i ≡ true
      → movie_lookup (some user) none title k ≡ true
      → same_pending i k ≡ true
  one_title i k e e' = ground arith

  same_key : (i : PaymentIntent) → (moved i).intent_id ≡ i.intent_id
  same_key i = elim (Bool-cases (guest_eq i.guest_id guest)) [
    | inl theirs ↦ rw theirs refl
    | inr other ↦ rw other refl
  ]

  collide :
      (rows : List PaymentIntent) (i k : PaymentIntent)
      → In i rows
      → In k rows
      → i.intent_id ≢ k.intent_id
      → movie_lookup (some user) none title i ≡ true
      → movie_lookup none (some guest) title k ≡ true
      → duplicate_pending
          (update (λ (x : PaymentIntent). guest_eq x.guest_id guest) (own_intent user.id) rows)
        ≡ true
  collide rows i k a b different e e' =
      let q = λ (x : PaymentIntent). guest_eq x.guest_id guest in
      duplicate_of (moved i) (moved k) (update q (own_intent user.id) rows)
        (In-update q (own_intent user.id) i rows a) (In-update q (own_intent user.id) k rows b)
        (λ same.
          different
            (sym (same_key i) ∙ (ap (λ (x : PaymentIntent). x.intent_id) same ∙ same_key k)))
        (one_title (moved i) (moved k) (kept_lookup i e) (guest_lookup k e'))
        (one_title (moved k) (moved i) (guest_lookup k e') (kept_lookup i e))

-- While a user and a guest each have a pending Bakong intent for one movie, the user cannot sign in
-- with the guest's cookie, whatever the password is good for: the right one is answered by an error of
-- the database, and nothing is stored.
pub double_checkout_bars_login :
    (j : Jwt) (verify : String → String → Bool) (s : Settings) (now : ℕ) (stamp : Stamp)
    (issued_at : ℕ) (email password : String) (agent : Option String) (guest : String)
    (t : AccountDb) (user : User) (title : ℕ) (i k : PaymentIntent)
    → (run (check_password verify email password) t).0 ≡ ok user
    → str_eq guest "" ≡ false
    → In i t.shop.intents
    → In k t.shop.intents
    → i.intent_id ≢ k.intent_id
    → movie_lookup (some user) none title i ≡ true
    → movie_lookup none (some guest) title k ≡ true
    → run (authenticate_user j verify s now stamp issued_at email password agent (some guest)) t
      ≡ (err integrity_error, t)
unfolding authenticate_user open_session claim_guest_purchases
double_checkout_bars_login j verify s now stamp issued_at email password agent guest t user title i
      k known named a b different e e' =
    let doubled = collide user guest title t.shop.intents i k a b different e e' in
    ground (arith, doubled, check-still verify email password (record { current = t; saved = t }))
