-- ===== src/Accounts/Identity.antt =====
-- Whom a sign-in by Google lets in (app/services/auth.py).
use movie_api.Shared.{
  ℕ, ◌≡◌, Result, subst, update, List, In, In-first, In-replaced, refl, sym, ap, ◌∙◌, String, true,
  Option, none, some, arith, first, run, ok, Conn, first-true, Option-cases, Bool-cases,
  Result-cases, inl, inr, lower, eq_iff,
}
use movie_api.Models.{User, Settings, Stamp}
use movie_api.Session.{create_session, by_user_id}
use movie_api.Tokens.{Jwt}
use movie_api.Access.{guest_eq}
use movie_api.Billing.Settle.{truthy}
use movie_api.Billing.Checkout.{or_text}
use movie_api.Accounts.{AccountDb, open_session, claim_guest_purchases, has_email}
use movie_api.Accounts.Providers.{
  GoogleClaims, link_google, authenticate_google, fill_name, fill_picture, is_truthy, save_user,
  finish,
}

-- a request's connection at its start
abbrev start : AccountDb → Conn AccountDb
start t = record { current = t; saved = t }

text_of : (o : Option String) (x : String) → guest_eq o x ≡ true → o ≡ some x
text_of none x e = absurd (ground arith)
text_of (some y) x e = ap some ((eq_iff y x).0 e)

filled :
    (name picture : Option String) (u : User)
    → (fill_name name (fill_picture picture u)).google_id ≡ u.google_id
filled name picture u = elim (Bool-cases (is_truthy picture)) [
  | inl shown ↦ ground arith
  | inr plain ↦ ground arith
]

filled_id :
    (name picture : Option String) (u : User) → (fill_name name (fill_picture picture u)).id ≡ u.id
filled_id name picture u = elim (Bool-cases (is_truthy picture)) [
  | inl shown ↦ ground arith
  | inr plain ↦ ground arith
]

saved_user :
    (u user : User) (users : List User)
    → u.id ≡ user.id
    → In u users
    → In user (update (by_user_id user.id) (λ _. user) users)
saved_user u user users same i = In-replaced (λ (x : User). x.id) u user users same i

module _ (j : Jwt) (s : Settings) (now : ℕ) (stamp : Stamp) (issued_at new_id : ℕ)
    (agent guest_id : Option String) where
  linked :
      (google_sub email : String) (name picture : Option String) (c : Conn AccountDb) {user : User}
      → (link_google j s now stamp issued_at new_id agent guest_id google_sub email name picture
          c).0
        ≡ ok user
      → (user.google_id ≡ some google_sub)
        × In user
            (link_google j s now stamp issued_at new_id agent guest_id google_sub email name picture
              c).1.current.shop.users
  unfolding link_google
  linked google_sub email name picture c {user} e =
      elim (Option-cases (first (has_email email) c.current.shop.users)) [
        | inl missing ↦ (ground arith, ground arith)
        | inr (u, found) ↦
            let kept = filled name picture (record u { google_id = some google_sub }) in
            (
              ground arith,
              ground (
                arith,
                saved_user u
                    (fill_name name
                      (fill_picture picture (record u { google_id = some google_sub })))
                    c.current.shop.users
                    (sym (filled_id name picture (record u { google_id = some google_sub })))
                    (In-first (has_email email) c.current.shop.users found),
              ),
            )
      ]

  entered :
      (user : User) (c : Conn AccountDb) {answer : User × j.Token}
      → (open_session j s now stamp issued_at user agent guest_id c).0 ≡ ok answer
      → answer.0 ≡ user
  unfolding open_session
  entered user c e = ground arith

  -- The rest of a sign-in stores the users as the request sees them.
  opened_users :
      (user : User) (c : Conn AccountDb) {answer : User × j.Token}
      → (open_session j s now stamp issued_at user agent guest_id c).0 ≡ ok answer
      → (open_session j s now stamp issued_at user agent guest_id c).1.saved.shop.users
        ≡ c.current.shop.users
  unfolding open_session claim_guest_purchases create_session
  opened_users user c e = ground arith

  -- The user that the shared part answers.
  finished :
      (name picture : Option String) (u user : User) (token : j.Token) (c : Conn AccountDb)
      → In u c.current.shop.users
      → (finish j s now stamp issued_at new_id agent guest_id name picture u c).0 ≡ ok (user, token)
      → (user.google_id ≡ u.google_id)
        × (user.is_active ≡ true)
        × In user
            (finish j s now stamp issued_at new_id agent guest_id name picture u
              c).1.saved.shop.users
  unfolding finish
  finished name picture u user token c there e =
      let kept = fill_name name (fill_picture picture u) in
      let c' : Conn AccountDb = (save_user kept c).1 in
      elim (Bool-cases kept.is_active) [
        | inr disabled ↦ absurd (ground arith)
        | inl active ↦
            let opened : (open_session j s now stamp issued_at kept agent guest_id c').0
                ≡ ok (user, token) =
              ground arith in
            let same = entered kept c' opened in
            let users : (finish j s now stamp issued_at new_id agent guest_id name picture u
                  c).1.saved.shop.users
                ≡ update (by_user_id kept.id) (λ _. kept) c.current.shop.users =
              ground (arith, opened_users kept c' opened) in
            (
              ap (λ (x : User). x.google_id) same ∙ filled name picture u,
              ap (λ (x : User). x.is_active) same ∙ active,
              subst (λ users. In user users) (sym users)
                  (subst
                    (λ (x : User).
                      In x (update (by_user_id kept.id) (λ _. kept) c.current.shop.users))
                    (sym same)
                    (saved_user u kept c.current.shop.users (sym (filled_id name picture u))
                      there)),
            )
      ]

  -- A sign-in of a Google account that is not known yet goes on from the linked user.
  from_link :
      (claims : GoogleClaims) (google_sub email : String) (c : Conn AccountDb) (u : User)
      → truthy claims.sub ≡ some google_sub
      → truthy claims.email ≡ some email
      → claims.email_verified ≡ true
      → first (λ (x : User). guest_eq x.google_id google_sub) c.current.shop.users ≡ none
      → let name = or_text claims.name claims.given_name in
        let link =
          link_google j s now stamp issued_at new_id agent guest_id google_sub
            (lower email)
            name
            claims.picture
            c in
        link.0 ≡ ok u
        → authenticate_google j s now stamp issued_at new_id agent guest_id (ok claims) c
          ≡ finish j s now stamp issued_at new_id agent guest_id name claims.picture u link.1
  unfolding authenticate_google
  from_link claims google_sub email c u subbed mailed verified unknown joined =
      rw (subbed, mailed, verified, unknown, joined, unknown) refl

  -- One of a known account goes on from its user.
  from_known :
      (claims : GoogleClaims) (google_sub email : String) (c : Conn AccountDb) (u : User)
      → truthy claims.sub ≡ some google_sub
      → truthy claims.email ≡ some email
      → claims.email_verified ≡ true
      → first (λ (x : User). guest_eq x.google_id google_sub) c.current.shop.users ≡ some u
      → authenticate_google j s now stamp issued_at new_id agent guest_id (ok claims) c
        ≡ finish j s now stamp issued_at new_id agent guest_id
            (or_text claims.name claims.given_name)
            claims.picture
            u
            c
  unfolding authenticate_google
  from_known claims google_sub email c u subbed mailed verified known =
      rw (subbed, mailed, verified, known, known) refl

  -- What a sign-in that goes through by the shared part answers and stores.
  through_finish :
      (claims : GoogleClaims) (name picture : Option String) (google_sub : String) (t : AccountDb)
      (c : Conn AccountDb) (u user : User) (token : j.Token)
      → u.google_id ≡ some google_sub
      → In u c.current.shop.users
      → authenticate_google j s now stamp issued_at new_id agent guest_id (ok claims) (start t)
        ≡ finish j s now stamp issued_at new_id agent guest_id name picture u c
      → (run (authenticate_google j s now stamp issued_at new_id agent guest_id (ok claims)) t).0
        ≡ ok (user, token)
      → (user.google_id ≡ some google_sub)
        × (user.is_active ≡ true)
        × In user
            (run
              (authenticate_google j s now stamp issued_at new_id agent guest_id (ok claims))
              t).1.shop.users
  through_finish claims name picture google_sub t c u user token theirs there same e =
      let (linked_to, active, stored) =
        finished name picture u user token c there (sym (ap (λ r. r.0) same) ∙ e) in
      (
        linked_to ∙ theirs,
        active,
        subst (λ (r : Result (User × j.Token) × Conn AccountDb). In user r.1.saved.shop.users)
            (sym same) stored,
      )

  -- The user is known by the account, or linked to it.
  entered_as :
      (claims : GoogleClaims) (google_sub email : String) (t : AccountDb) (user : User)
      (token : j.Token)
      → truthy claims.sub ≡ some google_sub
      → truthy claims.email ≡ some email
      → claims.email_verified ≡ true
      → (run (authenticate_google j s now stamp issued_at new_id agent guest_id (ok claims)) t).0
        ≡ ok (user, token)
      → (user.google_id ≡ some google_sub)
        × (user.is_active ≡ true)
        × In user
            (run
              (authenticate_google j s now stamp issued_at new_id agent guest_id (ok claims))
              t).1.shop.users
  unfolding authenticate_google
  entered_as claims google_sub email t user token subbed mailed verified e =
      let name = or_text claims.name claims.given_name in
      let is_theirs = λ (x : User). guest_eq x.google_id google_sub in
      elim (Option-cases (first is_theirs t.shop.users)) [
        | inr (u, known) ↦
            through_finish claims name claims.picture google_sub t (start t) u user token
              (text_of u.google_id google_sub (first-true is_theirs t.shop.users known))
              (In-first is_theirs t.shop.users known)
              (from_known claims google_sub email (start t) u subbed mailed verified known) e
        | inl unknown ↦
            let link =
              link_google j s now stamp issued_at new_id agent guest_id google_sub (lower email)
                name claims.picture (start t) in
            elim (Result-cases link.0) [
              | inl (x, refused) ↦ absurd (ground arith)
              | inr (u, joined) ↦
                  let (theirs, there) =
                    linked google_sub (lower email) name claims.picture (start t) joined in
                  through_finish claims name claims.picture google_sub t link.1 u user token theirs
                    there
                    (from_link claims google_sub email (start t) u subbed mailed verified unknown
                      joined)
                    e
            ]
      ]

  -- A sign-in by Google that goes through is by a token with a verified email. It answers an active
  -- user whose Google account is the one that the token names, and the row of the user that it answers
  -- is stored, also where the user was found by the email or is new.
  pub google_identity :
      (claims : GoogleClaims) (t : AccountDb) (user : User) (token : j.Token)
      → (run (authenticate_google j s now stamp issued_at new_id agent guest_id (ok claims)) t).0
        ≡ ok (user, token)
      → (google_sub : String) × (claims.sub ≡ some google_sub)
        × (claims.email_verified ≡ true)
        × (user.google_id ≡ some google_sub)
        × (user.is_active ≡ true)
        × In user
            (run
              (authenticate_google j s now stamp issued_at new_id agent guest_id (ok claims))
              t).1.shop.users
  unfolding authenticate_google
  google_identity claims t user token e = elim (Option-cases (truthy claims.sub)) [
    | inl no_sub ↦ absurd (ground arith)
    | inr (google_sub, subbed) ↦ elim (Option-cases (truthy claims.email)) [
      | inl no_email ↦ absurd (ground arith)
      | inr (email, mailed) ↦ elim (Bool-cases claims.email_verified) [
        | inr unverified ↦ absurd (ground arith)
        | inl verified ↦
            let (theirs, active, stored) =
              entered_as claims google_sub email t user token subbed mailed verified e in
            (google_sub, ground arith, verified, theirs, active, stored)
      ]
    ]
  ]
