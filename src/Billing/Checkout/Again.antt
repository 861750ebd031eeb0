-- ===== src/Billing/Checkout/Again.antt =====
-- Two checkouts of a movie by one buyer, one after the other (app/billing/intents.py).
use movie_api.Shared.{
  ℕ, ◌+◌, ◌<◌, ◌≤◌, String, ◌≡◌, refl, subst, Bool, true, false, none, some, List, [], ◌∷◌, ltb,
  ==_refl, ==_iff, first, exists, sort_by, insert_by, first-true, str_eq, eq_iff, Result, ok, run,
  arith, minutes,
}
use movie_api.Shop.{Content, ShopDb}
use movie_api.Billing.Probe.{Answer, Worker, Instant}
use movie_api.Billing.Settle.{
  SettleSettings, already_owned, mark_succeeded_if_already_purchased, owns_movie, qr_is_stale,
  qr_issued_at,
}
use movie_api.Billing.Checkout.{
  Khqr, Fresh, oldest, movie_lookup, owned_already, reuse_or_refresh_pending, min_paid_usd,
  validate_payment_amount,
}
use movie_api.Billing.Checkout.Create.{
  commit_new_intent_or_reuse, new_movie_intent, create_or_reuse_movie_bakong_intent, clash,
  movie_intent, on_sale, bought_by, add_intent, Buyer, signed_in, guest, user_of, guest_of,
  bakong_checkout, movie_bakong_intent,
}

first-insert_by :
    {A : Type 0} (before : A → A → Bool) (p : A → Bool) (x : A) (xs : List A)
    → p x ≡ true
    → first p xs ≡ none
    → first p (insert_by before x xs) ≡ some x
first-insert_by before p x [] e none_yet = ground arith
first-insert_by before p x (y ∷ xs) e none_yet = ground (arith, first-insert_by before p x xs e)

str_eq_same : (x : String) → str_eq x x ≡ true
str_eq_same x = (eq_iff x x).1 refl

-- What a first checkout of a movie needs: the movie is on sale, its price is one that can be paid,
-- the buyer has neither bought it nor a pending intent for it, the KHQR can be made, and the random
-- texts are new.
pub record IsFirst (configured : String) (now : ℕ) (khqr : ℕ → String → Result Khqr) (fresh : Fresh)
    (b : Buyer) (title : ℕ) (t : ShopDb) (film : Content) (price : ℕ) (q : Khqr) : Type 0 where
  pub found : first (on_sale title) t.contents ≡ some film
  pub priced : film.price_usd ≡ some price
  pub fair : min_paid_usd ≤ price
  pub not_bought : exists (bought_by (user_of b) (guest_of b) title) t.purchases ≡ false
  pub none_pending : oldest (movie_lookup (user_of b) (guest_of b) title) t ≡ none
  pub made : khqr price fresh.bill_number ≡ ok q
  pub no_clash :
      exists
        (clash (movie_intent configured fresh now q film.id price (user_of b) (guest_of b)))
        t.intents
      ≡ false

module _ (s : SettleSettings) (configured : String) (at : Instant) (nbc : String → Answer)
    (now new_id : ℕ) (khqr : ℕ → String → Result Khqr) (fresh : Fresh) (q : Khqr) (b : Buyer)
    (title price : ℕ) (film : Content) (w : Worker) (t : ShopDb)
    (h : IsFirst configured now khqr fresh b title t film price q) where
  checkout_opens :
      let i = movie_intent configured fresh now q film.id price (user_of b) (guest_of b) in
      run
        (bakong_checkout s configured at nbc now new_id khqr fresh (movie_bakong_intent title b) w)
        t
      ≡ (ok (i, w), add_intent i t)
  unfolding bakong_checkout create_or_reuse_movie_bakong_intent new_movie_intent
      commit_new_intent_or_reuse validate_payment_amount
  checkout_opens =
      ground (arith, h.found, h.priced, h.fair, h.not_bought, h.none_pending, h.made, h.no_clash)

module _ (configured : String) (fresh : Fresh) (now : ℕ) (q : Khqr) (title price : ℕ)
    (film : Content) where
  film_is_title :
      (contents : List Content) → first (on_sale title) contents ≡ some film → film.id ≡ title
  film_is_title contents found =
      let sold = first-true (on_sale title) contents found in
      (==_iff film.id title).0 (ground arith)

  looked_up :
      (b : Buyer)
      → movie_lookup
          (user_of b)
          (guest_of b)
          title
          (movie_intent configured fresh now q title price (user_of b) (guest_of b))
        ≡ true
  looked_up (signed_in user) = ground (arith, ==_refl user.id, ==_refl title)
  looked_up (guest g) = ground (arith, str_eq_same g, ==_refl title)

  not_owned :
      (b : Buyer) (t : ShopDb)
      → exists (bought_by (user_of b) (guest_of b) title) t.purchases ≡ false
      → already_owned t (movie_intent configured fresh now q title price (user_of b) (guest_of b))
        ≡ false
  unfolding already_owned owns_movie
  not_owned (signed_in user) t fresh_buyer = ground arith
  not_owned (guest g) t fresh_buyer = ground arith

  still_fresh :
      (s : SettleSettings) (b : Buyer) (later : ℕ)
      → later < now + minutes s.bakong_qr_ttl_minutes
      → qr_is_stale s later
          (movie_intent configured fresh now q title price (user_of b) (guest_of b))
        ≡ false
  unfolding qr_is_stale qr_issued_at
  still_fresh s b later h = ground arith

module _ (s : SettleSettings) (configured : String) (at at' : Instant) (nbc nbc' : String → Answer)
    (now later new_id : ℕ) (khqr khqr' : ℕ → String → Result Khqr) (fresh fresh' : Fresh) (q : Khqr)
    (b : Buyer) (title price : ℕ) (film : Content) (w w' : Worker) (t : ShopDb)
    (h : IsFirst configured now khqr fresh b title t film price q)
    (soon : later < now + minutes s.bakong_qr_ttl_minutes) where
  reused :
      let i = movie_intent configured fresh now q title price (user_of b) (guest_of b) in
      run
        (bakong_checkout s configured at' nbc' later new_id khqr' fresh'
          (movie_bakong_intent title b)
          w')
        (add_intent i t)
      ≡ (ok (i, w'), add_intent i t)
  unfolding bakong_checkout create_or_reuse_movie_bakong_intent reuse_or_refresh_pending
      owned_already mark_succeeded_if_already_purchased
  reused =
      let i = movie_intent configured fresh now q title price (user_of b) (guest_of b) in
      ground (
        arith,
        h.not_bought,
        first-insert_by (λ x y. ltb x.created_at y.created_at)
            (movie_lookup (user_of b) (guest_of b) title) i
            (sort_by (λ x y. ltb x.created_at y.created_at) t.intents)
            (looked_up configured fresh now q title price film b) h.none_pending,
        not_owned configured fresh now q title price film b (add_intent i t) h.not_bought,
        still_fresh configured fresh now q title price film s b later soon,
      )

  -- A buyer's first checkout of a movie on sale opens one pending intent at the movie's price, and a
  -- second one before the QR is stale answers that intent and changes nothing: neither the tables
  -- nor the worker's caches, whatever Bakong, the QR maker and the random texts answer by then.
  pub checkout_again :
      let i = movie_intent configured fresh now q title price (user_of b) (guest_of b) in
      let request = movie_bakong_intent title b in
      (run (bakong_checkout s configured at nbc now new_id khqr fresh request w) t
        ≡ (ok (i, w), add_intent i t))
      × (run
            (bakong_checkout s configured at' nbc' later new_id khqr' fresh' request w')
            (add_intent i t)
          ≡ (ok (i, w'), add_intent i t))
  checkout_again = (
    subst
        (λ k.
          let i = movie_intent configured fresh now q k price (user_of b) (guest_of b) in
          run
            (bakong_checkout s configured at nbc now new_id khqr fresh (movie_bakong_intent title b)
              w)
            t
          ≡ (ok (i, w), add_intent i t))
        (film_is_title configured fresh now q title price film t.contents h.found)
        (checkout_opens s configured at nbc now new_id khqr fresh q b title price film w t h),
    reused,
  )
