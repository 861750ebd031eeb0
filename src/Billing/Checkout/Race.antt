-- ===== src/Billing/Checkout/Race.antt =====
-- Two checkouts of one buyer at the same time: what _commit_new_intent_or_reuse of
-- app/billing/intents.py does in the one that comes second.
use movie_api.Shared.{
  ℕ, String, ◌≡◌, ap, Bool, true, false, some, List, [], ◌∷◌, ltb, exists, sort_by, In, In-first,
  In-sort_by, first-true, Result, run, inl, inr, arith,
}
use movie_api.Shop.{PaymentIntent, ShopDb}
use movie_api.Billing.Probe.{Answer, Worker, Instant}
use movie_api.Billing.Settle.{SettleSettings}
use movie_api.Billing.Checkout.{
  Khqr, Fresh, oldest, movie_lookup, series_lookup, reuse_or_refresh_pending,
}
use movie_api.Billing.Checkout.Create.{
  commit_new_intent_or_reuse, clash, movie_intent, series_intent, Buyer, signed_in, guest, user_of,
  guest_of,
}

exists_of_In :
    {A : Type 0} (p : A → Bool) (x : A) (xs : List A) → p x ≡ true → In x xs → exists p xs ≡ true
exists_of_In p x [] e i = absurd i
exists_of_In p x (y ∷ xs) e (inl same) = ground (arith, ap p same)
exists_of_In p x (y ∷ xs) e (inr i) = ground (arith, exists_of_In p x xs e i)

-- What answers a query is a row, which passes its test.
oldest-In :
    (lookup : PaymentIntent → Bool) (t : ShopDb) {i : PaymentIntent}
    → oldest lookup t ≡ some i
    → In i t.intents × (lookup i ≡ true)
oldest-In lookup t {i} found =
    let sorted = sort_by (λ a b. ltb a.created_at b.created_at) t.intents in
    ((In-sort_by _ i t.intents).0 (In-first lookup sorted found), first-true lookup sorted found)

module _ (s : SettleSettings) (configured : String) (at : Instant) (nbc : String → Answer)
    (now new_id : ℕ) (khqr : ℕ → String → Result Khqr) (fresh : Fresh) where
  lost_race :
      (lookup : PaymentIntent → Bool) (check : Bool) (i winner : PaymentIntent) (w : Worker)
      (t : ShopDb)
      → ((j : PaymentIntent) → lookup j ≡ true → clash i j ≡ true)
      → oldest lookup t ≡ some winner
      → run
          (commit_new_intent_or_reuse s configured at nbc now new_id khqr fresh lookup check i w)
          t
        ≡ run (reuse_or_refresh_pending s at nbc now new_id khqr fresh check winner w) t
  unfolding commit_new_intent_or_reuse
  lost_race lookup check i winner w t keyed found =
      let stored = oldest-In lookup t found in
      let taken = exists_of_In (clash i) winner t.intents (keyed winner stored.1) stored.0 in
      ground arith

module _ (configured : String) (fresh : Fresh) (now : ℕ) (q : Khqr) (amount : ℕ) where
  movie_keyed :
      (content_id : ℕ) (b : Buyer) (j : PaymentIntent)
      → movie_lookup (user_of b) (guest_of b) content_id j ≡ true
      → clash (movie_intent configured fresh now q content_id amount (user_of b) (guest_of b)) j
        ≡ true
  movie_keyed content_id (signed_in user) j e = ground arith
  movie_keyed content_id (guest g) j e = ground arith

  series_keyed :
      (series_id : ℕ) (b : Buyer) (j : PaymentIntent)
      → series_lookup (user_of b) (guest_of b) series_id j ≡ true
      → clash (series_intent configured fresh now q series_id amount (user_of b) (guest_of b)) j
        ≡ true
  series_keyed series_id (signed_in user) j e = ground arith
  series_keyed series_id (guest g) j e = ground arith

-- The query for a pending intent, and the new intent, of a series or else of a movie.
abbrev pub title_lookup : Bool → Buyer → ℕ → PaymentIntent → Bool
title_lookup true b = series_lookup (user_of b) (guest_of b)
title_lookup false b = movie_lookup (user_of b) (guest_of b)

abbrev pub title_intent : Bool → String → Fresh → ℕ → Khqr → ℕ → ℕ → Buyer → PaymentIntent
title_intent true configured fresh now q title amount b =
    series_intent configured fresh now q title amount (user_of b) (guest_of b)
title_intent false configured fresh now q title amount b =
    movie_intent configured fresh now q title amount (user_of b) (guest_of b)

module _ (s : SettleSettings) (configured : String) (at : Instant) (nbc : String → Answer)
    (now new_id : ℕ) (khqr : ℕ → String → Result Khqr) (fresh : Fresh) (q : Khqr) (amount title : ℕ)
    (b : Buyer) (w : Worker) (t : ShopDb) (winner : PaymentIntent) where
  -- A checkout of a movie or a series that comes to store its new intent when a pending intent of
  -- the same buyer for the same title is stored already answers and stores exactly what reusing the
  -- oldest such intent does: the new intent is not stored, whatever its QR and its amount are.
  pub concurrent_checkouts_share :
      (of_series : Bool)
      → oldest (title_lookup of_series b title) t ≡ some winner
      → run
          (commit_new_intent_or_reuse s configured at nbc now new_id khqr fresh
            (title_lookup of_series b title)
            true
            (title_intent of_series configured fresh now q title amount b)
            w)
          t
        ≡ run (reuse_or_refresh_pending s at nbc now new_id khqr fresh true winner w) t
  concurrent_checkouts_share true =
      lost_race s configured at nbc now new_id khqr fresh
        (series_lookup (user_of b) (guest_of b) title) true
        (series_intent configured fresh now q title amount (user_of b) (guest_of b)) winner w t
        (series_keyed configured fresh now q amount title b)
  concurrent_checkouts_share false =
      lost_race s configured at nbc now new_id khqr fresh
        (movie_lookup (user_of b) (guest_of b) title) true
        (movie_intent configured fresh now q title amount (user_of b) (guest_of b)) winner w t
        (movie_keyed configured fresh now q amount title b)
