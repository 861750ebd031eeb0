-- ===== src/Tests/Checkout.antt =====
-- Checkouts of the movie of the shop of the tests.
use movie_api.Shared.{
  ℕ, String, ◌≡◌, refl, true, false, none, some, arith, run, Result, ok, err, not_found, fixed,
}
use movie_api.Shop.{PaymentIntent}
use movie_api.Billing.Checkout.{Khqr, Fresh, reuse_or_refresh_pending}
use movie_api.Billing.Checkout.Create.{
  Buyer, guest, bakong_checkout, movie_bakong_intent, movie_intent, add_intent,
  commit_new_intent_or_reuse, new_movie_intent, create_or_reuse_movie_bakong_intent,
}
use movie_api.Billing.Checkout.Failed.{failed_checkout_stores_nothing}
use movie_api.Billing.Checkout.Race.{title_lookup, title_intent, concurrent_checkouts_share}
use movie_api.Billing.Checkout.Again.{IsFirst, checkout_again}
use movie_api.Tests.Access.{shop, film}
use movie_api.Tests.Checks.{worker, noon, all_paid, settle_settings}

abbrev qr : Khqr
qr = record { qr_string = "000201"; md5 = "md5-1"; merchant_name = "Reeltime" }

abbrev make_khqr : ℕ → String → Result Khqr
make_khqr amount bill_number = ok qr

abbrev drawn : Fresh
drawn = record { intent_hex = "0a"; order_hex = "0b"; bill_number = "0c"; created_at = 20 }

abbrev redrawn : Fresh
redrawn = record drawn { intent_hex = "1a"; order_hex = "1b" }

abbrev visitor : Buyer
visitor = guest "g9"

visitor-IsFirst : IsFirst "" 20 make_khqr drawn visitor 100 shop film 299 qr
visitor-IsFirst = record {
  found = refl;
  priced = refl;
  fair = omega arith;
  not_bought = refl;
  none_pending = refl;
  made = refl;
  no_clash = refl;
}

abbrev opened : PaymentIntent
opened = movie_intent "" drawn 20 qr 100 299 none (some "g9")

checkout_again_example :
    let checkout = bakong_checkout settle_settings "" noon all_paid in
    let request = movie_bakong_intent 100 visitor in
    (run (checkout 20 9 make_khqr drawn request worker) shop
      ≡ (ok (opened, worker), add_intent opened shop))
    × (run (checkout 30 9 make_khqr redrawn request worker) (add_intent opened shop)
        ≡ (ok (opened, worker), add_intent opened shop))
checkout_again_example =
    checkout_again settle_settings "" noon noon all_paid all_paid 20 30 9 make_khqr make_khqr drawn
      redrawn qr visitor 100 299 film worker worker shop visitor-IsFirst (omega arith)

concurrent_checkouts_share_example :
    run
      (commit_new_intent_or_reuse settle_settings "" noon all_paid 30 9 make_khqr redrawn
        (title_lookup false visitor 100)
        true
        (title_intent false "" redrawn 30 qr 100 299 visitor)
        worker)
      (add_intent opened shop)
    ≡ run
        (reuse_or_refresh_pending settle_settings noon all_paid 30 9 make_khqr redrawn true opened
          worker)
        (add_intent opened shop)
concurrent_checkouts_share_example =
    concurrent_checkouts_share settle_settings "" noon all_paid 30 9 make_khqr redrawn qr 299 100
      visitor worker (add_intent opened shop) opened false refl

no_such_movie :
    (run
      (bakong_checkout settle_settings "" noon all_paid 20 9 make_khqr drawn
        (movie_bakong_intent 101 visitor)
        worker)
      shop).0
    ≡ err (not_found (fixed "Movie not found"))
unfolding bakong_checkout create_or_reuse_movie_bakong_intent new_movie_intent
no_such_movie = refl

failed_checkout_stores_nothing_example :
    (run
      (bakong_checkout settle_settings "" noon all_paid 20 9 make_khqr drawn
        (movie_bakong_intent 101 visitor)
        worker)
      shop).1
    ≡ shop
failed_checkout_stores_nothing_example =
    failed_checkout_stores_nothing settle_settings "" noon all_paid 20 9 make_khqr drawn
      (movie_bakong_intent 101 visitor) worker shop (not_found (fixed "Movie not found"))
      no_such_movie
