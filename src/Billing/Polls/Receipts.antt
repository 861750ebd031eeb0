-- ===== src/Billing/Polls/Receipts.antt =====
-- A poll does not turn an intent that was not paid into a paid one.
use movie_api.Shared.{
  ℕ, String, ◌≡◌, ◌⊎◌, Bool, Option, none, some, false, List, [], ◌∷◌, arith, ok, first, update,
  Conn, Option-cases, Bool-cases, inl, inr, refl, sort_by, is_some, ◌&&◌,
}
use movie_api.Shop.{PaymentIntent, ShopDb, pending, succeeded}
use movie_api.Billing.Fulfillment.{by_intent_id, is_succeeded}
use movie_api.Billing.Probe.{Answer, Worker, Instant}
use movie_api.Billing.Settle.{
  SettleSettings, already_owned, truthy, settle_bakong_intent_if_paid,
  mark_succeeded_if_already_purchased,
}
use movie_api.Billing.Settle.Evidence.{PaidText}
use movie_api.Billing.Settle.Playback.{newer_intent, settled_one, Answered-cases}
use movie_api.Billing.Quota.{bakong_checks_blocked}
use movie_api.Billing.Polls.{
  is_sibling, polled, settle_pending_intent_on_poll, poll_bakong, poll_sibling, committed,
  supersede,
}

-- The row that a test finds after an update of the rows that pass it is an updated one.
first_updated :
    {A : Type 0} (p : A → Bool) (f : A → A) (xs : List A)
    → ((x : A) → p (f x) ≡ p x)
    → (first p (update p f xs) ≡ none) ⊎ ((r : A) × (first p (update p f xs) ≡ some (f r)))
first_updated p f [] same = inl refl
first_updated p f (x ∷ xs) same = elim (Bool-cases (p x)) [
  | inl chosen ↦ inr (x, ground (arith, same x))
  | inr other ↦ elim (first_updated p f xs same) [
    | inl missing ↦ inl (ground (arith, same x))
    | inr (r, found) ↦ inr (r, ground (arith, same x))
  ]
]

module _ (i : PaymentIntent) (waits : i.status ≡ pending) where
  -- An intent that was superseded in the table is not read back as one that succeeded.
  superseded_back :
      (at : Option ℕ) (w w' : Worker) (t : ShopDb) (c : Conn ShopDb) (j : PaymentIntent)
      → (committed i w (record {
        current = record t { intents = update (by_intent_id i.intent_id) (supersede at) t.intents };
        saved = c.saved;
      })).0
        ≡ ok (j, w')
      → is_succeeded j.status ≡ false
  superseded_back at w w' t c j e =
      ground (arith, first_updated (by_intent_id i.intent_id) (supersede at) t.intents (λ x. refl))

  module _ (s : SettleSettings) (at : Instant) (nbc : String → Answer) (now new_id : ℕ) where
    sibling_back :
        (content_id : ℕ) (w w' : Worker) (c : Conn ShopDb) (j : PaymentIntent)
        → (poll_sibling s at nbc now new_id i content_id w c).0 ≡ ok (j, w')
        → is_succeeded j.status ≡ false
    unfolding poll_sibling
    sibling_back content_id w w' c j e =
        elim (Option-cases
          (first (is_sibling i content_id) (sort_by newer_intent c.current.intents))) [
            | inl missing ↦ ground arith
            | inr (sibling, found) ↦
                let one = settle_bakong_intent_if_paid s at nbc now new_id sibling w c in
                elim (Answered-cases one.0) [
                  | inl (x, failed) ↦ absurd (ground arith)
                  | inr (inr (w1, waiting)) ↦ ground arith
                  | inr (inl (w1, settled)) ↦
                      let receipt : PaymentIntent =
                        elim (first (by_intent_id sibling.intent_id) one.1.current.intents) [
                          | none ↦ sibling
                          | some row ↦ row
                        ] in
                      superseded_back receipt.resolved_at (polled at i w1) w' one.1.current one.1 j
                        (ground arith)
                ]
          ]

    poll_bakong-PaidText :
        (w w' : Worker) (c : Conn ShopDb) (j : PaymentIntent)
        → (poll_bakong s at nbc now new_id i w c).0 ≡ ok (j, w')
        → j.status ≡ succeeded
        → PaidText at nbc i w
    unfolding poll_bakong
    poll_bakong-PaidText w w' c j e paid_now =
        elim (Answered-cases (settle_bakong_intent_if_paid s at nbc now new_id i w c).0) [
          | inl (x, failed) ↦ absurd (ground arith)
          | inr (inl (w1, settled)) ↦
              settled_one s at nbc now new_id i w w1 c (ground arith) settled
          | inr (inr (w1, waiting)) ↦ elim (Option-cases i.content_id) [
            | inl none_there ↦ absurd (ground arith)
            | inr (content_id, title) ↦ absurd (
                ground (
                  arith,
                  sibling_back content_id w1 w'
                      (settle_bakong_intent_if_paid s at nbc now new_id i w c).1 j (ground arith),
                ))
          ]
        ]

    -- Where a poll of a pending intent answers it as succeeded, there is evidence that one of its
    -- texts was paid: neither owning the title already nor a paid sibling makes a receipt of it.
    pub poll-PaidText :
        (w w' : Worker) (c : Conn ShopDb) (j : PaymentIntent)
        → (settle_pending_intent_on_poll s at nbc now new_id i w c).0 ≡ ok (j, w')
        → j.status ≡ succeeded
        → PaidText at nbc i w
    unfolding settle_pending_intent_on_poll mark_succeeded_if_already_purchased
    poll-PaidText w w' c j e paid_now = elim (Bool-cases (already_owned c.current i)) [
      | inl owned ↦
          absurd (ground (arith, superseded_back (some now) w w' c.current c j (ground arith)))
      | inr other ↦
          elim (Bool-cases (s.bakong_nbc_settle_enabled && is_some (truthy i.bakong_md5))) [
            | inr silent ↦ absurd (ground arith)
            | inl asks ↦
                elim (Bool-cases (bakong_checks_blocked at.mono at.unix at.shared w.circuit)) [
                  | inl closed ↦ absurd (ground arith)
                  | inr clear ↦ poll_bakong-PaidText w w' c j (ground arith) paid_now
                ]
          ]
    ]
