-- ===== src/Billing/Settle/Evidence.antt =====
-- What a settlement needs: evidence of payment.
use movie_api.Shared.{
  ℕ, ◌≡◌, ◌⊎◌, inl, inr, refl, String, Bool, true, false, Option, none, some, arith, Conn, ok,
  Option-cases,
}
use movie_api.Shop.{PaymentIntent, ShopDb, pending, bakong}
use movie_api.Billing.CheckCache.{paid}
use movie_api.Billing.Probe.{Answer, Worker, Instant, probe_khqr_status, check_khqr_paid}
use movie_api.Billing.Probe.Answers.{cached, paid_means_paid}
use movie_api.Billing.Settle.{
  SettleSettings, bakong_md5s_paid, settle_bakong_intent_if_paid, truthy, other_md5,
}
use movie_api.Billing.Fulfillment.{is_succeeded}

-- Bakong says in this call, or said a moment ago, that the text was paid.
abbrev pub Evidence : Instant → (String → Answer) → String → Worker → Type 0
Evidence at nbc md5 w = ((nbc md5).is_paid ≡ true) ⊎ (cached at md5 w ≡ some paid)

truthy-some : (o : Option String) {s : String} → truthy o ≡ some s → o ≡ some s
truthy-some none e = cc
truthy-some (some s) e = ground arith

other_md5-some :
    (o : Option String) (md5 : String) {p : String} → other_md5 o md5 ≡ some p → o ≡ some p
other_md5-some none md5 e = cc
other_md5-some (some s) md5 e = ground arith

-- The current text of the intent was paid, or else, the current one being unpaid, its previous text.
abbrev pub PaidText : Instant → (String → Answer) → PaymentIntent → Worker → Type 0
PaidText at nbc i w =
    (md5 : String) × (i.bakong_md5 ≡ some md5)
    × (Evidence at nbc md5 w
        ⊎ ((prev : String) × (i.bakong_prev_md5 ≡ some prev)
            × Evidence at nbc prev (probe_khqr_status at (nbc md5) md5 i.intent_id w).1))

module _ (s : SettleSettings) (at : Instant) (nbc : String → Answer) (i : PaymentIntent)
    (w : Worker) where
  probe_paid :
      (md5 : String)
      → (probe_khqr_status at (nbc md5) md5 i.intent_id w).0 ≡ paid
      → Evidence at nbc md5 w
  probe_paid md5 e = paid_means_paid at (nbc md5) md5 i.intent_id w e

  check_paid :
      (md5 : String) (v : Worker)
      → (check_khqr_paid at (nbc md5) md5 i.intent_id v).0 ≡ true
      → Evidence at nbc md5 v
  unfolding check_khqr_paid
  check_paid md5 v e = paid_means_paid at (nbc md5) md5 i.intent_id v (ground arith)

  -- How a check of an intent with a current text can come out true.
  paid_split :
      (md5 : String)
      → truthy i.bakong_md5 ≡ some md5
      → (bakong_md5s_paid s at nbc i w).0 ≡ true
      → ((probe_khqr_status at (nbc md5) md5 i.intent_id w).0 ≡ paid)
        ⊎ ((prev : String) × (other_md5 i.bakong_prev_md5 md5 ≡ some prev)
            × ((check_khqr_paid at
                  (nbc prev)
                  prev
                  i.intent_id
                  (probe_khqr_status at (nbc md5) md5 i.intent_id w).1).0
                ≡ true))
  unfolding bakong_md5s_paid
  paid_split md5 has e = elim (Option-cases (other_md5 i.bakong_prev_md5 md5)) [
    | inl alone ↦ inl (ground arith)
    | inr (prev, older) ↦ elim (prev_or_paid md5 prev has older e) [
      | inl direct ↦ inl direct
      | inr checked ↦ inr (prev, older, checked)
    ]
  ]
    where
      prev_or_paid :
          (md5 prev : String)
          → truthy i.bakong_md5 ≡ some md5
          → other_md5 i.bakong_prev_md5 md5 ≡ some prev
          → (bakong_md5s_paid s at nbc i w).0 ≡ true
          → ((probe_khqr_status at (nbc md5) md5 i.intent_id w).0 ≡ paid)
            ⊎ ((check_khqr_paid at
                  (nbc prev)
                  prev
                  i.intent_id
                  (probe_khqr_status at (nbc md5) md5 i.intent_id w).1).0
                ≡ true)
      prev_or_paid md5 prev has older e = ground arith

  md5s_paid_needs :
      (bakong_md5s_paid s at nbc i w).0 ≡ true
      → (s.bakong_nbc_settle_enabled ≡ true) × (md5 : String) × (truthy i.bakong_md5 ≡ some md5)
  unfolding bakong_md5s_paid
  md5s_paid_needs e = elim (Option-cases (truthy i.bakong_md5)) [
    | inl bare ↦ absurd (ground arith)
    | inr (md5, has) ↦ (ground arith, md5, has)
  ]

  pub md5s_paid-PaidText : (bakong_md5s_paid s at nbc i w).0 ≡ true → PaidText at nbc i w
  md5s_paid-PaidText e =
      let (on, md5, has) = md5s_paid_needs e in
      (
        md5,
        truthy-some i.bakong_md5 has,
        elim (paid_split md5 has e) [
          | inl direct ↦ inl (probe_paid md5 direct)
          | inr (prev, older, checked) ↦ inr (
            prev,
            other_md5-some i.bakong_prev_md5 md5 older,
            check_paid prev (probe_khqr_status at (nbc md5) md5 i.intent_id w).1 checked,
          )
        ],
      )

  settle_needs :
      (now new_id : ℕ) (c : Conn ShopDb) (w' : Worker)
      → is_succeeded i.status ≡ false
      → (settle_bakong_intent_if_paid s at nbc now new_id i w c).0 ≡ ok (true, w')
      → (i.method ≡ bakong) × (i.status ≡ pending) × ((bakong_md5s_paid s at nbc i w).0 ≡ true)
  unfolding settle_bakong_intent_if_paid
  settle_needs now new_id c w' open_still e = ground arith

  settle_false :
      (now new_id : ℕ) (c : Conn ShopDb) (w' : Worker)
      → (settle_bakong_intent_if_paid s at nbc now new_id i w c).0 ≡ ok (false, w')
      → (settle_bakong_intent_if_paid s at nbc now new_id i w c).1 ≡ c
  unfolding settle_bakong_intent_if_paid
  settle_false now new_id c w' e = ground arith

-- An intent that is not yet fulfilled is settled only if it is a pending one of Bakong and there is
-- evidence that one of its texts was paid; and where the answer is that it is not settled, no table
-- has changed.
pub settle_evidence :
    (s : SettleSettings) (at : Instant) (nbc : String → Answer) (now new_id : ℕ) (i : PaymentIntent)
    (w w' : Worker) (settled : Bool) (c : Conn ShopDb)
    → is_succeeded i.status ≡ false
    → (settle_bakong_intent_if_paid s at nbc now new_id i w c).0 ≡ ok (settled, w')
    → (settled ≡ true) × (i.method ≡ bakong) × (i.status ≡ pending) × PaidText at nbc i w
      ⊎ (settled ≡ false) × ((settle_bakong_intent_if_paid s at nbc now new_id i w c).1 ≡ c)
settle_evidence s at nbc now new_id i w w' true c open_still e =
    let (method, status, checked) = settle_needs s at nbc i w now new_id c w' open_still e in
    inl (refl, method, status, md5s_paid-PaidText s at nbc i w checked)
settle_evidence s at nbc now new_id i w w' false c open_still e =
    inr (refl, settle_false s at nbc i w now new_id c w' e)
