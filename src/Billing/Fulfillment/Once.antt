-- ===== src/Billing/Fulfillment/Once.antt =====
-- A payment grants at most once: fulfilling an intent again changes nothing, and no intent has two
-- receipts.
use movie_api.Shared.{
  ℕ, ◌≤◌, ◌≡◌, refl, sym, subst, String, Bool, true, false, Option, none, some, List, [], ◌∷◌,
  arith, first, count, update, str_eq, eq_iff, Tx, ◌>>◌, run, commit, Conn, Result, ok,
  Option-cases, Bool-cases, inl, inr, ◌⊎◌,
}
use movie_api.Shop.{Purchase, SeriesPurchase, SubscriptionPayment, PaymentIntent, ShopDb}
use movie_api.Billing.Fulfillment.{
  fulfill_payment_intent, grant, by_intent_id, set_succeeded, purchase_of, series_purchase_of,
  payment_of, is_succeeded,
}

-- The handler with its caller's commit.
abbrev pub fulfill : ℕ → ℕ → String → Option String → Tx ShopDb Unit
fulfill now new_id intent_id bank = fulfill_payment_intent now new_id intent_id bank >> commit

first-update_self {ℓ} :
    {A : Type ℓ} (p : A → Bool) (f : A → A) (xs : List A) {r : A}
    → ((x : A) → p (f x) ≡ p x)
    → first p xs ≡ some r
    → first p (update p f xs) ≡ some (f r)
first-update_self p f [] same e = cc
first-update_self p f (x ∷ xs) {r} same e =
    ground (arith, same x, first-update_self p f xs {r = r} same)

grant-intents :
    (now new_id : ℕ) (i : PaymentIntent) (bank : Option String) (c : Conn ShopDb)
    → (grant now new_id i bank c).1.current.intents ≡ c.current.intents
unfolding grant
grant-intents now new_id i bank c = ground arith

-- The tables once the intent is marked as succeeded.
abbrev pub marked : ℕ → String → ShopDb → ShopDb
marked now intent_id t = record t {
  intents = update (by_intent_id intent_id) (set_succeeded now) t.intents;
}

module _ (now new_id : ℕ) (intent_id : String) (bank : Option String) (t : ShopDb) where
  fulfill_missing :
      first (by_intent_id intent_id) t.intents ≡ none
      → run (fulfill now new_id intent_id bank) t ≡ (ok tt, t)
  unfolding fulfill_payment_intent
  fulfill_missing missing = ground arith

  fulfill_done :
      (i : PaymentIntent)
      → first (by_intent_id intent_id) t.intents ≡ some i
      → is_succeeded i.status ≡ true
      → run (fulfill now new_id intent_id bank) t ≡ (ok tt, t)
  unfolding fulfill_payment_intent
  fulfill_done i found done = ground arith

  fulfill_open :
      (i : PaymentIntent) {t' : ShopDb}
      → first (by_intent_id intent_id) t.intents ≡ some i
      → is_succeeded i.status ≡ false
      → run (fulfill now new_id intent_id bank) t ≡ (ok tt, t')
      → t'.intents ≡ update (by_intent_id intent_id) (set_succeeded now) t.intents
  unfolding fulfill_payment_intent
  fulfill_open i found open_still done = ground (
    arith,
    grant-intents now new_id i bank (record { current = marked now intent_id t; saved = t }),
  )

-- Fulfilling is idempotent: after a fulfilment that went through, another one, at any time and for
-- any bank, goes through and changes no table.
pub fulfill_twice :
    (now new_id later other_id : ℕ) (intent_id : String) (bank other_bank : Option String)
    (t t' : ShopDb)
    → run (fulfill now new_id intent_id bank) t ≡ (ok tt, t')
    → run (fulfill later other_id intent_id other_bank) t' ≡ (ok tt, t')
fulfill_twice now new_id later other_id intent_id bank other_bank t t' done =
    elim (Option-cases (first (by_intent_id intent_id) t.intents)) [
      | inl missing ↦
          let same : t ≡ t' = cc (fulfill_missing now new_id intent_id bank t missing) in
          subst (λ u. run (fulfill later other_id intent_id other_bank) u ≡ (ok tt, u)) same
            (fulfill_missing later other_id intent_id other_bank t missing)
      | inr (i, found) ↦ elim (Bool-cases (is_succeeded i.status)) [
        | inl settled ↦
            let same : t ≡ t' = cc (fulfill_done now new_id intent_id bank t i found settled) in
            subst (λ u. run (fulfill later other_id intent_id other_bank) u ≡ (ok tt, u)) same
              (fulfill_done later other_id intent_id other_bank t i found settled)
        | inr open_still ↦
            fulfill_done later other_id intent_id other_bank t' (set_succeeded now i)
              (subst (λ rows. first (by_intent_id intent_id) rows ≡ some (set_succeeded now i))
                (sym (fulfill_open now new_id intent_id bank t i found open_still done))
                (first-update_self (by_intent_id intent_id) (set_succeeded now) t.intents
                  (λ x. refl) found))
              refl
      ]
    ]

count_of_missing {ℓ} :
    {A : Type ℓ} (p : A → Bool) (rows : List A) → first p rows ≡ none → count p rows ≡ 0
count_of_missing p [] missing = refl
count_of_missing p (x ∷ rows) missing = ground (arith, count_of_missing p rows)

-- One receipt at most for each intent, in each of the three tables.
pub record SingleReceipts (t : ShopDb) : Type 0 where
  pub movies : (k : String) → count (purchase_of k) t.purchases ≤ 1
  pub unlocks : (k : String) → count (series_purchase_of k) t.series_purchases ≤ 1
  pub payments : (k : String) → count (payment_of k) t.subscription_payments ≤ 1

-- Where no row has the key `m`, none has an equal key.
count_of_key {ℓ} :
    {A : Type ℓ} (key : A → String) (m k : String) (rows : List A)
    → first (λ r. str_eq (key r) m) rows ≡ none
    → str_eq m k ≡ true
    → count (λ r. str_eq (key r) k) rows ≡ 0
count_of_key key m k rows missing same =
    count_of_missing (λ r. str_eq (key r) k) rows
      (subst (λ n. first (λ r. str_eq (key r) n) rows ≡ none) ((eq_iff m k).0 same) missing)

module _ (now new_id : ℕ) (i : PaymentIntent) (bank : Option String) (c : Conn ShopDb) where
  grant-SingleReceipts :
      SingleReceipts c.current → SingleReceipts (grant now new_id i bank c).1.current
  unfolding grant
  grant-SingleReceipts h = record {
    movies = λ k. ground (
      arith,
      h.movies k,
      count_of_key (λ (r : Purchase). r.intent_id) i.intent_id k c.current.purchases,
    );
    unlocks = λ k. ground (
      arith,
      h.unlocks k,
      count_of_key (λ (r : SeriesPurchase). r.intent_id) i.intent_id k c.current.series_purchases,
    );
    payments = λ k. ground (
      arith,
      h.payments k,
      count_of_key (λ (r : SubscriptionPayment). r.intent_id) i.intent_id k
          c.current.subscription_payments,
    );
  }

  pub grant-saved : (grant now new_id i bank c).1.saved ≡ c.saved
  unfolding grant
  grant-saved = ground arith

-- What is stored of an open intent: the grant made after the intent was marked, or nothing.
fulfill_stored :
    (now new_id : ℕ) (intent_id : String) (bank : Option String) (t : ShopDb) (i : PaymentIntent)
    → first (by_intent_id intent_id) t.intents ≡ some i
    → is_succeeded i.status ≡ false
    → let start : Conn ShopDb = record { current = marked now intent_id t; saved = t } in
      let stored = (run (fulfill now new_id intent_id bank) t).1 in
      (stored ≡ t) ⊎ (stored ≡ (grant now new_id i bank start).1.current)
unfolding fulfill_payment_intent
fulfill_stored now new_id intent_id bank t i found open_still =
    ground (
      arith,
      grant-saved now new_id i bank (record { current = marked now intent_id t; saved = t }),
    )

-- Every fulfilment, whether it goes through or fails, keeps the receipts single: no receipt table has
-- two rows for one intent.
pub fulfill-SingleReceipts :
    (now new_id : ℕ) (intent_id : String) (bank : Option String) (t : ShopDb)
    → SingleReceipts t
    → SingleReceipts (run (fulfill now new_id intent_id bank) t).1
fulfill-SingleReceipts now new_id intent_id bank t h =
    elim (Option-cases (first (by_intent_id intent_id) t.intents)) [
      | inl missing ↦
          subst (λ (x : Result Unit × ShopDb). SingleReceipts x.1)
            (sym (fulfill_missing now new_id intent_id bank t missing)) h
      | inr (i, found) ↦ elim (Bool-cases (is_succeeded i.status)) [
        | inl settled ↦
            subst (λ (x : Result Unit × ShopDb). SingleReceipts x.1)
              (sym (fulfill_done now new_id intent_id bank t i found settled)) h
        | inr open_still ↦ elim (fulfill_stored now new_id intent_id bank t i found open_still) [
          | inl same ↦ subst SingleReceipts (sym same) h
          | inr stored ↦ subst SingleReceipts (sym stored) (
              grant-SingleReceipts now new_id i bank
                (record { current = marked now intent_id t; saved = t })
                (record { movies = h.movies; unlocks = h.unlocks; payments = h.payments }))
        ]
      ]
    ]
