-- ===== src/Billing/Polls/Paused.antt =====
-- Whose intents a poll may load, and polls while the circuit is open.
use movie_api.Shared.{
  ℕ, String, ◌≡◌, Option, some, true, arith, run, ok, first, In, In-first, first-true, Conn,
  Option-cases, inl, inr, opt_eq, ◌&&◌, eq_iff, subst,
}
use movie_api.Models.{User}
use movie_api.Shop.{PaymentIntent, ShopDb}
use movie_api.Billing.Fulfillment.{by_intent_id}
use movie_api.Billing.Quota.{bakong_checks_blocked}
use movie_api.Billing.Probe.{Answer, Worker, Instant}
use movie_api.Billing.Settle.{SettleSettings}
use movie_api.Billing.Polls.{load_buyer_intent, settle_pending_intent_on_poll}

-- An intent that is loaded for a signed-in buyer is stored, under the id asked for, as theirs.
pub load_buyer_intent-owned :
    (intent_id : String) (user : User) (guest : Option String) (t : ShopDb) (i : PaymentIntent)
    → (run (load_buyer_intent intent_id (some user) guest) t).0 ≡ ok i
    → In i t.intents × (i.intent_id ≡ intent_id) × (i.user_id ≡ some user.id)
unfolding load_buyer_intent
load_buyer_intent-owned intent_id user guest t i e =
    let mine = λ (x : PaymentIntent). by_intent_id intent_id x && opt_eq x.user_id user.id in
    elim (Option-cases (first mine t.intents)) [
      | inl missing ↦ absurd (ground arith)
      | inr (x, found) ↦
          subst (λ y. In y t.intents × (y.intent_id ≡ intent_id) × (y.user_id ≡ some user.id))
            (ground arith)
            (
              In-first mine t.intents found,
              (eq_iff _ _).0 (ground (arith, first-true mine t.intents found)),
              ground (arith, first-true mine t.intents found),
            )
    ]

-- While the circuit is open, a poll comes out the same whatever Bakong would answer: it is not asked.
pub poll_blocked :
    (s : SettleSettings) (at : Instant) (nbc other : String → Answer) (now new_id : ℕ)
    (i : PaymentIntent) (w : Worker) (c : Conn ShopDb)
    → bakong_checks_blocked at.mono at.unix at.shared w.circuit ≡ true
    → settle_pending_intent_on_poll s at nbc now new_id i w c
      ≡ settle_pending_intent_on_poll s at other now new_id i w c
unfolding settle_pending_intent_on_poll
poll_blocked s at nbc other now new_id i w c open_circuit = ground arith
