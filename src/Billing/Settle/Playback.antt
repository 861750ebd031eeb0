-- ===== src/Billing/Settle/Playback.antt =====
-- settle_pending_movie_bakong_for_buyer of app/billing/bakong_settle.py: before playback, the
-- buyer's newest pending intents for the movie are checked once more.
use movie_api.Shared.{
  ℕ, String, ◌≡◌, Bool, true, false, not, ◌&&◌, Option, none, some, List, [], ◌∷◌, ltb,
  if◌then◌else◌, select, sort_by, opt_eq, is_some, Tx, pure, gets, ◌>>=◌, Conn, ok, take, In,
  In-take, In-select, In-sort_by, arith, Result, HttpError, err, ◌⊎◌, inl, inr, refl,
}
use movie_api.Shop.{PaymentIntent, Kind, movie, ShopDb}
use movie_api.Access.{guest_eq}
use movie_api.Billing.Fulfillment.{is_succeeded}
use movie_api.Billing.Quota.{bakong_checks_blocked}
use movie_api.Billing.Probe.{Answer, Worker, Instant}
use movie_api.Billing.Settle.{
  SettleSettings, is_bakong, is_pending, truthy, settle_bakong_intent_if_paid,
}
use movie_api.Billing.Settle.Evidence.{PaidText, settle_evidence}

abbrev pub is_movie : Kind → Bool
is_movie movie = true
is_movie _ = false

-- `identity`: the user where there is one, or else the guest
abbrev pub buys : Option ℕ → Option String → PaymentIntent → Bool
buys (some user_id) guest_id i = opt_eq i.user_id user_id
buys none (some guest_id) i = guest_eq i.guest_id guest_id
buys none none i = false

-- The conditions of the query.
abbrev pub pending_movie : Option ℕ → Option String → ℕ → PaymentIntent → Bool
pending_movie user_id guest_id content_id i =
    buys user_id guest_id i
    && is_bakong i.method
    && is_movie i.kind
    && opt_eq i.content_id content_id
    && is_pending i.status
    && is_some i.bakong_md5

abbrev pub newer_intent : PaymentIntent → PaymentIntent → Bool
newer_intent a b = ltb b.created_at a.created_at

-- The loop, which stops at the first intent that is settled.
unfoldable pub settle_first :
    SettleSettings
    → Instant
    → (String → Answer)
    → ℕ
    → ℕ
    → List PaymentIntent
    → Worker
    → Tx ShopDb (Bool × Worker)
settle_first s at nbc now new_id [] w = pure (false, w)
settle_first s at nbc now new_id (i ∷ rest) w = do
  (settled, w') ← settle_bakong_intent_if_paid s at nbc now new_id i w
  if settled then pure (true, w') else settle_first s at nbc now new_id rest w'

-- `settle_pending_movie_bakong_for_buyer`
unfoldable pub settle_pending_movie_bakong_for_buyer :
    SettleSettings
    → Instant
    → (String → Answer)
    → ℕ
    → ℕ
    → ℕ
    → Option ℕ
    → Option String
    → Worker
    → Tx ShopDb (Bool × Worker)
settle_pending_movie_bakong_for_buyer s at nbc now new_id content_id user_id guest_id w =
    if not s.bakong_nbc_settle_enabled
    then pure (false, w)
    else if not (is_some user_id) && not (is_some (truthy guest_id))
    then pure (false, w)
    else if bakong_checks_blocked at.mono at.unix at.shared w.circuit
    then pure (false, w)
    else do
      intents ← gets (λ t.
          take 2
            (sort_by newer_intent (select (pending_movie user_id guest_id content_id) t.intents)))
      settle_first s at nbc now new_id intents w

pub Answered-cases :
    (r : Result (Bool × Worker))
    → ((e : HttpError) × (r ≡ err e))
      ⊎ ((w : Worker) × (r ≡ ok (true, w)))
      ⊎ ((w : Worker) × (r ≡ ok (false, w)))
Answered-cases (err e) = inl (e, refl)
Answered-cases (ok (true, w)) = inr (inl (w, refl))
Answered-cases (ok (false, w)) = inr (inr (w, refl))

pending_not_succeeded :
    (user_id : Option ℕ) (guest_id : Option String) (content_id : ℕ) (i : PaymentIntent)
    → pending_movie user_id guest_id content_id i ≡ true
    → is_succeeded i.status ≡ false
pending_not_succeeded user_id guest_id content_id i e = ground arith

module _ (s : SettleSettings) (at : Instant) (nbc : String → Answer) (now new_id : ℕ) where
  pub settled_one :
      (i : PaymentIntent) (w w' : Worker) (c : Conn ShopDb)
      → is_succeeded i.status ≡ false
      → (settle_bakong_intent_if_paid s at nbc now new_id i w c).0 ≡ ok (true, w')
      → PaidText at nbc i w
  settled_one i w w' c fresh e = elim (settle_evidence s at nbc now new_id i w w' true c fresh e) [
    | inl (_, method, status, evidence) ↦ evidence
    | inr (other, same) ↦ absurd (ground arith)
  ]

  -- An intent that the loop settles is one of those it was given, and was paid.
  settle_first-evidence :
      (intents : List PaymentIntent) (w w' : Worker) (c : Conn ShopDb)
      → ((i : PaymentIntent) → In i intents → is_succeeded i.status ≡ false)
      → (settle_first s at nbc now new_id intents w c).0 ≡ ok (true, w')
      → (i : PaymentIntent) × (w'' : Worker) × In i intents × PaidText at nbc i w''
  unfolding settle_first
  settle_first-evidence [] w w' c fresh e = absurd (ground arith)
  settle_first-evidence (i ∷ rest) w w' c fresh e =
      let one = settle_bakong_intent_if_paid s at nbc now new_id i w c in
      elim (Answered-cases one.0) [
        | inl (x, failed) ↦ absurd (ground arith)
        | inr (inl (w1, settled)) ↦
            (i, w, inl refl, settled_one i w w1 c (fresh i (inl refl)) settled)
        | inr (inr (w1, open_still)) ↦
            let (x, w'', member, evidence) =
              settle_first-evidence rest w1 w' one.1 (λ x member. fresh x (inr member))
                (ground arith) in
            (x, w'', inr member, evidence)
      ]

  -- Where a playback request settles an intent, it is a stored, pending Bakong intent of this buyer
  -- for this movie, and there is evidence that one of its texts was paid.
  pub playback-evidence :
      (content_id : ℕ) (user_id : Option ℕ) (guest_id : Option String) (w w' : Worker)
      (c : Conn ShopDb)
      → (settle_pending_movie_bakong_for_buyer s at nbc now new_id content_id user_id guest_id w
          c).0
        ≡ ok (true, w')
      → (i : PaymentIntent) × (w'' : Worker) × In i c.current.intents
        × (pending_movie user_id guest_id content_id i ≡ true)
        × PaidText at nbc i w''
  unfolding settle_pending_movie_bakong_for_buyer
  playback-evidence content_id user_id guest_id w w' c e =
      let mine = pending_movie user_id guest_id content_id in
      let rows = select mine c.current.intents in
      let is_mine = λ (i : PaymentIntent) (member : In i (take 2 (sort_by newer_intent rows))).
        (In-select mine i c.current.intents).0
          ((In-sort_by newer_intent i rows).0 (In-take 2 i (sort_by newer_intent rows) member)) in
      let (i, w'', member, evidence) =
        settle_first-evidence (take 2 (sort_by newer_intent rows)) w w' c
          (λ i member. pending_not_succeeded user_id guest_id content_id i (is_mine i member).1)
          (ground arith) in
      (i, w'', (is_mine i member).0, (is_mine i member).1, evidence)
