-- ===== src/Billing/CheckCache/Budget.antt =====
-- The budget of network checks of one intent.
use movie_api.Shared.{
  ℕ, suc, ◌+◌, ◌-◌, ◌≤◌, ◌<◌, ◌≡◌, ◌≢◌, String, true, false, none, some, List, [], ◌∷◌, arith, ltb,
  min, max, if◌then◌else◌, eq_iff, eq_refl, length, bit, All, Bool-cases, inl, inr,
}
use movie_api.Shared.Dict.{Dict, lookup, put, lookup-put, length-put_old, length-put-le}
use movie_api.Billing.CheckCache.{
  CheckCache, consume_intent_nbc_check, intent_nbc_check_window_seconds,
}

-- How many of the checks asked for at these instants are granted.
abbrev pub granted : String → ℕ → List ℕ → CheckCache → ℕ
granted intent_id m [] c = 0
granted intent_id m (now ∷ later) c =
    let (yes_now, c') = consume_intent_nbc_check now intent_id m c in
    bit yes_now + granted intent_id m later c'

module _ (intent_id : String) (named : intent_id ≢ "") (m : ℕ) where
  -- Inside the window an entry below the cap counts up, and one at the cap refuses.
  consume_running :
      (now used started : ℕ) (c : CheckCache)
      → lookup intent_id c.nbc_checks ≡ some (used, started)
      → now < started + intent_nbc_check_window_seconds
      → length c.nbc_checks ≤ 2000
      → consume_intent_nbc_check now intent_id m c ≡ (
          if ltb (max 1 m) (used + 1)
          then (false, c)
          else (true, record c { nbc_checks = put intent_id (used + 1, started) c.nbc_checks }))
  unfolding consume_intent_nbc_check
  consume_running now used started c entry soon small =
      ground (arith, eq_iff intent_id "", length-put_old intent_id (used + 1, started) c.nbc_checks)

  consume_fresh :
      (now : ℕ) (c : CheckCache)
      → lookup intent_id c.nbc_checks ≡ none
      → length c.nbc_checks < 2000
      → consume_intent_nbc_check now intent_id m c
        ≡ (true, record c { nbc_checks = put intent_id (1, now) c.nbc_checks })
  unfolding consume_intent_nbc_check
  consume_fresh now c missing small =
      ground (arith, eq_iff intent_id "", length-put-le intent_id (1, now) c.nbc_checks)

  lookup-put_self : (e : ℕ × ℕ) (d : Dict (ℕ × ℕ)) → lookup intent_id (put intent_id e d) ≡ some e
  lookup-put_self e d = simp (lookup-put, eq_refl)

  granted_running :
      (times : List ℕ) (used started : ℕ) (c : CheckCache)
      → lookup intent_id c.nbc_checks ≡ some (used, started)
      → length c.nbc_checks ≤ 2000
      → All (λ now. now < started + intent_nbc_check_window_seconds) times
      → granted intent_id m times c ≡ min (length times) (max 1 m - used)
  granted_running [] used started c entry small soon = omega arith
  granted_running (now ∷ later) used started c entry small soon =
      elim (Bool-cases (ltb (max 1 m) (used + 1))) [
        | inl over ↦
            let step = consume_running now used started c entry soon.0 small in
            rw (step, over)
              (ground (arith, granted_running later used started c entry small soon.1))
        | inr below ↦
            let step = consume_running now used started c entry soon.0 small in
            let c' : CheckCache = record c {
              nbc_checks = put intent_id (used + 1, started) c.nbc_checks;
            } in
            rw (step, below)
              (ground (
                arith,
                granted_running later (used + 1) started c'
                    (lookup-put_self (used + 1, started) c.nbc_checks)
                    (ground (arith, length-put_old intent_id (used + 1, started) c.nbc_checks))
                    soon.1,
              ))
      ]

-- Of the checks that a named intent without an entry asks for within one window, in a dict that has
-- room, the first is granted and then as many as the cap allows, and not one more.
pub granted_in_window :
    (intent_id : String) (m start : ℕ) (times : List ℕ) (c : CheckCache)
    → intent_id ≢ ""
    → lookup intent_id c.nbc_checks ≡ none
    → length c.nbc_checks < 2000
    → All (λ now. now < start + intent_nbc_check_window_seconds) times
    → granted intent_id m (start ∷ times) c ≡ min (suc (length times)) (max 1 m)
granted_in_window intent_id m start times c named missing small soon =
    let c' : CheckCache = record c { nbc_checks = put intent_id (1, start) c.nbc_checks } in
    rw (consume_fresh intent_id named m start c missing small) (
      ground (
        arith,
        granted_running intent_id named m times 1 start c'
            (lookup-put_self intent_id named m (1, start) c.nbc_checks)
            (omega (arith, length-put-le intent_id (1, start) c.nbc_checks)) soon,
      ))
