-- ===== src/Billing/CheckCache.antt =====
-- app/billing/bakong_check_cache.py: what a worker remembers of its checks at Bakong. Each handler
-- holds the module's lock, and reads the monotonic clock once: its argument `now`, in microseconds.
pub mod Budget
pub mod Freshness
use movie_api.Shared.{
  ℕ, ◌+◌, String, Bool, true, false, not, ◌||◌, Option, none, some, List, [], ◌∷◌, ltb, leb, max,
  if◌then◌else◌, str_eq, seconds, length,
}
use movie_api.Shared.Dict.{Dict, lookup, put, remove, keep, drop}

-- `STATUS_PAID`, `STATUS_UNPAID`, `STATUS_UNKNOWN`
pub data Md5Status : Type 0 where
  paid unpaid unknown : Md5Status

abbrev pub unpaid_ttl_seconds : ℕ
unpaid_ttl_seconds = seconds 8

abbrev pub rate_limit_ttl_seconds : ℕ
rate_limit_ttl_seconds = seconds 120

abbrev pub paid_ttl_seconds : ℕ
paid_ttl_seconds = seconds 60

abbrev pub intent_poll_ttl_seconds : ℕ
intent_poll_ttl_seconds = seconds 12

abbrev pub max_nbc_checks_per_intent : ℕ
max_nbc_checks_per_intent = 40

abbrev pub intent_nbc_check_window_seconds : ℕ
intent_nbc_check_window_seconds = seconds 3600

-- The module's three dicts; an entry of `nbc_checks` is a count and the start of its window.
pub record CheckCache : Type 0 where
  pub md5_cache : Dict (Md5Status × ℕ)
  pub polled_at : Dict ℕ
  pub nbc_checks : Dict (ℕ × ℕ)

-- `_prune`
unfoldable pub prune : ℕ → CheckCache → CheckCache
prune now c = record c {
  md5_cache = keep (λ (e : Md5Status × ℕ). ltb now e.1) c.md5_cache;
  polled_at = keep (λ (exp : ℕ). ltb now exp) c.polled_at;
}

-- `ttl_for_check`
unfoldable pub ttl_for_check : Bool → Bool → ℕ
ttl_for_check true rate_limited = paid_ttl_seconds
ttl_for_check false true = rate_limit_ttl_seconds
ttl_for_check false false = unpaid_ttl_seconds

-- `ttl_for_status`
unfoldable pub ttl_for_status : Md5Status → ℕ
ttl_for_status paid = paid_ttl_seconds
ttl_for_status unknown = rate_limit_ttl_seconds
ttl_for_status unpaid = unpaid_ttl_seconds

-- `get_cached_md5_status`
unfoldable pub get_cached_md5_status : ℕ → String → CheckCache → Option Md5Status × CheckCache
get_cached_md5_status now md5 c =
    if str_eq md5 "" then (none, c) else elim (lookup md5 c.md5_cache) [
      | none ↦ (none, c)
      | some (status, exp) ↦
          if leb exp now
          then (none, record c { md5_cache = remove md5 c.md5_cache })
          else (some status, c)
    ]

abbrev is_paid : Md5Status → Bool
is_paid paid = true
is_paid _ = false

-- `get_cached_md5_paid`
unfoldable pub get_cached_md5_paid : ℕ → String → CheckCache → Option Bool × CheckCache
unfolding get_cached_md5_status
get_cached_md5_paid now md5 c =
    let (hit, c') = get_cached_md5_status now md5 c in
    (elim hit [ none ↦ none | some status ↦ some (is_paid status) ], c')

-- `set_cached_md5_status`; no `ttl` takes that of the status
unfoldable pub set_cached_md5_status : ℕ → String → Md5Status → Option ℕ → CheckCache → CheckCache
unfolding prune ttl_for_status
set_cached_md5_status now md5 status ttl c =
    if str_eq md5 ""
    then c
    else let lasting : ℕ = elim ttl [ none ↦ ttl_for_status status | some n ↦ n ] in
      let p : CheckCache = prune now c in
      record p { md5_cache = put md5 (status, now + lasting) p.md5_cache }

-- `set_cached_md5_paid`
unfoldable pub set_cached_md5_paid : ℕ → String → Bool → Option ℕ → CheckCache → CheckCache
unfolding set_cached_md5_status
set_cached_md5_paid now md5 is_settled ttl c =
    let status = if is_settled then paid else unpaid in
    let lasting : ℕ = elim ttl [
      | none ↦ if is_settled then paid_ttl_seconds else unpaid_ttl_seconds
      | some n ↦ n
    ] in
    set_cached_md5_status now md5 status (some lasting) c

-- `mark_intent_polled`
unfoldable pub mark_intent_polled : ℕ → String → CheckCache → CheckCache
unfolding prune
mark_intent_polled now intent_id c =
    if str_eq intent_id ""
    then c
    else let p : CheckCache = prune now c in
      record p { polled_at = put intent_id (now + intent_poll_ttl_seconds) p.polled_at }

-- `was_intent_recently_polled`
unfoldable pub was_intent_recently_polled : ℕ → String → CheckCache → Bool × CheckCache
was_intent_recently_polled now intent_id c =
    if str_eq intent_id "" then (false, c) else elim (lookup intent_id c.polled_at) [
      | none ↦ (false, c)
      | some exp ↦
          if leb exp now
          then (false, record c { polled_at = remove intent_id c.polled_at })
          else (true, c)
    ]

-- `intent_nbc_check_count`
unfoldable pub intent_nbc_check_count : ℕ → String → CheckCache → ℕ × CheckCache
intent_nbc_check_count now intent_id c =
    if str_eq intent_id "" then (0, c) else elim (lookup intent_id c.nbc_checks) [
      | none ↦ (0, c)
      | some (used, started) ↦
          if leb (started + intent_nbc_check_window_seconds) now
          then (0, record c { nbc_checks = remove intent_id c.nbc_checks })
          else (used, c)
    ]

-- The soft prune of `consume_intent_nbc_check`: the 500 oldest keys, above 2000.
abbrev pub soft_prune : Dict (ℕ × ℕ) → Dict (ℕ × ℕ)
soft_prune d = if ltb 2000 (length d) then drop 500 d else d

-- The entry that one more check leaves, or none over the cap.
unfoldable pub next_entry : ℕ → ℕ → Option (ℕ × ℕ) → Option (ℕ × ℕ)
next_entry now limit none = some (1, now)
next_entry now limit (some (used, started)) =
    if leb (started + intent_nbc_check_window_seconds) now
    then some (1, now)
    else if ltb limit (used + 1)
    then none
    else some (used + 1, started)

-- `consume_intent_nbc_check`
unfoldable pub consume_intent_nbc_check : ℕ → String → ℕ → CheckCache → Bool × CheckCache
unfolding next_entry
consume_intent_nbc_check now intent_id max_checks c =
    if str_eq intent_id ""
    then (true, c)
    else elim (next_entry now (max 1 max_checks) (lookup intent_id c.nbc_checks)) [
      | none ↦ (false, c)
      | some entry ↦ (true, record c { nbc_checks = soft_prune (put intent_id entry c.nbc_checks) })
    ]

-- `reset_intent_nbc_checks`
unfoldable pub reset_intent_nbc_checks : Option String → CheckCache → CheckCache
reset_intent_nbc_checks none c = record c { nbc_checks = [] }
reset_intent_nbc_checks (some intent_id) c =
    if str_eq intent_id ""
    then record c { nbc_checks = [] }
    else record c { nbc_checks = remove intent_id c.nbc_checks }
