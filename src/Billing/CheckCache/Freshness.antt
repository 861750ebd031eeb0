-- ===== src/Billing/CheckCache/Freshness.antt =====
-- How long a remembered answer of Bakong is given out.
use movie_api.Shared.{
  ℕ, ◌+◌, ◌≡◌, ◌≢◌, String, none, some, arith, ltb, if◌then◌else◌, eq_iff, eq_refl,
}
use movie_api.Shared.Dict.{lookup, put, keep, lookup-put, lookup-remove}
use movie_api.Billing.CheckCache.{
  Md5Status, CheckCache, set_cached_md5_status, get_cached_md5_status, ttl_for_status,
}

-- An answer remembered for a nonempty md5 is given out for the time to live of its status, and no longer; where the
-- time is up the entry is dropped, so that Bakong is asked again.
pub get-set_md5 :
    (now later : ℕ) (md5 : String) (status : Md5Status) (c : CheckCache)
    → md5 ≢ ""
    → let c' = set_cached_md5_status now md5 status none c in
      let (hit, after) = get_cached_md5_status later md5 c' in
      (hit ≡ (if ltb later (now + ttl_for_status status) then some status else none))
      × (lookup md5 after.md5_cache ≡ (
          if ltb later (now + ttl_for_status status)
          then some (status, now + ttl_for_status status)
          else none))
unfolding get_cached_md5_status set_cached_md5_status
get-set_md5 now later md5 status c named =
    let kept = keep (λ (e : Md5Status × ℕ). ltb now e.1) c.md5_cache in
    let entry = lookup-put md5 md5 (status, now + ttl_for_status status) kept in
    let gone = lookup-remove md5 md5 (put md5 (status, now + ttl_for_status status) kept) in
    ground (arith, eq_iff md5 "", eq_refl md5)
