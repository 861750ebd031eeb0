-- ===== src/Tokens/Scopes.antt =====
-- What a playback token opens: one title or one channel, until its whole second of expiry.
use movie_api.Shared.{
  ℕ, ◌+◌, ◌/◌, ◌<◌, ◌≡◌, ◌↔◌, ◌≢◌, not, ◌||◌, ◌==◌, Bool-cases, inl, inr, ok, err, fixed,
  unauthorized, forbidden, if◌then◌else◌, String, refl, true, false, ==_iff, none, some, arith, ltb,
  str_eq, opt_eq, ok, seconds,
}
use movie_api.Tokens.{
  absent, Jwt, scoped, has_scope, check_scope, create_playback_token, create_channel_playback_token,
  verify_playback_token, verify_channel_playback_token,
}

scopes_differ :
    (str_eq "playback" "tv_playback" ≡ false) × (str_eq "tv_playback" "playback" ≡ false)
scopes_differ = (refl, refl)

opt_eq_iff : (a b : ℕ) → (opt_eq (some a) b ≡ true) ↔ (a ≡ b)
opt_eq_iff a b = ==_iff a b

module _ (j : Jwt) where
  -- What a verification reads of a token of one scope: the payload, if the whole second is not over.
  read_scoped :
      (scope : String) (now sub expires_in later : ℕ)
      → j.decode_at later (scoped j scope now sub expires_in) ≡ (
          if ltb later (seconds ((now + seconds expires_in) / 1000000))
          then some (record {
            sub = some sub;
            role = none;
            sid = none;
            ver = absent;
            scope = some scope;
            exp = seconds ((now + seconds expires_in) / 1000000);
          })
          else none)
  unfolding scoped
  read_scoped scope now sub expires_in later = j.decode_at_lem later _ _ (j.decode-encode _)

  -- What a verification that wants one scope answers on a token of another, or the same.
  scoped_checked :
      (scope want detail : String) (now sub expires_in later id : ℕ)
      → check_scope want id detail (j.decode_at later (scoped j scope now sub expires_in)) ≡ (
          if ltb later (seconds ((now + seconds expires_in) / 1000000))
          then if not (str_eq scope want) || not (sub == id)
            then err (forbidden (fixed detail))
            else ok tt
          else err (unauthorized (fixed "Invalid or expired playback token")))
  unfolding check_scope has_scope
  scoped_checked scope want detail now sub expires_in later id =
      rw (read_scoped scope now sub expires_in later)
        elim (Bool-cases (ltb later (seconds ((now + seconds expires_in) / 1000000)))) [
          | inl early ↦ rw early refl
          | inr over ↦ rw over refl
        ]

  -- A playback token opens its title, and no other, until the whole second in which it expires.
  pub playback-title :
      (now later content_id expires_in other_id : ℕ)
      → (verify_playback_token j later (create_playback_token j now content_id expires_in) other_id
          ≡ ok tt)
        ↔ ((content_id ≡ other_id) × (later < seconds ((now + seconds expires_in) / 1000000)))
  unfolding verify_playback_token create_playback_token
  playback-title now later content_id expires_in other_id =
      let checked =
        scoped_checked "playback" "playback" "Playback token does not grant access to this content"
          now content_id expires_in later other_id in
      (
        λ e. (ground (arith, checked, ==_iff content_id other_id), ground (arith, checked)),
        λ (same, early). ground (arith, checked, ==_iff content_id other_id),
      )

  -- A token for a title opens no channel, and a token for a channel no title, whatever their keys.
  pub scopes_apart :
      (now later id expires_in other_id : ℕ)
      → (verify_channel_playback_token j later (create_playback_token j now id expires_in) other_id
          ≢ ok tt)
        × (verify_playback_token j later
              (create_channel_playback_token j now id expires_in)
              other_id
            ≢ ok tt)
  unfolding verify_playback_token verify_channel_playback_token create_playback_token
      create_channel_playback_token
  scopes_apart now later id expires_in other_id = (
    λ e. ground (
      arith,
      scoped_checked "playback" "tv_playback" "Playback token does not grant access to this channel"
          now id expires_in later other_id,
      scopes_differ.0,
    ),
    λ e. ground (
      arith,
      scoped_checked "tv_playback" "playback" "Playback token does not grant access to this content"
          now id expires_in later other_id,
      scopes_differ.1,
    ),
  )
