-- ===== src/Tokens.antt =====
-- app/core/security.py: the signed tokens. PyJWT is not part of the repository, so signing and
-- reading a token is the parameter `Jwt`.
pub mod Scopes
use movie_api.Shared.{
  ℕ, ◌+◌, ◌/◌, String, ◌≡◌, Bool, false, not, ◌||◌, Option, none, some, ltb, str_eq, opt_eq,
  if◌then◌else◌, Result, ok, err, fixed, unauthorized, forbidden, seconds, minutes,
}
use movie_api.Models.{Settings}

-- The claim `ver` of a payload: left out, an integer, or something else.
pub data Version : Type 0 where
  absent : Version
  number : ℕ → Version
  malformed : Version

-- A payload, as `payload.get` reads it: `none` for a key that is missing or no UUID.
pub record Payload : Type 0 where
  pub sub : Option ℕ
  pub role : Option String
  pub sid : Option ℕ
  pub ver : Version
  pub scope : Option String
  pub exp : ℕ

-- PyJWT with the service's key: `encode` signs, and writes `exp` in whole seconds; `decode` reads
-- a token whose signature holds; `decode_at` also wants `exp` to lie in the future.
pub record Jwt : Type 1 where
  pub Token : Type 0
  pub encode : Payload → Token
  pub decode : Token → Option Payload
  pub decode_at : ℕ → Token → Option Payload
  pub decode-encode :
      (p : Payload) → decode (encode p) ≡ some (record p { exp = seconds (p.exp / 1000000) })
  pub decode_at_lem :
      (now : ℕ) (t : Token) (p : Payload)
      → decode t ≡ some p
      → decode_at now t ≡ (if ltb now p.exp then some p else none)

module _ (j : Jwt) where
  -- `create_access_token`
  unfoldable pub create_access_token : Settings → ℕ → ℕ → String → ℕ → ℕ → j.Token
  create_access_token s now user_id role session_id version = j.encode (record {
    sub = some user_id;
    role = some role;
    sid = some session_id;
    ver = number version;
    scope = none;
    exp = now + minutes s.access_token_expire_minutes;
  })

  -- `decode_access_token`
  unfoldable pub decode_access_token : ℕ → j.Token → Result Payload
  decode_access_token now t = elim (j.decode_at now t) [
    | none ↦ err (unauthorized (fixed "Could not validate credentials"))
    | some p ↦ ok p
  ]

  -- `decode_expired_access_token`
  unfoldable pub decode_expired_access_token : j.Token → Result Payload
  decode_expired_access_token t = elim (j.decode t) [
    | none ↦ err (unauthorized (fixed "Could not validate credentials"))
    | some p ↦ ok p
  ]

  unfoldable pub scoped : String → ℕ → ℕ → ℕ → j.Token
  scoped scope now sub expires_in = j.encode (record {
    sub = some sub;
    role = none;
    sid = none;
    ver = absent;
    scope = some scope;
    exp = now + seconds expires_in;
  })

  -- `create_playback_token`
  unfoldable pub create_playback_token : ℕ → ℕ → ℕ → j.Token
  unfolding scoped
  create_playback_token = scoped "playback"

  -- `create_channel_playback_token`
  unfoldable pub create_channel_playback_token : ℕ → ℕ → ℕ → j.Token
  unfolding scoped
  create_channel_playback_token = scoped "tv_playback"

-- `payload.get("scope") == scope`
unfoldable pub has_scope : Option String → String → Bool
has_scope none scope = false
has_scope (some s) scope = str_eq s scope

-- The checks of a decoded payload, whose error names what the token was to open.
unfoldable pub check_scope : String → ℕ → String → Option Payload → Result (Unit {0})
unfolding has_scope
check_scope scope id detail none = err (unauthorized (fixed "Invalid or expired playback token"))
check_scope scope id detail (some p) =
    if not (has_scope p.scope scope) || not (opt_eq p.sub id)
    then err (forbidden (fixed detail))
    else ok tt

module _ (j : Jwt) where
  -- `verify_playback_token`
  unfoldable pub verify_playback_token : ℕ → j.Token → ℕ → Result (Unit {0})
  unfolding check_scope
  verify_playback_token now t content_id =
      check_scope "playback" content_id "Playback token does not grant access to this content"
        (j.decode_at now t)

  -- `verify_channel_playback_token`
  unfoldable pub verify_channel_playback_token : ℕ → j.Token → ℕ → Result (Unit {0})
  unfolding check_scope
  verify_channel_playback_token now t channel_id =
      check_scope "tv_playback" channel_id "Playback token does not grant access to this channel"
        (j.decode_at now t)
