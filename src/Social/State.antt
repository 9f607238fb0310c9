-- ===== src/Social/State.antt =====
-- The state of a login: `resolveStateSecret` to `createSocialOAuthState` of social-auth.service.ts.
use clutch.Prelude.{
  ℕ, ◌-◌, String, Bool, false, not, ◌&&◌, ◌||◌, Option, none, some, ◌==◌, string_eq, ltb,
  if◌then◌else◌,
}
use clutch.Prelude.Text.{is_empty}
use clutch.Prelude.Chars.{codes}
use clutch.Prelude.Environment.{otherwise, trimmed, secret_or_default}
use clutch.Accounts.Types.{Platform, platform_eq}
use clutch.OAuth.Signed.{
  Opened, malformed, no_secret, bad_signature, genuine, open_state, signed_state,
}
use clutch.Providers.Types.{Failure, refused, Result, ok, err}
use clutch.Providers.Names.{SocialReason, invalid_state, provider_unavailable, social_provider_of}
use clutch.Social.Types.{StatePayload, StateFields, StateCodec, Environment}

-- Ten minutes.
abbrev pub social_state_ttl_ms : ℕ
social_state_ttl_ms = 600000

abbrev pub default_development_state_secret : String
default_development_state_secret = "clutch-social-oauth-dev-secret"

-- `none` is the error of a runtime in production without a secret.
unfoldable pub resolve_state_secret : Environment → Option String
resolve_state_secret env =
    secret_or_default env.is_production default_development_state_secret
      (otherwise (trimmed env.social_oauth_state_secret) (trimmed env.jwt_secret))

abbrev pub no_secret_failure : Failure SocialReason
no_secret_failure = refused 503 provider_unavailable none

abbrev pub is_purpose : Option String → String → Bool
is_purpose none t = false
is_purpose (some s) t = s == t

abbrev pub decoded :
    Option String → Option Platform → Option String → Option ℕ → Option StatePayload
decoded purpose (some provider) (some nonce) (some issued_at) =
    if is_purpose purpose "social_login" && not (is_empty nonce)
    then some (record { provider = provider; nonce = nonce; issued_at = issued_at })
    else none
decoded purpose _ _ _ = none

abbrev pub provider_field : Option String → Option Platform
provider_field none = none
provider_field (some s) = social_provider_of (codes s)

abbrev pub decode_fields : Option StateFields → Option StatePayload
decode_fields none = none
decode_fields (some f) = decoded f.purpose (provider_field f.provider) f.nonce f.issued_at

-- `none` is a 400 for an invalid state, of no provider.
unfoldable pub decode_state_payload : StateCodec → String → Option StatePayload
decode_state_payload codec value = decode_fields (codec.parse_json value)

abbrev pub invalid : Option Platform → Result SocialReason StatePayload
invalid provider = err (refused 400 invalid_state provider)

-- The provider and the age of a payload. A clock that has gone back makes no state old.
abbrev pub check_payload : ℕ → Platform → Option StatePayload → Result SocialReason StatePayload
check_payload now provider none = invalid none
check_payload now provider (some payload) =
    if not (payload.provider == provider) || ltb social_state_ttl_ms (now - payload.issued_at)
    then invalid (some provider)
    else ok payload

unfoldable pub check_opened : StateCodec → ℕ → Platform → Opened → Result SocialReason StatePayload
unfolding decode_state_payload
check_opened codec now provider malformed = invalid (some provider)
check_opened codec now provider no_secret = err no_secret_failure
check_opened codec now provider bad_signature = invalid (some provider)
check_opened codec now provider (genuine encoded) =
    check_payload now provider (decode_state_payload codec encoded)

unfoldable pub verify_state_value :
    Environment → StateCodec → ℕ → String → Platform → Result SocialReason StatePayload
unfolding check_opened resolve_state_secret
verify_state_value env codec now state provider =
    check_opened codec now provider (open_state codec.hmac (resolve_state_secret env) state)

-- The payload of a state that is made at a time, with the value of `randomUUID`.
abbrev pub new_payload : ℕ → String → Platform → StatePayload
new_payload now nonce provider = record { provider = provider; nonce = nonce; issued_at = now }

abbrev pub signed_with : StateCodec → StatePayload → Option String → Result SocialReason String
signed_with codec payload none = err no_secret_failure
signed_with codec payload (some secret) =
    ok (signed_state codec.hmac secret (codec.encode_json payload))

unfoldable pub create_social_oauth_state :
    Environment → StateCodec → ℕ → String → Platform → Result SocialReason String
unfolding resolve_state_secret
create_social_oauth_state env codec now nonce provider =
    signed_with codec (new_payload now nonce provider) (resolve_state_secret env)
