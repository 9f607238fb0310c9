-- ===== src/Accounts/Flows/State.antt =====
-- The signed state of a connection: `resolveStateSecret` to `verifyStateValue` of
-- account-connection.service.ts.
use clutch.Prelude.{
  ℕ, ◌-◌, String, Bool, true, false, not, ◌||◌, Option, none, some, ◌==◌, nat_eq, string_eq, ltb,
  if◌then◌else◌,
}
use clutch.Prelude.Text.{is_empty}
use clutch.Prelude.Environment.{otherwise, trimmed, secret_or_default}
use clutch.Accounts.Types.{Platform, google, steam, discord, myanimelist, platform_eq}
use clutch.Accounts.Service.{Reason, invalid_state, provider_unavailable}
use clutch.OAuth.Signed.{
  Opened, malformed, no_secret, bad_signature, genuine, open_state, signed_state,
}
use clutch.Providers.Types.{refused, Result, ok, err}
use clutch.Providers.Registry as Registry

-- `AccountConnectionMode`
pub data Mode : Type 0 where
  link reauth : Mode

abbrev pub same_mode : Mode → Mode → Bool
same_mode link link = true
same_mode reauth reauth = true
same_mode _ _ = false

pub record ConnectionPayload : Type 0 where
  pub mode : Mode
  pub provider : Platform
  pub user_id : String
  pub expected_external_id : Option String
  pub nonce : String
  pub issued_at : ℕ

-- The fields of a parsed payload: `none` where a field is absent or of another type.
pub record ConnectionFields : Type 0 where
  pub purpose : Option String
  pub mode : Option String
  pub provider : Option String
  pub user_id : Option String
  pub expected_external_id : Option String
  pub nonce : Option String
  pub issued_at : Option ℕ

-- HMAC-SHA256 in base64url, a payload as JSON in base64url, and what parsing gives, `none` where it
-- throws.
pub record ConnectionCodec : Type 0 where
  pub hmac : String → String → String
  pub encode_json : ConnectionPayload → String
  pub parse_json : String → Option ConnectionFields

-- The variables of the environment, by their lower-case names.
pub record ConnectionEnvironment : Type 0 where
  pub account_connection_state_secret : Option String
  pub social_oauth_state_secret : Option String
  pub jwt_secret : Option String
  pub is_production : Bool
  pub registry : Registry.Environment

-- Ten minutes.
abbrev pub account_connection_state_ttl_ms : ℕ
account_connection_state_ttl_ms = 600000

unfoldable pub resolve_connection_secret : ConnectionEnvironment → Option String
resolve_connection_secret env =
    secret_or_default env.is_production "clutch-account-connection-dev-secret" (
      otherwise (trimmed env.account_connection_state_secret)
        (otherwise (trimmed env.social_oauth_state_secret) (trimmed env.jwt_secret)))

abbrev pub mode_field : Option String → Option Mode
mode_field none = none
mode_field (some s) = if s == "link" then some link else if s == "reauth" then some reauth else none

-- `isBrowserAccountConnectionProvider`
abbrev pub browser_provider : Option String → Option Platform
browser_provider none = none
browser_provider (some s) =
    if s == "GOOGLE"
    then some google
    else if s == "DISCORD"
    then some discord
    else if s == "MYANIMELIST"
    then some myanimelist
    else if s == "STEAM"
    then some steam
    else none

abbrev pub for_connection : Option String → Bool
for_connection none = false
for_connection (some s) = s == "account_connection"

abbrev pub decoded_connection :
    Bool
    → Option String
    → Option Mode
    → Option Platform
    → Option String
    → Option String
    → Option ℕ
    → Option ConnectionPayload
decoded_connection true expected (some mode) (some provider) (some user_id) (some nonce)
      (some issued_at) =
    if is_empty user_id || is_empty nonce
    then none
    else some (record {
      mode = mode;
      provider = provider;
      user_id = user_id;
      expected_external_id = expected;
      nonce = nonce;
      issued_at = issued_at;
    })
decoded_connection _ _ _ _ _ _ _ = none

abbrev pub decode_connection_fields : Option ConnectionFields → Option ConnectionPayload
decode_connection_fields none = none
decode_connection_fields (some f) =
    decoded_connection (for_connection f.purpose) f.expected_external_id (mode_field f.mode)
      (browser_provider f.provider) f.user_id f.nonce f.issued_at

abbrev pub invalid_connection : Option Platform → Result Reason ConnectionPayload
invalid_connection provider = err (refused 400 invalid_state provider)

abbrev pub check_connection :
    ℕ → Platform → Mode → Option ConnectionPayload → Result Reason ConnectionPayload
check_connection now provider mode none = invalid_connection none
check_connection now provider mode (some payload) =
    if not (payload.provider == provider)
      || (not (same_mode payload.mode mode)
          || ltb account_connection_state_ttl_ms (now - payload.issued_at))
    then invalid_connection (some provider)
    else ok payload

abbrev pub check_opened_connection :
    ConnectionCodec → ℕ → Platform → Mode → Opened → Result Reason ConnectionPayload
check_opened_connection codec now provider mode malformed = invalid_connection (some provider)
check_opened_connection codec now provider mode no_secret =
    err (refused 503 provider_unavailable none)
check_opened_connection codec now provider mode bad_signature = invalid_connection (some provider)
check_opened_connection codec now provider mode (genuine encoded) =
    check_connection now provider mode (decode_connection_fields (codec.parse_json encoded))

unfoldable pub verify_connection_state :
    ConnectionEnvironment
    → ConnectionCodec
    → ℕ
    → String
    → Platform
    → Mode
    → Result Reason ConnectionPayload
verify_connection_state env codec now state provider mode =
    check_opened_connection codec now provider mode
      (open_state codec.hmac (resolve_connection_secret env) state)

abbrev pub signed_connection :
    ConnectionCodec → ConnectionPayload → Option String → Result Reason String
signed_connection codec payload none = err (refused 503 provider_unavailable none)
signed_connection codec payload (some secret) =
    ok (signed_state codec.hmac secret (codec.encode_json payload))

unfoldable pub create_connection_state :
    ConnectionEnvironment → ConnectionCodec → ConnectionPayload → Result Reason String
create_connection_state env codec payload =
    signed_connection codec payload (resolve_connection_secret env)
