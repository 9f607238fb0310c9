-- ===== src/Social/Types.antt =====
-- The types of social-auth.service.ts, and the columns of `users` and of their profiles that it writes.
-- A `SocialAuthProvider` is a `Platform` that is Google or Discord.
use clutch.Prelude.{ℕ, String, Bool, ◌||◌, Option, ◌==◌, string_eq}
use clutch.Accounts.Types.{Platform}
use clutch.Providers.Types.{Failure}
use clutch.Providers.Names.{SocialReason}
use clutch.Providers.Registry as Registry

pub record Identity : Type 0 where
  pub provider : Platform
  pub external_id : String
  pub email : Option String
  pub email_verified : Bool
  pub display_name : Option String
  pub username : Option String
  pub avatar_url : Option String
  pub access_token : String
  pub refresh_token : Option String

pub record StatePayload : Type 0 where
  pub provider : Platform
  pub nonce : String
  pub issued_at : ℕ

-- The fields of a parsed payload: `none` where a field is absent or of another type.
pub record StateFields : Type 0 where
  pub purpose : Option String
  pub provider : Option String
  pub nonce : Option String
  pub issued_at : Option ℕ

-- HMAC-SHA256 in base64url and in hexadecimal, of a secret and a text; a payload as JSON in base64url, and
-- what parsing gives, `none` where it throws.
pub record StateCodec : Type 0 where
  pub hmac : String → String → String
  pub hmac_hex : String → String → String
  pub encode_json : StatePayload → String
  pub parse_json : String → Option StateFields

-- The variables of the environment, by their lower-case names.
pub record Environment : Type 0 where
  pub social_oauth_state_secret : Option String
  pub jwt_secret : Option String
  pub is_production : Bool
  pub registry : Registry.Environment

pub record UserRow : Type 0 where
  pub id : String
  pub username : String
  pub email : String
  pub password_hash : String
  pub display_name : String
  pub avatar_url : Option String

-- `@id`, and `@unique` on the user name and the address
abbrev pub user_conflicts : UserRow → UserRow → Bool
user_conflicts a b = a.id == b.id || (a.username == b.username || a.email == b.email)

pub record CallbackInput : Type 0 where
  pub provider : String
  pub code : Option String
  pub state : Option String
  pub provider_error : Option String

pub record CallbackResult : Type 0 where
  pub provider : Platform
  pub user : UserRow
  pub is_new_user : Bool

-- What `exchangeCodeForIdentity` comes to: an identity, an `IntegrationError` with its status and whether
-- its reason is `invalid_request`, a `SocialAuthError`, or another error.
pub data Exchange : Type 0 where
  identified : Identity → Exchange
  integration_error : (status_code : ℕ) → (is_invalid_request : Bool) → Exchange
  social_auth_error : Failure SocialReason → Exchange
  other_error : Exchange
