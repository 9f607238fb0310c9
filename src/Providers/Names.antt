-- ===== src/Providers/Names.antt =====
-- How the names of providers in requests are read: `normalizeSocialAuthProvider` of
-- social-auth.service.ts and the three functions beside `normalizePlatform` of
-- account-connection.service.ts. `toUpperCase` is by the letters that can be in a provider's name.
use clutch.Prelude.{
  ℕ, String, Bool, true, false, not, ◌&&◌, Option, none, some, List, find, if◌then◌else◌,
}
use clutch.Prelude.Text.{trim}
use clutch.Prelude.Chars.{codes, upper_codes}
use clutch.Accounts.Types.{
  Platform, google, steam, epic, discord, xbox, psn, riot, anilist, myanimelist, platform_eq,
  is_unavailable, same_codes,
}
use clutch.Accounts.Service.{Reason}
use clutch.Providers.Types.{
  ProviderCapability, ProviderDefinition, includes, social_login, oauth_connect, openid_connect,
  refused, thrown, Result, ok, err, then_do,
}
use clutch.Providers.Registry.{Environment, list_provider_definitions, get_provider_definition}

abbrev pub platform_name : Platform → String
platform_name google = "GOOGLE"
platform_name steam = "STEAM"
platform_name epic = "EPIC"
platform_name discord = "DISCORD"
platform_name xbox = "XBOX"
platform_name psn = "PSN"
platform_name riot = "RIOT"
platform_name anilist = "ANILIST"
platform_name myanimelist = "MYANIMELIST"

-- `SocialAuthErrorReason`
pub data SocialReason : Type 0 where
  unsupported_provider invalid_request invalid_state provider_unavailable identity_conflict :
      SocialReason

unfoldable pub social_provider_of : List ℕ → Option Platform
social_provider_of text =
    if same_codes text (codes "GOOGLE")
    then some google
    else if same_codes text (codes "DISCORD")
    then some discord
    else none

-- A definition that offers what is asked for.
abbrev pub offers : ProviderCapability → ProviderDefinition → Bool
offers capability definition =
    not (is_unavailable definition.status) && includes definition.capabilities capability

abbrev pub refusal : {R : Type 0} → R → Option Platform → Result R Platform
refusal reason provider = err (refused 400 reason provider)

-- The tests on what `getProviderDefinition` finds, or its error.
abbrev pub offering :
    {R : Type 0}
    → R
    → Bool
    → ProviderCapability
    → Platform
    → Option ProviderDefinition
    → Result R Platform
offering reason test capability provider none = err thrown
offering reason test capability provider (some definition) =
    if test && offers capability definition then ok provider else refusal reason (some provider)

abbrev pub login_for : Environment → Option Platform → Result SocialReason Platform
login_for env none = refusal SocialReason.unsupported_provider none
login_for env (some provider) =
    offering SocialReason.unsupported_provider true social_login provider
      (get_provider_definition env provider)

unfoldable pub normalize_social_auth_provider : Environment → String → Result SocialReason Platform
unfolding social_provider_of
normalize_social_auth_provider env name =
    login_for env (social_provider_of (upper_codes (trim name)))

abbrev pub is_named : List ℕ → ProviderDefinition → Bool
is_named text definition = same_codes (codes (platform_name definition.provider)) text

-- The definition of the name, in capital letters.
unfoldable pub known_provider : Environment → List ℕ → Option ProviderDefinition
known_provider env text = find (is_named text) (list_provider_definitions env)

abbrev pub platform_found : Option ProviderDefinition → Result Reason Platform
platform_found none = refusal Reason.unsupported_provider none
platform_found (some definition) = ok definition.provider

unfoldable pub normalize_platform : Environment → String → Result Reason Platform
unfolding known_provider
normalize_platform env name = platform_found (known_provider env (upper_codes (trim name)))

-- `isAccountConnectionOAuthProvider`
abbrev pub is_account_connection_oauth_provider : Platform → Bool
is_account_connection_oauth_provider google = true
is_account_connection_oauth_provider discord = true
is_account_connection_oauth_provider myanimelist = true
is_account_connection_oauth_provider _ = false

abbrev pub is_steam : Platform → Bool
is_steam steam = true
is_steam _ = false

-- The platform, where it passes the test and its definition offers the capability.
abbrev pub checked_platform :
    Environment → (Platform → Bool) → ProviderCapability → Platform → Result Reason Platform
checked_platform env test capability provider =
    offering Reason.unsupported_provider (test provider) capability provider
      (get_provider_definition env provider)

unfoldable pub normalize_oauth_provider : Environment → String → Result Reason Platform
unfolding normalize_platform
normalize_oauth_provider env name =
    then_do (normalize_platform env name)
      (checked_platform env is_account_connection_oauth_provider oauth_connect)

unfoldable pub normalize_steam_open_id_provider : Environment → String → Result Reason Platform
unfolding normalize_platform
normalize_steam_open_id_provider env name =
    then_do (normalize_platform env name) (checked_platform env is_steam openid_connect)
