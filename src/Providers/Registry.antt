-- ===== src/Providers/Registry.antt =====
-- providers/provider-registry.ts, and `isMyAnimeListOAuthConfigured` of
-- infra/integrations/myanimelist/myanimelist-oauth.client.ts.
use clutch.Prelude.{
  String, Bool, true, false, not, ◌&&◌, Option, none, some, List, [], ◌∷◌, map, find, ◌==◌,
  if◌then◌else◌,
}
use clutch.Prelude.Text.{trim, is_empty}
use clutch.Prelude.Environment.{otherwise}
use clutch.Accounts.Types.{
  Platform, google, steam, epic, discord, xbox, psn, riot, anilist, myanimelist, platform_eq,
  AccountStatus, connected, unavailable, experimental, DataSource, official, experimental_data,
}
use clutch.Providers.Types.{
  ProviderCapability, social_login, connected_account, oauth_connect, openid_connect, token_connect,
  library_import, presence_ingestion, ProviderDefinition,
}

-- The variables of the environment, by their lower-case names.
pub record Environment : Type 0 where
  pub myanimelist_client_id : Option String
  pub myanimelist_client_secret : Option String
  pub myanimelist_account_link_redirect_uri : Option String
  pub myanimelist_redirect_uri : Option String

-- A text that is there and not empty once it is trimmed.
abbrev pub is_given : Option String → Bool
is_given none = false
is_given (some s) = not (is_empty (trim s))

unfoldable pub is_myanimelist_oauth_configured : Environment → Bool
is_myanimelist_oauth_configured env =
    is_given env.myanimelist_client_id
    && is_given env.myanimelist_client_secret
    && is_given (otherwise env.myanimelist_account_link_redirect_uri env.myanimelist_redirect_uri)

-- A definition that the connection center shows, and one that says nothing of it.
abbrev pub shown :
    Platform → String → DataSource → AccountStatus → List ProviderCapability → ProviderDefinition
shown provider name source status capabilities = record {
  provider = provider;
  display_name = name;
  data_source = source;
  status = status;
  capabilities = capabilities;
  visible_in_connection_center = true;
}

abbrev pub planned : Platform → String → ProviderDefinition
planned provider name = record {
  provider = provider;
  display_name = name;
  data_source = official;
  status = unavailable;
  capabilities = connected_account ∷ oauth_connect ∷ [];
  visible_in_connection_center = false;
}

abbrev pub provider_definitions : List ProviderDefinition
provider_definitions =
    shown google "Google" official connected (social_login ∷ oauth_connect ∷ [])
    ∷ shown discord "Discord" official connected
        (social_login ∷ connected_account ∷ oauth_connect ∷ presence_ingestion ∷ [])
    ∷ shown steam "Steam" official connected
        (connected_account ∷ openid_connect ∷ library_import ∷ [])
    ∷ shown epic "Epic Games" experimental_data experimental
        (connected_account ∷ token_connect ∷ library_import ∷ [])
    ∷ shown myanimelist "MyAnimeList" official unavailable (connected_account ∷ [])
    ∷ planned anilist "AniList"
    ∷ planned xbox "Xbox"
    ∷ planned psn "PlayStation Network"
    ∷ planned riot "Riot Games"
    ∷ []

-- The switch is whether OAuth is configured for MyAnimeList.
unfoldable pub resolve_provider_definition : Bool → ProviderDefinition → ProviderDefinition
resolve_provider_definition configured definition =
    if not (definition.provider == myanimelist)
    then definition
    else if not configured
    then definition
    else record definition {
      status = connected;
      capabilities = connected_account ∷ oauth_connect ∷ [];
    }

unfoldable pub list_provider_definitions : Environment → List ProviderDefinition
unfolding resolve_provider_definition is_myanimelist_oauth_configured
list_provider_definitions env =
    map (resolve_provider_definition (is_myanimelist_oauth_configured env)) provider_definitions

-- `none` is an error.
unfoldable pub get_provider_definition : Environment → Platform → Option ProviderDefinition
unfolding resolve_provider_definition is_myanimelist_oauth_configured
get_provider_definition env provider =
    elim (find (λ (d : ProviderDefinition). d.provider == provider) provider_definitions) [
      | none ↦ none
      | some definition ↦
          some (resolve_provider_definition (is_myanimelist_oauth_configured env) definition)
    ]
