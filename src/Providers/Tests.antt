-- ===== src/Providers/Tests.antt =====
-- The theorems of Providers at a concrete name.
use clutch.Prelude.{◌≡◌, ◌↔◌, true, none, some}
use clutch.Accounts.Types.{steam, myanimelist}
use clutch.Providers.Types.{ok}
use clutch.Providers.Registry.{Environment}
use clutch.Providers.Names.{
  normalize_social_auth_provider, normalize_oauth_provider, normalize_steam_open_id_provider,
}
use clutch.Providers.Laws.{Names, is_login_provider, is_oauth_ready, provider_accepted}

abbrev env : Environment
env = record {
  myanimelist_client_id = some "id";
  myanimelist_client_secret = some "secret";
  myanimelist_account_link_redirect_uri = none;
  myanimelist_redirect_uri = some "https://clutch";
}

provider_accepted_example :
    ((normalize_social_auth_provider env " MyAnimeList" ≡ ok myanimelist)
      ↔ (Names " MyAnimeList" myanimelist × (is_login_provider myanimelist ≡ true)))
    × ((normalize_oauth_provider env " MyAnimeList" ≡ ok myanimelist)
        ↔ (Names " MyAnimeList" myanimelist × (is_oauth_ready env myanimelist ≡ true)))
    × ((normalize_steam_open_id_provider env " MyAnimeList" ≡ ok myanimelist)
        ↔ (Names " MyAnimeList" myanimelist × (myanimelist ≡ steam)))
provider_accepted_example = provider_accepted env " MyAnimeList" myanimelist
