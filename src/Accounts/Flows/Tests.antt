-- ===== src/Accounts/Flows/Tests.antt =====
-- Runs of linking and reconnecting over a table held in memory, and their theorems at concrete inputs.
use clutch.Prelude.{
  ◌≡◌, ◌==◌, string_eq, refl, String, true, false, none, some, [], ◌∷◌, if◌then◌else◌,
}
use clutch.Prelude.Text.{trim, trim_end, trim_start}
use clutch.Prelude.Map
use clutch.Prelude.Chars.{starts_with, push, split}
use clutch.Database.Memory.{memory, create_row, upsert_at, upsert_row, update_rows}
use clutch.Accounts.Types.{
  steam, discord, social_login, connected_account, needs_reauth, official, Account, conflicts,
}
use clutch.Accounts.Tokens.{Cipher, resolve_token_protection_secret, protect_sensitive_token}
use clutch.Accounts.Repository.{find_by_user_provider}
use clutch.Accounts.Service.{identity_conflict}
use clutch.Accounts.Connect.{
  find_by_provider_external_id, upsert_connected_account, stored, try_upsert, connect_unowned,
  connect_found, connect_external_identity,
}
use clutch.Accounts.Flows.State.{
  ConnectionCodec, resolve_connection_secret, verify_connection_state, create_connection_state,
}
use clutch.Accounts.Flows.Service.{
  ConnectionOutside, ConnectionDraws, ConnectionCallback, ConnectionResult, ConnectionWorld,
  answers, complete_oauth_callback, complete_steam_open_id_callback,
}
use clutch.Accounts.Flows.Link.{link_identity, complete_link, reauth_account, complete_reauth}
use clutch.Accounts.Flows.Start.{
  start_oauth_flow, start_steam_open_id_flow, start_link, start_reauth,
}
use clutch.Accounts.Flows.Outcome.{IsLinked, complete_link_ok}
use clutch.Accounts.Flows.Reauth.{IsReconnected, complete_reauth_ok}
use clutch.OAuth.StateStore as StateStore
use clutch.OAuth.Signed.{open_segments, open_state, signed_state}
use clutch.Providers.Registry.{
  is_myanimelist_oauth_configured, resolve_provider_definition, list_provider_definitions,
  get_provider_definition,
}
use clutch.Providers.Types.{ok, err, refused}
use clutch.Providers.Names.{
  known_provider, normalize_platform, normalize_oauth_provider, normalize_steam_open_id_provider,
}
use clutch.Session.Service.{hashes_match}

service : Unit {0}
unfolding trim trim_end trim_start Map.set Map.prune Map.get Map.delete starts_with push split
    create_row upsert_at upsert_row update_rows resolve_token_protection_secret
    protect_sensitive_token find_by_user_provider find_by_provider_external_id
    upsert_connected_account stored try_upsert connect_unowned connect_found
    connect_external_identity resolve_connection_secret verify_connection_state
    create_connection_state complete_oauth_callback complete_steam_open_id_callback link_identity
    complete_link reauth_account complete_reauth start_oauth_flow start_steam_open_id_flow
    start_link start_reauth StateStore.prune_expired_states StateStore.store StateStore.take_state
    StateStore.consume open_segments open_state signed_state is_myanimelist_oauth_configured
    resolve_provider_definition list_provider_definitions get_provider_definition known_provider
    normalize_platform normalize_oauth_provider normalize_steam_open_id_provider hashes_match
service = tt

-- A codec whose parser knows the two payloads of these runs.
abbrev codec : ConnectionCodec
codec = record {
  hmac = λ secret text. "signature";
  encode_json = λ p. "steam";
  parse_json = λ text. some (record {
    purpose = some "account_connection";
    mode = some (if text == "steam" then "link" else "reauth");
    provider = some (if text == "steam" then "STEAM" else "DISCORD");
    user_id = some "u1";
    expected_external_id = some "d-1";
    nonce = some "n1";
    issued_at = some 1000;
  });
}

abbrev outside : ConnectionOutside
outside = record {
  env = record {
    account_connection_state_secret = some "key";
    social_oauth_state_secret = none;
    jwt_secret = none;
    is_production = true;
    registry = record {
      myanimelist_client_id = none;
      myanimelist_client_secret = none;
      myanimelist_account_link_redirect_uri = none;
      myanimelist_redirect_uri = none;
    };
  };
  codec = codec;
  authorization_url = λ p mode state nonce v. ok "https://accounts";
  steam_url = λ state. ok "https://steam";
  exchange = λ p mode code v. answers (record {
    provider = discord;
    external_id = "d-1";
    email = none;
    email_verified = false;
    display_name = none;
    username = none;
    avatar_url = none;
    access_token = "token";
    refresh_token = none;
  });
  verify_steam = λ params state. answers "s-1";
}

abbrev cipher : Cipher
cipher = record {
  encrypt = λ secret iv token. record { iv = "iv"; auth_tag = "tag"; ciphertext = "text" };
  decrypt = λ secret parts. some "token";
}

abbrev draws : ConnectionDraws
draws = record {
  nonce = "n1";
  verifier = "v1";
  connecting = record {
    env = record {
      connected_account_token_secret = some "secret";
      jwt_secret = none;
      is_production = true;
    };
    cipher = cipher;
    access_iv = "iv1";
    refresh_iv = "iv2";
    is_p2002 = false;
  };
}

abbrev broken : Account
broken = record {
  user_id = "u1";
  provider = discord;
  external_id = "d-1";
  connection_type = social_login;
  status = needs_reauth;
  data_source = official;
  public_profile_visible = true;
  is_active = false;
  access_token = none;
  refresh_token = none;
  last_sync_at = none;
}

abbrev before : ConnectionWorld (memory conflicts)
before = record {
  accounts = broken ∷ [];
  states = ("steam.signature", 601000) ∷ ("discord.signature", 601000) ∷ [];
  verifiers = [];
}

abbrev callback : String → String → ConnectionCallback
callback name state = record {
  provider = name;
  code = some "c";
  state = some state;
  provider_error = none;
  open_id_params = [];
}

abbrev steam_result : ConnectionResult
steam_result = record { provider = steam; external_id = "s-1"; connection_type = connected_account }

abbrev discord_result : ConnectionResult
discord_result = record { provider = discord; external_id = "d-1"; connection_type = social_login }

-- The owner of the Steam identity is another user.
abbrev taken : ConnectionWorld (memory conflicts)
taken = record before {
  accounts = record broken { user_id = "u2"; provider = steam; external_id = "s-1" } ∷ [];
}

runs :
    ((start_link
        (memory conflicts)
        outside
        draws
        1000
        "u1"
        "Steam"
        (record before { states = [] })).1
      ≡ ok "https://steam")
    × ((start_reauth (memory conflicts) outside draws 1000 "u1" "discord" before).1
        ≡ ok "https://accounts")
    × ((complete_link
          (memory conflicts)
          outside
          draws
          2000
          (callback "steam" "steam.signature")
          taken).1
        ≡ err (refused 409 identity_conflict (some steam)))
unfolding service
runs = (refl, refl, refl)

complete_link_ok_example :
    let w' =
      complete_link
        (memory conflicts)
        outside
        draws
        2000
        (callback "steam" "steam.signature")
        before in
    IsLinked
      (memory conflicts)
      outside
      draws
      2000
      (callback "steam" "steam.signature")
      before
      w'.0
      steam_result
unfolding service
complete_link_ok_example =
    complete_link_ok (memory conflicts) outside draws 2000 (callback "steam" "steam.signature")
      before steam_result refl

complete_reauth_ok_example :
    let w' =
      complete_reauth
        (memory conflicts)
        outside
        draws
        2000
        (callback "Discord" "discord.signature")
        before in
    IsReconnected
      (memory conflicts)
      outside
      draws
      2000
      (callback "Discord" "discord.signature")
      before
      w'.0
      discord_result
unfolding service
complete_reauth_ok_example =
    complete_reauth_ok (memory conflicts) outside draws 2000
      (callback "Discord" "discord.signature") before discord_result refl
