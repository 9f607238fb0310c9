-- ===== src/Accounts/Flows/Start.antt =====
-- `startLink` and `startReauth` of account-connection.service.ts.
use clutch.Prelude.{ℕ, String, not, Option, none, some, if◌then◌else◌}
use clutch.Database.Table.{Table}
use clutch.Accounts.Types.{Platform, Account, conflicts}
use clutch.Accounts.Repository.{find_by_user_provider}
use clutch.Accounts.Service.{Reason, invalid_request, not_connected}
use clutch.Accounts.Flows.State.{
  Mode, link, reauth, ConnectionPayload, account_connection_state_ttl_ms, create_connection_state,
}
use clutch.Accounts.Flows.Service.{
  ConnectionOutside, ConnectionDraws, ConnectionWorld, answer, is_myanimelist, present,
}
use clutch.Accounts.Flows.Link.{is_needs_reauth}
use clutch.OAuth.StateStore as StateStore
use clutch.OAuth.PkceStore as PkceStore
use clutch.Providers.Types.{refused, Result, ok, err}
use clutch.Providers.Names.{
  is_steam, platform_name, normalize_platform, normalize_oauth_provider,
  normalize_steam_open_id_provider,
}

module _ (Accounts : Table conflicts) (outside : ConnectionOutside) (draws : ConnectionDraws)
    (now : ℕ) where
  open outside use {env, codec, authorization_url, steam_url}

  abbrev World : Type 0
  World = ConnectionWorld Accounts

  -- `createMyAnimeListCodeVerifier`, for MyAnimeList only.
  abbrev pub code_verifier : Platform → Option String
  code_verifier provider = if is_myanimelist provider then some draws.verifier else none

  abbrev pub store_verifier : String → Option String → PkceStore.Verifiers → PkceStore.Verifiers
  store_verifier state none verifiers = verifiers
  store_verifier state (some v) verifiers =
      PkceStore.store now state v account_connection_state_ttl_ms verifiers

  -- The stores are written once the address is there; the answer is the address.
  abbrev pub stored_flow :
      String → Option String → World → Result Reason String → World × Result Reason String
  stored_flow state verifier w (err e) = answer Accounts w e
  stored_flow state verifier w (ok url) = (
    record w {
      states = StateStore.store now state account_connection_state_ttl_ms w.states;
      verifiers = store_verifier state (present verifier) w.verifiers;
    },
    ok url,
  )

  abbrev pub flow_payload : String → Platform → Mode → Option String → ConnectionPayload
  flow_payload user_id provider mode expected = record {
    mode = mode;
    provider = provider;
    user_id = user_id;
    expected_external_id = expected;
    nonce = draws.nonce;
    issued_at = now;
  }

  abbrev pub signed_flow :
      Platform → Mode → World → Result Reason String → World × Result Reason String
  signed_flow provider mode w (err e) = answer Accounts w e
  signed_flow provider mode w (ok state) =
      stored_flow state (code_verifier provider) w
        (authorization_url provider mode state draws.nonce (code_verifier provider))

  abbrev pub oauth_flow_for :
      String → Mode → Option String → World → Result Reason Platform → World × Result Reason String
  oauth_flow_for user_id mode expected w (err e) = answer Accounts w e
  oauth_flow_for user_id mode expected w (ok provider) =
      signed_flow provider mode w
        (create_connection_state env codec (flow_payload user_id provider mode expected))

  unfoldable pub start_oauth_flow :
      String → String → Mode → Option String → World → World × Result Reason String
  start_oauth_flow user_id name mode expected w =
      oauth_flow_for user_id mode expected w (normalize_oauth_provider env.registry name)

  abbrev pub signed_steam : World → Result Reason String → World × Result Reason String
  signed_steam w (err e) = answer Accounts w e
  signed_steam w (ok state) = stored_flow state none w (steam_url state)

  abbrev pub steam_flow_for : String → World → Result Reason Platform → World × Result Reason String
  steam_flow_for user_id w (err e) = answer Accounts w e
  steam_flow_for user_id w (ok provider) =
      signed_steam w (create_connection_state env codec (flow_payload user_id provider link none))

  unfoldable pub start_steam_open_id_flow : String → String → World → World × Result Reason String
  start_steam_open_id_flow user_id name w =
      steam_flow_for user_id w (normalize_steam_open_id_provider env.registry name)

  abbrev pub start_link_for :
      String → String → World → Result Reason Platform → World × Result Reason String
  start_link_for user_id name w (err e) = answer Accounts w e
  start_link_for user_id name w (ok platform) =
      if is_steam platform
      then start_steam_open_id_flow user_id name w
      else start_oauth_flow user_id name link none w

  unfoldable pub start_link : String → String → World → World × Result Reason String
  start_link user_id name w = start_link_for user_id name w (normalize_platform env.registry name)

  abbrev pub reauth_found :
      String → Platform → World → Option Account → World × Result Reason String
  reauth_found user_id provider w none =
      answer Accounts w (refused 404 not_connected (some provider))
  reauth_found user_id provider w (some account) =
      if not (is_needs_reauth Accounts outside draws now account.status)
      then answer Accounts w (refused 400 invalid_request (some provider))
      else start_oauth_flow user_id (platform_name provider) reauth (some account.external_id) w

  abbrev pub start_reauth_for :
      String → World → Result Reason Platform → World × Result Reason String
  start_reauth_for user_id w (err e) = answer Accounts w e
  start_reauth_for user_id w (ok provider) =
      reauth_found user_id provider w (find_by_user_provider Accounts user_id provider w.accounts)

  unfoldable pub start_reauth : String → String → World → World × Result Reason String
  start_reauth user_id name w =
      start_reauth_for user_id w (normalize_oauth_provider env.registry name)
