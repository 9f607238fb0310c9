-- ===== src/Accounts/Flows/Link.antt =====
-- `completeLink` and `completeReauth` of account-connection.service.ts.
use clutch.Prelude.{
  ℕ, String, Bool, true, false, not, ◌&&◌, Option, none, some, ◌==◌, string_eq, if◌then◌else◌,
}
use clutch.Prelude.Text.{is_empty}
use clutch.Database.Table.{Table}
use clutch.Accounts.Types.{
  Platform, steam, ConnectionType, social_login, connected_account, AccountStatus, connected,
  needs_reauth, DataSource, Account, conflicts, platform_eq,
}
use clutch.Accounts.Repository.{find_by_user_provider}
use clutch.Accounts.Service.{Reason, invalid_request, identity_conflict, not_connected}
use clutch.Accounts.Connect.{
  ConnectInput, ConnectError, owned_by, Connected, done, failed, find_by_provider_external_id,
  connect_external_identity,
}
use clutch.Accounts.Flows.State.{link, reauth, ConnectionPayload}
use clutch.Providers.Types.{Failure, refused, Result, ok, err}
use clutch.Providers.Registry.{get_provider_definition}
use clutch.Providers.Names.{
  is_steam, normalize_platform, normalize_oauth_provider, normalize_steam_open_id_provider,
}
use clutch.Social.Types.{Identity}
use clutch.Accounts.Flows.Service.{
  ConnectionOutside, ConnectionDraws, ConnectionCallback, ConnectionResult, ConnectionWorld, answer,
  is_myanimelist, definition_source, complete_oauth_callback, complete_steam_open_id_callback,
}

module _ (Accounts : Table conflicts) (outside : ConnectionOutside) (draws : ConnectionDraws)
    (now : ℕ) where
  open outside use {env, codec, authorization_url, steam_url}

  abbrev World : Type 0
  World = ConnectionWorld Accounts

  abbrev pub Reply : Type 0 → Type 0
  Reply A = World × Result Reason A

  abbrev pub refuse : {A : Type 0} → World → ℕ → Reason → Platform → Reply A
  refuse w status reason provider = answer Accounts w (refused status reason (some provider))

  -- A link by Steam, which gives no tokens.
  abbrev pub steam_input : String → String → DataSource → ConnectInput
  steam_input user_id external_id source = record {
    user_id = user_id;
    provider = steam;
    external_id = external_id;
    connection_type = connected_account;
    data_source = source;
    status = some connected;
    access_token = none;
    refresh_token = none;
    last_sync_at = none;
  }

  abbrev pub link_type : Platform → ConnectionType
  link_type provider = if is_myanimelist provider then connected_account else social_login

  abbrev pub oauth_input : String → Platform → ConnectionType → DataSource → Identity → ConnectInput
  oauth_input user_id provider kind source identity = record {
    user_id = user_id;
    provider = provider;
    external_id = identity.external_id;
    connection_type = kind;
    data_source = source;
    status = some connected;
    access_token = some identity.access_token;
    refresh_token = identity.refresh_token;
    last_sync_at = some now;
  }

  abbrev pub link_error : Platform → ConnectError → Failure Reason
  link_error provider (owned_by owner) = refused 409 identity_conflict (some provider)
  link_error provider _ = Failure.thrown

  abbrev pub result_of : ConnectInput → ConnectionResult
  result_of input = record {
    provider = input.provider;
    external_id = input.external_id;
    connection_type = input.connection_type;
  }

  abbrev pub linked_reply :
      (ConnectError → Failure Reason)
      → ConnectInput
      → World
      → Accounts.T × Connected
      → Reply ConnectionResult
  linked_reply on_error input w (accounts, failed e) =
      answer Accounts (record w { accounts = accounts }) (on_error e)
  linked_reply on_error input w (accounts, done) =
      (record w { accounts = accounts }, ok (result_of input))

  -- Whether the account is another user's.
  abbrev pub is_foreign : String → Option Account → Bool
  is_foreign user_id none = false
  is_foreign user_id (some a) = not (a.user_id == user_id)

  -- Whether the account is of another identity.
  abbrev pub is_other : String → Option Account → Bool
  is_other external_id none = false
  is_other external_id (some a) = not (a.external_id == external_id)

  unfoldable pub link_identity : ConnectInput → World → Reply ConnectionResult
  link_identity input w =
      if is_foreign input.user_id
        (find_by_provider_external_id Accounts input.provider input.external_id w.accounts)
      then refuse w 409 identity_conflict input.provider
      else if is_other input.external_id
          (find_by_user_provider Accounts input.user_id input.provider w.accounts)
      then refuse w 409 identity_conflict input.provider
      else linked_reply (link_error input.provider) input w
          (connect_external_identity Accounts draws.connecting input w.accounts)

  -- The account's data source is that of the provider's definition, whose absence is an error.
  abbrev pub link_with :
      (DataSource → ConnectInput) → World → Option DataSource → Reply ConnectionResult
  link_with input w none = answer Accounts w Failure.thrown
  link_with input w (some source) = link_identity (input source) w

  abbrev pub link_steam :
      World × Result Reason (String × ConnectionPayload) → Reply ConnectionResult
  link_steam (w, err e) = answer Accounts w e
  link_steam (w, ok (steam_id, payload)) =
      link_with (steam_input payload.user_id steam_id) w
        (definition_source (get_provider_definition env.registry steam))

  abbrev pub link_oauth :
      Platform → World × Result Reason (Identity × ConnectionPayload) → Reply ConnectionResult
  link_oauth provider (w, err e) = answer Accounts w e
  link_oauth provider (w, ok (identity, payload)) =
      link_with
        (λ source. oauth_input payload.user_id provider (link_type provider) source identity) w
        (definition_source (get_provider_definition env.registry provider))

  abbrev pub complete_steam_for :
      ConnectionCallback → World → Result Reason Platform → Reply ConnectionResult
  complete_steam_for input w (err e) = answer Accounts w e
  complete_steam_for input w (ok provider) =
      link_steam (complete_steam_open_id_callback Accounts outside draws now input w)

  abbrev pub complete_oauth_for :
      ConnectionCallback → World → Result Reason Platform → Reply ConnectionResult
  complete_oauth_for input w (err e) = answer Accounts w e
  complete_oauth_for input w (ok provider) =
      link_oauth provider (complete_oauth_callback Accounts outside draws now provider link input w)

  abbrev pub complete_link_for :
      ConnectionCallback → World → Result Reason Platform → Reply ConnectionResult
  complete_link_for input w (err e) = answer Accounts w e
  complete_link_for input w (ok platform) =
      if is_steam platform
      then complete_steam_for input w (normalize_steam_open_id_provider env.registry input.provider)
      else complete_oauth_for input w (normalize_oauth_provider env.registry input.provider)

  unfoldable pub complete_link : ConnectionCallback → World → Reply ConnectionResult
  complete_link input w = complete_link_for input w (normalize_platform env.registry input.provider)

  abbrev pub is_needs_reauth : AccountStatus → Bool
  is_needs_reauth needs_reauth = true
  is_needs_reauth _ = false

  -- The end of `completeReauth`, on the account that the user has with the provider.
  unfoldable pub reauth_account :
      Platform → Identity → ConnectionPayload → World → Option Account → Reply ConnectionResult
  reauth_account provider identity payload w none = refuse w 404 not_connected provider
  reauth_account provider identity payload w (some account) =
      if not (account.external_id == identity.external_id)
      then refuse w 409 identity_conflict provider
      else if not (is_needs_reauth account.status)
      then refuse w 400 invalid_request provider
      else let input =
          oauth_input payload.user_id provider account.connection_type account.data_source
            identity in
        linked_reply (λ e. Failure.thrown) input w
          (connect_external_identity Accounts draws.connecting input w.accounts)

  -- The expected identity must be there and be the one returned.
  abbrev pub is_expected : Identity → Option String → Bool
  is_expected identity none = false
  is_expected identity (some expected) = not (is_empty expected) && identity.external_id == expected

  abbrev pub reauth_proved :
      Platform → World × Result Reason (Identity × ConnectionPayload) → Reply ConnectionResult
  reauth_proved provider (w, err e) = answer Accounts w e
  reauth_proved provider (w, ok (identity, payload)) =
      if is_expected identity payload.expected_external_id
      then reauth_account provider identity payload w
          (find_by_user_provider Accounts payload.user_id provider w.accounts)
      else refuse w 409 identity_conflict provider

  abbrev pub complete_reauth_for :
      ConnectionCallback → World → Result Reason Platform → Reply ConnectionResult
  complete_reauth_for input w (err e) = answer Accounts w e
  complete_reauth_for input w (ok provider) =
      reauth_proved provider
        (complete_oauth_callback Accounts outside draws now provider reauth input w)

  unfoldable pub complete_reauth : ConnectionCallback → World → Reply ConnectionResult
  complete_reauth input w =
      complete_reauth_for input w (normalize_oauth_provider env.registry input.provider)
