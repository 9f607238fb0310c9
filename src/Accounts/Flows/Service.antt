-- ===== src/Accounts/Flows/Service.antt =====
-- `startLink`, `completeLink`, `startReauth` and `completeReauth` of account-connection.service.ts. Each
-- call reads one clock value.
use clutch.Prelude.{
  ℕ, String, Bool, true, false, not, Option, none, some, List, ◌==◌, string_eq, is_some,
  if◌then◌else◌,
}
use clutch.Prelude.Text.{is_empty}
use clutch.Database.Table.{Table}
use clutch.Accounts.Types.{
  Platform, steam, myanimelist, ConnectionType, DataSource, conflicts, platform_eq,
}
use clutch.Accounts.Service.{Reason, invalid_request, invalid_state, provider_unavailable}
use clutch.Accounts.Connect.{ConnectContext}
use clutch.Accounts.Flows.State.{
  Mode, link, ConnectionPayload, ConnectionCodec, ConnectionEnvironment, verify_connection_state,
}
use clutch.OAuth.StateStore as StateStore
use clutch.OAuth.PkceStore as PkceStore
use clutch.Providers.Types.{ProviderDefinition, Failure, refused, Result, ok, err}
use clutch.Social.Types.{Identity}

-- What asking a provider comes to: an answer, an `IntegrationError` with its status and whether its
-- reason is `invalid_request`, an `AccountConnectionError`, or another error.
pub data Asked (A : Type 0) : Type 0 where
  answers : A → Asked A
  integration_error : (status_code : ℕ) → (is_invalid_request : Bool) → Asked A
  own_error : Failure Reason → Asked A
  other_error : Asked A

-- What the service takes from outside: the environment, HMAC and JSON, the addresses to send a browser to
-- (with the redirect addresses of the environment), and the providers' answers for a code, with a
-- verifier, and for the parameters of an OpenID callback.
pub record ConnectionOutside : Type 0 where
  pub env : ConnectionEnvironment
  pub codec : ConnectionCodec
  pub authorization_url : Platform → Mode → String → String → Option String → Result Reason String
  pub steam_url : String → Result Reason String
  pub exchange : Platform → Mode → String → Option String → Asked Identity
  pub verify_steam : List (String × String) → String → Asked String

-- What one call draws: a nonce, a PKCE verifier, and what connecting takes.
pub record ConnectionDraws : Type 0 where
  pub nonce : String
  pub verifier : String
  pub connecting : ConnectContext

pub record ConnectionCallback : Type 0 where
  pub provider : String
  pub code : Option String
  pub state : Option String
  pub provider_error : Option String
  pub open_id_params : List (String × String)

-- The provider and the external id of `AccountConnectionCallbackResult`, and the connection's type.
pub record ConnectionResult : Type 0 where
  pub provider : Platform
  pub external_id : String
  pub connection_type : ConnectionType

abbrev pub present : Option String → Option String
present none = none
present (some s) = if is_empty s then none else some s

unfoldable pub map_connection_failure : {A : Type 0} → Platform → Asked A → Failure Reason
map_connection_failure provider (own_error e) = e
map_connection_failure provider (integration_error status true) =
    refused status invalid_request (some provider)
map_connection_failure provider (integration_error status false) =
    refused status provider_unavailable (some provider)
map_connection_failure provider _ = refused 503 provider_unavailable (some provider)

abbrev pub is_myanimelist : Platform → Bool
is_myanimelist myanimelist = true
is_myanimelist _ = false

abbrev pub definition_source : Option ProviderDefinition → Option DataSource
definition_source none = none
definition_source (some d) = some d.data_source

module _ (Accounts : Table conflicts) where
  pub record ConnectionWorld : Type 0 where
    pub accounts : Accounts.T
    pub states : StateStore.States
    pub verifiers : PkceStore.Verifiers

  abbrev pub answer {ℓ} :
      {A : Type ℓ} → ConnectionWorld → Failure Reason → ConnectionWorld × Result Reason A
  answer w e = (w, err e)

  module _ (outside : ConnectionOutside) (draws : ConnectionDraws) (now : ℕ) where
    open outside use {env, codec, authorization_url, steam_url, exchange, verify_steam}

    -- What a callback that has passed says: the provider's identity, and the payload of its state.
    abbrev pub Proved : Type 0 → Type 0
    Proved A = ConnectionWorld × Result Reason (A × ConnectionPayload)

    abbrev pub asked_identity :
        Platform → ConnectionPayload → ConnectionWorld → Asked Identity → Proved Identity
    asked_identity provider payload w (answers identity) =
        if not (identity.provider == provider)
        then answer w (refused 400 invalid_request (some provider))
        else (w, ok (identity, payload))
    asked_identity provider payload w failure = answer w (map_connection_failure provider failure)

    -- The PKCE verifier, which only MyAnimeList has.
    abbrev pub with_verifier :
        Platform
        → Mode
        → String
        → ConnectionPayload
        → ConnectionWorld
        → PkceStore.Verifiers × Option String
        → Proved Identity
    with_verifier provider mode code payload w (verifiers, v) =
        if is_some (present v)
        then asked_identity provider payload (record w { verifiers = verifiers })
            (exchange provider mode code v)
        else answer (record w { verifiers = verifiers }) (refused 400 invalid_state (some provider))

    abbrev pub spent :
        Platform
        → Mode
        → String
        → String
        → ConnectionPayload
        → ConnectionWorld
        → StateStore.States × Bool
        → Proved Identity
    spent provider mode code state payload w (states, false) =
        answer (record w { states = states }) (refused 400 invalid_state (some provider))
    spent provider mode code state payload w (states, true) =
        let w1 = record w { states = states } in
        if is_myanimelist provider
        then with_verifier provider mode code payload w1 (PkceStore.consume now state w.verifiers)
        else asked_identity provider payload w1 (exchange provider mode code none)

    abbrev pub checked_state :
        Platform
        → Mode
        → String
        → String
        → ConnectionWorld
        → Result Reason ConnectionPayload
        → Proved Identity
    checked_state provider mode code state w (err e) = answer w e
    checked_state provider mode code state w (ok payload) =
        spent provider mode code state payload w (StateStore.consume now state w.states)

    abbrev pub with_code_and_state :
        Platform → Mode → Option String → Option String → ConnectionWorld → Proved Identity
    with_code_and_state provider mode (some code) (some state) w =
        checked_state provider mode code state w
          (verify_connection_state env codec now state provider mode)
    with_code_and_state provider mode _ _ w = answer w (refused 400 invalid_request (some provider))

    unfoldable pub complete_oauth_callback :
        Platform → Mode → ConnectionCallback → ConnectionWorld → Proved Identity
    complete_oauth_callback provider mode input w =
        if is_some (present input.provider_error)
        then answer w (refused 400 invalid_request (some provider))
        else with_code_and_state provider mode (present input.code) (present input.state) w

    abbrev pub asked_steam : ConnectionPayload → ConnectionWorld → Asked String → Proved String
    asked_steam payload w (answers steam_id) = (w, ok (steam_id, payload))
    asked_steam payload w failure = answer w (map_connection_failure steam failure)

    abbrev pub spent_steam :
        List (String × String)
        → String
        → ConnectionPayload
        → ConnectionWorld
        → StateStore.States × Bool
        → Proved String
    spent_steam params state payload w (states, false) =
        answer (record w { states = states }) (refused 400 invalid_state (some steam))
    spent_steam params state payload w (states, true) =
        asked_steam payload (record w { states = states }) (verify_steam params state)

    abbrev pub checked_steam_state :
        List (String × String)
        → String
        → ConnectionWorld
        → Result Reason ConnectionPayload
        → Proved String
    checked_steam_state params state w (err e) = answer w e
    checked_steam_state params state w (ok payload) =
        spent_steam params state payload w (StateStore.consume now state w.states)

    abbrev pub with_steam_state :
        List (String × String) → Option String → ConnectionWorld → Proved String
    with_steam_state params none w = answer w (refused 400 invalid_request (some steam))
    with_steam_state params (some state) w =
        checked_steam_state params state w (verify_connection_state env codec now state steam link)

    unfoldable pub complete_steam_open_id_callback :
        ConnectionCallback → ConnectionWorld → Proved String
    complete_steam_open_id_callback input w =
        if is_some (present input.provider_error)
        then answer w (refused 400 invalid_request (some steam))
        else with_steam_state input.open_id_params (present input.state) w
