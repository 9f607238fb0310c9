-- ===== src/Social/Service.antt =====
-- `createSocialAuthService` of social-auth.service.ts, over userRepository of user.repository.ts, the
-- store of states and the service of connected accounts. Each call reads one clock value.
use clutch.Prelude.{
  ℕ, String, Bool, true, false, not, Option, none, some, ◌==◌, string_eq, is_some, if◌then◌else◌,
}
use clutch.Database.Table.{Table}
use clutch.Accounts.Types.{
  Platform, Account, conflicts, platform_eq, social_login, connected, official,
}
use clutch.Accounts.Repository.{find_by_user_provider}
use clutch.Accounts.Connect.{
  ConnectInput, ConnectContext, ConnectError, owned_by, Connected, done, failed,
  find_by_provider_external_id, connect_external_identity,
}
use clutch.OAuth.StateStore.{States, store, consume}
use clutch.Providers.Types.{Failure, refused, Result, ok, err}
use clutch.Providers.Names.{
  SocialReason, invalid_request, invalid_state, provider_unavailable, identity_conflict,
  normalize_social_auth_provider,
}
use clutch.Social.Types.{
  Identity, StatePayload, StateCodec, Environment, UserRow, user_conflicts, CallbackInput,
  CallbackResult, Exchange, identified, integration_error, social_auth_error,
}
use clutch.Social.State.{social_state_ttl_ms, verify_state_value, create_social_oauth_state}
use clutch.Social.Usernames.{
  given, text_or, normalize_verified_email, build_placeholder_email, build_available_username,
}

-- What the service takes from outside: the environment, HMAC and JSON, the Unicode tables, the providers'
-- clients, and bcrypt. No address for the authorization is an error.
pub record Outside : Type 0 where
  pub env : Environment
  pub codec : StateCodec
  pub nfkd : String → String
  pub to_lower_case : String → String
  pub authorization_url : Platform → String → String → Option String
  pub exchange : Platform → String → Exchange
  pub hash_password : String → String

-- What one call draws: the id that the database gives a user, the two values of `randomUUID` for a
-- password and for a user name, and what connecting takes.
pub record Draws : Type 0 where
  pub user_id : String
  pub password : String
  pub name : String
  pub connecting : ConnectContext

-- The error of a failed exchange.
unfoldable pub map_provider_failure : Platform → Exchange → Failure SocialReason
map_provider_failure provider (social_auth_error e) = e
map_provider_failure provider (integration_error status true) =
    refused status invalid_request (some provider)
map_provider_failure provider (integration_error status false) =
    refused status provider_unavailable (some provider)
map_provider_failure provider _ = refused 503 provider_unavailable (some provider)

module _ (Users : Table user_conflicts) (Accounts : Table conflicts) where
  pub record World : Type 0 where
    pub users : Users.T
    pub accounts : Accounts.T
    pub states : States

  abbrev pub find_by_id : String → Users.T → Option UserRow
  find_by_id id db = Users.find_first (λ u. u.id == id) db

  abbrev pub find_by_email : String → Users.T → Option UserRow
  find_by_email email db = Users.find_first (λ u. u.email == email) db

  abbrev pub find_by_username : String → Users.T → Option UserRow
  find_by_username name db = Users.find_first (λ u. u.username == name) db

  abbrev pub reply {ℓ} : {A : Type ℓ} → World → Failure SocialReason → World × Result SocialReason A
  reply w e = (w, err e)

  module _ (outside : Outside) (draws : Draws) (now : ℕ) where
    open outside use {env, codec, nfkd, to_lower_case, authorization_url, exchange, hash_password}

    abbrev pub new_user : Identity → String → UserRow
    new_user identity name = record {
      id = draws.user_id;
      username = name;
      email =
          text_or (build_placeholder_email identity.provider identity.external_id)
            (normalize_verified_email to_lower_case identity);
      password_hash = hash_password draws.password;
      display_name = text_or name identity.display_name;
      avatar_url = identity.avatar_url;
    }

    abbrev pub inserted_user :
        UserRow → World → Option Users.T → World × Result SocialReason UserRow
    inserted_user row w none = reply w Failure.thrown
    inserted_user row w (some users) = (record w { users = users }, ok row)

    abbrev pub create_named :
        Identity → World → Result SocialReason String → World × Result SocialReason UserRow
    create_named identity w (err e) = reply w e
    create_named identity w (ok name) =
        inserted_user (new_user identity name) w (Users.create (new_user identity name) w.users)

    unfoldable pub create_user : Identity → World → World × Result SocialReason UserRow
    create_user identity w = create_named identity w (
        build_available_username (λ name. is_some (find_by_username name w.users)) env codec nfkd
          identity draws.name)

    -- The address with which an account may be there already.
    abbrev pub email_owner : Identity → Users.T → Option UserRow
    email_owner identity db = elim (given (normalize_verified_email to_lower_case identity)) [
      | none ↦ none
      | some email ↦ find_by_email email db
    ]

    abbrev pub resolve_with :
        Identity → World → Option UserRow → World × Result SocialReason UserRow
    resolve_with identity w none = create_user identity w
    resolve_with identity w (some user) =
        reply w (refused 409 identity_conflict (some identity.provider))

    unfoldable pub resolve_or_create_user : Identity → World → World × Result SocialReason UserRow
    resolve_or_create_user identity w = resolve_with identity w (email_owner identity w.users)

    abbrev pub connect_input : Platform → Identity → UserRow → ConnectInput
    connect_input provider identity user = record {
      user_id = user.id;
      provider = provider;
      external_id = identity.external_id;
      connection_type = social_login;
      data_source = official;
      status = some connected;
      access_token = some identity.access_token;
      refresh_token = identity.refresh_token;
      last_sync_at = some now;
    }

    abbrev pub connect_failure : Platform → ConnectError → Failure SocialReason
    connect_failure provider (owned_by owner) = refused 409 identity_conflict (some provider)
    connect_failure provider _ = Failure.thrown

    abbrev pub connected_reply :
        Platform
        → UserRow
        → World
        → Accounts.T × Connected
        → World × Result SocialReason CallbackResult
    connected_reply provider user w (accounts, failed e) =
        reply (record w { accounts = accounts }) (connect_failure provider e)
    connected_reply provider user w (accounts, done) = (
      record w { accounts = accounts },
      ok (record { provider = provider; user = user; is_new_user = true }),
    )

    abbrev pub is_other_identity : Identity → Option Account → Bool
    is_other_identity identity none = false
    is_other_identity identity (some account) = not (account.external_id == identity.external_id)

    unfoldable pub link_new_user :
        Platform
        → Identity
        → World × Result SocialReason UserRow
        → World × Result SocialReason CallbackResult
    link_new_user provider identity (w, err e) = reply w e
    link_new_user provider identity (w, ok user) =
        if is_other_identity identity (find_by_user_provider Accounts user.id provider w.accounts)
        then reply w (refused 409 identity_conflict (some provider))
        else connected_reply provider user w (
            connect_external_identity Accounts draws.connecting
              (connect_input provider identity user) w.accounts)

    unfoldable pub login_owner :
        Platform → World → Option UserRow → World × Result SocialReason CallbackResult
    login_owner provider w none = reply w (refused 409 identity_conflict (some provider))
    login_owner provider w (some owner) =
        (w, ok (record { provider = provider; user = owner; is_new_user = false }))

    abbrev pub login_or_create :
        Platform → Identity → World → Option Account → World × Result SocialReason CallbackResult
    login_or_create provider identity w (some account) =
        login_owner provider w (find_by_id account.user_id w.users)
    login_or_create provider identity w none =
        link_new_user provider identity (resolve_or_create_user identity w)

    unfoldable pub exchanged :
        Platform → World → Exchange → World × Result SocialReason CallbackResult
    unfolding map_provider_failure
    exchanged provider w (identified identity) =
        if not (identity.provider == provider)
        then reply w (refused 400 invalid_request (some provider))
        else login_or_create provider identity w
            (find_by_provider_external_id Accounts provider identity.external_id w.accounts)
    exchanged provider w failure = reply w (map_provider_failure provider failure)

    abbrev pub consumed :
        Platform → String → World → States × Bool → World × Result SocialReason CallbackResult
    consumed provider code w (states, false) =
        reply (record w { states = states }) (refused 400 invalid_state (some provider))
    consumed provider code w (states, true) =
        exchanged provider (record w { states = states }) (exchange provider code)

    abbrev pub with_payload :
        Platform
        → String
        → String
        → World
        → Result SocialReason StatePayload
        → World × Result SocialReason CallbackResult
    with_payload provider code state w (err e) = reply w e
    with_payload provider code state w (ok payload) =
        consumed provider code w (consume now state w.states)

    unfoldable pub with_code :
        Platform → String → String → World → World × Result SocialReason CallbackResult
    with_code provider code state w =
        with_payload provider code state w (verify_state_value env codec now state provider)

    abbrev pub with_input :
        Platform
        → Option String
        → Option String
        → World
        → World × Result SocialReason CallbackResult
    with_input provider (some code) (some state) w = with_code provider code state w
    with_input provider _ _ w = reply w (refused 400 invalid_request (some provider))

    abbrev pub callback_for :
        CallbackInput
        → World
        → Result SocialReason Platform
        → World × Result SocialReason CallbackResult
    callback_for input w (err e) = reply w e
    callback_for input w (ok provider) =
        if is_some (given input.provider_error)
        then reply w (refused 400 invalid_request (some provider))
        else with_input provider (given input.code) (given input.state) w

    unfoldable pub complete_callback :
        CallbackInput → World → World × Result SocialReason CallbackResult
    complete_callback input w =
        callback_for input w (normalize_social_auth_provider env.registry input.provider)

    abbrev pub stored_for : String → World → Option String → World × Result SocialReason String
    stored_for state w none = reply w Failure.thrown
    stored_for state w (some url) =
        (record w { states = store now state social_state_ttl_ms w.states }, ok url)

    abbrev pub started :
        Platform → String → World → Result SocialReason String → World × Result SocialReason String
    started provider nonce w (err e) = reply w e
    started provider nonce w (ok state) =
        stored_for state w (authorization_url provider state nonce)

    abbrev pub started_for :
        String → World → Result SocialReason Platform → World × Result SocialReason String
    started_for nonce w (err e) = reply w e
    started_for nonce w (ok provider) =
        started provider nonce w (create_social_oauth_state env codec now nonce provider)

    -- `nonce` is the value of `randomUUID`; the answer is the address to go to.
    unfoldable pub start_login : String → String → World → World × Result SocialReason String
    start_login nonce name w =
        started_for nonce w (normalize_social_auth_provider env.registry name)
