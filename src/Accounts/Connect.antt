-- ===== src/Accounts/Connect.antt =====
-- connected-account.service.ts, over `findByProviderExternalId` and `upsertConnectedAccount` of
-- connected-account.repository.ts.
use clutch.Prelude.{
  ℕ, String, Bool, true, false, not, ◌&&◌, Option, none, some, ◌==◌, string_eq, if◌then◌else◌,
}
use clutch.Prelude.Text.{trim, is_empty}
use clutch.Database.Table.{Table}
use clutch.Accounts.Types.{
  Platform, ConnectionType, AccountStatus, connected, DataSource, Account, conflicts, platform_eq,
  is_connected,
}
use clutch.Accounts.Tokens.{Environment, Cipher, protect_sensitive_token}
use clutch.Accounts.Repository.{of_user_provider}

-- An absent `lastSyncAt` is `undefined`: no caller passes `null`.
pub record ConnectInput : Type 0 where
  pub user_id : String
  pub provider : Platform
  pub external_id : String
  pub connection_type : ConnectionType
  pub data_source : DataSource
  pub status : Option AccountStatus
  pub access_token : Option String
  pub refresh_token : Option String
  pub last_sync_at : Option ℕ

-- A `ConnectedAccountConflictError`, a `ConnectedAccountInvalidExternalIdError`, or another error.
pub data ConnectError : Type 0 where
  owned_by : (owner_user_id : String) → ConnectError
  invalid_external_id thrown : ConnectError

pub data Connected : Type 0 where
  done : Connected
  failed : ConnectError → Connected

abbrev pub status_or_connected : Option AccountStatus → AccountStatus
status_or_connected none = connected
status_or_connected (some status) = status

abbrev pub of_identity : Platform → String → Account → Bool
of_identity provider external_id a = a.provider == provider && a.external_id == external_id

-- The row that `upsert` creates. The columns that it leaves to the schema have their defaults.
abbrev pub created_row : ConnectInput → String → Option String → Option String → Account
created_row input external_id access_token refresh_token = record {
  user_id = input.user_id;
  provider = input.provider;
  external_id = external_id;
  connection_type = input.connection_type;
  status = status_or_connected input.status;
  data_source = input.data_source;
  public_profile_visible = false;
  is_active = is_connected (status_or_connected input.status);
  access_token = access_token;
  refresh_token = refresh_token;
  last_sync_at = input.last_sync_at;
}

abbrev pub or_kept {ℓ} : {A : Type ℓ} → Option A → Option A → Option A
or_kept (some a) b = some a
or_kept none b = b

-- The row as `upsert` changes it.
abbrev pub updated_row : ConnectInput → String → Option String → Option String → Account → Account
updated_row input external_id access_token refresh_token a = record a {
  external_id = external_id;
  connection_type = input.connection_type;
  status = status_or_connected input.status;
  data_source = input.data_source;
  is_active = is_connected (status_or_connected input.status);
  access_token = access_token;
  refresh_token = refresh_token;
  last_sync_at = or_kept input.last_sync_at a.last_sync_at;
}

-- What a call takes from outside: the secret and the cipher, the two values of `randomBytes`, and
-- whether an error of the database, if there is one, has the code P2002.
pub record ConnectContext : Type 0 where
  pub env : Environment
  pub cipher : Cipher
  pub access_iv : String
  pub refresh_iv : String
  pub is_p2002 : Bool

module _ (Accounts : Table conflicts) where
  unfoldable pub find_by_provider_external_id : Platform → String → Accounts.T → Option Account
  find_by_provider_external_id provider external_id db =
      Accounts.find_first (of_identity provider external_id) db

  unfoldable pub upsert_connected_account :
      ConnectInput → String → Option String → Option String → Accounts.T → Option Accounts.T
  upsert_connected_account input external_id access_token refresh_token db =
      Accounts.upsert (of_user_provider input.user_id input.provider)
        (created_row input external_id access_token refresh_token)
        (updated_row input external_id access_token refresh_token) db

  -- The error of `upsertConnectedAccount` as the service rethrows it.
  abbrev pub upsert_error : Bool → Option Account → ConnectError
  upsert_error true (some owner) = owned_by owner.user_id
  upsert_error true none = thrown
  upsert_error false owner = thrown

  unfoldable pub stored :
      ConnectContext
      → ConnectInput
      → String
      → Accounts.T
      → Option Accounts.T
      → Accounts.T × Connected
  unfolding find_by_provider_external_id
  stored context input external_id db (some db') = (db', done)
  stored context input external_id db none = (
    db,
    failed (
        upsert_error context.is_p2002 (find_by_provider_external_id input.provider external_id db)),
  )

  -- The `try`: the tokens are protected first.
  unfoldable pub try_upsert :
      ConnectContext
      → ConnectInput
      → String
      → Accounts.T
      → Option (Option String)
      → Option (Option String)
      → Accounts.T × Connected
  unfolding upsert_connected_account stored
  try_upsert context input external_id db (some access_token) (some refresh_token) =
      stored context input external_id db
        (upsert_connected_account input external_id access_token refresh_token db)
  try_upsert context input external_id db (some access_token) none = (db, failed thrown)
  try_upsert context input external_id db none refresh_token = (db, failed thrown)

  unfoldable pub connect_unowned :
      ConnectContext → ConnectInput → String → Accounts.T → Accounts.T × Connected
  unfolding try_upsert
  connect_unowned context input external_id db =
      try_upsert context input external_id db
        (protect_sensitive_token context.env context.cipher context.access_iv input.access_token)
        (protect_sensitive_token context.env context.cipher context.refresh_iv input.refresh_token)

  unfoldable pub connect_found :
      ConnectContext → ConnectInput → String → Accounts.T → Option Account → Accounts.T × Connected
  unfolding connect_unowned
  connect_found context input external_id db none = connect_unowned context input external_id db
  connect_found context input external_id db (some existing) =
      if not (existing.user_id == input.user_id)
      then (db, failed (owned_by existing.user_id))
      else connect_unowned context input external_id db

  unfoldable pub connect_external_identity :
      ConnectContext → ConnectInput → Accounts.T → Accounts.T × Connected
  unfolding connect_found
  connect_external_identity context input db =
      let external_id = trim input.external_id in
      if is_empty external_id
      then (db, failed invalid_external_id)
      else connect_found context input external_id db
          (find_by_provider_external_id input.provider external_id db)
