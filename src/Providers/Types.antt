-- ===== src/Providers/Types.antt =====
-- The types of providers/provider-registry.ts, and the errors that the services on top of it throw.
use clutch.Prelude.{ℕ, String, Bool, true, false, ◌||◌, Option, List, [], ◌∷◌, ◌==◌, nat_eq}
use clutch.Accounts.Types.{Platform, AccountStatus, DataSource}

pub data ProviderCapability : Type 0 where
  social_login connected_account oauth_connect openid_connect token_connect library_import
        presence_ingestion :
      ProviderCapability

pub record ProviderDefinition : Type 0 where
  pub provider : Platform
  pub display_name : String
  pub data_source : DataSource
  pub status : AccountStatus
  pub capabilities : List ProviderCapability
  pub visible_in_connection_center : Bool

abbrev pub rank : ProviderCapability → ℕ
rank social_login = 0
rank connected_account = 1
rank oauth_connect = 2
rank openid_connect = 3
rank token_connect = 4
rank library_import = 5
rank presence_ingestion = 6

-- `capabilities.includes`
abbrev pub includes : List ProviderCapability → ProviderCapability → Bool
includes [] c = false
includes (d ∷ ds) c = rank d == rank c || includes ds c

-- An error of the service's own class, with its status, its reason and the provider, or another error.
pub data Failure (R : Type 0) : Type 0 where
  refused : (status_code : ℕ) → R → Option Platform → Failure R
  thrown : Failure R

pub data Result {ℓ} (R : Type 0) (A : Type ℓ) : Type ℓ where
  ok : A → Result R A
  err : Failure R → Result R A

abbrev pub then_do {ℓ κ} :
    {R : Type 0} {A : Type ℓ} {B : Type κ} → Result R A → (A → Result R B) → Result R B
then_do (ok a) f = f a
then_do (err e) f = err e

abbrev pub is_ok {ℓ} : {R : Type 0} {A : Type ℓ} → Result R A → Bool
is_ok (ok a) = true
is_ok (err e) = false
