-- ===== src/Accounts/Repository.antt =====
-- connected-account.repository.ts: reading, removing and publishing an account. `delete` and `update`
-- address a row by the unique pair of user and platform.
use clutch.Prelude.{String, Bool, ◌&&◌, Option, none, some, List, ◌==◌, string_eq}
use clutch.Database.Table.{Table}
use clutch.Accounts.Types.{Platform, Account, conflicts, platform_eq}

abbrev pub of_user : String → Account → Bool
of_user user_id a = a.user_id == user_id

abbrev pub of_user_provider : String → Platform → Account → Bool
of_user_provider user_id provider a = a.user_id == user_id && a.provider == provider

abbrev pub with_visibility : Bool → Account → Account
with_visibility visible a = record a { public_profile_visible = visible }

module _ (Accounts : Table conflicts) where
  unfoldable pub list_by_user : String → Accounts.T → List Account
  list_by_user user_id db = Accounts.find_many (of_user user_id) db

  unfoldable pub find_by_user_provider : String → Platform → Accounts.T → Option Account
  find_by_user_provider user_id provider db =
      Accounts.find_first (of_user_provider user_id provider) db

  unfoldable pub delete_found :
      String → Platform → Accounts.T → Option Account → Accounts.T × Option Account
  delete_found user_id provider db none = (db, none)
  delete_found user_id provider db (some account) =
      (Accounts.delete_many (of_user_provider user_id provider) db, some account)

  unfoldable pub delete_by_user_provider :
      String → Platform → Accounts.T → Accounts.T × Option Account
  unfolding delete_found
  delete_by_user_provider user_id provider db =
      delete_found user_id provider db (find_by_user_provider user_id provider db)

  unfoldable pub update_found :
      String → Platform → Bool → Accounts.T → Option Account → Accounts.T × Option Account
  update_found user_id provider visible db none = (db, none)
  update_found user_id provider visible db (some account) = (
    Accounts.update_many (of_user_provider user_id provider) (with_visibility visible) db,
    some (with_visibility visible account),
  )

  unfoldable pub update_visibility_row :
      String → Platform → Bool → Accounts.T → Accounts.T × Option Account
  unfolding update_found
  update_visibility_row user_id provider visible db =
      update_found user_id provider visible db (find_by_user_provider user_id provider db)
