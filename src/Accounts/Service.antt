-- ===== src/Accounts/Service.antt =====
-- `unlink` and `updateVisibility` of `createAccountConnectionService`, on the platform that
-- `normalizePlatform` has found. `find_user` is `users.findById`.
use clutch.Prelude.{
  ℕ, String, Bool, true, false, not, ◌&&◌, ◌||◌, Option, none, some, List, any, keep, length, ◌==◌,
  nat_eq, if◌then◌else◌,
}
use clutch.Database.Table.{Table}
use clutch.Accounts.Types.{
  Platform, Account, User, conflicts, platform_eq, is_social_login, is_connected, is_unavailable,
  is_official, lower_codes, ends_with,
}
use clutch.Accounts.Repository.{
  list_by_user, find_by_user_provider, delete_by_user_provider, update_visibility_row,
}

pub data Reason : Type 0 where
  unsupported_provider invalid_request invalid_state provider_unavailable identity_conflict
        not_connected unsafe_unlink visibility_not_allowed :
      Reason

-- An `AccountConnectionError`, or the operation's answer.
pub data Answer {ℓ} (A : Type ℓ) : Type ℓ where
  answered : A → Answer A
  refused : (status_code : ℕ) → Reason → Answer A

unfoldable pub has_viable_password_login : User → Bool
has_viable_password_login user =
    not (ends_with (lower_codes user.email) (lower_codes "@users.clutch.local"))

-- Another login of the same user that works.
abbrev pub is_other_login : Platform → Account → Bool
is_other_login provider candidate =
    is_social_login candidate.connection_type
    && not (candidate.provider == provider)
    && is_connected candidate.status

abbrev pub has_password : Option User → Bool
has_password none = false
has_password (some user) = has_viable_password_login user

unfoldable pub can_unlink_account : Account → List Account → Option User → Bool
can_unlink_account account accounts user =
    if is_unavailable account.status
    then false
    else if not (is_social_login account.connection_type)
    then true
    else has_password user || any (is_other_login account.provider) accounts

unfoldable pub can_publish_account : Account → Bool
can_publish_account account = is_connected account.status && is_official account.data_source

module _ (Accounts : Table conflicts) (find_user : String → Option User) where
  -- The refusal that `assertCanRemoveAccount` throws, if any, for the user that was found.
  unfoldable pub assert_other_login :
      String → Account → Accounts.T → Option User → Option (ℕ × Reason)
  assert_other_login user_id account db none = some (404, not_connected)
  assert_other_login user_id account db (some user) =
      if has_viable_password_login user
      then none
      else if length (keep (is_other_login account.provider) (list_by_user Accounts user_id db))
          == 0
      then some (409, unsafe_unlink)
      else none

  unfoldable pub assert_can_remove_account : String → Account → Accounts.T → Option (ℕ × Reason)
  unfolding assert_other_login
  assert_can_remove_account user_id account db =
      if not (is_social_login account.connection_type)
      then none
      else assert_other_login user_id account db (find_user user_id)

  unfoldable pub unlink_checked :
      String → Platform → Accounts.T → Option (ℕ × Reason) → Accounts.T × Answer Platform
  unlink_checked user_id provider db (some (status_code, reason)) = (db, refused status_code reason)
  unlink_checked user_id provider db none =
      ((delete_by_user_provider Accounts user_id provider db).0, answered provider)

  unfoldable pub unlink_found :
      String → Platform → Accounts.T → Option Account → Accounts.T × Answer Platform
  unfolding unlink_checked
  unlink_found user_id provider db none = (db, refused 404 not_connected)
  unlink_found user_id provider db (some account) =
      unlink_checked user_id provider db (assert_can_remove_account user_id account db)

  unfoldable pub unlink : String → Platform → Accounts.T → Accounts.T × Answer Platform
  unfolding unlink_found
  unlink user_id provider db =
      unlink_found user_id provider db (find_by_user_provider Accounts user_id provider db)

  unfoldable pub publish :
      String → Accounts.T × Option Account → Accounts.T × Answer (Account × Bool)
  publish user_id (db, none) = (db, refused 404 not_connected)
  publish user_id (db, some account) = (
    db,
    answered (
      account,
      can_unlink_account account (list_by_user Accounts user_id db) (find_user user_id),
    ),
  )

  unfoldable pub visibility_found :
      String → Platform → Bool → Accounts.T → Option Account → Accounts.T × Answer (Account × Bool)
  unfolding publish
  visibility_found user_id provider visible db none = (db, refused 404 not_connected)
  visibility_found user_id provider visible db (some account) =
      if visible && not (can_publish_account account)
      then (db, refused 409 visibility_not_allowed)
      else publish user_id (update_visibility_row Accounts user_id provider visible db)

  unfoldable pub update_visibility :
      String → Platform → Bool → Accounts.T → Accounts.T × Answer (Account × Bool)
  unfolding visibility_found
  update_visibility user_id provider visible db =
      visibility_found user_id provider visible db
        (find_by_user_provider Accounts user_id provider db)
