-- ===== src/Accounts/Visibility.antt =====
-- What `updateVisibility` lets through.
use clutch.Prelude.{
  ◌≡◌, ◌⊎◌, String, Bool, true, false, not, ◌&&◌, Option, none, some, string_eq, if◌then◌else◌,
}
use clutch.Database.Table.{Table}
use clutch.Database.Count.{count}
use clutch.Accounts.Types.{
  Platform, Account, User, conflicts, platform_eq, is_connected, is_official,
}
use clutch.Accounts.Repository.{
  of_user_provider, with_visibility, list_by_user, find_by_user_provider,
}
use clutch.Accounts.Service.{
  Answer, answered, refused, not_connected, visibility_not_allowed, can_unlink_account,
}

-- The account is the user's at the provider, and not as visible as asked for.
abbrev pub misplaced : String → Platform → Bool → Account → Bool
misplaced u p visible a =
    of_user_provider u p a
    && (if visible then not a.public_profile_visible else a.public_profile_visible)

module _ (Accounts : Table conflicts) (find_user : String → Option User) where
  -- The change is made: the account is the user's and may be as visible as asked for, the answer shows it
  -- so, with the flag whether it can be unlinked, the table has it so, and the other rows are as they were.
  pub record IsChanged (u : String) (p : Platform) (visible : Bool) (db : Accounts.T)
      (after : Accounts.T × Answer (Account × Bool)) : Type 0 where
    pub account : Account
    pub found : find_by_user_provider Accounts u p db ≡ some account
    pub allowed :
        visible ≡ true
        → (is_connected account.status ≡ true) × (is_official account.data_source ≡ true)
    pub shown :
        after.1
        ≡ answered (
          with_visibility visible account,
          can_unlink_account
              (with_visibility visible account)
              (list_by_user Accounts u after.0)
              (find_user u),
        )
    pub changed : count (misplaced u p visible) (Accounts.rows after.0) ≡ 0
    pub others_kept :
        (q : Account → Bool)
        → count (λ a. not (of_user_provider u p a) && q a) (Accounts.rows after.0)
          ≡ count (λ a. not (of_user_provider u p a) && q a) (Accounts.rows db)

  -- An account is to be shown that is not connected or not official.
  pub record IsForbidden (u : String) (p : Platform) (visible : Bool) (db : Accounts.T)
      : Type 0 where
    pub account : Account
    pub found : find_by_user_provider Accounts u p db ≡ some account
    pub is_shown : visible ≡ true
    pub unfit : (is_connected account.status ≡ false) ⊎ (is_official account.data_source ≡ false)

  abbrev Outcome :
      String → Platform → Bool → Accounts.T → Accounts.T × Answer (Account × Bool) → Type 0
  Outcome u p visible db after =
      ((find_by_user_provider Accounts u p db ≡ none) × (after ≡ (db, refused 404 not_connected)))
      ⊎ ((IsForbidden u p visible db × (after ≡ (db, refused 409 visibility_not_allowed)))
          ⊎ IsChanged u p visible db after)
