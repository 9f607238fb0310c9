-- ===== src/Accounts/Unlinking.antt =====
-- `unlink` of account-connection.service.ts awaits between its check and its deletion, so that calls can
-- overlap: a step relation on the calls that have made their check and have not deleted yet. A check, with
-- its reads, is one step, and so is a deletion.
use clutch.Prelude.{
  ℕ, ◌≡◌, refl, String, Option, none, some, List, [], ◌∷◌, ◌++◌, nat_eq, string_eq, Option-cases,
  inl, inr,
}
use clutch.Database.Table.{Table}
use clutch.Accounts.Types.{Platform, Account, User, conflicts, platform_eq}
use clutch.Accounts.Repository.{find_by_user_provider}
use clutch.Accounts.Service.{
  Answer, Reason, not_connected, assert_can_remove_account, unlink_checked, unlink_found, unlink,
}

module _ (Accounts : Table conflicts) (find_user : String → Option User) where
  -- What the check of `unlink` comes to: the refusal, if any.
  abbrev pub check_found : String → Accounts.T → Option Account → Option (ℕ × Reason)
  check_found u db none = some (404, not_connected)
  check_found u db (some account) = assert_can_remove_account Accounts find_user u account db

  abbrev pub check_unlink : String → Platform → Accounts.T → Option (ℕ × Reason)
  check_unlink u p db = check_found u db (find_by_user_provider Accounts u p db)

  -- A call that has made its check.
  pub record CheckedCall : Type 0 where
    pub user_id : String
    pub provider : Platform
    pub refusal : Option (ℕ × Reason)

  pub record UnlinkState : Type 0 where
    pub table : Accounts.T
    pub checked : List CheckedCall
    pub answers : List (String × Answer Platform)

  abbrev pub start_unlinks : Accounts.T → UnlinkState
  start_unlinks db = record { table = db; checked = []; answers = [] }

  abbrev pub check_step : String → Platform → UnlinkState → UnlinkState
  check_step u p s = record s {
    checked = record { user_id = u; provider = p; refusal = check_unlink u p s.table } ∷ s.checked;
  }

  -- The rest of a call, behind its check.
  abbrev pub finish_step : CheckedCall → List CheckedCall → UnlinkState → UnlinkState
  finish_step c others s =
      let after = unlink_checked Accounts find_user c.user_id c.provider s.table c.refusal in
      record { table = after.0; checked = others; answers = (c.user_id, after.1) ∷ s.answers }

  pub data UnlinkStep : UnlinkState → UnlinkState → Type 0 where
    checks : (u : String) (p : Platform) (s : UnlinkState) → UnlinkStep s (check_step u p s)
    finishes :
        (front back : List CheckedCall) (c : CheckedCall) (s : UnlinkState)
        → s.checked ≡ front ++ (c ∷ back)
        → UnlinkStep s (finish_step c (front ++ back) s)

  pub data UnlinkRun : UnlinkState → UnlinkState → Type 0 where
    stop : (s : UnlinkState) → UnlinkRun s s
    then_step : (s t r : UnlinkState) → UnlinkRun s t → UnlinkStep t r → UnlinkRun s r

  -- A call that runs alone makes its two steps.
  pub unlink-steps :
      (u : String) (p : Platform) (db : Accounts.T)
      → unlink Accounts find_user u p db
        ≡ unlink_checked Accounts find_user u p db (check_unlink u p db)
  unfolding unlink unlink_found unlink_checked
  unlink-steps u p db = elim (Option-cases (find_by_user_provider Accounts u p db)) [
    | inl e ↦ rw e refl
    | inr (a, e) ↦ rw e refl
  ]
