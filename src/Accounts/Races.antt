-- ===== src/Accounts/Races.antt =====
-- Two calls of `unlink` that overlap.
use clutch.Prelude.{
  ◌<◌, ◌≡◌, ◌≢◌, refl, sym, ap, ◌∙◌, String, Bool, true, false, not, ◌&&◌, Option, none, some, [],
  ◌∷◌, nat_eq, string_eq, arith, Option-cases, inl, inr,
}
use clutch.Database.Table.{Table}
use clutch.Database.Count.{count, count_congr, count_mono, count_split, length-keep}
use clutch.Accounts.Types.{
  Platform, Account, User, conflicts, platform_eq, position_iff, is_social_login, is_connected,
}
use clutch.Accounts.Repository.{
  of_user, of_user_provider, list_by_user, find_by_user_provider, delete_found,
  delete_by_user_provider,
}
use clutch.Accounts.Service.{
  answered, has_viable_password_login, is_other_login, assert_other_login,
  assert_can_remove_account, unlink_checked, unlink,
}
use clutch.Accounts.Logins.{is_login, logins, IsMadeUp, viable-IsMadeUp}
use clutch.Accounts.Unlinking.{
  check_found, check_unlink, CheckedCall, UnlinkState, start_unlinks, check_step, finish_step,
  checks, finishes, UnlinkRun, stop, then_step, unlink-steps,
}

module _ (Accounts : Table conflicts) (find_user : String → Option User) where
  -- A working social login of the user's, at the provider.
  pub record HasLogin (u : String) (p : Platform) (db : Accounts.T) : Type 0 where
    pub account : Account
    pub found : find_by_user_provider Accounts u p db ≡ some account
    pub social : is_social_login account.connection_type ≡ true
    pub works : is_connected account.status ≡ true

  abbrev login_at : String → Platform → Account → Bool
  login_at u p a = of_user_provider u p a && is_login u a

  provider_of :
      (u : String) (p : Platform) (db : Accounts.T) (l : HasLogin u p db)
      → (l.account.provider ≡ p) × (0 < count (login_at u p) (Accounts.rows db))
  unfolding find_by_user_provider
  provider_of u p db l =
      let (at, _) =
        Accounts.find_first_some (of_user_provider u p) (λ x. true) db l.account l.found refl in
      let here : login_at u p l.account ≡ true = ground (arith, at, l.social, l.works) in
      let (_, there) =
        Accounts.find_first_some (of_user_provider u p) (login_at u p) db l.account l.found here in
      ((position_iff l.account.provider p).0 (ground arith), there)

  -- While a login at another provider is there, the check passes.
  check_passes :
      (u : String) (p q : Platform) (user : User) (db : Accounts.T) (l : HasLogin u p db)
      → HasLogin u q db
      → p ≢ q
      → find_user u ≡ some user
      → assert_can_remove_account Accounts find_user u l.account db ≡ none
  unfolding assert_can_remove_account assert_other_login list_by_user
  check_passes u p q user db l m apart known =
      let (_, there) = provider_of u q db m in
      let (at, _) = provider_of u p db l in
      let other = is_other_login l.account.provider in
      ground (
        arith,
        known,
        l.social,
        there,
        length-keep other (Accounts.find_many (of_user u) db),
        Accounts.count_found (of_user u) other db,
        count_mono (login_at u q) (λ a. of_user u a && other a) (Accounts.rows db)
            λ a h. ground (
              arith,
              at,
              apart,
              position_iff a.provider q,
              position_iff a.provider l.account.provider,
            ),
      )

  -- The rest of a call whose check has passed deletes the account, if it is there.
  finished :
      (u : String) (p : Platform) (db : Accounts.T)
      → 0 < count (of_user_provider u p) (Accounts.rows db)
      → unlink_checked Accounts find_user u p db none
        ≡ (Accounts.delete_many (of_user_provider u p) db, answered p)
  unfolding unlink_checked delete_by_user_provider find_by_user_provider
  finished u p db there = elim (Option-cases (Accounts.find_first (of_user_provider u p) db)) [
    | inl e ↦
        let gone = Accounts.find_first_none (of_user_provider u p) db e in absurd (omega arith)
    | inr (a, e) ↦ rw (e, delete_found) refl
  ]

  check_unlink_passes :
      (u : String) (p q : Platform) (user : User) (db : Accounts.T)
      → HasLogin u p db
      → HasLogin u q db
      → p ≢ q
      → find_user u ≡ some user
      → check_unlink Accounts find_user u p db ≡ none
  check_unlink_passes u p q user db l m apart known =
      ap (check_found Accounts find_user u db) l.found ∙ check_passes u p q user db l m apart known

  there :
      (u : String) (p : Platform) (db : Accounts.T)
      → HasLogin u p db
      → 0 < count (of_user_provider u p) (Accounts.rows db)
  there u p db l =
      let (_, one) = provider_of u p db l in
      omega (
        arith,
        one,
        count_mono (login_at u p) (of_user_provider u p) (Accounts.rows db) (λ a h. ground arith),
      )

  -- Behind a deletion at one provider the login at another is there.
  still_there :
      (u : String) (p q : Platform) (db : Accounts.T)
      → HasLogin u q db
      → p ≢ q
      → let rows = Accounts.rows (Accounts.delete_many (of_user_provider u p) db) in
        (0 < count (of_user_provider u q) rows) × (0 < count (is_login u) rows)
  still_there u p q db m apart =
      let here = login_at u q in
      let (_, one) = provider_of u q db m in
      let rows = Accounts.rows (Accounts.delete_many (of_user_provider u p) db) in
      let left : 0 < count here rows = omega (
        arith,
        one,
        Accounts.count_deleted (of_user_provider u p) here db,
        count_mono here (λ a. not (of_user_provider u p a) && here a) (Accounts.rows db)
            λ a h. ground (arith, apart, position_iff a.provider p, position_iff a.provider q),
      ) in
      (
        omega (arith, left, count_mono here (of_user_provider u q) rows (λ a h. ground arith)),
        omega (arith, left, count_mono here (is_login u) rows (λ a h. ground arith)),
      )

  -- A call that runs alone while a login at another provider is there.
  alone :
      (u : String) (p q : Platform) (user : User) (db : Accounts.T)
      → HasLogin u p db
      → HasLogin u q db
      → p ≢ q
      → find_user u ≡ some user
      → ((unlink Accounts find_user u p db).1 ≡ answered p)
        × (0 < logins Accounts find_user u (unlink Accounts find_user u p db).0)
  alone u p q user db l m apart known =
      let same =
        unlink-steps Accounts find_user u p db
        ∙ ap (unlink_checked Accounts find_user u p db)
            (check_unlink_passes u p q user db l m apart known)
        ∙ finished u p db (there u p db l) in
      (ap (λ x. x.1) same, rw same (still_there u p q db m apart).1)

  none_left :
      (u : String) (p q : Platform) (db : Accounts.T)
      → HasLogin u p db
      → HasLogin u q db
      → p ≢ q
      → logins Accounts find_user u db ≡ 2
      → logins Accounts find_user u (
          Accounts.delete_many
            (of_user_provider u q)
            (Accounts.delete_many (of_user_provider u p) db))
        ≡ 0
  none_left u p q db l m apart two =
      let rows = Accounts.rows db in
      let at_p = of_user_provider u p in
      let at_q = of_user_provider u q in
      let rest : Account → Bool = λ a. not (at_p a) && is_login u a in
      let (_, one) = provider_of u p db l in
      let (_, one') = provider_of u q db m in
      omega (
        arith,
        two,
        one,
        one',
        Accounts.count_deleted at_q (is_login u) (Accounts.delete_many at_p db),
        Accounts.count_deleted at_p (λ a. not (at_q a) && is_login u a) db,
        count_split at_p (is_login u) rows,
        count_split at_q rest rows,
        count_congr (λ a. not (at_p a) && (not (at_q a) && is_login u a))
            (λ a. not (at_q a) && rest a) rows (λ a. ground arith),
        count_mono (login_at u q) (λ a. at_q a && rest a) rows
            λ a h. ground (arith, apart, position_iff a.provider p, position_iff a.provider q),
      )

  -- The state that two calls reach which both check before they delete.
  abbrev overlapped : String → Platform → Platform → Accounts.T → UnlinkState Accounts find_user
  overlapped u p q db =
      let first : CheckedCall Accounts find_user = record {
        user_id = u;
        provider = p;
        refusal = check_unlink Accounts find_user u p db;
      } in
      let second : CheckedCall Accounts find_user = record {
        user_id = u;
        provider = q;
        refusal = check_unlink Accounts find_user u q db;
      } in
      finish_step Accounts find_user second [] (
        finish_step Accounts find_user first (second ∷ []) (
          check_step Accounts find_user u q
            (check_step Accounts find_user u p (start_unlinks Accounts find_user db))))

  overlapped-UnlinkRun :
      (u : String) (p q : Platform) (db : Accounts.T)
      → UnlinkRun Accounts find_user (start_unlinks Accounts find_user db) (overlapped u p q db)
  overlapped-UnlinkRun u p q db =
      let first : CheckedCall Accounts find_user = record {
        user_id = u;
        provider = p;
        refusal = check_unlink Accounts find_user u p db;
      } in
      let second : CheckedCall Accounts find_user = record {
        user_id = u;
        provider = q;
        refusal = check_unlink Accounts find_user u q db;
      } in
      let one = check_step Accounts find_user u p (start_unlinks Accounts find_user db) in
      let two = check_step Accounts find_user u q one in
      let three = finish_step Accounts find_user first (second ∷ []) two in
      then_step (start_unlinks Accounts find_user db) three
        (finish_step Accounts find_user second [] three)
        (then_step (start_unlinks Accounts find_user db) two three
          (then_step (start_unlinks Accounts find_user db) one two
            (then_step (start_unlinks Accounts find_user db) (start_unlinks Accounts find_user db)
              one (stop (start_unlinks Accounts find_user db))
              (checks u p (start_unlinks Accounts find_user db)))
            (checks u q one))
          (finishes (second ∷ []) [] first two refl))
        (finishes [] [] second three refl)

  -- Two calls of `unlink` that overlap lock a user out. For a user whose address the service has made up,
  -- whom the code takes to have no password, and who has two working social logins, at two providers:
  -- either call alone is answered with success and leaves a login, but there is a run of the two in which
  -- both are answered with success and no login is left.
  pub unlink_race :
      (u : String) (p q : Platform) (user : User) (db : Accounts.T)
      → HasLogin u p db
      → HasLogin u q db
      → p ≢ q
      → find_user u ≡ some user
      → IsMadeUp user
      → logins Accounts find_user u db ≡ 2
      → ((unlink Accounts find_user u p db).1 ≡ answered p)
        × (0 < logins Accounts find_user u (unlink Accounts find_user u p db).0)
        × ((unlink Accounts find_user u q db).1 ≡ answered q)
        × (0 < logins Accounts find_user u (unlink Accounts find_user u q db).0)
        × (has_viable_password_login user ≡ false)
        × ((s : UnlinkState Accounts find_user) × UnlinkRun Accounts find_user
              (start_unlinks Accounts find_user db)
              s
            × (s.answers ≡ (u, answered q) ∷ (u, answered p) ∷ [])
            × (logins Accounts find_user u s.table ≡ 0))
  unlink_race u p q user db l m apart known made_up two =
      let apart' : q ≢ p = λ e. apart (sym e) in
      let gone = Accounts.delete_many (of_user_provider u p) db in
      let pass = check_unlink_passes u p q user db l m apart known in
      let pass' = check_unlink_passes u q p user db m l apart' known in
      let first = finished u p db (there u p db l) in
      let second = finished u q gone (still_there u p q db m apart).0 in
      let (yes_p, left_p) = alone u p q user db l m apart known in
      let (yes_q, left_q) = alone u q p user db m l apart' known in
      (
        yes_p,
        left_p,
        yes_q,
        left_q,
        viable-IsMadeUp user made_up,
        (
          overlapped u p q db,
          overlapped-UnlinkRun u p q db,
          rw (pass, pass', first, second) refl,
          rw (pass, pass', first, second) (none_left u p q db l m apart two),
        ),
      )
