-- ===== src/Accounts/Logins.antt =====
-- Unlinking keeps a way to log in.
use clutch.Prelude.{
  ℕ, ◌≤◌, ◌<◌, ◌≡◌, ◌↔◌, ◌⊎◌, inl, inr, refl, sym, ◌∙◌, String, Bool, true, false, not, ◌&&◌,
  Option, none, some, List, [], ◌∷◌, ◌++◌, ap, keep, length, nat_eq, string_eq, arith, eq_iff,
  Bool-cases, Option-cases,
}
use clutch.Database.Table.{Table}
use clutch.Database.Count.{
  count, count_congr, count_mono, count_split, length-keep, any-eq-true_iff,
}
use clutch.Accounts.Types.{
  Platform, Account, User, conflicts, platform_eq, position_iff, is_social_login, is_connected,
  is_unavailable, lower_codes, ends_with, same_codes,
}
use clutch.Prelude.Chars.{codes}
use clutch.Accounts.Repository.{
  of_user, of_user_provider, list_by_user, find_by_user_provider, delete_found,
  delete_by_user_provider,
}
use clutch.Accounts.Service.{
  answered, has_viable_password_login, is_other_login, can_unlink_account, assert_other_login,
  assert_can_remove_account, unlink_checked, unlink_found, unlink,
}

-- The account is a social login of the user's that works.
abbrev pub is_login : String → Account → Bool
is_login user_id a =
    of_user user_id a && (is_social_login a.connection_type && is_connected a.status)

same_codes_refl : (s : List ℕ) → same_codes s s ≡ true
same_codes_refl [] = refl
same_codes_refl (a ∷ s) = ground (arith, same_codes_refl s)

ends_with-append : (s t : List ℕ) → ends_with (s ++ t) t ≡ true
ends_with-append [] [] = refl
ends_with-append [] (b ∷ t) = ground (arith, same_codes_refl t)
ends_with-append (a ∷ s) t = ground (arith, ends_with-append s t)

-- The user's address is one that the service has made up, in small letters or capitals: they have never
-- given one of their own.
pub record IsMadeUp (user : User) : Type 0 where
  pub front : List ℕ
  pub made_up : lower_codes user.email ≡ front ++ codes "@users.clutch.local"

pub viable-IsMadeUp : (user : User) → IsMadeUp user → has_viable_password_login user ≡ false
unfolding has_viable_password_login
viable-IsMadeUp user m =
    rw m.made_up (ap not (ends_with-append m.front (codes "@users.clutch.local")))

module _ (Accounts : Table conflicts) (find_user : String → Option User) where
  abbrev pub logins : String → Accounts.T → ℕ
  logins user_id db = count (is_login user_id) (Accounts.rows db)

  other_logins : String → Platform → Accounts.T → ℕ
  other_logins user_id provider db =
      count (λ a. of_user user_id a && is_other_login provider a) (Accounts.rows db)

  logins-delete :
      (u : String) (p : Platform) (db : Accounts.T)
      → logins u (Accounts.delete_many (of_user_provider u p) db) ≡ other_logins u p db
  unfolding other_logins
  logins-delete u p db =
      Accounts.count_deleted (of_user_provider u p) (is_login u) db
      ∙ count_congr _ _ (Accounts.rows db) λ a. ground (arith, eq_iff a.user_id u)

  remaining :
      (u : String) (p : Platform) (db : Accounts.T)
      → length (keep (is_other_login p) (list_by_user Accounts u db)) ≡ other_logins u p db
  unfolding list_by_user other_logins
  remaining u p db =
      length-keep (is_other_login p) (Accounts.find_many (of_user u) db)
      ∙ Accounts.count_found (of_user u) (is_other_login p) db

  -- Without a social login of this provider all logins are of other providers.
  other_provider :
      (u : String) (p : Platform) (db : Accounts.T) (a : Account)
      → find_by_user_provider Accounts u p db ≡ some a
      → is_social_login a.connection_type ≡ false
      → count (of_user_provider u p) (Accounts.rows db) ≤ 1
      → other_logins u p db ≡ logins u db
  unfolding find_by_user_provider
  other_provider u p db a found kind once =
      let rows = Accounts.rows db in
      let here = of_user_provider u p in
      let social : Account → Bool = λ x. is_social_login x.connection_type in
      let (at, _) = Accounts.find_first_some here (λ x. true) db a found refl in
      let (_, some_other) =
        Accounts.find_first_some here (λ x. not (social x) && here x) db a found
          (rw (kind, at) refl) in
      let no_login : count (λ x. here x && is_login u x) rows ≡ 0 = omega (
        arith,
        some_other,
        once,
        count_split social here rows,
        count_mono (λ x. here x && is_login u x) (λ x. social x && here x) rows λ x h. ground arith,
      ) in
      omega (
        arith,
        no_login,
        count_split here (is_login u) rows,
        sym (logins-delete u p db),
        Accounts.count_deleted here (is_login u) db,
      )

  -- What has been checked when no refusal is thrown.
  checked_login :
      (u : String) (a : Account) (user : User) (db : Accounts.T)
      → find_user u ≡ some user
      → IsMadeUp user
      → assert_can_remove_account Accounts find_user u a db ≡ none
      → (is_social_login a.connection_type ≡ false) ⊎ (0 < other_logins u a.provider db)
  unfolding assert_can_remove_account assert_other_login
  checked_login u a user db known m e = elim (Bool-cases (is_social_login a.connection_type)) [
    | inr other ↦ inl other
    | inl social ↦ inr (ground (arith, remaining u a.provider db, known, viable-IsMadeUp user m))
  ]

  found_provider :
      (u : String) (p : Platform) (db : Accounts.T) (a : Account)
      → find_by_user_provider Accounts u p db ≡ some a
      → a.provider ≡ p
  unfolding find_by_user_provider
  found_provider u p db a found =
      let (at, _) = Accounts.find_first_some (of_user_provider u p) (λ x. true) db a found refl in
      (position_iff a.provider p).0 (ground arith)

  deletion_keeps :
      (u : String) (p : Platform) (a : Account) (user : User) (db : Accounts.T)
      → find_by_user_provider Accounts u p db ≡ some a
      → find_user u ≡ some user
      → IsMadeUp user
      → count (of_user_provider u p) (Accounts.rows db) ≤ 1
      → 0 < logins u db
      → assert_can_remove_account Accounts find_user u a db ≡ none
      → 0 < logins u (Accounts.delete_many (of_user_provider u p) db)
  deletion_keeps u p a user db found known m once h e = elim (checked_login u a user db known m e) [
    | inl other ↦ rw (logins-delete u p db, other_provider u p db a found other once) h
    | inr another ↦ rw (logins-delete u p db, ← found_provider u p db a found) another
  ]

  unlink_found_keeps :
      (u : String) (p : Platform) (user : User) (db : Accounts.T) (o : Option Account)
      → find_by_user_provider Accounts u p db ≡ o
      → find_user u ≡ some user
      → IsMadeUp user
      → count (of_user_provider u p) (Accounts.rows db) ≤ 1
      → 0 < logins u db
      → 0 < logins u (unlink_found Accounts find_user u p db o).0
  unfolding unlink_found delete_by_user_provider
  unlink_found_keeps u p user db none found known m once h = h
  unlink_found_keeps u p user db (some a) found known m once h =
      elim (Option-cases (assert_can_remove_account Accounts find_user u a db)) [
        | inr (error, e) ↦ rw (e, unlink_checked) h
        | inl e ↦
            rw (e, unlink_checked, found, delete_found)
              (deletion_keeps u p a user db found known m once h e)
      ]

  -- Unlinking does not lock out a user with an address that the service has made up: whichever account is
  -- unlinked and however the call is answered, one who had a working social login before has one after
  -- it. The table holds one account of a user and a provider at most, and the call runs alone.
  pub unlink_keeps_login :
      (u : String) (p : Platform) (user : User) (db : Accounts.T)
      → find_user u ≡ some user
      → IsMadeUp user
      → count (of_user_provider u p) (Accounts.rows db) ≤ 1
      → 0 < logins u db
      → 0 < logins u (unlink Accounts find_user u p db).0
  unfolding unlink
  unlink_keeps_login u p user db known m once h =
      unlink_found_keeps u p user db (find_by_user_provider Accounts u p db) refl known m once h

  -- The flag that is shown with an account tells the truth: for an account that is not unavailable it is
  -- set exactly when a call of `unlink` for it is answered with success.
  pub can_unlink-eq-true_iff :
      (u : String) (p : Platform) (a : Account) (user : User) (db : Accounts.T)
      → find_by_user_provider Accounts u p db ≡ some a
      → is_unavailable a.status ≡ false
      → find_user u ≡ some user
      → (can_unlink_account a (list_by_user Accounts u db) (some user) ≡ true)
        ↔ ((unlink Accounts find_user u p db).1 ≡ answered p)
  unfolding can_unlink_account unlink unlink_found assert_can_remove_account assert_other_login
      unlink_checked
  can_unlink-eq-true_iff u p a user db found available known =
      let rows = list_by_user Accounts u db in
      let (to, back) = any-eq-true_iff (is_other_login a.provider) rows in
      let measured = length-keep (is_other_login a.provider) rows in
      elim (Bool-cases (is_social_login a.connection_type)) [
        | inr other ↦ rw (found, other, available) (λ h. refl, λ h. refl)
        | inl social ↦ elim (Bool-cases (has_viable_password_login user)) [
          | inl viable ↦ rw (found, social, available, known, viable) (λ h. refl, λ h. refl)
          | inr bare ↦
              rw (found, social, available, known, bare)
                (λ h. ground (arith, measured, to h), λ h. back (ground (arith, measured)))
        ]
      ]
