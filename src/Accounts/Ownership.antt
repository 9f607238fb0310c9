-- ===== src/Accounts/Ownership.antt =====
-- Connecting an identity: whose it is afterwards, and what is left alone.
use clutch.Prelude.{
  ◌<◌, ◌≡◌, ◌⊎◌, inl, inr, refl, sym, ◌∙◌, String, Bool, true, not, ◌&&◌, Option, none, some, ◌==◌,
  nat_eq, string_eq, arith, eq_iff, eq_refl, Bool-cases, Option-cases,
}
use clutch.Prelude.Text.{trim, is_empty}
use clutch.Database.Table.{Table}
use clutch.Database.Count.{count, count_mono, count_congr, count-eq-zero_of, count-eq-zero_of_false}
use clutch.Accounts.Types.{Platform, Account, conflicts, platform_eq, position_iff}
use clutch.Accounts.Repository.{of_user_provider}
use clutch.Accounts.Connect.{
  ConnectContext, ConnectInput, ConnectError, Connected, done, failed, of_identity, created_row,
  updated_row, upsert_connected_account, stored, try_upsert, connect_unowned, connect_found,
  connect_external_identity,
}

-- The identity, in the hands of the user.
abbrev pub is_mine : String → Platform → String → Account → Bool
is_mine u p ext a = a.user_id == u && of_identity p ext a

-- The identity, in the hands of someone else.
abbrev pub is_theirs : String → Platform → String → Account → Bool
is_theirs u p ext a = not (a.user_id == u) && of_identity p ext a

abbrev pub is_elsewhere : String → Platform → (Account → Bool) → Account → Bool
is_elsewhere u p q a = not (of_user_provider u p a) && q a

module _ (Accounts : Table conflicts) where
  -- The identity is the user's, and no one else has it.
  pub record IsOwned (u : String) (p : Platform) (ext : String) (db : Accounts.T) : Type 0 where
    pub mine : 0 < count (is_mine u p ext) (Accounts.rows db)
    pub not_theirs : count (is_theirs u p ext) (Accounts.rows db) ≡ 0

  -- The two tables agree on what is not this user's account with this provider.
  abbrev pub AgreesElsewhere : String → Platform → Accounts.T → Accounts.T → Type 0
  AgreesElsewhere u p db db' =
      (q : Account → Bool)
      → count (is_elsewhere u p q) (Accounts.rows db')
        ≡ count (is_elsewhere u p q) (Accounts.rows db)

  module _ (input : ConnectInput) (ext : String) (access refresh : Option String) where
    made : Account
    made = created_row input ext access refresh

    changed : Account → Account
    changed = updated_row input ext access refresh

    create-IsOwned :
        (db db' : Accounts.T)
        → Accounts.create made db ≡ some db'
        → IsOwned input.user_id input.provider ext db'
          × AgreesElsewhere input.user_id input.provider db db'
    unfolding made
    create-IsOwned db db' e =
        let u = input.user_id in
        let p = input.provider in
        let (free, _) = Accounts.create_some made db db' (λ a. true) e in
        let (_, grown_mine) = Accounts.create_some made db db' (is_mine u p ext) e in
        let (_, grown_theirs) = Accounts.create_some made db db' (is_theirs u p ext) e in
        (
          record {
            mine = ground (arith, grown_mine, eq_refl u, eq_refl ext);
            not_theirs = ground (
              arith,
              grown_theirs,
              eq_refl u,
              count-eq-zero_of (is_theirs u p ext) (conflicts made) (Accounts.rows db)
                  (λ a h. ground (arith, eq_iff a.external_id ext, eq_iff ext a.external_id)) free,
            );
          },
          λ q.
              ground
                (arith, (Accounts.create_some made db db' (is_elsewhere u p q) e).1, eq_refl u),
        )

    update-IsOwned :
        (x : Account) (db db' : Accounts.T)
        → Accounts.find_first (of_user_provider input.user_id input.provider) db ≡ some x
        → Accounts.upsert (of_user_provider input.user_id input.provider) made changed db ≡ some db'
        → IsOwned input.user_id input.provider ext db'
          × AgreesElsewhere input.user_id input.provider db db'
    unfolding changed
    update-IsOwned x db db' found e =
        let u = input.user_id in
        let p = input.provider in
        let own = of_user_provider u p in
        let rows = Accounts.rows db in
        let (at, _) = Accounts.find_first_some own (λ a. true) db x found refl in
        let (_, some_own) = Accounts.find_first_some own own db x found at in
        let clash : Account → Bool = λ y. not (own y) && conflicts (changed x) y in
        let (free, _) = Accounts.upsert_found own made changed db db' x (λ a. true) found e in
        let split_by =
          λ (q : Account → Bool). (Accounts.upsert_found own made changed db db' x q found e).1 in
        (
          record {
            mine = omega (
              arith,
              split_by (is_mine u p ext),
              some_own,
              count_mono own (λ y. own y && is_mine u p ext (changed y)) rows
                  (λ y h. ground (arith, eq_refl ext)),
            );
            not_theirs = omega (
              arith,
              split_by (is_theirs u p ext),
              count-eq-zero_of (λ y. not (own y) && is_theirs u p ext y) clash rows
                  (λ y h. ground (
                    arith,
                    eq_iff y.external_id ext,
                    eq_iff ext y.external_id,
                    position_iff x.provider p,
                    position_iff y.provider p,
                    position_iff x.provider y.provider,
                  ))
                  free,
              count-eq-zero_of_false (λ y. own y && is_theirs u p ext (changed y)) rows
                  (λ y. ground arith),
            );
          },
          λ q. omega (
            arith,
            split_by (is_elsewhere u p q),
            count_congr (λ y. not (own y) && is_elsewhere u p q y) (is_elsewhere u p q) rows
                (λ y. ground arith),
            count-eq-zero_of_false (λ y. own y && is_elsewhere u p q (changed y)) rows
                (λ y. ground arith),
          ),
        )

  -- How a call for an identity is answered: done, or refused with the table as it was.
  abbrev pub ConnectOutcome : ConnectInput → String → Accounts.T → Accounts.T × Connected → Type 0
  ConnectOutcome input ext db result =
      ((result.1 ≡ done)
        × IsOwned input.user_id input.provider ext result.0
        × AgreesElsewhere input.user_id input.provider db result.0)
      ⊎ ((e : ConnectError) × (result ≡ (db, failed e)))

  upsert-IsOwned :
      (input : ConnectInput) (ext : String) (access refresh : Option String) (db db' : Accounts.T)
      → upsert_connected_account Accounts input ext access refresh db ≡ some db'
      → IsOwned input.user_id input.provider ext db'
        × AgreesElsewhere input.user_id input.provider db db'
  unfolding upsert_connected_account made changed
  upsert-IsOwned input ext access refresh db db' e =
      let own = of_user_provider input.user_id input.provider in
      let row = made input ext access refresh in
      let change = changed input ext access refresh in
      elim (Option-cases (Accounts.find_first own db)) [
        | inl absent ↦
            create-IsOwned input ext access refresh db db'
              (sym (Accounts.upsert_new own row change db absent) ∙ e)
        | inr (x, found) ↦ update-IsOwned input ext access refresh x db db' found e
      ]

  stored_outcome :
      (context : ConnectContext) (input : ConnectInput) (ext : String)
      (access refresh : Option String) (db : Accounts.T) (o : Option Accounts.T)
      → upsert_connected_account Accounts input ext access refresh db ≡ o
      → ConnectOutcome input ext db (stored Accounts context input ext db o)
  unfolding stored
  stored_outcome context input ext access refresh db (some db') e =
      let (owned, agrees) = upsert-IsOwned input ext access refresh db db' e in
      inl (refl, owned, agrees)
  stored_outcome context input ext access refresh db none e = inr (_, refl)

  try_outcome :
      (context : ConnectContext) (input : ConnectInput) (ext : String) (db : Accounts.T)
      (access refresh : Option (Option String))
      → ConnectOutcome input ext db (try_upsert Accounts context input ext db access refresh)
  unfolding try_upsert
  try_outcome context input ext db (some access) (some refresh) =
      stored_outcome context input ext access refresh db _ refl
  try_outcome context input ext db (some access) none = inr (_, refl)
  try_outcome context input ext db none refresh = inr (_, refl)

  found_outcome :
      (context : ConnectContext) (input : ConnectInput) (ext : String) (db : Accounts.T)
      (o : Option Account)
      → ConnectOutcome input ext db (connect_found Accounts context input ext db o)
  unfolding connect_found connect_unowned
  found_outcome context input ext db none = try_outcome context input ext db _ _
  found_outcome context input ext db (some a) = elim (Bool-cases (a.user_id == input.user_id)) [
    | inl e ↦ rw e (try_outcome context input ext db _ _)
    | inr e ↦ rw e (inr (_, refl))
  ]

  -- However connecting an identity is answered, the answer is true of the table: either it says that the
  -- identity, trimmed, is connected, and then it is the user's and no one else's, and every row but the
  -- user's own with this provider is as it was, so that nothing is taken from anyone; or it is an error,
  -- and the table is as it was.
  pub connect_external_identity_outcome :
      (context : ConnectContext) (input : ConnectInput) (db : Accounts.T)
      → ConnectOutcome input
          (trim input.external_id)
          db
          (connect_external_identity Accounts context input db)
  unfolding connect_external_identity
  connect_external_identity_outcome context input db =
      elim (Bool-cases (is_empty (trim input.external_id))) [
        | inl e ↦ rw e (inr (_, refl))
        | inr e ↦ rw e (found_outcome context input (trim input.external_id) db _)
      ]
