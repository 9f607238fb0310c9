-- ===== src/Social/Linking.antt =====
-- From the provider's identity to the answer.
use clutch.Prelude.{
  ℕ, ◌≡◌, inl, inr, refl, sym, ap, ◌∙◌, String, true, false, Option, none, some, ◌==◌, arith,
  Bool-cases, string_eq,
}
use clutch.Database.Table.{Table}
use clutch.Accounts.Types.{Platform, Account, conflicts, platform_eq, position_iff}
use clutch.Accounts.Connect.{
  Connected, done, failed, find_by_provider_external_id, connect_external_identity,
}
use clutch.Accounts.Repository.{find_by_user_provider}
use clutch.Database.Count.{count}
use clutch.Accounts.Ownership.{is_elsewhere, connect_external_identity_outcome}
use clutch.Providers.Types.{Result, ok, err}
use clutch.Providers.Names.{SocialReason}
use clutch.Social.Types.{
  Identity, UserRow, user_conflicts, CallbackResult, Exchange, identified, integration_error,
  social_auth_error, other_error,
}
use clutch.Social.Service.{
  Outside, Draws, World, find_by_id, new_user, inserted_user, create_named, create_user,
  email_owner, resolve_with, resolve_or_create_user, connect_input, connected_reply,
  is_other_identity, link_new_user, login_owner, login_or_create, exchanged,
}
use clutch.Social.Answers.{AnsweredFor}

module _ (Users : Table user_conflicts) (Accounts : Table conflicts) (outside : Outside)
    (draws : Draws) (now : ℕ) where
  open outside use {env, codec, nfkd, exchange}

  abbrev Worlds : Type 0
  Worlds = World Users Accounts

  -- What a created user means for the worlds before and after.
  record IsCreated (w w' : Worlds) (identity : Identity) (user : UserRow) : Type 0 where
    free : email_owner Users Accounts outside draws now identity w.users ≡ none
    inserted : Users.create user w.users ≡ some w'.users
    accounts_kept : w'.accounts ≡ w.accounts
    states_kept : w'.states ≡ w.states

  inserted_user-IsCreated :
      (identity : Identity) (row user : UserRow) (w : Worlds) (o : Option Users.T)
      → email_owner Users Accounts outside draws now identity w.users ≡ none
      → Users.create row w.users ≡ o
      → (inserted_user Users Accounts outside draws now row w o).1 ≡ ok user
      → IsCreated w (inserted_user Users Accounts outside draws now row w o).0 identity user
  inserted_user-IsCreated identity row user w none f e h = cc
  inserted_user-IsCreated identity row user w (some db) f e h =
      let same : row ≡ user = cc in
      record { free = f; inserted = rw (← same) e; accounts_kept = refl; states_kept = refl }

  named_outcome :
      (identity : Identity) (user : UserRow) (w : Worlds) (r : Result SocialReason String)
      → email_owner Users Accounts outside draws now identity w.users ≡ none
      → (create_named Users Accounts outside draws now identity w r).1 ≡ ok user
      → IsCreated w (create_named Users Accounts outside draws now identity w r).0 identity user
  named_outcome identity user w (err e) f h = cc
  named_outcome identity user w (ok name) f h =
      inserted_user-IsCreated identity (new_user Users Accounts outside draws now identity name)
        user w _ f refl h

  resolved_outcome :
      (identity : Identity) (user : UserRow) (w : Worlds) (o : Option UserRow)
      → email_owner Users Accounts outside draws now identity w.users ≡ o
      → (resolve_with Users Accounts outside draws now identity w o).1 ≡ ok user
      → IsCreated w (resolve_with Users Accounts outside draws now identity w o).0 identity user
  unfolding create_user
  resolved_outcome identity user w (some owner) f h = cc
  resolved_outcome identity user w none f h = named_outcome identity user w _ f h

  -- The answer of the end of the callback, for a user who has just been created.
  linked_outcome :
      (p : Platform) (identity : Identity) (user : UserRow) (w : Worlds)
      (c : Accounts.T × Connected) (result : CallbackResult)
      → (connected_reply Users Accounts outside draws now p user w c).1 ≡ ok result
      → (c.1 ≡ done)
        × (result ≡ record { provider = p; user = user; is_new_user = true })
        × ((connected_reply Users Accounts outside draws now p user w c).0
            ≡ record w { accounts = c.0 })
  linked_outcome p identity user w (db, failed e) result h = cc
  linked_outcome p identity user w (db, done) result h = (refl, cc, refl)

  connected_outcome :
      (p : Platform) (identity : Identity) (user : UserRow) (w w1 : Worlds)
      (result : CallbackResult)
      → find_by_provider_external_id Accounts p identity.external_id w.accounts ≡ none
      → IsCreated w w1 identity user
      → let input = connect_input Users Accounts outside draws now p identity user in
        let c = connect_external_identity Accounts draws.connecting input w1.accounts in
        let answer = connected_reply Users Accounts outside draws now p user w1 c in
        answer.1 ≡ ok result
        → AnsweredFor Users Accounts outside draws now p w answer.0 identity result
          × (answer.0.states ≡ w.states)
  connected_outcome p identity user w w1 result unlinked creation h =
      let input = connect_input Users Accounts outside draws now p identity user in
      let c = connect_external_identity Accounts draws.connecting input w1.accounts in
      let (is_done, same, world) = linked_outcome p identity user w1 c result h in
      elim (connect_external_identity_outcome Accounts draws.connecting input w1.accounts) [
        | inr (e, refused) ↦
            let no : failed e ≡ done = sym (ap (λ r. r.1) refused) ∙ is_done in
            absurd (ground arith)
        | inl (_, owned, agrees) ↦ (
          inr (
              rw (same, world)
                (record {
                  unlinked = unlinked;
                  address_free = creation.free;
                  created_user = creation.inserted;
                  new = refl;
                  owned = owned;
                  others_kept = λ q.
                      agrees q
                      ∙ ap (λ db. count (is_elsewhere user.id p q) (Accounts.rows db))
                          creation.accounts_kept;
                })),
          rw world creation.states_kept,
        )
      ]

  link_outcome :
      (p : Platform) (identity : Identity) (w : Worlds) (r : Worlds × Result SocialReason UserRow)
      (result : CallbackResult)
      → find_by_provider_external_id Accounts p identity.external_id w.accounts ≡ none
      → ((user : UserRow) → r.1 ≡ ok user → IsCreated w r.0 identity user)
      → let answer = link_new_user Users Accounts outside draws now p identity r in
        answer.1 ≡ ok result
        → AnsweredFor Users Accounts outside draws now p w answer.0 identity result
          × (answer.0.states ≡ w.states)
  unfolding link_new_user
  link_outcome p identity w (w1, err e) result unlinked creation h = cc
  link_outcome p identity w (w1, ok user) result unlinked creation h =
      elim (Bool-cases (
        is_other_identity Users Accounts outside draws now identity
          (find_by_user_provider Accounts user.id p w1.accounts))) [
            | inl e ↦ let no : _ ≡ ok result = rw e at h in absurd (ground arith)
            | inr e ↦ rw e (
                connected_outcome p identity user w w1 result unlinked (creation user refl)
                  (rw e at h))
          ]

  owner_outcome :
      (p : Platform) (identity : Identity) (w : Worlds) (account : Account) (o : Option UserRow)
      (result : CallbackResult)
      → find_by_provider_external_id Accounts p identity.external_id w.accounts ≡ some account
      → find_by_id Users Accounts account.user_id w.users ≡ o
      → let answer = login_owner Users Accounts outside draws now p w o in
        answer.1 ≡ ok result
        → AnsweredFor Users Accounts outside draws now p w answer.0 identity result
          × (answer.0.states ≡ w.states)
  unfolding login_owner
  owner_outcome p identity w account none result linked found h = cc
  owner_outcome p identity w account (some owner) result linked found h =
      let same : record { provider = p; user = owner; is_new_user = false } ≡ result = cc in
      (
        inl (
            rw (← same) (record {
              account = account;
              linked = linked;
              owner = found;
              old = refl;
              same_users = refl;
              same_accounts = refl;
            })),
        refl,
      )

  login_outcome :
      (p : Platform) (identity : Identity) (w : Worlds) (o : Option Account)
      (result : CallbackResult)
      → find_by_provider_external_id Accounts p identity.external_id w.accounts ≡ o
      → let answer = login_or_create Users Accounts outside draws now p identity w o in
        answer.1 ≡ ok result
        → AnsweredFor Users Accounts outside draws now p w answer.0 identity result
          × (answer.0.states ≡ w.states)
  unfolding resolve_or_create_user
  login_outcome p identity w (some account) result linked h =
      owner_outcome p identity w account _ result linked refl h
  login_outcome p identity w none result linked h =
      link_outcome p identity w _ result linked
        (λ user.
          resolved_outcome identity user w
            (email_owner Users Accounts outside draws now identity w.users) refl)
        h

  pub exchanged_outcome :
      (p : Platform) (w : Worlds) (x : Exchange) (result : CallbackResult)
      → let answer = exchanged Users Accounts outside draws now p w x in
        answer.1 ≡ ok result
        → (identity : Identity) × (x ≡ identified identity)
          × (identity.provider ≡ p)
          × AnsweredFor Users Accounts outside draws now p w answer.0 identity result
          × (answer.0.states ≡ w.states)
  unfolding exchanged
  exchanged_outcome p w (integration_error status b) result h = cc
  exchanged_outcome p w (social_auth_error e) result h = cc
  exchanged_outcome p w other_error result h = cc
  exchanged_outcome p w (identified identity) result h =
      elim (Bool-cases (identity.provider == p)) [
        | inl e ↦
            let (answered, states) = login_outcome p identity w _ result refl (rw e at h) in
            (identity, refl, (position_iff identity.provider p).0 e, rw e answered, rw e states)
        | inr e ↦ let no : _ ≡ ok result = rw e at h in absurd (ground arith)
      ]
