-- ===== src/Social/Answers.antt =====
-- What an answered callback means, for the world before it and the world after.
use clutch.Prelude.{ℕ, ◌≡◌, ◌⊎◌, String, true, false, none, some, string_eq}
use clutch.Prelude.Text.{trim}
use clutch.Database.Table.{Table}
use clutch.Accounts.Types.{Platform, Account, conflicts, platform_eq}
use clutch.Accounts.Connect.{find_by_provider_external_id}
use clutch.Accounts.Ownership.{IsOwned, AgreesElsewhere}
use clutch.OAuth.StateStore.{consume}
use clutch.Providers.Types.{ok}
use clutch.Providers.Names.{normalize_social_auth_provider}
use clutch.Social.Types.{
  Identity, StatePayload, user_conflicts, CallbackInput, CallbackResult, identified,
}
use clutch.Social.State.{verify_state_value}
use clutch.Social.Usernames.{given}
use clutch.Social.Service.{Outside, Draws, World, find_by_id, email_owner}

module _ (Users : Table user_conflicts) (Accounts : Table conflicts) (outside : Outside)
    (draws : Draws) (now : ℕ) where
  open outside use {env, codec, nfkd, exchange}

  abbrev pub Worlds : Type 0
  Worlds = World Users Accounts

  -- The callback bears a state that is genuine, of its provider, fresh and not spent, and the provider
  -- gave the identity for its code.
  pub record IsAuthentic (input : CallbackInput) (w w' : Worlds) (identity : Identity)
      : Type 0 where
    pub provider : Platform
    pub code : String
    pub state : String
    pub payload : StatePayload
    pub named : normalize_social_auth_provider env.registry input.provider ≡ ok provider
    pub has_code : given input.code ≡ some code
    pub has_state : given input.state ≡ some state
    pub genuine : verify_state_value env codec now state provider ≡ ok payload
    pub unspent : (consume now state w.states).1 ≡ true
    pub spent : w'.states ≡ (consume now state w.states).0
    pub answers : exchange provider code ≡ identified identity
    pub of_provider : identity.provider ≡ provider

  -- The identity was linked before, to the user who is logged in, and nothing is written.
  pub record IsOwnerLogin (p : Platform) (w w' : Worlds) (identity : Identity)
      (result : CallbackResult) : Type 0 where
    pub account : Account
    pub linked :
        find_by_provider_external_id Accounts p identity.external_id w.accounts ≡ some account
    pub owner : find_by_id Users Accounts account.user_id w.users ≡ some result.user
    pub old : result.is_new_user ≡ false
    pub same_users : w'.users ≡ w.users
    pub same_accounts : w'.accounts ≡ w.accounts

  -- The identity was not linked, no account had its verified address, and it is linked now to the user
  -- who has been created, and to no one else.
  pub record IsRegistration (p : Platform) (w w' : Worlds) (identity : Identity)
      (result : CallbackResult) : Type 0 where
    pub unlinked : find_by_provider_external_id Accounts p identity.external_id w.accounts ≡ none
    pub address_free : email_owner Users Accounts outside draws now identity w.users ≡ none
    pub created_user : Users.create result.user w.users ≡ some w'.users
    pub new : result.is_new_user ≡ true
    pub owned : IsOwned Accounts result.user.id p (trim identity.external_id) w'.accounts
    pub others_kept : AgreesElsewhere Accounts result.user.id p w.accounts w'.accounts

  abbrev pub AnsweredFor : Platform → Worlds → Worlds → Identity → CallbackResult → Type 0
  AnsweredFor p w w' identity result =
      (IsOwnerLogin p w w' identity result) ⊎ (IsRegistration p w w' identity result)
