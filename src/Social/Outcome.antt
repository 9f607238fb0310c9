-- ===== src/Social/Outcome.antt =====
-- What an answered callback says.
use clutch.Prelude.{
  ℕ, ◌≡◌, inl, inr, refl, sym, ap, ◌∙◌, String, Bool, true, false, Option, none, some, is_some,
  arith, Bool-cases, string_eq,
}
use clutch.Database.Table.{Table}
use clutch.Accounts.Types.{Platform, conflicts, platform_eq}
use clutch.OAuth.StateStore.{States, consume}
use clutch.Providers.Types.{Result, ok, err}
use clutch.Providers.Names.{SocialReason, normalize_social_auth_provider}
use clutch.Social.Types.{Identity, StatePayload, user_conflicts, CallbackInput, CallbackResult}
use clutch.Social.State.{verify_state_value}
use clutch.Social.Usernames.{given}
use clutch.Social.Service.{
  Outside, Draws, World, consumed, with_payload, with_code, with_input, callback_for,
  complete_callback,
}
use clutch.Social.Answers.{IsAuthentic, AnsweredFor}
use clutch.Social.Linking.{exchanged_outcome}

module _ (Users : Table user_conflicts) (Accounts : Table conflicts) (outside : Outside)
    (draws : Draws) (now : ℕ) where
  open outside use {env, codec, nfkd, exchange}

  abbrev Worlds : Type 0
  Worlds = World Users Accounts

  consumed_outcome :
      (input : CallbackInput) (p : Platform) (code state : String) (payload : StatePayload)
      (w : Worlds) (c : States × Bool) (result : CallbackResult)
      → normalize_social_auth_provider env.registry input.provider ≡ ok p
      → given input.code ≡ some code
      → given input.state ≡ some state
      → verify_state_value env codec now state p ≡ ok payload
      → consume now state w.states ≡ c
      → let answer = consumed Users Accounts outside draws now p code w c in
        answer.1 ≡ ok result
        → (identity : Identity) × (authentic : IsAuthentic Users Accounts outside draws now input w
            answer.0 identity)
          × AnsweredFor Users Accounts outside draws now authentic.provider w answer.0 identity
              result
  consumed_outcome input p code state payload w (states, false) result n hc hs v e h = cc
  consumed_outcome input p code state payload w (states, true) result n hc hs v e h =
      let w1 : Worlds = record w { states = states } in
      let (identity, answers, of_provider, answered, kept) =
        exchanged_outcome Users Accounts outside draws now p w1 (exchange p code) result h in
      (
        identity,
        record {
          provider = p;
          code = code;
          state = state;
          payload = payload;
          named = n;
          has_code = hc;
          has_state = hs;
          genuine = v;
          unspent = ap (λ c. c.1) e;
          spent = kept ∙ sym (ap (λ c. c.0) e);
          answers = answers;
          of_provider = of_provider;
        },
        elim answered [
          | inl owner ↦ inl (record {
            account = owner.account;
            linked = owner.linked;
            owner = owner.owner;
            old = owner.old;
            same_users = owner.same_users;
            same_accounts = owner.same_accounts;
          })
          | inr new ↦ inr (record {
            unlinked = new.unlinked;
            address_free = new.address_free;
            created_user = new.created_user;
            new = new.new;
            owned = new.owned;
            others_kept = new.others_kept;
          })
        ],
      )

  code_outcome :
      (input : CallbackInput) (p : Platform) (code state : String) (w : Worlds)
      (r : Result SocialReason StatePayload) (result : CallbackResult)
      → normalize_social_auth_provider env.registry input.provider ≡ ok p
      → given input.code ≡ some code
      → given input.state ≡ some state
      → verify_state_value env codec now state p ≡ r
      → let answer = with_payload Users Accounts outside draws now p code state w r in
        answer.1 ≡ ok result
        → (identity : Identity) × (authentic : IsAuthentic Users Accounts outside draws now input w
            answer.0 identity)
          × AnsweredFor Users Accounts outside draws now authentic.provider w answer.0 identity
              result
  code_outcome input p code state w (err e) result n hc hs v h = cc
  code_outcome input p code state w (ok payload) result n hc hs v h =
      consumed_outcome input p code state payload w _ result n hc hs v refl h

  input_outcome :
      (input : CallbackInput) (p : Platform) (w : Worlds) (c s : Option String)
      (result : CallbackResult)
      → normalize_social_auth_provider env.registry input.provider ≡ ok p
      → given input.code ≡ c
      → given input.state ≡ s
      → let answer = with_input Users Accounts outside draws now p c s w in
        answer.1 ≡ ok result
        → (identity : Identity) × (authentic : IsAuthentic Users Accounts outside draws now input w
            answer.0 identity)
          × AnsweredFor Users Accounts outside draws now authentic.provider w answer.0 identity
              result
  unfolding with_code
  input_outcome input p w none s result n hc hs h = cc
  input_outcome input p w (some code) none result n hc hs h = cc
  input_outcome input p w (some code) (some state) result n hc hs h =
      code_outcome input p code state w _ result n hc hs refl h

  named_callback_outcome :
      (input : CallbackInput) (w : Worlds) (r : Result SocialReason Platform)
      (result : CallbackResult)
      → normalize_social_auth_provider env.registry input.provider ≡ r
      → let answer = callback_for Users Accounts outside draws now input w r in
        answer.1 ≡ ok result
        → (identity : Identity) × (authentic : IsAuthentic Users Accounts outside draws now input w
            answer.0 identity)
          × AnsweredFor Users Accounts outside draws now authentic.provider w answer.0 identity
              result
  named_callback_outcome input w (err e) result n h = cc
  named_callback_outcome input w (ok p) result n h =
      elim (Bool-cases (is_some (given input.provider_error))) [
        | inl e ↦ let no : _ ≡ ok result = rw e at h in absurd (ground arith)
        | inr e ↦ rw e (input_outcome input p w _ _ result n refl refl (rw e at h))
      ]

  -- A callback logs a user in only on a state that is genuine, of the provider, fresh and not spent, which
  -- is spent thereby, and only for the identity that the provider gives for the code. Either that identity
  -- was linked before, the user is the one it was linked to, and neither users nor accounts change; or it
  -- was not linked, no user had its verified address, the user is one who has just been created, the
  -- identity is now theirs and no one else's, and no other account has changed.
  pub complete_callback_ok :
      (input : CallbackInput) (w : Worlds) (result : CallbackResult)
      → let answer = complete_callback Users Accounts outside draws now input w in
        answer.1 ≡ ok result
        → (identity : Identity) × (authentic : IsAuthentic Users Accounts outside draws now input w
            answer.0 identity)
          × AnsweredFor Users Accounts outside draws now authentic.provider w answer.0 identity
              result
  unfolding complete_callback
  complete_callback_ok input w result h = named_callback_outcome input w _ result refl h
