-- ===== src/Accounts/Flows/Outcome.antt =====
-- What an answered callback of a connection means.
use clutch.Prelude.{
  ℕ, ◌≡◌, refl, sym, ap, ◌∙◌, subst, String, Option, none, some, arith, Bool-cases, inl, inr,
  string_eq,
}
use clutch.Prelude.Text.{trim}
use clutch.Database.Table.{Table}
use clutch.Accounts.Types.{Platform, steam, DataSource, conflicts}
use clutch.Accounts.Repository.{find_by_user_provider}
use clutch.Accounts.Service.{Reason}
use clutch.Accounts.Connect.{
  ConnectInput, ConnectError, Connected, done, failed, connect_external_identity,
  find_by_provider_external_id,
}
use clutch.Accounts.Ownership.{IsOwned, AgreesElsewhere, connect_external_identity_outcome}
use clutch.Accounts.Flows.State.{link, ConnectionPayload}
use clutch.Accounts.Flows.Service.{
  ConnectionOutside, ConnectionDraws, ConnectionCallback, ConnectionResult, ConnectionWorld,
  complete_oauth_callback, complete_steam_open_id_callback,
}
use clutch.Accounts.Flows.Link.{
  steam_input, link_type, oauth_input, link_error, result_of, linked_reply, is_foreign, is_other,
  link_identity, link_with, link_steam, link_oauth, complete_steam_for, complete_oauth_for,
  complete_link_for, complete_link,
}
use clutch.Accounts.Flows.Passing.{
  HasPassed, complete_oauth_callback-HasPassed, complete_steam-HasPassed,
}
use clutch.Providers.Types.{Failure, Result, ok, err}
use clutch.Providers.Names.{is_steam}
use clutch.Social.Types.{Identity}

module _ (Accounts : Table conflicts) (outside : ConnectionOutside) (draws : ConnectionDraws)
    (now : ℕ) where
  open outside use {env}

  abbrev World : Type 0
  World = ConnectionWorld Accounts

  -- The identity is the user's and no one else's, and no other account has changed.
  pub record IsConnected (user : String) (w w' : World) (result : ConnectionResult) : Type 0 where
    pub owned : IsOwned Accounts user result.provider (trim result.external_id) w'.accounts
    pub others_kept : AgreesElsewhere Accounts user result.provider w.accounts w'.accounts

  reply_outcome :
      (on_error : ConnectError → Failure Reason) (input : ConnectInput) (w : World)
      (c : Accounts.T × Connected) (result : ConnectionResult)
      → let r = linked_reply Accounts outside draws now on_error input w c in
        r.1 ≡ ok result
        → (c.1 ≡ done)
          × (result_of Accounts outside draws now input ≡ result)
          × (r.0.accounts ≡ c.0)
  reply_outcome on_error input w (db, failed e) result h = cc
  reply_outcome on_error input w (db, done) result h = (refl, cc, refl)

  pub linked_outcome :
      (on_error : ConnectError → Failure Reason) (input : ConnectInput) (w : World)
      (result : ConnectionResult)
      → let c = connect_external_identity Accounts draws.connecting input w.accounts in
        let r = linked_reply Accounts outside draws now on_error input w c in
        r.1 ≡ ok result
        → IsConnected input.user_id w r.0 result
          × (result_of Accounts outside draws now input ≡ result)
  linked_outcome on_error input w result h =
      let c = connect_external_identity Accounts draws.connecting input w.accounts in
      let (is_done, same, world) = reply_outcome on_error input w c result h in
      elim (connect_external_identity_outcome Accounts draws.connecting input w.accounts) [
        | inr (e, refused) ↦
            let no : failed e ≡ done = sym (ap (λ r. r.1) refused) ∙ is_done in
            absurd (ground arith)
        | inl (_, owned, agrees) ↦
            (rw (← same) (record { owned = rw world owned; others_kept = rw world agrees }), same)
      ]

  identity_outcome :
      (input : ConnectInput) (w : World) (result : ConnectionResult)
      → let r = link_identity Accounts outside draws now input w in
        r.1 ≡ ok result
        → IsConnected input.user_id w r.0 result
          × (result_of Accounts outside draws now input ≡ result)
  unfolding link_identity
  identity_outcome input w result h =
      let foreign =
        is_foreign Accounts outside draws now input.user_id
          (find_by_provider_external_id Accounts input.provider input.external_id w.accounts) in
      let other =
        is_other Accounts outside draws now input.external_id
          (find_by_user_provider Accounts input.user_id input.provider w.accounts) in
      elim (Bool-cases foreign) [
        | inl e ↦ let no : _ ≡ ok result = rw e at h in absurd (ground arith)
        | inr e ↦ elim (Bool-cases other) [
          | inl f ↦ let no : _ ≡ ok result = rw (e, f) at h in absurd (ground arith)
          | inr f ↦
              rw (e, f)
                (linked_outcome (link_error Accounts outside draws now input.provider) input w
                  result (rw (e, f) at h))
        ]
      ]

  -- The link is the state's user's, whose callback has passed.
  pub record IsLinked (input : ConnectionCallback) (w w' : World) (result : ConnectionResult)
      : Type 0 where
    pub payload : ConnectionPayload
    pub passed_world : World
    pub passed :
        HasPassed Accounts outside draws now result.provider link input w passed_world payload
          result.external_id
    pub connected : IsConnected payload.user_id w w' result

  -- A link for a callback that has passed, from the world that the callback has left.
  after_pass :
      (p : Platform) (input : ConnectionCallback) (w w1 : World) (payload : ConnectionPayload)
      (id : String) (make : DataSource → ConnectInput) (o : Option DataSource)
      (result : ConnectionResult)
      → HasPassed Accounts outside draws now p link input w w1 payload id
      → ((source : DataSource) → (make source).user_id ≡ payload.user_id)
      → ((source : DataSource) → (make source).provider ≡ p)
      → ((source : DataSource) → (make source).external_id ≡ id)
      → let r = link_with Accounts outside draws now make w1 o in
        r.1 ≡ ok result → IsLinked input w r.0 result
  after_pass p input w w1 payload id make none result passed user provider has_id h = cc
  after_pass p input w w1 payload id make (some source) result passed user provider has_id h =
      let (connected, same) = identity_outcome (make source) w1 result h in
      let platform : p ≡ result.provider =
        sym (provider source) ∙ ap (λ (r : ConnectionResult). r.provider) same in
      let identity : id ≡ result.external_id =
        sym (has_id source) ∙ ap (λ (r : ConnectionResult). r.external_id) same in
      record {
        payload = payload;
        passed_world = w1;
        passed =
            subst
              (λ x. HasPassed Accounts outside draws now result.provider link input w w1 payload x)
              identity
              (subst (λ q. HasPassed Accounts outside draws now q link input w w1 payload id)
                platform passed);
        connected = record {
          owned = rw (← user source) connected.owned;
          others_kept =
              subst
                (λ db.
                  AgreesElsewhere Accounts payload.user_id result.provider db
                    (link_with Accounts outside draws now make w1 (some source)).0.accounts)
                passed.same_accounts (rw (← user source) connected.others_kept);
        };
      }

  steam_outcome :
      (input : ConnectionCallback) (w : World) (result : ConnectionResult)
      (r : World × Result Reason (String × ConnectionPayload))
      → ((id : String) (payload : ConnectionPayload)
          → r.1 ≡ ok (id, payload)
          → HasPassed Accounts outside draws now steam link input w r.0 payload id)
      → let answer = link_steam Accounts outside draws now r in
        answer.1 ≡ ok result → IsLinked input w answer.0 result
  steam_outcome input w result (w1, err e) passed h = cc
  steam_outcome input w result (w1, ok (id, payload)) passed h =
      after_pass steam input w w1 payload id
        (steam_input Accounts outside draws now payload.user_id id) _ result
        (passed id payload refl) (λ source. refl) (λ source. refl) (λ source. refl) h

  oauth_outcome :
      (p : Platform) (input : ConnectionCallback) (w : World) (result : ConnectionResult)
      (r : World × Result Reason (Identity × ConnectionPayload))
      → ((identity : Identity) (payload : ConnectionPayload)
          → r.1 ≡ ok (identity, payload)
          → HasPassed Accounts outside draws now p link input w r.0 payload identity.external_id)
      → let answer = link_oauth Accounts outside draws now p r in
        answer.1 ≡ ok result → IsLinked input w answer.0 result
  oauth_outcome p input w result (w1, err e) passed h = cc
  oauth_outcome p input w result (w1, ok (identity, payload)) passed h =
      after_pass p input w w1 payload identity.external_id
        (λ source.
          oauth_input Accounts outside draws now payload.user_id p
            (link_type Accounts outside draws now p) source identity)
        _ result (passed identity payload refl) (λ source. refl) (λ source. refl) (λ source. refl) h

  named_steam :
      (input : ConnectionCallback) (w : World) (n : Result Reason Platform)
      (result : ConnectionResult)
      → let answer = complete_steam_for Accounts outside draws now input w n in
        answer.1 ≡ ok result → IsLinked input w answer.0 result
  named_steam input w (err e) result h = cc
  named_steam input w (ok p) result h =
      steam_outcome input w result
        (complete_steam_open_id_callback Accounts outside draws now input w)
        (complete_steam-HasPassed Accounts outside draws now input w) h

  named_oauth :
      (input : ConnectionCallback) (w : World) (n : Result Reason Platform)
      (result : ConnectionResult)
      → let answer = complete_oauth_for Accounts outside draws now input w n in
        answer.1 ≡ ok result → IsLinked input w answer.0 result
  named_oauth input w (err e) result h = cc
  named_oauth input w (ok p) result h =
      oauth_outcome p input w result
        (complete_oauth_callback Accounts outside draws now p link input w)
        (complete_oauth_callback-HasPassed Accounts outside draws now p link input w) h

  named_link :
      (input : ConnectionCallback) (w : World) (n : Result Reason Platform)
      (result : ConnectionResult)
      → let answer = complete_link_for Accounts outside draws now input w n in
        answer.1 ≡ ok result → IsLinked input w answer.0 result
  named_link input w (err e) result h = cc
  named_link input w (ok p) result h = elim (Bool-cases (is_steam p)) [
    | inl e ↦ rw e (named_steam input w _ result (rw e at h))
    | inr e ↦ rw e (named_oauth input w _ result (rw e at h))
  ]

  -- An account is linked only on a callback with a state that is genuine (signed under the secret in use,
  -- for a link with this provider, and not older than ten minutes) and not spent; to the user that the
  -- state names; and with the very id that the provider has given, when asked with the callback's code
  -- and the verifier kept under the state, or that Steam has confirmed for the callback's parameters.
  -- Afterwards the id, trimmed, is theirs and no one else's, and every row but their own with this
  -- provider is as it was.
  pub complete_link_ok :
      (input : ConnectionCallback) (w : World) (result : ConnectionResult)
      → let answer = complete_link Accounts outside draws now input w in
        answer.1 ≡ ok result → IsLinked input w answer.0 result
  unfolding complete_link
  complete_link_ok input w result h = named_link input w _ result h
