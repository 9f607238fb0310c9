-- ===== src/Accounts/Flows/Reauth.antt =====
-- What an answered callback of a reconnection means.
use clutch.Prelude.{
  ℕ, ◌≡◌, refl, sym, ap, subst, String, true, Option, none, some, ◌==◌, arith, Bool-cases, inl, inr,
  string_eq, eq_iff,
}
use clutch.Database.Table.{Table}
use clutch.Accounts.Types.{Platform, Account, conflicts}
use clutch.Accounts.Repository.{find_by_user_provider}
use clutch.Accounts.Service.{Reason}
use clutch.Accounts.Connect.{connect_external_identity}
use clutch.Accounts.Ownership.{AgreesElsewhere}
use clutch.Accounts.Flows.State.{reauth, ConnectionPayload}
use clutch.Accounts.Flows.Service.{
  ConnectionOutside, ConnectionDraws, ConnectionCallback, ConnectionResult, ConnectionWorld,
  complete_oauth_callback,
}
use clutch.Accounts.Flows.Link.{
  oauth_input, result_of, linked_reply, is_needs_reauth, reauth_account, is_expected, reauth_proved,
  complete_reauth_for, complete_reauth,
}
use clutch.Accounts.Flows.Passing.{HasPassed, complete_oauth_callback-HasPassed}
use clutch.Providers.Types.{Failure, Result, ok, err}
use clutch.Social.Types.{Identity}
use clutch.Accounts.Flows.Outcome.{IsConnected, linked_outcome}

module _ (Accounts : Table conflicts) (outside : ConnectionOutside) (draws : ConnectionDraws)
    (now : ℕ) where
  open outside use {env}

  abbrev World : Type 0
  World = ConnectionWorld Accounts

  -- A callback of a reconnection passed; the state expected this very identity, which is that of the
  -- account that the user still had with the provider, in need of it.
  pub record IsReconnected (input : ConnectionCallback) (w w' : World) (result : ConnectionResult)
      : Type 0 where
    pub payload : ConnectionPayload
    pub passed_world : World
    pub passed :
        HasPassed Accounts outside draws now result.provider reauth input w passed_world payload
          result.external_id
    pub expected : payload.expected_external_id ≡ some result.external_id
    pub account : Account
    pub found :
        find_by_user_provider Accounts payload.user_id result.provider w.accounts ≡ some account
    pub same_identity : account.external_id ≡ result.external_id
    pub broken : is_needs_reauth Accounts outside draws now account.status ≡ true
    pub same_type : result.connection_type ≡ account.connection_type
    pub connected : IsConnected Accounts outside draws now payload.user_id w w' result

  -- The callback of a reconnection has passed for a provider, with an identity.
  record IsProved (p : Platform) (input : ConnectionCallback) (w w1 : World) (identity : Identity)
      (payload : ConnectionPayload) : Type 0 where
    passed : HasPassed Accounts outside draws now p reauth input w w1 payload identity.external_id
    expected : payload.expected_external_id ≡ some identity.external_id

  reconnected :
      (p : Platform) (input : ConnectionCallback) (w w1 : World) (identity : Identity)
      (payload : ConnectionPayload) (account : Account) (result : ConnectionResult)
      → IsProved p input w w1 identity payload
      → find_by_user_provider Accounts payload.user_id p w1.accounts ≡ some account
      → account.external_id ≡ identity.external_id
      → is_needs_reauth Accounts outside draws now account.status ≡ true
      → let request =
          oauth_input Accounts outside draws now payload.user_id p account.connection_type
            account.data_source identity in
        let c = connect_external_identity Accounts draws.connecting request w1.accounts in
        let r = linked_reply Accounts outside draws now (λ e. Failure.thrown) request w1 c in
        r.1 ≡ ok result → IsReconnected input w r.0 result
  reconnected p input w w1 identity payload account result proved found same broken h =
      let request =
        oauth_input Accounts outside draws now payload.user_id p account.connection_type
          account.data_source identity in
      let (connected, is_result) =
        linked_outcome Accounts outside draws now (λ e. Failure.thrown) request w1 result h in
      let c = connect_external_identity Accounts draws.connecting request w1.accounts in
      let after = (linked_reply Accounts outside draws now (λ e. Failure.thrown) request w1 c).0 in
      let made = result_of Accounts outside draws now request in
      let here : IsConnected Accounts outside draws now payload.user_id w1 after made =
        subst (λ x. IsConnected Accounts outside draws now payload.user_id w1 after x)
          (sym is_result) connected in
      let accounts = proved.passed.same_accounts in
      rw (← is_result) (record {
        payload = payload;
        passed_world = w1;
        passed = proved.passed;
        expected = proved.expected;
        account = account;
        found = rw (← accounts) found;
        same_identity = same;
        broken = broken;
        same_type = refl;
        connected = record {
          owned = here.owned;
          others_kept =
              subst (λ db. AgreesElsewhere Accounts payload.user_id p db after.accounts) accounts
                here.others_kept;
        };
      })

  account_outcome :
      (p : Platform) (input : ConnectionCallback) (w w1 : World) (identity : Identity)
      (payload : ConnectionPayload) (o : Option Account) (result : ConnectionResult)
      → IsProved p input w w1 identity payload
      → find_by_user_provider Accounts payload.user_id p w1.accounts ≡ o
      → let r = reauth_account Accounts outside draws now p identity payload w1 o in
        r.1 ≡ ok result → IsReconnected input w r.0 result
  unfolding reauth_account
  account_outcome p input w w1 identity payload none result proved found h = cc
  account_outcome p input w w1 identity payload (some account) result proved found h =
      elim (Bool-cases (account.external_id == identity.external_id)) [
        | inr e ↦ let no : _ ≡ ok result = rw e at h in absurd (ground arith)
        | inl e ↦ elim (Bool-cases (is_needs_reauth Accounts outside draws now account.status)) [
          | inr f ↦ let no : _ ≡ ok result = rw (e, f) at h in absurd (ground arith)
          | inl f ↦
              rw (e, f)
                (reconnected p input w w1 identity payload account result proved found
                  ((eq_iff account.external_id identity.external_id).0 e) f (rw (e, f) at h))
        ]
      ]

  expected_lem :
      (identity : Identity) (o : Option String)
      → is_expected Accounts outside draws now identity o ≡ true
      → o ≡ some identity.external_id
  expected_lem identity none h = cc
  expected_lem identity (some expected) h =
      let same : (identity.external_id == expected) ≡ true = ground arith in
      ap some (sym ((eq_iff identity.external_id expected).0 same))

  proved_outcome :
      (p : Platform) (input : ConnectionCallback) (w : World)
      (r : World × Result Reason (Identity × ConnectionPayload)) (result : ConnectionResult)
      → ((identity : Identity) (payload : ConnectionPayload)
          → r.1 ≡ ok (identity, payload)
          → HasPassed Accounts outside draws now p reauth input w r.0 payload identity.external_id)
      → let answer = reauth_proved Accounts outside draws now p r in
        answer.1 ≡ ok result → IsReconnected input w answer.0 result
  proved_outcome p input w (w1, err e) result passed h = cc
  proved_outcome p input w (w1, ok (identity, payload)) result passed h =
      elim (Bool-cases
        (is_expected Accounts outside draws now identity payload.expected_external_id)) [
          | inr e ↦ let no : _ ≡ ok result = rw e at h in absurd (ground arith)
          | inl e ↦ rw e (
              account_outcome p input w w1 identity payload _ result
                (record {
                  passed = passed identity payload refl;
                  expected = expected_lem identity payload.expected_external_id e;
                })
                refl (rw e at h))
        ]

  named_reauth :
      (input : ConnectionCallback) (w : World) (n : Result Reason Platform)
      (result : ConnectionResult)
      → let answer = complete_reauth_for Accounts outside draws now input w n in
        answer.1 ≡ ok result → IsReconnected input w answer.0 result
  named_reauth input w (err e) result h = cc
  named_reauth input w (ok p) result h =
      proved_outcome p input w (complete_oauth_callback Accounts outside draws now p reauth input w)
        result (complete_oauth_callback-HasPassed Accounts outside draws now p reauth input w) h

  -- An account is reconnected only on a callback with a state that is genuine (signed under the secret in
  -- use, for a reconnection with this provider, and not older than ten minutes) and not spent, and only if
  -- the id that the provider has given, when asked with the callback's code and the verifier kept under
  -- the state, is the one that the state expects and that of the account which the user still has with the
  -- provider, in need of reconnection. The answer gives that id and that account's type; the id, trimmed,
  -- is then theirs and no one else's, and every row but their own with this provider is as it was.
  pub complete_reauth_ok :
      (input : ConnectionCallback) (w : World) (result : ConnectionResult)
      → let answer = complete_reauth Accounts outside draws now input w in
        answer.1 ≡ ok result → IsReconnected input w answer.0 result
  unfolding complete_reauth
  complete_reauth_ok input w result h = named_reauth input w _ result h
