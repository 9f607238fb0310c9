-- ===== src/Accounts/Flows/Passing.antt =====
-- Which callbacks of a connection pass.
use clutch.Prelude.{
  ℕ, ◌≡◌, ◌⊎◌, refl, sym, ap, ◌∙◌, String, Bool, true, false, Option, none, some, List, is_some,
  arith, Bool-cases, inl, inr, ◌==◌, if◌then◌else◌,
}
use clutch.Database.Table.{Table}
use clutch.Accounts.Types.{Platform, steam, conflicts, platform_eq, position_iff}
use clutch.Accounts.Service.{Reason}
use clutch.Accounts.Flows.State.{Mode, link, ConnectionPayload, verify_connection_state}
use clutch.Accounts.Flows.Genuine.{IsGenuineConnection, verify_connection_state_iff}
use clutch.Accounts.Flows.Service.{
  Asked, answers, integration_error, own_error, other_error, ConnectionOutside, ConnectionDraws,
  ConnectionCallback, ConnectionWorld, present, is_myanimelist, asked_identity, with_verifier,
  spent, checked_state, with_code_and_state, complete_oauth_callback, asked_steam, spent_steam,
  checked_steam_state, with_steam_state, complete_steam_open_id_callback,
}
use clutch.OAuth.StateStore as StateStore
use clutch.OAuth.PkceStore as PkceStore
use clutch.Providers.Types.{Result, ok, err}
use clutch.Social.Types.{Identity}

module _ (Accounts : Table conflicts) (outside : ConnectionOutside) (draws : ConnectionDraws)
    (now : ℕ) where
  open outside use {env, codec, exchange, verify_steam}

  abbrev World : Type 0
  World = ConnectionWorld Accounts

  -- The PKCE verifier that is kept under the state, which only MyAnimeList has.
  abbrev verifier_of : Platform → String → World → Option String
  verifier_of p state w =
      if is_myanimelist p then (PkceStore.consume now state w.verifiers).1 else none

  -- The provider, asked with the callback's code and the verifier of its state, has answered with an
  -- identity of its own that has this id.
  pub record GaveIdentity (p : Platform) (mode : Mode) (input : ConnectionCallback) (state : String)
      (w : World) (external_id : String) : Type 0 where
    pub code : String
    pub has_code : present input.code ≡ some code
    pub has_verifier : is_myanimelist p ≡ true → is_some (present (verifier_of p state w)) ≡ true
    pub identity : Identity
    pub asked : exchange p mode code (verifier_of p state w) ≡ answers identity
    pub of_provider : identity.provider ≡ p
    pub has_id : identity.external_id ≡ external_id

  -- Steam, which can be linked only, has confirmed the parameters of the callback for this id.
  abbrev pub SteamConfirmed : Platform → Mode → ConnectionCallback → String → String → Type 0
  SteamConfirmed p mode input state external_id =
      (p ≡ steam) × (mode ≡ link) × (verify_steam input.open_id_params state ≡ answers external_id)

  -- The callback bears a state that is genuine, for the provider and the mode, fresh and not spent, and
  -- which is spent thereby; the provider has answered for it with the id; no account is touched.
  pub record HasPassed (p : Platform) (mode : Mode) (input : ConnectionCallback) (w w' : World)
      (payload : ConnectionPayload) (external_id : String) : Type 0 where
    pub state : String
    pub has_state : present input.state ≡ some state
    pub genuine : IsGenuineConnection env codec now state p mode payload
    pub unspent : (StateStore.consume now state w.states).1 ≡ true
    pub state_gone : w'.states ≡ (StateStore.consume now state w.states).0
    pub proved :
        GaveIdentity p mode input state w external_id
        ⊎ SteamConfirmed p mode input state external_id
    pub same_accounts : w'.accounts ≡ w.accounts

  asked_outcome :
      (p : Platform) (payload : ConnectionPayload) (w : World) (x : Asked Identity)
      (identity : Identity) (payload' : ConnectionPayload)
      → let r = asked_identity Accounts outside draws now p payload w x in
        r.1 ≡ ok (identity, payload')
        → (payload ≡ payload') × (r.0 ≡ w) × (x ≡ answers identity) × (identity.provider ≡ p)
  asked_outcome p payload w (integration_error status b) identity payload' h = cc
  asked_outcome p payload w (own_error e) identity payload' h = cc
  asked_outcome p payload w other_error identity payload' h = cc
  asked_outcome p payload w (answers x) identity payload' h = elim (Bool-cases (x.provider == p)) [
    | inl e ↦
        let at : ok (x, payload) ≡ ok (identity, payload') = rw e at h in
        let same : x ≡ identity = cc in
        rw e (
          cc,
          refl,
          ap answers same,
          ap (λ y. y.provider) (sym same) ∙ (position_iff x.provider p).0 e,
        )
    | inr e ↦ let no : _ ≡ ok (identity, payload') = rw e at h in absurd (ground arith)
  ]

  verifier_outcome :
      (p : Platform) (mode : Mode) (code : String) (payload : ConnectionPayload) (w : World)
      (c : PkceStore.Verifiers × Option String) (identity : Identity) (payload' : ConnectionPayload)
      → let r = with_verifier Accounts outside draws now p mode code payload w c in
        r.1 ≡ ok (identity, payload')
        → (payload ≡ payload')
          × (r.0.states ≡ w.states)
          × (r.0.accounts ≡ w.accounts)
          × (is_some (present c.1) ≡ true)
          × (exchange p mode code c.1 ≡ answers identity)
          × (identity.provider ≡ p)
  verifier_outcome p mode code payload w (verifiers, v) identity payload' h =
      elim (Bool-cases (is_some (present v))) [
        | inl e ↦
            let w1 : World = record w { verifiers = verifiers } in
            let (same, world, asked, provider) =
              asked_outcome p payload w1 (exchange p mode code v) identity payload' (rw e at h) in
            rw e (
              same,
              ap (λ (x : World). x.states) world,
              ap (λ (x : World). x.accounts) world,
              refl,
              asked,
              provider,
            )
        | inr e ↦ let no : _ ≡ ok (identity, payload') = rw e at h in absurd (ground arith)
      ]

  -- What the provider has said when the state is spent.
  abbrev Said : Platform → Mode → String → String → World → Identity → Type 0
  Said p mode code state w identity =
      (is_myanimelist p ≡ true → is_some (present (verifier_of p state w)) ≡ true)
      × (exchange p mode code (verifier_of p state w) ≡ answers identity)
      × (identity.provider ≡ p)

  spent_outcome :
      (p : Platform) (mode : Mode) (code state : String) (payload : ConnectionPayload) (w : World)
      (c : StateStore.States × Bool) (identity : Identity) (payload' : ConnectionPayload)
      → let r = spent Accounts outside draws now p mode code state payload w c in
        r.1 ≡ ok (identity, payload')
        → (payload ≡ payload')
          × (c.1 ≡ true)
          × (r.0.states ≡ c.0)
          × (r.0.accounts ≡ w.accounts)
          × Said p mode code state w identity
  spent_outcome p mode code state payload w (states, false) identity payload' h = cc
  spent_outcome p mode code state payload w (states, true) identity payload' h =
      let w1 : World = record w { states = states } in
      elim (Bool-cases (is_myanimelist p)) [
        | inl e ↦
            let (same, states_kept, accounts_kept, inked, asked, provider) =
              verifier_outcome p mode code payload w1 (PkceStore.consume now state w.verifiers)
                identity payload' (rw e at h) in
            rw e (same, refl, states_kept, accounts_kept, (λ m. inked, asked, provider))
        | inr e ↦
            let (same, world, asked, provider) =
              asked_outcome p payload w1 (exchange p mode code none) identity payload'
                (rw e at h) in
            rw e (
              same,
              refl,
              ap (λ (x : World). x.states) world,
              ap (λ (x : World). x.accounts) world,
              (λ m. cc, asked, provider),
            )
      ]

  checked_outcome :
      (p : Platform) (mode : Mode) (input : ConnectionCallback) (code state : String) (w : World)
      (v : Result Reason ConnectionPayload) (identity : Identity) (payload : ConnectionPayload)
      → present input.code ≡ some code
      → present input.state ≡ some state
      → verify_connection_state env codec now state p mode ≡ v
      → let r = checked_state Accounts outside draws now p mode code state w v in
        r.1 ≡ ok (identity, payload) → HasPassed p mode input w r.0 payload identity.external_id
  checked_outcome p mode input code state w (err e) identity payload hc hs v h = cc
  checked_outcome p mode input code state w (ok payload') identity payload hc hs v h =
      let (same, unspent, gone, kept, (verifier, asked, provider)) =
        spent_outcome p mode code state payload' w (StateStore.consume now state w.states) identity
          payload h in
      record {
        state = state;
        has_state = hs;
        genuine =
            (verify_connection_state_iff env codec now state p mode payload).0 (v ∙ ap ok same);
        unspent = unspent;
        state_gone = gone;
        proved = inl (record {
          code = code;
          has_code = hc;
          has_verifier = verifier;
          identity = identity;
          asked = asked;
          of_provider = provider;
          has_id = refl;
        });
        same_accounts = kept;
      }

  code_and_state_outcome :
      (p : Platform) (mode : Mode) (input : ConnectionCallback) (w : World) (c s : Option String)
      (identity : Identity) (payload : ConnectionPayload)
      → present input.code ≡ c
      → present input.state ≡ s
      → let r = with_code_and_state Accounts outside draws now p mode c s w in
        r.1 ≡ ok (identity, payload) → HasPassed p mode input w r.0 payload identity.external_id
  code_and_state_outcome p mode input w none s identity payload hc hs h = cc
  code_and_state_outcome p mode input w (some code) none identity payload hc hs h = cc
  code_and_state_outcome p mode input w (some code) (some state) identity payload hc hs h =
      checked_outcome p mode input code state w _ identity payload hc hs refl h

  pub complete_oauth_callback-HasPassed :
      (p : Platform) (mode : Mode) (input : ConnectionCallback) (w : World) (identity : Identity)
      (payload : ConnectionPayload)
      → let r = complete_oauth_callback Accounts outside draws now p mode input w in
        r.1 ≡ ok (identity, payload) → HasPassed p mode input w r.0 payload identity.external_id
  unfolding complete_oauth_callback
  complete_oauth_callback-HasPassed p mode input w identity payload h =
      elim (Bool-cases (is_some (present input.provider_error))) [
        | inl e ↦ let no : _ ≡ ok (identity, payload) = rw e at h in absurd (ground arith)
        | inr e ↦
            rw e (code_and_state_outcome p mode input w _ _ identity payload refl refl (rw e at h))
      ]

  steam_spent_outcome :
      (params : List (String × String)) (state : String) (payload : ConnectionPayload) (w : World)
      (c : StateStore.States × Bool) (id : String) (payload' : ConnectionPayload)
      → let r = spent_steam Accounts outside draws now params state payload w c in
        r.1 ≡ ok (id, payload')
        → (payload ≡ payload')
          × (c.1 ≡ true)
          × (r.0.states ≡ c.0)
          × (r.0.accounts ≡ w.accounts)
          × (verify_steam params state ≡ answers id)
  steam_spent_outcome params state payload w (states, false) id payload' h = cc
  steam_spent_outcome params state payload w (states, true) id payload' h =
      asked (verify_steam params state) refl h
    where
      asked :
          (x : Asked String)
          → verify_steam params state ≡ x
          → let r =
              asked_steam Accounts outside draws now payload (record w { states = states }) x in
            r.1 ≡ ok (id, payload')
            → (payload ≡ payload')
              × (◌≡◌ {A = Bool} true true)
              × (r.0.states ≡ states)
              × (r.0.accounts ≡ w.accounts)
              × (verify_steam params state ≡ answers id)
      asked (integration_error status b) said h = cc
      asked (own_error e) said h = cc
      asked other_error said h = cc
      asked (answers x) said h =
          let at : ok (x, payload) ≡ ok (id, payload') = h in
          let same : x ≡ id = cc in (cc, refl, refl, refl, said ∙ ap answers same)

  steam_checked_outcome :
      (input : ConnectionCallback) (state : String) (w : World)
      (v : Result Reason ConnectionPayload) (id : String) (payload : ConnectionPayload)
      → present input.state ≡ some state
      → verify_connection_state env codec now state steam link ≡ v
      → let r = checked_steam_state Accounts outside draws now input.open_id_params state w v in
        r.1 ≡ ok (id, payload) → HasPassed steam link input w r.0 payload id
  steam_checked_outcome input state w (err e) id payload hs v h = cc
  steam_checked_outcome input state w (ok payload') id payload hs v h =
      let (same, unspent, gone, kept, said) =
        steam_spent_outcome input.open_id_params state payload' w
          (StateStore.consume now state w.states) id payload h in
      record {
        state = state;
        has_state = hs;
        genuine =
            (verify_connection_state_iff env codec now state steam link payload).0 (v ∙ ap ok same);
        unspent = unspent;
        state_gone = gone;
        proved = inr (refl, refl, said);
        same_accounts = kept;
      }

  steam_state_outcome :
      (input : ConnectionCallback) (w : World) (s : Option String) (id : String)
      (payload : ConnectionPayload)
      → present input.state ≡ s
      → let r = with_steam_state Accounts outside draws now input.open_id_params s w in
        r.1 ≡ ok (id, payload) → HasPassed steam link input w r.0 payload id
  steam_state_outcome input w none id payload hs h = cc
  steam_state_outcome input w (some state) id payload hs h =
      steam_checked_outcome input state w _ id payload hs refl h

  pub complete_steam-HasPassed :
      (input : ConnectionCallback) (w : World) (id : String) (payload : ConnectionPayload)
      → let r = complete_steam_open_id_callback Accounts outside draws now input w in
        r.1 ≡ ok (id, payload) → HasPassed steam link input w r.0 payload id
  unfolding complete_steam_open_id_callback
  complete_steam-HasPassed input w id payload h =
      elim (Bool-cases (is_some (present input.provider_error))) [
        | inl e ↦ let no : _ ≡ ok (id, payload) = rw e at h in absurd (ground arith)
        | inr e ↦ rw e (steam_state_outcome input w _ id payload refl (rw e at h))
      ]
