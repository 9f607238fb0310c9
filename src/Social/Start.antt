-- ===== src/Social/Start.antt =====
-- A login that was started can be completed.
use Prim.Native.String.{◌++◌}
use text.Mathlib.TextLemmas.{cons-append}
use clutch.Prelude.{ℕ, ◌+◌, ◌≤◌, ◌<◌, ◌≡◌, refl, ◌∙◌, String, true, false, none, some, arith}
use clutch.Prelude.Map.{IsUnique}
use clutch.Prelude.Text.{is_empty}
use clutch.Database.Table.{Table}
use clutch.Accounts.Types.{Platform, conflicts}
use clutch.OAuth.StateStore.{store, consume, consume-store}
use clutch.OAuth.Signed.{signed_state, IsEncoded}
use clutch.Providers.Types.{ok}
use clutch.Providers.Names.{normalize_social_auth_provider}
use clutch.Social.Types.{user_conflicts, StatePayload, StateCodec}
use clutch.Social.State.{
  social_state_ttl_ms, resolve_state_secret, decode_state_payload, new_payload, verify_state_value,
  create_social_oauth_state,
}
use clutch.Social.Genuine.{verify_of_genuine}
use clutch.Social.Service.{
  Outside, Draws, World, exchanged, with_code, complete_callback, start_login,
}

-- What the codec does with the payload of one login.
pub record Carries (codec : StateCodec) (secret : String) (now : ℕ) (nonce : String) (p : Platform)
    : Type 0 where
  pub decodes :
      decode_state_payload codec (codec.encode_json (new_payload now nonce p))
      ≡ some (new_payload now nonce p)
  pub payload_encoded : IsEncoded (codec.encode_json (new_payload now nonce p))
  pub signature_encoded :
      IsEncoded (codec.hmac secret (codec.encode_json (new_payload now nonce p)))

inked_append : (s t : String) → is_empty s ≡ false → is_empty (s ++ t) ≡ false
inked_append String.[] t h = cc
inked_append (String.◌∷◌ c s) t h = rw (cons-append c s t) refl

-- The state of one login.
abbrev pub login_state : StateCodec → String → ℕ → String → Platform → String
login_state codec secret now nonce p =
    signed_state codec.hmac secret (codec.encode_json (new_payload now nonce p))

module _ (Users : Table user_conflicts) (Accounts : Table conflicts) (outside : Outside)
    (draws draws' : Draws) (now later : ℕ) where
  open outside use {env, codec, authorization_url, exchange}

  -- A callback that passes the tests of its state.
  callback_passes :
      (name code state : String) (p : Platform) (payload : StatePayload) (w : World Users Accounts)
      → normalize_social_auth_provider env.registry name ≡ ok p
      → is_empty code ≡ false
      → is_empty state ≡ false
      → verify_state_value env codec later state p ≡ ok payload
      → (consume later state w.states).1 ≡ true
      → complete_callback Users Accounts outside draws' later
          (record { provider = name; code = some code; state = some state; provider_error = none })
          w
        ≡ exchanged Users Accounts outside draws' later p
            (record w { states = (consume later state w.states).0 })
            (exchange p code)
  unfolding complete_callback with_code
  callback_passes name code state p payload w named coded stated verified unspent =
      rw (named, coded, stated, verified, unspent) refl

  start_answers :
      (nonce name secret url : String) (p : Platform) (w : World Users Accounts)
      → normalize_social_auth_provider env.registry name ≡ ok p
      → resolve_state_secret env ≡ some secret
      → authorization_url p (login_state codec secret now nonce p) nonce ≡ some url
      → start_login Users Accounts outside draws now nonce name w ≡ (
        record w {
          states = store now (login_state codec secret now nonce p) social_state_ttl_ms w.states;
        },
        ok url,
      )
  unfolding start_login create_social_oauth_state
  start_answers nonce name secret url p w named known address = rw (named, known, address) refl

  login_state_inked :
      (secret nonce : String) (p : Platform)
      → Carries codec secret now nonce p
      → is_empty (login_state codec secret now nonce p) ≡ false
  unfolding signed_state
  login_state_inked secret nonce p carries =
      inked_append (codec.encode_json (new_payload now nonce p)) _ carries.payload_encoded.1

  -- A login that was started is completed: within ten minutes a callback with its state and a code passes
  -- every test of the state, so that its answer is what becomes of the provider's answer for the code, in
  -- the world that starting has left but for the state, which is spent. The provider is named, the secret
  -- and the address are there, and the codec carries the payload.
  pub complete_callback-start_login :
      (nonce name code secret url : String) (p : Platform) (w : World Users Accounts)
      → IsUnique w.states
      → normalize_social_auth_provider env.registry name ≡ ok p
      → resolve_state_secret env ≡ some secret
      → Carries codec secret now nonce p
      → now ≤ later
      → later < now + social_state_ttl_ms
      → is_empty code ≡ false
      → let state = login_state codec secret now nonce p in
        authorization_url p state nonce ≡ some url
        → let start = start_login Users Accounts outside draws now nonce name w in
          (start.1 ≡ ok url)
          × (complete_callback Users Accounts outside draws' later
                (record {
                  provider = name;
                  code = some code;
                  state = some state;
                  provider_error = none;
                })
                start.0
              ≡ exchanged Users Accounts outside draws' later p
                  (record start.0 { states = (consume later state start.0.states).0 })
                  (exchange p code))
  complete_callback-start_login nonce name code secret url p w unique named known carries after
        before coded address =
      let state = login_state codec secret now nonce p in
      let w1 : World Users Accounts = record w {
        states = store now state social_state_ttl_ms w.states;
      } in
      let genuine : verify_state_value env codec later state p ≡ ok (new_payload now nonce p) =
        verify_of_genuine env codec later state p (new_payload now nonce p) (record {
          encoded = codec.encode_json (new_payload now nonce p);
          signed = record {
            secret = secret;
            known = known;
            signed = refl;
            payload_encoded = carries.payload_encoded;
            signature_encoded = carries.signature_encoded;
          };
          decodes = carries.decodes;
          of_provider = refl;
          fresh = omega arith;
        }) in
      let unspent : (consume later state w1.states).1 ≡ true =
        consume-store now later state social_state_ttl_ms w.states unique ∙ ground arith in
      rw (start_answers nonce name secret url p w named known address) (
        refl,
        callback_passes name code state p (new_payload now nonce p) w1 named coded
            (login_state_inked secret nonce p carries) genuine unspent,
      )
