-- ===== src/Accounts/Flows/Genuine.antt =====
-- Which states of a connection are accepted.
use clutch.Prelude.{
  ℕ, ◌+◌, ◌-◌, ◌≤◌, ◌≡◌, ◌↔◌, refl, sym, ap, ◌∙◌, String, true, false, not, ◌||◌, Option, none,
  some, arith, ltb, ◌==◌, subst,
}
use clutch.Accounts.Types.{Platform, platform_eq, position_iff}
use clutch.OAuth.Signed.{
  Opened, malformed, no_secret, bad_signature, genuine, open_state, IsSigned,
  open_state-signed_state, open_state_genuine,
}
use clutch.Providers.Types.{ok}
use clutch.Accounts.Flows.State.{
  Mode, link, reauth, same_mode, ConnectionPayload, ConnectionCodec, ConnectionEnvironment,
  account_connection_state_ttl_ms, resolve_connection_secret, decode_connection_fields,
  check_connection, check_opened_connection, verify_connection_state,
}

same_mode_iff : (m n : Mode) → (same_mode m n ≡ true) ↔ (m ≡ n)
same_mode_iff link link = (λ h. refl, λ h. refl)
same_mode_iff reauth reauth = (λ h. refl, λ h. refl)
same_mode_iff link reauth = (λ h. cc, λ h. cc)
same_mode_iff reauth link = (λ h. cc, λ h. cc)

-- What makes a state of a connection genuine: the service's own signature of a payload, for the mode and
-- the provider, that is not older than ten minutes.
pub record IsGenuineConnection (env : ConnectionEnvironment) (codec : ConnectionCodec) (now : ℕ)
    (state : String) (provider : Platform) (mode : Mode) (payload : ConnectionPayload)
    : Type 0 where
  pub encoded : String
  pub signed : IsSigned codec.hmac (resolve_connection_secret env) state encoded
  pub decodes : decode_connection_fields (codec.parse_json encoded) ≡ some payload
  pub of_provider : payload.provider ≡ provider
  pub of_mode : payload.mode ≡ mode
  pub fresh : now ≤ payload.issued_at + account_connection_state_ttl_ms

check_connection_iff :
    (now : ℕ) (p : Platform) (mode : Mode) (payload payload' : ConnectionPayload)
    → (check_connection now p mode (some payload) ≡ ok payload') ↔ (
        (payload ≡ payload')
        × (payload.provider ≡ p)
        × (payload.mode ≡ mode)
        × (now ≤ payload.issued_at + account_connection_state_ttl_ms))
check_connection_iff now p mode payload payload' = (
  λ h.
      let passed : (not (payload.provider == p)
            || (not (same_mode payload.mode mode)
                || ltb account_connection_state_ttl_ms (now - payload.issued_at)))
          ≡ false =
        ground arith in
      (
        ground arith,
        (position_iff payload.provider p).0 (ground arith),
        (same_mode_iff payload.mode mode).0 (ground arith),
        ground arith,
      ),
  λ (e, f, g, h).
      ground (arith, (position_iff payload.provider p).1 f, (same_mode_iff payload.mode mode).1 g),
)

opened-IsGenuine :
    (env : ConnectionEnvironment) (codec : ConnectionCodec) (now : ℕ) (state : String)
    (p : Platform) (mode : Mode) (payload : ConnectionPayload) (o : Opened)
    → open_state codec.hmac (resolve_connection_secret env) state ≡ o
    → check_opened_connection codec now p mode o ≡ ok payload
    → IsGenuineConnection env codec now state p mode payload
opened-IsGenuine env codec now state p mode payload malformed e h = cc
opened-IsGenuine env codec now state p mode payload no_secret e h = cc
opened-IsGenuine env codec now state p mode payload bad_signature e h = cc
opened-IsGenuine env codec now state p mode payload (genuine encoded) e h =
    go (open_state_genuine codec.hmac (resolve_connection_secret env) state encoded e)
      (decode_connection_fields (codec.parse_json encoded)) refl h
  where
    go :
        IsSigned codec.hmac (resolve_connection_secret env) state encoded
        → (d : Option ConnectionPayload) → decode_connection_fields (codec.parse_json encoded) ≡ d
        → check_connection now p mode d ≡ ok payload
        → IsGenuineConnection env codec now state p mode payload
    go signed none d h = cc
    go signed (some decoded) d h =
        let (same, provider, its_mode, fresh) =
          (check_connection_iff now p mode decoded payload).0 h in
        record {
          encoded = encoded;
          signed = signed;
          decodes = d ∙ ap some same;
          of_provider = ap (λ q. q.provider) (sym same) ∙ provider;
          of_mode = ap (λ q. q.mode) (sym same) ∙ its_mode;
          fresh =
              subst (λ (q : ConnectionPayload). now ≤ q.issued_at + account_connection_state_ttl_ms)
                same fresh;
        }

-- A state is accepted for a provider and a mode exactly when it is a payload and its signature under the
-- secret in use, the payload decodes to one of that provider and that mode, and not more than ten minutes
-- have passed since its issue.
pub verify_connection_state_iff :
    (env : ConnectionEnvironment) (codec : ConnectionCodec) (now : ℕ) (state : String)
    (p : Platform) (mode : Mode) (payload : ConnectionPayload)
    → (verify_connection_state env codec now state p mode ≡ ok payload)
      ↔ IsGenuineConnection env codec now state p mode payload
unfolding verify_connection_state
verify_connection_state_iff env codec now state p mode payload = (
  λ h. opened-IsGenuine env codec now state p mode payload _ refl h,
  λ g.
      let s = g.signed in
      let opened : open_state codec.hmac (resolve_connection_secret env) state ≡ genuine g.encoded =
        rw (s.known, s.signed)
          (open_state-signed_state codec.hmac s.secret g.encoded s.payload_encoded
            s.signature_encoded) in
      ap (check_opened_connection codec now p mode) opened
      ∙ ap (check_connection now p mode) g.decodes
      ∙ (check_connection_iff now p mode payload payload).1
          (refl, g.of_provider, g.of_mode, g.fresh),
)
