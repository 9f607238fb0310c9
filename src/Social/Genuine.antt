-- ===== src/Social/Genuine.antt =====
-- Which states are accepted.
use clutch.Prelude.{
  ℕ, ◌+◌, ◌-◌, ◌≤◌, ◌≡◌, ◌↔◌, refl, sym, ap, ◌∙◌, String, false, not, ◌||◌, Option, none, some,
  arith, ltb, ◌==◌, subst,
}
use clutch.Accounts.Types.{Platform, platform_eq, position_iff}
use clutch.OAuth.Signed.{
  Opened, malformed, no_secret, bad_signature, genuine, open_state, IsSigned,
  open_state-signed_state, open_state_genuine,
}
use clutch.Providers.Types.{ok}
use clutch.Social.Types.{StatePayload, StateCodec, Environment}
use clutch.Social.State.{
  social_state_ttl_ms, resolve_state_secret, decode_state_payload, check_payload, check_opened,
  verify_state_value,
}

-- What makes a state genuine: the service's own signature of a payload, for the provider, that is not
-- older than ten minutes.
pub record IsGenuine (env : Environment) (codec : StateCodec) (now : ℕ) (state : String)
    (provider : Platform) (payload : StatePayload) : Type 0 where
  pub encoded : String
  pub signed : IsSigned codec.hmac (resolve_state_secret env) state encoded
  pub decodes : decode_state_payload codec encoded ≡ some payload
  pub of_provider : payload.provider ≡ provider
  pub fresh : now ≤ payload.issued_at + social_state_ttl_ms

check_payload_iff :
    (now : ℕ) (p : Platform) (payload payload' : StatePayload)
    → (check_payload now p (some payload) ≡ ok payload') ↔ (
        (payload ≡ payload')
        × (payload.provider ≡ p)
        × (now ≤ payload.issued_at + social_state_ttl_ms))
check_payload_iff now p payload payload' = (
  λ h.
      let passed : (not (payload.provider == p)
            || ltb social_state_ttl_ms (now - payload.issued_at))
          ≡ false =
        ground arith in
      (ground arith, (position_iff payload.provider p).0 (ground arith), ground arith),
  λ (e, f, g). ground (arith, (position_iff payload.provider p).1 f),
)

check_opened-IsGenuine :
    (env : Environment) (codec : StateCodec) (now : ℕ) (state : String) (p : Platform)
    (payload : StatePayload) (o : Opened)
    → open_state codec.hmac (resolve_state_secret env) state ≡ o
    → check_opened codec now p o ≡ ok payload
    → IsGenuine env codec now state p payload
unfolding check_opened
check_opened-IsGenuine env codec now state p payload malformed e h = cc
check_opened-IsGenuine env codec now state p payload no_secret e h = cc
check_opened-IsGenuine env codec now state p payload bad_signature e h = cc
check_opened-IsGenuine env codec now state p payload (genuine encoded) e h =
    go (open_state_genuine codec.hmac (resolve_state_secret env) state encoded e)
      (decode_state_payload codec encoded) refl h
  where
    go :
        IsSigned codec.hmac (resolve_state_secret env) state encoded
        → (d : Option StatePayload) → decode_state_payload codec encoded ≡ d
        → check_payload now p d ≡ ok payload
        → IsGenuine env codec now state p payload
    go signed none d h = cc
    go signed (some decoded) d h =
        let (same, provider, fresh) = (check_payload_iff now p decoded payload).0 h in
        record {
          encoded = encoded;
          signed = signed;
          decodes = d ∙ ap some same;
          of_provider = ap (λ q. q.provider) (sym same) ∙ provider;
          fresh = subst (λ (q : StatePayload). now ≤ q.issued_at + social_state_ttl_ms) same fresh;
        }

pub verify_of_genuine :
    (env : Environment) (codec : StateCodec) (now : ℕ) (state : String) (p : Platform)
    (payload : StatePayload)
    → IsGenuine env codec now state p payload
    → verify_state_value env codec now state p ≡ ok payload
unfolding verify_state_value check_opened
verify_of_genuine env codec now state p payload g =
    let s = g.signed in
    let opened : open_state codec.hmac (resolve_state_secret env) state ≡ genuine g.encoded =
      rw (s.known, s.signed)
        (open_state-signed_state codec.hmac s.secret g.encoded s.payload_encoded
          s.signature_encoded) in
    ap (check_opened codec now p) opened
    ∙ ap (check_payload now p) g.decodes
    ∙ (check_payload_iff now p payload payload).1 (refl, g.of_provider, g.fresh)

-- A state is accepted for a provider exactly when it is a payload and its signature under the secret in
-- use, the payload decodes to one of that provider, and not more than ten minutes have passed since its
-- issue.
pub verify_state_value_iff :
    (env : Environment) (codec : StateCodec) (now : ℕ) (state : String) (p : Platform)
    (payload : StatePayload)
    → (verify_state_value env codec now state p ≡ ok payload)
      ↔ IsGenuine env codec now state p payload
unfolding verify_state_value
verify_state_value_iff env codec now state p payload = (
  λ h. check_opened-IsGenuine env codec now state p payload _ refl h,
  verify_of_genuine env codec now state p payload,
)
