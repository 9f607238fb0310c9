-- ===== src/Jwt/Codec.antt =====
-- The tokens of jwt.ts as the codec that the session service uses: `createRefreshTokenService` makes
-- the two signers and the verifier from one configuration.
use clutch.Prelude.{◌≡◌, ◌≤◌, ◌+◌, ◌*◌, ◌/◌, ℕ, refl, String, Option, none, some, arith, false}
use clutch.Prelude.Text.{is_blank}
use clutch.Session.Types.{JwtPayload, ok}
use clutch.Session.Store.{RefreshSessionStore}
use clutch.Session.Service.{
  TokenCodec, issued_payload, issue_session, rotated_tokens, rotate_session,
}
use clutch.Session.Reuse.{rotate-issue}
use clutch.Jwt.Types.{
  ResolvedJwtKeyRotationConfig, JwtClaimConfig, Checked, passed, threw, Verified, JsonWebToken,
}
use clutch.Jwt.Usable.{IsUsable}
use clutch.Jwt.Verify.{verify_refresh}
use clutch.Jwt.Sign.{sign_access, sign_refresh, sign_options, active_secret, refresh_claims}
use clutch.Jwt.Roundtrip.{SignsAndVerifies, verify-sign_refresh}

unfoldable pub payload_of {ℓ} : {A : Type ℓ} → Checked (Verified A) → Option A
payload_of (passed v) = some v.payload
payload_of (threw e) = none

-- The clock of the service counts milliseconds, that of jsonwebtoken whole seconds.
unfoldable pub jwt_codec :
    JsonWebToken
    → ResolvedJwtKeyRotationConfig
    → JwtClaimConfig
    → ℕ
    → ℕ
    → (String → String)
    → TokenCodec
jwt_codec jwt config claim_config access_ttl refresh_ttl hash = record {
  sign_access = λ now p. sign_access jwt config claim_config access_ttl (now / 1000) p;
  sign_refresh = λ now p. sign_refresh jwt config claim_config refresh_ttl (now / 1000) p;
  verify_refresh =
      λ now token. payload_of (verify_refresh jwt config claim_config (now / 1000) token);
  hash_refresh_token = hash;
  ttl_seconds = refresh_ttl;
}

-- With the tokens of jwt.ts, a refresh token just issued can be exchanged up to one second before its
-- session runs out, for a new pair of the same user and session, over every store of sessions.
pub rotate-issue_jwt :
    (jwt : JsonWebToken) (config : ResolvedJwtKeyRotationConfig) (claim_config : JwtClaimConfig)
    (access_ttl refresh_ttl : ℕ) (hash : String → String) (store : RefreshSessionStore)
    (now later : ℕ) (session_id jti jti' : String) (input : JwtPayload) (s : store.State)
    → IsUsable config
    → is_blank claim_config.issuer ≡ false
    → is_blank claim_config.audience ≡ false
    → now ≤ later
    → later + 1000 ≤ now + refresh_ttl * 1000
    → SignsAndVerifies jwt
        (now / 1000)
        (sign_options jwt config claim_config refresh_ttl)
        (active_secret jwt config claim_config refresh_ttl)
        (refresh_claims (issued_payload session_id jti input))
    → let codec = jwt_codec jwt config claim_config access_ttl refresh_ttl hash in
      let issued = issue_session codec store now session_id jti input s in
      (rotate_session codec store later jti' issued.1.refresh_token issued.0).1
      ≡ ok (rotated_tokens codec store later jti' (issued_payload session_id jti input))
unfolding jwt_codec payload_of issue_session
rotate-issue_jwt jwt config claim_config access_ttl refresh_ttl hash store now later session_id jti
      jti' input s usable has_issuer has_audience h h' laws =
    let p = issued_payload session_id jti input in
    let codec = jwt_codec jwt config claim_config access_ttl refresh_ttl hash in
    rotate-issue codec store now later session_id jti jti' input s
      (rw
        (verify-sign_refresh jwt config config claim_config refresh_ttl usable refl has_issuer
          has_audience (now / 1000) (later / 1000) p (omega arith) (omega arith) laws)
        refl)
      (omega arith)
