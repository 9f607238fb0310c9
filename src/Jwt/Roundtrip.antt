-- ===== src/Jwt/Roundtrip.antt =====
-- The verifiers on the tokens of the signers.
use clutch.Prelude.{
  ◌≡◌, ◌≤◌, ◌<◌, ◌+◌, ℕ, refl, String, true, false, Option, none, some, [], ◌∷◌, string_eq, eq_refl,
  ap, subst,
}
use clutch.Prelude.Map
use clutch.Prelude.Map.{All-get}
use clutch.Prelude.Text.{trim, trim_start, trim_end, is_blank, is_empty}
use clutch.Session.Types.{RefreshTokenPayload, JwtPayload}
use clutch.Jwt.Types.{
  text, number, Claims, Decoded, claims, Checked, VerificationCandidate,
  ResolvedJwtKeyRotationConfig, JwtClaimConfig, bad_payload, malformed, passed, threw, Verified,
  SignOptions, JsonWebToken,
}
use clutch.Jwt.Usable.{IsKid, IsKey, IsUsable}
use clutch.Jwt.Verify.{
  header_kid, issuer_present, audience_present, normalized_audience, named_candidate,
  resolve_verification_candidates, verified, finish, check_claims, check_candidate, try_candidates,
  try_resolved, verify_decoded, verify_token_against_candidates, jwt_payload, assert_jwt_payload,
  refresh_payload, assert_refresh_token_payload, verify_access, verify_refresh,
}
use clutch.Jwt.Sign.{
  access_claims, refresh_claims, sign_options, active_secret, sign_access, sign_refresh,
}

-- The payload that jsonwebtoken puts into the token: the claims, with those of the options.
unfoldable pub stamped : ℕ → SignOptions → Claims → Claims
stamped now o c = record c { iss = text o.issuer; aud = text o.audience; nbf = number now }

-- What jsonwebtoken documents of a token that it has signed: it decodes to what was signed, and it
-- verifies under the same secret as long as it has not expired.
pub record SignsAndVerifies (jwt : JsonWebToken) (now : ℕ) (o : SignOptions) (s : String)
    (c : Claims) : Type 0 where
  pub header : jwt.decode_header (jwt.sign now o s c) ≡ some (text o.kid)
  pub payload : jwt.decode (jwt.sign now o s c) ≡ some (claims (stamped now o c))
  pub verifies :
      (later : ℕ)
      → now ≤ later
      → later < now + o.expires_in
      → jwt.verify later s (jwt.sign now o s c) ≡ some (claims (stamped now o c))

inked_of_not_blank : (s : String) → is_blank s ≡ false → is_empty s ≡ false
unfolding trim trim_start trim_end
inked_of_not_blank String.[] h = h
inked_of_not_blank (String.◌∷◌ c s) h = refl

header_kid_of_kid : (kid : String) → IsKid kid → header_kid (text kid) ≡ some kid
unfolding header_kid
header_kid_of_kid kid k = rw (k.trimmed, k.inked) refl

module _ (jwt : JsonWebToken) (signer verifier : ResolvedJwtKeyRotationConfig)
    (claim_config : JwtClaimConfig) (ttl_seconds : ℕ) (usable : IsUsable signer)
    (shared : Map.get signer.active_kid verifier.keys ≡ Map.get signer.active_kid signer.keys)
    (has_issuer : is_blank claim_config.issuer ≡ false)
    (has_audience : is_blank claim_config.audience ≡ false) where
  -- How the verifiers answer a token of the signer, by what they make of its payload.
  answer : {A : Type 0} (payload : A) → Verified A
  answer payload = record {
    payload = payload;
    key_id = signer.active_kid;
    token_key_id = some signer.active_kid;
    legacy_token = false;
    issuer_present = true;
    audience_present = true;
    not_before_present = true;
  }

  options : SignOptions
  options = sign_options jwt signer claim_config ttl_seconds

  secret_is :
      (active_secret jwt signer claim_config ttl_seconds ≡ usable.active.0)
      × (is_empty usable.active.0 ≡ false)
  unfolding active_secret
  secret_is =
      let (j, k) =
        All-get IsKey signer.active_kid usable.active.0 signer.keys usable.keys usable.active.1 in
      (rw usable.active.1 refl, inked_of_not_blank usable.active.0 k.secret)

  -- The one candidate for a token of the signer.
  candidate : VerificationCandidate
  candidate = record {
    key_id = signer.active_kid;
    secret = some usable.active.0;
    legacy_token = false;
  }

  resolved :
      resolve_verification_candidates verifier (header_kid (text signer.active_kid))
      ≡ passed (candidate ∷ [])
  unfolding resolve_verification_candidates named_candidate candidate
  resolved =
      rw (header_kid_of_kid signer.active_kid usable.active_kid)
        (rw (shared, usable.active.1, secret_is.1) refl)

  outcome : {A : Type 0} → Option A → Checked (Verified A)
  outcome none = threw bad_payload
  outcome (some a) = passed (answer a)

  module _ {A : Type 0} (assert_payload : Decoded → Option A) (now later : ℕ) (c : Claims)
      (started : now ≤ later) (alive : later < now + ttl_seconds)
      (laws : SignsAndVerifies jwt now options usable.active.0 c) where
    token : String
    token = jwt.sign now options usable.active.0 c

    finished :
        (o : Option A)
        → finish jwt later assert_payload claim_config token
            (some signer.active_kid)
            (stamped now options c)
            candidate
            o
          ≡ outcome o
    unfolding finish verified issuer_present audience_present stamped candidate options sign_options
        outcome answer
    finished none = refl
    finished (some a) = rw (has_issuer, has_audience) refl

    checked :
        check_candidate jwt later assert_payload claim_config token
          (some signer.active_kid)
          (stamped now options c)
          candidate
        ≡ outcome (assert_payload (claims (stamped now options c)))
    unfolding check_candidate check_claims issuer_present audience_present normalized_audience
        stamped candidate options sign_options token
    checked = rw (laws.verifies later started alive) (
        rw (has_issuer, has_audience)
          (rw (eq_refl claim_config.issuer, eq_refl claim_config.audience)
            (finished (assert_payload (claims (stamped now options c))))))

    tried :
        (o : Option A)
        → check_candidate jwt later assert_payload claim_config token
            (some signer.active_kid)
            (stamped now options c)
            candidate
          ≡ outcome o
        → try_candidates jwt later assert_payload claim_config token
            (some signer.active_kid)
            (stamped now options c)
            malformed
            (candidate ∷ [])
          ≡ outcome o
    unfolding try_candidates outcome check_candidate check_claims candidate
    tried none e = rw e refl
    tried (some a) e = rw e refl

    verify_signed :
        verify_token_against_candidates jwt verifier claim_config assert_payload later token
        ≡ outcome (assert_payload (claims (stamped now options c)))
    unfolding verify_token_against_candidates verify_decoded try_resolved token options sign_options
    verify_signed =
        rw (laws.header, laws.payload)
          (rw resolved (
            rw (header_kid_of_kid signer.active_kid usable.active_kid)
              (tried (assert_payload (claims (stamped now options c))) checked)))

  refresh_token_is :
      (now : ℕ) (p : RefreshTokenPayload)
      → sign_refresh jwt signer claim_config ttl_seconds now p
        ≡ jwt.sign now options usable.active.0 (refresh_claims p)
  unfolding sign_refresh options
  refresh_token_is now p = ap (λ s. jwt.sign now options s (refresh_claims p)) secret_is.0

  access_token_is :
      (now : ℕ) (p : JwtPayload)
      → sign_access jwt signer claim_config ttl_seconds now p
        ≡ jwt.sign now options usable.active.0 (access_claims p)
  unfolding sign_access options
  access_token_is now p = ap (λ s. jwt.sign now options s (access_claims p)) secret_is.0

  lawful :
      (now : ℕ) (c : Claims)
      → SignsAndVerifies jwt now
          (sign_options jwt signer claim_config ttl_seconds)
          (active_secret jwt signer claim_config ttl_seconds)
          c
      → SignsAndVerifies jwt now options usable.active.0 c
  unfolding options
  lawful now c laws = subst (λ s. SignsAndVerifies jwt now options s c) secret_is.0 laws

  -- A refresh token comes back from the verifier with what was signed, as long as it has not expired and
  -- the verifier still has the signer's active key: the verifier's own active key may be another one.
  pub verify-sign_refresh :
      (now later : ℕ) (p : RefreshTokenPayload)
      → now ≤ later
      → later < now + ttl_seconds
      → SignsAndVerifies jwt now
          (sign_options jwt signer claim_config ttl_seconds)
          (active_secret jwt signer claim_config ttl_seconds)
          (refresh_claims p)
      → verify_refresh jwt verifier claim_config later
          (sign_refresh jwt signer claim_config ttl_seconds now p)
        ≡ passed (record {
          payload = p;
          key_id = signer.active_kid;
          token_key_id = some signer.active_kid;
          legacy_token = false;
          issuer_present = true;
          audience_present = true;
          not_before_present = true;
        })
  unfolding verify_refresh outcome answer token assert_refresh_token_payload refresh_payload
      refresh_claims stamped
  verify-sign_refresh now later p started alive laws = rw (refresh_token_is now p) (
      verify_signed assert_refresh_token_payload now later (refresh_claims p) started alive
        (lawful now (refresh_claims p) laws))

  -- An access token comes back from its verifier with the user's id and name, and the verifier of
  -- refresh tokens refuses it for its payload.
  pub verify-sign_access :
      (now later : ℕ) (p : JwtPayload)
      → now ≤ later
      → later < now + ttl_seconds
      → SignsAndVerifies jwt now
          (sign_options jwt signer claim_config ttl_seconds)
          (active_secret jwt signer claim_config ttl_seconds)
          (access_claims p)
      → let signed = sign_access jwt signer claim_config ttl_seconds now p in
        (verify_access jwt verifier claim_config later signed
          ≡ passed (record {
            payload = p;
            key_id = signer.active_kid;
            token_key_id = some signer.active_kid;
            legacy_token = false;
            issuer_present = true;
            audience_present = true;
            not_before_present = true;
          }))
        × (verify_refresh jwt verifier claim_config later signed ≡ threw bad_payload)
  unfolding verify_refresh verify_access outcome answer token assert_jwt_payload jwt_payload
      assert_refresh_token_payload refresh_payload access_claims stamped
  verify-sign_access now later p started alive laws = (
    rw (access_token_is now p) (
        verify_signed assert_jwt_payload now later (access_claims p) started alive
          (lawful now (access_claims p) laws)),
    rw (access_token_is now p) (
        verify_signed assert_refresh_token_payload now later (access_claims p) started alive
          (lawful now (access_claims p) laws)),
  )

  -- The verifier of access tokens accepts a refresh token too, for its whole life: it does not look at
  -- the type of the token.
  pub verify_access-sign_refresh :
      (now later : ℕ) (p : RefreshTokenPayload)
      → now ≤ later
      → later < now + ttl_seconds
      → SignsAndVerifies jwt now
          (sign_options jwt signer claim_config ttl_seconds)
          (active_secret jwt signer claim_config ttl_seconds)
          (refresh_claims p)
      → verify_access jwt verifier claim_config later
          (sign_refresh jwt signer claim_config ttl_seconds now p)
        ≡ passed (record {
          payload = record { id = p.id; username = p.username };
          key_id = signer.active_kid;
          token_key_id = some signer.active_kid;
          legacy_token = false;
          issuer_present = true;
          audience_present = true;
          not_before_present = true;
        })
  unfolding verify_access outcome answer token assert_jwt_payload jwt_payload refresh_claims stamped
  verify_access-sign_refresh now later p started alive laws = rw (refresh_token_is now p) (
      verify_signed assert_jwt_payload now later (refresh_claims p) started alive
        (lawful now (refresh_claims p) laws))
