-- ===== src/Jwt/Verify.antt =====
-- The verifiers of jwt.ts.
use clutch.Prelude.{
  ◌>>=◌, String, Bool, true, false, not, ◌&&◌, Option, none, some, List, [], ◌∷◌, map, ◌==◌,
  string_eq, any, if◌then◌else◌, ℕ,
}
use clutch.Prelude.Map
use clutch.Prelude.Text.{trim, is_blank, is_empty}
use clutch.Session.Types.{RefreshTokenPayload, JwtPayload}
use clutch.Jwt.Types.{
  Claim, text, number, texts, Claims, Decoded, bare, claims, ResolvedJwtKeyRotationConfig,
  VerificationCandidate, JwtClaimConfig, JwtFailure, malformed, bad_payload, issuer_rejected,
  audience_rejected, not_verified, kid_rejected, Checked, passed, threw, Verified, JsonWebToken,
}

-- The string that a claim is, if it is one.
abbrev pub text_of : Claim → Option String
text_of (text s) = some s
text_of _ = none

abbrev pub is_text : String → Option String → Bool
is_text s none = false
is_text s (some t) = t == s

abbrev pub is_inked : Option String → Bool
is_inked none = false
is_inked (some s) = not (is_blank s)

abbrev pub is_number : Claim → Bool
is_number (number n) = true
is_number _ = false

unfoldable pub jwt_payload : Claims → Option JwtPayload
jwt_payload c = do
  id ← text_of c.id
  username ← text_of c.username
  some (record { id = id; username = username })

unfoldable pub assert_jwt_payload : Decoded → Option JwtPayload
assert_jwt_payload (bare s) = none
assert_jwt_payload (claims c) = jwt_payload c

unfoldable pub refresh_payload : Claims → Option RefreshTokenPayload
refresh_payload c = do
  id ← text_of c.id
  username ← text_of c.username
  session_id ← text_of c.session_id
  jti ← text_of c.jti
  let payload : RefreshTokenPayload = record {
    id = id;
    username = username;
    session_id = session_id;
    jti = jti;
  }
  if is_text "refresh" (text_of c.token_type) then some payload else none

unfoldable pub assert_refresh_token_payload : Decoded → Option RefreshTokenPayload
assert_refresh_token_payload (bare s) = none
assert_refresh_token_payload (claims c) = refresh_payload c

-- `typeof rawKid === 'string' && rawKid.trim().length > 0 ? rawKid.trim() : null`
unfoldable pub header_kid : Claim → Option String
header_kid c = do kid ← text_of c; if is_blank kid then none else some (trim kid)

unfoldable pub issuer_present : Claims → Bool
issuer_present c = is_inked (text_of c.iss)

unfoldable pub audience_present : Claim → Bool
audience_present (text s) = not (is_blank s)
audience_present (texts ts) = any is_inked ts
audience_present _ = false

unfoldable pub normalized_audience : Claim → List (Option String)
normalized_audience (texts ts) = ts
normalized_audience c = text_of c ∷ []

unfoldable pub candidate_of : List (String × String) → String → VerificationCandidate
candidate_of keys kid = record { key_id = kid; secret = Map.get kid keys; legacy_token = true }

-- The candidates for a token that names its key; the empty secret is as good as none.
unfoldable pub named_candidate : String → Option String → Checked (List VerificationCandidate)
named_candidate kid none = threw (kid_rejected kid)
named_candidate kid (some s) =
    if is_empty s
    then threw (kid_rejected kid)
    else passed (record { key_id = kid; secret = some s; legacy_token = false } ∷ [])

unfoldable pub resolve_verification_candidates :
    ResolvedJwtKeyRotationConfig → Option String → Checked (List VerificationCandidate)
resolve_verification_candidates config (some kid) = named_candidate kid (Map.get kid config.keys)
resolve_verification_candidates config none =
    passed (map (candidate_of config.keys) config.verification_order)

module _ {A : Type 0} (jwt : JsonWebToken) (now : ℕ) (assert_payload : Decoded → Option A)
    (claim_config : JwtClaimConfig) (token : String) (token_key_id : Option String)
    (decoded : Claims) where
  unfoldable pub verified : VerificationCandidate → A → Verified A
  verified candidate payload = record {
    payload = payload;
    key_id = candidate.key_id;
    token_key_id = token_key_id;
    legacy_token = candidate.legacy_token;
    issuer_present = issuer_present decoded;
    audience_present = audience_present decoded.aud;
    not_before_present = is_number decoded.nbf;
  }

  unfoldable pub finish : VerificationCandidate → Option A → Checked (Verified A)
  finish candidate none = threw bad_payload
  finish candidate (some payload) = passed (verified candidate payload)

  -- The body of the loop behind `jwt.verify`.
  unfoldable pub check_claims : VerificationCandidate → Option Decoded → Checked (Verified A)
  check_claims candidate none = threw not_verified
  check_claims candidate (some payload) =
      if issuer_present decoded && not (is_text claim_config.issuer (text_of decoded.iss))
      then threw issuer_rejected
      else if audience_present decoded.aud
          && not (any (is_text claim_config.audience) (normalized_audience decoded.aud))
      then threw audience_rejected
      else finish candidate (assert_payload payload)

  unfoldable pub check_candidate : VerificationCandidate → Checked (Verified A)
  check_candidate candidate =
      check_claims candidate (do s ← candidate.secret; jwt.verify now s token)

  unfoldable pub try_candidates : JwtFailure → List VerificationCandidate → Checked (Verified A)
  try_candidates last_error [] = threw last_error
  try_candidates last_error (c ∷ cs) = elim (check_candidate c) [
    | passed v ↦ passed v
    | threw e ↦ try_candidates e cs
  ]

module _ {A : Type 0} (jwt : JsonWebToken) (config : ResolvedJwtKeyRotationConfig)
    (claim_config : JwtClaimConfig) (assert_payload : Decoded → Option A) where
  unfoldable pub try_resolved :
      ℕ
      → String
      → Option String
      → Claims
      → Checked (List VerificationCandidate)
      → Checked (Verified A)
  try_resolved now token kid decoded (threw e) = threw e
  try_resolved now token kid decoded (passed cs) =
      try_candidates jwt now assert_payload claim_config token kid decoded malformed cs

  -- On what the two calls of `jwt.decode` return.
  unfoldable pub verify_decoded : ℕ → String → Option Claim → Option Decoded → Checked (Verified A)
  verify_decoded now token none payload = threw malformed
  verify_decoded now token (some kid) none = threw malformed
  verify_decoded now token (some kid) (some (bare s)) = threw malformed
  verify_decoded now token (some kid) (some (claims c)) =
      try_resolved now token (header_kid kid) c
        (resolve_verification_candidates config (header_kid kid))

  unfoldable pub verify_token_against_candidates : ℕ → String → Checked (Verified A)
  verify_token_against_candidates now token =
      verify_decoded now token (jwt.decode_header token) (jwt.decode token)

module _ (jwt : JsonWebToken) (config : ResolvedJwtKeyRotationConfig)
    (claim_config : JwtClaimConfig) where
  unfoldable pub verify_access : ℕ → String → Checked (Verified JwtPayload)
  verify_access = verify_token_against_candidates jwt config claim_config assert_jwt_payload

  unfoldable pub verify_refresh : ℕ → String → Checked (Verified RefreshTokenPayload)
  verify_refresh =
      verify_token_against_candidates jwt config claim_config assert_refresh_token_payload
