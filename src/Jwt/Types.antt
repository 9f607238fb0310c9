-- ===== src/Jwt/Types.antt =====
-- The types of jwt.ts, and what the file takes from jsonwebtoken.
use clutch.Prelude.{String, Bool, Option, List, ℕ}

-- The value of a claim, as far as `typeof` and `Array.isArray` tell them apart. The elements of an
-- array that are not strings are `none`.
pub data Claim : Type 0 where
  absent other : Claim
  text : String → Claim
  number : ℕ → Claim
  texts : List (Option String) → Claim

pub record Claims : Type 0 where
  pub id : Claim
  pub username : Claim
  pub token_type : Claim
  pub session_id : Claim
  pub jti : Claim
  pub iss : Claim
  pub aud : Claim
  pub nbf : Claim

-- `string | JsonWebTokenPayload`
pub data Decoded : Type 0 where
  bare : String → Decoded
  claims : Claims → Decoded

pub record JwtKeyRotationConfig : Type 0 where
  pub active_kid : String
  pub keys : List (String × String)

pub record ResolvedJwtKeyRotationConfig : Type 0 where
  pub active_kid : String
  pub keys : List (String × String)
  pub verification_order : List String

-- `undefined` is the secret of a kid that the keys do not have.
pub record VerificationCandidate : Type 0 where
  pub key_id : String
  pub secret : Option String
  pub legacy_token : Bool

pub record JwtClaimConfig : Type 0 where
  pub issuer : String
  pub audience : String

-- What a verifier throws: the errors of jwt.ts, and those of `jwt.verify` as one.
pub data JwtFailure : Type 0 where
  malformed bad_payload issuer_rejected audience_rejected not_verified : JwtFailure
  kid_rejected : String → JwtFailure

pub data Checked {ℓ} (A : Type ℓ) : Type ℓ where
  passed : A → Checked A
  threw : JwtFailure → Checked A

-- `VerifiedJwtPayload` and `VerifiedRefreshTokenPayload`
pub record Verified {ℓ} (A : Type ℓ) : Type ℓ where
  pub payload : A
  pub key_id : String
  pub token_key_id : Option String
  pub legacy_token : Bool
  pub issuer_present : Bool
  pub audience_present : Bool
  pub not_before_present : Bool

-- `SignOptions`; the algorithm is HS256, and the token is valid at once (`notBefore: 0`).
pub record SignOptions : Type 0 where
  pub expires_in : ℕ
  pub issuer : String
  pub audience : String
  pub kid : String

-- jsonwebtoken: `jwt.decode`, once with the header's `kid` and once with the payload, `jwt.verify` for
-- HS256 with both times checked, and `jwt.sign`. `none` where the result is null or an error. The
-- clock counts seconds.
pub record JsonWebToken : Type 0 where
  pub decode_header : String → Option Claim
  pub decode : String → Option Decoded
  pub verify : ℕ → String → String → Option Decoded
  pub sign : ℕ → SignOptions → String → Claims → String
