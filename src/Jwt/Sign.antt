-- ===== src/Jwt/Sign.antt =====
-- The signers of jwt.ts.
use clutch.Prelude.{String, ℕ}
use clutch.Prelude.Map
use clutch.Session.Types.{RefreshTokenPayload, JwtPayload}
use clutch.Jwt.Types.{
  absent, text, Claims, ResolvedJwtKeyRotationConfig, JwtClaimConfig, SignOptions, JsonWebToken,
}
use clutch.Jwt.KeyRing.{or_else}

unfoldable pub access_claims : JwtPayload → Claims
access_claims p = record {
  id = text p.id;
  username = text p.username;
  token_type = text "access";
  session_id = absent;
  jti = absent;
  iss = absent;
  aud = absent;
  nbf = absent;
}

unfoldable pub refresh_claims : RefreshTokenPayload → Claims
refresh_claims p = record {
  id = text p.id;
  username = text p.username;
  token_type = text "refresh";
  session_id = text p.session_id;
  jti = text p.jti;
  iss = absent;
  aud = absent;
  nbf = absent;
}

module _ (jwt : JsonWebToken) (config : ResolvedJwtKeyRotationConfig)
    (claim_config : JwtClaimConfig) (ttl_seconds : ℕ) where
  unfoldable pub sign_options : SignOptions
  sign_options = record {
    expires_in = ttl_seconds;
    issuer = claim_config.issuer;
    audience = claim_config.audience;
    kid = config.active_kid;
  }

  -- The active key is there in every resolved configuration; its secret is never `undefined`.
  unfoldable pub active_secret : String
  active_secret = or_else "" (Map.get config.active_kid config.keys)

  unfoldable pub sign_access : ℕ → JwtPayload → String
  sign_access now p = jwt.sign now sign_options active_secret (access_claims p)

  unfoldable pub sign_refresh : ℕ → RefreshTokenPayload → String
  sign_refresh now p = jwt.sign now sign_options active_secret (refresh_claims p)
