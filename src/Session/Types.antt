-- ===== src/Session/Types.antt =====
-- The data of refresh-token.service.ts (lines 13 to 69 and 161 to 166).
use clutch.Prelude.{ℕ, String, Option}

pub data RevokeReason : Type 0 where
  logout refresh_token_reuse security : RevokeReason

pub data Status : Type 0 where
  active revoked : Status

pub record RefreshSessionRecord : Type 0 where
  pub session_id : String
  pub user_id : String
  pub username : String
  pub token_hash : String
  pub expires_at : ℕ
  pub status : Status
  pub revoked_at : Option ℕ
  pub revoke_reason : Option RevokeReason

-- `tokenType` is the literal 'refresh' in every value of the source's type, and is left out.
pub record RefreshTokenPayload : Type 0 where
  pub id : String
  pub username : String
  pub session_id : String
  pub jti : String

pub record JwtPayload : Type 0 where
  pub id : String
  pub username : String

pub record SessionResult : Type 0 where
  pub access_token : String
  pub refresh_token : String

-- The three error classes that `rotateSession` throws.
pub data RefreshError : Type 0 where
  invalid : RefreshError
  session_revoked : String → Option RevokeReason → RefreshError
  reuse : Option String → RefreshError

pub data Result {ℓ} (A : Type ℓ) : Type ℓ where
  ok : A → Result A
  err : RefreshError → Result A

pub data RevokeStatus : Type 0 where
  done noop : RevokeStatus

pub record RevokeResult : Type 0 where
  pub session_id : Option String
  pub status : RevokeStatus
  pub reason : Option RevokeReason
