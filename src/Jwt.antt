-- ===== src/Jwt.antt =====
-- backend/src/config/jwt.ts: the key ring, the signers and the verifiers of access and refresh tokens.
pub mod Types
pub mod KeyRing
pub mod Verify
pub mod Sign
pub mod Usable
pub mod Laws
pub mod Roundtrip
pub mod Codec
pub mod Bearer
pub mod Compact
pub mod Tests
