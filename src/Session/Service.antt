-- ===== src/Session/Service.antt =====
-- The operations of `createRefreshTokenService`, over a store and a token codec. Each operation reads
-- one clock value, `now`; the values of `randomUUID` are arguments.
use text.Mathlib.Text.{◌==◌ as str_eq}
use clutch.Prelude.{
  ℕ, ◌+◌, ◌-◌, ◌*◌, ◌/◌, max, ◌≡◌, ◌↔◌, String, len, Bool, true, false, not, ◌&&◌, Option, none,
  some, arith, eq_iff, ◌==◌, nat_eq, string_eq, if◌then◌else◌,
}
use clutch.Session.Types.{
  RevokeReason, refresh_token_reuse, active, revoked, RefreshSessionRecord, RefreshTokenPayload,
  JwtPayload, SessionResult, invalid, session_revoked, reuse, Result, ok, err, done, noop,
  RevokeResult,
}
use clutch.Session.Store.{RefreshSessionStore}

-- What the service takes from config/jwt.ts, node:crypto and the environment: the signers, the
-- verifier of refresh tokens (`none` where it throws), SHA-256 in hexadecimal, and the lifetime of
-- a refresh token in seconds.
pub record TokenCodec : Type 0 where
  pub sign_access : ℕ → JwtPayload → String
  pub sign_refresh : ℕ → RefreshTokenPayload → String
  pub verify_refresh : ℕ → String → Option RefreshTokenPayload
  pub hash_refresh_token : String → String
  pub ttl_seconds : ℕ

-- `timingSafeEqual` compares the bytes of two buffers of one length.
unfoldable pub hashes_match : String → String → Bool
hashes_match left right = if not (len left == len right) then false else str_eq left right

pub hashes_match_iff : (a b : String) → (hashes_match a b ≡ true) ↔ (a ≡ b)
unfolding hashes_match
hashes_match_iff a b = (λ h. ground (arith, eq_iff a b), λ e. ground (arith, eq_iff a b, e))

unfoldable pub build_revoked_session_record :
    ℕ → RefreshSessionRecord → RevokeReason → RefreshSessionRecord
build_revoked_session_record now session reason = record session {
  status = revoked;
  revoked_at = some now;
  revoke_reason = some reason;
}

unfoldable pub resolve_session_ttl_seconds : ℕ → RefreshSessionRecord → ℕ
resolve_session_ttl_seconds now session = max 1 ((session.expires_at - now + 999) / 1000)

-- The negation of the test that makes `assertRefreshSessionPayload` throw.
unfoldable pub payload_fits : RefreshTokenPayload → RefreshSessionRecord → Bool
payload_fits payload session =
    payload.session_id == session.session_id
    && payload.id == session.user_id
    && payload.username == session.username

-- The payload of the refresh token that `issueSession` signs.
abbrev pub issued_payload : String → String → JwtPayload → RefreshTokenPayload
issued_payload session_id jti input = record {
  id = input.id;
  username = input.username;
  session_id = session_id;
  jti = jti;
}

-- The payload of the refresh token that `rotateSession` signs: the old one but for `jti`.
abbrev pub next_payload : String → RefreshTokenPayload → RefreshTokenPayload
next_payload jti payload = record payload { jti = jti }

module _ (codec : TokenCodec) where
  open codec use {hash_refresh_token}

  unfoldable pub build_session_record : RefreshTokenPayload → String → ℕ → RefreshSessionRecord
  build_session_record payload token expires_at = record {
    session_id = payload.session_id;
    user_id = payload.id;
    username = payload.username;
    token_hash = hash_refresh_token token;
    expires_at = expires_at;
    status = active;
    revoked_at = none;
    revoke_reason = none;
  }

module _ (codec : TokenCodec) (store : RefreshSessionStore) where
  open codec use {sign_access, sign_refresh, verify_refresh, hash_refresh_token, ttl_seconds}
  open store use {State, get, set}

  unfoldable pub persist_refresh_token : ℕ → String → RefreshTokenPayload → State → State
  persist_refresh_token now token payload s =
      set now payload.session_id
        (build_session_record codec payload token (now + ttl_seconds * 1000)) ttl_seconds s

  -- `session_id` and `jti` are the two values of `randomUUID`.
  unfoldable pub issue_session : ℕ → String → String → JwtPayload → State → State × SessionResult
  issue_session now session_id jti input s =
      let payload = issued_payload session_id jti input in
      let token = sign_refresh now payload in
      (
        persist_refresh_token now token payload s,
        record { access_token = sign_access now input; refresh_token = token },
      )

  -- The two tokens that `rotateSession` returns.
  abbrev pub rotated_tokens : ℕ → String → RefreshTokenPayload → SessionResult
  rotated_tokens now jti payload = record {
    access_token = sign_access now (record { id = payload.id; username = payload.username });
    refresh_token = sign_refresh now (next_payload jti payload);
  }

  -- The end of `rotateSession`, from line 288 on.
  unfoldable pub rotate_token :
      ℕ → String → RefreshTokenPayload → State → State × Result SessionResult
  rotate_token now jti payload s =
      let next = next_payload jti payload in
      (
        persist_refresh_token now (sign_refresh now next) next s,
        ok (rotated_tokens now jti payload),
      )

  -- The body of the lock in `rotateSession`, on what the store returned.
  unfoldable pub rotate_locked :
      ℕ
      → String
      → String
      → RefreshTokenPayload
      → State
      → Option RefreshSessionRecord
      → State × Result SessionResult
  rotate_locked now jti token payload s none = (s, err invalid)
  rotate_locked now jti token payload s (some existing) = elim existing.status [
    | revoked ↦ (s, err (session_revoked existing.session_id existing.revoke_reason))
    | active ↦
        if not (hashes_match existing.token_hash (hash_refresh_token token))
        then (
          set now payload.session_id (build_revoked_session_record now existing refresh_token_reuse)
              (resolve_session_ttl_seconds now existing) s,
          err (reuse (some payload.session_id)),
        )
        else if payload_fits payload existing
        then rotate_token now jti payload s
        else (s, err invalid)
  ]

  unfoldable pub rotate_session : ℕ → String → String → State → State × Result SessionResult
  rotate_session now jti token s = elim (verify_refresh now token) [
    | none ↦ (s, err invalid)
    | some payload ↦
        rotate_locked now jti token payload (get now payload.session_id s).0
          (get now payload.session_id s).1
  ]

  unfoldable pub revoke_locked :
      ℕ
      → RevokeReason
      → RefreshTokenPayload
      → State
      → Option RefreshSessionRecord
      → State × RevokeResult
  revoke_locked now reason payload s none =
      (s, record { session_id = some payload.session_id; status = noop; reason = none })
  revoke_locked now reason payload s (some existing) = elim existing.status [
    | revoked ↦ (
      s,
      record {
        session_id = some existing.session_id;
        status = noop;
        reason = existing.revoke_reason;
      },
    )
    | active ↦ (
      set now payload.session_id (build_revoked_session_record now existing reason)
          (resolve_session_ttl_seconds now existing) s,
      record { session_id = some payload.session_id; status = done; reason = some reason },
    )
  ]

  unfoldable pub revoke_session : ℕ → RevokeReason → String → State → State × RevokeResult
  revoke_session now reason token s = elim (verify_refresh now token) [
    | none ↦ (s, record { session_id = none; status = noop; reason = none })
    | some payload ↦
        revoke_locked now reason payload (get now payload.session_id s).0
          (get now payload.session_id s).1
  ]
