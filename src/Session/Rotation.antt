-- ===== src/Session/Rotation.antt =====
-- What `rotateSession` and `revokeSession` guarantee over any store that obeys the interface's laws.
use clutch.Prelude.{
  ℕ, ◌+◌, ◌*◌, ◌≤◌, ◌<◌, ◌≡◌, ◌↔◌, refl, String, Option, none, some, arith, eq_iff, eq_refl,
}
use clutch.Session.Types.{
  RevokeReason, active, revoked, RefreshSessionRecord, RefreshTokenPayload, SessionResult,
  session_revoked, ok, err,
}
use clutch.Session.Store.{RefreshSessionStore}
use clutch.Session.Service.{
  TokenCodec, hashes_match_iff, build_revoked_session_record, resolve_session_ttl_seconds,
  payload_fits, build_session_record, persist_refresh_token, rotated_tokens, rotate_token,
  rotate_locked, rotate_session, revoke_locked, revoke_session,
}

-- A record that is kept for the remaining life of its session outlives the session.
pub ttl_covers :
    (now : ℕ) (e : RefreshSessionRecord)
    → e.expires_at ≤ now + resolve_session_ttl_seconds now e * 1000
unfolding resolve_session_ttl_seconds
ttl_covers now e = omega arith

module _ (codec : TokenCodec) (store : RefreshSessionStore) where
  open codec use {verify_refresh, hash_refresh_token, sign_refresh, ttl_seconds}
  open store use {State, get}

  -- The conditions under which a token may be exchanged.
  pub record MayRotate (now : ℕ) (token : String) (s : State) : Type 0 where
    pub payload : RefreshTokenPayload
    pub session : RefreshSessionRecord
    pub verified : verify_refresh now token ≡ some payload
    pub stored : (get now payload.session_id s).1 ≡ some session
    pub is_active : session.status ≡ active
    pub current : session.token_hash ≡ hash_refresh_token token
    pub same_session : payload.session_id ≡ session.session_id
    pub same_user : payload.id ≡ session.user_id
    pub same_name : payload.username ≡ session.username

  rotate_locked_sound :
      (now : ℕ) (jti token : String) (p : RefreshTokenPayload) (s : State)
      (found : Option RefreshSessionRecord) (r : SessionResult)
      → (rotate_locked codec store now jti token p s found).1 ≡ ok r
      → (e : RefreshSessionRecord) × (found ≡ some e)
        × (e.status ≡ active)
        × (e.token_hash ≡ hash_refresh_token token)
        × (p.session_id ≡ e.session_id)
        × (p.id ≡ e.user_id)
        × (p.username ≡ e.username)
  unfolding rotate_locked payload_fits
  rotate_locked_sound now jti token p s none r h = cc
  rotate_locked_sound now jti token p s (some e) r h = (
    e,
    refl,
    ground arith,
    ground (arith, hashes_match_iff e.token_hash (hash_refresh_token token)),
    ground (arith, eq_iff p.session_id e.session_id),
    ground (arith, eq_iff p.id e.user_id),
    ground (arith, eq_iff p.username e.username),
  )

  rotate_sound :
      (now : ℕ) (jti token : String) (s : State) (verdict : Option RefreshTokenPayload)
      (r : SessionResult)
      → verify_refresh now token ≡ verdict
      → (rotate_session codec store now jti token s).1 ≡ ok r
      → MayRotate now token s
  unfolding rotate_session
  rotate_sound now jti token s none r v h = absurd (ground arith)
  rotate_sound now jti token s (some p) r v h =
      let (e, stored, is_active, current, same_session, same_user, same_name) =
        rotate_locked_sound now jti token p (get now p.session_id s).0 (get now p.session_id s).1 r
          (rw (v, rotate_session) at h) in
      record {
        payload = p;
        session = e;
        verified = v;
        stored = stored;
        is_active = is_active;
        current = current;
        same_session = same_session;
        same_user = same_user;
        same_name = same_name;
      }

  pub rotate_complete :
      (now : ℕ) (jti token : String) (s : State) (m : MayRotate now token s)
      → rotate_session codec store now jti token s
        ≡ rotate_token codec store now jti m.payload (get now m.payload.session_id s).0
  unfolding rotate_session rotate_locked payload_fits
  rotate_complete now jti token s m =
      rw (m.verified, rotate_session)
        (rw (m.stored, rotate_locked)
          (ground (
            arith,
            hashes_match_iff m.session.token_hash (hash_refresh_token token),
            eq_iff m.payload.session_id m.session.session_id,
            eq_iff m.payload.id m.session.user_id,
            eq_iff m.payload.username m.session.username,
          )))

  -- A rotation succeeds exactly when the token verifies, its session is stored and active, the token
  -- is the session's current one (by hash), and its claims are the session's.
  pub rotate-eq-ok_iff :
      (now : ℕ) (jti token : String) (s : State)
      → ((r : SessionResult) × ((rotate_session codec store now jti token s).1 ≡ ok r))
        ↔ MayRotate now token s
  unfolding rotate_token
  rotate-eq-ok_iff now jti token s = (
    λ g. rotate_sound now jti token s (verify_refresh now token) g.0 refl g.1,
    λ m. (rotated_tokens codec store now jti m.payload, rw (rotate_complete now jti token s m)),
  )

  -- Reading back the record of a session that `persistRefreshToken` has just written.
  pub get-persist :
      (now later : ℕ) (token : String) (p : RefreshTokenPayload) (s : State)
      → later < now + ttl_seconds * 1000
      → (get later p.session_id (persist_refresh_token codec store now token p s)).1
        ≡ some (build_session_record codec p token (now + ttl_seconds * 1000))
  unfolding persist_refresh_token
  get-persist now later token p s h =
      let r = build_session_record codec p token (now + ttl_seconds * 1000) in
      ground (
        arith,
        store.get-set now later p.session_id p.session_id r ttl_seconds s,
        eq_refl p.session_id,
      )

  -- A token that verifies as `p`, presented while its session's record is `e`.
  pub record Presented (now : ℕ) (token : String) (s : State) (p : RefreshTokenPayload)
      (e : RefreshSessionRecord) : Type 0 where
    pub verified : verify_refresh now token ≡ some p
    pub stored : (get now p.session_id s).1 ≡ some e

  pub rotate-Presented :
      (now : ℕ) (jti token : String) (s : State) (p : RefreshTokenPayload)
      (e : RefreshSessionRecord)
      → Presented now token s p e
      → rotate_session codec store now jti token s
        ≡ rotate_locked codec store now jti token p (get now p.session_id s).0 (some e)
  unfolding rotate_session
  rotate-Presented now jti token s p e h = rw (h.verified, rotate_session) (rw h.stored)

  pub revoke-Presented :
      (now : ℕ) (reason : RevokeReason) (token : String) (s : State) (p : RefreshTokenPayload)
      (e : RefreshSessionRecord)
      → Presented now token s p e
      → revoke_session codec store now reason token s
        ≡ revoke_locked codec store now reason p (get now p.session_id s).0 (some e)
  unfolding revoke_session
  revoke-Presented now reason token s p e h = rw (h.verified, revoke_session) (rw h.stored)

  -- Every token of a revoked session is refused with the reason of the revocation, and the store is
  -- only read.
  pub rotate_revoked :
      (now : ℕ) (jti token : String) (s : State) (p : RefreshTokenPayload)
      (e : RefreshSessionRecord)
      → Presented now token s p e
      → e.status ≡ revoked
      → rotate_session codec store now jti token s
        ≡ ((get now p.session_id s).0, err (session_revoked e.session_id e.revoke_reason))
  unfolding rotate_locked
  rotate_revoked now jti token s p e h r =
      rw (rotate-Presented now jti token s p e h) (ground arith)

  -- The record that a revocation leaves is there as long as the session would have lasted.
  pub get-revoked :
      (now later : ℕ) (k : String) (reason : RevokeReason) (e : RefreshSessionRecord) (s : State)
      → later < e.expires_at
      → (get later k (
          store.set now k
            (build_revoked_session_record now e reason)
            (resolve_session_ttl_seconds now e)
            s)).1
        ≡ some (build_revoked_session_record now e reason)
  get-revoked now later k reason e s h =
      let r = build_revoked_session_record now e reason in
      let ttl = resolve_session_ttl_seconds now e in
      ground (arith, store.get-set now later k k r ttl s, eq_refl k, ttl_covers now e)
