-- ===== src/Session/Reuse.antt =====
-- Detection of reused refresh tokens, revocation, and the life of an issued token.
use clutch.Prelude.{ℕ, ◌+◌, ◌*◌, ◌<◌, ◌≤◌, ◌≡◌, ◌≢◌, refl, sym, ◌∙◌, ap, String, some, arith}
use clutch.Session.Types.{
  RevokeReason, refresh_token_reuse, active, RefreshSessionRecord, RefreshTokenPayload, JwtPayload,
  session_revoked, reuse, ok, err, done, noop,
}
use clutch.Session.Store.{RefreshSessionStore}
use clutch.Session.Service.{
  TokenCodec, hashes_match_iff, build_revoked_session_record, resolve_session_ttl_seconds,
  issued_payload, next_payload, build_session_record, issue_session, rotated_tokens, rotate_token,
  rotate_locked, rotate_session, revoke_locked, revoke_session,
}
use clutch.Session.Rotation.{
  MayRotate, Presented, rotate_complete, rotate-Presented, revoke-Presented, rotate_revoked,
  get-persist, get-revoked,
}

module _ (codec : TokenCodec) (store : RefreshSessionStore) where
  open codec use {verify_refresh, hash_refresh_token, sign_refresh, ttl_seconds}
  open store use {State, get, set, get-get}

  -- What a rotation with a stale token does: it writes the revoked record.
  rotate_stale :
      (now : ℕ) (jti token : String) (s : State) (p : RefreshTokenPayload)
      (e : RefreshSessionRecord)
      → Presented codec store now token s p e
      → e.status ≡ active
      → e.token_hash ≢ hash_refresh_token token
      → rotate_session codec store now jti token s ≡ (
        set now p.session_id
            (build_revoked_session_record now e refresh_token_reuse)
            (resolve_session_ttl_seconds now e)
            (get now p.session_id s).0,
        err (reuse (some p.session_id)),
      )
  unfolding rotate_locked
  rotate_stale now jti token s p e h a stale =
      rw (rotate-Presented codec store now jti token s p e h)
        (ground (arith, hashes_match_iff e.token_hash (hash_refresh_token token)))

  -- A token of the session `k`, presented after a revocation at `now`, meets the revoked record.
  Presented-later :
      (now later : ℕ) (token k : String) (p : RefreshTokenPayload) (reason : RevokeReason)
      (e : RefreshSessionRecord) (s : State)
      → verify_refresh later token ≡ some p
      → p.session_id ≡ k
      → later < e.expires_at
      → Presented codec store later token
          (set now k
            (build_revoked_session_record now e reason)
            (resolve_session_ttl_seconds now e)
            s)
          p
          (build_revoked_session_record now e reason)
  Presented-later now later token k p reason e s v same h = record {
    verified = v;
    stored = rw same (get-revoked codec store now later k reason e s h);
  }

  rotate_after_revocation :
      (now later : ℕ) (jti token k : String) (p : RefreshTokenPayload) (reason : RevokeReason)
      (e : RefreshSessionRecord) (s : State)
      → verify_refresh later token ≡ some p
      → p.session_id ≡ k
      → later < e.expires_at
      → (rotate_session codec store later jti token (
          set now k
            (build_revoked_session_record now e reason)
            (resolve_session_ttl_seconds now e)
            s)).1
        ≡ err (session_revoked e.session_id (some reason))
  unfolding build_revoked_session_record
  rotate_after_revocation now later jti token k p reason e s v same h =
      ap (λ r. r.1)
        (rotate_revoked codec store later jti token
          (set now k (build_revoked_session_record now e reason) (resolve_session_ttl_seconds now e)
            s)
          p (build_revoked_session_record now e reason)
          (Presented-later now later token k p reason e s v same h) refl)

  -- A verified token that is not the active session's current one is answered with the reuse error,
  -- and revokes the session: until the session's end every token of it, the current one included, is
  -- refused with the reason `refresh_token_reuse`.
  pub rotate_reuse :
      (now later : ℕ) (jti jti' token token' : String) (s : State) (p p' : RefreshTokenPayload)
      (e : RefreshSessionRecord)
      → Presented codec store now token s p e
      → e.status ≡ active
      → e.token_hash ≢ hash_refresh_token token
      → verify_refresh later token' ≡ some p'
      → p'.session_id ≡ p.session_id
      → later < e.expires_at
      → let first = rotate_session codec store now jti token s in
        (first.1 ≡ err (reuse (some p.session_id)))
        × ((rotate_session codec store later jti' token' first.0).1
            ≡ err (session_revoked e.session_id (some refresh_token_reuse)))
  rotate_reuse now later jti jti' token token' s p p' e h a stale v same early =
      rw (rotate_stale now jti token s p e h a stale) (
        refl,
        rotate_after_revocation now later jti' token' p.session_id p' refresh_token_reuse e _ v same
            early,
      )

  -- After a rotation of `old` into a new token with another hash, a replay of `old` is answered with
  -- the reuse error, and then the new token is refused too, as long as both still verify and the
  -- session has not run out.
  pub rotate-rotate_replay :
      (t₁ t₂ t₃ : ℕ) (jti jti₂ jti₃ old : String) (s : State) (p p' : RefreshTokenPayload)
      (m : MayRotate codec store t₁ old s)
      → let new = sign_refresh t₁ (next_payload jti m.payload) in
        let rotated = rotate_session codec store t₁ jti old s in
        let replayed = rotate_session codec store t₂ jti₂ old rotated.0 in
        hash_refresh_token new ≢ hash_refresh_token old
        → verify_refresh t₂ old ≡ some p
        → p.session_id ≡ m.payload.session_id
        → verify_refresh t₃ new ≡ some p'
        → p'.session_id ≡ m.payload.session_id
        → t₂ < t₁ + ttl_seconds * 1000
        → t₃ < t₁ + ttl_seconds * 1000
        → (replayed.1 ≡ err (reuse (some m.payload.session_id)))
          × ((rotate_session codec store t₃ jti₃ new replayed.0).1
              ≡ err (session_revoked m.payload.session_id (some refresh_token_reuse)))
  unfolding rotate_token build_session_record
  rotate-rotate_replay t₁ t₂ t₃ jti jti₂ jti₃ old s p p' m differ v₂ same₂ v₃ same₃ h₂ h₃ =
      let next = next_payload jti m.payload in
      let new = sign_refresh t₁ next in
      let e = build_session_record codec next new (t₁ + ttl_seconds * 1000) in
      rw (rotate_complete codec store t₁ jti old s m) (
        let (first, second) =
          rotate_reuse t₂ t₃ jti₂ jti₃ old new _ p p' e
            (record {
              verified = v₂;
              stored = rw same₂ (get-persist codec store t₁ t₂ new next _ h₂);
            })
            refl differ v₃ (same₃ ∙ sym same₂) h₃ in
        (first ∙ ap (λ k. err (reuse (some k))) same₂, second))

  revoke_active :
      (now : ℕ) (reason : RevokeReason) (token : String) (s : State) (p : RefreshTokenPayload)
      (e : RefreshSessionRecord)
      → Presented codec store now token s p e
      → e.status ≡ active
      → revoke_session codec store now reason token s ≡ (
        set now p.session_id
            (build_revoked_session_record now e reason)
            (resolve_session_ttl_seconds now e)
            (get now p.session_id s).0,
        record { session_id = some p.session_id; status = done; reason = some reason },
      )
  unfolding revoke_locked
  revoke_active now reason token s p e h a =
      rw (revoke-Presented codec store now reason token s p e h) (ground arith)

  -- A revocation of an active session is done with its reason. Until the session would have run out, a
  -- second one names the first one's reason and changes nothing, in that every later read of any session
  -- finds what it would have found without it; and every token of the session is refused, before the
  -- second one and after it.
  pub rotate-revoke :
      (now later last : ℕ) (jti token token' any_session : String) (reason reason' : RevokeReason)
      (s : State) (p p' : RefreshTokenPayload) (e : RefreshSessionRecord)
      → Presented codec store now token s p e
      → e.status ≡ active
      → verify_refresh later token' ≡ some p'
      → verify_refresh last token' ≡ some p'
      → p'.session_id ≡ p.session_id
      → later ≤ last
      → last < e.expires_at
      → let first = revoke_session codec store now reason token s in
        let second = revoke_session codec store later reason' token' first.0 in
        (first.1.status ≡ done)
        × (first.1.reason ≡ some reason)
        × (second.1
            ≡ record { session_id = some e.session_id; status = noop; reason = some reason })
        × ((get last any_session second.0).1 ≡ (get last any_session first.0).1)
        × ((rotate_session codec store later jti token' first.0).1
            ≡ err (session_revoked e.session_id (some reason)))
        × ((rotate_session codec store last jti token' second.0).1
            ≡ err (session_revoked e.session_id (some reason)))
  unfolding revoke_locked build_revoked_session_record
  rotate-revoke now later last jti token token' any_session reason reason' s p p' e h a v w same le
        early =
      let r = build_revoked_session_record now e reason in
      let ttl = resolve_session_ttl_seconds now e in
      let s1 = set now p.session_id r ttl (get now p.session_id s).0 in
      let early' : later < e.expires_at = omega arith in
      let meets = Presented-later now later token' p.session_id p' reason e _ v same early' in
      let again = revoke-Presented codec store later reason' token' s1 p' r meets in
      let kept : (get last p'.session_id (get later p'.session_id s1).0).1 ≡ some r =
        get-get later last p'.session_id p'.session_id s1 le
        ∙ (Presented-later now last token' p.session_id p' reason e _ w same early).stored in
      rw (revoke_active now reason token s p e h a) (
        refl,
        refl,
        ap (λ x. x.1) again,
        ap (λ x. (get last any_session x.0).1) again
            ∙ get-get later last p'.session_id any_session s1 le,
        rotate_after_revocation now later jti token' p.session_id p' reason e _ v same early',
        ap (λ x. (rotate_session codec store last jti token' x.0).1) again
            ∙ ap (λ x. x.1)
                (rotate_revoked codec store last jti token' _ p' r
                  (record { verified = w; stored = kept }) refl),
      )

  -- A token just issued can be exchanged at any time before the session runs out, if the verifier
  -- accepts what the signer made; the new pair is for the same user and the same session.
  pub rotate-issue :
      (now later : ℕ) (session_id jti jti' : String) (input : JwtPayload) (s : State)
      → let issued = issue_session codec store now session_id jti input s in
        let p = issued_payload session_id jti input in
        verify_refresh later issued.1.refresh_token ≡ some p
        → later < now + ttl_seconds * 1000
        → (rotate_session codec store later jti' issued.1.refresh_token issued.0).1
          ≡ ok (rotated_tokens codec store later jti' p)
  unfolding issue_session rotate_token build_session_record
  rotate-issue now later session_id jti jti' input s v h =
      let p = issued_payload session_id jti input in
      let token = sign_refresh now p in
      let m : MayRotate codec store later token
          (issue_session codec store now session_id jti input s).0 =
        record {
          payload = p;
          session = build_session_record codec p token (now + ttl_seconds * 1000);
          verified = v;
          stored = get-persist codec store now later token p s h;
          is_active = refl;
          current = refl;
          same_session = refl;
          same_user = refl;
          same_name = refl;
        } in
      ap (λ x. x.1) (rotate_complete codec store later jti' token _ m)
