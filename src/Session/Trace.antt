-- ===== src/Session/Trace.antt =====
-- Histories of the service: sequences of its operations at times that do not go back.
use clutch.Prelude.{
  All, List, [], ◌∷◌, ap, eq_refl, ℕ, ◌+◌, ◌*◌, ◌≤◌, ◌≡◌, ◌≢◌, ◌⊎◌, inl, inr, refl, sym, ◌∙◌, subst,
  String, Option, none, some, arith, eq_iff, Option-cases, Bool-cases, ◌==◌, string_eq,
}
use clutch.Session.Types.{
  RevokeReason, refresh_token_reuse, Status, active, revoked, RefreshSessionRecord,
  RefreshTokenPayload, JwtPayload, SessionResult, ok,
}
use clutch.Session.Store.{RefreshSessionStore}
use clutch.Session.Service.{
  TokenCodec, build_revoked_session_record, resolve_session_ttl_seconds, persist_refresh_token,
  issued_payload, build_session_record, issue_session, rotate_token, rotate_locked, rotate_session,
  revoke_locked, revoke_session,
}
use clutch.Session.Rotation.{MayRotate, rotate-eq-ok_iff}

-- A call of the service, with the values that it draws.
pub data Call : Type 0 where
  issue : (session_id jti : String) → JwtPayload → Call
  rotate : (jti token : String) → Call
  revoke : RevokeReason → (token : String) → Call

-- `randomUUID` does not return the session `k` once more.
abbrev pub Avoids : String → Call → Type 0
Avoids k (issue session_id jti input) = session_id ≢ k
Avoids k _ = Unit {0}

Status-cases : (x : Status) → (x ≡ active) ⊎ (x ≡ revoked)
Status-cases active = inl refl
Status-cases revoked = inr refl

module _ (codec : TokenCodec) (store : RefreshSessionStore) where
  open codec use {verify_refresh, sign_refresh, ttl_seconds}
  open store use {State, get, set}

  pub run_call : ℕ → Call → State → State
  run_call now (issue session_id jti input) s =
      (issue_session codec store now session_id jti input s).0
  run_call now (rotate jti token) s = (rotate_session codec store now jti token s).0
  run_call now (revoke reason token) s = (revoke_session codec store now reason token s).0

  -- What one call may do to the store: a read, or a write over an active record.
  data Touch (now : ℕ) (s : State) : State → Type 0 where
    same : Touch now s s
    read : (j : String) → Touch now s (get now j s).0
    write :
        (j : String) (r e : RefreshSessionRecord) (ttl : ℕ)
        → (get now j s).1 ≡ some e
        → e.status ≡ active
        → Touch now s (set now j r ttl (get now j s).0)

  -- Where the body of the lock leaves the store: as it was, with the session revoked, or rotated.
  rotate_locked_cases :
      (now : ℕ) (jti token : String) (p : RefreshTokenPayload) (s : State)
      (e : RefreshSessionRecord)
      → let after = (rotate_locked codec store now jti token p s (some e)).0 in
        (after ≡ s)
        ⊎ ((e.status ≡ active)
            × (after
                ≡ set now p.session_id
                    (build_revoked_session_record now e refresh_token_reuse)
                    (resolve_session_ttl_seconds now e)
                    s))
        ⊎ ((e.status ≡ active) × (after ≡ (rotate_token codec store now jti p s).0))
  unfolding rotate_locked
  rotate_locked_cases now jti token p s e = ground arith

  rotate_locked-Touch :
      (now : ℕ) (jti token : String) (p : RefreshTokenPayload) (s : State)
      (found : Option RefreshSessionRecord)
      → (get now p.session_id s).1 ≡ found
      → Touch now s (rotate_locked codec store now jti token p (get now p.session_id s).0 found).0
  unfolding rotate_token persist_refresh_token
  rotate_locked-Touch now jti token p s none h = unfold rotate_locked in read p.session_id
  rotate_locked-Touch now jti token p s (some e) h =
      elim (rotate_locked_cases now jti token p (get now p.session_id s).0 e) [
        | inl same_store ↦ rw same_store (read p.session_id)
        | inr (inl (a, wrote)) ↦ rw wrote (write p.session_id _ e _ h a)
        | inr (inr (a, wrote)) ↦ rw wrote (write p.session_id _ e _ h a)
      ]

  revoke_locked-Touch :
      (now : ℕ) (reason : RevokeReason) (p : RefreshTokenPayload) (s : State)
      (found : Option RefreshSessionRecord)
      → (get now p.session_id s).1 ≡ found
      → Touch now s (revoke_locked codec store now reason p (get now p.session_id s).0 found).0
  unfolding revoke_locked
  revoke_locked-Touch now reason p s none h = read p.session_id
  revoke_locked-Touch now reason p s (some e) h = elim (Status-cases e.status) [
    | inl a ↦ rw a (write p.session_id _ e _ h a)
    | inr r ↦ rw r (read p.session_id)
  ]

  rotate-Touch :
      (now : ℕ) (jti token : String) (s : State)
      → Touch now s (rotate_session codec store now jti token s).0
  unfolding rotate_session
  rotate-Touch now jti token s = elim (Option-cases (verify_refresh now token)) [
    | inl e ↦ rw (e, rotate_session) same
    | inr (p, e) ↦ rw (e, rotate_session) (rotate_locked-Touch now jti token p s _ refl)
  ]

  revoke-Touch :
      (now : ℕ) (reason : RevokeReason) (token : String) (s : State)
      → Touch now s (revoke_session codec store now reason token s).0
  unfolding revoke_session
  revoke-Touch now reason token s = elim (Option-cases (verify_refresh now token)) [
    | inl e ↦ rw (e, revoke_session) same
    | inr (p, e) ↦ rw (e, revoke_session) (revoke_locked-Touch now reason p s _ refl)
  ]

  -- No record of the session `k` is active.
  abbrev pub IsDead : ℕ → String → State → Type 0
  IsDead now k s = (e : RefreshSessionRecord) → (get now k s).1 ≡ some e → e.status ≡ revoked

  IsDead-later :
      (now later : ℕ) (k : String) (s : State) → now ≤ later → IsDead now k s → IsDead later k s
  IsDead-later now later k s h d e found = d e (store.get_before now later k e s h found)

  Touch-IsDead :
      (now : ℕ) (k : String) {s s' : State} → Touch now s s' → IsDead now k s → IsDead now k s'
  Touch-IsDead now k same d = d
  Touch-IsDead now k {s} (read j) d =
      λ e h. d e (sym (store.get-get now now j k s (omega arith)) ∙ h)
  Touch-IsDead now k {s} (write j r e ttl found a) d = λ e' h. elim (Bool-cases (j == k)) [
    | inl hit ↦
        let was_dead = d e (subst (λ x. (get now x s).1 ≡ some e) ((eq_iff j k).0 hit) found) in cc
    | inr miss ↦ d e' (
        sym (store.get-get now now j k s (omega arith))
        ∙ ground (arith, store.get-set now now j k r ttl (get now j s).0))
  ]

  issue-IsDead :
      (now : ℕ) (k session_id jti : String) (input : JwtPayload) (s : State)
      → session_id ≢ k
      → IsDead now k s
      → IsDead now k (issue_session codec store now session_id jti input s).0
  unfolding issue_session persist_refresh_token
  issue-IsDead now k session_id jti input s other d e h =
      let p = issued_payload session_id jti input in
      let r = build_session_record codec p (sign_refresh now p) (now + ttl_seconds * 1000) in
      d e (ground (arith, store.get-set now now session_id k r ttl_seconds s, eq_iff session_id k))

  pub run_call-IsDead :
      (now : ℕ) (k : String) (c : Call) (s : State)
      → Avoids k c
      → IsDead now k s
      → IsDead now k (run_call now c s)
  unfolding run_call
  run_call-IsDead now k (issue session_id jti input) s other d =
      issue-IsDead now k session_id jti input s other d
  run_call-IsDead now k (rotate jti token) s _ d =
      Touch-IsDead now k (rotate-Touch now jti token s) d
  run_call-IsDead now k (revoke reason token) s _ d =
      Touch-IsDead now k (revoke-Touch now reason token s) d

  -- A history, oldest call first.
  pub run_calls : List (ℕ × Call) → State → State
  run_calls [] s = s
  run_calls ((now, c) ∷ cs) s = run_calls cs (run_call now c s)

  -- The times of a history do not go back, and none lies before `from` or behind `to`.
  abbrev pub IsOrdered : ℕ → ℕ → List (ℕ × Call) → Type 0
  IsOrdered from to [] = from ≤ to
  IsOrdered from to ((now, c) ∷ cs) = (from ≤ now) × IsOrdered now to cs

  run_calls-IsDead :
      (from to : ℕ) (k : String) (cs : List (ℕ × Call)) (s : State)
      → IsOrdered from to cs
      → All (λ c. Avoids k c.1) cs
      → IsDead from k s
      → IsDead to k (run_calls cs s)
  unfolding run_calls
  run_calls-IsDead from to k [] s h _ d = IsDead-later from to k s h d
  run_calls-IsDead from to k ((now, c) ∷ cs) s (h, hs) (a, as') d =
      run_calls-IsDead now to k cs (run_call now c s) hs as'
        (run_call-IsDead now k c s a (IsDead-later from now k s h d))

  revoke_locked-IsDead :
      (now : ℕ) (reason : RevokeReason) (p : RefreshTokenPayload) (s : State)
      (found : Option RefreshSessionRecord)
      → (get now p.session_id s).1 ≡ found
      → IsDead now p.session_id
          (revoke_locked codec store now reason p (get now p.session_id s).0 found).0
  unfolding revoke_locked build_revoked_session_record
  revoke_locked-IsDead now reason p s none h e' g =
      absurd (ground (arith, store.get-get now now p.session_id p.session_id s))
  revoke_locked-IsDead now reason p s (some e) h e' g = ground (
    arith,
    store.get-get now now p.session_id p.session_id s,
    store.get-set now now p.session_id p.session_id (build_revoked_session_record now e reason)
        (resolve_session_ttl_seconds now e) (get now p.session_id s).0,
    eq_refl p.session_id,
  )

  pub revoke-IsDead :
      (now : ℕ) (reason : RevokeReason) (token : String) (p : RefreshTokenPayload) (s : State)
      → verify_refresh now token ≡ some p
      → IsDead now p.session_id (revoke_session codec store now reason token s).0
  unfolding revoke_session
  revoke-IsDead now reason token p s v =
      rw (v, revoke_session) (revoke_locked-IsDead now reason p s (get now p.session_id s).1 refl)

  IsDead-not-MayRotate :
      (now : ℕ) (token k : String) (p : RefreshTokenPayload) (s : State)
      → verify_refresh now token ≡ some p
      → p.session_id ≡ k
      → IsDead now k s
      → ¬ MayRotate codec store now token s
  IsDead-not-MayRotate now token k p s v same_id d m =
      let same_payload : m.payload ≡ p = cc (m.verified, v) in
      let was_revoked = d m.session (
        subst (λ j. (get now j s).1 ≡ some m.session)
          (ap (λ (q : RefreshTokenPayload). q.session_id) same_payload ∙ same_id) m.stored) in
      cc (m.is_active, was_revoked)

  -- Once a session has been revoked, no call of the service brings it back: whatever calls follow,
  -- at times that do not go back and with no `randomUUID` that repeats the session's id, no token of
  -- the session is ever exchanged again.
  pub rotate-ne-ok_of_revoked :
      (now to : ℕ) (reason : RevokeReason) (jti token token' : String) (p p' : RefreshTokenPayload)
      (s : State) (cs : List (ℕ × Call)) (r : SessionResult)
      → verify_refresh now token ≡ some p
      → IsOrdered now to cs
      → All (λ c. Avoids p.session_id c.1) cs
      → verify_refresh to token' ≡ some p'
      → p'.session_id ≡ p.session_id
      → (rotate_session codec store to jti token'
          (run_calls cs (revoke_session codec store now reason token s).0)).1
        ≢ ok r
  rotate-ne-ok_of_revoked now to reason jti token token' p p' s cs r v ordered fresh v' same_id h =
      IsDead-not-MayRotate to token' p.session_id p' _ v' same_id
        (run_calls-IsDead now to p.session_id cs _ ordered fresh
          (revoke-IsDead now reason token p s v))
        ((rotate-eq-ok_iff codec store to jti token' _).0 (r, h))
