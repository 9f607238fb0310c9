-- ===== src/Session/Tests.antt =====
-- Runs of the service over the in-memory store, and the theorems of Session at concrete inputs.
use clutch.Prelude.{
  sym, ℕ, ◌≡◌, ◌≢◌, ◌↔◌, refl, String, none, some, List, [], ◌∷◌, arith, eq_iff, ◌==◌, string_eq,
  if◌then◌else◌,
}
use clutch.Prelude.Map
use clutch.Session.Types.{
  logout, security, refresh_token_reuse, active, RefreshSessionRecord, RefreshTokenPayload,
  JwtPayload, SessionResult, session_revoked, reuse, invalid, ok, err, done, noop,
}
use clutch.Session.Store.{Sessions, memory_store, memory_get, memory_set}
use clutch.Session.Service.{
  TokenCodec, hashes_match, build_revoked_session_record, resolve_session_ttl_seconds, payload_fits,
  build_session_record, persist_refresh_token, issue_session, rotated_tokens, rotate_token,
  rotate_locked, rotate_session, revoke_locked, revoke_session,
}
use clutch.Session.Rotation.{MayRotate, Presented, rotate-eq-ok_iff}
use clutch.Session.Reuse.{rotate-rotate_replay, rotate-revoke, rotate-issue}
use clutch.Session.Trace.{Call, issue, rotate, revoke, run_calls, rotate-ne-ok_of_revoked}

-- One user and one session; a token is its own `jti`, and its own hash.
abbrev claims : String → RefreshTokenPayload
claims jti = record { id = "u1"; username = "ann"; session_id = "s1"; jti = jti }

abbrev plain : TokenCodec
plain = record {
  sign_access = λ now p. p.id;
  sign_refresh = λ now p. p.jti;
  verify_refresh = λ now token. if token == "forged" then none else some (claims token);
  hash_refresh_token = λ token. token;
  ttl_seconds = 60;
}

abbrev ann : JwtPayload
ann = record { id = "u1"; username = "ann" }

service : Unit {0}
unfolding Map.get Map.set Map.delete memory_get memory_set hashes_match build_revoked_session_record
    resolve_session_ttl_seconds payload_fits build_session_record persist_refresh_token
    issue_session rotate_token rotate_locked rotate_session revoke_locked revoke_session
service = tt

abbrev after_issue : Sessions
after_issue = (issue_session plain memory_store 1000 "s1" "j1" ann []).0

abbrev first_record : RefreshSessionRecord
first_record = record {
  session_id = "s1";
  user_id = "u1";
  username = "ann";
  token_hash = "j1";
  expires_at = 61000;
  status = active;
  revoked_at = none;
  revoke_reason = none;
}

abbrev after_rotate : Sessions
after_rotate = (rotate_session plain memory_store 2000 "j2" "j1" after_issue).0

rotation_runs :
    ((rotate_session plain memory_store 2000 "j2" "j1" after_issue).1
      ≡ ok (record { access_token = "u1"; refresh_token = "j2" }))
    × ((rotate_session plain memory_store 3000 "j3" "j1" after_rotate).1 ≡ err (reuse (some "s1")))
    × ((rotate_session plain memory_store 3000 "j3" "forged" after_rotate).1 ≡ err invalid)
    × ((rotate_session plain memory_store 70000 "j3" "j2" after_rotate).1 ≡ err invalid)
unfolding service
rotation_runs = (refl, refl, refl, refl)

may_rotate : MayRotate plain memory_store 2000 "j1" after_issue
unfolding service
may_rotate = record {
  payload = claims "j1";
  session = first_record;
  verified = refl;
  stored = refl;
  is_active = refl;
  current = refl;
  same_session = refl;
  same_user = refl;
  same_name = refl;
}

presented :
    (token : String)
    → token ≢ "forged"
    → Presented plain memory_store 2000 token after_issue (claims token) first_record
unfolding service
presented token h = record { verified = ground (arith, eq_iff token "forged"); stored = refl }

rotate-eq-ok_iff_example :
    ((r : SessionResult) × ((rotate_session plain memory_store 2000 "j2" "j1" after_issue).1
        ≡ ok r))
    ↔ MayRotate plain memory_store 2000 "j1" after_issue
rotate-eq-ok_iff_example = rotate-eq-ok_iff plain memory_store 2000 "j2" "j1" after_issue

other_token : ◌≢◌ {A = String} "j1" "j2"
other_token = ground (arith, eq_iff "j1" "j2")

not_forged : ◌≢◌ {A = String} "j2" "forged"
not_forged = ground (arith, eq_iff "j2" "forged")

rotate-rotate_replay_example :
    let rotated = rotate_session plain memory_store 2000 "j2" "j1" after_issue in
    let replayed = rotate_session plain memory_store 3000 "j3" "j1" rotated.0 in
    (replayed.1 ≡ err (reuse (some may_rotate.payload.session_id)))
    × ((rotate_session plain memory_store 4000 "j4" "j2" replayed.0).1
        ≡ err (session_revoked may_rotate.payload.session_id (some refresh_token_reuse)))
unfolding may_rotate
rotate-rotate_replay_example =
    rotate-rotate_replay plain memory_store 2000 3000 4000 "j2" "j3" "j4" "j1" after_issue
      (claims "j1") (claims "j2") may_rotate (λ e. other_token (sym e)) refl refl refl refl
      (omega arith) (omega arith)

rotate-revoke_example :
    let first = revoke_session plain memory_store 2000 logout "j1" after_issue in
    let second = revoke_session plain memory_store 5000 security "j1" first.0 in
    (first.1.status ≡ done)
    × (first.1.reason ≡ some logout)
    × (second.1 ≡ record { session_id = some "s1"; status = noop; reason = some logout })
    × ((memory_get 6000 "s1" second.0).1 ≡ (memory_get 6000 "s1" first.0).1)
    × ((rotate_session plain memory_store 5000 "j2" "j1" first.0).1
        ≡ err (session_revoked "s1" (some logout)))
    × ((rotate_session plain memory_store 6000 "j2" "j1" second.0).1
        ≡ err (session_revoked "s1" (some logout)))
rotate-revoke_example =
    rotate-revoke plain memory_store 2000 5000 6000 "j2" "j1" "j1" "s1" logout security after_issue
      (claims "j1") (claims "j1") first_record
      (presented "j1" (ground (arith, eq_iff "j1" "forged"))) refl refl refl refl (omega arith)
      (omega arith)

rotate-issue_example :
    (rotate_session plain memory_store 2000 "j2" "j1" after_issue).1
    ≡ ok (rotated_tokens plain memory_store 2000 "j2" (claims "j1"))
unfolding issue_session
rotate-issue_example =
    rotate-issue plain memory_store 1000 2000 "s1" "j1" "j2" ann [] refl (omega arith)

abbrev later_calls : List (ℕ × Call)
later_calls =
    (3000, rotate "j2" "j1") ∷ (4000, issue "s2" "j5" ann) ∷ (5000, revoke security "j1") ∷ []

rotate-ne-ok_of_revoked_example :
    (rotate_session plain memory_store 6000 "j6" "j1" (
      run_calls plain memory_store later_calls
        (revoke_session plain memory_store 2000 logout "j1" after_issue).0)).1
    ≢ ok (record { access_token = "u1"; refresh_token = "j6" })
rotate-ne-ok_of_revoked_example =
    rotate-ne-ok_of_revoked plain memory_store 2000 6000 logout "j6" "j1" "j1" (claims "j1")
      (claims "j1") after_issue later_calls (record { access_token = "u1"; refresh_token = "j6" })
      refl (omega arith) (tt, (ground (arith, eq_iff "s2" "s1"), (tt, tt))) refl refl
