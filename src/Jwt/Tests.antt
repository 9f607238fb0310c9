-- ===== src/Jwt/Tests.antt =====
-- The theorems of Jwt at concrete inputs: a library whose tokens are the signed claims in the clear.
use clutch.Prelude.{
  ◌↔◌, ◌≡◌, refl, String, true, false, ◌&&◌, none, some, [], ◌∷◌, ◌==◌, string_eq, nat_eq, arith,
  ltb, leb, if◌then◌else◌,
}
use clutch.Prelude.Map
use clutch.Prelude.Text.{trim, trim_start, trim_end}
use clutch.Session.Types.{RefreshTokenPayload, JwtPayload, ok}
use clutch.Session.Store.{memory_store}
use clutch.Session.Service.{issue_session, rotated_tokens, rotate_session}
use clutch.Jwt.Types.{
  text, Claims, claims, JwtKeyRotationConfig, ResolvedJwtKeyRotationConfig, JwtClaimConfig, passed,
  Verified, SignOptions, JsonWebToken,
}
use clutch.Jwt.KeyRing.{
  JsonText, not_json, object, Environment, nothing, secret, rotation, configured,
  resolve_jwt_secret, resolve_single_key_active_kid, add_entries, with_active,
  normalize_explicit_key_rotation_config, parse_jwt_keys_json, choose_active, resolve_keyring,
  resolve_from_environment, resolve_jwt_key_rotation_config, single_key,
}
use clutch.Jwt.Usable.{IsUsable, resolve-IsUsable}
use clutch.Jwt.Laws.{Accepted, verify-Accepted}
use clutch.Jwt.Roundtrip.{
  stamped, SignsAndVerifies, verify-sign_refresh, verify-sign_access, verify_access-sign_refresh,
}
use Prim.Native.String.{◌++◌}
use clutch.Jwt.Bearer.{extract_bearer_token, strip_prefix, parts}
use clutch.Jwt.Compact.{IsCompact, extract_bearer_token_iff}
use clutch.Jwt.Codec.{jwt_codec, rotate-issue_jwt}
use clutch.Jwt.Verify.{
  verify_access, verify_refresh, verify_token_against_candidates, assert_jwt_payload,
}
use clutch.Jwt.Sign.{
  access_claims, refresh_claims, sign_options, active_secret, sign_access, sign_refresh,
}

keyring : Unit {0}
unfolding Map.get Map.set Map.has trim trim_start trim_end configured resolve_jwt_secret
    resolve_single_key_active_kid add_entries with_active normalize_explicit_key_rotation_config
    parse_jwt_keys_json choose_active resolve_keyring resolve_from_environment
    resolve_jwt_key_rotation_config single_key
keyring = tt

abbrev bare_environment : Environment
bare_environment = record {
  jwt_secret = none;
  jwt_keys_json = none;
  jwt_active_kid = none;
  jwt_issuer = none;
  jwt_audience = none;
  is_production = true;
}

abbrev two_keys : JwtKeyRotationConfig
two_keys = record { active_kid = " new "; keys = ("old", "s1") ∷ (" new", "s2 ") ∷ [] }

abbrev ring : ResolvedJwtKeyRotationConfig
ring = record {
  active_kid = "new";
  keys = ("old", "s1") ∷ ("new", "s2") ∷ [];
  verification_order = "old" ∷ "new" ∷ [];
}

abbrev no_json : String → JsonText
no_json raw = not_json

resolutions :
    (resolve_jwt_key_rotation_config no_json bare_environment (rotation two_keys) ≡ some ring)
    × (resolve_jwt_key_rotation_config no_json bare_environment nothing ≡ none)
    × (resolve_jwt_key_rotation_config no_json bare_environment (secret " k ")
        ≡ some (single_key "legacy" "k"))
    × (resolve_jwt_key_rotation_config
          (λ raw. object (("a", some "x") ∷ ("b", some "y") ∷ []))
          (record bare_environment { jwt_keys_json = some "two" })
          nothing
        ≡ none)
unfolding keyring
resolutions = (refl, refl, refl, refl)

ring-IsUsable : IsUsable ring
unfolding keyring
ring-IsUsable = resolve-IsUsable no_json bare_environment (rotation two_keys) ring refl

resolve-IsUsable_example : IsUsable ring
unfolding keyring
resolve-IsUsable_example = resolve-IsUsable no_json bare_environment (rotation two_keys) ring refl

abbrev own_claims : JwtClaimConfig
own_claims = record { issuer = "clutch.backend"; audience = "clutch.auth" }

abbrev options : SignOptions
options = record {
  expires_in = 600;
  issuer = "clutch.backend";
  audience = "clutch.auth";
  kid = "new";
}

-- The library in a world where one token exists, signed at second 100 for ten minutes under the
-- secret "s2".
abbrev only : Claims → JsonWebToken
only c = record {
  decode_header = λ token. some (text "new");
  decode = λ token. some (claims (stamped 100 options c));
  verify = λ later s token.
      if s == "s2" && leb 100 later && ltb later 700
      then some (claims (stamped 100 options c))
      else none;
  sign = λ now o s c. "token";
}

only-SignsAndVerifies :
    (c : Claims)
    → SignsAndVerifies
        (only c)
        100
        (sign_options (only c) ring own_claims 600)
        (active_secret (only c) ring own_claims 600)
        c
unfolding sign_options active_secret keyring
only-SignsAndVerifies c = record {
  header = refl;
  payload = refl;
  verifies = λ later h h'. ground (arith, h, h');
}

abbrev session : RefreshTokenPayload
session = record { id = "u1"; username = "ann"; session_id = "s1"; jti = "j1" }

abbrev ann : JwtPayload
ann = record { id = "u1"; username = "ann" }

abbrev answered {ℓ} : {A : Type ℓ} → A → Verified A
answered payload = record {
  payload = payload;
  key_id = "new";
  token_key_id = some "new";
  legacy_token = false;
  issuer_present = true;
  audience_present = true;
  not_before_present = true;
}

verify-sign_refresh_example :
    let jwt = only (refresh_claims session) in
    verify_refresh jwt ring own_claims 400 (sign_refresh jwt ring own_claims 600 100 session)
    ≡ passed (answered session)
unfolding keyring
verify-sign_refresh_example =
    verify-sign_refresh (only (refresh_claims session)) ring ring own_claims 600 ring-IsUsable refl
      refl refl 100 400 session (omega arith) (omega arith)
      (only-SignsAndVerifies (refresh_claims session))

verify_access-sign_refresh_example :
    let jwt = only (refresh_claims session) in
    verify_access jwt ring own_claims 400 (sign_refresh jwt ring own_claims 600 100 session)
    ≡ passed (answered ann)
unfolding keyring
verify_access-sign_refresh_example =
    verify_access-sign_refresh (only (refresh_claims session)) ring ring own_claims 600
      ring-IsUsable refl refl refl 100 400 session (omega arith) (omega arith)
      (only-SignsAndVerifies (refresh_claims session))

signed_access :
    verify_token_against_candidates
      (only (access_claims ann))
      ring
      own_claims
      assert_jwt_payload
      400
      "token"
    ≡ passed (answered ann)
unfolding keyring verify_access sign_access
signed_access =
    (verify-sign_access (only (access_claims ann)) ring ring own_claims 600 ring-IsUsable refl refl
      refl 100 400 ann (omega arith) (omega arith) (only-SignsAndVerifies (access_claims ann))).0

verify-Accepted_example :
    Accepted
      (only (access_claims ann))
      ring
      own_claims
      assert_jwt_payload
      400
      "token"
      (answered ann)
unfolding verify_access sign_access
verify-Accepted_example =
    verify-Accepted (only (access_claims ann)) ring own_claims assert_jwt_payload 400 "token"
      (answered ann) signed_access

rotate-issue_jwt_example :
    let jwt = only (refresh_claims session) in
    let codec = jwt_codec jwt ring own_claims 600 600 (λ token. token) in
    let issued = issue_session codec memory_store 100000 "s1" "j1" ann [] in
    (rotate_session codec memory_store 400000 "j2" issued.1.refresh_token issued.0).1
    ≡ ok (rotated_tokens codec memory_store 400000 "j2" session)
unfolding keyring
rotate-issue_jwt_example =
    rotate-issue_jwt (only (refresh_claims session)) ring own_claims 600 600 (λ token. token)
      memory_store 100000 400000 "s1" "j1" "j2" ann [] ring-IsUsable refl refl (omega arith)
      (omega arith) (only-SignsAndVerifies (refresh_claims session))

bearer_tokens :
    (extract_bearer_token (some "Bearer a.b-_.C9") ≡ some "a.b-_.C9")
    × (extract_bearer_token (some "Bearer a.b") ≡ none)
    × (extract_bearer_token (some "Bearer a..c") ≡ none)
    × (extract_bearer_token (some "bearer a.b.c") ≡ none)
unfolding extract_bearer_token strip_prefix parts
bearer_tokens = (refl, refl, refl, refl)

extract_bearer_token_iff_example :
    (extract_bearer_token (some "Bearer a.b.c") ≡ some "a.b.c")
    ↔ ((◌≡◌ {A = String} "Bearer a.b.c" ("Bearer " ++ "a.b.c")) × IsCompact "a.b.c")
extract_bearer_token_iff_example = extract_bearer_token_iff "Bearer a.b.c" "a.b.c"
