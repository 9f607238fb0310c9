-- ===== src/Jwt/Laws.antt =====
-- What the verifiers guarantee, and how they answer the signers.
use clutch.Prelude.{
  ◌≡◌, ℕ, refl, ◌∙◌, String, true, false, Option, none, some, List, [], ◌∷◌, map, nat_eq, string_eq,
  arith, All, any, Bool-cases, Option-cases, inl, inr, ap, ◌⊎◌,
}
use clutch.Prelude.Map
use clutch.Prelude.Map.{All-get}
use clutch.Prelude.Text.{is_empty}
use clutch.Jwt.Types.{
  Claim, Claims, Decoded, bare, claims, ResolvedJwtKeyRotationConfig, VerificationCandidate,
  JwtClaimConfig, JwtFailure, malformed, kid_rejected, Checked, passed, threw, Verified,
  JsonWebToken,
}
use clutch.Jwt.Verify.{
  text_of, is_text, header_kid, issuer_present, audience_present, normalized_audience, candidate_of,
  named_candidate, resolve_verification_candidates, verified, finish, check_claims, check_candidate,
  try_candidates, try_resolved, verify_decoded, verify_token_against_candidates,
}

Checked-cases {ℓ} :
    {A : Type ℓ} (r : Checked A) → ((a : A) × (r ≡ passed a)) ⊎ ((e : JwtFailure) × (r ≡ threw e))
Checked-cases (passed a) = inl (a, refl)
Checked-cases (threw e) = inr (e, refl)

module _ {A : Type 0} (jwt : JsonWebToken) (config : ResolvedJwtKeyRotationConfig)
    (claim_config : JwtClaimConfig) (assert_payload : Decoded → Option A) where
  -- What stands behind an accepted token.
  pub record Accepted (now : ℕ) (token : String) (v : Verified A) : Type 0 where
    pub header : Claim
    pub decoded : Claims
    pub secret : String
    pub payload : Decoded
    pub has_header : jwt.decode_header token ≡ some header
    pub has_payload : jwt.decode token ≡ some (claims decoded)
    pub key : Map.get v.key_id config.keys ≡ some secret
    pub signed : jwt.verify now secret token ≡ some payload
    pub typed : assert_payload payload ≡ some v.payload
    pub named : (kid : String) → header_kid header ≡ some kid → v.key_id ≡ kid
    pub issuer :
        issuer_present decoded ≡ true → is_text claim_config.issuer (text_of decoded.iss) ≡ true
    pub audience :
        audience_present decoded.aud ≡ true
        → any (is_text claim_config.audience) (normalized_audience decoded.aud) ≡ true

  -- What stands behind a candidate that passed.
  record Chosen (now : ℕ) (token : String) (decoded : Claims) (c : VerificationCandidate)
      (v : Verified A) : Type 0 where
    secret : String
    payload : Decoded
    key : c.secret ≡ some secret
    same : v.key_id ≡ c.key_id
    signed : jwt.verify now secret token ≡ some payload
    typed : assert_payload payload ≡ some v.payload
    issuer :
        issuer_present decoded ≡ true → is_text claim_config.issuer (text_of decoded.iss) ≡ true
    audience :
        audience_present decoded.aud ≡ true
        → any (is_text claim_config.audience) (normalized_audience decoded.aud) ≡ true

  chosen :
      (now : ℕ) (token : String) (kid : Option String) (decoded : Claims)
      (c : VerificationCandidate) (v : Verified A)
      → check_candidate jwt now assert_payload claim_config token kid decoded c ≡ passed v
      → Chosen now token decoded c v
  unfolding check_candidate check_claims finish verified
  chosen now token kid decoded c v h = elim (Option-cases c.secret) [
    | inl e ↦ absurd (ground arith)
    | inr (secret, e) ↦ elim (Option-cases (jwt.verify now secret token)) [
      | inl e' ↦ absurd (ground arith)
      | inr (payload, e') ↦ elim (Option-cases (assert_payload payload)) [
        | inl e'' ↦ absurd (ground arith)
        | inr (a, e'') ↦
            let same : verified jwt now assert_payload claim_config token kid decoded c a ≡ v =
              ground arith in
            record {
              secret = secret;
              payload = payload;
              key = e;
              same = ground arith;
              signed = e';
              typed = ground arith;
              issuer = λ p. ground arith;
              audience = λ p. ground arith;
            }
      ]
    ]
  ]

  tried :
      (now : ℕ) (token : String) (kid : Option String) (decoded : Claims) (last : JwtFailure)
      (cs : List VerificationCandidate) (v : Verified A) (Q : VerificationCandidate → Type 0)
      → try_candidates jwt now assert_payload claim_config token kid decoded last cs ≡ passed v
      → All Q cs
      → (c : VerificationCandidate) × Q c × Chosen now token decoded c v
  unfolding try_candidates
  tried now token kid decoded last [] v Q h q = cc
  tried now token kid decoded last (c ∷ cs) v Q h (q, qs) =
      elim (Checked-cases
        (check_candidate jwt now assert_payload claim_config token kid decoded c)) [
          | inl (w, e) ↦
              let same : w ≡ v = ground arith in
              (c, q, chosen now token kid decoded c v (e ∙ ap passed same))
          | inr (f, e) ↦ tried now token kid decoded f cs v Q (ground arith) qs
        ]

  -- The candidate's secret is the configuration's for its kid, and its kid is the header's.
  record Proper (kid : Option String) (c : VerificationCandidate) : Type 0 where
    of_keys : Map.get c.key_id config.keys ≡ c.secret
    of_header : (k : String) → kid ≡ some k → c.key_id ≡ k

  ordered-Proper : (order : List String) → All (Proper none) (map (candidate_of config.keys) order)
  unfolding candidate_of
  ordered-Proper [] = tt
  ordered-Proper (kid ∷ order) =
      (record { of_keys = refl; of_header = λ k e. cc }, ordered-Proper order)

  candidates-Proper :
      (kid : Option String) (cs : List VerificationCandidate)
      → resolve_verification_candidates config kid ≡ passed cs
      → All (Proper kid) cs
  unfolding resolve_verification_candidates named_candidate
  candidates-Proper none cs h =
      let same : map (candidate_of config.keys) config.verification_order ≡ cs = ground arith in
      rw (← same) (ordered-Proper config.verification_order)
  candidates-Proper (some kid) cs h = elim (Option-cases (Map.get kid config.keys)) [
    | inl e ↦ absurd (ground arith)
    | inr (s, e) ↦ elim (Bool-cases (is_empty s)) [
      | inl b ↦ absurd (ground arith)
      | inr b ↦
          let same : record { key_id = kid; secret = some s; legacy_token = false } ∷ [] ≡ cs =
            ground arith in
          rw (← same) (record { of_keys = e; of_header = λ k e. ground arith }, tt)
    ]
  ]

  try_resolved-Accepted :
      (now : ℕ) (token : String) (header : Claim) (decoded : Claims) (v : Verified A)
      (r : Checked (List VerificationCandidate))
      → jwt.decode_header token ≡ some header
      → jwt.decode token ≡ some (claims decoded)
      → resolve_verification_candidates config (header_kid header) ≡ r
      → try_resolved jwt config claim_config assert_payload now token (header_kid header) decoded r
        ≡ passed v
      → Accepted now token v
  unfolding try_resolved
  try_resolved-Accepted now token header decoded v (threw e) hh hp hr h = cc
  try_resolved-Accepted now token header decoded v (passed cs) hh hp hr h =
      let (c, q, chosen) =
        tried now token (header_kid header) decoded malformed cs v (Proper (header_kid header)) h
          (candidates-Proper (header_kid header) cs hr) in
      record {
        header = header;
        decoded = decoded;
        secret = chosen.secret;
        payload = chosen.payload;
        has_header = hh;
        has_payload = hp;
        key = rw chosen.same (q.of_keys ∙ chosen.key);
        signed = chosen.signed;
        typed = chosen.typed;
        named = λ kid e. chosen.same ∙ q.of_header kid e;
        issuer = chosen.issuer;
        audience = chosen.audience;
      }

  verify_decoded-Accepted :
      (now : ℕ) (token : String) (o : Option Claim) (d : Option Decoded) (v : Verified A)
      → jwt.decode_header token ≡ o
      → jwt.decode token ≡ d
      → verify_decoded jwt config claim_config assert_payload now token o d ≡ passed v
      → Accepted now token v
  unfolding verify_decoded
  verify_decoded-Accepted now token none d v ho hd h = cc
  verify_decoded-Accepted now token (some header) none v ho hd h = cc
  verify_decoded-Accepted now token (some header) (some (bare s)) v ho hd h = cc
  verify_decoded-Accepted now token (some header) (some (claims c)) v ho hd h =
      try_resolved-Accepted now token header c v
        (resolve_verification_candidates config (header_kid header)) ho hd refl h

  -- A token is accepted only if its signature verifies, at this time, under the configured secret of the
  -- key that the answer names, which is the key that the token's header names if it names one; the
  -- payload is what that verification returned and has the right type; and an issuer or an audience
  -- that the token has is the configured one.
  pub verify-Accepted :
      (now : ℕ) (token : String) (v : Verified A)
      → verify_token_against_candidates jwt config claim_config assert_payload now token ≡ passed v
      → Accepted now token v
  unfolding verify_token_against_candidates
  verify-Accepted now token v h =
      verify_decoded-Accepted now token (jwt.decode_header token) (jwt.decode token) v refl refl h

  -- A token whose header names a key that is not configured is rejected for its kid, whatever it says
  -- and whoever signed it: no other key is tried.
  pub verify_unknown_kid :
      (now : ℕ) (token : String) (header : Claim) (decoded : Claims) (kid : String)
      → jwt.decode_header token ≡ some header
      → jwt.decode token ≡ some (claims decoded)
      → header_kid header ≡ some kid
      → Map.get kid config.keys ≡ none
      → verify_token_against_candidates jwt config claim_config assert_payload now token
        ≡ threw (kid_rejected kid)
  unfolding verify_token_against_candidates verify_decoded resolve_verification_candidates
      named_candidate try_resolved
  verify_unknown_kid now token header decoded kid hh hp hk missing = rw (hh, hp, hk, missing) refl
