-- ===== src/OAuth/Signed.antt =====
-- The signed states of social-auth.service.ts, which account-connection.service.ts writes and opens in
-- the same way: a payload in base64url, a dot, and its HMAC under a secret. HMAC is a parameter.
use Prim.Native.Char.{char}
use Prim.Native.String.{◌++◌}
use text.Mathlib.TextLemmas.{cons-append, nil-append}
use clutch.Prelude.{
  ◌≡◌, refl, sym, ap, ◌∙◌, String, true, false, ◌||◌, Option, none, some, List, [], ◌∷◌, All, subst,
  arith, if◌then◌else◌, Bool-cases, inl, inr,
}
use clutch.Prelude.Text.{is_empty}
use clutch.Prelude.Chars.{
  split, is_free, split-append, split_of_free, joined, joined-split, split-All,
}
use clutch.Session.Service.{hashes_match, hashes_match_iff}

-- What `verifyStateValue` makes of a state up to the decoding of its payload.
pub data Opened : Type 0 where
  malformed no_secret bad_signature : Opened
  genuine : (encoded_payload : String) → Opened

abbrev pub check_signature : (String → String → String) → String → String → Option String → Opened
check_signature hmac payload signature none = no_secret
check_signature hmac payload signature (some secret) =
    if hashes_match signature (hmac secret payload) then genuine payload else bad_signature

unfoldable pub open_segments : (String → String → String) → Option String → List String → Opened
open_segments hmac secret (payload ∷ signature ∷ []) =
    if is_empty payload || is_empty signature
    then malformed
    else check_signature hmac payload signature secret
open_segments hmac secret _ = malformed

unfoldable pub open_state : (String → String → String) → Option String → String → Opened
unfolding open_segments
open_state hmac secret state = open_segments hmac secret (split 46 state)

-- The state of a payload.
unfoldable pub signed_state : (String → String → String) → String → String → String
signed_state hmac secret payload = payload ++ ("." ++ hmac secret payload)

-- What base64url gives for bytes that are not none: no dot, and not the empty text.
abbrev pub IsEncoded : String → Type 0
IsEncoded s = (is_free 46 s ≡ true) × (is_empty s ≡ false)

dot-append : (s : String) → "." ++ s ≡ String.◌∷◌ (char 46 tt) s
dot-append s = cons-append (char 46 tt) "" s ∙ ap (λ t. String.◌∷◌ (char 46 tt) t) (nil-append s)

-- A state that was signed is opened under the secret that signed it.
pub open_state-signed_state :
    (hmac : String → String → String) (secret payload : String)
    → IsEncoded payload
    → IsEncoded (hmac secret payload)
    → open_state hmac (some secret) (signed_state hmac secret payload) ≡ genuine payload
unfolding open_state open_segments signed_state
open_state-signed_state hmac secret payload (f, i) (g, j) =
    let signature = hmac secret payload in
    let parts : split 46 (payload ++ ("." ++ signature)) ≡ payload ∷ signature ∷ [] =
      ap (λ t. split 46 (payload ++ t)) (dot-append signature)
      ∙ split-append (char 46 tt) payload signature f
      ∙ ap (λ l. payload ∷ l) (split_of_free 46 signature g) in
    rw (parts, i, j, (hashes_match_iff signature signature).1 refl) refl

-- What a genuine state consists of.
pub record IsSigned (hmac : String → String → String) (o : Option String) (state payload : String)
    : Type 0 where
  pub secret : String
  pub known : o ≡ some secret
  pub signed : state ≡ signed_state hmac secret payload
  pub payload_encoded : IsEncoded payload
  pub signature_encoded : IsEncoded (hmac secret payload)

pair_genuine :
    (hmac : String → String → String) (o : Option String) (a b payload : String)
    → is_free 46 a ≡ true
    → is_free 46 b ≡ true
    → open_segments hmac o (a ∷ b ∷ []) ≡ genuine payload
    → IsSigned hmac o (a ++ String.◌∷◌ (char 46 tt) b) payload
unfolding open_segments signed_state
pair_genuine hmac none a b payload fa fb h = absurd (ground arith)
pair_genuine hmac (some secret) a b payload fa fb h =
    elim (Bool-cases (hashes_match b (hmac secret a))) [
      | inl e ↦
          let same : a ≡ payload = ground arith in
          let signature : b ≡ hmac secret a = (hashes_match_iff b (hmac secret a)).0 e in
          let inked : is_empty a ≡ false = ground arith in
          let inked' : is_empty b ≡ false = ground arith in
          rw (← same) (record {
            secret = secret;
            known = refl;
            signed = rw (← signature) (ap (λ t. a ++ t) (sym (dot-append b)));
            payload_encoded = (fa, inked);
            signature_encoded = rw (← signature) (fb, inked');
          })
      | inr e ↦ absurd (ground arith)
    ]

segments_genuine :
    (hmac : String → String → String) (o : Option String) (l : List String) (payload : String)
    → All (λ a. is_free 46 a ≡ true) l
    → open_segments hmac o l ≡ genuine payload
    → IsSigned hmac o (joined (char 46 tt) l) payload
unfolding open_segments
segments_genuine hmac o [] payload free h = cc
segments_genuine hmac o (a ∷ []) payload free h = cc
segments_genuine hmac o (a ∷ b ∷ c ∷ l) payload free h = cc
segments_genuine hmac o (a ∷ b ∷ []) payload (fa, (fb, _)) h =
    pair_genuine hmac o a b payload fa fb h

-- No other text is opened: a state with a genuine payload is that payload's under the secret in use.
pub open_state_genuine :
    (hmac : String → String → String) (o : Option String) (state payload : String)
    → open_state hmac o state ≡ genuine payload
    → IsSigned hmac o state payload
unfolding open_state
open_state_genuine hmac o state payload h =
    subst (λ s. IsSigned hmac o s payload) (joined-split (char 46 tt) state)
      (segments_genuine hmac o (split 46 state) payload (split-All 46 state) h)
