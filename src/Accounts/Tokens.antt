-- ===== src/Accounts/Tokens.antt =====
-- config/protected-token.ts: tokens of providers at rest. AES-256-GCM under the SHA-256 of a secret,
-- written in base64url, is a parameter.
use Prim.Native.String.{◌++◌}
use clutch.Prelude.{
  ◌≡◌, String, Bool, true, false, ◌||◌, Option, none, some, List, ◌∷◌, if◌then◌else◌,
}
use clutch.Prelude.Text.{is_empty}
use clutch.Prelude.Environment.{otherwise, trimmed, secret_or_default}
use clutch.Prelude.Chars.{starts_with, split, is_free}

-- The variables of the environment, by their lower-case names.
pub record Environment : Type 0 where
  pub connected_account_token_secret : Option String
  pub jwt_secret : Option String
  pub is_production : Bool

-- The three parts of an encrypted token, in base64url.
pub record Sealed : Type 0 where
  pub iv : String
  pub auth_tag : String
  pub ciphertext : String

-- `encrypt secret iv token` and `decrypt secret parts`; the latter throws (`none`) where the tag does
-- not fit.
pub record Cipher : Type 0 where
  pub encrypt : String → String → String → Sealed
  pub decrypt : String → Sealed → Option String

abbrev pub token_prefix : String
token_prefix = "enc:v1"

abbrev pub default_development_secret : String
default_development_secret = "clutch-connected-account-dev-secret"

unfoldable pub resolve_token_protection_secret : Environment → Option String
resolve_token_protection_secret env =
    secret_or_default env.is_production default_development_secret
      (otherwise (trimmed env.connected_account_token_secret) (trimmed env.jwt_secret))

-- The parts after the prefix, with a colon before each.
abbrev pub sealed_text : Sealed → String
sealed_text parts = ":" ++ (parts.iv ++ (":" ++ (parts.auth_tag ++ (":" ++ parts.ciphertext))))

abbrev encrypted : Cipher → String → String → Option String → Option (Option String)
encrypted cipher iv token none = none
encrypted cipher iv token (some secret) =
    some (some (token_prefix ++ sealed_text (cipher.encrypt secret iv token)))

-- `iv` is what `randomBytes` draws; `none` is the error of a missing secret, and `some none` is `null`.
unfoldable pub protect_sensitive_token :
    Environment → Cipher → String → Option String → Option (Option String)
unfolding resolve_token_protection_secret
protect_sensitive_token env cipher iv none = some none
protect_sensitive_token env cipher iv (some token) =
    if is_empty token
    then some none
    else if starts_with (token_prefix ++ ":") token
    then some (some token)
    else encrypted cipher iv token (resolve_token_protection_secret env)

abbrev pub as_answer : Option String → Option (Option String)
as_answer none = none
as_answer (some token) = some (some token)

abbrev opened : Cipher → Sealed → Option String → Option (Option String)
opened cipher parts none = none
opened cipher parts (some secret) = as_answer (cipher.decrypt secret parts)

unfoldable pub reveal_parts : Environment → Cipher → List String → Option (Option String)
unfolding resolve_token_protection_secret
reveal_parts env cipher (_ ∷ _ ∷ iv ∷ auth_tag ∷ ciphertext ∷ _) =
    if is_empty iv || is_empty auth_tag || is_empty ciphertext
    then none
    else opened cipher (record { iv = iv; auth_tag = auth_tag; ciphertext = ciphertext })
        (resolve_token_protection_secret env)
reveal_parts env cipher _ = none

unfoldable pub reveal_sensitive_token :
    Environment → Cipher → Option String → Option (Option String)
unfolding reveal_parts
reveal_sensitive_token env cipher none = some none
reveal_sensitive_token env cipher (some token) =
    if is_empty token
    then some none
    else if starts_with (token_prefix ++ ":") token
    then reveal_parts env cipher (split 58 token)
    else some (some token)

-- What base64url gives for bytes that are not none: no colon, and not the empty text.
abbrev pub IsEncoded : String → Type 0
IsEncoded s = (is_free 58 s ≡ true) × (is_empty s ≡ false)

-- What Node's AES-256-GCM does with one token under one secret and initialisation vector.
pub record Seals (cipher : Cipher) (secret iv token : String) : Type 0 where
  pub opens : cipher.decrypt secret (cipher.encrypt secret iv token) ≡ some token
  pub iv_encoded : IsEncoded (cipher.encrypt secret iv token).iv
  pub tag_encoded : IsEncoded (cipher.encrypt secret iv token).auth_tag
  pub text_encoded : IsEncoded (cipher.encrypt secret iv token).ciphertext
