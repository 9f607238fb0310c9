-- ===== src/Jwt/Bearer.antt =====
-- `extractBearerToken` of jwt.ts: the texts that match `BEARER_TOKEN_PATTERN`.
use Prim.Native.Char.{code}
use clutch.Prelude.{
  ◌>>=◌, ℕ, ◌-◌, String, Bool, true, false, ◌&&◌, ◌||◌, Option, none, some, ◌==◌, nat_eq, ltb, leb,
  if◌then◌else◌,
}

-- `[A-Za-z0-9_-]`
abbrev pub is_token_code : ℕ → Bool
is_token_code n =
    (leb 65 n && leb n 90)
    || (leb 97 n && leb n 122)
    || (leb 48 n && leb n 57)
    || n == 95
    || n == 45

-- So many more dots, each between two parts that are not empty; the flag says that the part read last
-- is not.
unfoldable pub parts : ℕ → Bool → String → Bool
parts dots inked String.[] = dots == 0 && inked
parts dots inked (String.◌∷◌ c s) =
    let after_dot = parts (dots - 1) false s in
    let after_code = parts dots true s in
    if code c == 46
    then ltb 0 dots && (inked && after_dot)
    else is_token_code (code c) && after_code

abbrev pub is_compact_token : String → Bool
is_compact_token s = parts 2 false s

unfoldable pub strip_prefix : String → String → Option String
strip_prefix String.[] s = some s
strip_prefix (String.◌∷◌ c p) String.[] = none
strip_prefix (String.◌∷◌ c p) (String.◌∷◌ d s) =
    let rest = strip_prefix p s in if code c == code d then rest else none

unfoldable pub extract_bearer_token : Option String → Option String
extract_bearer_token none = none
extract_bearer_token (some header) = do
  token ← strip_prefix "Bearer " header
  if is_compact_token token then some token else none
