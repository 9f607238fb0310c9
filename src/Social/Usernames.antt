-- ===== src/Social/Usernames.antt =====
-- The user names and addresses that social-auth.service.ts gives: `normalizeVerifiedEmail` to
-- `buildAvailableUsername`. `nfkd` is `normalize('NFKD')`, whose tables are not modelled.
use Prim.Native.Char.{Char, char, code}
use Prim.Native.String.{◌++◌}
use clutch.Prelude.{
  ℕ, ◌-◌, String, Bool, false, not, ◌&&◌, ◌||◌, Option, none, some, List, [], ◌∷◌, ◌==◌, nat_eq,
  leb, if◌then◌else◌,
}
use clutch.Prelude.Text.{trim, is_empty}
use clutch.Prelude.Chars.{size, take, only, split}
use clutch.Prelude.Lower.{lower_text, lower_char}
use clutch.Accounts.Types.{Platform}
use clutch.Providers.Types.{Result, ok, err}
use clutch.Providers.Names.{SocialReason, platform_name}
use clutch.Social.Types.{Identity, StateCodec, Environment}
use clutch.Social.State.{resolve_state_secret, no_secret_failure}

abbrev pub username_max_length : ℕ
username_max_length = 30

abbrev pub username_suffix_length : ℕ
username_suffix_length = 6

-- `[a-zA-Z0-9_]`
abbrev pub is_word : Char → Bool
is_word c =
    (leb 97 (code c) && leb (code c) 122)
    || (leb 65 (code c) && leb (code c) 90)
    || (leb 48 (code c) && leb (code c) 57)
    || code c == 95

-- `[a-z0-9_-]`
abbrev pub is_safe : Char → Bool
is_safe c =
    (leb 97 (code c) && leb (code c) 122)
    || (leb 48 (code c) && leb (code c) 57)
    || code c == 95
    || code c == 45

abbrev pub is_mark : Char → Bool
is_mark c = leb 768 (code c) && leb (code c) 879

abbrev pub is_underscore : Char → Bool
is_underscore c = code c == 95

-- `replace(/[^...]+/gu, d)`: each run of characters that fail the test is one `d`. The flag says that the
-- character before failed.
unfoldable pub replace_runs : (Char → Bool) → Char → Bool → String → String
replace_runs p d inside String.[] = String.[]
replace_runs p d inside (String.◌∷◌ c s) =
    let rest = replace_runs p d (not (p c)) s in
    if p c then String.◌∷◌ c rest else if inside then rest else String.◌∷◌ d rest

-- `replace(/^_+|_+$/gu, '')`, in two halves.
unfoldable pub strip_start : (Char → Bool) → String → String
strip_start p String.[] = String.[]
strip_start p (String.◌∷◌ c s) = if p c then strip_start p s else String.◌∷◌ c s

unfoldable pub strip_end : (Char → Bool) → String → String
strip_end p String.[] = String.[]
strip_end p (String.◌∷◌ c s) =
    let rest = strip_end p s in if is_empty rest && p c then String.[] else String.◌∷◌ c rest

-- `toLowerCase` on the characters that are left.
unfoldable pub lower_chars : String → String
unfolding lower_char
lower_chars String.[] = String.[]
lower_chars (String.◌∷◌ c s) = String.◌∷◌ (lower_char c) (lower_chars s)

abbrev pub text_or : String → Option String → String
text_or d none = d
text_or d (some s) = s

unfoldable pub sanitized : (String → String) → String → String
unfolding replace_runs strip_start strip_end lower_chars
sanitized nfkd s = lower_chars (
    strip_end is_underscore (
      strip_start is_underscore
        (replace_runs is_word (char 95 tt) false (only (λ c. not (is_mark c)) (nfkd s)))))

abbrev pub long_enough : String → String
long_enough s = if leb 3 (size s) then take username_max_length s else "player"

unfoldable pub sanitize_username_seed : (String → String) → Option String → String
unfolding sanitized
sanitize_username_seed nfkd value = long_enough (sanitized nfkd (text_or "player" value))

-- A text that is there and not empty.
abbrev pub given : Option String → Option String
given none = none
given (some s) = if is_empty s then none else some s

abbrev pub lowered : (String → String) → Option String → Option String
lowered to_lower_case none = none
lowered to_lower_case (some s) = some (to_lower_case (trim s))

-- An address need not be ASCII: `toLowerCase` is a parameter.
unfoldable pub normalize_verified_email : (String → String) → Identity → Option String
normalize_verified_email to_lower_case identity =
    if not identity.email_verified then none else lowered to_lower_case (given identity.email)

abbrev pub social_placeholder_email_domain : String
social_placeholder_email_domain = "users.clutch.local"

unfoldable pub build_placeholder_email : Platform → String → String
unfolding replace_runs
build_placeholder_email provider external_id =
    let safe = replace_runs is_safe (char 45 tt) false (lower_text external_id) in
    "social+"
    ++ (lower_text (platform_name provider)
        ++ ("-" ++ (safe ++ ("@" ++ social_placeholder_email_domain))))

abbrev pub first_part : List String → Option String
first_part [] = none
first_part (s ∷ l) = some s

abbrev pub local_part : Identity → Option String
local_part identity = elim identity.email [
  | none ↦ none
  | some email ↦ if identity.email_verified then first_part (split 64 email) else none
]

abbrev pub first_given : Option String → Option String → Option String
first_given (some s) o = some s
first_given none o = o

unfoldable pub username_base : (String → String) → Identity → String
unfolding sanitize_username_seed
username_base nfkd identity =
    sanitize_username_seed nfkd
      (first_given identity.username (first_given identity.display_name (local_part identity)))

unfoldable pub username_candidate : (String → String → String) → Identity → String → String → String
username_candidate hex identity base secret =
    take (username_max_length - username_suffix_length - 1) base
    ++ ("_"
        ++ take username_suffix_length
            (hex secret (platform_name identity.provider ++ (":" ++ identity.external_id))))

-- `uuid` is the value of `randomUUID`.
unfoldable pub random_username : String → String
random_username uuid = "player_" ++ take 12 (only (λ c. not (code c == 45)) uuid)

-- `is_taken` is whether `findByUsername` finds a user.
module _ (is_taken : String → Bool) where
  abbrev pub with_suffix :
      StateCodec → Identity → String → String → Option String → Result SocialReason String
  with_suffix codec identity base uuid none = err no_secret_failure
  with_suffix codec identity base uuid (some secret) =
      let candidate = username_candidate codec.hmac_hex identity base secret in
      if is_taken candidate then ok (random_username uuid) else ok candidate

  unfoldable pub build_available_username :
      Environment → StateCodec → (String → String) → Identity → String → Result SocialReason String
  unfolding username_base
  build_available_username env codec nfkd identity uuid =
      let base = username_base nfkd identity in
      if is_taken base
      then with_suffix codec identity base uuid (resolve_state_secret env)
      else ok base
