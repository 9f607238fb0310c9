-- ===== src/Jwt/KeyRing.antt =====
-- How jwt.ts finds its keys and its claims: from an argument or from the environment. `none` is a
-- `JwtRotationConfigError`. An object with string keys is a list of its entries; that JavaScript
-- lists keys that look like array indices first is left out.
use clutch.Prelude.{
  ◌>>=◌, String, Bool, not, ◌||◌, Option, none, some, List, [], ◌∷◌, map, ◌==◌, nat_eq, length,
  if◌then◌else◌,
}
use clutch.Prelude.Map
use clutch.Prelude.Text.{trim, is_blank, is_empty}
use clutch.Jwt.Types.{JwtKeyRotationConfig, ResolvedJwtKeyRotationConfig, JwtClaimConfig}

-- What `JSON.parse` makes of `JWT_KEYS_JSON`: an error, a value that is no object, or the entries of an
-- object, where a value that is not a string is `none`.
pub data JsonText : Type 0 where
  not_json not_object : JsonText
  object : List (String × Option String) → JsonText

-- The variables of `process.env` that are read.
pub record Environment : Type 0 where
  pub jwt_secret : Option String
  pub jwt_keys_json : Option String
  pub jwt_active_kid : Option String
  pub jwt_issuer : Option String
  pub jwt_audience : Option String
  pub is_production : Bool

-- `string | JwtKeyRotationConfig | undefined`
pub data ConfigInput : Type 0 where
  nothing : ConfigInput
  secret : String → ConfigInput
  rotation : JwtKeyRotationConfig → ConfigInput

abbrev pub default_development_jwt_secret : String
default_development_jwt_secret = "clutch-dev-secret-change-in-production"

abbrev pub default_single_key_kid : String
default_single_key_kid = "legacy"

-- A variable that is set to more than white space.
unfoldable pub configured : Option String → Option String
configured none = none
configured (some s) = if is_blank s then none else some s

abbrev pub or_else {ℓ} : {A : Type ℓ} → A → Option A → A
or_else d none = d
or_else d (some a) = a

unfoldable pub resolve_jwt_secret : Environment → Option String
resolve_jwt_secret env = elim (configured env.jwt_secret) [
  | some s ↦ some s
  | none ↦ if env.is_production then none else some default_development_jwt_secret
]

unfoldable pub resolve_single_key_active_kid : Environment → String
resolve_single_key_active_kid env = elim (configured env.jwt_active_kid) [
  | some kid ↦ trim kid
  | none ↦ default_single_key_kid
]

unfoldable pub resolve_claim : Bool → String → Option String → Option String
resolve_claim production default value = elim (configured value) [
  | some s ↦ some (trim s)
  | none ↦ if production then none else some default
]

unfoldable pub resolve_jwt_claim_config : Environment → Option JwtClaimConfig
resolve_jwt_claim_config env = do
  issuer ← resolve_claim env.is_production "clutch.backend" env.jwt_issuer
  audience ← resolve_claim env.is_production "clutch.auth" env.jwt_audience
  some (record { issuer = issuer; audience = audience })

-- The loop over the entries, on the keys so far.
unfoldable pub add_entries :
    List (String × Option String) → List (String × String) → Option (List (String × String))
add_entries [] keys = some keys
add_entries ((kid, none) ∷ es) keys = none
add_entries ((kid, some s) ∷ es) keys =
    let rest = add_entries es (Map.set (trim kid) (trim s) keys) in
    if is_blank kid || is_blank s then none else rest

unfoldable pub parse_jwt_keys_json : JsonText → Option (List (String × String))
parse_jwt_keys_json not_json = none
parse_jwt_keys_json not_object = none
parse_jwt_keys_json (object []) = none
parse_jwt_keys_json (object (e ∷ es)) = add_entries (e ∷ es) []

abbrev pub kids : List (String × String) → List String
kids keys = map (λ e. e.0) keys

-- The end that the two key rings share: the active key must be there.
unfoldable pub with_active : String → List (String × String) → Option ResolvedJwtKeyRotationConfig
with_active active keys =
    if is_empty active || not (Map.has active keys)
    then none
    else some (record { active_kid = active; keys = keys; verification_order = kids keys })

abbrev pub as_entry : String × String → String × Option String
as_entry (kid, s) = (kid, some s)

unfoldable pub normalize_explicit_key_rotation_config :
    JwtKeyRotationConfig → Option ResolvedJwtKeyRotationConfig
normalize_explicit_key_rotation_config config = do
  keys ← add_entries (map as_entry config.keys) []
  if length keys == 0 then none else with_active (trim config.active_kid) keys

unfoldable pub single_key : String → String → ResolvedJwtKeyRotationConfig
single_key kid s = record { active_kid = kid; keys = (kid, s) ∷ []; verification_order = kid ∷ [] }

-- The active key of the key ring from the environment.
unfoldable pub choose_active : Option String → List String → Option String
choose_active (some kid) order = some (trim kid)
choose_active none [] = none
choose_active none (kid ∷ []) = some kid
choose_active none (kid ∷ _ ∷ _) = none

unfoldable pub resolve_keyring : Environment → JsonText → Option ResolvedJwtKeyRotationConfig
resolve_keyring env json = do
  keys ← parse_jwt_keys_json json
  active ← choose_active (configured env.jwt_active_kid) (kids keys)
  with_active active keys

module _ (parse_json : String → JsonText) where
  unfoldable pub resolve_from_environment : Environment → Option ResolvedJwtKeyRotationConfig
  resolve_from_environment env = elim (configured env.jwt_keys_json) [
    | some raw ↦ resolve_keyring env (parse_json (trim raw))
    | none ↦ do s ← resolve_jwt_secret env; some (single_key (resolve_single_key_active_kid env) s)
  ]

  unfoldable pub resolve_jwt_key_rotation_config :
      Environment → ConfigInput → Option ResolvedJwtKeyRotationConfig
  resolve_jwt_key_rotation_config env (rotation config) =
      normalize_explicit_key_rotation_config config
  resolve_jwt_key_rotation_config env (secret s) =
      if is_blank s
      then resolve_from_environment env
      else some (single_key (resolve_single_key_active_kid env) (trim s))
  resolve_jwt_key_rotation_config env nothing = resolve_from_environment env
