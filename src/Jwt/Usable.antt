-- ===== src/Jwt/Usable.antt =====
-- What a resolved configuration promises to the signers and the verifiers.
use clutch.Prelude.{
  ◌≡◌, refl, sym, ◌∙◌, String, Bool, true, false, Option, none, some, List, [], ◌∷◌, map, ◌==◌,
  nat_eq, arith, length, All, Bool-cases, Option-cases, inl, inr, eq_refl, ap, subst,
}
use clutch.Prelude.Map
use clutch.Prelude.Map.{get_of_has, All-set, All-get}
use clutch.Prelude.Text.{trim, trim_start, trim_end, is_blank, is_empty, trim_idem}
use clutch.Jwt.Types.{JwtKeyRotationConfig, ResolvedJwtKeyRotationConfig, JwtClaimConfig}
use clutch.Jwt.KeyRing.{
  JsonText, not_json, not_object, object, Environment, ConfigInput, nothing, secret, rotation,
  as_entry, configured, resolve_jwt_secret, resolve_single_key_active_kid, resolve_claim,
  resolve_jwt_claim_config, add_entries, parse_jwt_keys_json, kids, with_active,
  normalize_explicit_key_rotation_config, single_key, choose_active, resolve_keyring,
  resolve_from_environment, resolve_jwt_key_rotation_config, default_development_jwt_secret,
}

-- A kid without white space around it, and not empty.
pub record IsKid (kid : String) : Type 0 where
  pub trimmed : trim kid ≡ kid
  pub inked : is_empty kid ≡ false

pub record IsKey (e : String × String) : Type 0 where
  pub kid : IsKid e.0
  pub secret : is_blank e.1 ≡ false

-- The active kid has a secret, every kid is trimmed and not empty, no secret is blank, and the
-- candidates for a token without a kid are the kids of the keys.
pub record IsUsable (c : ResolvedJwtKeyRotationConfig) : Type 0 where
  pub active : (s : String) × (Map.get c.active_kid c.keys ≡ some s)
  pub active_kid : IsKid c.active_kid
  pub keys : All IsKey c.keys
  pub order : c.verification_order ≡ kids c.keys

IsKid-trim : (s : String) → is_blank s ≡ false → IsKid (trim s)
IsKid-trim s h = record { trimmed = trim_idem s; inked = h }

is_blank-trim : (s : String) → is_blank s ≡ false → is_blank (trim s) ≡ false
is_blank-trim s h = ap is_empty (trim_idem s) ∙ h

configured_inked : (o : Option String) (s : String) → configured o ≡ some s → is_blank s ≡ false
unfolding configured
configured_inked none s h = cc
configured_inked (some t) s h = elim (Bool-cases (is_blank t)) [
  | inl e ↦ absurd (ground arith)
  | inr e ↦ let same : t ≡ s = ground arith in rw (← same) e
]

add_entries-IsKey :
    (es : List (String × Option String)) (keys out : List (String × String))
    → add_entries es keys ≡ some out
    → All IsKey keys
    → All IsKey out
unfolding add_entries
add_entries-IsKey [] keys out e h = let same : keys ≡ out = ground arith in subst (All IsKey) same h
add_entries-IsKey ((kid, none) ∷ es) keys out e h = cc
add_entries-IsKey ((kid, some s) ∷ es) keys out e h = elim (Bool-cases (is_blank kid)) [
  | inl b ↦ absurd (ground arith)
  | inr b ↦ elim (Bool-cases (is_blank s)) [
    | inl b' ↦ absurd (ground arith)
    | inr b' ↦ add_entries-IsKey es (Map.set (trim kid) (trim s) keys) out (ground arith) (
        All-set IsKey (trim kid) (trim s) keys h
          (record { kid = IsKid-trim kid b; secret = is_blank-trim s b' }))
  ]
]

with_active-IsUsable :
    (active : String) (keys : List (String × String)) (c : ResolvedJwtKeyRotationConfig)
    → with_active active keys ≡ some c
    → trim active ≡ active
    → All IsKey keys
    → IsUsable c
unfolding with_active
with_active-IsUsable active keys c e t h = elim (Bool-cases (is_empty active)) [
  | inl b ↦ absurd (ground arith)
  | inr b ↦ elim (Bool-cases (Map.has active keys)) [
    | inr b' ↦ absurd (ground arith)
    | inl b' ↦
        let same : record { active_kid = active; keys = keys; verification_order = kids keys } ≡ c =
          ground arith in
        rw (← same) (record {
          active = get_of_has active keys b';
          active_kid = record { trimmed = t; inked = b };
          keys = h;
          order = refl;
        })
  ]
]

single_key-IsUsable :
    (kid s : String) → IsKid kid → is_blank s ≡ false → IsUsable (single_key kid s)
unfolding single_key Map.get
single_key-IsUsable kid s k b = record {
  active = (s, rw (eq_refl kid) refl);
  active_kid = k;
  keys = (record { kid = k; secret = b }, tt);
  order = refl;
}

environment-IsKid : (env : Environment) → IsKid (resolve_single_key_active_kid env)
unfolding resolve_single_key_active_kid trim trim_start trim_end
environment-IsKid env = elim (Option-cases (configured env.jwt_active_kid)) [
  | inl e ↦ rw (e, resolve_single_key_active_kid) (record { trimmed = refl; inked = refl })
  | inr (s, e) ↦
      rw (e, resolve_single_key_active_kid) (IsKid-trim s (configured_inked env.jwt_active_kid s e))
]

secret_inked :
    (env : Environment) (s : String) → resolve_jwt_secret env ≡ some s → is_blank s ≡ false
unfolding resolve_jwt_secret trim trim_start trim_end
secret_inked env s h = elim (Option-cases (configured env.jwt_secret)) [
  | inl e ↦ elim (Bool-cases env.is_production) [
    | inl b ↦ absurd (ground arith)
    | inr b ↦ let same : default_development_jwt_secret ≡ s = ground arith in rw (← same) refl
  ]
  | inr (t, e) ↦
      let same : t ≡ s = ground arith in rw (← same) (configured_inked env.jwt_secret t e)
]

choose_active_trimmed :
    (o : Option String) (keys : List (String × String)) (active : String)
    → choose_active o (kids keys) ≡ some active
    → All IsKey keys
    → trim active ≡ active
unfolding choose_active
choose_active_trimmed (some kid) keys active e h =
    let same : trim kid ≡ active = ground arith in rw (← same) (trim_idem kid)
choose_active_trimmed none [] active e h = cc
choose_active_trimmed none ((kid, s) ∷ []) active e (k, _) =
    let same : kid ≡ active = ground arith in rw (← same) k.kid.trimmed
choose_active_trimmed none (_ ∷ _ ∷ _) active e h = cc

parse-IsKey :
    (json : JsonText) (keys : List (String × String))
    → parse_jwt_keys_json json ≡ some keys
    → All IsKey keys
unfolding parse_jwt_keys_json
parse-IsKey not_json keys e = cc
parse-IsKey not_object keys e = cc
parse-IsKey (object []) keys e = cc
parse-IsKey (object (x ∷ es)) keys e = add_entries-IsKey (x ∷ es) [] keys e tt

keyring-IsUsable :
    (env : Environment) (json : JsonText) (c : ResolvedJwtKeyRotationConfig)
    → resolve_keyring env json ≡ some c
    → IsUsable c
unfolding resolve_keyring
keyring-IsUsable env json c h = elim (Option-cases (parse_jwt_keys_json json)) [
  | inl e ↦ absurd (ground arith)
  | inr (keys, e) ↦
      elim (Option-cases (choose_active (configured env.jwt_active_kid) (kids keys))) [
        | inl e' ↦ absurd (ground arith)
        | inr (active, e') ↦
            let good = parse-IsKey json keys e in
            with_active-IsUsable active keys c (ground arith)
              (choose_active_trimmed (configured env.jwt_active_kid) keys active e' good) good
      ]
]

explicit-IsUsable :
    (config : JwtKeyRotationConfig) (c : ResolvedJwtKeyRotationConfig)
    → normalize_explicit_key_rotation_config config ≡ some c
    → IsUsable c
unfolding normalize_explicit_key_rotation_config
explicit-IsUsable config c h =
    let entries = map as_entry config.keys in
    elim (Option-cases (add_entries entries [])) [
      | inl e ↦ absurd (ground arith)
      | inr (keys, e) ↦ elim (Bool-cases (length keys == 0)) [
        | inl b ↦ absurd (ground arith)
        | inr b ↦
            with_active-IsUsable (trim config.active_kid) keys c (ground arith)
              (trim_idem config.active_kid) (add_entries-IsKey entries [] keys e tt)
      ]
    ]

environment-IsUsable :
    (parse_json : String → JsonText) (env : Environment) (c : ResolvedJwtKeyRotationConfig)
    → resolve_from_environment parse_json env ≡ some c
    → IsUsable c
unfolding resolve_from_environment
environment-IsUsable parse_json env c h = elim (Option-cases (configured env.jwt_keys_json)) [
  | inr (raw, e) ↦ keyring-IsUsable env (parse_json (trim raw)) c (ground arith)
  | inl e ↦ elim (Option-cases (resolve_jwt_secret env)) [
    | inl e' ↦ absurd (ground arith)
    | inr (s, e') ↦
        let same : single_key (resolve_single_key_active_kid env) s ≡ c = ground arith in
        rw (← same) (
          single_key-IsUsable (resolve_single_key_active_kid env) s (environment-IsKid env)
            (secret_inked env s e'))
  ]
]

-- However the keys are configured (an explicit key ring, one secret, the key ring of the environment
-- or its secret), a configuration that is accepted has a secret for its active kid, only kids that
-- are trimmed and not empty, only secrets that are not blank, and tries exactly its own kids.
pub resolve-IsUsable :
    (parse_json : String → JsonText) (env : Environment) (input : ConfigInput)
    (c : ResolvedJwtKeyRotationConfig)
    → resolve_jwt_key_rotation_config parse_json env input ≡ some c
    → IsUsable c
unfolding resolve_jwt_key_rotation_config
resolve-IsUsable parse_json env (rotation config) c h = explicit-IsUsable config c h
resolve-IsUsable parse_json env nothing c h = environment-IsUsable parse_json env c h
resolve-IsUsable parse_json env (secret s) c h = elim (Bool-cases (is_blank s)) [
  | inl b ↦ environment-IsUsable parse_json env c (ground arith)
  | inr b ↦
      let same : single_key (resolve_single_key_active_kid env) (trim s) ≡ c = ground arith in
      rw (← same) (
        single_key-IsUsable (resolve_single_key_active_kid env) (trim s) (environment-IsKid env)
          (is_blank-trim s b))
]

claim_inked :
    (production : Bool) (default : String) (value : Option String) (s : String)
    → resolve_claim production default value ≡ some s
    → is_blank default ≡ false
    → (is_blank s ≡ false) × (production ≡ true → (t : String) × (value ≡ some t) × (s ≡ trim t))
unfolding resolve_claim configured
claim_inked production default none s h d = elim (Bool-cases production) [
  | inl e ↦ absurd (ground arith)
  | inr e ↦ let same : default ≡ s = ground arith in (rw (← same) d, λ p. absurd (ground arith))
]
claim_inked production default (some t) s h d = elim (Bool-cases (is_blank t)) [
  | inr b ↦
      let same : trim t ≡ s = ground arith in
      (rw (← same) (is_blank-trim t b), λ p. (t, refl, sym same))
  | inl b ↦ elim (Bool-cases production) [
    | inl e ↦ absurd (ground arith)
    | inr e ↦ let same : default ≡ s = ground arith in (rw (← same) d, λ p. absurd (ground arith))
  ]
]

-- The issuer and the audience of an accepted configuration are never blank, so that every token that
-- the signers make carries both; and in production each is the environment's, not a default.
pub resolve_jwt_claim_config-inked :
    (env : Environment) (c : JwtClaimConfig)
    → resolve_jwt_claim_config env ≡ some c
    → (is_blank c.issuer ≡ false)
      × (is_blank c.audience ≡ false)
      × (env.is_production ≡ true
          → ((t : String) × (env.jwt_issuer ≡ some t) × (c.issuer ≡ trim t))
            × ((t : String) × (env.jwt_audience ≡ some t) × (c.audience ≡ trim t)))
unfolding resolve_jwt_claim_config trim trim_start trim_end
resolve_jwt_claim_config-inked env c h =
    elim (Option-cases (resolve_claim env.is_production "clutch.backend" env.jwt_issuer)) [
      | inl e ↦ absurd (ground arith)
      | inr (issuer, e) ↦
          elim (Option-cases (resolve_claim env.is_production "clutch.auth" env.jwt_audience)) [
            | inl e' ↦ absurd (ground arith)
            | inr (audience, e') ↦
                let same : record { issuer = issuer; audience = audience } ≡ c = ground arith in
                let i =
                  claim_inked env.is_production "clutch.backend" env.jwt_issuer issuer e refl in
                let a =
                  claim_inked env.is_production "clutch.auth" env.jwt_audience audience e' refl in
                rw (← same) (i.0, a.0, λ p. (i.1 p, a.1 p))
          ]
    ]
