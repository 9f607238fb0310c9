-- ===== src/Providers/Laws.antt =====
-- Which names of providers are accepted, and that the registry is complete.
use clutch.Prelude.{
  ◌≡◌, ◌↔◌, inl, inr, refl, sym, ap, ◌∙◌, subst, String, Bool, true, false, Option, none, some,
  List, [], ◌∷◌, map, find, arith, ◌==◌, nat_eq, Bool-cases, ℕ,
}
use clutch.Prelude.Text.{trim}
use clutch.Prelude.Chars.{codes, upper_codes}
use clutch.Accounts.Types.{
  Platform, google, steam, epic, discord, xbox, psn, riot, anilist, myanimelist, platform_eq,
  same_codes,
}
use clutch.Accounts.Service.{Reason}
use clutch.Database.Memory.{find-some}
use clutch.Providers.Types.{
  ProviderDefinition, Result, ok, err, then_do, oauth_connect, openid_connect,
}
use clutch.Providers.Registry.{
  Environment, provider_definitions, is_myanimelist_oauth_configured, resolve_provider_definition,
  list_provider_definitions, get_provider_definition,
}
use clutch.Providers.Names.{
  platform_name, is_named, login_for, checked_platform, is_account_connection_oauth_provider,
  is_steam, known_provider, platform_found, social_provider_of, normalize_social_auth_provider,
  normalize_platform, normalize_oauth_provider, normalize_steam_open_id_provider,
}

pub same_codes_iff : (s t : List ℕ) → (same_codes s t ≡ true) ↔ (s ≡ t)
same_codes_iff [] [] = (λ h. refl, λ h. refl)
same_codes_iff [] (b ∷ t) = (λ h. cc, λ h. cc)
same_codes_iff (a ∷ s) [] = (λ h. cc, λ h. cc)
same_codes_iff (a ∷ s) (b ∷ t) =
    let (to, back) = same_codes_iff s t in
    (
      λ h.
          let heads : a ≡ b = ground arith in
          let tails : s ≡ t = to (ground arith) in rw (heads, tails) refl,
      λ h. ground (arith, back (cc)),
    )

resolve_provider_definition-provider :
    (b : Bool) (d : ProviderDefinition) → (resolve_provider_definition b d).provider ≡ d.provider
unfolding resolve_provider_definition
resolve_provider_definition-provider b d = elim (Bool-cases (d.provider == myanimelist)) [
  | inl e ↦ elim (Bool-cases b) [ inl f ↦ rw (e, f) refl | inr f ↦ rw (e, f) refl ]
  | inr e ↦ rw e refl
]

-- The name of a platform finds it.
known_provider-codes :
    (env : Environment) (p : Platform)
    → platform_found (known_provider env (codes (platform_name p))) ≡ ok p
unfolding known_provider list_provider_definitions resolve_provider_definition
known_provider-codes env p = elim (Bool-cases (is_myanimelist_oauth_configured env)) [
  | inl e ↦ rw e (ready p)
  | inr e ↦ rw e (bare p)
]
  where
    ready :
        (p : Platform)
        → platform_found (
            find
              (is_named (codes (platform_name p)))
              (map (resolve_provider_definition true) provider_definitions))
          ≡ ok p
    ready google = refl
    ready steam = refl
    ready epic = refl
    ready discord = refl
    ready xbox = refl
    ready psn = refl
    ready riot = refl
    ready anilist = refl
    ready myanimelist = refl

    bare :
        (p : Platform)
        → platform_found (
            find
              (is_named (codes (platform_name p)))
              (map (resolve_provider_definition false) provider_definitions))
          ≡ ok p
    bare google = refl
    bare steam = refl
    bare epic = refl
    bare discord = refl
    bare xbox = refl
    bare psn = refl
    bare riot = refl
    bare anilist = refl
    bare myanimelist = refl

-- The request names the platform: trimmed, and whatever the case of its letters.
abbrev pub Names : String → Platform → Type 0
Names s p = upper_codes (trim s) ≡ codes (platform_name p)

normalize_platform_iff :
    (env : Environment) (s : String) (p : Platform) → (normalize_platform env s ≡ ok p) ↔ Names s p
unfolding normalize_platform known_provider
normalize_platform_iff env s p = (
  λ h. found (find (is_named text) (list_provider_definitions env)) refl h,
  λ e. rw (← known_provider-codes env p) (ap (λ t. platform_found (known_provider env t)) e),
)
  where
    text : List ℕ
    text = upper_codes (trim s)

    found :
        (o : Option ProviderDefinition)
        → find (is_named text) (list_provider_definitions env) ≡ o
        → platform_found o ≡ ok p
        → text ≡ codes (platform_name p)
    found none e h = cc
    found (some d) e h =
        let same : d.provider ≡ p = cc in
        let (named, _) =
          find-some (is_named text) (λ d. true) (list_provider_definitions env) d e refl in
        rw (← same) (sym ((same_codes_iff (codes (platform_name d.provider)) text).0 named))

-- The platforms that can be connected by OAuth.
abbrev pub is_oauth_ready : Environment → Platform → Bool
is_oauth_ready env google = true
is_oauth_ready env discord = true
is_oauth_ready env myanimelist = is_myanimelist_oauth_configured env
is_oauth_ready env _ = false

abbrev pub is_login_provider : Platform → Bool
is_login_provider google = true
is_login_provider discord = true
is_login_provider _ = false

checked_oauth :
    (env : Environment) (p q : Platform)
    → (checked_platform env is_account_connection_oauth_provider oauth_connect p ≡ ok q)
      ↔ ((p ≡ q) × (is_oauth_ready env p ≡ true))
unfolding get_provider_definition resolve_provider_definition
checked_oauth env google q = (λ h. (cc, refl), λ h. ap ok h.0)
checked_oauth env discord q = (λ h. (cc, refl), λ h. ap ok h.0)
checked_oauth env myanimelist q = elim (Bool-cases (is_myanimelist_oauth_configured env)) [
  | inl e ↦ rw e (λ h. (cc, refl), λ h. ap ok h.0)
  | inr e ↦ rw e (λ h. cc, λ h. cc)
]
checked_oauth env steam q = (λ h. cc, λ h. cc)
checked_oauth env epic q = (λ h. cc, λ h. cc)
checked_oauth env xbox q = (λ h. cc, λ h. cc)
checked_oauth env psn q = (λ h. cc, λ h. cc)
checked_oauth env riot q = (λ h. cc, λ h. cc)
checked_oauth env anilist q = (λ h. cc, λ h. cc)

checked_steam :
    (env : Environment) (p q : Platform)
    → (checked_platform env is_steam openid_connect p ≡ ok q) ↔ ((p ≡ q) × (p ≡ steam))
unfolding get_provider_definition resolve_provider_definition
checked_steam env steam q = (λ h. (cc, refl), λ h. ap ok h.0)
checked_steam env myanimelist q = (λ h. cc, λ h. cc)
checked_steam env google q = (λ h. cc, λ h. cc)
checked_steam env discord q = (λ h. cc, λ h. cc)
checked_steam env epic q = (λ h. cc, λ h. cc)
checked_steam env xbox q = (λ h. cc, λ h. cc)
checked_steam env psn q = (λ h. cc, λ h. cc)
checked_steam env riot q = (λ h. cc, λ h. cc)
checked_steam env anilist q = (λ h. cc, λ h. cc)

login_allowed :
    (env : Environment) (text : List ℕ) (p : Platform)
    → (login_for env (social_provider_of text) ≡ ok p)
      ↔ ((text ≡ codes (platform_name p)) × (is_login_provider p ≡ true))
unfolding social_provider_of get_provider_definition resolve_provider_definition
login_allowed env text p = (forth, back p)
  where
    forth :
        login_for env (social_provider_of text) ≡ ok p
        → (text ≡ codes (platform_name p)) × (is_login_provider p ≡ true)
    forth h = elim (Bool-cases (same_codes text (codes "GOOGLE"))) [
      | inl e ↦
          let at : login_for env (some google) ≡ ok p = rw e at h in
          let same : google ≡ p = cc in
          rw (← same) ((same_codes_iff text (codes "GOOGLE")).0 e, refl)
      | inr e ↦ elim (Bool-cases (same_codes text (codes "DISCORD"))) [
        | inl f ↦
            let at : login_for env (some discord) ≡ ok p = rw (e, f) at h in
            let same : discord ≡ p = cc in
            rw (← same) ((same_codes_iff text (codes "DISCORD")).0 f, refl)
        | inr f ↦ let at : login_for env none ≡ ok p = rw (e, f) at h in cc
      ]
    ]

    back :
        (p : Platform)
        → (text ≡ codes (platform_name p)) × (is_login_provider p ≡ true)
        → login_for env (social_provider_of text) ≡ ok p
    back google (e, _) = rw e refl
    back discord (e, _) = rw e refl
    back steam (_, h) = cc
    back epic (_, h) = cc
    back xbox (_, h) = cc
    back psn (_, h) = cc
    back riot (_, h) = cc
    back anilist (_, h) = cc
    back myanimelist (_, h) = cc

-- A platform that is found and then checked.
checked_iff :
    (env : Environment) (s : String) (q : Platform) (f : Platform → Result Reason Platform)
    (P : Platform → Type 0)
    → ((p q : Platform) → (f p ≡ ok q) ↔ ((p ≡ q) × P p))
    → (then_do (normalize_platform env s) f ≡ ok q) ↔ (Names s q × P q)
checked_iff env s q f P law = (λ h. forth (normalize_platform env s) refl h, back)
  where
    forth :
        (r : Result Reason Platform)
        → normalize_platform env s ≡ r
        → then_do r f ≡ ok q
        → Names s q × P q
    forth (ok p) e h =
        let (same, holds) = (law p q).0 h in
        ((normalize_platform_iff env s q).0 (e ∙ ap ok same), subst P same holds)
    forth (err x) e h = cc

    back : Names s q × P q → then_do (normalize_platform env s) f ≡ ok q
    back (named, holds) = rw ((normalize_platform_iff env s q).1 named) ((law q q).1 (refl, holds))

-- Which provider's names pass the three checks that the operations make of a name first: exactly those
-- that, trimmed and in whatever case, name Google or Discord for a login; these, or MyAnimeList where its
-- OAuth is configured, for a connection by OAuth; and Steam for one by OpenID. Each gives the platform
-- that is named.
pub provider_accepted :
    (env : Environment) (s : String) (p : Platform)
    → ((normalize_social_auth_provider env s ≡ ok p) ↔ (Names s p × (is_login_provider p ≡ true)))
      × ((normalize_oauth_provider env s ≡ ok p) ↔ (Names s p × (is_oauth_ready env p ≡ true)))
      × ((normalize_steam_open_id_provider env s ≡ ok p) ↔ (Names s p × (p ≡ steam)))
unfolding normalize_social_auth_provider normalize_oauth_provider normalize_steam_open_id_provider
provider_accepted env s p = (
  login_allowed env (upper_codes (trim s)) p,
  checked_iff env s p _ (λ q. is_oauth_ready env q ≡ true) (checked_oauth env),
  checked_iff env s p _ (λ q. q ≡ steam) (checked_steam env),
)
