-- ===== src/Accounts/Types.antt =====
-- The columns of platform_integrations, but for `metadata`, the row's own id and its times, with the
-- constraints of the table.
use clutch.Prelude.{
  ℕ, ◌≡◌, ◌↔◌, ◌∙◌, sym, ap, refl, String, Bool, true, false, ◌&&◌, ◌||◌, ◌==◌, nat_eq, string_eq,
  ComparedByValue, List, [], ◌∷◌, leb, ◌+◌, if◌then◌else◌, Option,
}
use Prim.Native.Char.{code}

pub data Platform : Type 0 where
  google steam epic discord xbox psn riot anilist myanimelist : Platform

pub data ConnectionType : Type 0 where
  social_login connected_account : ConnectionType

pub data AccountStatus : Type 0 where
  connected needs_reauth disconnected unavailable experimental : AccountStatus

pub data DataSource : Type 0 where
  official manual experimental_data local_companion : DataSource

abbrev pub is_social_login : ConnectionType → Bool
is_social_login social_login = true
is_social_login connected_account = false

abbrev pub is_connected : AccountStatus → Bool
is_connected connected = true
is_connected _ = false

abbrev pub is_unavailable : AccountStatus → Bool
is_unavailable unavailable = true
is_unavailable _ = false

abbrev pub is_official : DataSource → Bool
is_official official = true
is_official _ = false

abbrev pub position : Platform → ℕ
position google = 0
position steam = 1
position epic = 2
position discord = 3
position xbox = 4
position psn = 5
position riot = 6
position anilist = 7
position myanimelist = 8

abbrev at_position : ℕ → Platform
at_position n =
    if n == 0
    then google
    else if n == 1
    then steam
    else if n == 2
    then epic
    else if n == 3
    then discord
    else if n == 4
    then xbox
    else if n == 5
    then psn
    else if n == 6
    then riot
    else if n == 7
    then anilist
    else myanimelist

at_position-position : (p : Platform) → at_position (position p) ≡ p
at_position-position google = refl
at_position-position steam = refl
at_position-position epic = refl
at_position-position discord = refl
at_position-position xbox = refl
at_position-position psn = refl
at_position-position riot = refl
at_position-position anilist = refl
at_position-position myanimelist = refl

pub position_iff : (p q : Platform) → ((position p == position q) ≡ true) ↔ (p ≡ q)
position_iff p q = (
  λ h.
      sym (at_position-position p)
      ∙ ap at_position ((nat_eq.same_iff (position p) (position q)).0 h)
      ∙ at_position-position q,
  λ e. (nat_eq.same_iff (position p) (position q)).1 (ap position e),
)

instance abbrev pub platform_eq : ComparedByValue Platform
platform_eq = record { same = λ p q. position p == position q; same_iff = position_iff }

pub record Account : Type 0 where
  pub user_id : String
  pub provider : Platform
  pub external_id : String
  pub connection_type : ConnectionType
  pub status : AccountStatus
  pub data_source : DataSource
  pub public_profile_visible : Bool
  pub is_active : Bool
  pub access_token : Option String
  pub refresh_token : Option String
  pub last_sync_at : Option ℕ

-- `@@unique([userId, platform])` and `@@unique([platform, externalId])`
abbrev pub conflicts : Account → Account → Bool
conflicts a b =
    a.provider == b.provider && (a.user_id == b.user_id || a.external_id == b.external_id)

pub record User : Type 0 where
  pub email : String

-- `toLowerCase` on ASCII letters: no other character has an image among the letters of the domain
-- that the service compares with.
abbrev pub lower_codes : String → List ℕ
lower_codes String.[] = []
lower_codes (String.◌∷◌ c s) =
    let n = code c in (if leb 65 n && leb n 90 then n + 32 else n) ∷ lower_codes s

abbrev pub same_codes : List ℕ → List ℕ → Bool
same_codes [] [] = true
same_codes (a ∷ s) (b ∷ t) = a == b && same_codes s t
same_codes _ _ = false

abbrev pub ends_with : List ℕ → List ℕ → Bool
ends_with [] t = same_codes [] t
ends_with (a ∷ s) t = same_codes (a ∷ s) t || ends_with s t
