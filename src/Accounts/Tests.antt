-- ===== src/Accounts/Tests.antt =====
-- Runs over a table held in memory, and the theorems of Accounts at concrete inputs.
use clutch.Prelude.{
  ◌<◌, ◌≡◌, ◌≢◌, ◌↔◌, refl, String, true, false, none, some, Option, List, [], ◌∷◌, arith,
}
use clutch.Database.Count.{count}
use clutch.Database.Memory.{memory, update_rows}
use clutch.Accounts.Types.{
  google, discord, steam, social_login, connected_account, connected, official, Account, User,
  conflicts, Platform,
}
use clutch.Accounts.Repository.{
  list_by_user, find_by_user_provider, delete_found, delete_by_user_provider, update_found,
  update_visibility_row,
}
use clutch.Accounts.Service.{
  answered, refused, unsafe_unlink, not_connected, has_viable_password_login, can_unlink_account,
  can_publish_account, assert_other_login, assert_can_remove_account, unlink_checked, unlink_found,
  unlink, publish, visibility_found, update_visibility,
}
use clutch.Accounts.Logins.{IsMadeUp, logins, unlink_keeps_login, can_unlink-eq-true_iff}
use clutch.Accounts.Races.{HasLogin, unlink_race}
use clutch.Accounts.Unlinking.{UnlinkState, UnlinkRun, start_unlinks}
use clutch.Prelude.Text.{trim, trim_start, trim_end}
use clutch.Prelude.Chars.{starts_with, codes}
use clutch.Accounts.Tokens.{
  Cipher, Environment, Seals, resolve_token_protection_secret, protect_sensitive_token,
  reveal_sensitive_token,
}
use clutch.Accounts.Sealing.{reveal-protect_sensitive_token}
use clutch.Accounts.Connect.{ConnectContext, ConnectInput, connect_external_identity}
use clutch.Accounts.Ownership.{ConnectOutcome, connect_external_identity_outcome}

service : Unit {0}
unfolding count update_rows list_by_user find_by_user_provider delete_found delete_by_user_provider
    update_found update_visibility_row has_viable_password_login can_unlink_account
    can_publish_account assert_other_login assert_can_remove_account unlink_checked unlink_found
    unlink publish visibility_found update_visibility
service = tt

abbrev social : Platform → Account
social p = record {
  user_id = "u1";
  provider = p;
  external_id = "x";
  connection_type = social_login;
  status = connected;
  data_source = official;
  public_profile_visible = false;
  is_active = true;
  access_token = none;
  refresh_token = none;
  last_sync_at = none;
}

abbrev library : Account
library = record (social steam) { connection_type = connected_account }

-- A user who has never given an address of their own.
abbrev guest : User
guest = record { email = "G-1@Users.Clutch.local" }

abbrev find_guest : String → Option User
find_guest u = some guest

abbrev two : List Account
two = social google ∷ social discord ∷ library ∷ []

abbrev one : List Account
one = social google ∷ library ∷ []

runs :
    ((unlink (memory conflicts) find_guest "u1" google two).1 ≡ answered google)
    × (unlink (memory conflicts) find_guest "u1" google one ≡ (one, refused 409 unsafe_unlink))
    × ((unlink (memory conflicts) find_guest "u1" steam one).0 ≡ social google ∷ [])
    × (unlink (memory conflicts) find_guest "u2" steam one ≡ (one, refused 404 not_connected))
unfolding service
runs = (refl, refl, refl, refl)

guest-IsMadeUp : IsMadeUp guest
guest-IsMadeUp = record { front = codes "g-1"; made_up = refl }

unlink_keeps_login_example :
    0
    < logins
        (memory conflicts)
        find_guest
        "u1"
        (unlink (memory conflicts) find_guest "u1" google two).0
unfolding count
unlink_keeps_login_example =
    unlink_keeps_login (memory conflicts) find_guest "u1" google guest two refl guest-IsMadeUp
      (omega arith) (omega arith)

can_unlink-eq-true_iff_example :
    (can_unlink_account (social google) (list_by_user (memory conflicts) "u1" one) (some guest)
      ≡ true)
    ↔ ((unlink (memory conflicts) find_guest "u1" google one).1 ≡ answered google)
unfolding find_by_user_provider
can_unlink-eq-true_iff_example =
    can_unlink-eq-true_iff (memory conflicts) find_guest "u1" google (social google) guest one refl
      refl refl

login_at_google : HasLogin (memory conflicts) find_guest "u1" google two
unfolding find_by_user_provider
login_at_google = record { account = social google; found = refl; social = refl; works = refl }

login_at_discord : HasLogin (memory conflicts) find_guest "u1" discord two
unfolding find_by_user_provider
login_at_discord = record { account = social discord; found = refl; social = refl; works = refl }

google_not_discord : google ≢ discord
google_not_discord e = cc

unlink_race_example :
    ((unlink (memory conflicts) find_guest "u1" google two).1 ≡ answered google)
    × (0
        < logins
            (memory conflicts)
            find_guest
            "u1"
            (unlink (memory conflicts) find_guest "u1" google two).0)
    × ((unlink (memory conflicts) find_guest "u1" discord two).1 ≡ answered discord)
    × (0
        < logins
            (memory conflicts)
            find_guest
            "u1"
            (unlink (memory conflicts) find_guest "u1" discord two).0)
    × (has_viable_password_login guest ≡ false)
    × ((s : UnlinkState (memory conflicts) find_guest) × UnlinkRun
          (memory conflicts)
          find_guest
          (start_unlinks (memory conflicts) find_guest two)
          s
        × (s.answers ≡ ("u1", answered discord) ∷ ("u1", answered google) ∷ [])
        × (logins (memory conflicts) find_guest "u1" s.table ≡ 0))
unfolding login_at_google login_at_discord count
unlink_race_example =
    unlink_race (memory conflicts) find_guest "u1" google discord guest two login_at_google
      login_at_discord google_not_discord refl guest-IsMadeUp refl

abbrev cipher : Cipher
cipher = record {
  encrypt = λ secret iv token. record { iv = iv; auth_tag = "tag"; ciphertext = token };
  decrypt = λ secret parts. some parts.ciphertext;
}

abbrev env : Environment
env = record {
  connected_account_token_secret = some " secret ";
  jwt_secret = none;
  is_production = true;
}

seals : Seals cipher "secret" "iv" "token"
seals = record {
  opens = refl;
  iv_encoded = (refl, refl);
  tag_encoded = (refl, refl);
  text_encoded = (refl, refl);
}

reveal-protect_sensitive_token_example :
    (stored : String) × (protect_sensitive_token env cipher "iv" (some "token")
      ≡ some (some stored))
    × (reveal_sensitive_token env cipher (some stored) ≡ some (some "token"))
    × (protect_sensitive_token env cipher "iv2" (some stored) ≡ some (some stored))
unfolding resolve_token_protection_secret starts_with trim trim_start trim_end seals
reveal-protect_sensitive_token_example =
    reveal-protect_sensitive_token env cipher "iv" "iv2" "token" "secret" refl refl refl seals

abbrev context : ConnectContext
context = record {
  env = env;
  cipher = cipher;
  access_iv = "iv";
  refresh_iv = "iv2";
  is_p2002 = false;
}

abbrev input : ConnectInput
input = record {
  user_id = "u1";
  provider = discord;
  external_id = " y ";
  connection_type = social_login;
  data_source = official;
  status = none;
  access_token = some "token";
  refresh_token = none;
  last_sync_at = none;
}

connect_external_identity_outcome_example :
    ConnectOutcome
      (memory conflicts)
      input
      (trim " y ")
      two
      (connect_external_identity (memory conflicts) context input two)
connect_external_identity_outcome_example =
    connect_external_identity_outcome (memory conflicts) context input two
