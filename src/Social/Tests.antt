-- ===== src/Social/Tests.antt =====
-- Runs with concrete clients over tables held in memory, and the theorems of Social at concrete inputs.
use clutch.Prelude.{
  ◌≡◌, ◌↔◌, refl, true, false, none, some, [], ◌∷◌, arith, ◌==◌, nat_eq, string_eq,
}
use clutch.Prelude.Text.{trim, trim_end, trim_start}
use clutch.Prelude.Map
use clutch.Prelude.Chars.{size, take, only, starts_with, push, split}
use clutch.Prelude.Lower.{lower_char, lower_text}
use clutch.Database.Count.{count}
use clutch.Database.Memory.{memory, create_row, upsert_at, upsert_row, update_rows}
use clutch.Accounts.Types.{google, conflicts}
use clutch.Accounts.Tokens.{Cipher, resolve_token_protection_secret, protect_sensitive_token}
use clutch.Accounts.Repository.{find_by_user_provider}
use clutch.Accounts.Connect.{
  find_by_provider_external_id, upsert_connected_account, stored, try_upsert, connect_unowned,
  connect_found, connect_external_identity,
}
use clutch.OAuth.StateStore.{prune_expired_states, store, take_state, consume}
use clutch.OAuth.Once.{run_calls}
use clutch.OAuth.Signed.{open_segments, open_state, signed_state}
use clutch.Providers.Registry.{
  is_myanimelist_oauth_configured, resolve_provider_definition, get_provider_definition,
}
use clutch.Providers.Types.{ok, err, refused, is_ok}
use clutch.Providers.Names.{
  normalize_social_auth_provider, social_provider_of, identity_conflict, invalid_state,
}
use clutch.Session.Service.{hashes_match}
use clutch.Social.Types.{
  Identity, StateCodec, StatePayload, Environment, UserRow, user_conflicts, CallbackInput,
  identified,
}
use clutch.Social.State.{
  resolve_state_secret, decode_state_payload, check_opened, verify_state_value,
  create_social_oauth_state,
}
use clutch.Social.Usernames.{
  replace_runs, strip_start, strip_end, lower_chars, sanitized, sanitize_username_seed,
  normalize_verified_email, build_placeholder_email, username_base, username_candidate,
  random_username, build_available_username,
}
use clutch.Social.Service.{
  Outside, Draws, World, create_user, resolve_or_create_user, link_new_user, login_owner, exchanged,
  with_code, complete_callback, start_login, map_provider_failure,
}
use clutch.Social.Answers.{IsAuthentic, AnsweredFor}
use clutch.Social.Outcome.{complete_callback_ok}
use clutch.Social.Replay.{complete_callback_once}
use clutch.Social.Genuine.{IsGenuine, verify_state_value_iff}
use clutch.Social.Start.{login_state, Carries, complete_callback-start_login}
use clutch.Social.Registrable.{is_registrable, build_available_username-is_registrable}

service : Unit {0}
unfolding trim trim_end trim_start Map.set Map.prune Map.get Map.delete size take only starts_with
    push split lower_char lower_text count create_row upsert_at upsert_row update_rows
    resolve_token_protection_secret protect_sensitive_token find_by_user_provider
    find_by_provider_external_id upsert_connected_account stored try_upsert connect_unowned
    connect_found connect_external_identity prune_expired_states store take_state consume
    open_segments open_state signed_state is_myanimelist_oauth_configured
    resolve_provider_definition get_provider_definition normalize_social_auth_provider
    social_provider_of hashes_match resolve_state_secret decode_state_payload check_opened
    verify_state_value create_social_oauth_state replace_runs strip_start strip_end lower_chars
    sanitized sanitize_username_seed normalize_verified_email build_placeholder_email username_base
    username_candidate random_username build_available_username create_user resolve_or_create_user
    link_new_user login_owner exchanged with_code complete_callback start_login map_provider_failure
service = tt

abbrev env : Environment
env = record {
  social_oauth_state_secret = some "key";
  jwt_secret = none;
  is_production = true;
  registry = record {
    myanimelist_client_id = none;
    myanimelist_client_secret = none;
    myanimelist_account_link_redirect_uri = none;
    myanimelist_redirect_uri = none;
  };
}

abbrev payload : StatePayload
payload = record { provider = google; nonce = "n1"; issued_at = 1000 }

abbrev codec : StateCodec
codec = record {
  hmac = λ secret text. "signature";
  hmac_hex = λ secret text. "0123abcd";
  encode_json = λ p. "payload";
  parse_json = λ text. some (record {
    purpose = some "social_login";
    provider = some "GOOGLE";
    nonce = some "n1";
    issued_at = some 1000;
  });
}

abbrev ana : Identity
ana = record {
  provider = google;
  external_id = "g-1";
  email = some " Ana@Mail.com";
  email_verified = true;
  display_name = some "Ana Sá";
  username = none;
  avatar_url = none;
  access_token = "token";
  refresh_token = none;
}

abbrev outside : Outside
outside = record {
  env = env;
  codec = codec;
  nfkd = λ s. s;
  to_lower_case = lower_text;
  authorization_url = λ p state nonce. some "https://accounts";
  exchange = λ p code. identified ana;
  hash_password = λ s. s;
}

abbrev cipher : Cipher
cipher = record {
  encrypt = λ secret iv token. record { iv = "iv"; auth_tag = "tag"; ciphertext = "text" };
  decrypt = λ secret parts. some "token";
}

abbrev draws : Draws
draws = record {
  user_id = "u1";
  password = "p1";
  name = "ab-cd";
  connecting = record {
    env = record {
      connected_account_token_secret = some "secret";
      jwt_secret = none;
      is_production = true;
    };
    cipher = cipher;
    access_iv = "iv1";
    refresh_iv = "iv2";
    is_p2002 = false;
  };
}

abbrev empty_world : World (memory user_conflicts) (memory conflicts)
empty_world = record { users = []; accounts = []; states = [] }

abbrev callback : CallbackInput
callback = record {
  provider = " google";
  code = some "c";
  state = some "payload.signature";
  provider_error = none;
}

abbrev started_world : World (memory user_conflicts) (memory conflicts)
started_world = record empty_world { states = ("payload.signature", 601000) ∷ [] }

abbrev ana_row : UserRow
ana_row = record {
  id = "u1";
  username = "ana_s";
  email = "ana@mail.com";
  password_hash = "p1";
  display_name = "Ana Sá";
  avatar_url = none;
}

-- A user who registered with the address that the provider has verified.
abbrev registered_world : World (memory user_conflicts) (memory conflicts)
registered_world = record started_world {
  users = record ana_row { id = "u0"; username = "ana" } ∷ [];
}

runs :
    (start_login
        (memory user_conflicts)
        (memory conflicts)
        outside
        draws
        1000
        "n1"
        "Google"
        empty_world
      ≡ (started_world, ok "https://accounts"))
    × ((complete_callback
          (memory user_conflicts)
          (memory conflicts)
          outside
          draws
          2000
          callback
          started_world).1
        ≡ ok (record { provider = google; user = ana_row; is_new_user = true }))
    × (complete_callback
          (memory user_conflicts)
          (memory conflicts)
          outside
          draws
          2000
          callback
          registered_world
        ≡ (
          record registered_world { states = [] },
          err (refused 409 identity_conflict (some google)),
        ))
    × (complete_callback
          (memory user_conflicts)
          (memory conflicts)
          outside
          draws
          2000
          callback
          empty_world
        ≡ (empty_world, err (refused 400 invalid_state (some google))))
unfolding service
runs = (refl, refl, refl, refl)

complete_callback_ok_example :
    let answer =
      complete_callback
        (memory user_conflicts)
        (memory conflicts)
        outside
        draws
        2000
        callback
        started_world in
    (identity : Identity) × (authentic : IsAuthentic
      (memory user_conflicts)
      (memory conflicts)
      outside
      draws
      2000
      callback
      started_world
      answer.0
      identity)
    × AnsweredFor
        (memory user_conflicts)
        (memory conflicts)
        outside
        draws
        2000
        authentic.provider
        started_world
        answer.0
        identity
        (record { provider = google; user = ana_row; is_new_user = true })
unfolding service
complete_callback_ok_example =
    complete_callback_ok (memory user_conflicts) (memory conflicts) outside draws 2000 callback
      started_world (record { provider = google; user = ana_row; is_new_user = true }) refl

abbrev after_login : World (memory user_conflicts) (memory conflicts)
after_login = record empty_world { users = ana_row ∷ [] }

complete_callback_once_example :
    is_ok
      (complete_callback
        (memory user_conflicts)
        (memory conflicts)
        outside
        draws
        3000
        callback
        after_login).1
    ≡ false
unfolding service Map.has run_calls
complete_callback_once_example =
    complete_callback_once (memory user_conflicts) (memory conflicts) outside outside draws draws
      2000 3000 callback callback started_world after_login []
      (record { provider = google; user = ana_row; is_new_user = true }) "payload.signature"
      (refl, tt) refl refl tt refl refl

verify_state_value_iff_example :
    (verify_state_value env codec 2000 "payload.signature" google ≡ ok payload)
    ↔ IsGenuine env codec 2000 "payload.signature" google payload
verify_state_value_iff_example =
    verify_state_value_iff env codec 2000 "payload.signature" google payload

carries : Carries codec "key" 1000 "n1" google
unfolding service
carries = record {
  decodes = refl;
  payload_encoded = (refl, refl);
  signature_encoded = (refl, refl);
}

complete_callback-start_login_example :
    let start =
      start_login
        (memory user_conflicts)
        (memory conflicts)
        outside
        draws
        1000
        "n1"
        "GOOGLE"
        empty_world in
    let state = login_state codec "key" 1000 "n1" google in
    (start.1 ≡ ok "https://accounts")
    × (complete_callback
          (memory user_conflicts)
          (memory conflicts)
          outside
          draws
          2000
          (record {
            provider = "GOOGLE";
            code = some "c";
            state = some state;
            provider_error = none;
          })
          start.0
        ≡ exchanged
            (memory user_conflicts)
            (memory conflicts)
            outside
            draws
            2000
            google
            (record start.0 { states = (consume 2000 state start.0.states).0 })
            (identified ana))
unfolding service carries
complete_callback-start_login_example =
    complete_callback-start_login (memory user_conflicts) (memory conflicts) outside draws draws
      1000 2000 "n1" "GOOGLE" "c" "key" "https://accounts" google empty_world tt refl refl carries
      (omega arith) (omega arith) refl refl

build_available_username-is_registrable_example : is_registrable "ana_s_0123ab" ≡ true
unfolding service
build_available_username-is_registrable_example =
    build_available_username-is_registrable (λ name. name == "ana_s") env codec (λ s. s) ana "ab-cd"
      "ana_s_0123ab" (λ secret text. refl) refl refl
