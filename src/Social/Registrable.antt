-- ===== src/Social/Registrable.antt =====
-- The user names that a login gives pass the test of the registration form, `registerSchema` of
-- api/routes/auth.routes.ts.
use Prim.Native.Char.{Char, char, code}
use Prim.Native.String.{◌++◌}
use clutch.Prelude.{
  ◌+◌, ◌≤◌, ◌≡◌, refl, String, Bool, true, false, not, ◌&&◌, Option, none, some, arith, leb, ◌==◌,
  nat_eq, Bool-cases, inl, inr,
}
use clutch.Prelude.Text.{is_empty}
use clutch.Prelude.Chars.{
  size, take, only, all_chars, size-take, all_chars-take, size-append, all_chars-append,
}
use clutch.Prelude.Lower.{lower_char, lower_char_passes}
use clutch.Providers.Types.{ok}
use clutch.Providers.Names.{platform_name}
use clutch.Social.Types.{Identity, StateCodec, Environment}
use clutch.Social.State.{resolve_state_secret}
use clutch.Social.Usernames.{
  is_word, is_mark, is_underscore, text_or, first_given, local_part, replace_runs, strip_start,
  strip_end, lower_chars, sanitized, long_enough, username_base, sanitize_username_seed,
  username_candidate, random_username, with_suffix, build_available_username,
}

-- Three to thirty characters of `[a-zA-Z0-9_]`.
unfoldable pub is_registrable : String → Bool
is_registrable name = leb 3 (size name) && leb (size name) 30 && all_chars is_word name

replace_runs-all :
    (p : Char → Bool) (d : Char) (inside : Bool) (s : String)
    → p d ≡ true
    → all_chars p (replace_runs p d inside s) ≡ true
unfolding replace_runs
replace_runs-all p d inside String.[] h = refl
replace_runs-all p d inside (String.◌∷◌ c s) h =
    ground (arith, replace_runs-all p d (not (p c)) s h)

strip_start-all :
    (p q : Char → Bool) (s : String) → all_chars p s ≡ true → all_chars p (strip_start q s) ≡ true
unfolding strip_start
strip_start-all p q String.[] h = refl
strip_start-all p q (String.◌∷◌ c s) h = ground (arith, strip_start-all p q s)

strip_end-all :
    (p q : Char → Bool) (s : String) → all_chars p s ≡ true → all_chars p (strip_end q s) ≡ true
unfolding strip_end
strip_end-all p q String.[] h = refl
strip_end-all p q (String.◌∷◌ c s) h =
    let rest = strip_end-all p q s (ground arith) in
    elim (Bool-cases (is_empty (strip_end q s) && q c)) [
      | inl e ↦ rw e refl
      | inr e ↦ rw e (ground arith)
    ]

lower_chars-all :
    (s : String) → all_chars is_word s ≡ true → all_chars is_word (lower_chars s) ≡ true
unfolding lower_chars
lower_chars-all String.[] h = refl
lower_chars-all (String.◌∷◌ c s) h =
    let here : is_word (lower_char c) ≡ true =
      lower_char_passes is_word c refl (λ e. ground arith) in
    rw here (lower_chars-all s (ground arith))

sanitized-all : (nfkd : String → String) (s : String) → all_chars is_word (sanitized nfkd s) ≡ true
unfolding sanitized
sanitized-all nfkd s =
    let runs = replace_runs is_word (char 95 tt) false (only (λ c. not (is_mark c)) (nfkd s)) in
    let start = strip_start is_underscore runs in
    lower_chars-all (strip_end is_underscore start) (
      strip_end-all is_word is_underscore start (
        strip_start-all is_word is_underscore runs (
          replace_runs-all is_word (char 95 tt) false (only (λ c. not (is_mark c)) (nfkd s)) refl)))

long_enough-is_registrable :
    (s : String) → all_chars is_word s ≡ true → is_registrable (long_enough s) ≡ true
unfolding is_registrable size
long_enough-is_registrable s h = elim (Bool-cases (leb 3 (size s))) [
  | inl e ↦ rw e (ground (arith, size-take 30 s, all_chars-take is_word 30 s h))
  | inr e ↦ rw e refl
]

username_base-is_registrable :
    (nfkd : String → String) (identity : Identity)
    → is_registrable (username_base nfkd identity) ≡ true
unfolding username_base sanitize_username_seed
username_base-is_registrable nfkd identity =
    let seed =
      text_or "player"
        (first_given identity.username (first_given identity.display_name (local_part identity))) in
    long_enough-is_registrable (sanitized nfkd seed) (sanitized-all nfkd seed)

-- A name of two parts.
joined-is_registrable :
    (s t : String)
    → all_chars is_word s ≡ true
    → all_chars is_word t ≡ true
    → 3 ≤ size s
    → size s + size t ≤ 30
    → is_registrable (s ++ t) ≡ true
unfolding is_registrable
joined-is_registrable s t h k low high =
    ground (arith, size-append s t, all_chars-append is_word s t)

candidate-is_registrable :
    (hex : String → String → String) (identity : Identity) (base secret : String)
    → is_registrable base ≡ true
    → ((text : String) → all_chars is_word (hex secret text) ≡ true)
    → is_registrable (username_candidate hex identity base secret) ≡ true
unfolding username_candidate size is_registrable
candidate-is_registrable hex identity base secret h hexes =
    let digest = hex secret (platform_name identity.provider ++ (":" ++ identity.external_id)) in
    let tail = "_" ++ take 6 digest in
    let tail_size : size tail ≤ 7 =
      ground (arith, size-append "_" (take 6 digest), size-take 6 digest) in
    joined-is_registrable (take 23 base) tail (all_chars-take is_word 23 base (ground arith))
      (ground (
        arith,
        all_chars-append is_word "_" (take 6 digest),
        all_chars-take is_word 6 digest (hexes _),
      ))
      (ground (arith, size-take 23 base)) (ground (arith, size-take 23 base))

random-is_registrable :
    (uuid : String)
    → all_chars is_word (only (λ c. not (code c == 45)) uuid) ≡ true
    → is_registrable (random_username uuid) ≡ true
unfolding random_username size
random-is_registrable uuid h =
    let bare = only (λ c. not (code c == 45)) uuid in
    joined-is_registrable "player_" (take 12 bare) refl (all_chars-take is_word 12 bare h)
      (ground arith) (ground (arith, size-take 12 bare))

-- Every user name that a login gives passes the test of the registration form, whatever the provider
-- says of the user: the texts of HMAC in hexadecimal and of `randomUUID` without its dashes are of such
-- characters.
pub build_available_username-is_registrable :
    (is_taken : String → Bool) (env : Environment) (codec : StateCodec) (nfkd : String → String)
    (identity : Identity) (uuid name : String)
    → ((secret text : String) → all_chars is_word (codec.hmac_hex secret text) ≡ true)
    → all_chars is_word (only (λ c. not (code c == 45)) uuid) ≡ true
    → build_available_username is_taken env codec nfkd identity uuid ≡ ok name
    → is_registrable name ≡ true
unfolding build_available_username
build_available_username-is_registrable is_taken env codec nfkd identity uuid name hexes dashes h =
    elim (Bool-cases (is_taken base)) [
      | inl e ↦ suffixed (resolve_state_secret env) (rw e at h)
      | inr e ↦
          let named : ok base ≡ ok name = rw e at h in
          let same : base ≡ name = cc in rw (← same) (username_base-is_registrable nfkd identity)
    ]
  where
    base : String
    base = username_base nfkd identity

    suffixed :
        (o : Option String)
        → with_suffix is_taken codec identity base uuid o ≡ ok name
        → is_registrable name ≡ true
    suffixed none h = cc
    suffixed (some secret) h =
        let candidate = username_candidate codec.hmac_hex identity base secret in
        elim (Bool-cases (is_taken candidate)) [
          | inl e ↦
              let named : ok (random_username uuid) ≡ ok name = rw e at h in
              let same : random_username uuid ≡ name = cc in
              rw (← same) (random-is_registrable uuid dashes)
          | inr e ↦
              let named : ok candidate ≡ ok name = rw e at h in
              let same : candidate ≡ name = cc in
              rw (← same) (
                candidate-is_registrable codec.hmac_hex identity base secret
                  (username_base-is_registrable nfkd identity) (hexes secret))
        ]
