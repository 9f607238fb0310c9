-- ===== src/Jwt/Compact.antt =====
-- What the pattern of jwt.ts for a bearer token matches, described by its parts.
use Prim.Native.Char.{char, code}
use Prim.Native.String.{◌++◌}
use text.Mathlib.TextEquality.{Char-path}
use text.Mathlib.TextLemmas.{nil-append, cons-append}
use clutch.Prelude.{
  ◌≤◌, ◌≡◌, ◌↔◌, ◌⊎◌, inl, inr, refl, ap, ◌∙◌, ℕ, zero, suc, String, Bool, true, false, ◌&&◌, ◌==◌,
  nat_eq, leb, arith, Bool-cases, some, Option-cases,
}
use clutch.Prelude.Text.{is_empty}
use clutch.Jwt.Bearer.{is_token_code, parts, is_compact_token, strip_prefix, extract_bearer_token}

-- A letter or a digit of ASCII, an underscore, or a hyphen.
abbrev pub IsUrlSafe : ℕ → Type 0
IsUrlSafe n =
    ((65 ≤ n) × (n ≤ 90))
    ⊎ (((97 ≤ n) × (n ≤ 122)) ⊎ (((48 ≤ n) × (n ≤ 57)) ⊎ ((n ≡ 95) ⊎ (n ≡ 45))))

abbrev pub AllUrlSafe : String → Type 0
AllUrlSafe String.[] = Unit
AllUrlSafe (String.◌∷◌ c s) = IsUrlSafe (code c) × AllUrlSafe s

abbrev pub IsPart : String → Type 0
IsPart s = AllUrlSafe s × (is_empty s ≡ false)

-- Three parts of URL-safe characters, none of them empty, with dots between them.
pub record IsCompact (token : String) : Type 0 where
  pub header : String
  pub payload : String
  pub signature : String
  pub joins :
      token ≡ header ++ String.◌∷◌ (char 46 tt) (payload ++ String.◌∷◌ (char 46 tt) signature)
  pub header_part : IsPart header
  pub payload_part : IsPart payload
  pub signature_part : IsPart signature

is_token_code_iff : (n : ℕ) → (is_token_code n ≡ true) ↔ IsUrlSafe n
is_token_code_iff n = (λ h. forth h, λ h. back h)
  where
    forth : is_token_code n ≡ true → IsUrlSafe n
    forth h = elim (Bool-cases (leb 65 n && leb n 90)) [
      | inl e ↦ inl (ground arith, ground arith)
      | inr e ↦ elim (Bool-cases (leb 97 n && leb n 122)) [
        | inl f ↦ inr (inl (ground arith, ground arith))
        | inr f ↦ elim (Bool-cases (leb 48 n && leb n 57)) [
          | inl g ↦ inr (inr (inl (ground arith, ground arith)))
          | inr g ↦ elim (Bool-cases (n == 95)) [
            | inl k ↦ inr (inr (inr (inl (ground arith))))
            | inr k ↦ inr (inr (inr (inr (ground arith))))
          ]
        ]
      ]
    ]

    back : IsUrlSafe n → is_token_code n ≡ true
    back (inl h) = ground arith
    back (inr (inl h)) = ground arith
    back (inr (inr (inl h))) = ground arith
    back (inr (inr (inr (inl h)))) = ground arith
    back (inr (inr (inr (inr h)))) = ground arith

-- What is left of a token: so many more dots, and whether the part that is being read is not empty.
abbrev Rest : ℕ → Bool → String → Type 0
Rest zero inked s = AllUrlSafe s × ((inked ≡ true) ⊎ (is_empty s ≡ false))
Rest (suc d) inked s =
    (a : String) × (b : String) × (s ≡ a ++ String.◌∷◌ (char 46 tt) b)
    × AllUrlSafe a
    × ((inked ≡ true) ⊎ (is_empty a ≡ false))
    × Rest d false b

parts-Rest : (d : ℕ) (inked : Bool) (s : String) → parts d inked s ≡ true → Rest d inked s
unfolding parts
parts-Rest zero inked String.[] h = (tt, inl (ground arith))
parts-Rest (suc d) inked String.[] h = absurd (ground arith)
parts-Rest zero inked (String.◌∷◌ c s) h =
    let rest = parts-Rest zero true s in
    elim (Bool-cases (code c == 46)) [
      | inl e ↦ absurd (ground arith)
      | inr e ↦
          let (each, _) = rest (ground arith) in
          (((is_token_code_iff (code c)).0 (ground arith), each), inr refl)
    ]
parts-Rest (suc d) inked (String.◌∷◌ c s) h =
    let rest = parts-Rest (suc d) true s in
    let behind = parts-Rest d false s in
    elim (Bool-cases (code c == 46)) [
      | inl e ↦
          let dot : c ≡ char 46 tt = Char-path c (char 46 tt) (ground arith) in
          (
            String.[],
            s,
            rw (nil-append (String.◌∷◌ (char 46 tt) s)) (ap (λ x. String.◌∷◌ x s) dot),
            tt,
            inl (ground arith),
            behind (ground arith),
          )
      | inr e ↦
          let (a, b, same, each, _, more) = rest (ground arith) in
          (
            String.◌∷◌ c a,
            b,
            rw (cons-append c a (String.◌∷◌ (char 46 tt) b)) (ap (λ x. String.◌∷◌ c x) same),
            ((is_token_code_iff (code c)).0 (ground arith), each),
            inr refl,
            more,
          )
    ]

parts_last :
    (inked : Bool) (s : String)
    → AllUrlSafe s
    → (inked ≡ true) ⊎ (is_empty s ≡ false)
    → parts 0 inked s ≡ true
unfolding parts
parts_last inked String.[] each (inl h) = ground arith
parts_last inked String.[] each (inr h) = cc
parts_last inked (String.◌∷◌ c s) (safe, each) h =
    let rest = parts_last true s each (inl refl) in
    ground (arith, rest, (is_token_code_iff (code c)).1 safe)

parts_dot :
    (d : ℕ) (inked : Bool) (a b : String)
    → AllUrlSafe a
    → (inked ≡ true) ⊎ (is_empty a ≡ false)
    → parts d false b ≡ true
    → parts (suc d) inked (a ++ String.◌∷◌ (char 46 tt) b) ≡ true
unfolding parts
parts_dot d inked String.[] b each (inl h) more =
    rw (nil-append (String.◌∷◌ (char 46 tt) b)) (ground arith)
parts_dot d inked String.[] b each (inr h) more = cc
parts_dot d inked (String.◌∷◌ c a) b (safe, each) h more =
    let rest = parts_dot d true a b each (inl refl) more in
    rw (cons-append c a (String.◌∷◌ (char 46 tt) b))
      (ground (arith, rest, (is_token_code_iff (code c)).1 safe))

parts-eq-true_iff : (token : String) → (parts 2 false token ≡ true) ↔ IsCompact token
parts-eq-true_iff token = (
  λ h.
      let (a, r, joins, each, inked, (b, c, joins', each', inked', (each'', inked''))) =
        parts-Rest 2 false token h in
      record {
        header = a;
        payload = b;
        signature = c;
        joins = joins ∙ ap (λ x. a ++ String.◌∷◌ (char 46 tt) x) joins';
        header_part = (each, inked_of a inked);
        payload_part = (each', inked_of b inked');
        signature_part = (each'', inked_of c inked'');
      },
  λ t. rw t.joins (
      parts_dot 1 false t.header _ t.header_part.0 (inr t.header_part.1) (
        parts_dot 0 false t.payload t.signature t.payload_part.0 (inr t.payload_part.1)
          (parts_last false t.signature t.signature_part.0 (inr t.signature_part.1)))),
)
  where
    inked_of :
        (s : String) → (◌≡◌ {A = Bool} false true) ⊎ (is_empty s ≡ false) → is_empty s ≡ false
    inked_of s (inl h) = cc
    inked_of s (inr h) = h

strip_prefix-append : (p t : String) → strip_prefix p (p ++ t) ≡ some t
unfolding strip_prefix
strip_prefix-append String.[] t = rw (nil-append t) refl
strip_prefix-append (String.◌∷◌ c p) t =
    rw (cons-append c p t) (ground (arith, strip_prefix-append p t))

append_of_strip_prefix : (p s t : String) → strip_prefix p s ≡ some t → s ≡ p ++ t
unfolding strip_prefix
append_of_strip_prefix String.[] s t h = let same : s ≡ t = ground arith in rw (nil-append t) same
append_of_strip_prefix (String.◌∷◌ c p) String.[] t h = cc
append_of_strip_prefix (String.◌∷◌ c p) (String.◌∷◌ d s) t h =
    elim (Bool-cases (code c == code d)) [
      | inr e ↦ absurd (ground arith)
      | inl e ↦
          let same : c ≡ d = Char-path c d (ground arith) in
          let rest = append_of_strip_prefix p s t (ground arith) in
          rw (cons-append c p t, same, rest) refl
    ]

-- A token is read from a header exactly when the header is `Bearer `, with one space, and that token, and
-- the token is three parts with dots between them, none of them empty, of letters and digits of ASCII,
-- underscores and hyphens.
pub extract_bearer_token_iff :
    (header token : String)
    → (extract_bearer_token (some header) ≡ some token)
      ↔ ((header ≡ "Bearer " ++ token) × IsCompact token)
unfolding extract_bearer_token
extract_bearer_token_iff header token = (
  λ h. elim (Option-cases (strip_prefix "Bearer " header)) [
    | inl e ↦ absurd (ground arith)
    | inr (t, e) ↦ elim (Bool-cases (is_compact_token t)) [
      | inr bad ↦ absurd (ground arith)
      | inl good ↦
          let same : t ≡ token = ground arith in
          (
            append_of_strip_prefix "Bearer " header token (rw e (ap some same)),
            (parts-eq-true_iff token).0 (rw (← same) good),
          )
    ]
  ],
  λ (e, t).
      let good = (parts-eq-true_iff token).1 t in
      rw (e, strip_prefix-append "Bearer " token, good) refl,
)
