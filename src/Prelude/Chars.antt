-- ===== src/Prelude/Chars.antt =====
-- Texts by their characters: JavaScript's `length`, `slice`, `split`, `startsWith` and `toUpperCase` on the
-- texts that the code meets. A character outside the Basic Multilingual Plane counts as one here and as
-- two in JavaScript.
use Prim.Native.Char.{Char, code}
use Prim.Native.Nat.{ℕ, zero, suc, ◌+◌, ◌-◌, min}
use Prim.Native.String.{String, ◌++◌}
use text.Mathlib.TextEquality.{Char-path}
use text.Mathlib.TextLemmas.{nil-append, cons-append}
use mathlib.Core.Path.{◌≡◌, refl}
use mathlib.Core.Logic.{inl, inr}
use mathlib.Core.Bool.{Bool, true, false, not, ◌&&◌, ◌||◌}
use mathlib.Core.List.{List, [], ◌∷◌}
use native.Mathlib.Omega.{arith}
use clutch.Prelude.Tests.{leb, if◌then◌else◌, Bool-cases}
use clutch.Prelude.Equality.{◌==◌, nat_eq}
use clutch.Prelude.Lists.{All}

-- `length`
unfoldable pub size : String → ℕ
size String.[] = 0
size (String.◌∷◌ c s) = suc (size s)

abbrev pub all_chars : (Char → Bool) → String → Bool
all_chars p String.[] = true
all_chars p (String.◌∷◌ c s) = p c && all_chars p s

-- `slice(0, n)`
unfoldable pub take : ℕ → String → String
take n String.[] = String.[]
take zero (String.◌∷◌ c s) = String.[]
take (suc n) (String.◌∷◌ c s) = String.◌∷◌ c (take n s)

-- The text without the characters that fail a test.
unfoldable pub only : (Char → Bool) → String → String
only p String.[] = String.[]
only p (String.◌∷◌ c s) = if p c then String.◌∷◌ c (only p s) else only p s

unfoldable pub starts_with : String → String → Bool
starts_with String.[] s = true
starts_with (String.◌∷◌ c p) String.[] = false
starts_with (String.◌∷◌ c p) (String.◌∷◌ d s) = code c == code d && starts_with p s

-- The text does not hold the character with this number.
abbrev pub is_free : ℕ → String → Bool
is_free n s = all_chars (λ c. not (code c == n)) s

unfoldable pub push : Char → List String → List String
push c [] = []
push c (s ∷ ss) = String.◌∷◌ c s ∷ ss

-- `split` at a character.
unfoldable pub split : ℕ → String → List String
unfolding push
split n String.[] = String.[] ∷ []
split n (String.◌∷◌ c s) =
    let rest = split n s in if code c == n then String.[] ∷ rest else push c rest

-- The letters that `toUpperCase` gives for one character, where any of them can be in a name that the
-- code compares with; another character stands for itself.
abbrev pub upper_code : ℕ → List ℕ
upper_code n =
    if leb 97 n && leb n 122
    then (n - 32) ∷ []
    else if n == 305
    then 73 ∷ []
    else if n == 383
    then 83 ∷ []
    else if n == 223
    then 83 ∷ 83 ∷ []
    else if n == 64261 || n == 64262
    then 83 ∷ 84 ∷ []
    else n ∷ []

abbrev pub onto : List ℕ → List ℕ → List ℕ
onto [] t = t
onto (x ∷ s) t = x ∷ onto s t

abbrev pub upper_codes : String → List ℕ
upper_codes String.[] = []
upper_codes (String.◌∷◌ c s) = onto (upper_code (code c)) (upper_codes s)

abbrev pub codes : String → List ℕ
codes String.[] = []
codes (String.◌∷◌ c s) = code c ∷ codes s

pub size-take : (n : ℕ) (s : String) → size (take n s) ≡ min n (size s)
unfolding size take
size-take n String.[] = ground arith
size-take zero (String.◌∷◌ c s) = ground arith
size-take (suc n) (String.◌∷◌ c s) = ground (arith, size-take n s)

pub all_chars-take :
    (p : Char → Bool) (n : ℕ) (s : String) → all_chars p s ≡ true → all_chars p (take n s) ≡ true
unfolding take
all_chars-take p n String.[] h = refl
all_chars-take p zero (String.◌∷◌ c s) h = refl
all_chars-take p (suc n) (String.◌∷◌ c s) h = ground (arith, all_chars-take p n s)

pub all_chars-only :
    (p q : Char → Bool) (s : String) → all_chars p s ≡ true → all_chars p (only q s) ≡ true
unfolding only
all_chars-only p q String.[] h = refl
all_chars-only p q (String.◌∷◌ c s) h = ground (arith, all_chars-only p q s)

pub size-append : (s t : String) → size (s ++ t) ≡ size s + size t
unfolding size
size-append String.[] t = rw (nil-append t) (ground arith)
size-append (String.◌∷◌ c s) t = rw (cons-append c s t) (omega (arith, size-append s t))

pub all_chars-append :
    (p : Char → Bool) (s t : String) → all_chars p (s ++ t) ≡ (all_chars p s && all_chars p t)
all_chars-append p String.[] t = rw (nil-append t) refl
all_chars-append p (String.◌∷◌ c s) t =
    rw (cons-append c s t) (ground (arith, all_chars-append p s t))

pub starts_with-append : (p s : String) → starts_with p (p ++ s) ≡ true
unfolding starts_with
starts_with-append String.[] s = refl
starts_with-append (String.◌∷◌ c p) s =
    rw (cons-append c p s) (ground (arith, starts_with-append p s))

pub split_of_free : (n : ℕ) (s : String) → is_free n s ≡ true → split n s ≡ s ∷ []
unfolding split push
split_of_free n String.[] h = refl
split_of_free n (String.◌∷◌ c s) h =
    let rest = split_of_free n s (ground arith) in
    let other : (code c == n) ≡ false = ground arith in rw (rest, other) refl

-- What stands before the first separator is the first part.
pub split-append :
    (c : Char) (s t : String)
    → is_free (code c) s ≡ true
    → split (code c) (s ++ String.◌∷◌ c t) ≡ s ∷ split (code c) t
unfolding split push
split-append c String.[] t h = rw (nil-append (String.◌∷◌ c t)) (ground arith)
split-append c (String.◌∷◌ d s) t h =
    let rest = split-append c s t (ground arith) in
    let other : (code d == code c) ≡ false = ground arith in
    rw (cons-append d s (String.◌∷◌ c t), rest, other) refl

-- `join`, with one character between the parts.
abbrev pub joined : Char → List String → String
joined c [] = String.[]
joined c (a ∷ []) = a
joined c (a ∷ b ∷ l) = a ++ String.◌∷◌ c (joined c (b ∷ l))

split-cons : (n : ℕ) (s : String) → (a : String) × (l : List String) × (split n s ≡ a ∷ l)
unfolding split push
split-cons n String.[] = (String.[], [], refl)
split-cons n (String.◌∷◌ c s) =
    let (a, l, e) = split-cons n s in
    elim (Bool-cases (code c == n)) [
      | inl at ↦ (String.[], split n s, rw at refl)
      | inr other ↦ (String.◌∷◌ c a, l, rw (other, e) refl)
    ]

joined-push :
    (c d : Char) (a : String) (l : List String)
    → joined c (push d (a ∷ l)) ≡ String.◌∷◌ d (joined c (a ∷ l))
unfolding push
joined-push c d a [] = refl
joined-push c d a (b ∷ l) = cons-append d a (String.◌∷◌ c (joined c (b ∷ l)))

joined-at :
    (c : Char) (a : String) (l : List String)
    → joined c (String.[] ∷ a ∷ l) ≡ String.◌∷◌ c (joined c (a ∷ l))
joined-at c a l = nil-append (String.◌∷◌ c (joined c (a ∷ l)))

pub joined-split : (c : Char) (s : String) → joined c (split (code c) s) ≡ s
unfolding split
joined-split c String.[] = refl
joined-split c (String.◌∷◌ d s) =
    let (a, l, e) = split-cons (code c) s in
    let whole : joined c (a ∷ l) ≡ s = rw (← e) (joined-split c s) in
    elim (Bool-cases (code d == code c)) [
      | inl at ↦
          let same : d ≡ c = Char-path d c (ground arith) in
          rw (at, e, joined-at c a l, whole, same) refl
      | inr other ↦ rw (other, e, joined-push c d a l, whole) refl
    ]

push-All :
    (n : ℕ) (c : Char) (l : List String)
    → (code c == n) ≡ false
    → All (λ a. is_free n a ≡ true) l
    → All (λ a. is_free n a ≡ true) (push c l)
unfolding push
push-All n c [] h k = tt
push-All n c (a ∷ l) h (here, rest) = (rw h here, rest)

-- No part holds the separator.
pub split-All : (n : ℕ) (s : String) → All (λ a. is_free n a ≡ true) (split n s)
unfolding split
split-All n String.[] = (refl, tt)
split-All n (String.◌∷◌ c s) = elim (Bool-cases (code c == n)) [
  | inl e ↦ rw e (refl, split-All n s)
  | inr e ↦ rw e (push-All n c (split n s) e (split-All n s))
]
