-- ===== src/Prelude/Lower.antt =====
-- `toLowerCase`. Beyond ASCII it changes only the two characters that give an ASCII letter; other letters
-- with case stay as they are, which the code's texts of ASCII characters never hold.
use Prim.Native.Char.{Char, char, code}
use Prim.Native.Nat.{ℕ, zero, suc, ◌-◌, ◌<◌}
use Prim.Native.String.{String}
use mathlib.Core.Path.{◌≡◌}
use mathlib.Core.Bool.{Bool, true, false, ◌&&◌}
use mathlib.Core.Logic.{inl, inr}
use native.Mathlib.Omega.{arith}
use clutch.Prelude.Tests.{leb, if◌then◌else◌, Bool-cases}
use clutch.Prelude.Equality.{◌==◌, nat_eq}
use clutch.Prelude.Chars.{size, all_chars}

abbrev alphabet : String
alphabet = "abcdefghijklmnopqrstuvwxyz"

-- The character at a position, or the one given if the text ends before it.
unfoldable char_or : Char → String → ℕ → Char
char_or d String.[] n = d
char_or d (String.◌∷◌ c s) zero = c
char_or d (String.◌∷◌ c s) (suc n) = char_or d s n

abbrev pub is_upper : Char → Bool
is_upper c = leb 65 (code c) && leb (code c) 90

-- `toLowerCase` on one ASCII character.
unfoldable pub lower_char : Char → Char
unfolding char_or
lower_char c = if is_upper c then char_or c alphabet (code c - 65) else c

unfoldable pub lower_text : String → String
unfolding lower_char
lower_text String.[] = String.[]
lower_text (String.◌∷◌ c s) =
    let rest = lower_text s in
    if code c == 8490
    then String.◌∷◌ (char 107 tt) rest
    else if code c == 304
    then String.◌∷◌ (char 105 tt) (String.◌∷◌ (char 775 tt) rest)
    else String.◌∷◌ (lower_char c) rest

char_or_all :
    (p : Char → Bool) (d : Char) (s : String) (n : ℕ)
    → all_chars p s ≡ true
    → n < size s
    → p (char_or d s n) ≡ true
unfolding char_or size
char_or_all p d String.[] n h k = absurd (omega arith)
char_or_all p d (String.◌∷◌ c s) zero h k = ground arith
char_or_all p d (String.◌∷◌ c s) (suc n) h k = char_or_all p d s n (ground arith) (omega arith)

-- A test that the lower-case letters pass is passed by a character's lower-case form if it is passed by
-- the characters that are not capital letters.
pub lower_char_passes :
    (p : Char → Bool) (c : Char)
    → all_chars p alphabet ≡ true
    → (is_upper c ≡ false → p c ≡ true)
    → p (lower_char c) ≡ true
unfolding lower_char size
lower_char_passes p c h k = elim (Bool-cases (is_upper c)) [
  | inl e ↦ rw e (char_or_all p c alphabet (code c - 65) h (ground arith))
  | inr e ↦ rw e (k e)
]
