-- ===== src/Prelude/Text.antt =====
-- `String.prototype.trim`.
use Prim.Native.Char.{Char, code}
use Prim.Native.Nat.{ℕ}
use Prim.Native.String.{String}
use clutch.Prelude.Tests.{leb, if◌then◌else◌, Bool-cases}
use clutch.Prelude.Equality.{◌==◌, nat_eq}
use mathlib.Core.Path.{◌≡◌, refl}
use mathlib.Core.Logic.{inl, inr}
use mathlib.Core.Bool.{Bool, true, false, ◌&&◌, ◌||◌}

-- White space and line terminators of ECMAScript.
abbrev pub is_white : ℕ → Bool
is_white n =
    (leb 9 n && leb n 13)
    || n == 32
    || n == 160
    || n == 5760
    || (leb 8192 n && leb n 8202)
    || n == 8232
    || n == 8233
    || n == 8239
    || n == 8287
    || n == 12288
    || n == 65279

abbrev pub is_space : Char → Bool
is_space c = is_white (code c)

abbrev pub is_empty : String → Bool
is_empty String.[] = true
is_empty (String.◌∷◌ c s) = false

unfoldable pub trim_start : String → String
trim_start String.[] = String.[]
trim_start (String.◌∷◌ c s) = if is_space c then trim_start s else String.◌∷◌ c s

unfoldable pub trim_end : String → String
trim_end String.[] = String.[]
trim_end (String.◌∷◌ c s) =
    let rest = trim_end s in if is_empty rest && is_space c then String.[] else String.◌∷◌ c rest

unfoldable pub trim : String → String
trim s = trim_end (trim_start s)

abbrev pub is_blank : String → Bool
is_blank s = is_empty (trim s)

-- The text does not begin with white space.
abbrev StartsInked : String → Type 0
StartsInked String.[] = Unit {0}
StartsInked (String.◌∷◌ c s) = is_space c ≡ false

trim_start-StartsInked : (s : String) → StartsInked (trim_start s)
unfolding trim_start
trim_start-StartsInked String.[] = tt
trim_start-StartsInked (String.◌∷◌ c s) = elim (Bool-cases (is_space c)) [
  | inl e ↦ rw e (trim_start-StartsInked s)
  | inr e ↦ rw e e
]

trim_start_of_inked : (s : String) → StartsInked s → trim_start s ≡ s
unfolding trim_start
trim_start_of_inked String.[] h = refl
trim_start_of_inked (String.◌∷◌ c s) h = rw h refl

trim_end-StartsInked : (s : String) → StartsInked s → StartsInked (trim_end s)
unfolding trim_end
trim_end-StartsInked String.[] h = tt
trim_end-StartsInked (String.◌∷◌ c s) h = elim (Bool-cases (is_empty (trim_end s))) [
  | inl e ↦ rw (e, h) h
  | inr e ↦ rw (e, h) refl
]

trim_end_idem : (s : String) → trim_end (trim_end s) ≡ trim_end s
unfolding trim_end
trim_end_idem String.[] = refl
trim_end_idem (String.◌∷◌ c s) = elim (Bool-cases (is_empty (trim_end s) && is_space c)) [
  | inl e ↦ rw e refl
  | inr e ↦ rw e (rw (trim_end_idem s) (rw e refl))
]

pub trim_idem : (s : String) → trim (trim s) ≡ trim s
unfolding trim
trim_idem s =
    rw
      (trim_start_of_inked (trim_end (trim_start s))
        (trim_end-StartsInked (trim_start s) (trim_start-StartsInked s)))
      (trim_end_idem (trim_start s))
