-- ===== src/Prelude/Equality.antt =====
-- The source's `===`, by instances.
use Prim.Native.Nat.{ℕ, compare, Ordering}
use Prim.Native.String.{String}
use mathlib.Core.Path.{◌≡◌}
use mathlib.Core.Logic.{◌↔◌}
use mathlib.Core.Bool.{Bool, true, false}
use native.Mathlib.Omega.{arith}
use text.Mathlib.Text.{◌==◌ as str_eq}
use text.Mathlib.TextEquality.{eq_iff}

abbrev nat_beq : ℕ → ℕ → Bool
nat_beq a b = elim (compare a b) [ Ordering.eq ↦ true | _ ↦ false ]

pub nat_beq_iff : (a b : ℕ) → (nat_beq a b ≡ true) ↔ (a ≡ b)
nat_beq_iff a b = (λ h. ground arith, λ h. ground arith)

-- A type whose values `===` compares by what they hold, with the comparison.
pub record ComparedByValue {κ} (T : Type κ) : Type κ where
  pub same : T → T → Bool
  pub same_iff : (x y : T) → (same x y ≡ true) ↔ (x ≡ y)

instance abbrev pub string_eq : ComparedByValue String
string_eq = record { same_iff = eq_iff; same = str_eq }

instance abbrev pub nat_eq : ComparedByValue ℕ
nat_eq = record { same_iff = nat_beq_iff; same = nat_beq }

infix 50 ◌==◌
abbrev pub ◌==◌ {κ} : {T : Type κ} ⦃by_value : ComparedByValue T⦄ → T → T → Bool
◌==◌ ⦃by_value⦄ x y = by_value.same x y
