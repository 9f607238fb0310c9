-- ===== src/Database/Count.antt =====
-- How many rows of a list pass a test.
use clutch.Prelude.{
  length, any, ◌↔◌, ◌<◌, keep, ℕ, ◌+◌, ◌≤◌, ◌≡◌, refl, ◌∙◌, Bool, true, false, not, ◌&&◌, List, [],
  ◌∷◌, ◌++◌, arith, if◌then◌else◌, Bool-cases, inl, inr,
}

module _ {R : Type 0} where
  unfoldable pub count : (R → Bool) → List R → ℕ
  count q [] = 0
  count q (r ∷ rs) = (if q r then 1 else 0) + count q rs

  pub count_mono :
      (p q : R → Bool) (rs : List R) → ((r : R) → p r ≡ true → q r ≡ true) → count p rs ≤ count q rs
  unfolding count
  count_mono p q [] h = omega arith
  count_mono p q (r ∷ rs) h = elim (Bool-cases (p r)) [
    | inl e ↦ rw (e, h r e) (omega (arith, count_mono p q rs h))
    | inr e ↦ rw e (ground (arith, count_mono p q rs h))
  ]

  pub count_congr : (p q : R → Bool) (rs : List R) → ((r : R) → p r ≡ q r) → count p rs ≡ count q rs
  unfolding count
  count_congr p q [] h = refl
  count_congr p q (r ∷ rs) h = rw (h r, count_congr p q rs h)

  -- A test splits the rows that pass another.
  pub count_split :
      (p q : R → Bool) (rs : List R)
      → count q rs ≡ count (λ r. not (p r) && q r) rs + count (λ r. p r && q r) rs
  unfolding count
  count_split p q [] = omega arith
  count_split p q (r ∷ rs) = ground (arith, count_split p q rs)

  pub count-append : (q : R → Bool) (xs ys : List R) → count q (xs ++ ys) ≡ count q xs + count q ys
  unfolding count
  count-append q [] ys = omega arith
  count-append q (x ∷ xs) ys = omega (arith, count-append q xs ys)

  -- No row passes where none passes a weaker test.
  pub count-eq-zero_of :
      (p q : R → Bool) (rs : List R)
      → ((r : R) → p r ≡ true → q r ≡ true)
      → count q rs ≡ 0
      → count p rs ≡ 0
  count-eq-zero_of p q rs h z = omega (arith, count_mono p q rs h)

  pub count-false : (rs : List R) → count (λ r. false) rs ≡ 0
  unfolding count
  count-false [] = refl
  count-false (r ∷ rs) = omega (arith, count-false rs)

  pub count-eq-zero_of_false :
      (p : R → Bool) (rs : List R) → ((r : R) → p r ≡ false) → count p rs ≡ 0
  count-eq-zero_of_false p rs h = count_congr p (λ r. false) rs h ∙ count-false rs

  pub length-keep : (q : R → Bool) (rs : List R) → length (keep q rs) ≡ count q rs
  unfolding count
  length-keep q [] = refl
  length-keep q (r ∷ rs) = ground (arith, length-keep q rs)

  pub any-eq-true_iff : (q : R → Bool) (rs : List R) → (any q rs ≡ true) ↔ (0 < count q rs)
  unfolding count
  any-eq-true_iff q [] = (λ h. cc, λ h. absurd (omega arith))
  any-eq-true_iff q (r ∷ rs) =
      let (to, back) = any-eq-true_iff q rs in
      elim (Bool-cases (q r)) [
        | inl e ↦ (λ h. rw e (omega arith), λ h. rw e refl)
        | inr e ↦ (λ h. rw e (omega (arith, to (ground arith))), λ h. rw e (back (ground arith)))
      ]
