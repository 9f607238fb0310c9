-- ===== src/Database/Memory.antt =====
-- A table held as the list of its rows: the assumptions of `Table` can be met.
use clutch.Prelude.{
  ◌+◌, ◌<◌, ◌≡◌, refl, Bool, true, false, not, ◌&&◌, Option, none, some, List, [], ◌∷◌, ◌++◌, arith,
  if◌then◌else◌, find, keep, any, Bool-cases, inl, inr,
}
use clutch.Database.Count.{count, count-append}
use clutch.Database.Table.{Table}

module _ {R : Type 0} where
  pub find-none : (p : R → Bool) (t : List R) → find p t ≡ none → count p t ≡ 0
  unfolding count
  find-none p [] h = refl
  find-none p (r ∷ t) h = ground (arith, find-none p t)

  pub find-some :
      (p q : R → Bool) (t : List R) (r : R)
      → find p t ≡ some r
      → q r ≡ true
      → (p r ≡ true) × (0 < count q t)
  unfolding count
  find-some p q [] r h k = cc
  find-some p q (x ∷ t) r h k = elim (Bool-cases (p x)) [
    | inl e ↦ let same : x ≡ r = ground arith in (rw (← same) e, rw same (ground arith))
    | inr e ↦ let (here, later) = find-some p q t r (ground arith) k in (here, ground arith)
  ]

  pub any-false : (p : R → Bool) (t : List R) → any p t ≡ false → count p t ≡ 0
  unfolding count
  any-false p [] h = refl
  any-false p (r ∷ t) h = ground (arith, any-false p t)

  pub count-keep :
      (p q : R → Bool) (t : List R)
      → count q (keep (λ r. not (p r)) t) ≡ count (λ r. not (p r) && q r) t
  unfolding count
  count-keep p q [] = refl
  count-keep p q (r ∷ t) = ground (arith, count-keep p q t)

  pub count_kept : (p q : R → Bool) (t : List R) → count q (keep p t) ≡ count (λ r. p r && q r) t
  unfolding count
  count_kept p q [] = refl
  count_kept p q (r ∷ t) = ground (arith, count_kept p q t)

  unfoldable pub update_rows : (R → Bool) → (R → R) → List R → List R
  update_rows p f [] = []
  update_rows p f (r ∷ t) = (if p r then f r else r) ∷ update_rows p f t

  pub count-update_rows :
      (p q : R → Bool) (f : R → R) (t : List R)
      → count q (update_rows p f t)
        ≡ count (λ r. not (p r) && q r) t + count (λ r. p r && q (f r)) t
  unfolding count update_rows
  count-update_rows p q f [] = omega arith
  count-update_rows p q f (r ∷ t) = ground (arith, count-update_rows p q f t)

  module _ (conflicts : R → R → Bool) where
    unfoldable pub create_row : R → List R → Option (List R)
    create_row r t = if any (conflicts r) t then none else some (t ++ r ∷ [])

    pub create_row-some :
        (r : R) (t t' : List R) (q : R → Bool)
        → create_row r t ≡ some t'
        → (count (conflicts r) t ≡ 0) × (count q t' ≡ count q t + (if q r then 1 else 0))
    unfolding create_row count
    create_row-some r t t' q h =
        let none_there : any (conflicts r) t ≡ false = ground arith in
        let grown : t ++ r ∷ [] ≡ t' = ground arith in
        (
          any-false (conflicts r) t none_there,
          rw (← grown) (omega (arith, count-append q t (r ∷ []))),
        )

    unfoldable pub upsert_at : (R → Bool) → R → (R → R) → List R → Option R → Option (List R)
    upsert_at p r f t none = create_row r t
    upsert_at p r f t (some x) =
        if any (λ y. not (p y) && conflicts (f x) y) t then none else some (update_rows p f t)

    unfoldable pub upsert_row : (R → Bool) → R → (R → R) → List R → Option (List R)
    upsert_row p r f t = upsert_at p r f t (find p t)

    pub upsert_row-none :
        (p : R → Bool) (r : R) (f : R → R) (t : List R)
        → find p t ≡ none
        → upsert_row p r f t ≡ create_row r t
    unfolding upsert_row upsert_at create_row
    upsert_row-none p r f t h = rw (h, upsert_at) refl

    upsert_at-some :
        (p : R → Bool) (r : R) (f : R → R) (t t' : List R) (x : R) (q : R → Bool)
        → upsert_at p r f t (some x) ≡ some t'
        → (count (λ y. not (p y) && conflicts (f x) y) t ≡ 0)
          × (count q t' ≡ count (λ y. not (p y) && q y) t + count (λ y. p y && q (f y)) t)
    unfolding upsert_at
    upsert_at-some p r f t t' x q e =
        let clash : R → Bool = λ y. not (p y) && conflicts (f x) y in
        let free : any clash t ≡ false = ground arith in
        let same : update_rows p f t ≡ t' = ground arith in
        (any-false clash t free, rw (← same) (count-update_rows p q f t))

    pub upsert_row-some :
        (p : R → Bool) (r : R) (f : R → R) (t t' : List R) (x : R) (q : R → Bool)
        → find p t ≡ some x
        → upsert_row p r f t ≡ some t'
        → (count (λ y. not (p y) && conflicts (f x) y) t ≡ 0)
          × (count q t' ≡ count (λ y. not (p y) && q y) t + count (λ y. p y && q (f y)) t)
    unfolding upsert_row
    upsert_row-some p r f t t' x q h e =
        let at_x : upsert_at p r f t (some x) ≡ some t' = rw h at e in
        upsert_at-some p r f t t' x q at_x

    abbrev pub memory : Table conflicts
    memory = record {
      T = List R;
      rows = λ t. t;
      find_first = find;
      find_many = keep;
      create = create_row;
      delete_many = λ p t. keep (λ r. not (p r)) t;
      update_many = update_rows;
      upsert = upsert_row;
      find_first_none = find-none;
      find_first_some = find-some;
      count_found = count_kept;
      create_some = create_row-some;
      count_deleted = count-keep;
      count_updated = λ p q f t _. count-update_rows p q f t;
      upsert_new = upsert_row-none;
      upsert_found = upsert_row-some;
    }
