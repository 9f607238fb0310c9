-- ===== src/Database/Table.antt =====
-- What the repositories rely on of Prisma and PostgreSQL: a table is seen by its rows, and each query
-- by the number of rows that pass any test before and after it. `conflicts` is the table's uniqueness
-- constraint in backend/prisma/schema.prisma: a row is refused (error P2002) while one that conflicts
-- with it is there.
use clutch.Prelude.{◌+◌, ◌<◌, ◌≡◌, Bool, true, not, ◌&&◌, Option, none, some, List, if◌then◌else◌}
use clutch.Database.Count.{count}

pub record Table {R : Type 0} (conflicts : R → R → Bool) : Type 1 where
  pub T : Type 0
  pub rows : T → List R
  -- `findUnique` and `findFirst`
  pub find_first : (R → Bool) → T → Option R
  pub find_many : (R → Bool) → T → List R
  -- `none` is an error, of the uniqueness constraint or another.
  pub create : R → T → Option T
  -- `deleteMany`
  pub delete_many : (R → Bool) → T → T
  pub update_many : (R → Bool) → (R → R) → T → T
  -- `upsert`: the row of a unique key is changed, or a row is created.
  pub upsert : (R → Bool) → R → (R → R) → T → Option T
  pub find_first_none : (p : R → Bool) (t : T) → find_first p t ≡ none → count p (rows t) ≡ 0
  pub find_first_some :
      (p q : R → Bool) (t : T) (r : R)
      → find_first p t ≡ some r
      → q r ≡ true
      → (p r ≡ true) × (0 < count q (rows t))
  pub count_found :
      (p q : R → Bool) (t : T) → count q (find_many p t) ≡ count (λ r. p r && q r) (rows t)
  pub create_some :
      (r : R) (t t' : T) (q : R → Bool)
      → create r t ≡ some t'
      → (count (conflicts r) (rows t) ≡ 0)
        × (count q (rows t') ≡ count q (rows t) + (if q r then 1 else 0))
  pub count_deleted :
      (p q : R → Bool) (t : T)
      → count q (rows (delete_many p t)) ≡ count (λ r. not (p r) && q r) (rows t)
  -- Only for changes that touch no column of a uniqueness constraint.
  pub count_updated :
      (p q : R → Bool) (f : R → R) (t : T)
      → ((x r : R) → conflicts x (f r) ≡ conflicts x r)
      → count q (rows (update_many p f t))
        ≡ count (λ r. not (p r) && q r) (rows t) + count (λ r. p r && q (f r)) (rows t)
  pub upsert_new :
      (p : R → Bool) (r : R) (f : R → R) (t : T)
      → find_first p t ≡ none
      → upsert p r f t ≡ create r t
  pub upsert_found :
      (p : R → Bool) (r : R) (f : R → R) (t t' : T) (x : R) (q : R → Bool)
      → find_first p t ≡ some x
      → upsert p r f t ≡ some t'
      → (count (λ y. not (p y) && conflicts (f x) y) (rows t) ≡ 0)
        × (count q (rows t')
            ≡ count (λ y. not (p y) && q y) (rows t) + count (λ y. p y && q (f y)) (rows t))
