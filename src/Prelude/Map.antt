-- ===== src/Prelude/Map.antt =====
-- JavaScript's `Map` with text keys, as an association list: `set` replaces the value of a key that
-- is there and adds an entry behind the others if it is not.
use Prim.Native.String.{String}
use mathlib.Core.Path.{◌≡◌, refl, subst}
use mathlib.Core.Logic.{inl, inr}
use mathlib.Core.Bool.{Bool, true, false}
use mathlib.Core.List.{List, [], ◌∷◌}
use mathlib.Core.Option.{Option, none, some}
use native.Mathlib.Omega.{arith}
use text.Mathlib.TextEquality.{eq_iff}
use clutch.Prelude.Tests.{if◌then◌else◌, Bool-cases}
use clutch.Prelude.Lists.{All}
use clutch.Prelude.Equality.{◌==◌, string_eq}

module _ {ℓ} {V : Type ℓ} where
  unfoldable pub get : String → List (String × V) → Option V
  get k [] = none
  get k ((j, v) ∷ m) = if j == k then some v else get k m

  unfoldable pub set : String → V → List (String × V) → List (String × V)
  set k v [] = (k, v) ∷ []
  set k v ((j, w) ∷ m) = if j == k then (k, v) ∷ m else (j, w) ∷ set k v m

  unfoldable pub delete : String → List (String × V) → List (String × V)
  delete k [] = []
  delete k ((j, w) ∷ m) = if j == k then delete k m else (j, w) ∷ delete k m

  -- The entries whose value passes a test: a loop that deletes the others.
  unfoldable pub prune : (V → Bool) → List (String × V) → List (String × V)
  prune p [] = []
  prune p ((j, w) ∷ m) = if p w then (j, w) ∷ prune p m else prune p m

  pub get-set :
      (k j : String) (v : V) (m : List (String × V))
      → get j (set k v m) ≡ (if k == j then some v else get j m)
  unfolding get set
  get-set k j v [] = refl
  get-set k j v ((i, w) ∷ m) = ground (arith, eq_iff k j, eq_iff i k, eq_iff i j, get-set k j v m)

  pub get-delete :
      (k j : String) (m : List (String × V))
      → get j (delete k m) ≡ (if k == j then none else get j m)
  unfolding get delete
  get-delete k j [] = ground arith
  get-delete k j ((i, w) ∷ m) = ground (arith, eq_iff k j, eq_iff i k, eq_iff i j, get-delete k j m)

  unfoldable pub has : String → List (String × V) → Bool
  has k [] = false
  has k ((j, w) ∷ m) = if j == k then true else has k m

  -- No key stands twice, as in every `Map`.
  abbrev pub IsUnique : List (String × V) → Type 0
  IsUnique [] = Unit {0}
  IsUnique ((j, w) ∷ m) = (has j m ≡ false) × IsUnique m

  pub get_of_not_has : (k : String) (m : List (String × V)) → has k m ≡ false → get k m ≡ none
  unfolding has get
  get_of_not_has k [] h = refl
  get_of_not_has k ((j, w) ∷ m) h = ground (arith, get_of_not_has k m)

  pub get_of_has :
      (k : String) (m : List (String × V)) → has k m ≡ true → (v : V) × (get k m ≡ some v)
  unfolding has get
  get_of_has k [] h = cc
  get_of_has k ((i, w) ∷ m) h = elim (Bool-cases (i == k)) [
    | inl e ↦ (w, rw e refl)
    | inr e ↦ let (v, found) = get_of_has k m (ground arith) in (v, rw e found)
  ]

  -- What holds of the entries and of a new one holds of the entries with the new one.
  pub All-set {κ} :
      (P : String × V → Type κ) (k : String) (v : V) (m : List (String × V))
      → All P m
      → P (k, v)
      → All P (set k v m)
  unfolding set
  All-set P k v [] h p = (p, tt)
  All-set P k v ((i, w) ∷ m) (q, h) p = elim (Bool-cases (i == k)) [
    | inl e ↦ rw e (p, h)
    | inr e ↦ rw e (q, All-set P k v m h p)
  ]

  pub All-get {κ} :
      (P : String × V → Type κ) (k : String) (v : V) (m : List (String × V))
      → All P m
      → get k m ≡ some v
      → (j : String) × P (j, v)
  unfolding get
  All-get P k v [] h e = cc
  All-get P k v ((i, w) ∷ m) (q, h) e = elim (Bool-cases (i == k)) [
    | inl f ↦ let same : w ≡ v = ground arith in (i, subst (λ x. P (i, x)) same q)
    | inr f ↦ All-get P k v m h (ground arith)
  ]

  has-set :
      (k j : String) (v : V) (m : List (String × V))
      → has j (set k v m) ≡ (if k == j then true else has j m)
  unfolding has set
  has-set k j v [] = refl
  has-set k j v ((i, w) ∷ m) = ground (arith, eq_iff k j, eq_iff i k, eq_iff i j, has-set k j v m)

  has-delete :
      (k j : String) (m : List (String × V))
      → has j (delete k m) ≡ (if k == j then false else has j m)
  unfolding has delete
  has-delete k j [] = ground arith
  has-delete k j ((i, w) ∷ m) = ground (arith, eq_iff k j, eq_iff i k, eq_iff i j, has-delete k j m)

  has-prune :
      (p : V → Bool) (j : String) (m : List (String × V))
      → has j m ≡ false
      → has j (prune p m) ≡ false
  unfolding has prune
  has-prune p j [] h = refl
  has-prune p j ((i, w) ∷ m) h = ground (arith, has-prune p j m)

  pub set-IsUnique :
      (k : String) (v : V) (m : List (String × V)) → IsUnique m → IsUnique (set k v m)
  unfolding has set
  set-IsUnique k v [] u = (refl, tt)
  set-IsUnique k v ((i, w) ∷ m) u =
      ground (arith, eq_iff i k, eq_iff k i, has-set k i v m, set-IsUnique k v m u.1)

  pub delete-IsUnique : (k : String) (m : List (String × V)) → IsUnique m → IsUnique (delete k m)
  unfolding delete
  delete-IsUnique k [] u = tt
  delete-IsUnique k ((i, w) ∷ m) u = ground (arith, has-delete k i m, delete-IsUnique k m u.1)

  pub prune-IsUnique : (p : V → Bool) (m : List (String × V)) → IsUnique m → IsUnique (prune p m)
  unfolding prune
  prune-IsUnique p [] u = tt
  prune-IsUnique p ((i, w) ∷ m) u = ground (arith, has-prune p i m, prune-IsUnique p m u.1)

  -- The value of a key, if it passes the test.
  abbrev pub passing : (V → Bool) → Option V → Option V
  passing p none = none
  passing p (some v) = if p v then some v else none

  pub get-prune :
      (p : V → Bool) (k : String) (m : List (String × V))
      → IsUnique m
      → get k (prune p m) ≡ passing p (get k m)
  unfolding get prune
  get-prune p k [] u = refl
  get-prune p k ((i, w) ∷ m) u =
      ground (arith, eq_iff i k, get_of_not_has i m u.0, get-prune p k m u.1)
