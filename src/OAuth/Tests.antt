-- ===== src/OAuth/Tests.antt =====
-- The theorems of the one-time stores at concrete inputs.
use clutch.Prelude.{◌≡◌, refl, true, false, [], ◌∷◌, arith, eq_iff, string_eq}
use clutch.Prelude.Map
use clutch.OAuth.StateStore
use clutch.OAuth.StateStore.{States, consume_iff, consume-store}
use clutch.OAuth.PkceStore
use clutch.OAuth.PkceStore.{Verifiers, consume-store_verifier}
use clutch.OAuth.Once.{stores, consumes, run_calls, consume-consume_once}

abbrev held : States
held = ("a", 5000) ∷ ("b", 900) ∷ []

maps : Unit {0}
unfolding Map.get Map.has Map.set Map.delete Map.prune StateStore.consume StateStore.store
    PkceStore.store PkceStore.consume
maps = tt

accepted_once :
    ((StateStore.consume 1000 "a" held).1 ≡ true)
    × ((StateStore.consume 1000 "b" held).1 ≡ false)
    × ((StateStore.consume 1000 "a" held).0 ≡ [])
unfolding maps
accepted_once = (refl, refl, refl)

held-IsUnique : Map.IsUnique held
unfolding maps
held-IsUnique = (refl, (refl, tt))

consume-consume_once_example :
    (StateStore.consume 3000 "a" (
      run_calls
        ((2000, consumes "b") ∷ (2500, stores "c" 100) ∷ [])
        (StateStore.consume 1000 "a" held).0)).1
    ≡ false
consume-consume_once_example =
    consume-consume_once "a" 1000 3000 ((2000, consumes "b") ∷ (2500, stores "c" 100) ∷ []) held
      held-IsUnique (tt, (ground (arith, eq_iff "c" "a"), tt))

abbrev no_verifiers : Verifiers
no_verifiers = []
