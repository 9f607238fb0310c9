-- ===== src/OAuth/Once.antt =====
-- Histories of the state store: a state that has been consumed is spent.
use clutch.Prelude.{
  ℕ, ◌+◌, ◌≡◌, ◌≢◌, String, false, none, List, [], ◌∷◌, arith, eq_iff, eq_refl, string_eq, All,
}
use clutch.Prelude.Map
use clutch.Prelude.Map.{IsUnique}
use clutch.OAuth.StateStore.{States, is_live, store, consume, store-IsUnique, consume-IsUnique}

pub data Call : Type 0 where
  stores : (state : String) (ttl : ℕ) → Call
  consumes : (state : String) → Call

-- The call does not store the state `k` again.
abbrev pub Avoids : String → Call → Type 0
Avoids k (stores state ttl) = state ≢ k
Avoids k (consumes state) = Unit {0}

unfoldable pub run_call : ℕ → Call → States → States
run_call now (stores state ttl) s = store now state ttl s
run_call now (consumes state) s = (consume now state s).0

unfoldable pub run_calls : List (ℕ × Call) → States → States
run_calls [] s = s
run_calls ((now, c) ∷ cs) s = run_calls cs (run_call now c s)

-- The store does not hold the state.
record IsSpent (k : String) (s : States) : Type 0 where
  unique : IsUnique s
  absent : Map.get k s ≡ none

run_call-IsSpent :
    (k : String) (now : ℕ) (c : Call) (s : States)
    → Avoids k c
    → IsSpent k s
    → IsSpent k (run_call now c s)
unfolding run_call store consume
run_call-IsSpent k now (stores state ttl) s other h = record {
  unique = store-IsUnique now state ttl s h.unique;
  absent = ground (
    arith,
    eq_iff state k,
    Map.get-set state k (now + ttl) (Map.prune (is_live now) s),
    Map.get-prune (is_live now) k s h.unique,
  );
}
run_call-IsSpent k now (consumes state) s other h = record {
  unique = consume-IsUnique now state s h.unique;
  absent = ground (
    arith,
    Map.get-delete state k (Map.prune (is_live now) s),
    Map.get-prune (is_live now) k s h.unique,
  );
}

run_calls-IsSpent :
    (k : String) (cs : List (ℕ × Call)) (s : States)
    → All (λ c. Avoids k c.1) cs
    → IsSpent k s
    → IsSpent k (run_calls cs s)
unfolding run_calls
run_calls-IsSpent k [] s _ h = h
run_calls-IsSpent k ((now, c) ∷ cs) s (a, as') h =
    run_calls-IsSpent k cs (run_call now c s) as' (run_call-IsSpent k now c s a h)

consume-IsSpent : (k : String) (now : ℕ) (s : States) → IsUnique s → IsSpent k (consume now k s).0
unfolding consume
consume-IsSpent k now s u = record {
  unique = consume-IsUnique now k s u;
  absent = ground (arith, Map.get-delete k k (Map.prune (is_live now) s), eq_refl k);
}

consume_of_spent : (k : String) (now : ℕ) (s : States) → IsSpent k s → (consume now k s).1 ≡ false
unfolding consume
consume_of_spent k now s h = ground (arith, Map.get-prune (is_live now) k s h.unique)

-- A state is accepted at most once: after a call of `consume`, whatever it answered, no later call
-- accepts the state, however the store was used in between, unless it has been stored again.
pub consume-consume_once :
    (k : String) (now later : ℕ) (cs : List (ℕ × Call)) (s : States)
    → IsUnique s
    → All (λ c. Avoids k c.1) cs
    → (consume later k (run_calls cs (consume now k s).0)).1 ≡ false
consume-consume_once k now later cs s u fresh =
    consume_of_spent k later _ (run_calls-IsSpent k cs _ fresh (consume-IsSpent k now s u))
