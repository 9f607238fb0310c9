-- ===== src/OAuth/StateStore.antt =====
-- `createInMemorySocialOAuthStateStore` of social-auth.service.ts. An entry maps a state to its
-- expiry; `now` is the clock value that the operation reads.
use clutch.Prelude.{
  ℕ, ◌+◌, ◌<◌, ◌≡◌, ◌↔◌, refl, String, Bool, true, false, not, ◌||◌, Option, none, some, List,
  arith, eq_refl, ◌==◌, nat_eq, string_eq, leb,
}
use clutch.Prelude.Map
use clutch.Prelude.Map.{IsUnique, passing}

abbrev pub States : Type 0
States = List (String × ℕ)

abbrev pub is_live : ℕ → ℕ → Bool
is_live now expires_at = not (leb expires_at now)

unfoldable pub prune_expired_states : ℕ → States → States
prune_expired_states now s = Map.prune (is_live now) s

unfoldable pub store : ℕ → String → ℕ → States → States
unfolding prune_expired_states
store now state ttl s = Map.set state (now + ttl) (prune_expired_states now s)

-- `!expiresAt` holds of `undefined` and of 0.
unfoldable pub take_state : ℕ → Option ℕ → Bool
take_state now none = false
take_state now (some expires_at) = not (expires_at == 0 || leb expires_at now)

unfoldable pub consume : ℕ → String → States → States × Bool
unfolding prune_expired_states take_state
consume now state s =
    let pruned = prune_expired_states now s in
    (Map.delete state pruned, take_state now (Map.get state pruned))

-- `consume` accepts a state exactly when the store holds it with an expiry in the future.
pub consume_iff :
    (now : ℕ) (state : String) (s : States)
    → IsUnique s
    → ((consume now state s).1 ≡ true)
      ↔ ((expires_at : ℕ) × (Map.get state s ≡ some expires_at) × (now < expires_at))
unfolding consume
consume_iff now state s u = (
  λ h. go (Map.get state s) refl h,
  λ (x, e, h). ground (arith, Map.get-prune (is_live now) state s u),
)
  where
    go :
        (o : Option ℕ)
        → Map.get state s ≡ o
        → (consume now state s).1 ≡ true
        → (expires_at : ℕ) × (Map.get state s ≡ some expires_at) × (now < expires_at)
    go none e h = absurd (ground (arith, Map.get-prune (is_live now) state s u))
    go (some x) e h = (x, e, ground (arith, Map.get-prune (is_live now) state s u))

pub store-IsUnique :
    (now : ℕ) (state : String) (ttl : ℕ) (s : States)
    → IsUnique s
    → IsUnique (store now state ttl s)
unfolding store
store-IsUnique now state ttl s u =
    Map.set-IsUnique state (now + ttl) _ (Map.prune-IsUnique (is_live now) s u)

pub consume-IsUnique :
    (now : ℕ) (state : String) (s : States) → IsUnique s → IsUnique (consume now state s).0
unfolding consume
consume-IsUnique now state s u = Map.delete-IsUnique state _ (Map.prune-IsUnique (is_live now) s u)

-- A stored state is accepted until its time to live has run out, and not after.
pub consume-store :
    (now later : ℕ) (state : String) (ttl : ℕ) (s : States)
    → IsUnique s
    → (consume later state (store now state ttl s)).1 ≡ not (leb (now + ttl) later)
unfolding consume store
consume-store now later state ttl s u =
    let pruned = Map.prune (is_live now) s in
    ground (
      arith,
      Map.get-prune (is_live later) state (Map.set state (now + ttl) pruned)
          (Map.set-IsUnique state (now + ttl) pruned (Map.prune-IsUnique (is_live now) s u)),
      Map.get-set state state (now + ttl) pruned,
      eq_refl state,
    )
