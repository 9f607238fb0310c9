-- ===== src/OAuth/PkceStore.antt =====
-- `createInMemoryAccountConnectionPkceStore` of account-connection.service.ts.
use clutch.Prelude.{
  ℕ, ◌+◌, ◌≡◌, String, Bool, not, Option, none, some, List, arith, eq_refl, string_eq, leb,
  if◌then◌else◌,
}
use clutch.Prelude.Map
use clutch.Prelude.Map.{IsUnique}

-- `{ codeVerifier; expiresAt }`
pub record Verifier : Type 0 where
  pub code_verifier : String
  pub expires_at : ℕ

abbrev pub Verifiers : Type 0
Verifiers = List (String × Verifier)

abbrev pub is_live : ℕ → Verifier → Bool
is_live now v = not (leb v.expires_at now)

unfoldable pub prune_expired_verifiers : ℕ → Verifiers → Verifiers
prune_expired_verifiers now s = Map.prune (is_live now) s

unfoldable pub store : ℕ → String → String → ℕ → Verifiers → Verifiers
unfolding prune_expired_verifiers
store now state code_verifier ttl s =
    Map.set state (record { code_verifier = code_verifier; expires_at = now + ttl })
      (prune_expired_verifiers now s)

unfoldable pub take_verifier : ℕ → Option Verifier → Option String
take_verifier now none = none
take_verifier now (some v) = if leb v.expires_at now then none else some v.code_verifier

unfoldable pub consume : ℕ → String → Verifiers → Verifiers × Option String
unfolding prune_expired_verifiers take_verifier
consume now state s =
    let pruned = prune_expired_verifiers now s in
    (Map.delete state pruned, take_verifier now (Map.get state pruned))

-- The verifier of a state comes back once, and only before its time to live has run out.
pub consume-store_verifier :
    (now later again : ℕ) (state verifier : String) (ttl : ℕ) (s : Verifiers)
    → IsUnique s
    → let first = consume later state (store now state verifier ttl s) in
      (first.1 ≡ (if leb (now + ttl) later then none else some verifier))
      × ((consume again state first.0).1 ≡ none)
unfolding consume store
consume-store_verifier now later again state verifier ttl s u =
    let pruned = Map.prune (is_live now) s in
    let v : Verifier = record { code_verifier = verifier; expires_at = now + ttl } in
    let stored = Map.set state v pruned in
    let stored_unique : IsUnique stored =
      Map.set-IsUnique state v pruned (Map.prune-IsUnique (is_live now) s u) in
    let left = Map.delete state (Map.prune (is_live later) stored) in
    let left_unique : IsUnique left =
      Map.delete-IsUnique state _ (Map.prune-IsUnique (is_live later) stored stored_unique) in
    (
      ground (
        arith,
        Map.get-prune (is_live later) state stored stored_unique,
        Map.get-set state state v pruned,
        eq_refl state,
      ),
      ground (
        arith,
        Map.get-prune (is_live again) state left left_unique,
        Map.get-delete state state (Map.prune (is_live later) stored),
        eq_refl state,
      ),
    )
