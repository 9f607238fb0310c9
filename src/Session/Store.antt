-- ===== src/Session/Store.antt =====
-- The store of sessions: the type `RefreshSessionStore` as an interface with laws, and the in-memory
-- store of refresh-token.service.ts. Times are milliseconds since the epoch.
use clutch.Prelude.{
  ℕ, ◌+◌, ◌*◌, ◌≤◌, ◌≡◌, String, Option, none, some, List, arith, eq_iff, ◌==◌, string_eq, leb,
  if◌then◌else◌,
}
use clutch.Prelude.Map
use clutch.Session.Types.{RefreshSessionRecord}

-- A read may drop what has expired, so it returns the store too.
pub record RefreshSessionStore : Type 1 where
  pub State : Type 0
  pub get : ℕ → String → State → State × Option RefreshSessionRecord
  pub set : ℕ → String → RefreshSessionRecord → ℕ → State → State
  -- A value is read back until its time to live has run out, and a write touches no other key.
  pub get-set :
      (now later : ℕ) (k j : String) (r : RefreshSessionRecord) (ttl : ℕ) (s : State)
      → (get later j (set now k r ttl s)).1 ≡ (
          if k == j
          then (if leb (now + ttl * 1000) later then none else some r)
          else (get later j s).1)
  -- A read changes no later read.
  pub get-get :
      (now later : ℕ) (k j : String) (s : State)
      → now ≤ later
      → (get later j (get now k s).0).1 ≡ (get later j s).1
  -- What has expired stays away.
  pub get_later :
      (now later : ℕ) (k : String) (s : State)
      → now ≤ later
      → (get now k s).1 ≡ none
      → (get later k s).1 ≡ none
  -- A value that is still there was there before.
  pub get_before :
      (now later : ℕ) (k : String) (r : RefreshSessionRecord) (s : State)
      → now ≤ later
      → (get later k s).1 ≡ some r
      → (get now k s).1 ≡ some r

-- `{ expiresAt; value }` of `createInMemoryRefreshSessionStore`.
pub record Entry : Type 0 where
  pub expires_at : ℕ
  pub value : RefreshSessionRecord

abbrev pub Sessions : Type 0
Sessions = List (String × Entry)

unfoldable pub read_entry :
    ℕ → String → Sessions → Option Entry → Sessions × Option RefreshSessionRecord
read_entry now k s none = (s, none)
read_entry now k s (some e) =
    if leb e.expires_at now then (Map.delete k s, none) else (s, some e.value)

unfoldable pub memory_get : ℕ → String → Sessions → Sessions × Option RefreshSessionRecord
unfolding read_entry
memory_get now k s = read_entry now k s (Map.get k s)

unfoldable pub memory_set : ℕ → String → RefreshSessionRecord → ℕ → Sessions → Sessions
memory_set now k r ttl s = Map.set k (record { expires_at = now + ttl * 1000; value = r }) s

pub memory_get_set :
    (now later : ℕ) (k j : String) (r : RefreshSessionRecord) (ttl : ℕ) (s : Sessions)
    → (memory_get later j (memory_set now k r ttl s)).1 ≡ (
        if k == j
        then (if leb (now + ttl * 1000) later then none else some r)
        else (memory_get later j s).1)
unfolding memory_get memory_set
memory_get_set now later k j r ttl s =
    ground (arith, Map.get-set k j (record { expires_at = now + ttl * 1000; value = r }) s)

pub memory_get_get :
    (now later : ℕ) (k j : String) (s : Sessions)
    → now ≤ later
    → (memory_get later j (memory_get now k s).0).1 ≡ (memory_get later j s).1
unfolding memory_get
memory_get_get now later k j s h = ground (arith, Map.get-delete k j s, eq_iff k j)

pub memory_get_later :
    (now later : ℕ) (k : String) (s : Sessions)
    → now ≤ later
    → (memory_get now k s).1 ≡ none
    → (memory_get later k s).1 ≡ none
unfolding memory_get
memory_get_later now later k s h e = ground arith

pub memory_get_before :
    (now later : ℕ) (k : String) (r : RefreshSessionRecord) (s : Sessions)
    → now ≤ later
    → (memory_get later k s).1 ≡ some r
    → (memory_get now k s).1 ≡ some r
unfolding memory_get
memory_get_before now later k r s h e = ground arith

abbrev pub memory_store : RefreshSessionStore
memory_store = record {
  State = Sessions;
  get = memory_get;
  set = memory_set;
  get-set = memory_get_set;
  get-get = memory_get_get;
  get_later = memory_get_later;
  get_before = memory_get_before;
}
