-- ===== src/Cache/Queries.antt =====
-- The part of `QueryClient` that social-cache.ts uses: cached queries in order, each with its key and
-- its data, if there is any. A filter matches the keys that begin with its own.
use clutch.Prelude.{
  String, Bool, true, false, ◌&&◌, Option, none, some, List, [], ◌∷◌, ◌==◌, string_eq,
  if◌then◌else◌,
}

abbrev pub QueryKey : Type 0
QueryKey = List String

abbrev pub begins_with : QueryKey → QueryKey → Bool
begins_with [] key = true
begins_with (a ∷ filter) [] = false
begins_with (a ∷ filter) (b ∷ key) = a == b && begins_with filter key

abbrev pub on_data {ℓ} : {A : Type ℓ} → (A → A) → Option A → Option A
on_data f none = none
on_data f (some a) = some (f a)

-- `setQueriesData` with an updater that leaves a query without data alone; the updater sees the key.
unfoldable pub set_queries_data {ℓ} :
    {A : Type ℓ}
    → QueryKey
    → (QueryKey → A → A)
    → List (QueryKey × Option A)
    → List (QueryKey × Option A)
set_queries_data filter f [] = []
set_queries_data filter f ((key, response) ∷ cache) =
    (key, if begins_with filter key then on_data (f key) response else response)
    ∷ set_queries_data filter f cache
