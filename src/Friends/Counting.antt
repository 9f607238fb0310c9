-- ===== src/Friends/Counting.antt =====
-- How the two transactions change the numbers of friendships and the counters of friends.
use clutch.Prelude.{
  Bool-cases, List, ℕ, ◌+◌, ◌≡◌, ◌≢◌, refl, String, Bool, true, false, not, ◌&&◌, some, arith,
  eq_iff, ◌==◌, nat_eq, string_eq, if◌then◌else◌, Option-cases, inl, inr,
}
use clutch.Prelude.Int.{ℤ, pos, negsuc, ◌+ℤ◌, ◌-ℤ◌}
use clutch.Database.Count.{
  count, count-eq-zero_of_false, count-eq-zero_of, count_congr, count_split,
}
use clutch.Friends.Schema.{Friendship, UserStats, edge, belongs, belongs_lem, Tables}
use clutch.Friends.Repository.{
  Db, either_way, of_pair, increment, decrement, accept_status, accept_request, remove_friendship,
}

abbrev pub is_pos : ℤ → ℕ → Bool
is_pos (pos m) n = m == n
is_pos (negsuc m) n = false

-- The row is the user's, and its counter is not `n`.
abbrev pub miscounted : String → ℕ → UserStats → Bool
miscounted u n r = r.user_id == u && not (is_pos r.friend_count n)

abbrev pub one_if : Bool → ℕ
one_if b = if b then 1 else 0

-- A counter outside the pair is as right as before.
outside_pair :
    (u s r : String) (n n' : ℕ) (x : UserStats)
    → n' ≡ n + one_if (s == u) + one_if (r == u)
    → (not (of_pair s r x) && miscounted u n' x) ≡ true
    → miscounted u n x ≡ true
outside_pair u s r n n' x e h =
    ground
      (arith, eq_iff x.user_id u, eq_iff x.user_id s, eq_iff x.user_id r, eq_iff s u, eq_iff r u)

outside_pair_of_fewer :
    (u s r : String) (n n' : ℕ) (x : UserStats)
    → n ≡ n' + one_if (s == u) + one_if (r == u)
    → (not (of_pair s r x) && miscounted u n' x) ≡ true
    → miscounted u n x ≡ true
outside_pair_of_fewer u s r n n' x e h =
    ground
      (arith, eq_iff x.user_id u, eq_iff x.user_id s, eq_iff x.user_id r, eq_iff s u, eq_iff r u)

-- A counter of the pair is as right after the increment as before.
incremented :
    (u s r : String) (n n' : ℕ) (x : UserStats)
    → s ≢ r
    → n' ≡ n + one_if (s == u) + one_if (r == u)
    → (of_pair s r x && miscounted u n' (increment x)) ≡ true
    → miscounted u n x ≡ true
unfolding ◌+ℤ◌
incremented u s r n n' x apart e h = ground (
  arith,
  apart,
  eq_iff x.user_id u,
  eq_iff x.user_id s,
  eq_iff x.user_id r,
  eq_iff s u,
  eq_iff r u,
)

decremented :
    (u s r : String) (n n' : ℕ) (x : UserStats)
    → s ≢ r
    → n ≡ n' + one_if (s == u) + one_if (r == u)
    → (of_pair s r x && miscounted u n' (decrement x)) ≡ true
    → miscounted u n x ≡ true
unfolding ◌-ℤ◌
decremented u s r n n' x apart e h = ground (
  arith,
  apart,
  eq_iff x.user_id u,
  eq_iff x.user_id s,
  eq_iff x.user_id r,
  eq_iff s u,
  eq_iff r u,
)

module _ (tables : Tables) where
  open tables use {Requests, Friendships, Stats}

  -- The number of friendships that pass a test.
  abbrev pub friendships : (Friendship → Bool) → Db tables → ℕ
  friendships q db = count q (Friendships.rows db.friendships)

  abbrev pub degree : String → Db tables → ℕ
  degree u db = friendships (belongs u) db

  abbrev pub link : String → String → Friendship
  link s r = record { user_id = s; friend_id = r }

  -- What a successful acceptance has found and done.
  pub record Accepted (id s r : String) (db after : Db tables) : Type 0 where
    pub requests_after :
        after.requests ≡ Requests.update_many (λ x. x.id == id) accept_status db.requests
    pub stats_after : after.stats ≡ Stats.update_many (of_pair s r) increment db.stats
    pub there : Friendships.T
    pub first : Friendships.create (link s r) db.friendships ≡ some there
    pub second : Friendships.create (link r s) there ≡ some after.friendships

  pub accept_request-Accepted :
      (id s r : String) (db after : Db tables)
      → accept_request tables id s r db ≡ some after
      → Accepted id s r db after
  unfolding accept_request
  accept_request-Accepted id s r db after h =
      elim (Option-cases (Friendships.create (link s r) db.friendships)) [
        | inl e ↦ absurd (ground arith)
        | inr (there, e) ↦ elim (Option-cases (Friendships.create (link r s) there)) [
          | inl e' ↦ absurd (ground arith)
          | inr (both, e') ↦ record {
            requests_after = ground arith;
            stats_after = ground arith;
            there = there;
            first = e;
            second = ground arith;
          }
        ]
      ]

  module _ (id s r : String) (db after : Db tables) (a : Accepted id s r db after) where
    pub friendships-accept :
        (q : Friendship → Bool)
        → friendships q after ≡ friendships q db + one_if (q (link s r)) + one_if (q (link r s))
    friendships-accept q =
        let (_, e) = Friendships.create_some (link s r) db.friendships a.there q a.first in
        let (_, e') = Friendships.create_some (link r s) a.there after.friendships q a.second in
        omega (arith, e, e')

    -- Neither friendship was there.
    pub accept_fresh : (friendships (edge s r) db ≡ 0) × (friendships (edge r s) db ≡ 0)
    accept_fresh =
        let (z, e) = Friendships.create_some (link s r) db.friendships a.there (edge r s) a.first in
        let (z', _) =
          Friendships.create_some (link r s) a.there after.friendships (edge r s) a.second in
        (z, omega (arith, e, z'))

    pub accept_counted :
        (u : String)
        → s ≢ r
        → count (miscounted u (degree u db)) (Stats.rows db.stats) ≡ 0
        → count (miscounted u (degree u after)) (Stats.rows after.stats) ≡ 0
    accept_counted u apart z =
        let n = degree u db in
        let n' = degree u after in
        let grown : n' ≡ n + one_if (s == u) + one_if (r == u) =
          ground (arith, friendships-accept (belongs u), belongs_lem u s r, belongs_lem u r s) in
        rw a.stats_after (
          ground (
            arith,
            Stats.count_updated (of_pair s r) (miscounted u n') increment db.stats (λ x y. refl),
            count-eq-zero_of (λ x. not (of_pair s r x) && miscounted u n' x) (miscounted u n)
                (Stats.rows db.stats) (λ x. outside_pair u s r n n' x grown) z,
            count-eq-zero_of (λ x. of_pair s r x && miscounted u n' (increment x)) (miscounted u n)
                (Stats.rows db.stats) (λ x. incremented u s r n n' x apart grown) z,
          ))

-- The friendships of `u` among the two of a pair.
pair_degree :
    (u s r : String) (rs : List Friendship)
    → s ≢ r
    → count (λ x. either_way s r x && belongs u x) rs
      ≡ (if s == u then count (edge s r) rs else if r == u then count (edge r s) rs else 0)
unfolding edge belongs
pair_degree u s r rs apart = elim (Bool-cases (s == u)) [
  | inl e ↦ rw e (
      count_congr _ _ rs λ x. ground (
        arith,
        apart,
        (eq_iff s u).0 e,
        eq_iff x.user_id u,
        eq_iff x.user_id s,
        eq_iff x.user_id r,
      ))
  | inr e ↦ elim (Bool-cases (r == u)) [
    | inl e' ↦
        rw (e, e')
          (count_congr _ _ rs λ x. ground (
            arith,
            apart,
            (eq_iff r u).0 e',
            eq_iff x.user_id u,
            eq_iff x.user_id s,
            eq_iff x.user_id r,
          ))
    | inr e' ↦
        rw (e, e')
          (count-eq-zero_of_false _ rs λ x. ground (
            arith,
            eq_iff s u,
            eq_iff r u,
            eq_iff x.user_id u,
            eq_iff x.user_id s,
            eq_iff x.user_id r,
          ))
  ]
]

module _ (tables : Tables) where
  open tables use {Friendships, Stats}

  pub friendships-remove :
      (s r : String) (db : Db tables) (q : Friendship → Bool)
      → friendships tables q (remove_friendship tables s r db)
        ≡ count (λ x. not (either_way s r x) && q x) (Friendships.rows db.friendships)
  unfolding remove_friendship
  friendships-remove s r db q = Friendships.count_deleted (either_way s r) q db.friendships

  pub degree-remove :
      (u s r : String) (db : Db tables)
      → s ≢ r
      → friendships tables (edge s r) db ≡ 1
      → friendships tables (edge r s) db ≡ 1
      → degree tables u db
        ≡ degree tables u (remove_friendship tables s r db) + one_if (s == u) + one_if (r == u)
  degree-remove u s r db apart one one' =
      let rs = Friendships.rows db.friendships in
      ground (
        arith,
        apart,
        friendships-remove s r db (belongs u),
        count_split (either_way s r) (belongs u) rs,
        pair_degree u s r rs apart,
        eq_iff s u,
        eq_iff r u,
      )

  pub remove_counted :
      (u s r : String) (db : Db tables)
      → s ≢ r
      → friendships tables (edge s r) db ≡ 1
      → friendships tables (edge r s) db ≡ 1
      → count (miscounted u (degree tables u db)) (Stats.rows db.stats) ≡ 0
      → let after = remove_friendship tables s r db in
        count (miscounted u (degree tables u after)) (Stats.rows after.stats) ≡ 0
  unfolding remove_friendship
  remove_counted u s r db apart one one' z =
      let n = degree tables u db in
      let n' = degree tables u (remove_friendship tables s r db) in
      let shrunk = degree-remove u s r db apart one one' in
      ground (
        arith,
        Stats.count_updated (of_pair s r) (miscounted u n') decrement db.stats (λ x y. refl),
        count-eq-zero_of (λ x. not (of_pair s r x) && miscounted u n' x) (miscounted u n)
            (Stats.rows db.stats) (λ x. outside_pair_of_fewer u s r n n' x shrunk) z,
        count-eq-zero_of (λ x. of_pair s r x && miscounted u n' (decrement x)) (miscounted u n)
            (Stats.rows db.stats) (λ x. decremented u s r n n' x apart shrunk) z,
      )
