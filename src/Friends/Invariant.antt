-- ===== src/Friends/Invariant.antt =====
-- The invariant of the friends tables, and that every handler keeps it.
use clutch.Prelude.{
  ◌≤◌, ◌≡◌, ◌≢◌, refl, ◌∙◌, String, Bool, true, not, ◌&&◌, ◌||◌, some, List, arith, eq_iff, eq_refl,
  ◌==◌, string_eq, if◌then◌else◌, Option-cases, Bool-cases, inl, inr,
}
use clutch.Database.Count.{count, count_split, count_congr, count-eq-zero_of_false}
use clutch.Friends.Schema.{FriendRequest, Friendship, edge, edge_lem, Tables, pending}
use clutch.Friends.Repository.{
  Db, either_way, accept_status, create_request, find_request_by_id, exists_friendship,
  accept_request, remove_friendship,
}
use clutch.Friends.Counting.{
  miscounted, friendships, degree, accept_request-Accepted, friendships-accept, accept_fresh,
  accept_counted, friendships-remove, remove_counted,
}

abbrev self_request : FriendRequest → Bool
self_request r = r.sender_id == r.receiver_id

abbrev pub new_request : String → String → String → FriendRequest
new_request id s r = record { id = id; sender_id = s; receiver_id = r; status = pending }

-- The friendships of one pair among those that a removal keeps.
kept_edges :
    (s r u v : String) (rs : List Friendship)
    → count (λ x. not (either_way s r x) && edge u v x) rs
      ≡ (if (u == s && v == r) || (u == r && v == s) then 0 else count (edge u v) rs)
unfolding edge
kept_edges s r u v rs = elim (Bool-cases ((u == s && v == r) || (u == r && v == s))) [
  | inl gone ↦ rw gone (
      count-eq-zero_of_false _ rs λ x. ground (
        arith,
        eq_iff u s,
        eq_iff v r,
        eq_iff u r,
        eq_iff v s,
        eq_iff x.user_id u,
        eq_iff x.friend_id v,
        eq_refl x.user_id,
        eq_refl x.friend_id,
      ))
  | inr left ↦
      rw left (count_congr _ _ rs λ x. ground (arith, eq_iff x.user_id u, eq_iff x.friend_id v))
]

module _ (tables : Tables) where
  open tables use {Requests, Friendships, Stats}

  -- Friendship is symmetric and irreflexive, no friendship is stored twice, each counter of friends is
  -- the number of the user's friendships, and nobody has sent a request to themselves.
  pub record IsSound (db : Db tables) : Type 0 where
    pub symmetric :
        (u v : String) → friendships tables (edge u v) db ≡ friendships tables (edge v u) db
    pub once : (u v : String) → friendships tables (edge u v) db ≤ 1
    pub irreflexive : (u : String) → friendships tables (edge u u) db ≡ 0
    pub counted : (u : String) → count (miscounted u (degree tables u db)) (Stats.rows db.stats) ≡ 0
    pub no_self_request : count self_request (Requests.rows db.requests) ≡ 0

  accepted_requests :
      (id : String) (t : Requests.T)
      → count self_request (Requests.rows (Requests.update_many (λ x. x.id == id) accept_status t))
        ≡ count self_request (Requests.rows t)
  accepted_requests id t = omega (
    arith,
    Requests.count_updated (λ x. x.id == id) self_request accept_status t (λ x y. refl),
    count_split (λ x. x.id == id) self_request (Requests.rows t),
  )

  pub accept_request-IsSound :
      (id s r : String) (db after : Db tables)
      → s ≢ r
      → accept_request tables id s r db ≡ some after
      → IsSound db
      → IsSound after
  accept_request-IsSound id s r db after apart e h =
      let a = accept_request-Accepted tables id s r db after e in
      let grow = friendships-accept tables id s r db after a in
      let (fresh, fresh') = accept_fresh tables id s r db after a in
      record {
        symmetric = λ u v. ground (
          arith,
          h.symmetric u v,
          grow (edge u v),
          grow (edge v u),
          edge_lem u v s r,
          edge_lem u v r s,
          edge_lem v u s r,
          edge_lem v u r s,
        );
        once = λ u v. ground (
          arith,
          apart,
          h.once u v,
          grow (edge u v),
          edge_lem u v s r,
          edge_lem u v r s,
          eq_iff s u,
          eq_iff r v,
          eq_iff r u,
          eq_iff s v,
        );
        irreflexive = λ u. ground (
          arith,
          apart,
          h.irreflexive u,
          grow (edge u u),
          edge_lem u u s r,
          edge_lem u u r s,
          eq_iff s u,
          eq_iff r u,
        );
        counted = λ u. accept_counted tables id s r db after a u apart (h.counted u);
        no_self_request =
            rw a.requests_after (accepted_requests id db.requests ∙ h.no_self_request);
      }

  pub removed_edge :
      (s r u v : String) (db : Db tables)
      → friendships tables (edge u v) (remove_friendship tables s r db)
        ≡ (if (u == s && v == r) || (u == r && v == s) then 0 else friendships tables (edge u v) db)
  removed_edge s r u v db =
      friendships-remove tables s r db (edge u v)
      ∙ kept_edges s r u v (Friendships.rows db.friendships)

  pub remove_friendship-IsSound :
      (s r : String) (db : Db tables)
      → friendships tables (edge s r) db ≡ 1
      → IsSound db
      → IsSound (remove_friendship tables s r db)
  remove_friendship-IsSound s r db one h =
      let apart : s ≢ r = λ e. ground (arith, e, h.irreflexive s) in
      let one' = h.symmetric r s ∙ one in
      record {
        symmetric = λ u v.
            ground (arith, h.symmetric u v, removed_edge s r u v db, removed_edge s r v u db);
        once = λ u v. ground (arith, h.once u v, removed_edge s r u v db);
        irreflexive = λ u. ground (arith, h.irreflexive u, removed_edge s r u u db);
        counted = λ u. remove_counted tables u s r db apart one one' (h.counted u);
        no_self_request = unfold remove_friendship in h.no_self_request;
      }

  pub create_request-IsSound :
      (id s r : String) (db after : Db tables) (row : FriendRequest)
      → s ≢ r
      → create_request tables id s r db ≡ some (after, row)
      → IsSound db
      → IsSound after
  unfolding create_request
  create_request-IsSound id s r db after row apart e h =
      elim (Option-cases (Requests.create (new_request id s r) db.requests)) [
        | inl refused ↦ absurd (ground arith)
        | inr (requests, made) ↦
            let (_, grown) =
              Requests.create_some (new_request id s r) db.requests requests self_request made in
            let same : record db { requests = requests } ≡ after = ground arith in
            rw (← same) (record {
              symmetric = h.symmetric;
              once = h.once;
              irreflexive = h.irreflexive;
              counted = h.counted;
              no_self_request = ground (arith, grown, h.no_self_request, eq_iff s r);
            })
      ]

  pub exists_friendship-eq-one :
      (s r : String) (db : Db tables)
      → exists_friendship tables s r db ≡ true
      → IsSound db
      → friendships tables (edge s r) db ≡ 1
  unfolding exists_friendship
  exists_friendship-eq-one s r db e h =
      elim (Option-cases (Friendships.find_first (edge s r) db.friendships)) [
        | inl missing ↦ absurd (ground arith)
        | inr (row, found) ↦
            let (p, _) =
              Friendships.find_first_some (edge s r) (λ x. true) db.friendships row found refl in
            let (_, there) =
              Friendships.find_first_some (edge s r) (edge s r) db.friendships row found p in
            omega (arith, there, h.once s r)
      ]

  -- A request that is found was sent to somebody else.
  pub found_apart :
      (id : String) (db : Db tables) (r : FriendRequest)
      → find_request_by_id tables id db ≡ some r
      → IsSound db
      → r.sender_id ≢ r.receiver_id
  unfolding find_request_by_id
  found_apart id db r found h e =
      let (_, there) =
        Requests.find_first_some (λ x. x.id == id) self_request db.requests r found
          ((eq_iff r.sender_id r.receiver_id).1 e) in
      omega (arith, there, h.no_self_request)
