-- ===== src/Friends/Outcomes.antt =====
-- The answers of the friends routes, and what each answer says of the tables.
use clutch.Prelude.{
  ◌+◌, ◌<◌, ◌≡◌, ◌≢◌, ◌⊎◌, refl, String, Bool, true, false, ◌&&◌, Option, none, some, arith, eq_iff,
  eq_refl, ◌==◌, string_eq, Option-cases, Bool-cases, inl, inr,
}
use clutch.Database.Count.{count, count_mono}
use clutch.Friends.Schema.{
  FriendRequest, edge, edge_lem, Tables, same_request, RequestStatus, pending, accepted, rejected,
  is_pending,
}
use clutch.Friends.Repository.{
  Db, create_request, find_request_by_id, exists_request, exists_friendship, accept_request,
  open_between,
}
use clutch.Friends.Routes.{
  send_request, created, accept, accept_found, remove, reply, friend_accepted,
}
use clutch.Friends.Counting.{friendships, accept_request-Accepted, friendships-accept, accept_fresh}
use clutch.Friends.Invariant.{
  IsSound, removed_edge, new_request, exists_friendship-eq-one, found_apart,
}

is_pending-eq : (x : RequestStatus) → is_pending x ≡ true → x ≡ pending
is_pending-eq pending h = refl
is_pending-eq accepted h = cc
is_pending-eq rejected h = cc

module _ (tables : Tables) (user_exists : String → Bool) where
  open tables use {Requests, Friendships, Stats}

  -- What a confirmed acceptance was about.
  pub record Confirmed (user_id request_id : String) (db : Db tables) : Type 0 where
    pub request : FriendRequest
    pub found : find_request_by_id tables request_id db ≡ some request
    pub addressed : request.receiver_id ≡ user_id
    pub was_pending : request.status ≡ pending
    pub after : Db tables
    pub committed :
        accept_request tables request_id request.sender_id request.receiver_id db ≡ some after
    pub answer : accept tables user_exists user_id request_id db ≡ (
      after,
      record {
        status = 200;
        notified = some (friend_accepted request.sender_id user_id request_id);
      },
    )

  accept-Confirmed :
      (u id : String) (db : Db tables) (o : Option FriendRequest)
      → find_request_by_id tables id db ≡ o
      → (accept_found tables user_exists u id db o).1.status ≡ 200
      → Confirmed u id db
  unfolding accept_found
  accept-Confirmed u id db none e h = absurd (omega arith)
  accept-Confirmed u id db (some q) e h =
      elim (Option-cases (accept_request tables id q.sender_id q.receiver_id db)) [
        | inl refused ↦ absurd (ground arith)
        | inr (after, committed) ↦
            let addressed : q.receiver_id ≡ u = ground (arith, eq_iff q.receiver_id u) in
            let open_status : is_pending q.status ≡ true = ground arith in
            record {
              request = q;
              found = e;
              addressed = addressed;
              was_pending = is_pending-eq q.status open_status;
              after = after;
              committed = committed;
              answer = unfold accept in rw e (ground (arith, eq_iff q.receiver_id u));
            }
      ]

  -- An acceptance is answered with 200 only if the request exists, is addressed to the caller and is
  -- pending; then the two users were not friends before, and are friends after, in both directions and
  -- once.
  pub accept_ok :
      (u id : String) (db : Db tables)
      → IsSound tables db
      → (accept tables user_exists u id db).1.status ≡ 200
      → (q : FriendRequest) × (find_request_by_id tables id db ≡ some q)
        × (q.receiver_id ≡ u)
        × (q.status ≡ pending)
        × (friendships tables (edge q.sender_id u) db ≡ 0)
        × (friendships tables (edge q.sender_id u) (accept tables user_exists u id db).0 ≡ 1)
        × (friendships tables (edge u q.sender_id) (accept tables user_exists u id db).0 ≡ 1)
  accept_ok u id db sound h =
      let c =
        accept-Confirmed u id db (find_request_by_id tables id db) refl (unfold accept in h) in
      let q = c.request in
      let apart = found_apart tables id db q c.found sound in
      let a = accept_request-Accepted tables id q.sender_id q.receiver_id db c.after c.committed in
      let (z, z') = accept_fresh tables id q.sender_id q.receiver_id db c.after a in
      let grown = friendships-accept tables id q.sender_id q.receiver_id db c.after a in
      let e = c.addressed in
      (
        q,
        c.found,
        e,
        c.was_pending,
        ground (arith, z, e),
        rw (c.answer, ← e)
            (ground (
              arith,
              grown (edge q.sender_id q.receiver_id),
              z,
              apart,
              edge_lem q.sender_id q.receiver_id q.sender_id q.receiver_id,
              edge_lem q.sender_id q.receiver_id q.receiver_id q.sender_id,
              eq_iff q.sender_id q.receiver_id,
              eq_iff q.receiver_id q.sender_id,
              eq_refl q.sender_id,
              eq_refl q.receiver_id,
            )),
        rw (c.answer, ← e)
            (ground (
              arith,
              grown (edge q.receiver_id q.sender_id),
              z',
              apart,
              edge_lem q.receiver_id q.sender_id q.sender_id q.receiver_id,
              edge_lem q.receiver_id q.sender_id q.receiver_id q.sender_id,
              eq_iff q.sender_id q.receiver_id,
              eq_iff q.receiver_id q.sender_id,
              eq_refl q.sender_id,
              eq_refl q.receiver_id,
            )),
      )

  not_friends :
      (u f : String) (db : Db tables)
      → exists_friendship tables u f db ≡ false
      → friendships tables (edge u f) db ≡ 0
  unfolding exists_friendship
  not_friends u f db h = elim (Option-cases (Friendships.find_first (edge u f) db.friendships)) [
    | inl missing ↦ Friendships.find_first_none (edge u f) db.friendships missing
    | inr (row, found) ↦ absurd (ground arith)
  ]

  none_pending :
      (u f : String) (db : Db tables)
      → exists_request tables u f db ≡ false
      → count (open_between u f) (Requests.rows db.requests) ≡ 0
  unfolding exists_request
  none_pending u f db h = elim (Option-cases (Requests.find_first (open_between u f) db.requests)) [
    | inl missing ↦ Requests.find_first_none (open_between u f) db.requests missing
    | inr (row, found) ↦ absurd (ground arith)
  ]

  created_one :
      (id u t : String) (db : Db tables) (o : Option (Db tables × FriendRequest))
      → create_request tables id u t db ≡ o
      → (created tables user_exists u t db o).1.status ≡ 201
      → count (open_between u t) (Requests.rows (created tables user_exists u t db o).0.requests)
        ≡ count (open_between u t) (Requests.rows db.requests) + 1
  unfolding created create_request
  created_one id u t db none e h = absurd (omega arith)
  created_one id u t db (some (after, row)) e h =
      elim (Option-cases (Requests.create (new_request id u t) db.requests)) [
        | inl refused ↦ absurd (ground arith)
        | inr (requests, made) ↦
            let (_, grown) =
              Requests.create_some (new_request id u t) db.requests requests (open_between u t)
                made in
            let same : record db { requests = requests } ≡ after = ground arith in
            rw (← same) (ground (arith, grown, eq_refl u, eq_refl t))
      ]

  -- Removing a friend is answered with 200, and leaves no friendship between the two users in either
  -- direction, when they were friends; otherwise it is answered with 404 and changes nothing.
  pub remove_outcome :
      (u f : String) (db : Db tables)
      → IsSound tables db
      → let after = remove tables user_exists u f db in
        ((friendships tables (edge u f) db ≡ 1)
          × (after.1.status ≡ 200)
          × (friendships tables (edge u f) after.0 ≡ 0)
          × (friendships tables (edge f u) after.0 ≡ 0))
        ⊎ ((friendships tables (edge u f) db ≡ 0) × (after ≡ (db, reply 404)))
  unfolding remove
  remove_outcome u f db sound = elim (Bool-cases (exists_friendship tables u f db)) [
    | inl there ↦ inl (
      exists_friendship-eq-one tables u f db there sound,
      ground arith,
      rw there (ground (arith, removed_edge tables u f u f db, eq_refl u, eq_refl f)),
      rw there (ground (arith, removed_edge tables u f f u db, eq_refl u, eq_refl f)),
    )
    | inr e ↦ inr (not_friends u f db e, rw e refl)
  ]

  -- A request is created, and answered with 201, only if the target is another existing user, the two
  -- are not friends, and no request between them is pending; after it exactly one is.
  pub send_created :
      (id u t : String) (db : Db tables)
      → let after = send_request tables user_exists id u t db in
        after.1.status ≡ 201
        → (u ≢ t)
          × (user_exists t ≡ true)
          × (friendships tables (edge u t) db ≡ 0)
          × (count (open_between u t) (Requests.rows db.requests) ≡ 0)
          × (count (open_between u t) (Requests.rows after.0.requests) ≡ 1)
  unfolding send_request
  send_created id u t db h =
      let apart : u ≢ t = λ e. ground (arith, eq_iff u t) in
      let known : user_exists t ≡ true = ground arith in
      let strangers : exists_friendship tables u t db ≡ false = ground arith in
      let none_open : exists_request tables u t db ≡ false = ground arith in
      let made = create_request tables id u t db in
      let reached : send_request tables user_exists id u t db
          ≡ created tables user_exists u t db made =
        ground (arith, eq_iff u t) in
      let grown = created_one id u t db made refl (rw (← reached) h) in
      (
        apart,
        known,
        not_friends u t db strangers,
        none_pending u t db none_open,
        rw reached (omega (arith, grown, none_pending u t db none_open)),
      )

  -- A sender who has a closed request to the target in the table (one that was accepted before the
  -- friendship was removed, for instance) cannot send another: every check of the handler passes, and
  -- the uniqueness of the pair of users makes the insertion fail with status 500.
  pub resend_conflict :
      (id u t : String) (db : Db tables)
      → u ≢ t
      → user_exists t ≡ true
      → exists_friendship tables u t db ≡ false
      → exists_request tables u t db ≡ false
      → 0 < count (λ x. x.sender_id == u && x.receiver_id == t) (Requests.rows db.requests)
      → send_request tables user_exists id u t db ≡ (db, reply 500)
  unfolding send_request create_request created
  resend_conflict id u t db apart known strangers none_open left =
      elim (Option-cases (Requests.create (new_request id u t) db.requests)) [
        | inl refused ↦ ground (arith, eq_iff u t)
        | inr (after, made) ↦
            let (free, _) =
              Requests.create_some (new_request id u t) db.requests after (λ x. true) made in
            absurd (
              omega (
                arith,
                free,
                count_mono (λ x. x.sender_id == u && x.receiver_id == t)
                    (same_request (new_request id u t)) (Requests.rows db.requests)
                    λ x p.
                      ground
                        (arith, eq_iff x.sender_id u, eq_iff x.receiver_id t, eq_refl u, eq_refl t),
              ))
      ]
