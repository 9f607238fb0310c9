-- ===== src/Friends/Handlers.antt =====
-- What the handlers of the friends routes guarantee.
use clutch.Prelude.{
  ◌≡◌, ◌≢◌, ◌⊎◌, refl, String, Bool, Option, none, some, List, [], ◌∷◌, arith, eq_iff, string_eq,
  Bool-cases, inl, inr,
}
use clutch.Friends.Schema.{FriendRequest, Tables}
use clutch.Friends.Repository.{
  Db, create_request, find_request_by_id, exists_friendship, accept_request,
}
use clutch.Friends.Routes.{
  send_request, created, accept, accept_found, accepted_reply, remove, Reply,
}
use clutch.Friends.Invariant.{
  IsSound, create_request-IsSound, accept_request-IsSound, remove_friendship-IsSound,
  exists_friendship-eq-one, found_apart,
}

-- A call of one of the three routes by an authenticated user.
pub data Call : Type 0 where
  sends : (id user_id target_id : String) → Call
  accepts : (user_id request_id : String) → Call
  removes : (user_id friend_id : String) → Call

module _ (tables : Tables) (user_exists : String → Bool) where
  open tables use {Requests, Friendships, Stats}

  created-IsSound :
      (id s r : String) (db : Db tables) (o : Option (Db tables × FriendRequest))
      → create_request tables id s r db ≡ o
      → s ≢ r
      → IsSound tables db
      → IsSound tables (created tables user_exists s r db o).0
  unfolding created
  created-IsSound id s r db none e apart h = h
  created-IsSound id s r db (some (after, row)) e apart h =
      create_request-IsSound tables id s r db after row apart e h

  send_state :
      (id s r : String) (db : Db tables)
      → let after = (send_request tables user_exists id s r db).0 in
        (after ≡ db)
        ⊎ ((s ≢ r)
            × (after ≡ (created tables user_exists s r db (create_request tables id s r db)).0))
  unfolding send_request
  send_state id s r db = ground (arith, eq_iff s r)

  send_request-IsSound :
      (id s r : String) (db : Db tables)
      → IsSound tables db
      → IsSound tables (send_request tables user_exists id s r db).0
  send_request-IsSound id s r db h = elim (send_state id s r db) [
    | inl same ↦ rw same h
    | inr (apart, e) ↦
        rw e (created-IsSound id s r db (create_request tables id s r db) refl apart h)
  ]

  accepted_reply-IsSound :
      (u id : String) (q : FriendRequest) (db : Db tables) (o : Option (Db tables))
      → accept_request tables id q.sender_id q.receiver_id db ≡ o
      → q.sender_id ≢ q.receiver_id
      → IsSound tables db
      → IsSound tables (accepted_reply tables user_exists u id q db o).0
  unfolding accepted_reply
  accepted_reply-IsSound u id q db none e apart h = h
  accepted_reply-IsSound u id q db (some after) e apart h =
      accept_request-IsSound tables id q.sender_id q.receiver_id db after apart e h

  accept_found_state :
      (u id : String) (q : FriendRequest) (db : Db tables)
      → let after = (accept_found tables user_exists u id db (some q)).0 in
        (after ≡ db)
        ⊎ (after
            ≡ (accepted_reply tables user_exists u id q db
                (accept_request tables id q.sender_id q.receiver_id db)).0)
  unfolding accept_found
  accept_found_state u id q db = ground arith

  accept_found-IsSound :
      (u id : String) (db : Db tables) (o : Option FriendRequest)
      → find_request_by_id tables id db ≡ o
      → IsSound tables db
      → IsSound tables (accept_found tables user_exists u id db o).0
  accept_found-IsSound u id db none e h = unfold accept_found in h
  accept_found-IsSound u id db (some q) e h = elim (accept_found_state u id q db) [
    | inl same ↦ rw same h
    | inr e' ↦ rw e' (
        accepted_reply-IsSound u id q db (accept_request tables id q.sender_id q.receiver_id db)
          refl (found_apart tables id db q e h) h)
  ]

  remove-IsSound :
      (u f : String) (db : Db tables)
      → IsSound tables db
      → IsSound tables (remove tables user_exists u f db).0
  unfolding remove
  remove-IsSound u f db h = elim (Bool-cases (exists_friendship tables u f db)) [
    | inl e ↦
        rw e
          (remove_friendship-IsSound tables u f db (exists_friendship-eq-one tables u f db e h) h)
    | inr e ↦ rw e h
  ]

  unfoldable pub handle : Call → Db tables → Db tables × Reply
  handle (sends id user_id target_id) db = send_request tables user_exists id user_id target_id db
  handle (accepts user_id request_id) db = accept tables user_exists user_id request_id db
  handle (removes user_id friend_id) db = remove tables user_exists user_id friend_id db

  unfoldable pub run : List Call → Db tables → Db tables
  run [] db = db
  run (c ∷ cs) db = run cs (handle c db).0

  handle-IsSound : (c : Call) (db : Db tables) → IsSound tables db → IsSound tables (handle c db).0
  unfolding handle accept
  handle-IsSound (sends id u t) db h = send_request-IsSound id u t db h
  handle-IsSound (accepts u id) db h =
      accept_found-IsSound u id db (find_request_by_id tables id db) refl h
  handle-IsSound (removes u f) db h = remove-IsSound u f db h

  -- Whatever calls of the routes are served, one after another, and whatever they answer: friendship
  -- stays symmetric and irreflexive, no friendship is stored twice, each counter of friends stays the
  -- number of the user's friendships, and nobody has sent a request to themselves.
  pub run-IsSound :
      (cs : List Call) (db : Db tables) → IsSound tables db → IsSound tables (run cs db)
  unfolding run
  run-IsSound [] db h = h
  run-IsSound (c ∷ cs) db h = run-IsSound cs (handle c db).0 (handle-IsSound c db h)
