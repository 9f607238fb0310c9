-- ===== src/Friends/Tests.antt =====
-- Runs of the friends routes over tables held in memory, and the theorems of Friends at concrete
-- inputs.
use clutch.Prelude.{
  ◌≡◌, ◌≢◌, ◌⊎◌, refl, String, Bool, true, some, List, [], ◌∷◌, arith, eq_iff, string_eq,
}
use clutch.Prelude.Int.{pos, ◌+ℤ◌, ◌-ℤ◌}
use clutch.Database.Count.{count}
use clutch.Database.Memory.{memory, create_row, update_rows}
use clutch.Friends.Schema.{
  FriendRequest, Tables, edge, belongs, same_request, same_friendship, same_stats, pending,
}
use clutch.Friends.Repository.{
  Db, create_request, find_request_by_id, exists_request, exists_friendship, accept_request,
  remove_friendship, open_between,
}
use clutch.Friends.Routes.{
  send_request, created, accept, accept_found, accepted_reply, remove, reply,
}
use clutch.Friends.Counting.{friendships}
use clutch.Friends.Invariant.{IsSound}
use clutch.Friends.Handlers.{Call, sends, accepts, removes, handle, run, run-IsSound}
use clutch.Friends.Outcomes.{accept_ok, remove_outcome, send_created, resend_conflict}

abbrev tables : Tables
tables = record {
  Requests = memory same_request;
  Friendships = memory same_friendship;
  Stats = memory same_stats;
}

abbrev known : String → Bool
known u = true

abbrev start : Db tables
start = record {
  requests = [];
  friendships = [];
  stats =
      record { user_id = "ada"; friend_count = pos 0 }
      ∷ record { user_id = "bob"; friend_count = pos 0 }
      ∷ [];
}

routes : Unit {0}
unfolding count create_row update_rows edge belongs create_request find_request_by_id exists_request
    exists_friendship accept_request remove_friendship send_request created accept accept_found
    accepted_reply remove handle run ◌+ℤ◌ ◌-ℤ◌
routes = tt

abbrev befriend : List Call
befriend = sends "r1" "ada" "bob" ∷ accepts "bob" "r1" ∷ []

abbrev friends : Db tables
friends = run tables known befriend start

abbrev parted : Db tables
parted = (remove tables known "ada" "bob" friends).0

answers :
    ((send_request tables known "r1" "ada" "ada" start).1.status ≡ 400)
    × ((send_request tables known "r1" "ada" "bob" start).1.status ≡ 201)
    × ((send_request tables known "r2" "bob" "ada" friends).1.status ≡ 409)
    × ((accept tables known "ada" "r1" friends).1.status ≡ 403)
    × ((accept tables known "bob" "r1" friends).1.status ≡ 409)
    × ((accept tables known "bob" "r9" friends).1.status ≡ 404)
unfolding routes
answers = (refl, refl, refl, refl, refl, refl)

counters :
    (friends.stats
      ≡ record { user_id = "ada"; friend_count = pos 1 }
        ∷ record { user_id = "bob"; friend_count = pos 1 }
        ∷ [])
    × (parted.stats ≡ start.stats)
unfolding routes
counters = (refl, refl)

start-IsSound : IsSound tables start
unfolding routes
start-IsSound = record {
  symmetric = λ u v. refl;
  once = λ u v. omega arith;
  irreflexive = λ u. refl;
  counted = λ u. ground (arith, eq_iff "ada" u, eq_iff "bob" u);
  no_self_request = refl;
}

run-IsSound_example : IsSound tables (run tables known (removes "ada" "bob" ∷ befriend) start)
run-IsSound_example = run-IsSound tables known (removes "ada" "bob" ∷ befriend) start start-IsSound

abbrev requested : Db tables
requested = (send_request tables known "r1" "ada" "bob" start).0

requested-IsSound : IsSound tables requested
unfolding handle run
requested-IsSound = run-IsSound tables known (sends "r1" "ada" "bob" ∷ []) start start-IsSound

friends-IsSound : IsSound tables friends
friends-IsSound = run-IsSound tables known befriend start start-IsSound

accept_ok_example :
    (q : FriendRequest) × (find_request_by_id tables "r1" requested ≡ some q)
    × (q.receiver_id ≡ "bob")
    × (q.status ≡ pending)
    × (friendships tables (edge q.sender_id "bob") requested ≡ 0)
    × (friendships tables (edge q.sender_id "bob") (accept tables known "bob" "r1" requested).0 ≡ 1)
    × (friendships tables (edge "bob" q.sender_id) (accept tables known "bob" "r1" requested).0 ≡ 1)
unfolding routes
accept_ok_example = accept_ok tables known "bob" "r1" requested requested-IsSound refl

remove_outcome_example :
    let after = remove tables known "ada" "bob" friends in
    ((friendships tables (edge "ada" "bob") friends ≡ 1)
      × (after.1.status ≡ 200)
      × (friendships tables (edge "ada" "bob") after.0 ≡ 0)
      × (friendships tables (edge "bob" "ada") after.0 ≡ 0))
    ⊎ ((friendships tables (edge "ada" "bob") friends ≡ 0) × (after ≡ (friends, reply 404)))
remove_outcome_example = remove_outcome tables known "ada" "bob" friends friends-IsSound

send_created_example :
    let after = send_request tables known "r1" "ada" "bob" start in
    (◌≢◌ {A = String} "ada" "bob")
    × (known "bob" ≡ true)
    × (friendships tables (edge "ada" "bob") start ≡ 0)
    × (count (open_between "ada" "bob") start.requests ≡ 0)
    × (count (open_between "ada" "bob") after.0.requests ≡ 1)
unfolding routes
send_created_example = send_created tables known "r1" "ada" "bob" start refl

resend_conflict_example : send_request tables known "r2" "ada" "bob" parted ≡ (parted, reply 500)
unfolding routes
resend_conflict_example =
    resend_conflict tables known "r2" "ada" "bob" parted (ground (arith, eq_iff "ada" "bob")) refl
      refl refl (omega arith)
