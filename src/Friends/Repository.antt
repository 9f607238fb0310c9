-- ===== src/Friends/Repository.antt =====
-- friend.repository.ts: the queries and the two transactions that the routes call.
use clutch.Prelude.{◌>>=◌, String, Bool, ◌&&◌, ◌||◌, Option, some, ◌==◌, string_eq, is_some}
use clutch.Prelude.Int.{pos, ◌+ℤ◌, ◌-ℤ◌}
use clutch.Friends.Schema.{
  pending, accepted, is_pending, FriendRequest, Friendship, UserStats, edge, Tables,
}

-- The tests of the queries' `where`.
abbrev pub either_way : String → String → Friendship → Bool
either_way user_id friend_id r = edge user_id friend_id r || edge friend_id user_id r

abbrev pub open_between : String → String → FriendRequest → Bool
open_between a b r =
    ((r.sender_id == a && r.receiver_id == b) || (r.sender_id == b && r.receiver_id == a))
    && is_pending r.status

abbrev pub of_pair : String → String → UserStats → Bool
of_pair a b r = r.user_id == a || r.user_id == b

abbrev pub accept_status : FriendRequest → FriendRequest
accept_status r = record r { status = accepted }

abbrev pub increment : UserStats → UserStats
increment r = record r { friend_count = r.friend_count +ℤ pos 1 }

abbrev pub decrement : UserStats → UserStats
decrement r = record r { friend_count = r.friend_count -ℤ pos 1 }

module _ (tables : Tables) where
  -- The contents of the three tables.
  pub record Db : Type 0 where
    pub requests : tables.Requests.T
    pub friendships : tables.Friendships.T
    pub stats : tables.Stats.T

module _ (tables : Tables) where
  open tables use {Requests, Friendships, Stats}

  -- The row id is drawn by the database; `none` is the error of a uniqueness constraint.
  unfoldable pub create_request :
      String → String → String → Db tables → Option (Db tables × FriendRequest)
  create_request id sender_id receiver_id db = do
    let row : FriendRequest = record {
      id = id;
      sender_id = sender_id;
      receiver_id = receiver_id;
      status = pending;
    }
    requests ← Requests.create row db.requests
    some (record db { requests = requests }, row)

  unfoldable pub find_request_by_id : String → Db tables → Option FriendRequest
  find_request_by_id id db = Requests.find_first (λ r. r.id == id) db.requests

  unfoldable pub exists_request : String → String → Db tables → Bool
  exists_request a b db = is_some (Requests.find_first (open_between a b) db.requests)

  unfoldable pub exists_friendship : String → String → Db tables → Bool
  exists_friendship user_id friend_id db =
      is_some (Friendships.find_first (edge user_id friend_id) db.friendships)

  -- A transaction: `none` leaves the tables as they were.
  unfoldable pub accept_request : String → String → String → Db tables → Option (Db tables)
  accept_request request_id sender_id receiver_id db = do
    one ←
        Friendships.create (record { user_id = sender_id; friend_id = receiver_id }) db.friendships
    both ← Friendships.create (record { user_id = receiver_id; friend_id = sender_id }) one
    some (record {
      requests = Requests.update_many (λ r. r.id == request_id) accept_status db.requests;
      friendships = both;
      stats = Stats.update_many (of_pair sender_id receiver_id) increment db.stats;
    })

  unfoldable pub remove_friendship : String → String → Db tables → Db tables
  remove_friendship user_id friend_id db = record db {
    friendships = Friendships.delete_many (either_way user_id friend_id) db.friendships;
    stats = Stats.update_many (of_pair user_id friend_id) decrement db.stats;
  }
