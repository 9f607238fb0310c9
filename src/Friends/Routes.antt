-- ===== src/Friends/Routes.antt =====
-- The handlers of friends.routes.ts that change the database, as functions of the authenticated user.
-- A database error that a handler does not catch is Fastify's status 500.
use clutch.Prelude.{String, Bool, not, ◌||◌, Option, none, some, ℕ, ◌==◌, string_eq, if◌then◌else◌}
use clutch.Friends.Schema.{is_pending, FriendRequest, Tables}
use clutch.Friends.Repository.{
  Db, create_request, find_request_by_id, exists_request, exists_friendship, accept_request,
  remove_friendship,
}

-- The notifications that the handlers create: for whom, by whom, and about which request.
pub data Notification : Type 0 where
  friend_request friend_accepted : (user_id actor_id request_id : String) → Notification

pub record Reply : Type 0 where
  pub status : ℕ
  pub notified : Option Notification

abbrev pub reply : ℕ → Reply
reply status = record { status = status; notified = none }

module _ (tables : Tables) (user_exists : String → Bool) where
  unfoldable pub created :
      String → String → Db tables → Option (Db tables × FriendRequest) → Db tables × Reply
  created user_id target_id db none = (db, reply 500)
  created user_id target_id db (some (after, row)) =
      (after, record { status = 201; notified = some (friend_request target_id user_id row.id) })

  -- POST /friends/request/:targetId
  unfoldable pub send_request : String → String → String → Db tables → Db tables × Reply
  unfolding created
  send_request id user_id target_id db =
      if user_id == target_id
      then (db, reply 400)
      else if not (user_exists target_id)
      then (db, reply 404)
      else if exists_friendship tables user_id target_id db
          || exists_request tables user_id target_id db
      then (db, reply 409)
      else created user_id target_id db (create_request tables id user_id target_id db)

  unfoldable pub accepted_reply :
      String → String → FriendRequest → Db tables → Option (Db tables) → Db tables × Reply
  accepted_reply user_id request_id request db none = (db, reply 500)
  accepted_reply user_id request_id request db (some after) = (
    after,
    record { status = 200; notified = some (friend_accepted request.sender_id user_id request_id) },
  )

  unfoldable pub accept_found :
      String → String → Db tables → Option FriendRequest → Db tables × Reply
  unfolding accepted_reply
  accept_found user_id request_id db none = (db, reply 404)
  accept_found user_id request_id db (some request) =
      if not (request.receiver_id == user_id)
      then (db, reply 403)
      else if not (is_pending request.status)
      then (db, reply 409)
      else accepted_reply user_id request_id request db
          (accept_request tables request_id request.sender_id request.receiver_id db)

  -- POST /friends/accept/:requestId
  unfoldable pub accept : String → String → Db tables → Db tables × Reply
  unfolding accept_found
  accept user_id request_id db =
      accept_found user_id request_id db (find_request_by_id tables request_id db)

  -- DELETE /friends/:friendId
  unfoldable pub remove : String → String → Db tables → Db tables × Reply
  remove user_id friend_id db =
      if not (exists_friendship tables user_id friend_id db)
      then (db, reply 404)
      else (remove_friendship tables user_id friend_id db, reply 200)
