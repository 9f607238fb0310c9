-- ===== src/Friends/Schema.antt =====
-- The tables friend_requests, friendships and user_stats of backend/prisma/schema.prisma (the columns
-- that the friends routes use), with their uniqueness constraints.
use clutch.Prelude.{String, Bool, true, false, ◌≡◌, refl, ◌&&◌, ◌||◌, ◌==◌, string_eq}
use clutch.Prelude.Int.{ℤ}
use clutch.Database.Table.{Table}

pub data RequestStatus : Type 0 where
  pending accepted rejected : RequestStatus

abbrev pub is_pending : RequestStatus → Bool
is_pending pending = true
is_pending _ = false

pub record FriendRequest : Type 0 where
  pub id : String
  pub sender_id : String
  pub receiver_id : String
  pub status : RequestStatus

pub record Friendship : Type 0 where
  pub user_id : String
  pub friend_id : String

pub record UserStats : Type 0 where
  pub user_id : String
  pub friend_count : ℤ

abbrev pub same_request : FriendRequest → FriendRequest → Bool
same_request a b = a.id == b.id || (a.sender_id == b.sender_id && a.receiver_id == b.receiver_id)

-- The row is the friendship of the two users, in this direction.
unfoldable pub edge : String → String → Friendship → Bool
edge user_id friend_id r = r.user_id == user_id && r.friend_id == friend_id

pub edge_lem :
    (u v s r : String) → edge u v (record { user_id = s; friend_id = r }) ≡ (s == u && r == v)
unfolding edge
edge_lem u v s r = refl

-- The row is a friendship of the user's.
unfoldable pub belongs : String → Friendship → Bool
belongs user_id r = r.user_id == user_id

pub belongs_lem : (u s r : String) → belongs u (record { user_id = s; friend_id = r }) ≡ (s == u)
unfolding belongs
belongs_lem u s r = refl

abbrev pub same_friendship : Friendship → Friendship → Bool
same_friendship a = edge a.user_id a.friend_id

abbrev pub same_stats : UserStats → UserStats → Bool
same_stats a b = a.user_id == b.user_id

-- The three tables as the code reaches them, and the look-up of a user by id.
pub record Tables : Type 1 where
  pub Requests : Table same_request
  pub Friendships : Table same_friendship
  pub Stats : Table same_stats
