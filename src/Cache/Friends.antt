-- ===== src/Cache/Friends.antt =====
-- `applyAcceptedFriendRequest` and `applyRemovedFriend`, on the ids and names of the cached friends.
use clutch.Prelude.{
  String, Bool, not, Option, none, some, List, [], ◌∷◌, ◌++◌, any, keep, ◌==◌, string_eq,
  if◌then◌else◌,
}
use clutch.Cache.Queries.{QueryKey, set_queries_data}

pub record FriendSummary : Type 0 where
  pub id : String
  pub username : String

pub record PendingFriendRequest : Type 0 where
  pub id : String
  pub sender : FriendSummary

pub record SocialCache : Type 0 where
  pub friend_requests : List (QueryKey × Option (List PendingFriendRequest))
  pub friends : List (QueryKey × Option (List FriendSummary))

abbrev pub has_friend : String → List FriendSummary → Bool
has_friend id fs = any (λ f. f.id == id) fs

unfoldable pub add_friend : FriendSummary → List FriendSummary → List FriendSummary
add_friend f fs = if has_friend f.id fs then fs else fs ++ f ∷ []

unfoldable pub remove_friend : String → List FriendSummary → List FriendSummary
remove_friend id fs = keep (λ f. not (f.id == id)) fs

unfoldable pub add_to : String → FriendSummary → SocialCache → SocialCache
add_to user_id f cache = record cache {
  friends = set_queries_data ("friends" ∷ user_id ∷ []) (λ key fs. add_friend f fs) cache.friends;
}

unfoldable pub remove_from : String → String → SocialCache → SocialCache
remove_from user_id id cache = record cache {
  friends =
      set_queries_data ("friends" ∷ user_id ∷ []) (λ key fs. remove_friend id fs) cache.friends;
}

unfoldable pub drop_request : String → String → SocialCache → SocialCache
drop_request user_id id cache = record cache {
  friend_requests =
      set_queries_data ("friend-requests" ∷ user_id ∷ [])
        (λ key rs. keep (λ r. not (r.id == id)) rs) cache.friend_requests;
}

unfoldable pub add_receiver :
    PendingFriendRequest → Option FriendSummary → SocialCache → SocialCache
add_receiver request none cache = cache
add_receiver request (some receiver) cache = add_to request.sender.id receiver cache

unfoldable pub apply_accepted_friend_request :
    String → PendingFriendRequest → Option FriendSummary → SocialCache → SocialCache
apply_accepted_friend_request receiver_id request receiver cache =
    add_receiver request receiver
      (add_to receiver_id request.sender (drop_request receiver_id request.id cache))

unfoldable pub apply_removed_friend : String → String → SocialCache → SocialCache
apply_removed_friend current target cache =
    remove_from target current (remove_from current target cache)
