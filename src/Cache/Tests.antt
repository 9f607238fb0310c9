-- ===== src/Cache/Tests.antt =====
-- The updates of the cache at concrete inputs.
use clutch.Prelude.{◌+◌, ◌≤◌, ◌≡◌, refl, String, true, false, none, some, [], ◌∷◌, arith, string_eq}
use clutch.Database.Count.{count}
use clutch.Cache.Queries.{set_queries_data}
use clutch.Cache.Notifications.{
  Notification, NotificationsResponse, Notifications, without_target, read_target,
  notification_read, all_read, is_unread_scope, apply_notification_read,
  apply_all_notifications_read,
}
use clutch.Cache.Friends.{
  FriendSummary, PendingFriendRequest, SocialCache, add_friend, remove_friend, add_to, remove_from,
  drop_request, add_receiver, apply_accepted_friend_request, apply_removed_friend,
}
use clutch.Cache.Laws.{shown_unread, unread_count-notification_read}

updates : Unit {0}
unfolding count set_queries_data without_target read_target notification_read all_read
    is_unread_scope apply_notification_read apply_all_notifications_read add_friend remove_friend
    add_to remove_from drop_request add_receiver apply_accepted_friend_request apply_removed_friend
updates = tt

abbrev unread : String → Notification
unread id = record { id = id; is_read = false }

abbrev page : NotificationsResponse
page = record { notifications = unread "n1" ∷ unread "n2" ∷ []; unread_count = 5 }

abbrev cached : Notifications
cached =
    ("notifications" ∷ "u1" ∷ [], some page)
    ∷ ("notifications" ∷ "u1" ∷ "unread" ∷ [], some page)
    ∷ ("notifications" ∷ "u2" ∷ [], some page)
    ∷ []

read_one :
    apply_notification_read "u1" "n1" cached
    ≡ (
      "notifications" ∷ "u1" ∷ [],
      some (record {
        notifications = record { id = "n1"; is_read = true } ∷ unread "n2" ∷ [];
        unread_count = 4;
      }),
    )
      ∷ (
        "notifications" ∷ "u1" ∷ "unread" ∷ [],
        some (record { notifications = unread "n2" ∷ []; unread_count = 4 }),
      )
      ∷ ("notifications" ∷ "u2" ∷ [], some page)
      ∷ []
unfolding updates
read_one = refl

abbrev ada : FriendSummary
ada = record { id = "ada"; username = "Ada" }

abbrev asked : PendingFriendRequest
asked = record { id = "r1"; sender = ada }

abbrev social : SocialCache
social = record {
  friend_requests = ("friend-requests" ∷ "bob" ∷ [], some (asked ∷ [])) ∷ [];
  friends = ("friends" ∷ "bob" ∷ [], some []) ∷ ("friends" ∷ "ada" ∷ [], none) ∷ [];
}

accepted_and_removed :
    let after = apply_accepted_friend_request "bob" asked none social in
    (after.friend_requests ≡ ("friend-requests" ∷ "bob" ∷ [], some []) ∷ [])
    × (after.friends
        ≡ ("friends" ∷ "bob" ∷ [], some (ada ∷ [])) ∷ ("friends" ∷ "ada" ∷ [], none) ∷ [])
    × ((apply_removed_friend "bob" "ada" after).friends ≡ social.friends)
unfolding updates
accepted_and_removed = (refl, refl, refl)

unread_count-notification_read_example :
    let after = notification_read true "n1" page in
    (shown_unread after ≤ after.unread_count) × (5 + shown_unread after ≡ after.unread_count + 2)
unfolding count
unread_count-notification_read_example =
    unread_count-notification_read true "n1" page (omega arith) (omega arith)
