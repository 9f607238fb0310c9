-- ===== src/Cache/Notifications.antt =====
-- `applyNotificationRead` and `applyAllNotificationsRead`.
use clutch.Prelude.{
  ℕ, ◌-◌, String, Bool, true, false, not, Option, none, some, List, [], ◌∷◌, map, find, keep, ◌==◌,
  nat_eq, string_eq, if◌then◌else◌,
}
use clutch.Cache.Queries.{QueryKey, set_queries_data}

pub record Notification : Type 0 where
  pub id : String
  pub is_read : Bool

pub record NotificationsResponse : Type 0 where
  pub notifications : List Notification
  pub unread_count : ℕ

abbrev pub Notifications : Type 0
Notifications = List (QueryKey × Option NotificationsResponse)

-- `queryKey[2] === 'unread'`
unfoldable pub is_unread_scope : QueryKey → Bool
is_unread_scope (_ ∷ _ ∷ scope ∷ _) = scope == "unread"
is_unread_scope _ = false

abbrev pub mark_read : Notification → Notification
mark_read n = record n { is_read = true }

abbrev pub mark_if : String → Notification → Notification
mark_if id n = if n.id == id then mark_read n else n

unfoldable pub without_target : Bool → String → List Notification → List Notification
without_target unread_scope id ns =
    if unread_scope then keep (λ n. not (n.id == id)) ns else map (mark_if id) ns

unfoldable pub read_target :
    Bool → String → NotificationsResponse → Option Notification → NotificationsResponse
unfolding without_target
read_target unread_scope id response none = response
read_target unread_scope id response (some target) = if target.is_read then response else record {
  notifications = without_target unread_scope id response.notifications;
  unread_count = response.unread_count - 1;
}

unfoldable pub notification_read : Bool → String → NotificationsResponse → NotificationsResponse
unfolding read_target
notification_read unread_scope id response =
    read_target unread_scope id response (find (λ n. n.id == id) response.notifications)

unfoldable pub all_read : Bool → NotificationsResponse → NotificationsResponse
all_read unread_scope response = if response.unread_count == 0 then response else record {
  notifications = if unread_scope then [] else map mark_read response.notifications;
  unread_count = 0;
}

unfoldable pub apply_notification_read : String → String → Notifications → Notifications
apply_notification_read user_id id cache =
    set_queries_data ("notifications" ∷ user_id ∷ [])
      (λ key response. notification_read (is_unread_scope key) id response) cache

unfoldable pub apply_all_notifications_read : String → Notifications → Notifications
apply_all_notifications_read user_id cache =
    set_queries_data ("notifications" ∷ user_id ∷ [])
      (λ key response. all_read (is_unread_scope key) response) cache
