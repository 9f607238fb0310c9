-- ===== src/Cache/Laws.antt =====
-- What the updates keep.
use clutch.Prelude.{
  ℕ, ◌+◌, ◌≤◌, ◌≡◌, refl, ap, String, Bool, true, false, not, ◌&&◌, Option, none, some, List, [],
  ◌∷◌, ◌++◌, map, find, keep, ◌==◌, nat_eq, string_eq, arith, eq_refl, Bool-cases, inl, inr,
}
use clutch.Database.Count.{count, count_mono, count_split, count-append, any-eq-true_iff}
use clutch.Cache.Queries.{QueryKey, begins_with, set_queries_data}
use clutch.Database.Memory.{find-some, count-keep, any-false}
use clutch.Cache.Notifications.{
  Notification, NotificationsResponse, mark_read, mark_if, without_target, read_target,
  notification_read, all_read, Notifications, is_unread_scope, apply_notification_read,
}
use clutch.Cache.Friends.{
  FriendSummary, SocialCache, has_friend, add_friend, remove_friend, add_to, remove_from,
}

abbrev pub is_unread : Notification → Bool
is_unread n = not n.is_read

abbrev pub has_id : String → Notification → Bool
has_id id n = n.id == id

-- The number of unread notifications that are shown.
abbrev pub shown_unread : NotificationsResponse → ℕ
shown_unread response = count is_unread response.notifications

count-mark_if :
    (id : String) (ns : List Notification)
    → count is_unread (map (mark_if id) ns) ≡ count (λ n. not (has_id id n) && is_unread n) ns
unfolding count
count-mark_if id [] = refl
count-mark_if id (n ∷ ns) = ground (arith, count-mark_if id ns)

count-without_target :
    (unread_scope : Bool) (id : String) (ns : List Notification)
    → count is_unread (without_target unread_scope id ns)
      ≡ count (λ n. not (has_id id n) && is_unread n) ns
unfolding without_target
count-without_target true id ns = count-keep (has_id id) is_unread ns
count-without_target false id ns = count-mark_if id ns

target_cases :
    (unread_scope : Bool) (id : String) (response : NotificationsResponse) (o : Option Notification)
    → find (has_id id) response.notifications ≡ o
    → count (has_id id) response.notifications ≤ 1
    → shown_unread response ≤ response.unread_count
    → let after = read_target unread_scope id response o in
      (shown_unread after ≤ after.unread_count)
      × (response.unread_count + shown_unread after ≡ after.unread_count + shown_unread response)
unfolding read_target
target_cases unread_scope id response none found once fits = (fits, refl)
target_cases unread_scope id response (some target) found once fits =
    elim (Bool-cases target.is_read) [
      | inl read ↦ rw read (fits, refl)
      | inr unread ↦
          let ns = response.notifications in
          let (at, _) = find-some (has_id id) (λ n. true) ns target found refl in
          let (_, there) =
            find-some (has_id id) (λ n. has_id id n && is_unread n) ns target found
              (rw (at, unread) refl) in
          let fewer = count-without_target unread_scope id ns in
          let split = count_split (has_id id) is_unread ns in
          let bound =
            count_mono (λ n. has_id id n && is_unread n) (has_id id) ns λ n h. ground arith in
          rw (unread, fewer)
            (
              omega (arith, there, split, bound, once, fits),
              omega (arith, there, split, bound, once, fits),
            )
    ]

-- Marking a notification as read in the cache keeps the books: the unread notifications that are counted
-- but not shown stay the same in number, and the counter never falls below what is shown; on a list of
-- all notifications as on one of the unread ones.
pub unread_count-notification_read :
    (unread_scope : Bool) (id : String) (response : NotificationsResponse)
    → count (has_id id) response.notifications ≤ 1
    → shown_unread response ≤ response.unread_count
    → let after = notification_read unread_scope id response in
      (shown_unread after ≤ after.unread_count)
      × (response.unread_count + shown_unread after ≡ after.unread_count + shown_unread response)
unfolding notification_read
unread_count-notification_read unread_scope id response once fits =
    target_cases unread_scope id response (find (has_id id) response.notifications) refl once fits

find-keep_out :
    (id : String) (ns : List Notification)
    → find (has_id id) (keep (λ n. not (n.id == id)) ns) ≡ none
find-keep_out id [] = refl
find-keep_out id (n ∷ ns) = ground (arith, find-keep_out id ns)

find-mark_if :
    (id : String) (ns : List Notification) (n : Notification)
    → find (has_id id) ns ≡ some n
    → find (has_id id) (map (mark_if id) ns) ≡ some (mark_read n)
find-mark_if id [] n h = cc
find-mark_if id (m ∷ ns) n h = elim (Bool-cases (m.id == id)) [
  | inl e ↦ let same : m ≡ n = ground arith in rw (e, e) (ap (λ x. some (mark_read x)) same)
  | inr e ↦ rw (e, e) (find-mark_if id ns n (ground arith))
]

target_idem :
    (unread_scope : Bool) (id : String) (response : NotificationsResponse) (o : Option Notification)
    → find (has_id id) response.notifications ≡ o
    → notification_read unread_scope id (read_target unread_scope id response o)
      ≡ read_target unread_scope id response o
unfolding notification_read read_target without_target
target_idem unread_scope id response none found = rw found refl
target_idem true id response (some target) found = elim (Bool-cases target.is_read) [
  | inl read ↦ rw (read, found, read) refl
  | inr unread ↦ rw (unread, find-keep_out id response.notifications) refl
]
target_idem false id response (some target) found = elim (Bool-cases target.is_read) [
  | inl read ↦ rw (read, found, read) refl
  | inr unread ↦ rw (unread, find-mark_if id response.notifications target found) refl
]

notification_read_idem :
    (unread_scope : Bool) (id : String) (response : NotificationsResponse)
    → notification_read unread_scope id (notification_read unread_scope id response)
      ≡ notification_read unread_scope id response
unfolding notification_read
notification_read_idem unread_scope id response =
    target_idem unread_scope id response (find (has_id id) response.notifications) refl

-- Two updates under one filter are one.
set_queries_data_fuse {ℓ} :
    {A : Type ℓ} (filter : QueryKey) (f g h : QueryKey → A → A) (cache : List (QueryKey × Option A))
    → ((key : QueryKey) (a : A) → f key (g key a) ≡ h key a)
    → set_queries_data filter f (set_queries_data filter g cache) ≡ set_queries_data filter h cache
unfolding set_queries_data
set_queries_data_fuse filter f g h [] e = refl
set_queries_data_fuse filter f g h ((key, none) ∷ cache) e =
    elim (Bool-cases (begins_with filter key)) [
      | inl b ↦ rw (b, set_queries_data_fuse filter f g h cache e) refl
      | inr b ↦ rw (b, set_queries_data_fuse filter f g h cache e) refl
    ]
set_queries_data_fuse filter f g h ((key, some a) ∷ cache) e =
    elim (Bool-cases (begins_with filter key)) [
      | inl b ↦ rw (b, set_queries_data_fuse filter f g h cache e, e key a) refl
      | inr b ↦ rw (b, set_queries_data_fuse filter f g h cache e) refl
    ]

-- Marking a notification as read twice is marking it once, in every cached list at once: the counters do
-- not go down a second time.
pub apply_notification_read_idem :
    (user_id id : String) (cache : Notifications)
    → apply_notification_read user_id id (apply_notification_read user_id id cache)
      ≡ apply_notification_read user_id id cache
unfolding apply_notification_read
apply_notification_read_idem user_id id cache =
    set_queries_data_fuse ("notifications" ∷ user_id ∷ []) _ _ _ cache
      λ key response. notification_read_idem (is_unread_scope key) id response

keep-append_out :
    (f : FriendSummary) (fs : List FriendSummary)
    → remove_friend f.id (fs ++ f ∷ []) ≡ remove_friend f.id fs
unfolding remove_friend
keep-append_out f [] = rw (eq_refl f.id) refl
keep-append_out f (g ∷ fs) = ground (arith, keep-append_out f fs)

remove-add :
    (f : FriendSummary) (fs : List FriendSummary)
    → remove_friend f.id (add_friend f fs) ≡ remove_friend f.id fs
unfolding add_friend
remove-add f fs = elim (Bool-cases (has_friend f.id fs)) [
  | inl there ↦ rw there refl
  | inr new ↦ rw new (keep-append_out f fs)
]

count-singleton : (f : FriendSummary) → count (λ x. x.id == f.id) (f ∷ []) ≡ 1
unfolding count
count-singleton f = rw (eq_refl f.id) refl

-- Taking a friend out of the cached lists of a user undoes the optimistic entry: what is left is what
-- would be left had the friend never been added; and a list that had the friend once at most has the
-- friend exactly once after the entry.
pub remove_from-add_to :
    (user_id : String) (f : FriendSummary) (fs : List FriendSummary) (cache : SocialCache)
    → count (λ x. x.id == f.id) fs ≤ 1
    → (remove_from user_id f.id (add_to user_id f cache) ≡ remove_from user_id f.id cache)
      × (count (λ x. x.id == f.id) (add_friend f fs) ≡ 1)
unfolding remove_from add_to add_friend
remove_from-add_to user_id f fs cache once = (
  ap (λ x. record cache { friends = x })
      (set_queries_data_fuse ("friends" ∷ user_id ∷ []) (λ key gs. remove_friend f.id gs)
        (λ key gs. add_friend f gs) (λ key gs. remove_friend f.id gs) cache.friends
        λ key gs. remove-add f gs),
  (let (to, back) = any-eq-true_iff (λ x. x.id == f.id) fs in
      elim (Bool-cases (has_friend f.id fs)) [
        | inl there ↦ rw there (omega (arith, once, to there))
        | inr new ↦ rw new (
            ground (
              arith,
              count-append (λ x. x.id == f.id) fs (f ∷ []),
              count-singleton f,
              any-false (λ x. x.id == f.id) fs new,
            ))
      ]),
)

count-mark_read : (ns : List Notification) → count is_unread (map mark_read ns) ≡ 0
unfolding count
count-mark_read [] = refl
count-mark_read (n ∷ ns) = ground (arith, count-mark_read ns)

-- After all notifications are marked as read the counter is zero, and no unread notification is shown, if
-- no more were shown than counted.
pub unread_count-all_read :
    (unread_scope : Bool) (response : NotificationsResponse)
    → shown_unread response ≤ response.unread_count
    → let after = all_read unread_scope response in
      (after.unread_count ≡ 0) × (shown_unread after ≡ 0)
unfolding all_read count
unread_count-all_read unread_scope response fits = elim (Bool-cases (response.unread_count == 0)) [
  | inl e ↦ rw e (ground arith, ground (arith, fits))
  | inr e ↦ rw e (refl, ground (arith, count-mark_read response.notifications))
]
