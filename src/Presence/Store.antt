-- ===== src/Presence/Store.antt =====
-- frontend/src/store/presence-store.ts: the last presence of each friend, by user id, and the state
-- of the connection. `set` of zustand merges the given fields into the state.
use clutch.Prelude.{
  ℕ, ◌≡◌, refl, String, Option, none, some, List, [], ◌==◌, string_eq, if◌then◌else◌,
}
use clutch.Prelude.Map
use clutch.Presence.Connection.{ConnectionStatus, idle}

-- `FriendPresenceEventPayload`; the status is one of the texts of `presenceStatusSchema`.
pub record PresenceUpdate : Type 0 where
  pub user_id : String
  pub status : String
  pub current_game : Option String
  pub platform : Option String

pub record PresenceEntry : Type 0 where
  pub update : PresenceUpdate
  pub received_at : ℕ

pub record PresenceState : Type 0 where
  pub connection_status : ConnectionStatus
  pub error_message : Option String
  pub entries : List (String × PresenceEntry)

unfoldable pub initial_state : PresenceState
initial_state = record { connection_status = idle; error_message = none; entries = [] }

unfoldable pub set_connection_status :
    ConnectionStatus → Option String → PresenceState → PresenceState
set_connection_status status message s = record s {
  connection_status = status;
  error_message = message;
}

unfoldable pub upsert_presence : PresenceUpdate → ℕ → PresenceState → PresenceState
upsert_presence update received_at s = record s {
  entries =
      Map.set update.user_id (record { update = update; received_at = received_at }) s.entries;
}

unfoldable pub clear_presence : String → PresenceState → PresenceState
clear_presence user_id s = record s { entries = Map.delete user_id s.entries }

unfoldable pub clear_all : PresenceState → PresenceState
unfolding initial_state
clear_all s = initial_state

-- A read of one friend after each operation that writes: the last update of the friend is what is
-- read, other friends are untouched, and the connection's state is not changed by presence.
pub get-upsert-clear :
    (u : PresenceUpdate) (t : ℕ) (k j : String) (s : PresenceState)
    → let entry : PresenceEntry = record { update = u; received_at = t } in
      (Map.get k (upsert_presence u t s).entries
        ≡ (if u.user_id == k then some entry else Map.get k s.entries))
      × (Map.get k (clear_presence j s).entries ≡ (if j == k then none else Map.get k s.entries))
      × ((clear_presence j (upsert_presence u t s)).connection_status ≡ s.connection_status)
unfolding upsert_presence clear_presence
get-upsert-clear u t k j s =
    (Map.get-set u.user_id k _ s.entries, Map.get-delete j k s.entries, refl)
