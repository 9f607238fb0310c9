-- ===== src/Presence/Events.antt =====
-- What can happen to a connection: the calls of its two methods, and the browser's events. An event
-- of a socket whose listeners are gone, and a timer that is not set, change nothing.
use clutch.Prelude.{ℕ, List, [], ◌∷◌, if◌then◌else◌}
use clutch.Presence.Connection.{
  Connection, Credential, connect, disconnect, credential_arrives, is_listening, handle_open,
  handle_close, handle_error, timer_fires, initial,
}

pub data Event : Type 0 where
  connects disconnects timer : Event
  credential : Credential → Event
  opens closes errs : ℕ → Event

unfoldable pub handle : Event → Connection → Connection
handle connects c = connect c
handle disconnects c = disconnect c
handle timer c = timer_fires c.reconnect_timer c
handle (credential r) c = credential_arrives r c
handle (opens i) c = if is_listening i c.listening then handle_open c else c
handle (closes i) c = if is_listening i c.listening then handle_close i c else c
handle (errs i) c = if is_listening i c.listening then handle_error c else c

unfoldable pub run : List Event → Connection → Connection
run [] c = c
run (e ∷ es) c = run es (handle e c)

-- The state that some history of events leads to.
pub data Reach : Connection → Type 0 where
  start : Reach initial
  next : {c : Connection} → Reach c → (e : Event) → Reach (handle e c)
