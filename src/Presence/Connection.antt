-- ===== src/Presence/Connection.antt =====
-- The class `PresenceConnection` of presence.ts. Its private fields are a record; sockets are
-- numbers. What the browser holds besides the fields is part of the state: how many calls of
-- `openSocket` wait for `getCredential`, and which sockets have the four listeners attached.
use clutch.Prelude.{
  ℕ, ◌+◌, ◌-◌, ◌*◌, min, Bool, true, false, not, ◌||◌, Option, none, some, List, [], ◌∷◌, ◌==◌,
  nat_eq, ltb, if◌then◌else◌, is_some, keep,
}

pub data ConnectionStatus : Type 0 where
  idle connecting connected reconnecting auth_error error : ConnectionStatus

abbrev pub initial_reconnect_delay_ms : ℕ
initial_reconnect_delay_ms = 1000

abbrev pub max_reconnect_delay_ms : ℕ
max_reconnect_delay_ms = 30000

-- `reconnect_timer` holds the delay that the timer's callback has captured. `status` is the last
-- one given to `onConnectionStatusChange`, and `auth_failures` counts the calls of `onAuthFailure`.
pub record Connection : Type 0 where
  pub socket : Option ℕ
  pub reconnect_timer : Option ℕ
  pub ping_timer : Bool
  pub reconnect_delay_ms : ℕ
  pub should_reconnect : Bool
  pub is_connecting : Bool
  pub status : ConnectionStatus
  pub auth_failures : ℕ
  pub pending : ℕ
  pub listening : List ℕ
  pub next_socket : ℕ

unfoldable pub initial : Connection
initial = record {
  socket = none;
  reconnect_timer = none;
  ping_timer = false;
  reconnect_delay_ms = initial_reconnect_delay_ms;
  should_reconnect = true;
  is_connecting = false;
  status = idle;
  auth_failures = 0;
  pending = 0;
  listening = [];
  next_socket = 0;
}

-- `openSocket` up to its `await`.
unfoldable pub open_socket : Connection → Connection
open_socket c = record c {
  is_connecting = true;
  status = if ltb initial_reconnect_delay_ms c.reconnect_delay_ms then reconnecting else connecting;
  pending = c.pending + 1;
}

unfoldable pub connect : Connection → Connection
unfolding open_socket
connect c =
    if c.is_connecting || is_some c.socket
    then c
    else open_socket (record c { should_reconnect = true })

-- `socket.close()` starts the closing handshake; the close event comes later.
unfoldable pub disconnect : Connection → Connection
disconnect c = record c {
  should_reconnect = false;
  reconnect_timer = none;
  ping_timer = false;
  socket = none;
  is_connecting = false;
  status = idle;
}

unfoldable pub schedule_reconnect : Connection → Connection
schedule_reconnect c =
    if not c.should_reconnect || is_some c.reconnect_timer
    then c
    else record c { reconnect_timer = some c.reconnect_delay_ms }

-- How `getCredential` ends: with a token for which the URL and the socket can be made, with one for
-- which `buildPresenceSocketUrl` or the socket factory throws, with the status 401, or otherwise.
pub data Credential : Type 0 where
  granted no_url unauthorized failed : Credential

-- `openSocket` behind its `await`.
unfoldable pub resume_open : Credential → Connection → Connection
unfolding schedule_reconnect
resume_open granted c = record c {
  socket = some c.next_socket;
  listening = c.next_socket ∷ c.listening;
  next_socket = c.next_socket + 1;
}
resume_open no_url c = c
resume_open unauthorized c = record c {
  is_connecting = false;
  status = auth_error;
  auth_failures = c.auth_failures + 1;
}
resume_open failed c = schedule_reconnect (record c { is_connecting = false; status = error })

unfoldable pub credential_arrives : Credential → Connection → Connection
unfolding resume_open
credential_arrives r c =
    if c.pending == 0 then c else resume_open r (record c { pending = c.pending - 1 })

abbrev pub is_listening : ℕ → List ℕ → Bool
is_listening i [] = false
is_listening i (j ∷ js) = j == i || is_listening i js

abbrev pub remove_listeners : ℕ → List ℕ → List ℕ
remove_listeners i js = keep (λ j. not (j == i)) js

unfoldable pub handle_open : Connection → Connection
handle_open c = record c {
  is_connecting = false;
  reconnect_delay_ms = initial_reconnect_delay_ms;
  status = connected;
  ping_timer = true;
}

unfoldable pub handle_close : ℕ → Connection → Connection
unfolding schedule_reconnect
handle_close i c =
    let closed = record c {
      listening = remove_listeners i c.listening;
      ping_timer = false;
      socket = none;
      is_connecting = false;
    } in
    if not c.should_reconnect
    then record closed { status = idle }
    else schedule_reconnect (record closed { status = error })

unfoldable pub handle_error : Connection → Connection
handle_error c = record c { status = error }

-- The callback of the reconnect timer.
unfoldable pub timer_fires : Option ℕ → Connection → Connection
unfolding connect
timer_fires none c = c
timer_fires (some delay) c = connect (record c {
  reconnect_timer = none;
  reconnect_delay_ms = min (delay * 2) max_reconnect_delay_ms;
})

-- The callback of the ping loop: the socket that `PING` is sent to, if there is one and it is open.
unfoldable pub ping_target : (ℕ → Bool) → Connection → Option ℕ
ping_target is_open c = elim c.socket [ none ↦ none | some i ↦ if is_open i then some i else none ]
