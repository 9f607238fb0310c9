-- ===== src/Presence/Backoff.antt =====
-- Invariants of every history of a connection.
use clutch.Prelude.{ℕ, ◌*◌, min, ◌≤◌, ◌≡◌, refl, Bool, true, Option, none, some, arith}
use clutch.Presence.Connection.{
  Connection, Credential, granted, no_url, unauthorized, failed, connect, disconnect,
  credential_arrives, schedule_reconnect, is_listening, connected, handle_open, handle_close,
  handle_error, timer_fires, initial, initial_reconnect_delay_ms, max_reconnect_delay_ms,
}
use clutch.Presence.Events.{
  Event, connects, disconnects, timer, credential, opens, closes, errs, handle, Reach, start, next,
}

-- A delay between one second and thirty.
abbrev pub InRange : ℕ → Type 0
InRange d = (initial_reconnect_delay_ms ≤ d) × (d ≤ max_reconnect_delay_ms)

abbrev pub TimerFits : Bool → Option ℕ → Type 0
TimerFits wanted none = Unit {0}
TimerFits wanted (some d) = InRange d × (wanted ≡ true)

-- The delays stay in range, and a reconnect timer is only set while a reconnection is wanted.
pub record IsBounded (c : Connection) : Type 0 where
  pub delay : InRange c.reconnect_delay_ms
  pub timer : TimerFits c.should_reconnect c.reconnect_timer

initial-IsBounded : IsBounded initial
unfolding initial
initial-IsBounded = record { delay = omega arith; timer = tt }

connect-IsBounded : (c : Connection) → IsBounded c → IsBounded (connect c)
unfolding connect
connect-IsBounded c h = ground arith

disconnect-IsBounded : (c : Connection) → IsBounded c → IsBounded (disconnect c)
unfolding disconnect
disconnect-IsBounded c h = ground arith

schedule_reconnect-IsBounded : (c : Connection) → IsBounded c → IsBounded (schedule_reconnect c)
unfolding schedule_reconnect
schedule_reconnect-IsBounded c h = ground arith

credential_arrives-IsBounded :
    (r : Credential) (c : Connection) → IsBounded c → IsBounded (credential_arrives r c)
unfolding credential_arrives
credential_arrives-IsBounded granted c h = ground arith
credential_arrives-IsBounded no_url c h = ground arith
credential_arrives-IsBounded unauthorized c h = ground arith
credential_arrives-IsBounded failed c h = ground arith

handle_close-IsBounded : (i : ℕ) (c : Connection) → IsBounded c → IsBounded (handle_close i c)
unfolding handle_close
handle_close-IsBounded i c h = ground arith

timer_fires-IsBounded :
    (o : Option ℕ) (c : Connection)
    → o ≡ c.reconnect_timer
    → IsBounded c
    → IsBounded (timer_fires o c)
unfolding timer_fires
timer_fires-IsBounded none c e h = h
timer_fires-IsBounded (some d) c e h = ground arith

handle-IsBounded : (e : Event) (c : Connection) → IsBounded c → IsBounded (handle e c)
unfolding handle handle_open handle_error
handle-IsBounded connects c h = connect-IsBounded c h
handle-IsBounded disconnects c h = disconnect-IsBounded c h
handle-IsBounded timer c h = timer_fires-IsBounded c.reconnect_timer c refl h
handle-IsBounded (credential r) c h = credential_arrives-IsBounded r c h
handle-IsBounded (opens i) c h = ground arith
handle-IsBounded (closes i) c h = ground (arith, handle_close-IsBounded i c h)
handle-IsBounded (errs i) c h = ground arith

-- After any history the delay before the next attempt, and the one that a set timer has captured,
-- lie between one second and thirty, and a timer is set only while a reconnection is wanted.
pub Reach-IsBounded : {c : Connection} → Reach c → IsBounded c
Reach-IsBounded start = initial-IsBounded
Reach-IsBounded (next {c} r e) = handle-IsBounded e c (Reach-IsBounded r)

-- Each failed attempt doubles the delay of the next one, up to thirty seconds, and a socket that
-- opens sets it back to one second.
pub reconnect_delay_doubles :
    (c : Connection) (i d : ℕ)
    → c.reconnect_timer ≡ some d
    → is_listening i c.listening ≡ true
    → ((handle timer c).reconnect_delay_ms ≡ min (d * 2) max_reconnect_delay_ms)
      × ((handle timer c).reconnect_timer ≡ none)
      × ((handle (opens i) c).reconnect_delay_ms ≡ initial_reconnect_delay_ms)
      × ((handle (opens i) c).status ≡ connected)
unfolding handle timer_fires handle_open
reconnect_delay_doubles c i d h l = (ground arith, ground arith, ground arith, ground arith)
