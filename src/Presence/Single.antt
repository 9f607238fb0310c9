-- ===== src/Presence/Single.antt =====
-- How many sockets a connection has, and what `disconnect` leaves behind.
use clutch.Prelude.{
  min, ◌*◌, ◌<◌, ℕ, ◌+◌, ◌≤◌, ◌≡◌, Bool, true, false, Option, none, some, List, [], ◌∷◌, arith,
  Bool-cases, inl, inr, All, nat_eq,
}
use clutch.Presence.Connection.{
  Connection, Credential, granted, no_url, unauthorized, failed, connected, connect, disconnect,
  credential_arrives, handle_open, handle_close, handle_error, timer_fires, initial, is_listening,
  max_reconnect_delay_ms,
}
use clutch.Presence.Events.{
  Event, connects, disconnects, timer, credential, opens, closes, errs, handle, run,
}

-- The sockets whose events are still heard.
abbrev pub Heard : Option ℕ → List ℕ → Type 0
Heard none l = l ≡ []
Heard (some i) l = l ≡ i ∷ []

-- There is one attempt or one socket at most.
pub record IsSingle (c : Connection) : Type 0 where
  pub heard : Heard c.socket c.listening
  pub one_attempt : c.pending ≤ 1
  pub attempt_marked : c.pending ≡ 1 → c.is_connecting ≡ true
  pub not_both : c.pending ≡ 1 → c.socket ≡ none

connect-IsSingle : (c : Connection) → IsSingle c → IsSingle (connect c)
unfolding connect
connect-IsSingle c h = ground arith

credential_arrives-IsSingle :
    (r : Credential) (c : Connection) → IsSingle c → IsSingle (credential_arrives r c)
unfolding credential_arrives
credential_arrives-IsSingle granted c h = ground arith
credential_arrives-IsSingle no_url c h = ground arith
credential_arrives-IsSingle unauthorized c h = ground arith
credential_arrives-IsSingle failed c h = ground arith

handle_close-IsSingle :
    (i : ℕ) (c : Connection)
    → is_listening i c.listening ≡ true
    → IsSingle c
    → IsSingle (handle_close i c)
unfolding handle_close
handle_close-IsSingle i c l h = ground arith

abbrev pub is_disconnect : Event → Bool
is_disconnect disconnects = true
is_disconnect _ = false

timer_fires-IsSingle : (o : Option ℕ) (c : Connection) → IsSingle c → IsSingle (timer_fires o c)
unfolding timer_fires
timer_fires-IsSingle none c h = h
timer_fires-IsSingle (some d) c h =
    connect-IsSingle
      (record c { reconnect_timer = none; reconnect_delay_ms = min (d * 2) max_reconnect_delay_ms })
      (ground arith)

handle-IsSingle :
    (e : Event) (c : Connection) → is_disconnect e ≡ false → IsSingle c → IsSingle (handle e c)
unfolding handle timer_fires handle_open handle_error
handle-IsSingle connects c _ h = connect-IsSingle c h
handle-IsSingle disconnects c n h = cc
handle-IsSingle timer c _ h = timer_fires-IsSingle c.reconnect_timer c h
handle-IsSingle (credential r) c _ h = credential_arrives-IsSingle r c h
handle-IsSingle (opens i) c _ h = ground arith
handle-IsSingle (closes i) c _ h = elim (Bool-cases (is_listening i c.listening)) [
  | inl l ↦ rw l (handle_close-IsSingle i c l h)
  | inr l ↦ rw l h
]
handle-IsSingle (errs i) c _ h = ground arith

pub initial-IsSingle : IsSingle initial
unfolding initial
initial-IsSingle = ground arith

-- As long as `disconnect` is not called, a connection never has more than one attempt or socket: at
-- most one call of `openSocket` waits for its credential, no socket exists while one waits, and the
-- socket of the field is the only one whose events are heard.
pub run-IsSingle :
    (es : List Event) (c : Connection)
    → All (λ e. is_disconnect e ≡ false) es
    → IsSingle c
    → IsSingle (run es c)
unfolding run
run-IsSingle [] c _ h = h
run-IsSingle (e ∷ es) c (n, ns) h = run-IsSingle es (handle e c) ns (handle-IsSingle e c n h)

-- Nothing is going on and nothing will be.
record IsOff (c : Connection) : Type 0 where
  no_socket : c.socket ≡ none
  no_timer : c.reconnect_timer ≡ none
  no_attempt : c.pending ≡ 0
  unwanted : c.should_reconnect ≡ false

abbrev is_connect : Event → Bool
is_connect connects = true
is_connect _ = false

handle-IsOff : (e : Event) (c : Connection) → is_connect e ≡ false → IsOff c → IsOff (handle e c)
unfolding handle timer_fires handle_open handle_error handle_close disconnect credential_arrives
handle-IsOff connects c n h = cc
handle-IsOff disconnects c _ h = ground arith
handle-IsOff timer c _ h = ground arith
handle-IsOff (credential r) c _ h = ground arith
handle-IsOff (opens i) c _ h = ground arith
handle-IsOff (closes i) c _ h = ground arith
handle-IsOff (errs i) c _ h = ground arith

run-IsOff :
    (es : List Event) (c : Connection)
    → All (λ e. is_connect e ≡ false) es
    → IsOff c
    → IsOff (run es c)
unfolding run
run-IsOff [] c _ h = h
run-IsOff (e ∷ es) c (n, ns) h = run-IsOff es (handle e c) ns (handle-IsOff e c n h)

-- If no credential is awaited when `disconnect` is called, then nothing but a call of `connect` opens
-- a socket again: whatever else happens, there is no socket, no timer and no attempt.
pub disconnect_stays_off :
    (es : List Event) (c : Connection)
    → c.pending ≡ 0
    → All (λ e. is_connect e ≡ false) es
    → let after = run es (handle disconnects c) in
      (after.socket ≡ none) × (after.reconnect_timer ≡ none) × (after.pending ≡ 0)
unfolding handle
disconnect_stays_off es c p quiet =
    let off = run-IsOff es (disconnect c) quiet (unfold disconnect in ground arith) in
    (off.no_socket, off.no_timer, off.no_attempt)

-- But a credential that is awaited when `disconnect` is called still opens a socket when it arrives:
-- the connection comes up although it was closed.
pub disconnect_while_pending :
    (c : Connection) (n : ℕ)
    → c.pending ≡ n + 1
    → let after = run (disconnects ∷ credential granted ∷ opens c.next_socket ∷ []) c in
      (after.status ≡ connected)
      × (after.socket ≡ some c.next_socket)
      × (after.should_reconnect ≡ false)
unfolding run handle disconnect credential_arrives handle_open
disconnect_while_pending c n p = (ground arith, ground arith, ground arith)

-- The close event of a socket that `disconnect` closed, when it comes after `connect` has opened the
-- next socket, drops the next socket from the field and sets the timer, so that the timer opens a
-- third socket while the second is still heard.
pub stale_close_second_socket :
    (c : Connection) (i : ℕ)
    → c.socket ≡ some i
    → c.listening ≡ i ∷ []
    → c.pending ≡ 0
    → i < c.next_socket
    → let after =
        run
          (disconnects ∷ connects ∷ credential granted ∷ closes i ∷ timer ∷ credential granted ∷ [])
          c in
      (after.socket ≡ some (c.next_socket + 1))
      × (after.listening ≡ (c.next_socket + 1) ∷ c.next_socket ∷ [])
unfolding run handle disconnect connect credential_arrives handle_close timer_fires
stale_close_second_socket c i s l p fresh = (ground arith, ground arith)
