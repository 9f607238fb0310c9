-- ===== src/Presence/Tests.antt =====
-- Runs of a connection, and the theorems of Presence at concrete inputs.
use clutch.Prelude.{false, ◌≡◌, refl, none, some, List, [], ◌∷◌, arith}
use clutch.Presence.Connection.{
  Connection, granted, failed, unauthorized, auth_error, connected, reconnecting, initial, connect,
  disconnect, credential_arrives, handle_open, handle_close, handle_error, timer_fires,
}
use clutch.Presence.Events.{
  Event, connects, disconnects, timer, credential, opens, closes, handle, run, start, next,
}
use clutch.Presence.Backoff.{IsBounded, Reach-IsBounded}
use clutch.Presence.Single.{
  IsSingle, run-IsSingle, initial-IsSingle, disconnect_stays_off, disconnect_while_pending,
  stale_close_second_socket,
}
use clutch.Presence.Store.{PresenceUpdate}

machine : Unit {0}
unfolding initial run handle connect disconnect credential_arrives handle_open handle_close
    handle_error timer_fires
machine = tt

abbrev up : List Event
up = connects ∷ credential granted ∷ opens 0 ∷ []

abbrev drops : List Event
drops = connects ∷ credential granted ∷ opens 0 ∷ closes 0 ∷ timer ∷ []

runs :
    ((run up initial).status ≡ connected)
    × ((run drops initial).status ≡ reconnecting)
    × ((run drops initial).reconnect_delay_ms ≡ 2000)
    × ((run (connects ∷ credential unauthorized ∷ []) initial).status ≡ auth_error)
unfolding machine
runs = (refl, refl, refl, refl)

Reach-IsBounded_example : IsBounded (handle (credential failed) (handle connects initial))
Reach-IsBounded_example =
    Reach-IsBounded {c = handle (credential failed) (handle connects initial)}
      (next (next start connects) (credential failed))

run-IsSingle_example : IsSingle (run drops initial)
run-IsSingle_example =
    run-IsSingle drops initial (refl, (refl, (refl, (refl, (refl, tt))))) initial-IsSingle

abbrev waiting : Connection
waiting = run (connects ∷ credential granted ∷ opens 0 ∷ closes 0 ∷ []) initial

disconnect_stays_off_example :
    let after = run (closes 0 ∷ timer ∷ []) (handle disconnects (run up initial)) in
    (after.socket ≡ none) × (after.reconnect_timer ≡ none) × (after.pending ≡ 0)
unfolding machine
disconnect_stays_off_example =
    disconnect_stays_off (closes 0 ∷ timer ∷ []) (run up initial) refl (refl, (refl, tt))

disconnect_while_pending_example :
    let after =
      run (disconnects ∷ credential granted ∷ opens 0 ∷ []) (run (connects ∷ []) initial) in
    (after.status ≡ connected) × (after.socket ≡ some 0) × (after.should_reconnect ≡ false)
unfolding machine
disconnect_while_pending_example = disconnect_while_pending (run (connects ∷ []) initial) 0 refl

stale_close_second_socket_example :
    let after =
      run
        (disconnects ∷ connects ∷ credential granted ∷ closes 0 ∷ timer ∷ credential granted ∷ [])
        (run up initial) in
    (after.socket ≡ some 2) × (after.listening ≡ 2 ∷ 1 ∷ [])
unfolding machine
stale_close_second_socket_example =
    stale_close_second_socket (run up initial) 0 refl refl refl (omega arith)

abbrev ada : PresenceUpdate
ada = record { user_id = "ada"; status = "ONLINE"; current_game = none; platform = some "WEB" }
