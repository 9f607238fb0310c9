-- ===== src/Session/Locking/System.antt =====
-- `withSessionLock` of refresh-token.service.ts, as the steps that its calls make one after another on the
-- event loop. A call is a number, in the order of arrival; the promise that a call makes is resolved when
-- the call has finished, so that the call's number stands for it. The lock objects stand in a heap: a call
-- keeps the object that it has found, whatever `sessionLocks` holds later.
use clutch.Prelude.{
  ℕ, ◌+◌, ◌-◌, ◌≡◌, String, Option, none, some, ◌==◌, nat_eq, string_eq, if◌then◌else◌,
}

-- `{ tail, pending }`; the tail is the promise of a call, or `Promise.resolve()`.
pub record Lock : Type 0 where
  pub tail : Option ℕ
  pub pending : ℕ

-- A call waits for the promise it found, for a session and with the lock object it keeps; or it runs its
-- operation; or it has left, whether the operation has returned or thrown.
pub data Call : Type 0 where
  absent finished : Call
  waiting : (session : String) → (lock : ℕ) → (previous_tail : Option ℕ) → Call
  running : (session : String) → (lock : ℕ) → Call

pub record State : Type 0 where
  pub calls : ℕ → Call
  pub next_call : ℕ
  pub heap : ℕ → Lock
  pub next_lock : ℕ
  pub session_locks : String → Option ℕ

abbrev pub at_number {ℓ} : {A : Type ℓ} → (ℕ → A) → ℕ → A → ℕ → A
at_number f n a m = if m == n then a else f m

abbrev pub at_session {ℓ} : {A : Type ℓ} → (String → A) → String → A → String → A
at_session f s a t = if t == s then a else f t

abbrev pub initial : State
initial = record {
  calls = λ c. absent;
  next_call = 0;
  heap = λ o. record { tail = none; pending = 0 };
  next_lock = 0;
  session_locks = λ s. none;
}

-- The call's way to `await previousTail`, with the object that it finds, after that object is there.
abbrev pub arrived : String → ℕ → State → State
arrived session o st =
    let lock = st.heap o in
    record st {
      calls = at_number st.calls st.next_call (waiting session o lock.tail);
      next_call = st.next_call + 1;
      heap = at_number st.heap o (record { tail = some st.next_call; pending = lock.pending + 1 });
      session_locks = at_session st.session_locks session (some o);
    }

-- `{ tail: Promise.resolve(), pending: 0 }`
abbrev pub with_new_lock : State → State
with_new_lock st = record st {
  heap = at_number st.heap st.next_lock (record { tail = none; pending = 0 });
  next_lock = st.next_lock + 1;
}

abbrev pub enter_found : String → State → Option ℕ → State
enter_found session st (some o) = arrived session o st
enter_found session st none = arrived session st.next_lock (with_new_lock st)

unfoldable pub enter : String → State → State
enter session st = enter_found session st (st.session_locks session)

-- The promise is resolved.
abbrev pub Resolved : (ℕ → Call) → Option ℕ → Type 0
Resolved calls none = Unit {0}
Resolved calls (some c) = calls c ≡ finished

unfoldable pub proceed : ℕ → String → ℕ → State → State
proceed c session o st = record st { calls = at_number st.calls c (running session o) }

-- The `finally`.
unfoldable pub release : ℕ → String → ℕ → State → State
release c session o st =
    let lock = st.heap o in
    let pending = lock.pending - 1 in
    record st {
      calls = at_number st.calls c finished;
      heap = at_number st.heap o (record lock { pending = pending });
      session_locks =
          if pending == 0 then at_session st.session_locks session none else st.session_locks;
    }

-- A call arrives at any time; one that waits goes on when its promise is resolved; one that runs leaves
-- when its operation is over.
pub data Step : State → State → Type 0 where
  enters : {st : State} → (session : String) → Step st (enter session st)
  begins :
      {st : State}
      → (c : ℕ) (session : String) (o : ℕ) (p : Option ℕ) → st.calls c ≡ waiting session o p
      → Resolved st.calls p
      → Step st (proceed c session o st)
  finishes :
      {st : State}
      → (c : ℕ) (session : String) (o : ℕ) → st.calls c ≡ running session o
      → Step st (release c session o st)

pub data Reach : State → Type 0 where
  start : Reach initial
  next : {st st' : State} → Reach st → Step st st' → Reach st'
