-- ===== src/Session/Locking/Exclusion.antt =====
-- What the lock promises.
use clutch.Prelude.{
  ℕ, ◌≤◌, ◌≡◌, ◌↔◌, inl, inr, sym, ◌∙◌, String, true, false, none, some, List, [], ◌∷◌, ◌==◌,
  nat_eq, nat_beq_iff, arith, Bool-cases, subst,
}
use clutch.Session.Locking.System.{running, State, Reach}
use clutch.Session.Locking.Queue.{has, session_of, Waits, Leads, QueueOf, Waits-has}
use clutch.Session.Locking.Moves.{session-Leads}
use clutch.Session.Locking.Leaving.{running-IsFirst}
use clutch.Session.Locking.Invariant.{Reach-IsOrdered}

-- The call has arrived for the session and has not left.
abbrev pub IsPending : State → String → ℕ → Type 0
IsPending st s c = session_of (st.calls c) ≡ some s

first_least :
    (st : State) (s : String) (o c d : ℕ) (l : List ℕ)
    → Waits st.calls s o c l
    → has d (c ∷ l) ≡ true
    → c ≤ d
first_least st s o c d l w h = elim (Bool-cases (c == d)) [
  | inl e ↦ omega (arith, (nat_beq_iff c d).0 e)
  | inr e ↦ let (_, _, after, _) = Waits-has st.calls s o c d l w (ground arith) in omega arith
]

-- The operation that runs is that of the earliest call of its session that has not left: no two
-- operations of one session run at once, and they run in the order in which their calls arrived.
pub running_earliest :
    (st : State) (s : String) (o c d : ℕ)
    → Reach st
    → st.calls c ≡ running s o
    → IsPending st s d
    → c ≤ d
running_earliest st s o c d r e pending =
    let (queue, ord) = Reach-IsOrdered r in
    let f = running-IsFirst st queue s o c ord e in
    first_least st s f.queued.object c d f.others f.queued.rest
      (subst (λ l. has d l ≡ true) f.here (ord.listed d s pending))

-- The call runs, or waits for a promise that is resolved.
abbrev pub CanMove : State → String → ℕ → Type 0
CanMove st s c = (o : ℕ) × Leads st.calls s o c

-- No session is stuck, and none leaves its lock behind: for a session with a call that has not left, the
-- earliest such call runs or can go on; and a session has an entry in the table of locks exactly while
-- such a call is there.
pub session_progress :
    (st : State) (s : String)
    → Reach st
    → ((d : ℕ) → IsPending st s d → (c : ℕ) × (c ≤ d) × CanMove st s c)
      × ((st.session_locks s ≡ none) ↔ ((d : ℕ) → IsPending st s d → ⊥))
session_progress st s r =
    let (queue, ord) = Reach-IsOrdered r in go (queue s) (ord.queues s) (λ d h. ord.listed d s h)
  where
    go :
        (l : List ℕ)
        → QueueOf st s l
        → ((d : ℕ) → IsPending st s d → has d l ≡ true)
        → ((d : ℕ) → IsPending st s d → (c : ℕ) × (c ≤ d) × CanMove st s c)
          × ((st.session_locks s ≡ none) ↔ ((d : ℕ) → IsPending st s d → ⊥))
    go [] q h = (
      λ d p. let no : false ≡ true = h d p in cc,
      (λ e d p. let no : false ≡ true = h d p in cc, λ n. q),
    )
    go (c ∷ l) q h = (
      λ d p. (c, first_least st s q.object c d l q.rest (h d p), (q.object, q.leads)),
      (
        λ e d p. let no : none ≡ some q.object = sym e ∙ q.found in cc,
        λ n. absurd (n c (session-Leads st.calls s q.object c q.leads)),
      ),
    )
