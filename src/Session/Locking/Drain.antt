-- ===== src/Session/Locking/Drain.antt =====
-- When no call arrives any more, all calls leave.
use clutch.Prelude.{
  ℕ, zero, suc, ◌+◌, ◌≤◌, ◌<◌, ◌≡◌, ◌⊎◌, inl, inr, refl, ap, String, false, Option, some, ◌==◌,
  nat_eq, nat_beq_iff, arith, Bool-cases,
}
use clutch.Session.Locking.System.{
  Call, absent, finished, waiting, running, State, at_number, Resolved, proceed, release, begins,
  finishes, Reach, next,
}
use clutch.Session.Locking.Queue.{session_of}
use clutch.Session.Locking.Entering.{before_next}
use clutch.Session.Locking.Invariant.{Reach-IsOrdered}
use clutch.Session.Locking.Exclusion.{IsPending, CanMove, session_progress}

-- A step that is no arrival.
pub data Goes : State → State → Type 0 where
  goes_on :
      {st : State}
      → (c : ℕ) (s : String) (o : ℕ) (p : Option ℕ) → st.calls c ≡ waiting s o p
      → Resolved st.calls p
      → Goes st (proceed c s o st)
  leaves :
      {st : State}
      → (c : ℕ) (s : String) (o : ℕ) → st.calls c ≡ running s o
      → Goes st (release c s o st)

-- So many such steps.
pub data Drain : ℕ → State → State → Type 0 where
  still : {st : State} → Drain 0 st st
  further : {k : ℕ} {st st' st'' : State} → Drain k st st' → Goes st' st'' → Drain (suc k) st st''

-- The steps that a call has before it.
abbrev pub weight : Call → ℕ
weight absent = 0
weight finished = 0
weight (waiting s o p) = 2
weight (running s o) = 1

-- The steps that the calls below a number have before them.
unfoldable pub work : (ℕ → Call) → ℕ → ℕ
work calls zero = 0
work calls (suc n) = weight (calls n) + work calls n

work_above :
    (calls : ℕ → Call) (c : ℕ) (x : Call) (n : ℕ)
    → n ≤ c
    → work (at_number calls c x) n ≡ work calls n
unfolding work
work_above calls c x zero h = refl
work_above calls c x (suc n) h =
    let other : (n == c) ≡ false = ground arith in
    rw (other, work_above calls c x n (omega arith)) refl

work_at :
    (calls : ℕ → Call) (c : ℕ) (x : Call) (n : ℕ)
    → c < n
    → work (at_number calls c x) n + weight (calls c) ≡ work calls n + weight x
unfolding work
work_at calls c x zero h = absurd (omega arith)
work_at calls c x (suc n) h = elim (Bool-cases (n == c)) [
  | inl e ↦
      let same : n ≡ c = (nat_beq_iff n c).0 e in
      let below = work_above calls c x n (omega arith) in rw (e, below, same) (omega arith)
  | inr e ↦ let below = work_at calls c x n (ground arith) in rw e (omega (arith, below))
]

pending_or_none :
    (calls : ℕ → Call) (n : ℕ)
    → ((work calls n ≡ 0) ⊎ ((c : ℕ) × (s : String) × (session_of (calls c) ≡ some s)))
unfolding work
pending_or_none calls zero = inl refl
pending_or_none calls (suc n) = go (calls n) refl (pending_or_none calls n)
  where
    go :
        (x : Call)
        → calls n ≡ x
        → ((work calls n ≡ 0) ⊎ ((c : ℕ) × (s : String) × (session_of (calls c) ≡ some s)))
        → ((weight (calls n) + work calls n ≡ 0)
            ⊎ ((c : ℕ) × (s : String) × (session_of (calls c) ≡ some s)))
    go x e (inr there) = inr there
    go absent e (inl none_there) = inl (rw (e, none_there) refl)
    go finished e (inl none_there) = inl (rw (e, none_there) refl)
    go (waiting s o p) e (inl _) = inr (n, s, ap session_of e)
    go (running s o) e (inl _) = inr (n, s, ap session_of e)

Goes-work :
    (st st' : State)
    → Reach st
    → Goes st st'
    → (work st'.calls st'.next_call + 1 ≡ work st.calls st.next_call) × Reach st'
unfolding proceed release
Goes-work st _ r (goes_on c s o p e done) =
    let (queue, ord) = Reach-IsOrdered r in
    let at =
      work_at st.calls c (running s o) st.next_call
        (before_next st queue s c ord (ap session_of e)) in
    (omega (arith, at, ap weight e), next r (begins c s o p e done))
Goes-work st _ r (leaves c s o e) =
    let (queue, ord) = Reach-IsOrdered r in
    let at =
      work_at st.calls c finished st.next_call (before_next st queue s c ord (ap session_of e)) in
    (omega (arith, at, ap weight e), next r (finishes c s o e))

drain-work :
    (k : ℕ) (st st' : State)
    → Reach st
    → Drain k st st'
    → (k + work st'.calls st'.next_call ≡ work st.calls st.next_call) × Reach st'
drain-work _ st _ r still = (omega arith, r)
drain-work _ st _ r (further {k} {st'} {st''} d g) =
    let (so_far, r') = drain-work k st st' r d in
    let (one, r'') = Goes-work st' st'' r' g in (omega (arith, so_far, one), r'')

move_of : (st : State) (s : String) (c : ℕ) → CanMove st s c → (st' : State) × Goes st st'
move_of st s c (o, inl runs) = (release c s o st, leaves c s o runs)
move_of st s c (o, inr (p, waits, done)) = (proceed c s o st, goes_on c s o p waits done)

-- A state with a call that has not left has a step.
step_of :
    (st : State) (s : String) (c : ℕ)
    → Reach st
    → IsPending st s c
    → (st' : State) × Goes st st' × (0 < work st.calls st.next_call)
step_of st s c r p =
    let (progress, _) = session_progress st s r in
    let (first, _, can) = progress c p in
    let (st', g) = move_of st s first can in
    let (one, _) = Goes-work st st' r g in (st', g, omega (arith, one))

-- When no call arrives any more, all calls leave: from a state that is reached, each run of steps is at
-- most as long as two steps for each call that waits and one for each that runs, and it ends, with no
-- call that has not left, exactly at that length; before it another step can be made.
pub drain_ends :
    (k : ℕ) (st st' : State)
    → Reach st
    → Drain k st st'
    → (((k ≡ work st.calls st.next_call) × ((s : String) (c : ℕ) → IsPending st' s c → ⊥))
        ⊎ ((k < work st.calls st.next_call) × ((st'' : State) × Goes st' st'')))
drain_ends k st st' r d =
    let (sum, r') = drain-work k st st' r d in
    elim (pending_or_none st'.calls st'.next_call) [
      | inl over ↦ inl (
        omega (arith, sum, over),
        λ s c p. let (_, _, some_work) = step_of st' s c r' p in absurd (omega arith),
      )
      | inr (c, s, p) ↦
          let (st'', g, some_work) = step_of st' s c r' p in
          inr (omega (arith, sum, some_work), (st'', g))
    ]
