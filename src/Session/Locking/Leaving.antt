-- ===== src/Session/Locking/Leaving.antt =====
-- The first call of a queue is the one that goes on, and the one that leaves.
use clutch.Prelude.{
  ℕ, ◌≡◌, ◌⊎◌, inl, inr, refl, sym, ap, ◌∙◌, subst, String, true, false, Option, none, some, List,
  [], ◌∷◌, ◌==◌, nat_eq, string_eq, nat_beq_iff, arith, Bool-cases,
}
use clutch.Session.Locking.System.{Call, finished, waiting, running, State, Resolved}
use clutch.Session.Locking.Queue.{has, session_of, Waits, Leads, Queued, QueueOf, Waits-has}
use clutch.Session.Locking.Moves.{IsOrdered, session-has, session-Leads}

-- The call stands first, with its session's lock.
pub record IsFirst (st : State) (queue : String → List ℕ) (s : String) (o c : ℕ) : Type 0 where
  pub others : List ℕ
  pub here : queue s ≡ c ∷ others
  pub queued : Queued st s c others
  pub same_object : queued.object ≡ o

-- A call that is in the queue is the first one, or waits for a call in the queue.
pub first_or_behind :
    (st : State) (queue : String → List ℕ) (s : String) (c : ℕ)
    → IsOrdered st queue
    → session_of (st.calls c) ≡ some s
    → ((l : List ℕ) × (queue s ≡ c ∷ l))
      ⊎ ((o : ℕ) × (q : ℕ) × (st.calls c ≡ waiting s o (some q))
          × (session_of (st.calls q) ≡ some s))
first_or_behind st queue s c ord e = go (queue s) refl (ord.queues s) (ord.listed c s e)
  where
    go :
        (l : List ℕ)
        → queue s ≡ l
        → QueueOf st s l
        → has c l ≡ true
        → ((l : List ℕ) × (queue s ≡ c ∷ l))
          ⊎ ((o : ℕ) × (q : ℕ) × (st.calls c ≡ waiting s o (some q))
              × (session_of (st.calls q) ≡ some s))
    go [] here q h = cc
    go (d ∷ l) here q h = elim (Bool-cases (d == c)) [
      | inl e ↦ inl (l, rw (← (nat_beq_iff d c).0 e) here)
      | inr e ↦
          let (p, waits, _, before) = Waits-has st.calls s q.object d c l q.rest (ground arith) in
          inr (
            q.object,
            p,
            waits,
            elim before [
              | inl same ↦ rw same (session-Leads st.calls s q.object d q.leads)
              | inr there ↦ session-has st s p (d ∷ l) q (ground arith)
            ],
          )
    ]

same_lock-IsFirst :
    (st : State) (queue : String → List ℕ) (s : String) (o c : ℕ) (l : List ℕ)
    → IsOrdered st queue
    → queue s ≡ c ∷ l
    → (st.calls c ≡ running s o) ⊎ ((p : Option ℕ) × (st.calls c ≡ waiting s o p))
    → IsFirst st queue s o c
same_lock-IsFirst st queue s o c l ord here e =
    let q : Queued st s c l = subst (QueueOf st s) here (ord.queues s) in
    record { others = l; here = here; queued = q; same_object = same q.object q.leads e }
  where
    same :
        (o' : ℕ)
        → Leads st.calls s o' c
        → (st.calls c ≡ running s o) ⊎ ((p : Option ℕ) × (st.calls c ≡ waiting s o p))
        → o' ≡ o
    same o' (inl h) (inl k) = let e : running s o' ≡ running s o = sym h ∙ k in cc
    same o' (inl h) (inr (p, k)) = let e : running s o' ≡ waiting s o p = sym h ∙ k in cc
    same o' (inr (p, h, _)) (inl k) = let e : waiting s o' p ≡ running s o = sym h ∙ k in cc
    same o' (inr (p, h, _)) (inr (p', k)) =
        let e : waiting s o' p ≡ waiting s o p' = sym h ∙ k in cc

-- Who runs is first.
pub running-IsFirst :
    (st : State) (queue : String → List ℕ) (s : String) (o c : ℕ)
    → IsOrdered st queue
    → st.calls c ≡ running s o
    → IsFirst st queue s o c
running-IsFirst st queue s o c ord e = elim (first_or_behind st queue s c ord (ap session_of e)) [
  | inl (l, here) ↦ same_lock-IsFirst st queue s o c l ord here (inl e)
  | inr (o', q, waits, _) ↦ let no : running s o ≡ waiting s o' (some q) = sym e ∙ waits in cc
]

-- Who waits for a promise that is resolved is first.
pub Resolved-IsFirst :
    (st : State) (queue : String → List ℕ) (s : String) (o c : ℕ) (p : Option ℕ)
    → IsOrdered st queue
    → st.calls c ≡ waiting s o p
    → Resolved st.calls p
    → IsFirst st queue s o c
Resolved-IsFirst st queue s o c p ord e done =
    elim (first_or_behind st queue s c ord (ap session_of e)) [
      | inl (l, here) ↦ same_lock-IsFirst st queue s o c l ord here (inr (p, e))
      | inr (o', q, waits, live) ↦
          let w : waiting s o p ≡ waiting s o' (some q) = sym e ∙ waits in
          let same : p ≡ some q = cc in
          let over : st.calls q ≡ finished = subst (Resolved st.calls) same done in
          let no : none ≡ some s = sym (ap session_of over) ∙ live in cc
    ]

pub not_behind_itself :
    (calls : ℕ → Call) (s : String) (o c : ℕ) (l : List ℕ) → Waits calls s o c l → has c l ≡ false
not_behind_itself calls s o c l w = elim (Bool-cases (has c l)) [
  | inr out ↦ out
  | inl there ↦ let (_, _, after, _) = Waits-has calls s o c c l w there in absurd (omega arith)
]
