-- ===== src/Session/Locking/Moves.antt =====
-- The queues as an invariant, and what a step must keep of them.
use clutch.Prelude.{
  ℕ, ◌≤◌, ◌<◌, ◌≡◌, ◌≢◌, ◌⊎◌, inl, inr, sym, ap, ◌∙◌, String, true, false, Option, none, some, List,
  [], ◌∷◌, ◌==◌, nat_eq, string_eq, nat_beq_iff, eq_iff, arith, Bool-cases,
}
use clutch.Session.Locking.System.{Lock, Call, absent, finished, State, at_number, at_session}
use clutch.Session.Locking.Queue.{
  has, session_of, Leads, QueueOf, Waits-has, Waits-frame, Leads-frame,
}

-- Each session's calls that have not left form its queue, and no two sessions share a lock.
pub record IsOrdered (st : State) (queue : String → List ℕ) : Type 0 where
  pub queues : (s : String) → QueueOf st s (queue s)
  pub distinct :
      (s t : String) (o : ℕ) → st.session_locks s ≡ some o → st.session_locks t ≡ some o → s ≡ t
  pub listed : (c : ℕ) (s : String) → session_of (st.calls c) ≡ some s → has c (queue s) ≡ true
  pub fresh : (c : ℕ) → st.next_call ≤ c → st.calls c ≡ absent

pub session-Leads :
    (calls : ℕ → Call) (s : String) (o c : ℕ) → Leads calls s o c → session_of (calls c) ≡ some s
session-Leads calls s o c (inl runs) = ap session_of runs
session-Leads calls s o c (inr (p, waits, _)) = ap session_of waits

-- Who stands in a queue is a call for the session.
pub session-has :
    (st : State) (s : String) (c : ℕ) (l : List ℕ)
    → QueueOf st s l
    → has c l ≡ true
    → session_of (st.calls c) ≡ some s
session-has st s c [] q h = cc
session-has st s c (d ∷ l) q h = elim (Bool-cases (d == c)) [
  | inl e ↦
      let same : d ≡ c = (nat_beq_iff d c).0 e in
      rw (← same) (session-Leads st.calls s q.object d q.leads)
  | inr e ↦
      let (_, waits, _, _) = Waits-has st.calls s q.object d c l q.rest (ground arith) in
      ap session_of waits
]

pub allocated_lem :
    (st : State) (s : String) (o : ℕ) (l : List ℕ)
    → QueueOf st s l
    → st.session_locks s ≡ some o
    → o < st.next_lock
allocated_lem st s o [] q e = let no : none ≡ some o = sym q ∙ e in cc
allocated_lem st s o (c ∷ l) q e =
    let same : some q.object ≡ some o = sym q.found ∙ e in
    let here : q.object ≡ o = cc in rw (← here) q.allocated

-- A queue that a step does not touch.
QueueOf-frame :
    (st : State) (n k m : ℕ) (x : Call) (heap : ℕ → Lock) (locks : String → Option ℕ) (t : String)
    (l : List ℕ)
    → QueueOf st t l
    → has n l ≡ false
    → st.calls n ≢ finished
    → ((o : ℕ) → st.session_locks t ≡ some o → heap o ≡ st.heap o)
    → st.next_lock ≤ m
    → locks t ≡ st.session_locks t
    → QueueOf
        (record {
          calls = at_number st.calls n x;
          next_call = k;
          heap = heap;
          next_lock = m;
          session_locks = locks;
        })
        t
        l
QueueOf-frame st n k m x heap locks t [] q h live kept grows same = same ∙ q
QueueOf-frame st n k m x heap locks t (c ∷ l) q h live kept grows same = record {
  object = q.object;
  found = same ∙ q.found;
  allocated = let a = q.allocated in omega arith;
  lock = kept q.object q.found ∙ q.lock;
  leads = Leads-frame st.calls x t q.object c n (ground arith) live q.leads;
  rest = Waits-frame st.calls x t q.object c n l (ground arith) q.rest;
}

-- A step of one session: what it must say of itself for the queues to stand.
pub record IsMove (st : State) (queue : String → List ℕ) (s : String) (n k m : ℕ) (x : Call)
    (heap : ℕ → Lock) (locks : String → Option ℕ) (l : List ℕ) : Type 0 where
  pub own :
      QueueOf
        (record {
          calls = at_number st.calls n x;
          next_call = k;
          heap = heap;
          next_lock = m;
          session_locks = locks;
        })
        s
        l
  pub of_session : (t : String) → session_of (st.calls n) ≡ some t → t ≡ s
  pub live : st.calls n ≢ finished
  pub heap_kept : (t : String) (o : ℕ) → t ≢ s → st.session_locks t ≡ some o → heap o ≡ st.heap o
  pub grows : st.next_lock ≤ m
  pub locks_kept : (t : String) → t ≢ s → locks t ≡ st.session_locks t
  pub own_lock : (t : String) (o : ℕ) → t ≢ s → locks s ≡ some o → st.session_locks t ≢ some o
  pub own_listed : (c : ℕ) → session_of (at_number st.calls n x c) ≡ some s → has c l ≡ true
  pub new_session : (t : String) → session_of x ≡ some t → t ≡ s
  pub new_fresh : (c : ℕ) → k ≤ c → at_number st.calls n x c ≡ absent

same_or_other : (t s : String) → (t ≡ s) ⊎ (t ≢ s)
same_or_other t s = elim (Bool-cases (t == s)) [
  | inl e ↦ inl ((eq_iff t s).0 e)
  | inr e ↦ inr (λ same. let back : (t == s) ≡ true = (eq_iff t s).1 same in cc)
]

move-distinct :
    (st : State) (queue : String → List ℕ) (s : String) (n k m : ℕ) (x : Call) (heap : ℕ → Lock)
    (locks : String → Option ℕ) (l : List ℕ)
    → IsOrdered st queue
    → IsMove st queue s n k m x heap locks l
    → (t u : String) (o : ℕ) → locks t ≡ some o
    → locks u ≡ some o
    → t ≡ u
move-distinct st queue s n k m x heap locks l ord move t u o h h' = elim (same_or_other t s) [
  | inl e ↦ elim (same_or_other u s) [
    | inl f ↦ e ∙ sym f
    | inr f ↦ absurd (move.own_lock u o f (rw (← e) h) (sym (move.locks_kept u f) ∙ h'))
  ]
  | inr e ↦ elim (same_or_other u s) [
    | inl f ↦ absurd (move.own_lock t o e (rw (← f) h') (sym (move.locks_kept t e) ∙ h))
    | inr f ↦ ord.distinct t u o (sym (move.locks_kept t e) ∙ h) (sym (move.locks_kept u f) ∙ h')
  ]
]

pub move-IsOrdered :
    (st : State) (queue : String → List ℕ) (s : String) (n k m : ℕ) (x : Call) (heap : ℕ → Lock)
    (locks : String → Option ℕ) (l : List ℕ)
    → IsOrdered st queue
    → IsMove st queue s n k m x heap locks l
    → IsOrdered
        (record {
          calls = at_number st.calls n x;
          next_call = k;
          heap = heap;
          next_lock = m;
          session_locks = locks;
        })
        (at_session queue s l)
move-IsOrdered st queue s n k m x heap locks l ord move = record {
  queues = λ t. elim (Bool-cases (t == s)) [
    | inl e ↦ let same : t ≡ s = (eq_iff t s).0 e in rw (e, same) move.own
    | inr e ↦
        let other : t ≢ s = λ same. let back : (t == s) ≡ true = (eq_iff t s).1 same in cc in
        let outside : has n (queue t) ≡ false = elim (Bool-cases (has n (queue t))) [
          | inr out ↦ out
          | inl there ↦
              absurd (other (move.of_session t (session-has st t n (queue t) (ord.queues t) there)))
        ] in
        rw e (
          QueueOf-frame st n k m x heap locks t (queue t) (ord.queues t) outside move.live
            (λ o. move.heap_kept t o other) move.grows (move.locks_kept t other))
  ];
  distinct = move-distinct st queue s n k m x heap locks l ord move;
  listed = λ c t h. elim (Bool-cases (t == s)) [
    | inl e ↦ let same : t ≡ s = (eq_iff t s).0 e in rw e (move.own_listed c (rw same at h))
    | inr e ↦ elim (Bool-cases (c == n)) [
      | inl f ↦
          let same : t ≡ s = move.new_session t (rw f at h) in
          let back : (t == s) ≡ true = (eq_iff t s).1 same in absurd (ground arith)
      | inr f ↦ rw e (ord.listed c t (rw f at h))
    ]
  ];
  fresh = move.new_fresh;
}
