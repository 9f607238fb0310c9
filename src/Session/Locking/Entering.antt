-- ===== src/Session/Locking/Entering.antt =====
-- A call that arrives goes to the end of its session's queue.
use clutch.Prelude.{
  ℕ, suc, ◌+◌, ◌≤◌, ◌<◌, ◌≡◌, ◌≢◌, inl, inr, refl, sym, ap, ◌∙◌, subst, String, true, false, Option,
  none, some, List, [], ◌∷◌, ◌++◌, length, length-append, ◌==◌, nat_eq, string_eq, nat_beq_iff,
  eq_iff, eq_refl, leb, arith, Bool-cases,
}
use clutch.Session.Locking.System.{
  Call, absent, finished, waiting, State, at_number, at_session, arrived, with_new_lock,
  enter_found, enter,
}
use clutch.Session.Locking.Queue.{
  has, last, session_of, Waits, Leads, Queued, QueueOf, Waits-frame, Leads-frame, Waits-append,
  last-append, has-append, has-snoc, last-has,
}
use clutch.Session.Locking.Moves.{
  IsOrdered, session-has, session-Leads, allocated_lem, move-IsOrdered,
}

pub nat_refl : (n : ℕ) → (n == n) ≡ true
nat_refl n = (nat_beq_iff n n).1 refl

-- A number that no call has is in no queue, and behind every call.
has_of_absent :
    (st : State) (s : String) (n : ℕ) (l : List ℕ)
    → QueueOf st s l
    → st.calls n ≡ absent
    → has n l ≡ false
has_of_absent st s n l q e = elim (Bool-cases (has n l)) [
  | inr out ↦ out
  | inl there ↦ let no : none ≡ some s = sym (ap session_of e) ∙ session-has st s n l q there in cc
]

pub before_next :
    (st : State) (queue : String → List ℕ) (s : String) (c : ℕ)
    → IsOrdered st queue
    → session_of (st.calls c) ≡ some s
    → c < st.next_call
before_next st queue s c ord e = elim (Bool-cases (leb st.next_call c)) [
  | inr under ↦ ground arith
  | inl over ↦ let no : none ≡ some s = sym (ap session_of (ord.fresh c (ground arith))) ∙ e in cc
]

last_before_next :
    (st : State) (queue : String → List ℕ) (s : String) (c : ℕ) (l : List ℕ)
    → IsOrdered st queue
    → QueueOf st s (c ∷ l)
    → last c l < st.next_call
last_before_next st queue s c l ord q = elim (last-has c l) [
  | inl e ↦ rw e (before_next st queue s c ord (session-Leads st.calls s q.object c q.leads))
  | inr there ↦
      before_next st queue s (last c l) ord (session-has st s (last c l) (c ∷ l) q (ground arith))
]

pub session_apart : (t s : String) → t ≢ s → (t == s) ≡ false
session_apart t s other = elim (Bool-cases (t == s)) [
  | inl e ↦ absurd (other ((eq_iff t s).0 e))
  | inr e ↦ e
]

-- The last place is the new call's.
listed_lem :
    (st : State) (queue : String → List ℕ) (s : String) (x : Call) (l : List ℕ)
    → IsOrdered st queue
    → queue s ≡ l
    → (c : ℕ) → session_of (at_number st.calls st.next_call x c) ≡ some s
    → has c (l ++ st.next_call ∷ []) ≡ true
listed_lem st queue s x l ord here c h = elim (Bool-cases (c == st.next_call)) [
  | inl e ↦ rw ((nat_beq_iff c st.next_call).0 e) (has-snoc st.next_call l)
  | inr e ↦ has-append c st.next_call l (rw (← here) (ord.listed c s (rw e at h)))
]

fresh_lem :
    (st : State) (queue : String → List ℕ) (x : Call)
    → IsOrdered st queue
    → (c : ℕ) → st.next_call + 1 ≤ c
    → at_number st.calls st.next_call x c ≡ absent
fresh_lem st queue x ord c h =
    let other : (c == st.next_call) ≡ false = ground arith in rw other (ord.fresh c (omega arith))

-- The session has no lock: one is made.
enter_new :
    (st : State) (queue : String → List ℕ) (s : String)
    → IsOrdered st queue
    → queue s ≡ []
    → IsOrdered
        (arrived s st.next_lock (with_new_lock st))
        (at_session queue s ([] ++ st.next_call ∷ []))
enter_new st queue s ord here =
    let n = st.next_call in
    let o = st.next_lock in
    let st' = arrived s o (with_new_lock st) in
    let gone : st.calls n ≡ absent = ord.fresh n (omega arith) in
    move-IsOrdered st queue s n (n + 1) (o + 1) (waiting s o ((with_new_lock st).heap o).tail)
      st'.heap st'.session_locks (n ∷ []) ord
      (record {
        own = record {
          object = o;
          found = rw (eq_refl s) refl;
          allocated = omega arith;
          lock = rw (nat_refl o) (ground arith);
          leads = inr (none, rw (nat_refl n, nat_refl o) refl, tt);
          rest = tt;
        };
        of_session = λ t h. let no : none ≡ some t = sym (ap session_of gone) ∙ h in cc;
        live = λ h. let no : absent ≡ finished = sym gone ∙ h in cc;
        heap_kept = λ t p other h.
            let under : p < o = allocated_lem st t p (queue t) (ord.queues t) h in
            let apart : (p == o) ≡ false = ground arith in rw apart refl;
        grows = omega arith;
        locks_kept = λ t other. rw (session_apart t s other) refl;
        own_lock = λ t p other h h'.
            let under : p < o = allocated_lem st t p (queue t) (ord.queues t) h' in
            let found : some o ≡ some p = rw (eq_refl s) at h in
            let same : o ≡ p = cc in absurd (omega arith);
        own_listed = listed_lem st queue s _ [] ord here;
        new_session = λ t h. cc;
        new_fresh = fresh_lem st queue _ ord;
      })

-- The session has a lock, whose object ends in the promise of its last call.
enter_queued :
    (st : State) (queue : String → List ℕ) (s : String) (d : ℕ) (l : List ℕ) (o : ℕ)
    → IsOrdered st queue
    → queue s ≡ d ∷ l
    → st.session_locks s ≡ some o
    → IsOrdered (arrived s o st) (at_session queue s ((d ∷ l) ++ st.next_call ∷ []))
enter_queued st queue s d l o ord here locked =
    let n = st.next_call in
    let st' = arrived s o st in
    let q : Queued st s d l = subst (QueueOf st s) here (ord.queues s) in
    let same : q.object ≡ o = let e : some q.object ≡ some o = sym q.found ∙ locked in cc in
    let lock : st.heap o ≡ record { tail = some (last d l); pending = suc (length l) } =
      rw (← same) q.lock in
    let gone : st.calls n ≡ absent = ord.fresh n (omega arith) in
    let out : has n (d ∷ l) ≡ false = has_of_absent st s n (d ∷ l) q gone in
    let live : st.calls n ≢ finished = λ h. let no : absent ≡ finished = sym gone ∙ h in cc in
    let x = waiting s o (st.heap o).tail in
    move-IsOrdered st queue s n (n + 1) st.next_lock x st'.heap st'.session_locks (d ∷ l ++ n ∷ [])
      ord
      (record {
        own = record {
          object = o;
          found = rw (eq_refl s) refl;
          allocated = rw (← same) q.allocated;
          lock =
              rw (nat_refl o, lock, last-append d n l) (ground (arith, length-append l (n ∷ [])));
          leads =
              Leads-frame st.calls x s o d n (ground arith) live
                (subst (λ p. Leads st.calls s p d) same q.leads);
          rest =
              Waits-append (at_number st.calls n x) s o d n l
                (last_before_next st queue s d l ord q) (rw (nat_refl n, lock) refl)
                (Waits-frame st.calls x s o d n l (ground arith)
                  (subst (λ p. Waits st.calls s p d l) same q.rest));
        };
        of_session = λ t h. let no : none ≡ some t = sym (ap session_of gone) ∙ h in cc;
        live = live;
        heap_kept = λ t p other h.
            let apart : (p == o) ≡ false = elim (Bool-cases (p == o)) [
              | inr e ↦ e
              | inl e ↦ absurd (other (ord.distinct t s o (rw (← (nat_beq_iff p o).0 e) h) locked))
            ] in
            rw apart refl;
        grows = omega arith;
        locks_kept = λ t other. rw (session_apart t s other) refl;
        own_lock = λ t p other h h'.
            let found : some o ≡ some p = rw (eq_refl s) at h in
            let same' : some p ≡ some o = sym found in
            other (ord.distinct t s o (h' ∙ same') locked);
        own_listed = listed_lem st queue s x (d ∷ l) ord here;
        new_session = λ t h. cc;
        new_fresh = fresh_lem st queue x ord;
      })

-- Who arrives goes to the end of the queue.
pub enter-IsOrdered :
    (st : State) (queue : String → List ℕ) (s : String)
    → IsOrdered st queue
    → IsOrdered (enter s st) (at_session queue s (queue s ++ st.next_call ∷ []))
unfolding enter
enter-IsOrdered st queue s ord = go (queue s) refl (ord.queues s) (st.session_locks s) refl
  where
    go :
        (l : List ℕ)
        → queue s ≡ l
        → QueueOf st s l
        → (o : Option ℕ) → st.session_locks s ≡ o
        → IsOrdered (enter_found s st o) (at_session queue s (l ++ st.next_call ∷ []))
    go [] here q none e = enter_new st queue s ord here
    go [] here q (some o) e = let no : none ≡ some o = sym q ∙ e in cc
    go (d ∷ l) here q none e = let no : some q.object ≡ none = sym q.found ∙ e in cc
    go (d ∷ l) here q (some o) e = enter_queued st queue s d l o ord here e
