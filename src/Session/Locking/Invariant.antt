-- ===== src/Session/Locking/Invariant.antt =====
-- The queues stand after every step.
use clutch.Prelude.{
  ℕ, suc, ◌-◌, ◌≤◌, ◌≡◌, ◌≢◌, inl, inr, refl, sym, ap, ◌∙◌, subst, String, true, false, none, some,
  List, [], ◌∷◌, length, ◌==◌, nat_eq, string_eq, nat_beq_iff, eq_refl, arith, Bool-cases,
}
use clutch.Session.Locking.System.{
  Lock, Call, absent, finished, running, State, at_number, at_session, initial, proceed, release,
  Step, enters, begins, finishes, Reach, start, next,
}
use clutch.Session.Locking.Queue.{has, last, session_of, Waits, Queued, Waits-frame}
use clutch.Session.Locking.Moves.{IsOrdered, move-IsOrdered}
use clutch.Session.Locking.Entering.{nat_refl, session_apart, enter-IsOrdered}
use clutch.Session.Locking.Leaving.{IsFirst, running-IsFirst, Resolved-IsFirst, not_behind_itself}

-- What holds of any call that has arrived and not left.
only_session :
    (st : State) (s : String) (c : ℕ)
    → session_of (st.calls c) ≡ some s
    → (t : String) → session_of (st.calls c) ≡ some t
    → t ≡ s
only_session st s c e t h = let same : some t ≡ some s = sym h ∙ e in cc

not_finished :
    (st : State) (s : String) (c : ℕ) → session_of (st.calls c) ≡ some s → st.calls c ≢ finished
not_finished st s c e over = let no : none ≡ some s = sym (ap session_of over) ∙ e in cc

still_fresh :
    (st : State) (queue : String → List ℕ) (s : String) (c : ℕ) (x : Call)
    → IsOrdered st queue
    → session_of (st.calls c) ≡ some s
    → (d : ℕ) → st.next_call ≤ d
    → at_number st.calls c x d ≡ absent
still_fresh st queue s c x ord e d over = elim (Bool-cases (d == c)) [
  | inr other ↦ rw other (ord.fresh d over)
  | inl here ↦
      let gone : st.calls c ≡ absent = rw (← (nat_beq_iff d c).0 here) (ord.fresh d over) in
      let no : none ≡ some s = sym (ap session_of gone) ∙ e in cc
]

still_listed :
    (st : State) (queue : String → List ℕ) (s : String) (c : ℕ) (x : Call) (l : List ℕ)
    → IsOrdered st queue
    → queue s ≡ c ∷ l
    → (d : ℕ) → session_of (at_number st.calls c x d) ≡ some s
    → has d (c ∷ l) ≡ true
still_listed st queue s c x l ord here d h = elim (Bool-cases (d == c)) [
  | inl e ↦ ground (arith, nat_beq_iff d c, nat_beq_iff c d)
  | inr other ↦ subst (λ m. has d m ≡ true) here (ord.listed d s (rw other at h))
]

-- Who has left is not listed.
left_listed :
    (st : State) (queue : String → List ℕ) (s : String) (c : ℕ) (l : List ℕ)
    → IsOrdered st queue
    → queue s ≡ c ∷ l
    → (d : ℕ) → session_of (at_number st.calls c finished d) ≡ some s
    → has d l ≡ true
left_listed st queue s c l ord here d h = elim (Bool-cases (d == c)) [
  | inl e ↦ let no : none ≡ some s = rw e at h in cc
  | inr other ↦
      let there : has d (c ∷ l) ≡ true =
        subst (λ m. has d m ≡ true) here (ord.listed d s (rw other at h)) in
      ground (arith, nat_beq_iff d c, nat_beq_iff c d)
]

-- A session's lock is no other's.
others_heap :
    (st : State) (queue : String → List ℕ) (s : String) (o : ℕ)
    → IsOrdered st queue
    → st.session_locks s ≡ some o
    → (lock : Lock) (t : String) (p : ℕ) → t ≢ s
    → st.session_locks t ≡ some p
    → at_number st.heap o lock p ≡ st.heap p
others_heap st queue s o ord locked lock t p other h = elim (Bool-cases (p == o)) [
  | inr apart ↦ rw apart refl
  | inl e ↦ absurd (other (ord.distinct t s o (rw (← (nat_beq_iff p o).0 e) h) locked))
]

proceed_first :
    (st : State) (queue : String → List ℕ) (s : String) (o c : ℕ)
    → IsOrdered st queue
    → session_of (st.calls c) ≡ some s
    → (f : IsFirst st queue s o c)
    → IsOrdered (proceed c s o st) (at_session queue s (c ∷ f.others))
unfolding proceed
proceed_first st queue s o c ord e f =
    let q = f.queued in
    let x = running s o in
    move-IsOrdered st queue s c st.next_call st.next_lock x st.heap st.session_locks (c ∷ f.others)
      ord
      (record {
        own = record {
          object = q.object;
          found = q.found;
          allocated = q.allocated;
          lock = q.lock;
          leads = inl (rw (nat_refl c, f.same_object) refl);
          rest =
              Waits-frame st.calls x s q.object c c f.others
                (not_behind_itself st.calls s q.object c f.others q.rest) q.rest;
        };
        of_session = only_session st s c e;
        live = not_finished st s c e;
        heap_kept = λ t p other h. refl;
        grows = omega arith;
        locks_kept = λ t other. refl;
        own_lock = λ t p other h h'. other (ord.distinct t s p h' h);
        own_listed = still_listed st queue s c x f.others ord f.here;
        new_session = λ t h. let same : some s ≡ some t = h in cc;
        new_fresh = still_fresh st queue s c x ord e;
      })

-- The last call of a session takes the lock away.
release_last :
    (st : State) (queue : String → List ℕ) (s : String) (o c : ℕ)
    → IsOrdered st queue
    → session_of (st.calls c) ≡ some s
    → queue s ≡ c ∷ []
    → Queued st s c []
    → st.heap o ≡ record { tail = some c; pending = 1 }
    → st.session_locks s ≡ some o
    → IsOrdered (release c s o st) (at_session queue s [])
unfolding release
release_last st queue s o c ord e here q lock locked =
    let over : ((st.heap o).pending - 1 == 0) ≡ true = rw lock refl in
    let st' = release c s o st in
    move-IsOrdered st queue s c st.next_call st.next_lock finished st'.heap st'.session_locks [] ord
      (record {
        own = rw (over, eq_refl s) refl;
        of_session = only_session st s c e;
        live = not_finished st s c e;
        heap_kept = λ t p other h. others_heap st queue s o ord locked _ t p other h;
        grows = omega arith;
        locks_kept = λ t other. rw (over, session_apart t s other) refl;
        own_lock = λ t p other h h'. let no : none ≡ some p = rw (over, eq_refl s) at h in cc;
        own_listed = left_listed st queue s c [] ord here;
        new_session = λ t h. cc;
        new_fresh = still_fresh st queue s c finished ord e;
      })

-- Another call of the session leaves it to the one behind.
release_next :
    (st : State) (queue : String → List ℕ) (s : String) (o c d : ℕ) (l : List ℕ)
    → IsOrdered st queue
    → session_of (st.calls c) ≡ some s
    → queue s ≡ c ∷ d ∷ l
    → (q : Queued st s c (d ∷ l)) → q.object ≡ o
    → st.heap o ≡ record { tail = some (last d l); pending = suc (suc (length l)) }
    → st.session_locks s ≡ some o
    → IsOrdered (release c s o st) (at_session queue s (d ∷ l))
unfolding release
release_next st queue s o c d l ord e here q same lock locked =
    let more : ((st.heap o).pending - 1 == 0) ≡ false = rw lock (ground arith) in
    let st' = release c s o st in
    let (after, (waits, w)) = subst (λ p. Waits st.calls s p c (d ∷ l)) same q.rest in
    let apart : (d == c) ≡ false = ground arith in
    let out : has c (d ∷ l) ≡ false = not_behind_itself st.calls s q.object c (d ∷ l) q.rest in
    move-IsOrdered st queue s c st.next_call st.next_lock finished st'.heap st'.session_locks
      (d ∷ l) ord
      (record {
        own = record {
          object = o;
          found = rw more locked;
          allocated = rw (← same) q.allocated;
          lock = rw (nat_refl o, lock) (ground arith);
          leads = inr (some c, rw apart waits, rw (nat_refl c) refl);
          rest = Waits-frame st.calls finished s o d c l (ground arith) w;
        };
        of_session = only_session st s c e;
        live = not_finished st s c e;
        heap_kept = λ t p other h. others_heap st queue s o ord locked _ t p other h;
        grows = omega arith;
        locks_kept = λ t other. rw more refl;
        own_lock = λ t p other h h'. other (ord.distinct t s p h' (rw more at h));
        own_listed = left_listed st queue s c (d ∷ l) ord here;
        new_session = λ t h. cc;
        new_fresh = still_fresh st queue s c finished ord e;
      })

release_first :
    (st : State) (queue : String → List ℕ) (s : String) (o c : ℕ)
    → IsOrdered st queue
    → session_of (st.calls c) ≡ some s
    → (f : IsFirst st queue s o c) → IsOrdered (release c s o st) (at_session queue s f.others)
release_first st queue s o c ord e f = go f.others f.here f.queued f.same_object
  where
    go :
        (l : List ℕ)
        → queue s ≡ c ∷ l
        → (q : Queued st s c l) → q.object ≡ o
        → IsOrdered (release c s o st) (at_session queue s l)
    go [] here q same =
        release_last st queue s o c ord e here q (rw (← same) q.lock) (q.found ∙ ap some same)
    go (d ∷ l) here q same =
        release_next st queue s o c d l ord e here q same (rw (← same) q.lock)
          (q.found ∙ ap some same)

Step-IsOrdered :
    (st st' : State) (queue : String → List ℕ)
    → IsOrdered st queue
    → Step st st'
    → (queue' : String → List ℕ) × IsOrdered st' queue'
Step-IsOrdered st _ queue ord (enters s) = (_, enter-IsOrdered st queue s ord)
Step-IsOrdered st _ queue ord (begins c s o p e done) = (
  _,
  proceed_first st queue s o c ord (ap session_of e) (Resolved-IsFirst st queue s o c p ord e done),
)
Step-IsOrdered st _ queue ord (finishes c s o e) =
    (_, release_first st queue s o c ord (ap session_of e) (running-IsFirst st queue s o c ord e))

initial-IsOrdered : IsOrdered initial (λ s. [])
initial-IsOrdered = record {
  queues = λ s. refl;
  distinct = λ s t o h h'. cc;
  listed = λ c s h. cc;
  fresh = λ c h. refl;
}

pub Reach-IsOrdered : {st : State} → Reach st → (queue : String → List ℕ) × IsOrdered st queue
Reach-IsOrdered start = (λ s. [], initial-IsOrdered)
Reach-IsOrdered (next {st} {st'} r step) =
    let (queue, ord) = Reach-IsOrdered r in Step-IsOrdered st st' queue ord step
