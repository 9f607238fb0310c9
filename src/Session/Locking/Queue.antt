-- ===== src/Session/Locking/Queue.antt =====
-- The calls of one session that have not left form a queue.
use clutch.Prelude.{
  ℕ, suc, ◌<◌, ◌≡◌, ◌≢◌, ◌⊎◌, inl, inr, refl, String, Bool, true, false, Option, none, some, List,
  [], ◌∷◌, ◌++◌, any, length, ◌==◌, nat_eq, nat_beq_iff, arith, Bool-cases,
}
use clutch.Session.Locking.System.{
  Call, absent, finished, waiting, running, State, at_number, Resolved,
}

abbrev pub has : ℕ → List ℕ → Bool
has c l = any (λ d. d == c) l

-- The last element of the list that follows a number, or that number.
abbrev pub last : ℕ → List ℕ → ℕ
last c [] = c
last c (d ∷ l) = last d l

-- The session that a call waits or runs for.
abbrev pub session_of : Call → Option String
session_of absent = none
session_of finished = none
session_of (waiting s o p) = some s
session_of (running s o) = some s

-- Each call waits for the one before it, which came earlier.
abbrev pub Waits : (ℕ → Call) → String → ℕ → ℕ → List ℕ → Type 0
Waits calls s o previous [] = Unit {0}
Waits calls s o previous (c ∷ l) =
    (previous < c) × ((calls c ≡ waiting s o (some previous)) × Waits calls s o c l)

-- The first call runs, or can go on.
abbrev pub Leads : (ℕ → Call) → String → ℕ → ℕ → Type 0
Leads calls s o c =
    (calls c ≡ running s o) ⊎ ((p : Option ℕ) × (calls c ≡ waiting s o p) × Resolved calls p)

-- The session has a lock: its object counts the calls and ends in the promise of the last.
pub record Queued (st : State) (s : String) (c : ℕ) (l : List ℕ) : Type 0 where
  pub object : ℕ
  pub found : st.session_locks s ≡ some object
  pub allocated : object < st.next_lock
  pub lock : st.heap object ≡ record { tail = some (last c l); pending = suc (length l) }
  pub leads : Leads st.calls s object c
  pub rest : Waits st.calls s object c l

abbrev pub QueueOf : State → String → List ℕ → Type 0
QueueOf st s [] = st.session_locks s ≡ none
QueueOf st s (c ∷ l) = Queued st s c l

pub Waits-has :
    (calls : ℕ → Call) (s : String) (o previous c : ℕ) (l : List ℕ)
    → Waits calls s o previous l
    → has c l ≡ true
    → (q : ℕ) × (calls c ≡ waiting s o (some q))
      × (previous < c)
      × ((q ≡ previous) ⊎ (has q l ≡ true))
Waits-has calls s o previous c [] w h = cc
Waits-has calls s o previous c (d ∷ l) (later, (waits, w)) h = elim (Bool-cases (d == c)) [
  | inl e ↦
      let same : d ≡ c = (nat_beq_iff d c).0 e in
      (previous, rw (← same) waits, rw (← same) later, inl refl)
  | inr e ↦
      let (q, at, after, before) = Waits-has calls s o d c l w (ground arith) in
      (
        q,
        at,
        omega arith,
        elim before [
          | inl here ↦ inr (ground (arith, nat_beq_iff d q))
          | inr there ↦ inr (ground arith)
        ],
      )
]

pub Waits-frame :
    (calls : ℕ → Call) (x : Call) (s : String) (o previous n : ℕ) (l : List ℕ)
    → has n l ≡ false
    → Waits calls s o previous l
    → Waits (at_number calls n x) s o previous l
Waits-frame calls x s o previous n [] h w = tt
Waits-frame calls x s o previous n (d ∷ l) h (later, (waits, w)) =
    let other : (d == n) ≡ false = ground arith in
    (later, (rw other waits, Waits-frame calls x s o d n l (ground arith) w))

pub Waits-append :
    (calls : ℕ → Call) (s : String) (o previous n : ℕ) (l : List ℕ)
    → last previous l < n
    → calls n ≡ waiting s o (some (last previous l))
    → Waits calls s o previous l
    → Waits calls s o previous (l ++ n ∷ [])
Waits-append calls s o previous n [] after e w = (after, (e, tt))
Waits-append calls s o previous n (d ∷ l) after e (later, (waits, w)) =
    (later, (waits, Waits-append calls s o d n l after e w))

pub last-append : (c n : ℕ) (l : List ℕ) → last c (l ++ n ∷ []) ≡ n
last-append c n [] = refl
last-append c n (d ∷ l) = last-append d n l

pub has-append : (c n : ℕ) (l : List ℕ) → has c l ≡ true → has c (l ++ n ∷ []) ≡ true
has-append c n [] h = cc
has-append c n (d ∷ l) h = ground (arith, has-append c n l)

pub has-snoc : (n : ℕ) (l : List ℕ) → has n (l ++ n ∷ []) ≡ true
has-snoc n [] = ground (arith, nat_beq_iff n n)
has-snoc n (d ∷ l) = ground (arith, has-snoc n l)

pub last-has : (c : ℕ) (l : List ℕ) → (last c l ≡ c) ⊎ (has (last c l) l ≡ true)
last-has c [] = inl refl
last-has c (d ∷ l) = elim (last-has d l) [
  | inl e ↦ inr (ground (arith, nat_beq_iff d (last d l)))
  | inr h ↦ inr (ground arith)
]

pub Leads-frame :
    (calls : ℕ → Call) (x : Call) (s : String) (o c n : ℕ)
    → (c == n) ≡ false
    → calls n ≢ finished
    → Leads calls s o c
    → Leads (at_number calls n x) s o c
Leads-frame calls x s o c n other live (inl runs) = inl (rw other runs)
Leads-frame calls x s o c n other live (inr (none, waits, done)) = inr (none, rw other waits, tt)
Leads-frame calls x s o c n other live (inr (some m, waits, done)) = elim (Bool-cases (m == n)) [
  | inl e ↦ absurd (live (rw (← (nat_beq_iff m n).0 e) done))
  | inr e ↦ inr (some m, rw other waits, rw e done)
]
