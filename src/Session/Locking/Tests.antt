-- ===== src/Session/Locking/Tests.antt =====
-- Runs of the lock, and its theorems at concrete inputs.
use clutch.Prelude.{ℕ, ◌≤◌, ◌<◌, ◌≡◌, ◌↔◌, ◌⊎◌, refl, String, none, some}
use clutch.Session.Locking.System.{
  State, initial, waiting, enter, proceed, release, enters, begins, Reach, start, next,
}
use clutch.Session.Locking.Exclusion.{IsPending, CanMove, running_earliest, session_progress}
use clutch.Session.Locking.Drain.{Drain, still, further, Goes, goes_on, leaves, work, drain_ends}

abbrev one_call : State
one_call = enter "s" initial

abbrev two_calls : State
two_calls = enter "s" one_call

abbrev first_runs : State
first_runs = proceed 0 "s" 0 two_calls

abbrev first_left : State
first_left = release 0 "s" 0 first_runs

two_calls_reached : Reach two_calls
two_calls_reached = next (next start (enters "s")) (enters "s")

first_goes : Drain 1 two_calls first_runs
unfolding enter
first_goes = further still (goes_on 0 "s" 0 none refl tt)

first_leaves : Drain 2 two_calls first_left
unfolding enter proceed first_goes
first_leaves = further first_goes (leaves 0 "s" 0 refl)

first_runs_reached : Reach first_runs
unfolding enter
first_runs_reached = next two_calls_reached (begins 0 "s" 0 none refl tt)

locks :
    (first_left.calls 1 ≡ waiting "s" 0 (some 0))
    × (first_left.session_locks "s" ≡ some 0)
    × ((release 1 "s" 0 (proceed 1 "s" 0 first_left)).session_locks "s" ≡ none)
unfolding enter proceed release
locks = (refl, refl, refl)

running_earliest_example : 0 ≤ 1
unfolding enter proceed
running_earliest_example = running_earliest first_runs "s" 0 0 1 first_runs_reached refl refl

session_progress_example :
    ((d : ℕ) → IsPending first_runs "s" d → (c : ℕ) × (c ≤ d) × CanMove first_runs "s" c)
    × ((first_runs.session_locks "s" ≡ none) ↔ ((d : ℕ) → IsPending first_runs "s" d → ⊥))
session_progress_example = session_progress first_runs "s" first_runs_reached

drain_ends_example :
    ((2 ≡ work two_calls.calls two_calls.next_call)
      × ((s : String) (c : ℕ) → IsPending first_left s c → ⊥))
    ⊎ ((2 < work two_calls.calls two_calls.next_call) × ((st : State) × Goes first_left st))
drain_ends_example = drain_ends 2 two_calls first_left two_calls_reached first_leaves
