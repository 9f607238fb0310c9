-- ===== src/Social/Replay.antt =====
-- A state logs in once.
use clutch.Prelude.{ℕ, ◌≡◌, refl, sym, ap, ◌∙◌, String, true, false, some, List, All, arith}
use clutch.Prelude.Map.{IsUnique}
use clutch.Database.Table.{Table}
use clutch.Accounts.Types.{conflicts}
use clutch.OAuth.StateStore.{consume}
use clutch.OAuth.Once.{Call, Avoids, run_calls, consume-consume_once}
use clutch.Providers.Types.{Result, ok, err, is_ok}
use clutch.Providers.Names.{SocialReason}
use clutch.Social.Types.{user_conflicts, CallbackInput, CallbackResult}
use clutch.Social.Usernames.{given}
use clutch.Social.Service.{Outside, Draws, World, complete_callback}
use clutch.Social.Outcome.{complete_callback_ok}

module _ (Users : Table user_conflicts) (Accounts : Table conflicts) (outside outside' : Outside)
    (draws draws' : Draws) (now later : ℕ) where
  answered_twice :
      (input input' : CallbackInput) (w w' : World Users Accounts) (cs : List (ℕ × Call))
      (result result' : CallbackResult) (k : String)
      → IsUnique w.states
      → (given input.state ≡ some k)
      → (given input'.state ≡ some k)
      → All (λ c. Avoids k c.1) cs
      → let first = complete_callback Users Accounts outside draws now input w in
        w'.states ≡ run_calls cs first.0.states
        → first.1 ≡ ok result
        → (complete_callback Users Accounts outside' draws' later input' w').1 ≡ ok result'
        → ⊥
  answered_twice input input' w w' cs result result' k unique state state' fresh between h h' =
      let (_, a, _) = complete_callback_ok Users Accounts outside draws now input w result h in
      let (_, a', _) =
        complete_callback_ok Users Accounts outside' draws' later input' w' result' h' in
      let same : a.state ≡ k = ground (arith, a.has_state) in
      let same' : a'.state ≡ k = ground (arith, a'.has_state) in
      let history : w'.states ≡ run_calls cs (consume now k w.states).0 =
        between ∙ ap (run_calls cs) (a.spent ∙ ap (λ s. (consume now s w.states).0) same) in
      let accepted : (consume later k w'.states).1 ≡ true =
        ap (λ s. (consume later s w'.states).1) (sym same') ∙ a'.unspent in
      let spent : (consume later k w'.states).1 ≡ false =
        ap (λ s. (consume later k s).1) history
        ∙ consume-consume_once k now later cs w.states unique fresh in
      cc

  -- A state logs in once: after a callback that was answered with a user, no later callback with its
  -- state is, by whatever provider, code and world, as long as the store of states holds what the first
  -- call and calls that do not store that state again have left.
  pub complete_callback_once :
      (input input' : CallbackInput) (w w' : World Users Accounts) (cs : List (ℕ × Call))
      (result : CallbackResult) (k : String)
      → IsUnique w.states
      → given input.state ≡ some k
      → given input'.state ≡ some k
      → All (λ c. Avoids k c.1) cs
      → let first = complete_callback Users Accounts outside draws now input w in
        w'.states ≡ run_calls cs first.0.states
        → first.1 ≡ ok result
        → is_ok (complete_callback Users Accounts outside' draws' later input' w').1 ≡ false
  complete_callback_once input input' w w' cs result k unique state state' fresh between h =
      go (complete_callback Users Accounts outside' draws' later input' w').1 refl
    where
      go :
          (r : Result SocialReason CallbackResult)
          → (complete_callback Users Accounts outside' draws' later input' w').1 ≡ r
          → is_ok r ≡ false
      go (err e) _ = refl
      go (ok result') h' = absurd (
          answered_twice input input' w w' cs result result' k unique state state' fresh between h
            h')
