-- ===== src/PeerSet/Deadline.antt =====
-- internal/peerset/peerset.go: the deadline of a half-connected peer. The timer's callback and Done
-- race for one flag; each compare-and-swap is one step.
use bitbang_cli.Prelude.{false, List, Bool, if◌then◌else◌, ◌≡◌, ◌∷◌, true, ℕ, refl, ◌+◌, [], arith}

-- `done` is the flag, `stopped` says that the timer was told to stop, and `expired` counts the calls of
-- `expire`.
pub record Deadline : Type 0 where
  pub done : Bool
  pub stopped : Bool
  pub expired : ℕ

unfoldable pub new_deadline : Deadline
new_deadline = record { done = false; stopped = false; expired = 0 }

-- The timer's callback.
unfoldable pub fire : Deadline → Deadline
fire d = if d.done then d else record d { done = true; expired = d.expired + 1 }

unfoldable pub finish : Deadline → Deadline
finish d = if d.done then d else record d { done = true; stopped = true }

pub data Attempt : Type 0 where
  fires finishes : Attempt

unfoldable pub attempts : List Attempt → Deadline → Deadline
unfolding fire finish
attempts [] d = d
attempts (fires ∷ as_) d = attempts as_ (fire d)
attempts (finishes ∷ as_) d = attempts as_ (finish d)

attempts_done : (as_ : List Attempt) (d : Deadline) → d.done ≡ true → attempts as_ d ≡ d
unfolding attempts
attempts_done [] d h = refl
attempts_done (fires ∷ as_) d h = ground (arith, attempts_done as_ d h)
attempts_done (finishes ∷ as_) d h = ground (arith, attempts_done as_ d h)

-- However the timer's callback and the calls of Done interleave, the first of them wins: `expire` runs
-- once if that is the callback, and the timer is stopped and `expire` never runs if it is Done.
pub attempts_race :
    (first : Attempt) (rest : List Attempt)
    → attempts (first ∷ rest) new_deadline ≡ elim first [
      | fires ↦ record { done = true; stopped = false; expired = 1 }
      | finishes ↦ record { done = true; stopped = true; expired = 0 }
    ]
unfolding attempts new_deadline
attempts_race fires rest = attempts_done rest _ refl
attempts_race finishes rest = attempts_done rest _ refl
