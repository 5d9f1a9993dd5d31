-- ===== src/Peer/Closing.antt =====
-- internal/peer/connection.go: the teardown callback of a connection, which its installation races with
-- the end of the connection. A callback is a number; what runs is the list of the callbacks called.
use mathlib.Core.List.{append-nil}
use bitbang_cli.Prelude.{
  false, List, Bool, Option, true, ◌≡◌, none, ℕ, ◌∷◌, [], if◌then◌else◌, not, some, ◌++◌, arith,
  refl,
}

pub record Closing : Type 0 where
  pub closed : Bool
  pub on_close_set : Bool
  pub on_close : Option ℕ

unfoldable pub open_connection : Closing
open_connection = record { closed = false; on_close_set = false; on_close = none }

-- `if fn != nil { fn() }`
unfoldable pub call : Option ℕ → List ℕ
call none = []
call (some fn) = fn ∷ []

unfoldable pub set_on_close : Option ℕ → Closing → Closing × List ℕ
unfolding call
set_on_close fn c =
    let marked : Closing = record c { on_close_set = true } in
    if c.on_close_set
    then (c, [])
    else if not c.closed
    then (record marked { on_close = fn }, [])
    else (marked, call fn)

unfoldable pub fire_close : Closing → Closing × List ℕ
unfolding call
fire_close c = if c.closed then (c, []) else (record c { closed = true }, call c.on_close)

-- The calls of the two methods, in the order in which they take the lock. `fired` is every path that
-- ends the connection: the data channel's close, a terminal state, and `Close`.
pub data Event : Type 0 where
  installed : Option ℕ → Event
  fired : Event

unfoldable pub closing_step : Event → Closing → Closing × List ℕ
unfolding set_on_close fire_close
closing_step (installed fn) c = set_on_close fn c
closing_step fired c = fire_close c

unfoldable pub closing_run : List Event → Closing → Closing × List ℕ
unfolding closing_step
closing_run [] c = (c, [])
closing_run (e ∷ es) c =
    let one = closing_step e c in let rest = closing_run es one.0 in (rest.0, one.1 ++ rest.1)

-- The callback that is installed first; later ones are ignored.
abbrev pub first_installed : List Event → List ℕ
first_installed [] = []
first_installed (installed fn ∷ es) = call fn
first_installed (fired ∷ es) = first_installed es

abbrev pub ends : List Event → Bool
ends [] = false
ends (installed fn ∷ es) = ends es
ends (fired ∷ es) = true

-- Both have happened, so nothing runs any more.
settled :
    (es : List Event) (c : Closing)
    → c.closed ≡ true
    → c.on_close_set ≡ true
    → (closing_run es c).1 ≡ []
unfolding closing_run closing_step set_on_close fire_close
settled [] c h k = refl
settled (installed fn ∷ es) c h k = ground (arith, settled es c h k)
settled (fired ∷ es) c h k = ground (arith, settled es c h k)

-- It has ended before a callback was installed.
ended_first :
    (es : List Event) (c : Closing)
    → c.closed ≡ true
    → c.on_close_set ≡ false
    → (closing_run es c).1 ≡ first_installed es
unfolding closing_run closing_step set_on_close fire_close
ended_first [] c h k = refl
ended_first (installed fn ∷ es) c h k =
    ground (arith, settled es (record c { on_close_set = true }) h refl, append-nil (call fn))
ended_first (fired ∷ es) c h k = ground (arith, ended_first es c h k)

-- A callback was installed, and it has not ended yet.
installed_first :
    (es : List Event) (c : Closing)
    → c.closed ≡ false
    → c.on_close_set ≡ true
    → (closing_run es c).1 ≡ (if ends es then call c.on_close else [])
unfolding closing_run closing_step set_on_close fire_close
installed_first [] c h k = refl
installed_first (installed fn ∷ es) c h k = ground (arith, installed_first es c h k)
installed_first (fired ∷ es) c h k =
    ground (arith, settled es (record c { closed = true }) refl k, append-nil (call c.on_close))

-- However installations and ends of a new connection are ordered, the callback that is installed first
-- runs once if the connection ends, before the installation or after it, and nothing else runs.
pub closing_run_once :
    (es : List Event)
    → (closing_run es open_connection).1 ≡ (if ends es then first_installed es else [])
unfolding closing_run closing_step set_on_close fire_close open_connection
closing_run_once [] = refl
closing_run_once (installed fn ∷ es) =
    installed_first es (record { closed = false; on_close_set = true; on_close = fn }) refl refl
closing_run_once (fired ∷ es) =
    ended_first es (record { closed = true; on_close_set = false; on_close = none }) refl refl
