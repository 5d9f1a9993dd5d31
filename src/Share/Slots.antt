-- ===== src/Share/Slots.antt =====
-- internal/share/worker_peer.go: the slots of the two roles. A release function is a closure with a
-- `sync.Once`; the cells of those are one list, and a release names its cell.
use Prim.Native.Nat.{ℕ, suc}
use bitbang_cli.Prelude.{
  if◌then◌else◌, Option, ℕ, List, Text, Bool, none, not, ◌-◌, leb, some, is_empty, ◌+◌, true, ◌∷◌,
  ◌==◌, ◌++◌, suc, false, [], length, zero,
}

pub data Role : Type 0 where
  control_role view_role : Role

-- What `release()` will do: the cell of its `sync.Once`, the pool it gives back to, and the peer whose
-- keyboard it is.
pub record Release : Type 0 where
  pub once : ℕ
  pub role : Role
  pub owner : ℕ

-- The holder is a pointer to a peer; `disabled` is non-empty when nobody may hold the slot.
pub record ControlSlot : Type 0 where
  pub holder : Option ℕ
  pub disabled : Text

pub record RoleSlots : Type 0 where
  pub used : ℕ
  pub max : ℕ
  pub busy : Text

-- `onces`: whether the cell's function has run.
pub record Slots : Type 0 where
  pub control : ControlSlot
  pub viewers : RoleSlots
  pub onces : List Bool

unfoldable pub new_control_slot : Text → ControlSlot
new_control_slot disabled = record { holder = none; disabled = disabled }

unfoldable pub new_role_slots : ℕ → Text → RoleSlots
new_role_slots max busy = record { used = 0; max = max; busy = busy }

-- What `take_control` and `acquire` answer: a release, or the refusal.
abbrev pub Grant : Type 0
Grant = Option Release × Text

unfoldable pub take_control : ℕ → Slots → Slots × (Grant × Option ℕ)
take_control p s =
    let refusal : Grant = (none, s.control.disabled) in
    let given : Grant =
      (some (record { once = length s.onces; role = control_role; owner = p }), []) in
    if not (is_empty s.control.disabled) then (s, (refusal, none)) else (
      record s { control = record s.control { holder = some p }; onces = s.onces ++ (false ∷ []) },
      (given, s.control.holder),
    )

unfoldable pub acquire : ℕ → Slots → Slots × Grant
acquire p s = if leb s.viewers.max s.viewers.used then (s, (none, s.viewers.busy)) else (
  record s {
    viewers = record s.viewers { used = s.viewers.used + 1 };
    onces = s.onces ++ (false ∷ []);
  },
  (some (record { once = length s.onces; role = view_role; owner = p }), []),
)

unfoldable pub has_run : ℕ → List Bool → Bool
has_run k [] = true
has_run zero (o ∷ os) = o
has_run (suc k) (o ∷ os) = has_run k os

unfoldable pub set_run : ℕ → List Bool → List Bool
set_run k [] = []
set_run zero (o ∷ os) = true ∷ os
set_run (suc k) (o ∷ os) = o ∷ set_run k os

-- Only the holder gives the keyboard up.
unfoldable pub give_up : ℕ → ControlSlot → ControlSlot
give_up p c = elim c.holder [ none ↦ c | some q ↦ if q == p then record c { holder = none } else c ]

-- `used--` on an `int`: that it is not 0 there is proved with the worker.
unfoldable pub release : Release → Slots → Slots
unfolding has_run set_run give_up
release r s = if has_run r.once s.onces then s else elim r.role [
  | control_role ↦ record s { control = give_up r.owner s.control; onces = set_run r.once s.onces }
  | view_role ↦ record s {
    viewers = record s.viewers { used = s.viewers.used - 1 };
    onces = set_run r.once s.onces;
  }
]
