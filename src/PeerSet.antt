-- ===== src/PeerSet.antt =====
-- internal/peerset/peerset.go: the registry of live peers and the handshake deadline. Each method runs
-- under the set's lock, so a method is one function and any interleaving is a sequence of calls.
pub mod Laws
pub mod Deadline
use Prim.Native.Nat.{ℕ}
use Prim.Native.String.{[]}
use bitbang_cli.Prelude.{
  Eq, Text, ℕ, [], List, Bool, ◌∷◌, map, false, true, Option, length, none, if◌then◌else◌, some,
  is_some, text_eq, ltb, ◌&&◌, leb,
}

-- The map is an association list with one entry for a client id; Go's map order is the list's.
pub record Set {ℓ} (T : Type ℓ) : Type ℓ where
  pub peers : List (Text × T)
  pub closed : Bool

module _ {ℓ} {T : Type ℓ} where
  unfoldable pub lookup : Text → List (Text × T) → Option T
  lookup id [] = none
  lookup id ((key, p) ∷ m) = if text_eq key id then some p else lookup id m

  unfoldable pub delete : Text → List (Text × T) → List (Text × T)
  delete id [] = []
  delete id ((key, p) ∷ m) =
      let rest = delete id m in if text_eq key id then rest else (key, p) ∷ rest

  unfoldable pub new : Set T
  new = record { peers = []; closed = false }

  -- `max` is an `int`; the model's `ℕ` leaves out the negative ones, which go the way of 0.
  unfoldable pub add_limited : Text → T → ℕ → Set T → Set T × Bool
  add_limited id p max s =
      if s.closed
      then (s, false)
      else if ltb 0 max && leb max (length s.peers)
      then (s, false)
      else if is_some (lookup id s.peers)
      then (s, false)
      else (record s { peers = (id, p) ∷ s.peers }, true)

  unfoldable pub add : Text → T → Set T → Set T × Bool
  add id p s = add_limited id p 0 s

  unfoldable pub get : Text → Set T → Option T
  get id s = lookup id s.peers

  unfoldable pub has : Text → Set T → Bool
  has id s = is_some (lookup id s.peers)

  unfoldable pub all : Set T → List T
  all s = map (λ e. e.1) s.peers

  unfoldable pub close : Set T → Set T × List T
  close s = (record s { closed = true; peers = [] }, all s)

  unfoldable pub len : Set T → ℕ
  len s = length s.peers

-- `forget` compares peers by Go's `==`.
module _ {ℓ} {T : Type ℓ} ⦃e : Eq T⦄ where
  unfoldable pub forget : Text → T → Set T → Set T
  forget id p s = elim (lookup id s.peers) [
    | none ↦ s
    | some current ↦ if e.beq current p then record s { peers = delete id s.peers } else s
  ]
