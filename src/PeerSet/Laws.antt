-- ===== src/PeerSet/Laws.antt =====
-- What the registry promises: one peer for a client id, an exact limit, no eviction of a newer peer,
-- and nothing registered after Close.
use bitbang_cli.Prelude.{
  List, ℕ, Text, length, ◌≡◌, ◌∷◌, if◌then◌else◌, ◌≤◌, ◌⊎◌, Bool, none, arith, text_eq, [], true,
  ◌↔◌, text_eq_iff, false, ◌<◌, ◌&&◌, some, Eq, ap, Option-cases,
}
use bitbang_cli.PeerSet.{
  lookup, add_limited, delete, get, Set, Text, length, len, none, Bool, true, text_eq, false, some,
  Eq, new, forget, close,
}
use Prim.Native.Nat.{ℕ}

-- No client id has two entries.
abbrev pub Distinct {ℓ} : {T : Type ℓ} → List (Text × T) → Type ℓ
Distinct [] = Unit
Distinct ((id, p) ∷ m) = (lookup id m ≡ none) × Distinct m

module _ {ℓ} {T : Type ℓ} where
  lookup-delete :
      (id key : Text) (m : List (Text × T))
      → lookup key (delete id m) ≡ (if text_eq id key then none else lookup key m)
  unfolding lookup delete
  lookup-delete id key [] = ground arith
  lookup-delete id key ((k, p) ∷ m) =
      ground
        (arith, lookup-delete id key m, text_eq_iff k id, text_eq_iff id key, text_eq_iff k key)

  delete-Distinct : (id : Text) (m : List (Text × T)) → Distinct m → Distinct (delete id m)
  unfolding delete
  delete-Distinct id [] h = tt
  delete-Distinct id ((k, p) ∷ m) h = ground (arith, delete-Distinct id m h.1, lookup-delete id k m)

  length-delete : (id : Text) (m : List (Text × T)) → length (delete id m) ≤ length m
  unfolding delete
  length-delete id [] = omega arith
  length-delete id ((k, p) ∷ m) = ground (arith, length-delete id m)

  -- A call of Add with a limit answers true exactly when the set is open, the id is free and the limit,
  -- if there is one, is not reached; the id then names the new peer and every other id what it named.
  -- Otherwise the set is unchanged.
  pub add_limited_lem :
      (id key : Text) (p : T) (max : ℕ) (s : Set T)
      → let r : Set T × Bool = add_limited id p max s in
        ((r.1 ≡ true) ↔ ((s.closed ≡ false) × (get id s ≡ none) × ((max ≡ 0) ⊎ (len s < max))))
        × (get key r.0 ≡ (if r.1 && text_eq id key then some p else get key s))
        × (r.1 ≡ false → r.0 ≡ s)
  unfolding add_limited get len lookup
  add_limited_lem id key p max s = ground (arith)

-- What holds of a registry whose peers were all added with the same limit.
pub record IsRegistry {ℓ} {T : Type ℓ} (max : ℕ) (s : Set T) : Type ℓ where
  pub distinct : Distinct s.peers
  pub limited : (max ≡ 0) ⊎ (len s ≤ max)
  pub emptied : s.closed ≡ true → s.peers ≡ []

pub data Call {ℓ} (T : Type ℓ) : Type ℓ where
  adds : Text → T → Call T
  forgets : Text → T → Call T
  closes : Call T

module _ {ℓ} {T : Type ℓ} ⦃e : Eq T⦄ where
  unfoldable pub step : ℕ → Call T → Set T → Set T
  step max (adds id p) s = (add_limited id p max s).0
  step max (forgets id p) s = forget id p s
  step max closes s = (close s).0

  unfoldable pub run : ℕ → List (Call T) → Set T → Set T
  run max [] s = s
  run max (c ∷ cs) s = run max cs (step max c s)

  -- Forget removes the id exactly when it still names the peer in hand, and touches no other id.
  pub get-forget :
      (id key : Text) (p : T) (s : Set T)
      → get key (forget id p s) ≡ (
          if text_eq id key
          then elim (get id s) [
            | none ↦ none
            | some current ↦ if e.beq current p then none else some current
          ]
          else get key s)
  unfolding get forget
  get-forget id key p s = ground (arith, text_eq_iff id key, lookup-delete id key s.peers)

  forget-IsRegistry :
      (max : ℕ) (id : Text) (p : T) (s : Set T) → IsRegistry max s → IsRegistry max (forget id p s)
  unfolding forget len delete
  forget-IsRegistry max id p s v = ground (
    arith,
    delete-Distinct id s.peers v.distinct,
    length-delete id s.peers,
    λ (c : s.closed ≡ true). ap (delete id) (v.emptied c),
  )

  step-IsRegistry :
      (max : ℕ) (c : Call T) (s : Set T) → IsRegistry max s → IsRegistry max (step max c s)
  unfolding step add_limited close len
  step-IsRegistry max (adds id p) s v = ground (arith, Option-cases (lookup id s.peers))
  step-IsRegistry max (forgets id p) s v = forget-IsRegistry max id p s v
  step-IsRegistry max closes s v = ground arith

  run-IsRegistry :
      (max : ℕ) (cs : List (Call T)) (s : Set T) → IsRegistry max s → IsRegistry max (run max cs s)
  unfolding run
  run-IsRegistry max [] s v = v
  run-IsRegistry max (c ∷ cs) s v = run-IsRegistry max cs _ (step-IsRegistry max c s v)

new-IsRegistry {ℓ} : {T : Type ℓ} (max : ℕ) → IsRegistry max (new {T = T})
unfolding new len
new-IsRegistry max = ground arith

-- Over any sequence of calls on a new set, with one limit for all of its Adds, no client id has two
-- peers, the limit is never passed, and once the set is closed it stays empty.
pub run-new-IsRegistry {ℓ} :
    {T : Type ℓ} ⦃e : Eq T⦄ (max : ℕ) (cs : List (Call T))
    → IsRegistry max (run max cs (new {T = T}))
run-new-IsRegistry max cs = run-IsRegistry max cs new (new-IsRegistry max)
