-- ===== src/IdMap.antt =====
-- A Go map from stream ids, as an association list with one entry for an id.
use bitbang_cli.Prelude.{
  ℕ, List, [], ◌∷◌, Option, none, some, if◌then◌else◌, ◌==◌, ◌≡◌, arith, ◌≢◌, refl,
}

module _ {ℓ} {T : Type ℓ} where
  unfoldable pub lookup : ℕ → List (ℕ × T) → Option T
  lookup id [] = none
  lookup id ((key, t) ∷ m) = if key == id then some t else lookup id m

  unfoldable pub delete : ℕ → List (ℕ × T) → List (ℕ × T)
  delete id [] = []
  delete id ((key, t) ∷ m) = let rest = delete id m in if key == id then rest else (key, t) ∷ rest

  -- `m[id] = t`, and a write through a pointer that the map holds.
  unfoldable pub insert : ℕ → T → List (ℕ × T) → List (ℕ × T)
  unfolding delete
  insert id t m = (id, t) ∷ delete id m

  pub lookup-delete :
      (id key : ℕ) (m : List (ℕ × T))
      → lookup key (delete id m) ≡ (if id == key then none else lookup key m)
  unfolding lookup delete
  lookup-delete id key [] = ground arith
  lookup-delete id key ((k, t) ∷ m) = ground (arith, lookup-delete id key m)

  pub lookup-insert :
      (id key : ℕ) (t : T) (m : List (ℕ × T))
      → lookup key (insert id t m) ≡ (if id == key then some t else lookup key m)
  unfolding lookup insert
  lookup-insert id key t m = ground (arith, lookup-delete id key m)

  -- No id has two entries.
  abbrev pub Distinct : List (ℕ × T) → Type ℓ
  Distinct [] = Unit
  Distinct ((id, t) ∷ m) = (lookup id m ≡ none) × Distinct m

  pub delete-Distinct : (id : ℕ) (m : List (ℕ × T)) → Distinct m → Distinct (delete id m)
  unfolding delete
  delete-Distinct id [] h = tt
  delete-Distinct id ((k, t) ∷ m) h = ground (arith, delete-Distinct id m h.1, lookup-delete id k m)

  pub insert-Distinct : (id : ℕ) (t : T) (m : List (ℕ × T)) → Distinct m → Distinct (insert id t m)
  unfolding insert
  insert-Distinct id t m h = ground (arith, delete-Distinct id m h, lookup-delete id id m)

  -- Every id of the map satisfies the predicate.
  abbrev pub Keys {κ} : (ℕ → Type κ) → List (ℕ × T) → Type κ
  Keys P [] = Unit
  Keys P ((id, t) ∷ m) = P id × Keys P m

  pub delete-Keys {κ} :
      (P : ℕ → Type κ) (id : ℕ) (m : List (ℕ × T)) → Keys P m → Keys P (delete id m)
  unfolding delete
  delete-Keys P id [] h = tt
  delete-Keys P id ((k, t) ∷ m) h = ground (arith, delete-Keys P id m h.1)

  pub Keys-map {κ μ} :
      (P : ℕ → Type κ) (Q : ℕ → Type μ) (m : List (ℕ × T))
      → ((id : ℕ) → P id → Q id)
      → Keys P m
      → Keys Q m
  Keys-map P Q [] f h = tt
  Keys-map P Q ((id, t) ∷ m) f h = (f id h.0, Keys-map P Q m f h.1)

  -- An id that satisfies no key's predicate is not in the map.
  pub lookup-fresh {κ} :
      (P : ℕ → Type κ) (id : ℕ) (m : List (ℕ × T))
      → ((key : ℕ) → P key → key ≢ id)
      → Keys P m
      → lookup id m ≡ none
  unfolding lookup
  lookup-fresh P id [] f h = refl
  lookup-fresh P id ((k, t) ∷ m) f h = ground (arith, f k h.0, lookup-fresh P id m f h.1)
