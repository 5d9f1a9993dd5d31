-- ===== src/Tcp/Workers.antt =====
-- The goroutines of a session's TCP streams, and what `remove` does.
use bitbang_cli.Prelude.{
  ℕ, List, ◌≡◌, some, ◌-◌, All, ◌≢◌, none, ◌∷◌, Option-cases, length, on_if, arith, ◌+◌, inl, [],
  inr, ◌==◌, refl, Bool-cases,
}
use bitbang_cli.IdMap.{lookup, lookup-delete}
use bitbang_cli.Tcp.{Worker, TcpHandler, end_worker, remove, find_worker}

pub length-end_worker :
    (token : ℕ) (ws : List Worker) (w : Worker)
    → find_worker token ws ≡ some w
    → length ws ≡ 1 + length (end_worker token ws)
unfolding find_worker end_worker
length-end_worker token [] w h = absurd cc
length-end_worker token (x ∷ ws) w h = ground (arith, h, length-end_worker token ws w)

pub end_worker-All :
    (P : Worker → Type 0) (token : ℕ) (ws : List Worker) → All P ws → All P (end_worker token ws)
unfolding end_worker
end_worker-All P token [] h = tt
end_worker-All P token (x ∷ ws) h =
    on_if (All P) (x.token == token) _ _ (λ here. h.1)
      (λ other. (h.0, end_worker-All P token ws h.1))

pub find_worker-end_worker :
    (key token : ℕ) (ws : List Worker)
    → key ≢ token
    → find_worker key (end_worker token ws) ≡ find_worker key ws
unfolding find_worker end_worker
find_worker-end_worker key token [] apart = refl
find_worker-end_worker key token (x ∷ ws) apart =
    ground (arith, apart, find_worker-end_worker key token ws apart)

pub find_worker-none :
    (key token : ℕ) (ws : List Worker)
    → find_worker key ws ≡ none
    → find_worker key (end_worker token ws) ≡ none
unfolding find_worker end_worker
find_worker-none key token [] h = refl
find_worker-none key token (x ∷ ws) h = ground (arith, h, find_worker-none key token ws)

-- What `remove` leaves under an id was there before, and it is not the stream that is removed.
pub lookup-remove :
    (id want key token : ℕ) (h : TcpHandler)
    → lookup key (remove id want h).streams ≡ some token
    → (lookup key h.streams ≡ some token) × ((key ≡ id) → (token ≡ want) → ⊥)
unfolding remove
lookup-remove id want key token h found = elim (Option-cases (lookup id h.streams)) [
  | inl absent ↦ (ground (arith, absent, found), λ e k. ground (arith, absent, found, e))
  | inr (t, present) ↦ elim (Bool-cases (t == want)) [
    | inl mine ↦
        let left = lookup-delete id key h.streams in
        (
          ground (arith, present, mine, found, left),
          λ e k. ground (arith, present, mine, found, left, e),
        )
    | inr other ↦
        (ground (arith, present, other, found), λ e k. ground (arith, present, other, found, e, k))
  ]
]

-- The rest of what `remove` does.
pub remove_counts :
    (id want : ℕ) (h : TcpHandler)
    → ((remove id want h).active ≡ h.active - 1)
      × ((remove id want h).running ≡ h.running)
      × ((remove id want h).max_concurrent ≡ h.max_concurrent)
      × ((remove id want h).next_token ≡ h.next_token)
unfolding remove
remove_counts id want h = elim (Option-cases (lookup id h.streams)) [
  | inl absent ↦ ground (arith, absent)
  | inr (t, present) ↦ elim (Bool-cases (t == want)) [
    | inl mine ↦ ground (arith, present, mine)
    | inr other ↦ ground (arith, present, other)
  ]
]
