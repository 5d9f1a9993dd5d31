-- ===== src/Witnesses/Access.antt =====
-- internal/peerset at a small input.
use bitbang_cli.Prelude.{codes, ℕ, ◌∷◌, []}
use bitbang_cli.PeerSet.{new}
use bitbang_cli.PeerSet.Laws.{run, IsRegistry, adds, forgets, closes, run-new-IsRegistry}
use bitbang_cli.Prelude.{nat_eq}

run-new-IsRegistry_example :
    IsRegistry {T = ℕ} 1 (run 1 (adds (codes "a") 7 ∷ (forgets (codes "a") 8 ∷ (closes ∷ []))) new)
run-new-IsRegistry_example =
    run-new-IsRegistry 1 (adds (codes "a") 7 ∷ (forgets (codes "a") 8 ∷ (closes ∷ [])))
