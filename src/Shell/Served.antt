-- ===== src/Shell/Served.antt =====
-- internal/streamtype/shell.go: the shells of a listener that spawns one process at a time.
use bitbang_cli.Shell.{ShellAdmission, drop_token, set_evict, fresh_shell}
use bitbang_cli.Shell.Overrun.{
  Shells, open_shell, has_token, is_token, start_shell, end_shell, remove_token,
}
use bitbang_cli.Prelude.{
  Bool, ℕ, List, if◌then◌else◌, All, ◌∷◌, ◌≡◌, true, ◌<◌, [], length, ◌≤◌, total, ◌⊎◌, ◌==◌, ◌≢◌,
  arith, suc, false, refl, ◌++◌,
}
use Prim.Native.Nat.{ℕ, suc}

-- OnSYN whole, with nothing else between its admission and its process, or an end.
pub data Serving : Type 0 where
  serves : Bool → Bool → Serving
  finishes : ℕ → Serving

unfoldable pub serving_step : ℕ → Serving → Shells → Shells
unfolding open_shell has_token start_shell end_shell
serving_step max (serves protected spawned) s =
    let t = s.admissions.next in
    let o = open_shell max protected s in
    if has_token t o.starting then (if spawned then start_shell t o else end_shell t o) else o
serving_step max (finishes t) s = end_shell t s

unfoldable pub serving_run : ℕ → List Serving → Shells → Shells
unfolding serving_step
serving_run max [] s = s
serving_run max (e ∷ es) s = serving_run max es (serving_step max e s)

-- Each live shell can be told to end and has a smaller pointer than the next, and each running one is
-- live or was told.
pub record IsServed (max : ℕ) (s : Shells) : Type 0 where
  pub ready : All (λ a. (a.evict ≡ true) × (a.token < s.admissions.next)) s.admissions.live
  pub idle : s.starting ≡ []
  pub within : length s.admissions.live ≤ max
  pub served :
      (t : ℕ)
      → has_token t s.running ≡ true
      → (1 ≤ total (is_token t) s.admissions.live) ⊎ (has_token t s.told ≡ true)

abbrev pub Ready : ℕ → ShellAdmission → Type 0
Ready n a = (a.evict ≡ true) × (a.token < n)

pub Ready-added :
    (n : ℕ) (protected : Bool) (live : List ShellAdmission)
    → All (Ready n) live
    → All (Ready (suc n)) (set_evict n (live ++ (fresh_shell n protected ∷ [])))
      × All (Ready (suc n)) (drop_token n (live ++ (fresh_shell n protected ∷ [])))
unfolding set_evict drop_token
Ready-added n protected [] h = ground (arith)
Ready-added n protected (s ∷ ss) h = ground (arith, Ready-added n protected ss h.1)

pub Ready-dropped :
    (n t : ℕ) (live : List ShellAdmission) → All (Ready n) live → All (Ready n) (drop_token t live)
unfolding drop_token
Ready-dropped n t [] h = tt
Ready-dropped n t (s ∷ ss) h = ground (arith, Ready-dropped n t ss h.1)

pub drop_token-other :
    (t u : ℕ) (live : List ShellAdmission)
    → t ≢ u
    → total (is_token t) (drop_token u live) ≡ total (is_token t) live
unfolding drop_token
drop_token-other t u [] h = refl
drop_token-other t u (s ∷ ss) h = ground (arith, drop_token-other t u ss h)

pub length-set_evict :
    (t : ℕ) (live : List ShellAdmission) → length (set_evict t live) ≡ length live
unfolding set_evict
length-set_evict t [] = refl
length-set_evict t (s ∷ ss) = omega (arith, length-set_evict t ss)

pub length-drop_token :
    (t : ℕ) (live : List ShellAdmission) → length (drop_token t live) ≤ length live
unfolding drop_token
length-drop_token t [] = omega (arith)
length-drop_token t (s ∷ ss) = ground (arith, length-drop_token t ss)

pub has_token-remove :
    (t u : ℕ) (us : List ℕ)
    → has_token t (remove_token u us) ≡ (if t == u then false else has_token t us)
unfolding has_token remove_token
has_token-remove t u [] = ground (arith)
has_token-remove t u (v ∷ vs) = ground (arith, has_token-remove t u vs)
