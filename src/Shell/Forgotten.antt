-- ===== src/Shell/Forgotten.antt =====
-- A shell that was displaced before its process was there.
use bitbang_cli.Shell.Overrun.{has_token, Shells, is_token}
use Prim.Native.Nat.{ℕ}
use bitbang_cli.Prelude.{
  ℕ, [], if◌then◌else◌, none, Option, List, ◌<◌, total, ◌∷◌, false, some, ◌≡◌, arith, refl,
}
use bitbang_cli.Shell.{ShellAdmissions, set_evict, ShellAdmission}

-- A shell that is gone from the live ones and was never told to end.
pub record IsForgotten (t : ℕ) (s : Shells) : Type 0 where
  pub past : t < s.admissions.next
  pub gone : total (is_token t) s.admissions.live ≡ 0
  pub untold : has_token t s.told ≡ false

pub set_evict-total :
    (t u : ℕ) (live : List ShellAdmission)
    → total (is_token t) (set_evict u live) ≡ total (is_token t) live
unfolding set_evict
set_evict-total t u [] = refl
set_evict-total t u (s ∷ ss) = ground (arith, set_evict-total t u ss)

abbrev pub shells_opened :
    Shells → ShellAdmissions → Option ShellAdmission → Option ShellAdmission → Shells
shells_opened s a adm old = elim adm [
  | none ↦ s
  | some shell ↦ record s {
    admissions = a;
    starting = shell.token ∷ s.starting;
    told = elim old [ none ↦ s.told | some d ↦ if d.evict then d.token ∷ s.told else s.told ];
  }
]
