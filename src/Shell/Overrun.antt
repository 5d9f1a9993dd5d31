-- ===== src/Shell/Overrun.antt =====
-- internal/streamtype/shell.go: the shells of a listener over time. What happens is an admission, the
-- start of its process, a failure or the end of the process; a displaced shell is told to end by a
-- goroutine.
use Prim.Native.Nat.{ℕ}
use bitbang_cli.Prelude.{Bool, ℕ, [], if◌then◌else◌, none, List, ◌==◌, ◌∷◌, false, some, ◌||◌}
use bitbang_cli.Shell.{ShellAdmissions, no_shells, release_shell, admit, set_evict, ShellAdmission}

-- `starting` are admissions whose process is not there yet, `running` those whose process is, and
-- `told` those whose process was told to end.
pub record Shells : Type 0 where
  pub admissions : ShellAdmissions
  pub starting : List ℕ
  pub running : List ℕ
  pub told : List ℕ

abbrev pub new_shells : Shells
new_shells = record { admissions = no_shells; starting = []; running = []; told = [] }

unfoldable pub has_token : ℕ → List ℕ → Bool
has_token t [] = false
has_token t (u ∷ us) = (u == t) || has_token t us

unfoldable pub remove_token : ℕ → List ℕ → List ℕ
remove_token t [] = []
remove_token t (u ∷ us) = let rest = remove_token t us in if u == t then rest else u ∷ rest

-- OnSYN up to its admission: the displaced shell is told to end if its evict function is set.
unfoldable pub open_shell : ℕ → Bool → Shells → Shells
unfolding admit
open_shell max protected s =
    let r = admit max protected s.admissions in
    elim r.1.0 [
      | none ↦ s
      | some shell ↦ record s {
        admissions = r.0;
        starting = shell.token ∷ s.starting;
        told = elim r.1.1 [
          | none ↦ s.told
          | some old ↦ if old.evict then old.token ∷ s.told else s.told
        ];
      }
    ]

-- The process is there, and `setEvict` is called.
unfoldable pub start_shell : ℕ → Shells → Shells
unfolding has_token remove_token set_evict
start_shell t s =
    if has_token t s.starting
    then record s {
      admissions = record s.admissions { live = set_evict t s.admissions.live };
      starting = remove_token t s.starting;
      running = t ∷ s.running;
    }
    else s

-- A spawn that failed gives the slot back on OnSYN's way out, an ended process in waitAndFinish.
unfoldable pub end_shell : ℕ → Shells → Shells
unfolding remove_token release_shell
end_shell t s = record s {
  admissions = release_shell t s.admissions;
  starting = remove_token t s.starting;
  running = remove_token t s.running;
}

pub data ShellEvent : Type 0 where
  opens : Bool → ShellEvent
  starts ends : ℕ → ShellEvent

unfoldable pub shell_step : ℕ → ShellEvent → Shells → Shells
unfolding open_shell start_shell end_shell
shell_step max (opens protected) s = open_shell max protected s
shell_step max (starts t) s = start_shell t s
shell_step max (ends t) s = end_shell t s

unfoldable pub shell_run : ℕ → List ShellEvent → Shells → Shells
unfolding shell_step
shell_run max [] s = s
shell_run max (e ∷ es) s = shell_run max es (shell_step max e s)

-- How often a token stands among the live shells, and among those of a list.
abbrev pub is_token : ℕ → ShellAdmission → ℕ
is_token t s = if s.token == t then 1 else 0
