-- ===== src/Witnesses/Shells.antt =====
-- Runs of the theorems about shells.
use bitbang_cli.Shell.Serving.{serving_run-new-IsServed}
use bitbang_cli.Shell.{admit, ShellAdmission, ShellAdmissions, oldest_displaceable, fresh_shell}
use bitbang_cli.Shell.Displaced.{Admitted, admit-Admitted}
use bitbang_cli.Shell.Spawn.{ShellHandler, ShellOpen, on_syn, Spawn, pinned_lem}
use bitbang_cli.Shell.Overrun.{Shells, shell_run, shell_step, open_shell, opens, new_shells}
use bitbang_cli.Shell.Served.{IsServed, serving_run, serves, finishes}
use bitbang_cli.Prelude.{◌≢◌, ◌∷◌, ◌≡◌, true, false, codes, [], some, none, refl, ok, arith}

abbrev owner_shell : ShellAdmission
owner_shell = record { token = 0; protected = true; evict = true }

abbrev guest_shell : ShellAdmission
guest_shell = record { token = 1; protected = false; evict = true }

abbrev two_shells : ShellAdmissions
two_shells = record { live = owner_shell ∷ (guest_shell ∷ []); next = 2 }

displaced_test : (admit 2 false two_shells).1.1 ≡ some guest_shell
unfolding admit oldest_displaceable
displaced_test = refl

admit-Admitted_example :
    Admitted 2 false two_shells
      (admit 2 false two_shells).0
      (admit 2 false two_shells).1.0
      (admit 2 false two_shells).1.1
admit-Admitted_example = admit-Admitted 2 false two_shells

-- One shell has its admission and no process yet.
abbrev one_starting : Shells
one_starting = record {
  admissions = record { live = fresh_shell 0 false ∷ []; next = 1 };
  starting = 0 ∷ [];
  running = [];
  told = [];
}

starting_test : shell_run 1 (opens false ∷ []) new_shells ≡ one_starting
unfolding shell_run shell_step open_shell admit
starting_test = refl

serving_run-new-IsServed_example :
    IsServed 1
      (serving_run 1 (serves false true ∷ (serves true true ∷ (finishes 0 ∷ []))) new_shells)
serving_run-new-IsServed_example =
    serving_run-new-IsServed 1 (serves false true ∷ (serves true true ∷ (finishes 0 ∷ [])))
      (omega (arith))

abbrev pinned : ShellHandler
pinned = record { forced_argv = codes "top" ∷ []; forced_env = none; closed = false; streams = [] }

abbrev asks : ShellOpen
asks = record { argv = codes "sh" ∷ []; pty = true; cols = 0; rows = 0; env = []; cwd = codes "/" }

pinned_filled : pinned.forced_argv ≢ []
pinned_filled e = absurd (cc)

pinned_lem_example :
    let r = on_syn [] [] 1 (some asks) true true true pinned in
    ((s : Spawn)
      → r.1 ≡ ok s
      → (s.argv ≡ pinned.forced_argv)
        × (s.env ≡ elim pinned.forced_env [ some e ↦ e | none ↦ [] ])
        × (s.dir ≡ [])
        × (asks.argv ≡ []))
    × (asks.argv ≢ [] → r.0 ≡ pinned)
pinned_lem_example = pinned_lem [] [] 1 asks true true true pinned pinned_filled
