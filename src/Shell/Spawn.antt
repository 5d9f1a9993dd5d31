-- ===== src/Shell/Spawn.antt =====
-- internal/streamtype/shell.go: what OnSYN spawns. `os.Environ()` and the default shell are parameters.
use bitbang_cli.Prelude.{
  List, Text, Bool, Option, ◌++◌, ℕ, ◌≢◌, not, Result, ◌∷◌, [], is_empty, false, ◌==◌, some,
  if◌then◌else◌, ◌||◌, map, ◌≡◌, ◌&&◌, ok, none, err, List-cases, inl, inr, arith,
}

-- The request of a shell stream, as its JSON is decoded; the environment is in the order in which Go
-- ranges over the map.
pub record ShellOpen : Type 0 where
  pub argv : List Text
  pub pty : Bool
  pub cols : ℕ
  pub rows : ℕ
  pub env : List (Text × Text)
  pub cwd : Text

pub data ShellRefusal : Type 0 where
  bad_shell_request no_slot fixed_command shell_closed already_open : ShellRefusal

pub record Spawn : Type 0 where
  pub argv : List Text
  pub env : List Text
  pub dir : Text
  pub cols : ℕ
  pub rows : ℕ
  pub pty : Bool

-- The handler: its pinned command, whether it is closed, and the ids of its streams.
pub record ShellHandler : Type 0 where
  pub forced_argv : List Text
  pub forced_env : Option (List Text)
  pub closed : Bool
  pub streams : List ℕ

abbrev pub env_entry : Text × Text → Text
env_entry e = e.0 ++ (61 ∷ e.1)

module _ (environ : List Text) (default_shell : List Text) where
  unfoldable pub spawn_command : ShellHandler → ShellOpen → Bool → Spawn
  spawn_command h req pty_works =
      let restricted = not (is_empty h.forced_argv) in
      let chosen = if is_empty h.forced_argv then req.argv else h.forced_argv in
      record {
        argv = if is_empty chosen then default_shell else chosen;
        env =
            if restricted
            then elim h.forced_env [ some e ↦ e | none ↦ environ ]
            else environ ++ map env_entry req.env;
        dir = if restricted then [] else req.cwd;
        cols = if req.cols == 0 then 80 else req.cols;
        rows = if req.rows == 0 then 24 else req.rows;
        pty = req.pty && pty_works;
      }

  -- `admitted` says whether the admission gave a slot, `started` whether the process started.
  unfoldable pub on_syn :
      ℕ
      → Option ShellOpen
      → Bool
      → Bool
      → Bool
      → ShellHandler
      → ShellHandler × Result (Option ShellRefusal) Spawn
  unfolding spawn_command
  on_syn id request admitted pty_works started h = elim request [
    | none ↦ (h, err (some bad_shell_request))
    | some req ↦
        if not admitted
        then (h, err (some no_slot))
        else if not (is_empty h.forced_argv) && not (is_empty req.argv)
        then (h, err (some fixed_command))
        else if h.closed
        then (h, err (some shell_closed))
        else if holds id h.streams
        then (h, err (some already_open))
        else if not started
        then (h, err none)
        else (record h { streams = id ∷ h.streams }, ok (spawn_command h req pty_works))
  ]
    where
      holds : ℕ → List ℕ → Bool
      holds n [] = false
      holds n (m ∷ ms) = m == n || holds n ms

-- A pinned listener spawns its own command in its own environment and directory, whoever asks and for
-- whatever; a request that names a command is turned away there and starts nothing.
pub pinned_lem :
    (environ default_shell : List Text) (id : ℕ) (req : ShellOpen)
    (admitted pty_works started : Bool) (h : ShellHandler)
    → h.forced_argv ≢ []
    → let r = on_syn environ default_shell id (some req) admitted pty_works started h in
      ((s : Spawn)
        → r.1 ≡ ok s
        → (s.argv ≡ h.forced_argv)
          × (s.env ≡ elim h.forced_env [ some e ↦ e | none ↦ environ ])
          × (s.dir ≡ [])
          × (req.argv ≡ []))
      × (req.argv ≢ [] → r.0 ≡ h)
unfolding on_syn spawn_command
pinned_lem environ default_shell id req admitted pty_works started h pinned =
    let full : is_empty h.forced_argv ≡ false = elim (List-cases h.forced_argv) [
      | inl empty ↦ absurd (pinned empty)
      | inr (a, as_, e) ↦ ground (arith)
    ] in
    elim (List-cases req.argv) [
      | inl plain ↦ (λ s r. ground (arith), λ named. absurd (named plain))
      | inr (a, as_, e) ↦ (λ s r. absurd (ground (arith)), λ named. ground (arith))
    ]
