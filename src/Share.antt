-- ===== src/Share.antt =====
-- internal/share/worker.go: the configuration of a share, its access codes and what they authorize. The
-- generator of codes is a parameter, the results of its calls in their order.
pub mod Slots
pub mod Worker
pub mod Runs
pub mod Owned
pub mod Stages
pub mod Reserved
pub mod Steps
pub mod Keyboard
pub mod Kept
pub mod Drops
pub mod Roles
pub mod Viewers
pub mod Authority
use Prim.Native.Nat.{ℕ, suc}
use bitbang_cli.Prelude.{
  ℕ, Result, Bool, List, if◌then◌else◌, ◌*◌, Text, ◌∷◌, is_empty, false, err, ◌==◌, ◌>>=◌, text_eq,
  [], ◌||◌, ◌&&◌, ok, suc, not, ltb, true, ◌%◌, zero,
}
use bitbang_cli.Pin.{constant_time_compare}
use bitbang_cli.Allowlist.{trim, is_space}

abbrev pub max_viewers : ℕ
max_viewers = 1024

-- A duration is a number of nanoseconds.
abbrev pub second : ℕ
second = 1000000000

abbrev pub max_ttl : ℕ
max_ttl = 365 * (24 * (3600 * second))

-- `protocol.Access`: default, control and view.
pub data Access : Type 0 where
  access_default access_control access_view : Access

-- The two counts are `int`s; the model's `ℕ` leaves out the negative ones, which NewWorker refuses.
pub record WorkerConfig : Type 0 where
  pub session_id : Text
  pub mgmt_session : Text
  pub state_dir : Text
  pub ttl : ℕ
  pub viewers : ℕ
  pub read_only : Bool

pub data WorkerError : Type 0 where
  missing_field bad_viewers bad_ttl not_distinct : WorkerError
  generator : Text → WorkerError

pub record Codes : Type 0 where
  pub control_code : Text
  pub view_code : Text

-- The loop of eight rounds: `left` is how many there are still.
unfoldable pub distinct_from : ℕ → Text → (ℕ → Result Text Text) → Result WorkerError Text
distinct_from zero exclude generate = err not_distinct
distinct_from (suc left) exclude generate =
    let rest = distinct_from left exclude (λ n. generate (suc n)) in
    elim (generate 0) [
      | err e ↦ err (generator e)
      | ok code ↦ if not (text_eq code exclude) then ok code else rest
    ]

unfoldable pub distinct_access_code : Text → (ℕ → Result Text Text) → Result WorkerError Text
unfolding distinct_from
distinct_access_code exclude generate = distinct_from 8 exclude generate

unfoldable pub check_config : WorkerConfig → Result WorkerError WorkerConfig
check_config cfg =
    if is_empty cfg.session_id || (is_empty cfg.mgmt_session || is_empty cfg.state_dir)
    then err missing_field
    else if ltb max_viewers cfg.viewers
    then err bad_viewers
    else if ltb max_ttl cfg.ttl || not (cfg.ttl % second == 0)
    then err bad_ttl
    else ok cfg

-- NewWorker, as far as it makes the codes; `identity_code` is that of the fresh identity.
unfoldable pub new_codes : WorkerConfig → Text → (ℕ → Result Text Text) → Result WorkerError Codes
unfolding check_config distinct_access_code
new_codes cfg identity_code generate = check_config cfg >>= λ c.
    if c.read_only
    then ok (record { control_code = []; view_code = identity_code })
    else (distinct_access_code identity_code generate >>= λ view.
        ok (record { control_code = identity_code; view_code = view }))

unfoldable pub authorize : Bool → Codes → Text → Access × Bool
authorize read_only cs code =
    let control_probe = if read_only then cs.view_code else cs.control_code in
    let is_control = constant_time_compare code control_probe == 1 in
    let is_view = constant_time_compare code cs.view_code == 1 in
    if is_control && not read_only
    then (access_control, true)
    else if is_view
    then (access_view, true)
    else (access_default, false)

unfoldable pub split_newlines : Text → List Text
split_newlines [] = [] ∷ []
split_newlines (c ∷ cs) =
    let rest = split_newlines cs in
    if c == 10
    then [] ∷ rest
    else elim rest [ [] ↦ (c ∷ []) ∷ [] | line ∷ more ↦ (c ∷ line) ∷ more ]

unfoldable pub any_line : List Text → Text → Bool
any_line [] session = false
any_line (line ∷ more) session = text_eq (trim is_space line) session || any_line more session

unfoldable pub lists_session : Text → Text → Bool
unfolding split_newlines any_line
lists_session listing session = any_line (split_newlines listing) session
