-- ===== src/Shell.antt =====
-- internal/streamtype/shell.go: the shells of a listener. Which shells are live is here; how one is
-- spawned and fed, and how its output is mirrored, are the children's.
pub mod Displaced
pub mod Overrun
pub mod Forgotten
pub mod Served
pub mod Serving
pub mod Spawn
pub mod Input
pub mod Mirror
use Prim.Native.Nat.{ℕ, suc}
use Prim.Native.String.{[], ◌∷◌}
use bitbang_cli.Prelude.{
  List, ℕ, Bool, [], false, Option, ◌||◌, ◌∷◌, none, not, if◌then◌else◌, ◌==◌, some, ltb, suc, true,
  ◌&&◌, leb, length, drop, take, ◌++◌,
}

-- A live shell: `token` is its pointer, `evict` says whether the function that ends it is set.
pub record ShellAdmission : Type 0 where
  pub token : ℕ
  pub protected : Bool
  pub evict : Bool

-- `next` is the pointer of the next admission.
pub record ShellAdmissions : Type 0 where
  pub live : List ShellAdmission
  pub next : ℕ

abbrev pub no_shells : ShellAdmissions
no_shells = record { live = []; next = 0 }

abbrev pub may_displace : Bool → ShellAdmission → Bool
may_displace protected s = protected || not s.protected

-- -1 is none.
unfoldable pub oldest_displaceable : Bool → List ShellAdmission → Option ℕ
oldest_displaceable protected [] = none
oldest_displaceable protected (s ∷ ss) =
    let rest = oldest_displaceable protected ss in
    if may_displace protected s then some 0 else elim rest [ none ↦ none | some i ↦ some (suc i) ]

abbrev pub first {ℓ} : {A : Type ℓ} → List A → Option A
first [] = none
first (x ∷ xs) = some x

abbrev pub fresh_shell : ℕ → Bool → ShellAdmission
fresh_shell token protected = record { token = token; protected = protected; evict = false }

-- The admission and the shell that it displaced; no admission is the refusal. `max` is an `int`; the
-- model's `ℕ` leaves out the negative ones, which go the way of 0.
unfoldable pub admit :
    ℕ → Bool → ShellAdmissions → ShellAdmissions × (Option ShellAdmission × Option ShellAdmission)
unfolding oldest_displaceable
admit max protected a =
    let shell = fresh_shell a.next protected in
    let nobody : Option ShellAdmission × Option ShellAdmission = (none, none) in
    if ltb 0 max && leb max (length a.live)
    then elim (oldest_displaceable protected a.live) [
      | none ↦ (a, nobody)
      | some i ↦
          let who : Option ShellAdmission × Option ShellAdmission =
            (some shell, first (drop i a.live)) in
          (
            record {
              live = (take i a.live ++ drop (suc i) a.live) ++ (shell ∷ []);
              next = suc a.next;
            },
            who,
          )
    ]
    else (let who : Option ShellAdmission × Option ShellAdmission = (some shell, none) in
        (record { live = a.live ++ (shell ∷ []); next = suc a.next }, who))

unfoldable pub drop_token : ℕ → List ShellAdmission → List ShellAdmission
drop_token token [] = []
drop_token token (s ∷ ss) =
    let rest = drop_token token ss in if s.token == token then ss else s ∷ rest

unfoldable pub release_shell : ℕ → ShellAdmissions → ShellAdmissions
unfolding drop_token
release_shell token a = record a { live = drop_token token a.live }

unfoldable pub set_evict : ℕ → List ShellAdmission → List ShellAdmission
set_evict token [] = []
set_evict token (s ∷ ss) =
    (if s.token == token then record s { evict = true } else s) ∷ set_evict token ss
