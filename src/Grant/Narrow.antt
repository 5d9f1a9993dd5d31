-- ===== src/Grant/Narrow.antt =====
-- internal/grant/grant.go: what is left of a grant where two meet. The functions of path/filepath, and
-- those of net that allowlist takes, are parameters.
use bitbang_cli.Grant.Spec.{
  Word, Caps, Error, Spec, not_inside, path_error, has_cap, outside_targets, shell_pinned,
  caps_or_none, bad_targets, with_cap, order, no_caps, not_served,
}
use bitbang_cli.Grant.Fields.{join}
use bitbang_cli.Allowlist.{Net, Entry, permits_target}
use bitbang_cli.Prelude.{
  ℕ, Option, Bool, Result, Text, false, some, List, ◌&&◌, none, [], if◌then◌else◌, codes, ok, ◌∷◌,
  ◌>>=◌, err, not, ◌==◌, is_empty, text_eq,
}
use bitbang_cli.Allowlist

abbrev pub meet_caps : Caps → Caps → Caps
meet_caps a b = record {
  has_files = a.has_files && b.has_files;
  has_proxy = a.has_proxy && b.has_proxy;
  has_forward = a.has_forward && b.has_forward;
  has_shell = a.has_shell && b.has_shell;
}

-- `s.Intersect(offered)`
unfoldable pub intersect : Spec → Spec → Spec
intersect s offered = elim s.caps [
  | none ↦ s
  | some c ↦ record s { caps = some (meet_caps c (caps_or_none offered.caps)) }
]

-- filepath.Abs and filepath.Rel, `none` for an error, and filepath.Separator.
pub record Paths : Type 0 where
  pub separator : ℕ
  pub abs : Text → Option Text
  pub rel : Text → Text → Option Text

abbrev pub starts_up : ℕ → Text → Bool
starts_up separator (a ∷ (b ∷ (c ∷ s))) = a == b'.' && (b == b'.' && c == separator)
starts_up separator _ = false

unfoldable pub is_within : Paths → Text → Text → Result Error Bool
is_within paths parent child = elim (paths.abs parent) [
  | none ↦ err path_error
  | some p ↦ elim (paths.abs child) [
    | none ↦ err path_error
    | some c ↦ elim (paths.rel p c) [
      | none ↦ ok false
      | some r ↦ ok (not (text_eq r (codes "..")) && not (starts_up paths.separator r))
    ]
  ]
]

unfoldable pub first_refused : Net → List Entry → List Text → Option Text
first_refused net allowed [] = none
first_refused net allowed (t ∷ ts) =
    let rest = first_refused net allowed ts in if permits_target net allowed t then rest else some t

abbrev pub or_bad_targets {ℓ} : {A : Type ℓ} → Result Allowlist.Error A → Result Error A
or_bad_targets (ok a) = ok a
or_bad_targets (err e) = err (bad_targets e)

unfoldable pub narrow_targets : Net → List Text → List Text → Result Error (List Text)
narrow_targets net listener link =
    if is_empty link
    then ok listener
    else if is_empty listener
    then ok link
    else or_bad_targets (Allowlist.parse net listener) >>= λ allowed.
        elim (first_refused net allowed link) [ none ↦ ok link | some t ↦ err (outside_targets t) ]

-- The loop of `Narrow` over the capabilities.
unfoldable pub narrow_caps : List Word → Caps → Caps → Caps → Result Error Caps
narrow_caps [] listener link out = ok out
narrow_caps (w ∷ ws) listener link out =
    let rest = narrow_caps ws listener link (if has_cap w link then with_cap w out else out) in
    if has_cap w link && not (has_cap w listener) then err (not_served w) else rest

unfoldable pub narrow_shell : List Text → List Text → Result Error (List Text)
narrow_shell listener link =
    if is_empty link
    then ok listener
    else if is_empty listener
    then ok link
    else if not (text_eq (join (codes " ") link) (join (codes " ") listener))
    then err shell_pinned
    else ok listener

unfoldable pub narrow_files : Paths → Text → Text → Result Error Text
narrow_files paths listener link =
    if is_empty link
    then ok listener
    else if is_empty listener
    then ok link
    else is_within paths listener link >>= λ within. if within then ok link else err not_inside

-- `s.Narrow(link)`, `s` being the listener's grant.
unfoldable pub narrow : Paths → Net → Spec → Spec → Result Error Spec
narrow paths net s link =
    let asked : Caps = elim link.caps [ none ↦ caps_or_none s.caps | some c ↦ c ] in
    narrow_caps order (caps_or_none s.caps) asked no_caps >>= λ caps.
    narrow_shell s.shell_argv link.shell_argv >>= λ argv.
    narrow_files paths s.files_path link.files_path >>= λ path.
    narrow_targets net s.proxy_targets link.proxy_targets >>= λ proxies.
    narrow_targets net s.forward_targets link.forward_targets >>= λ forwards. ok (record {
      caps = some caps;
      shell_argv = argv;
      files_path = path;
      proxy_targets = proxies;
      forward_targets = forwards;
    })
