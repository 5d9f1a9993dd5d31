-- ===== src/Links/Build.antt =====
-- internal/links/table.go: the table that Build makes, and the two ways to find a code in it.
use bitbang_cli.Grant.Spec.{Spec}
use bitbang_cli.Allowlist.{Net}
use bitbang_cli.Links.Authorize.{LastWith, authorize_lem}
use bitbang_cli.Links.Codes.{count_code}
use bitbang_cli.Grant.Narrow.{Paths}
use bitbang_cli.Links.{
  build, by_code, label_seen, first_duplicate, Paths, Terms, ℕ, Net, find_code, ◌∷◌, none, Spec,
  false, some, authorize, Table, Warning, ok, owner_row,
}
use bitbang_cli.Prelude.{
  Text, List, ◌∷◌, All, ℕ, ◌≡◌, ◌≤◌, none, ◌≢◌, false, [], some, arith, text_eq_iff, ok,
  Option-cases, inr, inl, subst, sym,
}

-- No two rows have the same label.
abbrev pub UniqueLabels : List Terms → Type 0
UniqueLabels [] = Unit
UniqueLabels (e ∷ es) = All (λ f. f.label ≢ e.label) es × UniqueLabels es

All-map : (P Q : Terms → Type 0) (es : List Terms) → ((e : Terms) → P e → Q e) → All P es → All Q es
All-map P Q [] h all = tt
All-map P Q (e ∷ es) h all = (h e all.0, All-map P Q es h all.1)

seen_split :
    (label : Text) (seen : List Text) (f : Terms)
    → label_seen f.label (label ∷ seen) ≡ false
    → (f.label ≢ label) × (label_seen f.label seen ≡ false)
unfolding label_seen
seen_split label seen f h = ground (arith, text_eq_iff label f.label)

first_duplicate-none :
    (seen : List Text) (es : List Terms)
    → first_duplicate seen es ≡ none
    → All (λ e. label_seen e.label seen ≡ false) es × UniqueLabels es
unfolding first_duplicate
first_duplicate-none seen [] h = (tt, tt)
first_duplicate-none seen (e ∷ es) h =
    let parts : (label_seen e.label seen ≡ false) × (first_duplicate (e.label ∷ seen) es ≡ none) =
      ground arith in
    let rest = first_duplicate-none (e.label ∷ seen) es parts.1 in
    (
      (parts.0, All-map _ _ es (λ f hf. (seen_split e.label seen f hf).1) rest.0),
      (All-map _ _ es (λ f hf. (seen_split e.label seen f hf).0) rest.0, rest.1),
    )

-- A table that Build makes has the row of the owner first and the given rows behind it, in their order,
-- under the listener's grant, and no two of its rows have the same label.
pub build_lem :
    (paths : Paths) (net : Net) (entries : List Terms) (offered : Spec) (identity_code : Text)
    (t : Table) (ws : List Warning)
    → build paths net entries offered identity_code ≡ ok (t, ws)
    → (t.entries ≡ owner_row identity_code ∷ entries)
      × (t.offered ≡ offered)
      × UniqueLabels t.entries
unfolding build
build_lem paths net entries offered identity_code t ws h =
    let all : List Terms = owner_row identity_code ∷ entries in
    elim (Option-cases (first_duplicate [] all)) [
      | inr (e, dup) ↦ absurd (ground (arith, dup, h))
      | inl none_dup ↦
          let same : (t.entries ≡ all) × (t.offered ≡ offered) = ground (arith, none_dup, h) in
          (same.0, same.1, subst UniqueLabels (sym same.0) (first_duplicate-none [] all none_dup).1)
    ]

LastWith-counted :
    (code : Text) (e : Terms) (es : List Terms) → LastWith code e es → 1 ≤ count_code code es
unfolding count_code
LastWith-counted code e [] h = absurd h
LastWith-counted code e (x ∷ es) h =
    ground
      (arith, text_eq_iff x.code code, λ (l : LastWith code e es). LastWith-counted code e es l)

find_code-LastWith :
    (code : Text) (e : Terms) (es : List Terms)
    → count_code code es ≤ 1
    → LastWith code e es
    → find_code code es ≡ some e
unfolding count_code find_code
find_code-LastWith code e [] few h = absurd h
find_code-LastWith code e (x ∷ es) few h = ground (
  arith,
  text_eq_iff x.code code,
  λ (l : LastWith code e es). LastWith-counted code e es l,
  λ (l : LastWith code e es) (k : count_code code es ≤ 1). find_code-LastWith code e es k l,
)

-- In a table where at most one row has the code, the row that Authorize admits is the one that ByCode
-- finds again when the live session is checked.
pub by_code-authorize :
    (code : Text) (now : ℕ) (es : List Terms) (e : Terms)
    → count_code code es ≤ 1
    → authorize code now es ≡ some e
    → by_code code es ≡ some e
unfolding by_code
by_code-authorize code now es e few h =
    let admitted = (authorize_lem code now es e).0 h in
    rw (admitted.0, find_code-LastWith code e es few admitted.1)
