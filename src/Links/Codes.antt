-- ===== src/Links/Codes.antt =====
-- internal/links/table.go: the codes of links: shared ones withdrawn, expired ones retired, and fresh
-- ones minted.
use bitbang_cli.Prelude.{
  Text, List, ◌∷◌, [], Bool, ℕ, not, if◌then◌else◌, Result, ◌&&◌, ok, text_eq, is_empty, text_le,
  ◌+◌, ◌||◌, leb, sort_texts, ◌>>=◌,
}
use bitbang_cli.Links.{
  Terms, check, ℕ, ◌∷◌, [], Bool, Result, ok, text_eq, is_empty, label_seen, sort_texts,
}

unfoldable pub count_code : Text → List Terms → ℕ
count_code code [] = 0
count_code code (e ∷ es) = (if text_eq e.code code then 1 else 0) + count_code code es

-- Some other row has the code, or the identity has it.
unfoldable pub conflicts : Text → List Terms → Text → Bool
conflicts identity_code all code =
    not (is_empty code)
    && (leb 2 (count_code code all) || (not (is_empty identity_code) && text_eq code identity_code))

unfoldable pub clear_code : Terms → Terms
clear_code e = record e { code = [] }

-- The rows that DedupeCodes returns, of `es` out of `all`.
unfoldable pub cleared : Text → List Terms → List Terms → List Terms
unfolding clear_code
cleared identity_code all [] = []
cleared identity_code all (e ∷ es) =
    (if conflicts identity_code all e.code then clear_code e else e) ∷ cleared identity_code all es

pub record CodeConflict : Type 0 where
  pub labels : List Text
  pub reserved : Bool

unfoldable pub labels_with : Text → List Terms → List Text
labels_with code [] = []
labels_with code (e ∷ es) =
    let rest = labels_with code es in if text_eq e.code code then e.label ∷ rest else rest

-- One conflict for each code, where the code stands first; Go's map gives them in any order, and they
-- are sorted next.
unfoldable pub code_conflicts : Text → List Terms → List Text → List Terms → List CodeConflict
unfolding labels_with conflicts
code_conflicts identity_code all seen [] = []
code_conflicts identity_code all seen (e ∷ es) =
    let rest = code_conflicts identity_code all (e.code ∷ seen) es in
    if conflicts identity_code all e.code && not (label_seen e.code seen)
    then record {
      labels = sort_texts (labels_with e.code all);
      reserved = not (is_empty identity_code) && text_eq e.code identity_code;
    }
      ∷ rest
    else rest

abbrev pub first_label : CodeConflict → Text
first_label c = elim c.labels [ [] ↦ [] | l ∷ ls ↦ l ]

unfoldable pub place_conflict : CodeConflict → List CodeConflict → List CodeConflict
place_conflict c [] = c ∷ []
place_conflict c (d ∷ ds) =
    if text_le (first_label c) (first_label d) then c ∷ (d ∷ ds) else d ∷ place_conflict c ds

unfoldable pub sort_conflicts : List CodeConflict → List CodeConflict
unfolding place_conflict
sort_conflicts [] = []
sort_conflicts (c ∷ cs) = place_conflict c (sort_conflicts cs)

unfoldable pub dedupe_codes : List Terms → Text → List Terms × List CodeConflict
unfolding cleared code_conflicts sort_conflicts
dedupe_codes entries identity_code = (
  cleared identity_code entries entries,
  sort_conflicts (code_conflicts identity_code entries [] entries),
)

unfoldable pub retire_expired : ℕ → List Terms → List Terms × List Text
unfolding check clear_code
retire_expired now [] = ([], [])
retire_expired now (e ∷ es) =
    let (out, retired) = retire_expired now es in
    if is_empty e.code || check e now
    then (e ∷ out, retired)
    else (clear_code e ∷ out, e.label ∷ retired)

-- `gen` is the answer of the n-th call of the generator; an error ends the loop.
unfoldable pub mint :
    {X : Type 0} → ℕ → (ℕ → Result X Text) → ℕ → List Terms → Result X (List Terms × List Text)
unfolding check
mint now gen n [] = ok ([], [])
mint now gen n (e ∷ es) =
    let skip = mint now gen n es in
    let next = mint now gen (n + 1) es in
    if not (is_empty e.code) || not (check e now)
    then (skip >>= λ r. ok (e ∷ r.0, r.1))
    else (gen n >>= λ code. next >>= λ r. ok (record e { code = code } ∷ r.0, e.label ∷ r.1))
