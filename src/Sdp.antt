-- ===== src/Sdp.antt =====
-- internal/sdp/fingerprint.go: the DTLS fingerprint of a session description. Texts are code points.
pub mod Normal
use Prim.Native.Nat.{ℕ}
use bitbang_cli.Allowlist.{trim_right}
use bitbang_cli.Prelude.{
  ℕ, Text, Bool, ◌∷◌, Option, List, if◌then◌else◌, some, codes, none, ◌==◌, [], leb, is_empty, map,
  true, ◌&&◌, ◌||◌, false, ◌-◌, not,
}

-- The blanks of the expression's `\s`.
unfoldable pub is_blank : ℕ → Bool
is_blank c = c == b' ' || c == 9 || c == 10 || c == 12 || c == 13

unfoldable pub is_fingerprint_char : ℕ → Bool
is_fingerprint_char c =
    (leb b'0' c && leb c b'9')
    || (leb b'A' c && leb c b'F')
    || (leb b'a' c && leb c b'f')
    || c == b':'

unfoldable pub to_upper : ℕ → ℕ
to_upper c = if leb b'a' c && leb c b'z' then c - 32 else c

-- What a letter of the expression is matched by under `(?i)`: `ſ` is a case of `s`.
unfoldable pub fold_char : ℕ → ℕ
unfolding to_upper
fold_char c = if c == 0x17f then b'S' else to_upper c

-- The rest of a line that starts with the prefix.
unfoldable pub skip_prefix : Text → Text → Option Text
unfolding to_upper fold_char
skip_prefix [] line = some line
skip_prefix (p ∷ ps) [] = none
skip_prefix (p ∷ ps) (c ∷ line) =
    let rest = skip_prefix ps line in if to_upper p == fold_char c then rest else none

-- The longest front of the text whose characters satisfy the test, and what follows it.
unfoldable pub span : (ℕ → Bool) → Text → Text × Text
span test [] = ([], [])
span test (c ∷ s) = let rest = span test s in if test c then (c ∷ rest.0, rest.1) else ([], c ∷ s)

-- `fingerprintLine.FindStringSubmatch`, its first group. The two classes of characters that the
-- expression repeats have none in common, so the longest front is the only one that can match.
unfoldable pub find_submatch : Text → Option Text
unfolding skip_prefix span is_blank is_fingerprint_char
find_submatch line = elim (skip_prefix (codes "a=fingerprint:sha-256") line) [
  | none ↦ none
  | some after_prefix ↦
      let blanks = span is_blank after_prefix in
      let found = span is_fingerprint_char blanks.1 in
      let trailing = span is_blank found.1 in
      if is_empty blanks.0 || is_empty found.0 || not (is_empty trailing.1)
      then none
      else some found.0
]

-- `strings.Split(sdp, "\n")`: the first line, and those after it.
unfoldable pub split_lines : Text → Text × List Text
split_lines [] = ([], [])
split_lines (c ∷ s) =
    let rest = split_lines s in if c == 10 then ([], rest.0 ∷ rest.1) else (c ∷ rest.0, rest.1)

abbrev pub is_return : ℕ → Bool
is_return c = c == 13

unfoldable pub first_match : List Text → Text
unfolding find_submatch trim_right to_upper
first_match [] = []
first_match (line ∷ rest) =
    let later = first_match rest in
    elim (find_submatch (trim_right is_return line)) [ none ↦ later | some m ↦ map to_upper m ]

unfoldable pub extract_fingerprint : Text → Text
unfolding split_lines first_match
extract_fingerprint sdp = first_match ((split_lines sdp).0 ∷ (split_lines sdp).1)

-- `strings.EqualFold`, where one of the texts is a fingerprint: no character outside ASCII is a case of
-- one of its characters.
unfoldable pub fingerprints_equal : Text → Text → Bool
unfolding to_upper
fingerprints_equal [] [] = true
fingerprints_equal [] (b ∷ t) = false
fingerprints_equal (a ∷ s) [] = false
fingerprints_equal (a ∷ s) (b ∷ t) = to_upper a == to_upper b && fingerprints_equal s t
