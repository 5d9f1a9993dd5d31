-- ===== src/Sdp/Normal.antt =====
-- The normal form that both ends of a connection compare.
use bitbang_cli.Allowlist.{trim_right}
use bitbang_cli.Prelude.{
  Text, ℕ, Bool, All, ◌≤◌, List, ◌≡◌, map, ◌⊎◌, true, some, ◌∷◌, arith, [], on_option, ◌↔◌,
  Option-cases, refl, sym, codes, ◌∙◌, ap, inl, inr, subst,
}
use bitbang_cli.Sdp.{
  is_fingerprint_char, span, to_upper, extract_fingerprint, find_submatch, first_match,
  fingerprints_equal, split_lines, trim_right, skip_prefix, is_return, is_blank,
}
use Prim.Native.Nat.{ℕ}

-- An upper-case hexadecimal digit or a colon.
abbrev pub IsNormal : ℕ → Type 0
IsNormal c = ((b'0' ≤ c) × (c ≤ b':')) ⊎ ((b'A' ≤ c) × (c ≤ b'F'))

span-All : (test : ℕ → Bool) (s : Text) → All (λ c. test c ≡ true) (span test s).0
unfolding span
span-All test [] = tt
span-All test (c ∷ s) = ground (arith, span-All test s)

upper-IsNormal : (c : ℕ) → is_fingerprint_char c ≡ true → IsNormal (to_upper c)
unfolding is_fingerprint_char to_upper
upper-IsNormal c h = ground arith

map-upper-IsNormal :
    (s : Text) → All (λ c. is_fingerprint_char c ≡ true) s → All IsNormal (map to_upper s)
map-upper-IsNormal [] h = tt
map-upper-IsNormal (c ∷ s) h = (upper-IsNormal c h.0, map-upper-IsNormal s h.1)

find_submatch-All :
    (line m : Text) → find_submatch line ≡ some m → All (λ c. is_fingerprint_char c ≡ true) m
unfolding find_submatch
find_submatch-All line m h =
    elim (Option-cases (skip_prefix (codes "a=fingerprint:sha-256") line)) [
      | inl absent ↦ absurd (ground (arith, absent, h))
      | inr (rest, found) ↦
          let blanks = span is_blank rest in
          subst (All (λ c. is_fingerprint_char c ≡ true)) (ground (arith, found, h))
            (span-All is_fingerprint_char blanks.1)
    ]

first_match-IsNormal : (lines : List Text) → All IsNormal (first_match lines)
unfolding first_match
first_match-IsNormal [] = tt
first_match-IsNormal (line ∷ rest) =
    on_option (All IsNormal) (find_submatch (trim_right is_return line)) (first_match rest)
      (map to_upper) (λ h. first_match-IsNormal rest)
      (λ m h. map-upper-IsNormal m (find_submatch-All (trim_right is_return line) m h))

-- The fingerprint that is parsed from a description, when there is one, consists of upper-case
-- hexadecimal digits and colons.
pub extract-IsNormal : (sdp : Text) → All IsNormal (extract_fingerprint sdp)
unfolding extract_fingerprint
extract-IsNormal sdp = first_match-IsNormal ((split_lines sdp).0 ∷ (split_lines sdp).1)

equal→upper : (s t : Text) → fingerprints_equal s t ≡ true → map to_upper s ≡ map to_upper t
unfolding fingerprints_equal
equal→upper [] [] h = refl
equal→upper [] (b ∷ t) h = cc
equal→upper (a ∷ s) [] h = cc
equal→upper (a ∷ s) (b ∷ t) h = ground (arith, equal→upper s t)

upper→equal : (s t : Text) → map to_upper s ≡ map to_upper t → fingerprints_equal s t ≡ true
unfolding fingerprints_equal
upper→equal [] [] h = refl
upper→equal [] (b ∷ t) h = cc
upper→equal (a ∷ s) [] h = cc
upper→equal (a ∷ s) (b ∷ t) h = ground (arith, upper→equal s t)

pub fingerprints_equal_iff :
    (s t : Text) → (fingerprints_equal s t ≡ true) ↔ (map to_upper s ≡ map to_upper t)
fingerprints_equal_iff s t = (equal→upper s t, upper→equal s t)

to_upper_normal : (c : ℕ) → IsNormal c → to_upper c ≡ c
unfolding to_upper
to_upper_normal c h = ground arith

pub map-to_upper_normal : (s : Text) → All IsNormal s → map to_upper s ≡ s
map-to_upper_normal [] h = refl
map-to_upper_normal (c ∷ s) h = ground (arith, to_upper_normal c h.0, map-to_upper_normal s h.1)

-- Two fingerprints that are parsed from descriptions are equal for the comparison of the verification
-- exactly when they are the same text, whatever the case of the letters in the descriptions.
pub extract-fingerprints_equal :
    (sdp other : Text)
    → (fingerprints_equal (extract_fingerprint sdp) (extract_fingerprint other) ≡ true)
      ↔ (extract_fingerprint sdp ≡ extract_fingerprint other)
extract-fingerprints_equal sdp other =
    let s = extract_fingerprint sdp in
    let t = extract_fingerprint other in
    let upper = fingerprints_equal_iff s t in
    let s_normal = map-to_upper_normal s (extract-IsNormal sdp) in
    let t_normal = map-to_upper_normal t (extract-IsNormal other) in
    (λ h. sym s_normal ∙ (upper.0 h ∙ t_normal), λ h. upper.1 (ap (map to_upper) h))
