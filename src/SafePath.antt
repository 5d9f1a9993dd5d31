-- ===== src/SafePath.antt =====
-- internal/fileshare/safepath.go: the path that a request of a file share may open. The package
-- path/filepath is a parameter.
use bitbang_cli.Prelude.{
  ℕ, Text, Option, none, Bool, ◌≡◌, ◌⊎◌, true, false, [], if◌then◌else◌, text_eq, not, some, ◌++◌,
  ◌∷◌, arith, ◌==◌, ◌&&◌, ap, refl, ◌≢◌, inl, ◌↔◌, Bool-cases, text_eq_iff, Option-cases,
  text_eq→eq, inr, subst, ◌∙◌, sym, List, ◌||◌, codes,
}
use Prim.Native.Nat.{ℕ}
use mathlib.Core.List.{append_assoc}

-- filepath.Abs, filepath.Join and filepath.EvalSymlinks, and the separator.
pub record Filepath : Type 0 where
  pub abs : Text → Option Text
  pub join : Text → Text → Text
  pub eval_symlinks : Text → Option Text
  pub separator : ℕ

unfoldable pub has_prefix : Text → Text → Bool
has_prefix s [] = true
has_prefix [] (y ∷ ys) = false
has_prefix (x ∷ xs) (y ∷ ys) = x == y && has_prefix xs ys

unfoldable pub has_suffix : Text → ℕ → Bool
has_suffix [] c = false
has_suffix (x ∷ []) c = x == c
has_suffix (x ∷ (y ∷ ys)) c = has_suffix (y ∷ ys) c

unfoldable pub within_base : ℕ → Text → Text → Bool
unfolding has_prefix has_suffix
within_base separator path base =
    if text_eq path base
    then true
    else if has_suffix base separator
    then has_prefix path base
    else has_prefix path (base ++ (separator ∷ []))

unfoldable pub safe_path : Filepath → Text → Text → Text
unfolding within_base
safe_path fp base_dir rel_path = elim (fp.abs base_dir) [
  | none ↦ []
  | some base ↦ elim (fp.abs (fp.join base rel_path)) [
    | none ↦ []
    | some requested ↦
        if not (within_base fp.separator requested base) then [] else elim (fp.eval_symlinks base) [
          | none ↦ []
          | some real_base ↦ elim (fp.eval_symlinks requested) [
            | none ↦ []
            | some real_path ↦
                if not (within_base fp.separator real_path real_base) then [] else real_path
          ]
        ]
  ]
]

abbrev pub system_files : List Text
system_files =
    codes ".DS_Store"
    ∷ (codes "Thumbs.db"
        ∷ (codes "desktop.ini" ∷ (codes ".git" ∷ (codes "__pycache__" ∷ (codes ".env" ∷ [])))))

unfoldable pub is_listed : Text → List Text → Bool
is_listed name [] = false
is_listed name (f ∷ fs) = text_eq f name || is_listed name fs

unfoldable pub should_show : Text → Bool → Bool
unfolding has_prefix is_listed
should_show name show_hidden =
    if is_listed name system_files
    then false
    else not (not show_hidden && has_prefix name (46 ∷ []))

-- A path is inside a directory: it is the directory, or the directory, one separator, and more.
abbrev pub IsInside : ℕ → Text → Text → Type 0
IsInside separator path base =
    (path ≡ base)
    ⊎ ((front rest : Text) × ((base ≡ front) ⊎ (base ≡ front ++ (separator ∷ [])))
        × (path ≡ front ++ (separator ∷ rest)))

has_prefix_split :
    (path front : Text) → has_prefix path front ≡ true → (rest : Text) × (path ≡ front ++ rest)
unfolding has_prefix
has_prefix_split path [] h = (path, refl)
has_prefix_split [] (y ∷ ys) h = absurd (cc)
has_prefix_split (x ∷ xs) (y ∷ ys) h =
    let more = has_prefix_split xs ys (ground (arith)) in
    let same : x ≡ y = ground (arith) in (more.0, ground (arith, more.1))

has_suffix_split :
    (s : Text) (c : ℕ) → has_suffix s c ≡ true → (front : Text) × (s ≡ front ++ (c ∷ []))
unfolding has_suffix
has_suffix_split [] c h = absurd (cc)
has_suffix_split (x ∷ []) c h = ([], ground (arith))
has_suffix_split (x ∷ (y ∷ ys)) c h =
    let more = has_suffix_split (y ∷ ys) c h in (x ∷ more.0, ap (◌∷◌ x) more.1)

has_prefix_append : (a b : Text) → has_prefix (a ++ b) a ≡ true
unfolding has_prefix
has_prefix_append [] b = refl
has_prefix_append (x ∷ xs) b = ground (arith, has_prefix_append xs b)

has_suffix_append : (front : Text) (c : ℕ) → has_suffix (front ++ (c ∷ [])) c ≡ true
unfolding has_suffix
has_suffix_append [] c = ground (arith)
has_suffix_append (x ∷ []) c = ground (arith)
has_suffix_append (x ∷ (y ∷ ys)) c = has_suffix_append (y ∷ ys) c

within_base-IsInside :
    (separator : ℕ) (path base : Text)
    → within_base separator path base ≡ true
    → IsInside separator path base
unfolding within_base
within_base-IsInside separator path base h = elim (Bool-cases (text_eq path base)) [
  | inl same ↦ inl (text_eq→eq path base same)
  | inr other ↦ elim (Bool-cases (has_suffix base separator)) [
    | inl root ↦
        let base_is = has_suffix_split base separator root in
        let path_is = has_prefix_split path base (ground (arith)) in
        inr (
          base_is.0,
          path_is.0,
          inr base_is.1,
          path_is.1
              ∙ ap (λ b. b ++ path_is.0) base_is.1
              ∙ append_assoc base_is.0 (separator ∷ []) path_is.0,
        )
    | inr plain ↦
        let path_is = has_prefix_split path (base ++ (separator ∷ [])) (ground (arith)) in
        inr (base, path_is.0, inl refl, path_is.1 ∙ append_assoc base (separator ∷ []) path_is.0)
  ]
]

IsInside-within_base :
    (separator : ℕ) (path base : Text)
    → IsInside separator path base
    → within_base separator path base ≡ true
unfolding within_base
IsInside-within_base separator path base (inl same) = ground (arith, text_eq_iff path base)
IsInside-within_base separator path base (inr (front, rest, base_is, path_is)) =
    let below : has_prefix path (front ++ (separator ∷ [])) ≡ true =
      subst (λ p. has_prefix p (front ++ (separator ∷ [])) ≡ true)
        (append_assoc front (separator ∷ []) rest ∙ sym path_is)
        (has_prefix_append (front ++ (separator ∷ [])) rest) in
    let under : has_prefix path front ≡ true =
      subst (λ p. has_prefix p front ≡ true) (sym path_is)
        (has_prefix_append front (separator ∷ rest)) in
    elim base_is [
      | inl e ↦
          subst (λ b. within_base separator path b ≡ true) (sym e) (ground (arith, below, under))
      | inr e ↦
          subst (λ b. within_base separator path b ≡ true) (sym e)
            (ground (arith, below, has_suffix_append front separator))
    ]

-- The test answers true exactly for the directory itself and what is below it, a separator in between:
-- a sibling whose name begins like the directory's is outside, and a root that ends in the separator
-- holds everything.
pub within_base_iff :
    (separator : ℕ) (path base : Text)
    → (within_base separator path base ≡ true) ↔ IsInside separator path base
within_base_iff separator path base =
    (within_base-IsInside separator path base, IsInside-within_base separator path base)

-- What SafePath answers is not empty only for a path with every link resolved, inside the resolved
-- directory of the share, and asked for by a path that is lexically inside the share as well.
pub safe_path-IsInside :
    (fp : Filepath) (base_dir rel_path : Text)
    → safe_path fp base_dir rel_path ≢ []
    → (base : Text) × (requested : Text) × (real_base : Text) × (fp.abs base_dir ≡ some base)
      × (fp.abs (fp.join base rel_path) ≡ some requested)
      × (fp.eval_symlinks base ≡ some real_base)
      × (fp.eval_symlinks requested ≡ some (safe_path fp base_dir rel_path))
      × IsInside fp.separator requested base
      × IsInside fp.separator (safe_path fp base_dir rel_path) real_base
unfolding safe_path
safe_path-IsInside fp base_dir rel_path h = elim (Option-cases (fp.abs base_dir)) [
  | inl n ↦ absurd (h (ground (arith)))
  | inr (base, e0) ↦ elim (Option-cases (fp.abs (fp.join base rel_path))) [
    | inl n ↦ absurd (h (ground (arith)))
    | inr (requested, e1) ↦ elim (Bool-cases (within_base fp.separator requested base)) [
      | inr outside ↦ absurd (h (ground (arith)))
      | inl inside ↦ elim (Option-cases (fp.eval_symlinks base)) [
        | inl n ↦ absurd (h (ground (arith)))
        | inr (real_base, e2) ↦ elim (Option-cases (fp.eval_symlinks requested)) [
          | inl n ↦ absurd (h (ground (arith)))
          | inr (real_path, e3) ↦ elim (Bool-cases (within_base fp.separator real_path real_base)) [
            | inr outside ↦ absurd (h (ground (arith)))
            | inl real_inside ↦
                let answer : real_path ≡ safe_path fp base_dir rel_path = ground (arith) in
                (
                  base,
                  requested,
                  real_base,
                  e0,
                  e1,
                  e2,
                  e3 ∙ ap some answer,
                  within_base-IsInside fp.separator requested base inside,
                  subst (λ p. IsInside fp.separator p real_base) answer
                      (within_base-IsInside fp.separator real_path real_base real_inside),
                )
          ]
        ]
      ]
    ]
  ]
]
