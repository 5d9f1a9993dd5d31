-- ===== src/Command/Reordered.antt =====
-- What the reordering keeps.
use bitbang_cli.Command.Args.{reorder_args, split_args, ends_flags, is_flag, takes_value}
use bitbang_cli.Prelude.{
  Text, Bool, List, ◌∷◌, Bool-cases, inl, subst, arith, inr, [], on_if, ◌++◌, ◌≡◌, refl, not, true,
  ◌⊎◌, false,
}
use mathlib.Core.List.{Perm, perm_middle}
use mathlib.Core.List.Perm

-- No argument is lost, made up or changed.
pub reorder_args-Perm :
    (is_bool : Text → Bool) (args : List Text) → Perm (reorder_args is_bool args) args
unfolding reorder_args split_args
reorder_args-Perm is_bool [] = Perm.refl []
reorder_args-Perm is_bool (a ∷ []) = elim (Bool-cases (ends_flags a)) [
  | inl stops ↦ subst (λ l. Perm l (a ∷ [])) (ground (arith, stops)) (Perm.refl (a ∷ []))
  | inr goes ↦ subst (λ l. Perm l (a ∷ [])) (ground (arith, goes)) (Perm.refl (a ∷ []))
]
reorder_args-Perm is_bool (a ∷ (next ∷ args)) =
    let all = a ∷ (next ∷ args) in
    let P : List Text × List Text → Type 0 = λ r. Perm (r.0 ++ r.1) all in
    let rest = split_args is_bool (next ∷ args) in
    let later = reorder_args-Perm is_bool (next ∷ args) in
    on_if P (ends_flags a) _ _ (λ stops. Perm.refl all)
      (λ goes.
        on_if P (not (is_flag a)) _ _
          (λ positional. Perm.trans (perm_middle rest.0 rest.1) (Perm.cons a later))
          (λ flag.
            on_if P (takes_value is_bool a) _ _
              (λ takes. Perm.cons a (Perm.cons next (reorder_args-Perm is_bool args)))
              (λ bare. Perm.cons a later)))

-- Positional arguments only, up to `--`, and whatever is behind it.
abbrev pub IsPositional : List Text → Type 0
IsPositional [] = Unit
IsPositional (a ∷ args) =
    (ends_flags a ≡ true) ⊎ ((ends_flags a ≡ false) × (is_flag a ≡ false) × IsPositional args)

pub split_args-IsPositional :
    (is_bool : Text → Bool) (args : List Text) → IsPositional (split_args is_bool args).1
unfolding split_args
split_args-IsPositional is_bool [] = tt
split_args-IsPositional is_bool (a ∷ []) =
    let P : List Text × List Text → Type 0 = λ r. IsPositional r.1 in
    on_if P (ends_flags a) _ _ (λ stops. inl stops)
      (λ goes. on_if P (is_flag a) _ _ (λ flag. tt) (λ positional. inr (goes, positional, tt)))
split_args-IsPositional is_bool (a ∷ (next ∷ args)) =
    let P : List Text × List Text → Type 0 = λ r. IsPositional r.1 in
    on_if P (ends_flags a) _ _ (λ stops. inl stops)
      (λ goes.
        on_if P (not (is_flag a)) _ _
          (λ positional.
            inr (goes, ground (arith, positional), split_args-IsPositional is_bool (next ∷ args)))
          (λ flag.
            on_if P (takes_value is_bool a) _ _ (λ takes. split_args-IsPositional is_bool args)
              (λ bare. split_args-IsPositional is_bool (next ∷ args))))

-- Positional arguments stay where they are.
pub split_args_positional :
    (is_bool : Text → Bool) (args : List Text)
    → IsPositional args
    → split_args is_bool args ≡ ([], args)
unfolding split_args
split_args_positional is_bool [] h = refl
split_args_positional is_bool (a ∷ []) (inl stops) = ground (arith, stops)
split_args_positional is_bool (a ∷ []) (inr (goes, positional, rest)) =
    ground (arith, goes, positional)
split_args_positional is_bool (a ∷ (next ∷ args)) (inl stops) = ground (arith, stops)
split_args_positional is_bool (a ∷ (next ∷ args)) (inr (goes, positional, rest)) =
    ground (arith, goes, positional, split_args_positional is_bool (next ∷ args) rest)
