-- ===== src/Command/Twice.antt =====
-- cmd/bitbang/args.go: what the reordering does, once and twice.
use bitbang_cli.Command.Pieces.{IsReordered, reorder_args-IsReordered}
use bitbang_cli.Command.Reordered.{IsPositional, reorder_args-Perm, split_args_positional}
use bitbang_cli.Command.Args.{split_args, reorder_args, ends_flags, is_flag, takes_value}
use bitbang_cli.Prelude.{
  Text, List, Bool, All, ◌≡◌, false, ◌++◌, ◌∷◌, arith, [], on_if, inr, true, inl, Bool-cases, subst,
  ◌∙◌, sym, ap, not, All-append,
}
use mathlib.Core.List.{append-nil, append_assoc, Perm}

abbrev pub IsPlain : Text → Type 0
IsPlain a = (ends_flags a ≡ false) × (is_flag a ≡ false)

plain-IsPositional :
    (front back : List Text) → All IsPlain front → IsPositional back → IsPositional (front ++ back)
plain-IsPositional [] back h k = k
plain-IsPositional (a ∷ front) back h k = inr (h.0.0, h.0.1, plain-IsPositional front back h.1 k)

split_flag :
    (is_bool : Text → Bool) (a : Text) (args : List Text)
    → ends_flags a ≡ false
    → is_flag a ≡ true
    → takes_value is_bool a ≡ false
    → split_args is_bool (a ∷ args) ≡ (a ∷ (split_args is_bool args).0, (split_args is_bool args).1)
unfolding split_args
split_flag is_bool a [] goes flag bare = ground (arith, goes, flag)
split_flag is_bool a (next ∷ args) goes flag bare = ground (arith, goes, flag, bare)

reorder_flag :
    (is_bool : Text → Bool) (a : Text) (args : List Text)
    → ends_flags a ≡ false
    → is_flag a ≡ true
    → takes_value is_bool a ≡ false
    → reorder_args is_bool (a ∷ args) ≡ a ∷ reorder_args is_bool args
unfolding reorder_args
reorder_flag is_bool a args goes flag bare =
    ground (arith, split_flag is_bool a args goes flag bare)

reorder_value :
    (is_bool : Text → Bool) (a next : Text) (args : List Text)
    → ends_flags a ≡ false
    → is_flag a ≡ true
    → takes_value is_bool a ≡ true
    → reorder_args is_bool (a ∷ (next ∷ args)) ≡ a ∷ (next ∷ reorder_args is_bool args)
unfolding reorder_args split_args
reorder_value is_bool a next args goes flag takes = ground (arith, goes, flag, takes)

reorder_positional :
    (is_bool : Text → Bool) (args : List Text)
    → IsPositional args
    → reorder_args is_bool args ≡ args
unfolding reorder_args
reorder_positional is_bool args h = ground (arith, split_args_positional is_bool args h)

All-IsPositional : (args : List Text) → All IsPlain args → IsPositional args
All-IsPositional [] h = tt
All-IsPositional (a ∷ args) h = inr (h.0.0, h.0.1, All-IsPositional args h.1)

reorder_alone :
    (is_bool : Text → Bool) (a : Text)
    → ends_flags a ≡ false
    → is_flag a ≡ true
    → reorder_args is_bool (a ∷ []) ≡ a ∷ []
unfolding reorder_args split_args
reorder_alone is_bool a goes flag = ground (arith, goes, flag)

-- A flag at the end whose value is missing takes the first positional argument.
reorder_dangling :
    (is_bool : Text → Bool) (a : Text) (args : List Text)
    → ends_flags a ≡ false
    → is_flag a ≡ true
    → All IsPlain args
    → reorder_args is_bool (a ∷ args) ≡ a ∷ args
reorder_dangling is_bool a [] goes flag h = reorder_alone is_bool a goes flag
reorder_dangling is_bool a (next ∷ args) goes flag h = elim (Bool-cases (takes_value is_bool a)) [
  | inl takes ↦
      reorder_value is_bool a next args goes flag takes
      ∙ ap (λ l. a ∷ (next ∷ l)) (reorder_positional is_bool args (All-IsPositional args h.1))
  | inr bare ↦
      reorder_flag is_bool a (next ∷ args) goes flag bare
      ∙ ap (λ l. a ∷ l)
          (reorder_positional is_bool (next ∷ args) (All-IsPositional (next ∷ args) h))
]

-- The flags of `args`, then plain arguments, then the positional arguments of `args`.
reorder_again :
    (is_bool : Text → Bool) (args plain : List Text)
    → All IsPlain plain
    → reorder_args is_bool ((split_args is_bool args).0 ++ (plain ++ (split_args is_bool args).1))
      ≡ (split_args is_bool args).0 ++ (plain ++ (split_args is_bool args).1)
unfolding split_args reorder_args
reorder_again is_bool [] plain h =
    reorder_positional is_bool (plain ++ []) (plain-IsPositional plain [] h tt)
reorder_again is_bool (a ∷ []) plain h =
    let P : List Text × List Text → Type 0 =
      λ r. reorder_args is_bool (r.0 ++ (plain ++ r.1)) ≡ r.0 ++ (plain ++ r.1) in
    on_if P (ends_flags a) _ _
      (λ stops.
        reorder_positional is_bool (plain ++ (a ∷ []))
          (plain-IsPositional plain (a ∷ []) h (inl stops)))
      (λ goes.
        on_if P (is_flag a) _ _
          (λ flag.
            subst (λ l. reorder_args is_bool (a ∷ l) ≡ a ∷ l) (sym (append-nil plain))
              (reorder_dangling is_bool a plain goes flag h))
          (λ positional.
            reorder_positional is_bool (plain ++ (a ∷ []))
              (plain-IsPositional plain (a ∷ []) h (inr (goes, positional, tt)))))
reorder_again is_bool (a ∷ (next ∷ args)) plain h =
    let P : List Text × List Text → Type 0 =
      λ r. reorder_args is_bool (r.0 ++ (plain ++ r.1)) ≡ r.0 ++ (plain ++ r.1) in
    let rest = split_args is_bool (next ∷ args) in
    let later = split_args is_bool args in
    on_if P (ends_flags a) _ _
      (λ stops.
        reorder_positional is_bool (plain ++ (a ∷ (next ∷ args)))
          (plain-IsPositional plain (a ∷ (next ∷ args)) h (inl stops)))
      (λ goes.
        on_if P (not (is_flag a)) _ _
          (λ positional.
            subst (λ l. reorder_args is_bool (rest.0 ++ l) ≡ rest.0 ++ l)
              (append_assoc plain (a ∷ []) rest.1)
              (reorder_again is_bool (next ∷ args) (plain ++ (a ∷ []))
                (All-append IsPlain plain (a ∷ []) h ((goes, ground (arith, positional)), tt))))
          (λ flag.
            on_if P (takes_value is_bool a) _ _
              (λ takes.
                reorder_value is_bool a next (later.0 ++ (plain ++ later.1)) goes
                  (ground (arith, flag)) takes
                ∙ ap (λ l. a ∷ (next ∷ l)) (reorder_again is_bool args plain h))
              (λ bare.
                reorder_flag is_bool a (rest.0 ++ (plain ++ rest.1)) goes (ground (arith, flag))
                  bare
                ∙ ap (λ l. a ∷ l) (reorder_again is_bool (next ∷ args) plain h))))

-- Whatever the arguments and the flags of the program: the arguments fall into positional ones, flags that
-- stand alone (with a value of their own behind `=`, or the name of a Boolean flag) and flags with the
-- next argument as their value, up to a last flag whose value is missing or up to `--`. The reordering is
-- the flags, each with its value and in their order, then the positional arguments in theirs, then `--`
-- with what is behind it; a bare dash is positional. It keeps every argument as often as it was given, and
-- a second reordering changes nothing.
pub reorder_args_lem :
    (is_bool : Text → Bool) (args : List Text)
    → IsReordered is_bool args (reorder_args is_bool args)
      × Perm (reorder_args is_bool args) args
      × (reorder_args is_bool (reorder_args is_bool args) ≡ reorder_args is_bool args)
unfolding reorder_args
reorder_args_lem is_bool args = (
  reorder_args-IsReordered is_bool args,
  reorder_args-Perm is_bool args,
  reorder_again is_bool args [] tt,
)
