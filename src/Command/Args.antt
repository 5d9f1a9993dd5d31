-- ===== src/Command/Args.antt =====
-- cmd/bitbang/args.go: flags are moved in front of the positional arguments. The set of flags that the
-- program declares is a parameter: whether a name is that of a Boolean flag.
use bitbang_cli.Prelude.{
  Text, ◌∷◌, Bool, text_eq, false, ◌&&◌, if◌then◌else◌, not, List, ◌==◌, ◌++◌, codes, [], ◌||◌,
}

unfoldable pub starts_with_dash : Text → Bool
starts_with_dash [] = false
starts_with_dash (c ∷ s) = c == b'-'

-- `strings.HasPrefix(a, "-")`, and not the bare dash.
unfoldable pub is_flag : Text → Bool
unfolding starts_with_dash
is_flag a = starts_with_dash a && not (text_eq a (codes "-"))

unfoldable pub has_equals : Text → Bool
has_equals [] = false
has_equals (c ∷ s) = c == b'=' || has_equals s

-- `strings.TrimLeft(a, "-")`
unfoldable pub flag_name : Text → Text
flag_name [] = []
flag_name (c ∷ s) = let rest = flag_name s in if c == b'-' then rest else c ∷ s

-- A flag that takes the next argument as its value.
unfoldable pub takes_value : (Text → Bool) → Text → Bool
unfolding has_equals flag_name
takes_value is_bool a = not (has_equals a) && not (is_bool (flag_name a))

abbrev pub ends_flags : Text → Bool
ends_flags a = text_eq a (codes "--")

-- The loop from an argument on: the flags with their values, and the positional arguments.
unfoldable pub split_args : (Text → Bool) → List Text → List Text × List Text
unfolding is_flag takes_value
split_args is_bool [] = ([], [])
split_args is_bool (a ∷ []) =
    if ends_flags a then ([], a ∷ []) else if is_flag a then (a ∷ [], []) else ([], a ∷ [])
split_args is_bool (a ∷ (next ∷ args)) =
    let rest = split_args is_bool (next ∷ args) in
    let after_value = split_args is_bool args in
    if ends_flags a
    then ([], a ∷ (next ∷ args))
    else if not (is_flag a)
    then (rest.0, a ∷ rest.1)
    else if takes_value is_bool a
    then (a ∷ (next ∷ after_value.0), after_value.1)
    else (a ∷ rest.0, rest.1)

unfoldable pub reorder_args : (Text → Bool) → List Text → List Text
unfolding split_args
reorder_args is_bool args = (split_args is_bool args).0 ++ (split_args is_bool args).1
