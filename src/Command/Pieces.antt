-- ===== src/Command/Pieces.antt =====
-- cmd/bitbang/args.go: an argument list as the comment on `reorderArgs` describes it.
use mathlib.Core.List.{append_assoc}
use bitbang_cli.Command.Args.{
  ends_flags, is_flag, has_equals, flag_name, starts_with_dash, reorder_args, split_args,
  takes_value,
}
use bitbang_cli.Prelude.{
  Text, List, Bool, All, ◌≡◌, ◌≢◌, false, ◌++◌, ◌∷◌, arith, [], inr, true, inl, Bool-cases, subst,
  ap, codes, text_eq_iff, ◌⊎◌, ◌==◌, refl, text_eq, on_if, not,
}

-- A positional argument, a flag that stands alone, or a flag with the argument behind it.
pub data Piece : Type 0 where
  operand : Text → Piece
  switch : Text → Piece
  option : Text → Text → Piece

-- What ends the pieces: nothing, a flag whose value is missing, or `--` with all that is behind it.
pub data Ending : Type 0 where
  nothing : Ending
  dangling : Text → Ending
  stop : List Text → Ending

abbrev pub Undashed : Text → Type 0
Undashed [] = Unit
Undashed (c ∷ s) = c ≢ b'-'

-- A bare dash is no flag.
abbrev pub IsOperand : Text → Type 0
IsOperand a = (a ≡ codes "-") ⊎ Undashed a

-- A dash with something behind it, and not `--`.
abbrev pub IsDashed : Text → Type 0
IsDashed a = ((s : Text) × (a ≡ b'-' ∷ s)) × (a ≢ codes "-") × (a ≢ codes "--")

-- `name=value`
abbrev pub IsAssignment : Text → Type 0
IsAssignment a = (front : Text) × (value : Text) × (a ≡ front ++ (b'=' ∷ value))

-- The name behind the leading dashes.
abbrev pub IsNamed : Text → Text → Type 0
IsNamed name a = (dashes : Text) × (a ≡ dashes ++ name) × All (λ c. c ≡ b'-') dashes × Undashed name

-- A flag whose value is the next argument: no value of its own, and its name is not that of a Boolean flag.
abbrev pub WantsValue : (Text → Bool) → Text → Type 0
WantsValue is_bool a =
    All (λ c. c ≢ b'=') a × ((name : Text) × IsNamed name a × (is_bool name ≡ false))

abbrev pub IsComplete : (Text → Bool) → Text → Type 0
IsComplete is_bool a = IsAssignment a ⊎ ((name : Text) × IsNamed name a × (is_bool name ≡ true))

abbrev pub IsPiece : (Text → Bool) → Piece → Type 0
IsPiece is_bool (operand a) = IsOperand a
IsPiece is_bool (switch a) = IsDashed a × IsComplete is_bool a
IsPiece is_bool (option a value) = IsDashed a × WantsValue is_bool a

abbrev pub IsEnding : (Text → Bool) → Ending → Type 0
IsEnding is_bool nothing = Unit
IsEnding is_bool (dangling a) = IsDashed a × WantsValue is_bool a
IsEnding is_bool (stop rest) = Unit

abbrev pub words_of : List Piece → List Text
words_of [] = []
words_of (operand a ∷ ps) = a ∷ words_of ps
words_of (switch a ∷ ps) = a ∷ words_of ps
words_of (option a value ∷ ps) = a ∷ (value ∷ words_of ps)

abbrev pub flags_of : List Piece → List Text
flags_of [] = []
flags_of (operand a ∷ ps) = flags_of ps
flags_of (switch a ∷ ps) = a ∷ flags_of ps
flags_of (option a value ∷ ps) = a ∷ (value ∷ flags_of ps)

abbrev pub operands_of : List Piece → List Text
operands_of [] = []
operands_of (operand a ∷ ps) = a ∷ operands_of ps
operands_of (switch a ∷ ps) = operands_of ps
operands_of (option a value ∷ ps) = operands_of ps

abbrev pub last_flag : Ending → List Text
last_flag nothing = []
last_flag (dangling a) = a ∷ []
last_flag (stop rest) = []

abbrev pub stopped : Ending → List Text
stopped nothing = []
stopped (dangling a) = []
stopped (stop rest) = codes "--" ∷ rest

is_flag-IsOperand : (a : Text) → is_flag a ≡ false → IsOperand a
unfolding is_flag starts_with_dash
is_flag-IsOperand [] h = inr tt
is_flag-IsOperand (c ∷ s) h = elim (Bool-cases (text_eq (c ∷ s) (codes "-"))) [
  | inl bare ↦ inl ((text_eq_iff (c ∷ s) (codes "-")).0 bare)
  | inr longer ↦ inr (λ dash. absurd (ground (arith, h, longer, dash)))
]

is_flag-IsDashed : (a : Text) → is_flag a ≡ true → ends_flags a ≡ false → IsDashed a
unfolding is_flag starts_with_dash
is_flag-IsDashed [] h goes = absurd (ground (arith, h))
is_flag-IsDashed (c ∷ s) h goes = (
  (s, ground (arith, h)),
  λ bare. absurd (ground (arith, h, (text_eq_iff (c ∷ s) (codes "-")).1 bare)),
  λ stops. absurd (ground (arith, goes, (text_eq_iff (c ∷ s) (codes "--")).1 stops)),
)

has_equals-IsAssignment : (a : Text) → has_equals a ≡ true → IsAssignment a
unfolding has_equals
has_equals-IsAssignment [] h = absurd (ground (arith, h))
has_equals-IsAssignment (c ∷ s) h = elim (Bool-cases (c == b'=')) [
  | inl here ↦ ([], s, ground (arith, here))
  | inr later ↦
      let (front, value, e) = has_equals-IsAssignment s (ground (arith, h, later)) in
      (c ∷ front, value, ap (λ t. c ∷ t) e)
]

has_equals_none : (a : Text) → has_equals a ≡ false → All (λ c. c ≢ b'=') a
unfolding has_equals
has_equals_none [] h = tt
has_equals_none (c ∷ s) h =
    (λ e. absurd (ground (arith, h, e)), has_equals_none s (ground (arith, h)))

flag_name-IsNamed : (a : Text) → IsNamed (flag_name a) a
unfolding flag_name
flag_name-IsNamed [] = ([], refl, tt, tt)
flag_name-IsNamed (c ∷ s) = elim (Bool-cases (c == b'-')) [
  | inl dash ↦
      let (dashes, e, all, bare) = flag_name-IsNamed s in
      subst (λ n. IsNamed n (c ∷ s)) (ground (arith, dash))
        (c ∷ dashes, ap (λ t. c ∷ t) e, (ground (arith, dash), all), bare)
  | inr other ↦
      subst (λ n. IsNamed n (c ∷ s)) (ground (arith, other))
        ([], refl, tt, λ dash. absurd (ground (arith, other, dash)))
]

takes_value-WantsValue :
    (is_bool : Text → Bool) (a : Text) → takes_value is_bool a ≡ true → WantsValue is_bool a
unfolding takes_value
takes_value-WantsValue is_bool a h =
    (has_equals_none a (ground (arith, h)), (flag_name a, flag_name-IsNamed a, ground (arith, h)))

takes_value-IsComplete :
    (is_bool : Text → Bool) (a : Text) → takes_value is_bool a ≡ false → IsComplete is_bool a
unfolding takes_value
takes_value-IsComplete is_bool a h = elim (Bool-cases (has_equals a)) [
  | inl assigned ↦ inl (has_equals-IsAssignment a assigned)
  | inr plain ↦ inr (flag_name a, flag_name-IsNamed a, ground (arith, h, plain))
]

-- The arguments fall into pieces and an ending, and the two lists are those of the flags and of the rest.
abbrev pub Described : (Text → Bool) → List Text → List Text × List Text → Type 0
Described is_bool args (flags, rest) =
    (ps : List Piece) × (e : Ending) × All (IsPiece is_bool) ps
    × IsEnding is_bool e
    × (args ≡ words_of ps ++ (last_flag e ++ stopped e))
    × (flags ≡ flags_of ps ++ last_flag e)
    × (rest ≡ operands_of ps ++ stopped e)

module _ (is_bool : Text → Bool) where
  add_operand :
      (a : Text) (args : List Text) (r : List Text × List Text)
      → IsOperand a
      → Described is_bool args r
      → Described is_bool (a ∷ args) (r.0, a ∷ r.1)
  add_operand a args r h (ps, e, pieces, ending, whole, flags, rest) =
      (operand a ∷ ps, e, (h, pieces), ending, ap (λ l. a ∷ l) whole, flags, ap (λ l. a ∷ l) rest)

  add_switch :
      (a : Text) (args : List Text) (r : List Text × List Text)
      → IsDashed a
      → takes_value is_bool a ≡ false
      → Described is_bool args r
      → Described is_bool (a ∷ args) (a ∷ r.0, r.1)
  add_switch a args r h bare (ps, e, pieces, ending, whole, flags, rest) = (
    switch a ∷ ps,
    e,
    ((h, takes_value-IsComplete is_bool a bare), pieces),
    ending,
    ap (λ l. a ∷ l) whole,
    ap (λ l. a ∷ l) flags,
    rest,
  )

  add_option :
      (a next : Text) (args : List Text) (r : List Text × List Text)
      → IsDashed a
      → takes_value is_bool a ≡ true
      → Described is_bool args r
      → Described is_bool (a ∷ (next ∷ args)) (a ∷ (next ∷ r.0), r.1)
  add_option a next args r h takes (ps, e, pieces, ending, whole, flags, rest) = (
    option a next ∷ ps,
    e,
    ((h, takes_value-WantsValue is_bool a takes), pieces),
    ending,
    ap (λ l. a ∷ (next ∷ l)) whole,
    ap (λ l. a ∷ (next ∷ l)) flags,
    rest,
  )

  no_words : Described is_bool [] ([], [])
  no_words = ([], nothing, tt, tt, refl, refl, refl)

  stops_here :
      (a : Text) (args : List Text)
      → ends_flags a ≡ true
      → Described is_bool (a ∷ args) ([], a ∷ args)
  stops_here a args stops =
      let same : a ∷ args ≡ codes "--" ∷ args =
        ap (λ t. t ∷ args) ((text_eq_iff a (codes "--")).0 stops) in
      ([], stop args, tt, tt, same, refl, same)

  last_word :
      (a : Text) → ends_flags a ≡ false → is_flag a ≡ true → Described is_bool (a ∷ []) (a ∷ [], [])
  last_word a goes flag = elim (Bool-cases (takes_value is_bool a)) [
    | inl takes ↦ (
      [],
      dangling a,
      tt,
      (is_flag-IsDashed a flag goes, takes_value-WantsValue is_bool a takes),
      refl,
      refl,
      refl,
    )
    | inr bare ↦ add_switch a [] ([], []) (is_flag-IsDashed a flag goes) bare no_words
  ]

  pub split_args-Described : (args : List Text) → Described is_bool args (split_args is_bool args)
  unfolding split_args
  split_args-Described [] = no_words
  split_args-Described (a ∷ []) =
      let P : List Text × List Text → Type 0 = λ r. Described is_bool (a ∷ []) r in
      on_if P (ends_flags a) _ _ (λ stops. stops_here a [] stops)
        (λ goes.
          on_if P (is_flag a) _ _ (λ flag. last_word a goes flag)
            (λ plain. add_operand a [] ([], []) (is_flag-IsOperand a plain) no_words))
  split_args-Described (a ∷ (next ∷ args)) =
      let P : List Text × List Text → Type 0 = λ r. Described is_bool (a ∷ (next ∷ args)) r in
      let rest = split_args is_bool (next ∷ args) in
      let later = split_args-Described (next ∷ args) in
      on_if P (ends_flags a) _ _ (λ stops. stops_here a (next ∷ args) stops)
        (λ goes.
          on_if P (not (is_flag a)) _ _
            (λ plain.
              add_operand a (next ∷ args) rest (is_flag-IsOperand a (ground (arith, plain))) later)
            (λ flag.
              let dashed = is_flag-IsDashed a (ground (arith, flag)) goes in
              on_if P (takes_value is_bool a) _ _
                (λ takes.
                  add_option a next args (split_args is_bool args) dashed takes
                    (split_args-Described args))
                (λ bare. add_switch a (next ∷ args) rest dashed bare later)))

-- The reordering of the pieces: the flags with their values, then the positional arguments, then `--` and
-- what is behind it.
abbrev pub IsReordered : (Text → Bool) → List Text → List Text → Type 0
IsReordered is_bool args out =
    (ps : List Piece) × (e : Ending) × All (IsPiece is_bool) ps
    × IsEnding is_bool e
    × (args ≡ words_of ps ++ (last_flag e ++ stopped e))
    × (out ≡ flags_of ps ++ (last_flag e ++ (operands_of ps ++ stopped e)))

pub reorder_args-IsReordered :
    (is_bool : Text → Bool) (args : List Text)
    → IsReordered is_bool args (reorder_args is_bool args)
unfolding reorder_args
reorder_args-IsReordered is_bool args =
    let (ps, e, pieces, ending, whole, flags, rest) = split_args-Described is_bool args in
    (
      ps,
      e,
      pieces,
      ending,
      whole,
      ground (
        arith,
        flags,
        rest,
        append_assoc (flags_of ps) (last_flag e) (operands_of ps ++ stopped e),
      ),
    )
