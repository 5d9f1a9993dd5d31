-- ===== src/Fragment.antt =====
-- internal/signaling/fragment.go: the fragment of a browser URL, an access code with flags behind it. The
-- text is its bytes.
use bitbang_cli.Grant.Fields.{join}
use bitbang_cli.Grant.Spec.{split_commas}
use bitbang_cli.Prelude.{
  Text, Bool, ◌∷◌, All, is_empty, ℕ, List, ◌≡◌, ◌≢◌, if◌then◌else◌, leb, false, ◌==◌, ◌&&◌, text_eq,
  ◌++◌, [], true, ◌||◌, arith, refl, codes, All-append, ◌∙◌, ap,
}

unfoldable pub is_code_byte : ℕ → Bool
is_code_byte b =
    leb b'A' b && leb b b'Z'
    || leb b'a' b && leb b b'z'
    || leb b'0' b && leb b b'9'
    || b == b'_'
    || b == b'-'

-- The code at the front, and what is behind it.
unfoldable pub split_code : Text → Text × Text
split_code [] = ([], [])
split_code (b ∷ bs) =
    let rest = split_code bs in if is_code_byte b then (b ∷ rest.0, rest.1) else ([], b ∷ bs)

unfoldable pub until_slash : Text → Text
until_slash [] = []
until_slash (b ∷ bs) = let rest = until_slash bs in if b == b'/' then [] else b ∷ rest

unfoldable pub keep_flags : List Text → List Text
keep_flags [] = []
keep_flags (f ∷ fs) = let rest = keep_flags fs in if is_empty f then rest else f ∷ rest

unfoldable pub flags_after : Text → List Text
unfolding until_slash keep_flags
flags_after [] = []
flags_after (b ∷ bs) = if b == b'!' then keep_flags (split_commas (until_slash bs)) else []

unfoldable pub parse_fragment : Text → Text × List Text
unfolding split_code flags_after
parse_fragment fragment = let parts = split_code fragment in (parts.0, flags_after parts.1)

-- The text before the first `=`.
unfoldable pub flag_name : Text → Text
flag_name [] = []
flag_name (b ∷ bs) = let rest = flag_name bs in if b == b'=' then [] else b ∷ rest

unfoldable pub has_flag : List Text → Text → Bool
unfolding flag_name
has_flag [] want = false
has_flag (f ∷ fs) want = text_eq (flag_name f) want || has_flag fs want

-- A byte of a flag: neither the comma nor the slash.
abbrev pub IsFlagByte : ℕ → Type 0
IsFlagByte b = (b ≢ b',') × (b ≢ b'/')

-- A flag that the grammar can write.
abbrev pub IsFlag : Text → Type 0
IsFlag f = (is_empty f ≡ false) × All IsFlagByte f

split_code-append :
    (code rest : Text)
    → All (λ b. is_code_byte b ≡ true) code
    → split_code (code ++ (b'!' ∷ rest)) ≡ (code, b'!' ∷ rest)
unfolding split_code is_code_byte
split_code-append [] rest h = refl
split_code-append (b ∷ code) rest h = ground (arith, split_code-append code rest h.1)

-- Nothing, or the device URL that a slash opens.
abbrev pub IsTail : Text → Type 0
IsTail [] = Unit
IsTail (b ∷ bs) = b ≡ b'/'

until_slash-append :
    (flags tail : Text)
    → All (λ b. b ≢ b'/') flags
    → IsTail tail
    → until_slash (flags ++ tail) ≡ flags
unfolding until_slash
until_slash-append [] [] h t = refl
until_slash-append [] (b ∷ tail) h t = ground arith
until_slash-append (b ∷ flags) tail h t = ground (arith, until_slash-append flags tail h.1 t)

split_commas-flag : (f : Text) → All IsFlagByte f → split_commas f ≡ f ∷ []
unfolding split_commas
split_commas-flag [] h = refl
split_commas-flag (b ∷ f) h = ground (arith, split_commas-flag f h.1)

split_commas-append :
    (f rest : Text) → All IsFlagByte f → split_commas (f ++ (b',' ∷ rest)) ≡ f ∷ split_commas rest
unfolding split_commas
split_commas-append [] rest h = refl
split_commas-append (b ∷ f) rest h = ground (arith, split_commas-append f rest h.1)

split_commas-join :
    (f : Text) (fs : List Text)
    → All IsFlag (f ∷ fs)
    → split_commas (join (codes ",") (f ∷ fs)) ≡ f ∷ fs
unfolding join
split_commas-join f [] h = split_commas-flag f h.0.1
split_commas-join f (g ∷ fs) h =
    split_commas-append f (join (codes ",") (g ∷ fs)) h.0.1
    ∙ ap (◌∷◌ f) (split_commas-join g fs h.1)

keep_flags-All : (fs : List Text) → All IsFlag fs → keep_flags fs ≡ fs
unfolding keep_flags
keep_flags-All [] h = refl
keep_flags-All (f ∷ fs) h = ground (arith, keep_flags-All fs h.1)

no_slash : (f : Text) → All IsFlagByte f → All (λ b. b ≢ b'/') f
no_slash [] h = tt
no_slash (b ∷ f) h = (h.0.1, no_slash f h.1)

join-no_slash : (fs : List Text) → All IsFlag fs → All (λ b. b ≢ b'/') (join (codes ",") fs)
unfolding join
join-no_slash [] h = tt
join-no_slash (f ∷ []) h = no_slash f h.0.1
join-no_slash (f ∷ (g ∷ fs)) h =
    All-append _ f (b',' ∷ join (codes ",") (g ∷ fs)) (no_slash f h.0.1)
      ((λ e. absurd (omega arith)), join-no_slash (g ∷ fs) h.1)

flags_lem :
    (flags : List Text)
    → All IsFlag flags
    → keep_flags (split_commas (join (codes ",") flags)) ≡ flags
unfolding split_commas join keep_flags
flags_lem [] h = refl
flags_lem (f ∷ fs) h = ap keep_flags (split_commas-join f fs h) ∙ keep_flags-All (f ∷ fs) h

-- A fragment of a code, an exclamation mark, flags joined by commas and perhaps a device URL is parsed
-- into the code and the flags, when the code has code bytes only and each flag is a non-empty text
-- without a comma or a slash.
pub parse_fragment-join :
    (code : Text) (flags : List Text) (tail : Text)
    → All (λ b. is_code_byte b ≡ true) code
    → All IsFlag flags
    → IsTail tail
    → parse_fragment (code ++ (b'!' ∷ (join (codes ",") flags ++ tail))) ≡ (code, flags)
unfolding parse_fragment
parse_fragment-join code flags tail hc hf ht = rw (
  split_code-append code (join (codes ",") flags ++ tail) hc,
  flags_after,
  until_slash-append (join (codes ",") flags) tail (join-no_slash flags hf) ht,
  flags_lem flags hf,
)
