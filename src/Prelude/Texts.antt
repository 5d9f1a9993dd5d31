-- ===== src/Prelude/Texts.antt =====
-- Text as the list of its code points: Go's strings where the program walks or compares them.
use Prim.Native.Nat.{ℕ}
use Prim.Native.Char.{code}
use Prim.Native.String.{String}
use mathlib.Core.Path.{◌≡◌, refl, subst}
use mathlib.Core.Logic.{◌↔◌}
use mathlib.Core.Bool.{Bool, true, false, ◌&&◌, ◌||◌}
use mathlib.Core.List.{List, [], ◌∷◌}
use native.Mathlib.Omega.{arith}
use bitbang_cli.Prelude.Tests.{ltb, if◌then◌else◌, ◌==◌, Eq}

abbrev pub Text : Type 0
Text = List ℕ

-- The text that a literal of the source stands for.
abbrev pub codes : String → Text
codes String.[] = []
codes (String.◌∷◌ c s) = code c ∷ codes s

abbrev pub text_eq : Text → Text → Bool
text_eq [] [] = true
text_eq [] (y ∷ ys) = false
text_eq (x ∷ xs) [] = false
text_eq (x ∷ xs) (y ∷ ys) = x == y && text_eq xs ys

pub text_eq_refl : (s : Text) → text_eq s s ≡ true
text_eq_refl [] = refl
text_eq_refl (x ∷ xs) = ground (arith, text_eq_refl xs)

pub text_eq→eq : (s t : Text) → text_eq s t ≡ true → s ≡ t
text_eq→eq [] [] h = refl
text_eq→eq [] (y ∷ ys) h = cc
text_eq→eq (x ∷ xs) [] h = cc
text_eq→eq (x ∷ xs) (y ∷ ys) h = ground (arith, text_eq→eq xs ys)

pub text_eq_iff : (s t : Text) → (text_eq s t ≡ true) ↔ (s ≡ t)
text_eq_iff s t = (text_eq→eq s t, λ e. subst (λ u. text_eq s u ≡ true) e (text_eq_refl s))

instance abbrev pub text_eq_eq : Eq Text
text_eq_eq = record { beq = text_eq; beq_iff = text_eq_iff }

-- `sort.Strings`, on the order of the bytes.
unfoldable pub text_le : Text → Text → Bool
text_le [] t = true
text_le (x ∷ xs) [] = false
text_le (x ∷ xs) (y ∷ ys) = ltb x y || (x == y && text_le xs ys)

unfoldable pub sort_in : Text → List Text → List Text
sort_in t [] = t ∷ []
sort_in t (u ∷ us) = if text_le t u then t ∷ (u ∷ us) else u ∷ sort_in t us

unfoldable pub sort_texts : List Text → List Text
unfolding sort_in
sort_texts [] = []
sort_texts (t ∷ ts) = sort_in t (sort_texts ts)
