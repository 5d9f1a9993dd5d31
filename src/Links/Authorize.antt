-- ===== src/Links/Authorize.antt =====
-- internal/links/table.go: whom Authorize admits.
use bitbang_cli.Prelude.{
  Text, List, [], All, Option, ◌≢◌, is_empty, ◌≡◌, false, some, ◌∷◌, ◌↔◌, ◌⊎◌, inl, inr, arith,
  if◌then◌else◌, ◌==◌, text_eq_iff, subst, ℕ, sym, true, none, refl, List-cases, Bool-cases,
}
use bitbang_cli.Links.{
  Terms, authorize, last_match, Option, is_empty, false, some, ℕ, check, true, none,
}
use bitbang_cli.Pin.{constant_time_compare}

-- No row of these has the code.
abbrev pub NoneWith : Text → List Terms → Type 0
NoneWith code es = All (λ e. e.code ≢ code) es

-- The row holds the code, and no later row does.
abbrev pub LastWith : Text → Terms → List Terms → Type 0
LastWith code e [] = ⊥
LastWith code e (x ∷ es) = ((x ≡ e) × (x.code ≡ code) × NoneWith code es) ⊎ LastWith code e es

step_lem :
    (code c : Text) (found start : Option Terms)
    → is_empty code ≡ false
    → let next : Option Terms =
        if is_empty c then start else if constant_time_compare code c == 1 then found else start in
      ((c ≡ code) × (next ≡ found)) ⊎ ((c ≢ code) × (next ≡ start))
step_lem [] [] found start h = absurd cc
step_lem (z ∷ zs) [] found start h = inr ((λ e. cc), refl)
step_lem code (y ∷ ys) found start h = ground (arith, text_eq_iff code (y ∷ ys))

found_lem :
    (code : Text) (x : Terms) (es : List Terms) (start : Option Terms) (e : Terms)
    (m : Option Terms)
    → (m ≡ some e) ↔ (LastWith code e es ⊎ ((some x ≡ some e) × NoneWith code es))
    → x.code ≡ code
    → (m ≡ some e) ↔ (LastWith code e (x ∷ es) ⊎ ((start ≡ some e) × NoneWith code (x ∷ es)))
found_lem code x es start e m ih here = ground arith

passed_lem :
    (code : Text) (x : Terms) (es : List Terms) (start : Option Terms) (e : Terms)
    (m : Option Terms)
    → (m ≡ some e) ↔ (LastWith code e es ⊎ ((start ≡ some e) × NoneWith code es))
    → x.code ≢ code
    → (m ≡ some e) ↔ (LastWith code e (x ∷ es) ⊎ ((start ≡ some e) × NoneWith code (x ∷ es)))
passed_lem code x es start e m ih other = ground arith

last_match_lem :
    (code : Text) (es : List Terms) (start : Option Terms) (e : Terms)
    → is_empty code ≡ false
    → (last_match code es start ≡ some e)
      ↔ (LastWith code e es ⊎ ((start ≡ some e) × NoneWith code es))
unfolding last_match
last_match_lem code [] start e h = ground arith
last_match_lem code (x ∷ es) start e h =
    let P : Option Terms → Type 0 = λ m.
      (last_match code es m ≡ some e)
      ↔ (LastWith code e (x ∷ es) ⊎ ((start ≡ some e) × NoneWith code (x ∷ es))) in
    elim (step_lem code x.code (some x) start h) [
      | inl (here, eq) ↦ subst P (sym eq) (
          found_lem code x es start e (last_match code es (some x))
            (last_match_lem code es (some x) e h) here)
      | inr (other, eq) ↦ subst P (sym eq) (
          passed_lem code x es start e (last_match code es start) (last_match_lem code es start e h)
            other)
    ]

pub last_match_empty : (es : List Terms) (start : Option Terms) → last_match [] es start ≡ start
unfolding last_match
last_match_empty [] start = refl
last_match_empty (x ∷ es) start = elim (List-cases x.code) [
  | inl e ↦ rw (e, last_match_empty es start)
  | inr (y, ys, e) ↦ rw (e, last_match_empty es start)
]

checked_lem :
    (m : Option Terms) (now : ℕ) (e : Terms)
    → (elim m [ none ↦ none | some x ↦ if check x now then some x else none ] ≡ some e)
      ↔ ((m ≡ some e) × (check e now ≡ true))
checked_lem none now e = ground arith
checked_lem (some x) now e = elim (Bool-cases (check x now)) [
  | inl t ↦ (λ h. (ground (arith, h, t), ground (arith, h, t)), λ h. rw (t, h.0))
  | inr f ↦ ground (arith, f)
]

-- Authorize answers a row exactly when the presented code is not empty, the row is the last that holds
-- it, and the row has not expired.
pub authorize_lem :
    (code : Text) (now : ℕ) (es : List Terms) (e : Terms)
    → (authorize code now es ≡ some e)
      ↔ ((is_empty code ≡ false) × LastWith code e es × (check e now ≡ true))
unfolding authorize
authorize_lem [] now es e = ground (arith, last_match_empty es none)
authorize_lem (c ∷ cs) now es e =
    ground (
      arith,
      checked_lem (last_match (c ∷ cs) es none) now e,
      last_match_lem (c ∷ cs) es none e refl,
    )
