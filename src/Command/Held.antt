-- ===== src/Command/Held.antt =====
-- What becomes of the writes.
use bitbang_cli.Prelude.{
  List, map, ◌≡◌, ℕ, ◌++◌, total, ◌∷◌, subst, [], length, ◌≤◌, sym, refl, ap, ◌⊎◌, ◌∙◌, false, ◌+◌,
  inr, arith, ltb, on_if, ◌&&◌, not, is_empty, inl, ◌-◌,
}
use bitbang_cli.Command.Hold.{
  drop_oldest, Holder, Call, Output, written, writes, not_shown, holds, releases, max_held_bytes,
}
use bitbang_cli.Wire.{Bytes}
use mathlib.Core.List.{append_assoc, List}

-- The writes of a list of calls.
abbrev pub all_writes : List Call → List Bytes
all_writes [] = []
all_writes (writes p ∷ cs) = p ∷ all_writes cs
all_writes (holds ∷ cs) = all_writes cs
all_writes (releases ∷ cs) = all_writes cs

-- An output shows the writes in their order, and each count of dropped writes stands for as many of them,
-- at their place.
abbrev pub Shows : List Output → List Bytes → Type 0
Shows [] ps = ps ≡ []
Shows (written p ∷ outs) ps = (rest : List Bytes) × (ps ≡ p ∷ rest) × Shows outs rest
Shows (not_shown n ∷ outs) ps =
    (skipped rest : List Bytes) × (length skipped ≡ n) × (ps ≡ skipped ++ rest) × Shows outs rest

pub Shows-append :
    (outs more : List Output) (ps qs : List Bytes)
    → Shows outs ps
    → Shows more qs
    → Shows (outs ++ more) (ps ++ qs)
Shows-append [] more ps qs h k = subst (λ l. Shows more (l ++ qs)) (sym h) k
Shows-append (written p ∷ outs) more ps qs (rest, e, h) k =
    (rest ++ qs, ap (λ l. l ++ qs) e, Shows-append outs more rest qs h k)
Shows-append (not_shown n ∷ outs) more ps qs (skipped, rest, size, e, h) k = (
  skipped,
  rest ++ qs,
  size,
  ap (λ l. l ++ qs) e ∙ append_assoc skipped rest qs,
  Shows-append outs more rest qs h k,
)

pub Shows-held : (ps : List Bytes) → Shows (map written ps) ps
Shows-held [] = refl
Shows-held (p ∷ ps) = (ps, refl, Shows-held ps)

-- The bytes are counted, and within the cap unless one write is past it by itself; a writer that does
-- not hold keeps nothing.
pub record IsHolder (h : Holder) : Type 0 where
  pub counted : h.bytes ≡ total length h.held
  pub capped : (h.bytes ≤ max_held_bytes) ⊎ (length h.held ≤ 1)
  pub passing : h.holding ≡ false → (h.held ≡ []) × (h.dropped ≡ 0)

-- What the loop drops is the front of what is held, and it stops within the cap.
abbrev pub Kept : ℕ → List Bytes → ℕ × ℕ × List Bytes → Type 0
Kept dropped held kept =
    (kept.0 ≡ total length kept.2)
    × ((kept.0 ≤ max_held_bytes) ⊎ (length kept.2 ≤ 1))
    × ((gone : List Bytes) × (held ≡ gone ++ kept.2) × (kept.1 ≡ dropped + length gone))

stop_capped :
    (bytes : ℕ) (p : Bytes) (held : List Bytes)
    → (ltb max_held_bytes bytes && not (is_empty held)) ≡ false
    → (bytes ≤ max_held_bytes) ⊎ (length (p ∷ held) ≤ 1)
stop_capped bytes p [] h = inr (omega arith)
stop_capped bytes p (q ∷ held) h = inl (ground arith)

pub drop_oldest-Kept :
    (bytes dropped : ℕ) (held : List Bytes)
    → bytes ≡ total length held
    → Kept dropped held (drop_oldest bytes dropped held)
unfolding drop_oldest
drop_oldest-Kept bytes dropped [] h = (h, inr (omega arith), ([], refl, omega arith))
drop_oldest-Kept bytes dropped (p ∷ held) h =
    on_if (Kept dropped (p ∷ held)) (ltb max_held_bytes bytes && not (is_empty held)) _ _
      (λ over.
        let (counted, capped, (gone, split, count)) =
          drop_oldest-Kept (bytes - length p) (dropped + 1) held (omega (arith, h)) in
        (counted, capped, (p ∷ gone, ap (λ l. p ∷ l) split, omega (arith, count))))
      (λ stops. (h, stop_capped bytes p held stops, ([], refl, omega arith)))

-- The outputs so far show a front of the writes; behind it stand the writes dropped since, and those held.
abbrev pub Accounts : Holder → List Output → List Bytes → Type 0
Accounts h outs ps =
    (shown skipped : List Bytes) × Shows outs shown
    × (length skipped ≡ h.dropped)
    × (ps ≡ shown ++ (skipped ++ h.held))
