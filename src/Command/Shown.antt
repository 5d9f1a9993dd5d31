-- ===== src/Command/Shown.antt =====
-- Every write is shown, counted as dropped, or still held, in order.
use bitbang_cli.Command.Held.{
  Accounts, IsHolder, Shows, Shows-append, Shows-held, drop_oldest-Kept, all_writes,
}
use bitbang_cli.Prelude.{
  List, ◌++◌, ◌≡◌, ◌∙◌, ◌∷◌, on_if, [], ap, length, ltb, arith, sym, ◌+◌, not, subst, map,
  total-append, length-append, refl, inr, true,
}
use bitbang_cli.Command.Hold.{
  release, write, new_hold_writer, Output, Holder, drop_oldest, written, hold_run, Call, hold_step,
  hold, writes, holds, releases,
}
use bitbang_cli.Wire.{Bytes}
use mathlib.Core.List.{append_assoc, append-nil, List}

-- What a step must keep.
abbrev pub IsAccounted : List Output → List Bytes → Holder × List Output → Type 0
IsAccounted outs ps r = IsHolder r.0 × Accounts r.0 (outs ++ r.1) ps

behind :
    (shown skipped held more : List Bytes)
    → (shown ++ (skipped ++ held)) ++ more ≡ shown ++ (skipped ++ (held ++ more))
behind shown skipped held more =
    append_assoc shown (skipped ++ held) more
    ∙ ap (λ l. shown ++ l) (append_assoc skipped held more)

no_length : (l : List Bytes) → length l ≡ 0 → l ≡ []
no_length [] e = refl
no_length (x ∷ l) e = absurd (omega (arith, e))

write-IsAccounted :
    (p : Bytes) (h : Holder) (outs : List Output) (ps : List Bytes)
    → IsHolder h
    → Accounts h outs ps
    → IsAccounted outs (ps ++ (p ∷ [])) (write p h)
unfolding write
write-IsAccounted p h outs ps i (shown, skipped, shows, size, split) =
    let kept = drop_oldest (h.bytes + length p) h.dropped (h.held ++ (p ∷ [])) in
    on_if (IsAccounted outs (ps ++ (p ∷ []))) (not h.holding) _ _
      (λ passes.
        let (empty, none_dropped) = i.passing (ground (arith, passes)) in
        (
          i,
          (
            shown ++ (p ∷ []),
            skipped,
            Shows-append outs (written p ∷ []) shown (p ∷ []) shows ([], refl, refl),
            size,
            ap (λ l. l ++ (p ∷ [])) split
                ∙ passed shown skipped h.held p (no_length skipped (size ∙ none_dropped)) empty,
          ),
        ))
      (λ holds.
        let (counted, capped, (gone, from, count)) =
          drop_oldest-Kept (h.bytes + length p) h.dropped (h.held ++ (p ∷ []))
            (omega (arith, i.counted, total-append length h.held (p ∷ []))) in
        (
          record {
            counted = counted;
            capped = capped;
            passing = λ e. absurd (ground (arith, e, holds));
          },
          (
            shown,
            skipped ++ gone,
            subst (λ l. Shows l shown) (sym (append-nil outs)) shows,
            omega (arith, length-append skipped gone, size, count),
            ap (λ l. l ++ (p ∷ [])) split
                ∙ (behind shown skipped h.held (p ∷ [])
                    ∙ ap (λ l. shown ++ l)
                        (ap (λ l. skipped ++ l) from ∙ sym (append_assoc skipped gone kept.2))),
          ),
        ))
  where
    no_length : (l : List Bytes) → length l ≡ 0 → l ≡ []
    no_length [] e = refl
    no_length (x ∷ l) e = absurd (omega (arith, e))

    passed :
        (shown skipped held : List Bytes) (p : Bytes)
        → skipped ≡ []
        → held ≡ []
        → (shown ++ (skipped ++ held)) ++ (p ∷ []) ≡ (shown ++ (p ∷ [])) ++ (skipped ++ held)
    passed shown skipped held p e k =
        let nil : skipped ++ held ≡ [] = cc (e, k) in
        ap (λ l. (shown ++ l) ++ (p ∷ [])) nil
        ∙ (ap (λ l. l ++ (p ∷ [])) (append-nil shown)
            ∙ (sym (append-nil (shown ++ (p ∷ []))) ∙ ap (λ l. (shown ++ (p ∷ [])) ++ l) (sym nil)))

release-IsAccounted :
    (h : Holder) (outs : List Output) (ps : List Bytes)
    → Accounts h outs ps
    → IsAccounted outs ps (release h)
unfolding release new_hold_writer
release-IsAccounted h outs ps (shown, skipped, shows, size, split) = (
  record { counted = refl; capped = inr (omega arith); passing = λ e. (refl, refl) },
  (
    shown ++ (skipped ++ h.held),
    [],
    Shows-append outs (release h).1 shown (skipped ++ h.held) shows released,
    refl,
    split ∙ sym (append-nil (shown ++ (skipped ++ h.held))),
  ),
)
  where
    released : Shows (release h).1 (skipped ++ h.held)
    released =
        on_if (λ o. Shows o (skipped ++ h.held)) (ltb 0 h.dropped) _ _
          (λ some_dropped. (skipped, h.held, size, refl, Shows-held h.held))
          (λ none_dropped.
            subst (λ l. Shows (map written h.held) (l ++ h.held))
              (sym (no_length skipped (ground (arith, size, none_dropped)))) (Shows-held h.held))

    no_skipped : (l : List Bytes) → length l ≡ 0 → l ≡ []
    no_skipped [] e = refl
    no_skipped (x ∷ l) e = absurd (omega (arith, e))

-- A step, and the rest of the run behind it.
IsAccounted-then :
    (outs : List Output) (ps qs more : List Bytes) (one rest : Holder × List Output)
    → (ps ++ qs) ++ more ≡ ps ++ (qs ++ more)
    → IsAccounted (outs ++ one.1) ((ps ++ qs) ++ more) rest
    → IsAccounted outs (ps ++ (qs ++ more)) (rest.0, one.1 ++ rest.1)
IsAccounted-then outs ps qs more one rest e next = (
  next.0,
  subst (λ l. Accounts rest.0 l (ps ++ (qs ++ more))) (append_assoc outs one.1 rest.1)
      (subst (Accounts rest.0 ((outs ++ one.1) ++ rest.1)) e next.1),
)

hold_run-IsAccounted :
    (cs : List Call) (h : Holder) (outs : List Output) (ps : List Bytes)
    → IsHolder h
    → Accounts h outs ps
    → IsAccounted outs (ps ++ all_writes cs) (hold_run cs h)
unfolding hold_run hold_step hold
hold_run-IsAccounted [] h outs ps i a = (
  i,
  subst (Accounts h (outs ++ [])) (sym (append-nil ps))
      (subst (λ l. Accounts h l ps) (sym (append-nil outs)) a),
)
hold_run-IsAccounted (writes p ∷ cs) h outs ps i a =
    let one = write p h in
    let step = write-IsAccounted p h outs ps i a in
    IsAccounted-then outs ps (p ∷ []) (all_writes cs) one (hold_run cs one.0)
      (append_assoc ps (p ∷ []) (all_writes cs))
      (hold_run-IsAccounted cs one.0 (outs ++ one.1) (ps ++ (p ∷ [])) step.0 step.1)
hold_run-IsAccounted (holds ∷ cs) h outs ps i a =
    hold_run-IsAccounted cs (record h { holding = true }) outs ps
      (record { counted = i.counted; capped = i.capped; passing = λ e. absurd cc }) a
hold_run-IsAccounted (releases ∷ cs) h outs ps i a =
    let one = release h in
    let step = release-IsAccounted h outs ps a in
    let rest = hold_run-IsAccounted cs one.0 (outs ++ one.1) ps step.0 step.1 in
    (
      rest.0,
      subst (λ l. Accounts (hold_run cs one.0).0 l (ps ++ all_writes cs))
          (append_assoc outs one.1 (hold_run cs one.0).1) rest.1,
    )

-- Whatever calls are made of a new writer, what it has written shows the writes in their order, a count
-- standing for as many writes that were dropped at its place; behind them come the writes dropped since
-- and those held, which are within the cap unless a single write is past it.
pub hold_run-new-IsAccounted :
    (cs : List Call) → IsAccounted [] (all_writes cs) (hold_run cs new_hold_writer)
unfolding new_hold_writer
hold_run-new-IsAccounted cs =
    hold_run-IsAccounted cs new_hold_writer [] []
      (record { counted = refl; capped = inr (omega arith); passing = λ e. (refl, refl) })
      ([], [], refl, refl, refl)
