-- ===== src/Streams/Pumps.antt =====
-- internal/bytestream/bytestream.go: Pump sends what its source gives, and FIN behind it.
use bitbang_cli.Streams.{
  PumpEnd, after_read, pump, Pumped, Round, finished, ReadError, reading, stopped, read_error,
  dat_failed,
}
use bitbang_cli.Prelude.{
  none, Option, List, some, length, Text, ◌∷◌, false, if◌then◌else◌, ◌≢◌, [], is_empty, true, ◌+◌,
  ◌≡◌, ◌++◌, refl, sym, arith, on_if, total, on_option, ◌↔◌, ap, subst,
}
use bitbang_cli.Wire.{Bytes}

-- What the source gave in the rounds of a pump, up to its end.
unfoldable pub heard : List Round → List Bytes
heard [] = []
heard (r ∷ rounds) =
    let rest : List Bytes = elim r.error [ none ↦ heard rounds | some e ↦ [] ] in
    if is_empty r.got then rest else r.got ∷ rest

-- The frames are the front of what the source gave and their bytes are counted; FIN goes out where the
-- source has ended and nothing stops the pump, behind all that the source gave.
pub record IsPumped (source : List Bytes) (r : Pumped) : Type 0 where
  pub counted : r.count ≡ total length r.frames
  pub front : (rest : List Bytes) × (source ≡ r.frames ++ rest) × (r.fin ≡ true → rest ≡ [])
  pub ended : (r.fin ≡ true) ↔ ((e : Option Text) × (f : Option Text) × (r.ending ≡ finished e f))

abbrev silent : PumpEnd → Pumped
silent ending = record { frames = []; fin = false; count = 0; ending = ending }

abbrev Unfinished : PumpEnd → Type 0
Unfinished ending = (e f : Option Text) → ending ≢ finished e f

silent-IsPumped :
    (source : List Bytes) (ending : PumpEnd) → Unfinished ending → IsPumped source (silent ending)
silent-IsPumped source how h = record {
  counted = refl;
  front = (source, refl, λ f. absurd (cc));
  ended = (λ f. absurd (cc), λ e. absurd (h e.0 e.1 e.2));
}

sent-IsPumped :
    (frame : Bytes) (source : List Bytes) (r : Pumped)
    → IsPumped source r
    → IsPumped
        (frame ∷ source)
        (record r { frames = frame ∷ r.frames; count = length frame + r.count })
sent-IsPumped frame source r h = record {
  counted = omega (arith, h.counted);
  front = (h.front.0, ap (◌∷◌ frame) h.front.1, h.front.2);
  ended = h.ended;
}

after_read-IsPumped :
    (r : Round) (source : List Bytes) (rest : Pumped)
    → IsPumped source rest
    → IsPumped (elim r.error [ none ↦ source | some e ↦ [] ]) (after_read r rest)
unfolding after_read
after_read-IsPumped r source rest h = by_error r.error
  where
    by_error :
        (o : Option ReadError)
        → IsPumped
            (elim o [ none ↦ source | some e ↦ [] ])
            (elim o [
              | none ↦ rest
              | some e ↦ if r.cancelled_late then silent stopped else record {
                frames = [];
                fin = true;
                count = 0;
                ending = finished (read_error e) r.fin_fails;
              }
            ])
    by_error none = h
    by_error (some e) =
        on_if (IsPumped []) r.cancelled_late _ _
          (λ c. silent-IsPumped [] stopped (λ e f. λ bad. absurd (cc)))
          (λ c. record {
            counted = refl;
            front = ([], refl, λ f. refl);
            ended = (λ f. (read_error e, r.fin_fails, refl), λ x. refl);
          })

-- Whatever happens to it, a pump sends frames that are the front of what its source gave, each once
-- and in order, and counts their bytes. It sends FIN exactly where it ends with the source; all that
-- the source gave has been sent by then.
pub pump-IsPumped : (rounds : List Round) → IsPumped (heard rounds) (pump rounds)
unfolding pump heard
pump-IsPumped [] = silent-IsPumped [] reading (λ e f. λ bad. absurd (cc))
pump-IsPumped (r ∷ rounds) =
    let rest : List Bytes = elim r.error [ none ↦ heard rounds | some e ↦ [] ] in
    let next = after_read r (pump rounds) in
    let ih = after_read-IsPumped r (heard rounds) (pump rounds) (pump-IsPumped rounds) in
    let whole : Pumped = if r.cancelled then silent stopped else elim r.dat_fails [
      | some e ↦ silent (dat_failed e)
      | none ↦ record next { frames = r.got ∷ next.frames; count = length r.got + next.count }
    ] in
    on_if (λ source. IsPumped source (if is_empty r.got then next else whole)) (is_empty r.got) _ _
      (λ e. subst (λ c. IsPumped rest (if c then next else whole)) (sym e) ih)
      (λ e.
        subst (λ c. IsPumped (r.got ∷ rest) (if c then next else whole)) (sym e)
          (on_if (IsPumped (r.got ∷ rest)) r.cancelled _ _
            (λ c. silent-IsPumped (r.got ∷ rest) stopped (λ e f. λ bad. absurd (cc)))
            (λ c.
              on_option (IsPumped (r.got ∷ rest)) r.dat_fails _ _
                (λ n. sent-IsPumped r.got rest next ih)
                (λ e n.
                  silent-IsPumped (r.got ∷ rest) (dat_failed e) (λ a b. λ bad. absurd (cc))))))
