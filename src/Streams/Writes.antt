-- ===== src/Streams/Writes.antt =====
-- internal/bytestream/bytestream.go: WriteFull ends, and loses and repeats nothing.
use bitbang_cli.Streams.{
  Write, WriteEnd, write_full, invalid_count, waiting, failed, written, no_progress,
}
use bitbang_cli.Prelude.{
  none, Option, List, some, length, Text, ◌∷◌, if◌then◌else◌, ◌≤◌, ℕ, ◌≢◌, [], ◌≡◌, drop, ◌++◌,
  take, ltb, ◌==◌, suc, refl, sym, take-append-drop, arith, on_if, on_option, ◌<◌, length-drop, ◌∙◌,
  ap,
}
use bitbang_cli.Allowlist.{ℤ, negsuc, pos}
use bitbang_cli.Wire.{Bytes}
use mathlib.Core.List.{append_assoc}

abbrev WritesAll : ℕ → ℕ → Bytes → Bytes × WriteEnd → Type 0
WritesAll needed given p r =
    (needed ≤ given → r.1 ≢ waiting)
    × ((rest : Bytes) × (p ≡ r.0 ++ rest) × (r.1 ≡ written → rest ≡ []))

nothing_taken :
    (needed given : ℕ) (p : Bytes) (e : WriteEnd)
    → (needed ≤ given → e ≢ waiting)
    → e ≢ written
    → WritesAll needed given p ([], e)
nothing_taken needed given p e h ne = (h, (p, refl, λ w. absurd (ne w)))

front_taken :
    (needed given n : ℕ) (p : Bytes) (e : WriteEnd)
    → e ≢ waiting
    → e ≢ written
    → WritesAll needed given p (take n p, e)
front_taken needed given n p e h ne =
    (λ l. h, (drop n p, sym (take-append-drop n p), λ w. absurd (ne w)))

one_write :
    (c : ℤ) (error : Option Text) (script : List Write) (b : ℕ) (p : Bytes)
    → ((n : ℕ)
        → WritesAll
            (length (drop n (b ∷ p)))
            (length script)
            (drop n (b ∷ p))
            (write_full script (drop n (b ∷ p))))
    → WritesAll (suc (length p)) (suc (length script)) (b ∷ p) (elim c [
      | negsuc n ↦ ([], invalid_count)
      | pos n ↦ if ltb (length (b ∷ p)) n then ([], invalid_count) else elim error [
        | some e ↦ (take n (b ∷ p), failed e)
        | none ↦ if n == 0 then (take n (b ∷ p), no_progress) else (
          take n (b ∷ p) ++ (write_full script (drop n (b ∷ p))).0,
          (write_full script (drop n (b ∷ p))).1,
        )
      ]
    ])
one_write (negsuc n) error script b p ih =
    nothing_taken (suc (length p)) (suc (length script)) (b ∷ p) invalid_count (λ h w. absurd (cc))
      (λ w. absurd (cc))
one_write (pos n) error script b p ih =
    let P : Bytes × WriteEnd → Type 0 = WritesAll (suc (length p)) (suc (length script)) (b ∷ p) in
    let rest = ih n in
    on_if P (ltb (length (b ∷ p)) n) _ _
      (λ over.
        nothing_taken (suc (length p)) (suc (length script)) (b ∷ p) invalid_count
          (λ h w. absurd (cc)) (λ w. absurd (cc)))
      (λ within.
        on_option P error _ _
          (λ fine.
            on_if P (n == 0) _ _
              (λ none_taken.
                front_taken (suc (length p)) (suc (length script)) n (b ∷ p) no_progress
                  (λ w. absurd (cc)) (λ w. absurd (cc)))
              (λ some_taken.
                let positive : 0 < n = ground (arith) in
                let left = length-drop n (b ∷ p) in
                let joined : b ∷ p
                    ≡ (take n (b ∷ p) ++ (write_full script (drop n (b ∷ p))).0) ++ rest.1.0 =
                  sym (take-append-drop n (b ∷ p))
                  ∙ ap (λ d. take n (b ∷ p) ++ d) rest.1.1
                  ∙ sym (append_assoc (take n (b ∷ p)) _ rest.1.0) in
                (λ h. rest.0 (omega (arith, left, h, positive)), (rest.1.0, joined, rest.1.2))))
          (λ e fails.
            front_taken (suc (length p)) (suc (length script)) n (b ∷ p) (failed e)
              (λ w. absurd (cc)) (λ w. absurd (cc))))

-- WriteFull ends after at most one call for each byte, whatever the writer does; what the writer took
-- is the front of the bytes, each of them once and in order, and it is all of them where no error is
-- answered.
pub write_full_lem :
    (script : List Write) (p : Bytes)
    → let r = write_full script p in
      (length p ≤ length script → r.1 ≢ waiting)
      × ((rest : Bytes) × (p ≡ r.0 ++ rest) × (r.1 ≡ written → rest ≡ []))
unfolding write_full
write_full_lem script [] = (λ h w. absurd (cc), ([], refl, λ w. refl))
write_full_lem [] (b ∷ p) =
    nothing_taken (suc (length p)) 0 (b ∷ p) waiting (λ h. absurd (omega (arith)))
      (λ w. absurd (cc))
write_full_lem (w ∷ script) (b ∷ p) =
    one_write w.count w.error script b p (λ n. write_full_lem script (drop n (b ∷ p)))
