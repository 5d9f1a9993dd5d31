-- ===== src/WebSocket/RoundTrip.antt =====
-- The fragments of a WebSocket message: their sizes, and the message that they make again.
use bitbang_cli.Prelude.{
  Bool, ℕ, none, ◌≡◌, length, ◌<◌, true, ◌++◌, ◌∷◌, false, if◌then◌else◌, ok, ◌≤◌, some, [], arith,
  suc, ◌-◌, take, drop, take-append-drop, List, on_if, ltb, take_all, not, is_empty, zero, refl,
  length-drop, ◌∙◌, ap, sym, List-cases, inl, inr, ◌≢◌, length-append,
}
use bitbang_cli.WebSocket.{
  WsStream, write_from, write_fragments, write_fragment, Bool, ℕ, next_writer, Fragment, type_byte,
  write_ws_reader,
}
use bitbang_cli.Wire.{Bytes, max_chunk_size}
use mathlib.Core.List.{append-nil, append_assoc}

abbrev done : WsStream → Bool → Bytes → WsStream
done ws binary message = record ws { writer = none; sent = ws.sent ++ ((binary, message) ∷ []) }

-- A fragment that the stream takes: `start` is the type byte or nothing.
Takes : Bytes → WsStream → Bool → Bytes → Type 0
Takes start ws binary written =
    (body : Bytes) → next_writer (start ++ body) ws ≡ ok ((binary, written), body)

one_fragment :
    (start body written : Bytes) (more binary : Bool) (ws : WsStream)
    → ws.connected ≡ true
    → Takes start ws binary written
    → write_fragment (start ++ body) more ws ≡ (
        if more
        then (record ws { writer = some (binary, written ++ body) }, none)
        else (done ws binary (written ++ body), none))
unfolding write_fragment Takes
one_fragment start body written more binary ws c takes = ground (arith, takes body)

last_fragment :
    (start body written bytes : Bytes) (binary : Bool) (ws : WsStream)
    → ws.connected ≡ true
    → Takes start ws binary written
    → body ≡ bytes
    → write_fragments (record { payload = start ++ body; more = false } ∷ []) ws
      ≡ (done ws binary (written ++ bytes), none)
unfolding write_fragments
last_fragment start body written bytes binary ws c takes e =
    ground (arith, one_fragment start body written false binary ws c takes)

more_fragment :
    (start body written : Bytes) (binary : Bool) (ws : WsStream) (fs : List Fragment)
    → ws.connected ≡ true
    → Takes start ws binary written
    → write_fragments (record { payload = start ++ body; more = true } ∷ fs) ws
      ≡ write_fragments fs (record ws { writer = some (binary, written ++ body) })
unfolding write_fragments
more_fragment start body written binary ws fs c takes =
    ground (arith, one_fragment start body written true binary ws c takes)

taken_on :
    (ws : WsStream) (binary : Bool) (written : Bytes)
    → Takes [] (record ws { writer = some (binary, written) }) binary written
unfolding Takes next_writer
taken_on ws binary written body = refl

write_from_lem :
    (rounds : ℕ) (start bytes written : Bytes) (binary : Bool) (ws : WsStream)
    → length bytes < rounds
    → length start ≤ 1
    → ws.connected ≡ true
    → Takes start ws binary written
    → let r = write_from rounds start (record { bytes = bytes; fails = false }) in
      (r.1 ≡ true) × (write_fragments r.0 ws ≡ (done ws binary (written ++ bytes), none))
unfolding write_from
write_from_lem zero start bytes written binary ws h one c takes = absurd (omega (arith))
write_from_lem (suc rounds) start bytes written binary ws h one c takes =
    let room = max_chunk_size - length start in
    let body = take room bytes in
    let beyond = drop room bytes in
    let split = take-append-drop room bytes in
    let rest = write_from rounds [] (record { bytes = beyond; fails = false }) in
    let P : List Fragment × Bool → Type 0 =
      λ r. (r.1 ≡ true) × (write_fragments r.0 ws ≡ (done ws binary (written ++ bytes), none)) in
    on_if P (ltb (length bytes) room) _ _
      (λ short. (
        refl,
        last_fragment start body written bytes binary ws c takes
            (take_all room bytes (ground (arith))),
      ))
      (λ long.
        on_if P (not (is_empty beyond)) _ _
          (λ more.
            let reach : room ≤ length bytes = ground (arith) in
            let after : WsStream = record ws { writer = some (binary, written ++ body) } in
            let ih =
              write_from_lem rounds [] beyond (written ++ body) binary after
                (omega (arith, length-drop room bytes, reach)) (omega (arith)) c
                (taken_on ws binary (written ++ body)) in
            let message : (written ++ body) ++ beyond ≡ written ++ bytes =
              append_assoc written body beyond ∙ ap (λ b. written ++ b) split in
            (
              ih.0,
              more_fragment start body written binary ws rest.0 c takes
                  ∙ ih.1
                  ∙ ap (λ b. (done ws binary b, none)) message,
            ))
          (λ full. (
            refl,
            last_fragment start body written bytes binary ws c takes (
                let nothing : beyond ≡ [] = elim (List-cases beyond) [
                  | inl e ↦ e
                  | inr (y, ys, e) ↦ absurd (ground (arith))
                ] in
                sym (append-nil body) ∙ ap (λ b. body ++ b) (sym nothing) ∙ split),
          )))

type_taken :
    (binary : Bool) (ws : WsStream) → ws.writer ≡ none → Takes (type_byte binary ∷ []) ws binary []
unfolding Takes next_writer
type_taken binary ws e body = ground (arith)

-- A WebSocket message of any length, read to its end and sent as fragments, is written by the other
-- side as one message of the same type and bytes, and nothing is left open.
pub write_fragments-write_ws_reader :
    (binary : Bool) (bytes : Bytes) (ws : WsStream)
    → ws.connected ≡ true
    → ws.writer ≡ none
    → let r = write_ws_reader binary (record { bytes = bytes; fails = false }) in
      (r.1 ≡ true)
      × (write_fragments r.0 ws ≡ (record ws { sent = ws.sent ++ ((binary, bytes) ∷ []) }, none))
unfolding write_ws_reader
write_fragments-write_ws_reader binary bytes ws c e =
    let r =
      write_from_lem (suc (length bytes)) (type_byte binary ∷ []) bytes [] binary ws (omega (arith))
        (omega (arith)) c (type_taken binary ws e) in
    (
      r.0,
      r.1
          ∙ ap (λ w. (record ws { writer = w; sent = ws.sent ++ ((binary, bytes) ∷ []) }, none))
              (sym e),
    )

-- The fragments but the last fill a frame and have the MORE flag; the last fits one and has not.
abbrev pub IsFragmented : List Fragment → Type 0
IsFragmented [] = Unit
IsFragmented (f ∷ []) = (length f.payload ≤ max_chunk_size) × (f.more ≡ false)
IsFragmented (f ∷ (g ∷ gs)) =
    ((length f.payload ≡ max_chunk_size) × (f.more ≡ true)) × IsFragmented (g ∷ gs)

more-IsFragmented :
    (f : Fragment) (fs : List Fragment)
    → length f.payload ≡ max_chunk_size
    → f.more ≡ true
    → fs ≢ []
    → IsFragmented fs
    → IsFragmented (f ∷ fs)
more-IsFragmented f [] l m ne h = absurd (ne refl)
more-IsFragmented f (g ∷ gs) l m ne h = ((l, m), h)

length-take :
    (n : ℕ) (bytes : Bytes)
    → length (take n bytes) ≤ n × (n ≤ length bytes → length (take n bytes) ≡ n)
length-take zero bytes = (omega (arith), λ h. refl)
length-take (suc n) [] = (omega (arith), λ h. omega (arith))
length-take (suc n) (b ∷ bytes) =
    let rest = length-take n bytes in
    (omega (arith, rest.0), λ h. omega (arith, rest.1 (omega (arith))))

write_from-IsFragmented :
    (rounds : ℕ) (start bytes : Bytes)
    → length bytes < rounds
    → length start ≤ 1
    → let fs = (write_from rounds start (record { bytes = bytes; fails = false })).0 in
      (fs ≢ []) × IsFragmented fs
unfolding write_from
write_from-IsFragmented zero start bytes h one = absurd (omega (arith))
write_from-IsFragmented (suc rounds) start bytes h one =
    let room = max_chunk_size - length start in
    let beyond = drop room bytes in
    let sizes = length-take room bytes in
    let P : List Fragment × Bool → Type 0 = λ r. (r.0 ≢ []) × IsFragmented r.0 in
    let last : (length (start ++ take room bytes) ≤ max_chunk_size) × (◌≡◌ {A = Bool} false false) =
      (omega (arith, sizes.0, length-append start (take room bytes)), refl) in
    on_if P (ltb (length bytes) room) _ _ (λ short. (λ e. absurd (cc), last))
      (λ long.
        on_if P (not (is_empty beyond)) _ _
          (λ more.
            let reach : room ≤ length bytes = ground (arith) in
            let ih =
              write_from-IsFragmented rounds [] beyond
                (omega (arith, length-drop room bytes, reach)) (omega (arith)) in
            (
              λ e. absurd (cc),
              more-IsFragmented (record { payload = start ++ take room bytes; more = true }) _
                  (omega (arith, sizes.1 reach, length-append start (take room bytes))) refl ih.0
                  ih.1,
            ))
          (λ full. (λ e. absurd (cc), last)))

-- The fragments of a message: at least one; all but the last fill a frame and say that more comes, and
-- the last fits one and says that nothing does.
pub write_ws_reader-IsFragmented :
    (binary : Bool) (bytes : Bytes)
    → let fs = (write_ws_reader binary (record { bytes = bytes; fails = false })).0 in
      (fs ≢ []) × IsFragmented fs
unfolding write_ws_reader
write_ws_reader-IsFragmented binary bytes =
    write_from-IsFragmented (suc (length bytes)) (type_byte binary ∷ []) bytes (omega (arith))
      (omega (arith))
