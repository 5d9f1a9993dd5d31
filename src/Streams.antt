-- ===== src/Streams.antt =====
-- internal/bytestream/bytestream.go: byte streams over frames. What the writer, the source and the
-- context do is a script, one entry for each call.
pub mod Writes
pub mod Pumps
use bitbang_cli.Prelude.{
  none, Option, List, some, Bool, length, Text, ◌∷◌, false, if◌then◌else◌, ◌≤◌, ℕ, ◌≢◌, [],
  is_empty, true, ◌+◌, ◌≡◌, drop, ◌++◌, take, ltb, ◌==◌, suc, refl, sym, take-append-drop, arith,
  on_if, total, on_option, ◌↔◌, ◌<◌, length-drop, ◌∙◌, ap, subst,
}
use bitbang_cli.Allowlist.{ℤ, negsuc, pos}
use bitbang_cli.Wire.{Bytes}
use mathlib.Core.List.{append_assoc}

-- What a call of `w.Write(p)` answers.
pub record Write : Type 0 where
  pub count : ℤ
  pub error : Option Text

pub data WriteEnd : Type 0 where
  written invalid_count no_progress waiting : WriteEnd
  failed : Text → WriteEnd

-- The bytes that the writer took, and how the loop ended; `waiting` is for a script that is too short.
unfoldable pub write_full : List Write → Bytes → Bytes × WriteEnd
write_full script [] = ([], written)
write_full [] (b ∷ p) = ([], waiting)
write_full (w ∷ script) (b ∷ p) = elim (w.count) [
  | negsuc n ↦ ([], invalid_count)
  | pos n ↦
      let rest = write_full script (drop n (b ∷ p)) in
      let here = take n (b ∷ p) in
      if ltb (length (b ∷ p)) n then ([], invalid_count) else elim w.error [
        | some e ↦ (here, failed e)
        | none ↦ if n == 0 then (here, no_progress) else (here ++ rest.0, rest.1)
      ]
]

-- One round of the loop of Pump: the bytes of `src.Read` and its error, whether the context is done by
-- the time of the write or, behind it, at the end, and whether `dst.WriteDAT` and `dst.WriteFIN` fail.
pub data ReadError : Type 0 where
  end_of_file : ReadError
  read_failed : Text → ReadError

pub record Round : Type 0 where
  pub got : Bytes
  pub error : Option ReadError
  pub cancelled : Bool
  pub cancelled_late : Bool
  pub dat_fails : Option Text
  pub fin_fails : Option Text

pub data PumpEnd : Type 0 where
  stopped : PumpEnd
  dat_failed : Text → PumpEnd
  finished : Option Text → Option Text → PumpEnd
  reading : PumpEnd

-- What was sent, whether FIN was, and `total`.
pub record Pumped : Type 0 where
  pub frames : List Bytes
  pub fin : Bool
  pub count : ℕ
  pub ending : PumpEnd

abbrev pub read_error : ReadError → Option Text
read_error end_of_file = none
read_error (read_failed e) = some e

-- The part of a round behind its write.
unfoldable pub after_read : Round → Pumped → Pumped
after_read r rest = elim r.error [
  | none ↦ rest
  | some e ↦
      if r.cancelled_late
      then record { frames = []; fin = false; count = 0; ending = stopped }
      else record {
        frames = [];
        fin = true;
        count = 0;
        ending = finished (read_error e) r.fin_fails;
      }
]

unfoldable pub pump : List Round → Pumped
unfolding after_read
pump [] = record { frames = []; fin = false; count = 0; ending = reading }
pump (r ∷ rounds) =
    let rest = pump rounds in
    let next = after_read r rest in
    if is_empty r.got
    then next
    else if r.cancelled
    then record { frames = []; fin = false; count = 0; ending = stopped }
    else elim r.dat_fails [
      | some e ↦ record { frames = []; fin = false; count = 0; ending = dat_failed e }
      | none ↦ record next { frames = r.got ∷ next.frames; count = length r.got + next.count }
    ]
