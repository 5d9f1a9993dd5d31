-- ===== src/Command/Hold.antt =====
-- cmd/bitbang/hold.go: the writer that keeps its output back while a prompt is on the screen. Every
-- method runs under the writer's lock.
use Prim.Native.Nat.{ℕ}
use bitbang_cli.Prelude.{
  ℕ, Bool, false, true, List, map, ◌∷◌, [], ◌+◌, ◌-◌, ◌++◌, length, if◌then◌else◌, ltb, not, ◌&&◌,
  is_empty,
}
use bitbang_cli.Wire.{Bytes}

abbrev pub max_held_bytes : ℕ
max_held_bytes = 262144

pub record Holder : Type 0 where
  pub holding : Bool
  pub held : List Bytes
  pub bytes : ℕ
  pub dropped : ℕ

-- What reaches the underlying writer: a write, or the line that counts the dropped ones.
pub data Output : Type 0 where
  written : Bytes → Output
  not_shown : ℕ → Output

unfoldable pub new_hold_writer : Holder
new_hold_writer = record { holding = false; held = []; bytes = 0; dropped = 0 }

-- The loop of `Write`: the oldest writes go while the bytes are past the cap and a later write is held.
unfoldable pub drop_oldest : ℕ → ℕ → List Bytes → ℕ × ℕ × List Bytes
drop_oldest bytes dropped [] = (bytes, dropped, [])
drop_oldest bytes dropped (p ∷ held) =
    let rest = drop_oldest (bytes - length p) (dropped + 1) held in
    if ltb max_held_bytes bytes && not (is_empty held) then rest else (bytes, dropped, p ∷ held)

unfoldable pub write : Bytes → Holder → Holder × List Output
unfolding drop_oldest
write p h =
    let kept = drop_oldest (h.bytes + length p) h.dropped (h.held ++ (p ∷ [])) in
    if not h.holding
    then (h, written p ∷ [])
    else (record h { bytes = kept.0; dropped = kept.1; held = kept.2 }, [])

unfoldable pub hold : Holder → Holder
hold h = record h { holding = true }

unfoldable pub release : Holder → Holder × List Output
unfolding new_hold_writer
release h =
    let shown = map written h.held in
    (new_hold_writer, if ltb 0 h.dropped then not_shown h.dropped ∷ shown else shown)

-- The calls, in the order in which they take the lock.
pub data Call : Type 0 where
  writes : Bytes → Call
  holds : Call
  releases : Call

unfoldable pub hold_step : Call → Holder → Holder × List Output
unfolding write hold release
hold_step (writes p) h = write p h
hold_step holds h = (hold h, [])
hold_step releases h = release h

unfoldable pub hold_run : List Call → Holder → Holder × List Output
unfolding hold_step
hold_run [] h = (h, [])
hold_run (c ∷ cs) h =
    let one = hold_step c h in let rest = hold_run cs one.0 in (rest.0, one.1 ++ rest.1)
