-- ===== src/Flow/Receiver.antt =====
-- The receiving side of one stream: frames arrive, the worker takes them one by one, and what it has
-- processed is consumed and announced again.
use mathlib.Core.List.{append_assoc}
use bitbang_cli.Prelude.{
  ◌==◌, if◌then◌else◌, length, total, ℕ, ◌+◌, ◌^◌, ◌≤◌, ◌<◌, ◌≡◌, true, false, Option, none, some,
  List, [], ◌∷◌, ◌++◌, arith, total-append, length-append,
}
use bitbang_cli.Wire.{
  initial_stream_window, stream_window_update_threshold, max_queued_stream_frames, Frame,
  flow_bytes,
}
use bitbang_cli.Flow.{Handler, Stream, new_stream, enqueue, dequeued, consume, advertise}

-- A stream with the frame that its worker holds: taken from the channel, not yet `dequeued`.
pub record Receiver : Type 0 where
  pub stream : Stream
  pub current : Option Frame

abbrev pub held : Option Frame → List Frame
held none = []
held (some frame) = frame ∷ []

-- The frames that still count against the queue bounds, oldest first.
abbrev pub unprocessed : Receiver → List Frame
unprocessed r = held r.current ++ r.stream.queue

unfoldable pub take_frame : Stream → Frame → List Frame → Receiver
take_frame st frame rest = record { stream = record st { queue = rest }; current = some frame }

-- The end of a round of `runStream`: `consume` with its announcement, then `dequeued`. The number is
-- the window announced to the peer, 0 for none.
unfoldable pub finish_frame : Stream → Frame → Receiver × ℕ
unfolding consume advertise dequeued
finish_frame st frame =
    let (counted, update) = consume (flow_bytes frame) st in
    let announced = if update == 0 then counted else (advertise update counted).0 in
    (record { stream = dequeued frame announced; current = none }, update)

-- What holds of an open stream with flow control that has received less than 2^63 bytes.
pub record Inv (r : Receiver) : Type 0 where
  pub counted_frames : r.stream.queued_frames ≡ length (unprocessed r)
  pub counted_bytes : r.stream.queued_bytes ≡ total (λ f. length f.payload) (unprocessed r)
  pub frames_capped : r.stream.queued_frames ≤ max_queued_stream_frames
  pub bytes_capped : r.stream.queued_bytes ≤ initial_stream_window
  pub accounted : r.stream.received ≡ r.stream.consumed + total flow_bytes (unprocessed r)
  pub in_window : r.stream.received ≤ r.stream.advertised
  pub window : r.stream.advertised ≡ r.stream.last_update + initial_stream_window
  pub updated : r.stream.last_update ≤ r.stream.consumed
  pub due : r.stream.consumed < r.stream.last_update + stream_window_update_threshold
  pub bounded : r.stream.received < 2 ^ 63

pub new-Inv :
    (id : ℕ) (h : Handler) → Inv (record { stream = new_stream id h true; current = none })
unfolding new_stream
new-Inv id h = ground arith

-- A frame that `enqueue` accepts keeps the accounts.
pub enqueue-Inv :
    (frame : Frame) (r : Receiver)
    → r.stream.flow ≡ true
    → r.stream.received + flow_bytes frame < 2 ^ 63
    → (enqueue frame r.stream).1 ≡ none
    → Inv r
    → Inv (record r { stream = (enqueue frame r.stream).0 })
unfolding enqueue
enqueue-Inv frame r f small e v = ground (
  arith,
  total-append flow_bytes (unprocessed r) (frame ∷ []),
  total-append (λ (g : Frame). length g.payload) (unprocessed r) (frame ∷ []),
  length-append (unprocessed r) (frame ∷ []),
  append_assoc (held r.current) r.stream.queue (frame ∷ []),
)

pub take_frame-Inv :
    (r : Receiver) (frame : Frame) (rest : List Frame)
    → r.current ≡ none
    → r.stream.queue ≡ frame ∷ rest
    → Inv r
    → Inv (take_frame r.stream frame rest)
unfolding take_frame
take_frame-Inv r frame rest h q v = ground arith

pub finish_frame-Inv :
    (r : Receiver) (frame : Frame)
    → r.stream.flow ≡ true
    → r.stream.closed ≡ false
    → r.current ≡ some frame
    → Inv r
    → Inv (finish_frame r.stream frame).0
unfolding finish_frame
finish_frame-Inv r frame f alive h v = ground (arith)
