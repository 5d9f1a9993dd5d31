-- ===== src/Flow/Window.antt =====
-- What the receive window promises a sender that keeps to it, and where the queue bound breaks that
-- promise.
use bitbang_cli.Wire.{Frame, flow_bytes, stream_window_update_threshold, max_queued_stream_frames}
use bitbang_cli.Flow.Receiver.{Receiver, Inv, unprocessed, held}
use bitbang_cli.Prelude.{
  List, ◌≡◌, All, total, false, none, length, ◌∷◌, [], arith, ◌+◌, ◌<◌, some, ◌≤◌, length-append,
  refl,
}
use bitbang_cli.Flow.{
  enqueue, List, Frame, false, flow_bytes, none, length, ◌∷◌, [], max_queued_stream_frames,
  stream_window_update_threshold, some, receive_overflow,
}

-- When the worker has processed every frame it was sent, more than half of the initial window is open
-- again.
pub credit_returns :
    (r : Receiver)
    → Inv r
    → r.current ≡ none
    → r.stream.queue ≡ []
    → r.stream.received + stream_window_update_threshold < r.stream.advertised
credit_returns r v h q = ground arith

-- Every unprocessed frame is charged against the window: none is a SYN with a payload.
abbrev pub Charged : List Frame → Type 0
Charged = All (λ f. flow_bytes f ≡ length f.payload)

total-Charged :
    (fs : List Frame) → Charged fs → total (λ f. length f.payload) fs ≡ total flow_bytes fs
total-Charged [] h = refl
total-Charged (f ∷ fs) h = omega (arith, h.0, total-Charged fs h.1)

-- A frame within the announced window is accepted by an open stream that has seen no FIN, as long as
-- fewer than 256 frames wait and no SYN payload is among them.
pub enqueue_in_window :
    (frame : Frame) (r : Receiver)
    → Inv r
    → r.stream.closed ≡ false
    → r.stream.receive_queued_fin ≡ false
    → length (unprocessed r) < max_queued_stream_frames
    → Charged (unprocessed r)
    → flow_bytes frame ≡ length frame.payload
    → r.stream.received + flow_bytes frame ≤ r.stream.advertised
    → (enqueue frame r.stream).1 ≡ none
unfolding enqueue
enqueue_in_window frame r v alive no_fin few charged plain fits =
    ground
      (arith, total-Charged (unprocessed r) charged, length-append (held r.current) r.stream.queue)

-- A sender that keeps to the window is refused all the same when a SYN with a payload waits: on a
-- stream whose worker still holds only uncharged SYNs and charged frames, and has consumed nothing
-- since the last update, the frame that uses up the window overflows the queue, whatever its size.
pub enqueue_overflows_in_window :
    (frame : Frame) (r : Receiver)
    → Inv r
    → r.stream.closed ≡ false
    → r.stream.receive_queued_fin ≡ false
    → r.stream.consumed ≡ r.stream.last_update
    → total flow_bytes (unprocessed r) < total (λ f. length f.payload) (unprocessed r)
    → flow_bytes frame ≡ length frame.payload
    → r.stream.received + flow_bytes frame ≡ r.stream.advertised
    → (enqueue frame r.stream).1 ≡ some receive_overflow
unfolding enqueue
enqueue_overflows_in_window frame r v alive no_fin fresh syn plain fits = ground arith
