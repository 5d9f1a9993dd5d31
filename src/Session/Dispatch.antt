-- ===== src/Session/Dispatch.antt =====
-- internal/session/session.go: what arrives on the data channel, and the runs of a session.
use bitbang_cli.Session.Streams.{run_round, send_stream_frame, close_session, handle_stream_frame}
use bitbang_cli.Session.{Session, Frame}
use bitbang_cli.Prelude.{Bool, List, ℕ, ◌∷◌, if◌then◌else◌, err, ok, false, ◌==◌, []}
use bitbang_cli.Wire.{Bytes, Frame, parse_frame}
use bitbang_cli.Session.Control.{Decoder, Outside, goodbye, handle_control}

unfoldable pub handle_message : Decoder → Outside → Bytes → Session → Session
handle_message dec out input s = if s.closed then s else elim (parse_frame input) [
  | err e ↦ s
  | ok frame ↦
      if frame.stream_id == 0
      then handle_control dec out frame s
      else handle_stream_frame dec.stream_kind frame s
]

-- What happens to a session: a message arrives, a worker takes the next frame of its stream, a stream
-- handler sends a frame, the session is closed with or without a farewell, or the data channel goes
-- away.
pub data Input : Type 0 where
  arrives : Bytes → Input
  works : Bool → ℕ → Input
  writes : Frame → Input
  closes : Input
  says_goodbye : Input
  loses_channel : Input

unfoldable pub step : Decoder → Outside → Input → Session → Session
step dec out (arrives input) s = handle_message dec out input s
step dec out (works fine id) s = run_round fine id s
step dec out (writes frame) s = (send_stream_frame frame s).0
step dec out closes s = close_session s
step dec out says_goodbye s = goodbye s
step dec out loses_channel s = record s { channel_open = false }

unfoldable pub run : Decoder → Outside → List Input → Session → Session
unfolding step
run dec out [] s = s
run dec out (i ∷ is) s = run dec out is (step dec out i s)
