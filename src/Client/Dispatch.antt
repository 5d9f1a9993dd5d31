-- ===== src/Client/Dispatch.antt =====
-- internal/client/session.go: what arrives on the data channel after the handshake, and the runs of a
-- session.
use bitbang_cli.Client.Stream.{update_send_limit}
use bitbang_cli.Wire.{Frame, Bytes, parse_frame, is_syn}
use Prim.Native.Nat.{ℕ}
use bitbang_cli.Prelude.{
  false, List, Bool, Option, ℕ, none, ◌++◌, if◌then◌else◌, ◌∷◌, Text, some, text_eq, ◌==◌, [], not,
  err, codes, ◌||◌, ok,
}
use bitbang_cli.Client.Session.{
  Session, fail_stream, finish_streams, accept_frame, deliver, send_frame, close_stream,
  close_session, open_stream, invalid_control, prints_error, put_stream, flow_control_enabled,
}
use bitbang_cli.Session.Control.{Update, Reset}
use bitbang_cli.IdMap.{lookup}

-- What json.Unmarshal makes of a stream-0 payload; `none` is its error.
pub record Decoder : Type 0 where
  pub header : Bytes → Option Text
  pub update : Bytes → Option Update
  pub reset : Bytes → Option Reset
  pub target : Bytes → Option ℕ

unfoldable pub reset_malformed_control : Option ℕ → Session → Session
unfolding fail_stream
reset_malformed_control none s = s
reset_malformed_control (some id) s = if id == 0 then s else fail_stream id (some invalid_control) s

unfoldable pub apply_window_update : Update → Session → Session
unfolding fail_stream put_stream
apply_window_update u s = elim (lookup u.stream_id s.streams) [
  | none ↦ s
  | some st ↦
      if u.stream_id == 0 || u.max_bytes == 0
      then fail_stream u.stream_id (some invalid_control) s
      else put_stream u.stream_id (update_send_limit u.max_bytes st) s
]

unfoldable pub end_by_listener : Session → Session
unfolding finish_streams
end_by_listener s = finish_streams (record s { events = s.events ++ (prints_error ∷ []) })

unfoldable pub handle_kind : Decoder → Bytes → Text → Session → Session
unfolding reset_malformed_control apply_window_update end_by_listener fail_stream
handle_kind dec payload kind s =
    if text_eq kind (codes "window_update")
    then elim (dec.update payload) [
      | none ↦ reset_malformed_control (dec.target payload) s
      | some u ↦ apply_window_update u s
    ]
    else if text_eq kind (codes "error")
    then end_by_listener s
    else if text_eq kind (codes "stream_reset")
    then elim (dec.reset payload) [
      | none ↦ reset_malformed_control (dec.target payload) s
      | some r ↦ fail_stream r.stream_id none s
    ]
    else s

unfoldable pub handle_control : Decoder → Frame → Session → Session
unfolding handle_kind
handle_control dec frame s = if not (is_syn frame) then s else elim (dec.header frame.payload) [
  | none ↦ s
  | some kind ↦ handle_kind dec frame.payload kind s
]

-- The body of the dispatcher's loop, for one message.
unfoldable pub handle_message : Decoder → Bool → Bytes → Session → Session
unfolding handle_control accept_frame
handle_message dec drops input s = elim (parse_frame input) [
  | err e ↦ s
  | ok frame ↦
      if frame.stream_id == 0
      then (if flow_control_enabled s then handle_control dec frame s else s)
      else accept_frame drops frame s
]

-- A stream is opened or closed, a message arrives, a caller takes the next frame of a stream or writes
-- one, the session is closed, or the data channel goes away.
pub data Input : Type 0 where
  opens : Input
  closes_stream : ℕ → Input
  arrives : Bool → Bytes → Input
  takes : ℕ → Input
  writes : Frame → Input
  closes : Input
  loses_channel : Input

unfoldable pub step : Decoder → Input → Session → Session
unfolding open_stream close_stream handle_message deliver send_frame close_session finish_streams
step dec opens s = (open_stream s).0
step dec (closes_stream id) s = close_stream id s
step dec (arrives drops input) s = handle_message dec drops input s
step dec (takes id) s = deliver id s
step dec (writes frame) s = (send_frame frame s).0
step dec closes s = close_session s
step dec loses_channel s = finish_streams (record s { channel_open = false })

unfoldable pub run : Decoder → List Input → Session → Session
unfolding step
run dec [] s = s
run dec (i ∷ is) s = run dec is (step dec i s)
