-- ===== src/Session.antt =====
-- internal/session/session.go and control.go: the state of one peer's session, and what its handlers
-- do to the data channel and to the stream handlers, as a log of events. The parts of the session are
-- the modules below.
pub mod Streams
pub mod Control
pub mod Dispatch
pub mod Traffic
pub mod Messages
pub mod Admission
pub mod Gate
pub mod Guesses
use Prim.Native.Nat.{ℕ}
use bitbang_cli.Prelude.{
  Bool, ℕ, Option, Text, ◌++◌, if◌then◌else◌, leb, List, ◌∷◌, none, [], ◌==◌, some, false, not,
  true,
}
use bitbang_cli.Flow.{Handler, Stream, stop_now}
use bitbang_cli.Pin.{PinAuth}
use bitbang_cli.Wire.{Bytes, Frame, flag_fin, flag_syn, flag_dat}

-- Why a stream is refused or reset. The texts that go with the codes are left out.
pub data Code : Type 0 where
  unauthenticated unsupported_stream duplicate_syn invalid_control handler_error send_error
        session_closed protocol_error flow_control_violation receive_overflow :
      Code
  from_peer : Text → Code

-- The stream-0 messages that the session sends.
pub data Reply : Type 0 where
  auth_required : Reply
  auth_result : Bool → Reply
  ready : ℕ → List Text → Text → Reply
  control_error : Reply
  window_update : ℕ → ℕ → Reply
  stream_reset : ℕ → Code → Reply

pub data Event : Type 0 where
  -- A stream-0 message, or a frame on a stream, with its flags, put on the data channel.
  replies : Reply → Event
  sends : ℕ → ℕ → Event
  -- OnConnect of a handler with a path, OnReady, and OnReset of a handler.
  connects : Handler → Text → Event
  readies : Event
  resets : ℕ → Code → Event
  -- DC.Close(), startVideo, and the messages for the video bridge.
  closes_channel : Event
  starts_video : Event
  video_answer : Event
  video_candidate : Event

-- `channel_open` says whether the data channel takes what is sent. `streams` is the map from stream
-- ids, with one entry for an id. `events` is the log, oldest first.
pub record Session : Type 0 where
  pub pin : Option PinAuth
  pub access : Text
  pub handlers : List Handler
  pub connect_path : Text
  pub authenticated : Bool
  pub is_ready : Bool
  pub negotiated_version : ℕ
  pub auth_fails : ℕ
  pub streams : List (ℕ × Stream)
  pub closed : Bool
  pub has_video : Bool
  pub video_started : Bool
  pub channel_open : Bool
  pub events : List Event

-- A session's handlers in the order in which Go's map happens to hold them, one for each type.
unfoldable pub new_session : Option PinAuth → Text → List Handler → Bool → Session
new_session pin access handlers has_video = record {
  pin = pin;
  access = access;
  handlers = handlers;
  connect_path = [];
  authenticated = false;
  is_ready = false;
  negotiated_version = 0;
  auth_fails = 0;
  streams = [];
  closed = false;
  has_video = has_video;
  video_started = false;
  channel_open = true;
  events = [];
}

unfoldable pub lookup : ℕ → List (ℕ × Stream) → Option Stream
lookup id [] = none
lookup id ((key, st) ∷ m) = if key == id then some st else lookup id m

unfoldable pub delete : ℕ → List (ℕ × Stream) → List (ℕ × Stream)
delete id [] = []
delete id ((key, st) ∷ m) = let rest = delete id m in if key == id then rest else (key, st) ∷ rest

-- `m[id] = st`, and a write through the pointer that the map holds.
unfoldable pub insert : ℕ → Stream → List (ℕ × Stream) → List (ℕ × Stream)
insert id st m = (id, st) ∷ delete id m

unfoldable pub log : Event → Session → Session
log e s = record s { events = s.events ++ (e ∷ []) }

-- `sendFrame` on a payload that fits a frame: an error when the data channel is not open.
unfoldable pub send : Event → Session → Session
send e s = if s.channel_open then log e s else s

unfoldable pub reset_handler : Stream → Code → Session → Session
reset_handler st code s = if st.handler.takes_reset then log (resets st.id code) s else s

unfoldable pub notify_reset : Stream → Code → Session → Session
notify_reset st code s =
    if st.flow then send (replies (stream_reset st.id code)) s else send (sends st.id flag_fin) s

-- `failStream` on the stream that the map holds for the id. What the code does on a goroutine, once the
-- stream's writers are done, is done here at once.
unfoldable pub fail_stream : ℕ → Code → Bool → Session → Session
fail_stream id code notify_peer s = elim (lookup id s.streams) [
  | none ↦ s
  | some st ↦
      let removed : Session = record s { streams = delete id s.streams } in
      let told = reset_handler st code removed in
      if not (stop_now st).1
      then removed
      else (if notify_peer then notify_reset st code told else told)
]

unfoldable pub reject_stream : ℕ → Code → Session → Session
reject_stream id code s =
    if leb 4 s.negotiated_version
    then send (replies (stream_reset id code)) s
    else send (sends id flag_fin) (send (sends id flag_dat) (send (sends id flag_syn) s))
