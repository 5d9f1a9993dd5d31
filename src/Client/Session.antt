-- ===== src/Client/Session.antt =====
-- internal/client/session.go: the streams of a session, and what is sent and received once the handshake
-- is done.
use Prim.Native.Nat.{ℕ}
use bitbang_cli.Wire.{Frame, flow_bytes, validate_frame_payload, is_fin, flag_fin, is_syn}
use bitbang_cli.Prelude.{
  if◌then◌else◌, true, ℕ, List, false, Bool, none, not, ◌||◌, Option, ◌∷◌, ◌++◌, ◌+◌, [], ◌&&◌, leb,
  some, err, ◌%◌, ◌==◌, ◌^◌, ok,
}
use bitbang_cli.Client.Stream.{
  Stream, new_stream, enqueue, consume, reserve_send, waits, Refusal, reserved, refused,
  activate_initial_window, queue_full, window_exceeded, stream_finished, stream_not_started,
  stream_closed,
}
use bitbang_cli.IdMap.{lookup, delete, insert}

-- The codes of the resets that this side sends.
pub data Code : Type 0 where
  receive_overflow flow_control_violation protocol_error invalid_control cancelled : Code

pub data Event : Type 0 where
  -- A frame on a stream, with its flags, or a stream-0 message, put on the data channel.
  sends : ℕ → ℕ → Event
  window_update : ℕ → ℕ → Event
  stream_reset : ℕ → Code → Event
  -- The message of a listener that ends the session, printed.
  prints_error : Event
  closes_channel : Event

-- `channel_open` says whether the data channel takes what is sent. `streams` is the map from stream ids.
pub record Session : Type 0 where
  pub negotiated_version : ℕ
  pub next_stream_id : ℕ
  pub streams : List (ℕ × Stream)
  pub closed : Bool
  pub channel_open : Bool
  pub events : List Event

unfoldable pub new_session : ℕ → Session
new_session version = record {
  negotiated_version = version;
  next_stream_id = 1;
  streams = [];
  closed = false;
  channel_open = true;
  events = [];
}

unfoldable pub flow_control_enabled : Session → Bool
flow_control_enabled s = leb 4 s.negotiated_version

-- `sendRawFrame` on a payload that fits a frame; false is the error of a closed data channel.
unfoldable pub send_raw : Event → Session → Session × Bool
send_raw e s =
    if s.closed || not s.channel_open
    then (s, false)
    else (record s { events = s.events ++ (e ∷ []) }, true)

unfoldable pub put_stream : ℕ → Stream → Session → Session
put_stream id st s = record s { streams = insert id st s.streams }

unfoldable pub detach_stream : ℕ → Session → Session
detach_stream id s = record s { streams = delete id s.streams }

unfoldable pub detach_finished : ℕ → Stream → Session → Session
unfolding put_stream detach_stream
detach_finished id st s =
    if st.inbound_delivered && st.outbound_fin then detach_stream id s else put_stream id st s

-- The notice that `failStream` sends from a goroutine, once the stream's writers are done.
unfoldable pub notify_peer_of : ℕ → Code → Session → Session
unfolding flow_control_enabled send_raw
notify_peer_of id code s =
    if flow_control_enabled s
    then (send_raw (stream_reset id code) s).0
    else (send_raw (sends id flag_fin) s).0

-- `failStream` on the stream that the map holds for the id. A stream that is detached is not kept: its
-- handle answers `errStreamClosed` from then on. `code` is `none` where the peer is not told.
unfoldable pub fail_stream : ℕ → Option Code → Session → Session
unfolding detach_stream notify_peer_of
fail_stream id code s = elim (lookup id s.streams) [
  | none ↦ s
  | some st ↦ elim code [
    | none ↦ detach_stream id s
    | some c ↦ notify_peer_of id c (detach_stream id s)
  ]
]

unfoldable pub finish_streams : Session → Session
finish_streams s = record s { closed = true; streams = [] }

-- `OpenStream`, with the id of the stream that it returns.
unfoldable pub open_stream : Session → Session × ℕ
open_stream s =
    let counted : Session = record s { next_stream_id = (s.next_stream_id + 2) % 2 ^ 32 } in
    if s.closed then (counted, s.next_stream_id) else (
      record counted { streams = insert s.next_stream_id (new_stream s.next_stream_id) s.streams },
      s.next_stream_id,
    )

-- The code that the dispatcher resets a stream with; `none` where it does not.
unfoldable pub reset_code : Refusal → Option Code
reset_code queue_full = some receive_overflow
reset_code window_exceeded = some flow_control_violation
reset_code stream_finished = some protocol_error
reset_code stream_not_started = some protocol_error
reset_code stream_closed = none

-- A frame of a stream, in the dispatcher.
unfoldable pub accept_frame : Bool → Frame → Session → Session
unfolding fail_stream put_stream reset_code
accept_frame drops frame s = elim (lookup frame.stream_id s.streams) [
  | none ↦ s
  | some st ↦
      let r : Stream × Option Refusal = enqueue drops frame (flow_control_enabled s) st in
      let kept = put_stream frame.stream_id r.0 s in
      elim r.1 [
        | none ↦ kept
        | some e ↦ elim (reset_code e) [
          | none ↦ kept
          | some code ↦ fail_stream frame.stream_id (some code) kept
        ]
      ]
]

-- The end of a round of `deliverStream`: the caller has taken the frame.
unfoldable pub delivered : ℕ → Frame → ℕ → Stream → Session → Session
unfolding send_raw fail_stream put_stream detach_finished
delivered id frame update st s =
    if is_fin frame
    then detach_finished id (record st { inbound_delivered = true }) s
    else if update == 0
    then put_stream id st s
    else (let told : Session × Bool = send_raw (window_update id update) (put_stream id st s) in
        if told.1 then told.0 else fail_stream id none told.0)

unfoldable pub deliver_next : ℕ → List Frame → Stream → Session → Session
unfolding delivered
deliver_next id [] st s = s
deliver_next id (frame ∷ rest) st s =
    let r : Stream × ℕ = consume frame (flow_control_enabled s) (record st { pending = rest }) in
    delivered id frame r.1 r.0 s

-- A round of `deliverStream` in which the caller takes the next frame.
unfoldable pub deliver : ℕ → Session → Session
unfolding deliver_next
deliver id s = elim (lookup id s.streams) [ none ↦ s | some st ↦ deliver_next id st.pending st s ]

-- What `sendFrame` answers; `blocks` waits for the window of the stream.
pub data Sent : Type 0 where
  fine : Sent
  refused_closed refused_finished refused_not_started refused_failed refused_payload : Sent
  blocks : Sent
  channel_error : Sent

-- The end of `sendFrame`: the frame goes on the channel, with its credit reserved.
unfoldable pub write_frame : Frame → Stream → Session → Session × Sent
unfolding send_raw fail_stream put_stream detach_finished flow_control_enabled
write_frame frame st s =
    let told : Session × Bool =
      send_raw (sends frame.stream_id frame.flags) (put_stream frame.stream_id st s) in
    if not told.1
    then (
      if flow_control_enabled s && is_syn frame
          then fail_stream frame.stream_id none told.0
          else told.0,
      channel_error,
    )
    else if is_fin frame
    then (detach_finished frame.stream_id (record st { outbound_fin = true }) told.0, fine)
    else (told.0, fine)

unfoldable pub write_reserved : Frame → Stream → Session → Session × Sent
unfolding write_frame
write_reserved frame st s = elim (reserve_send (flow_bytes frame) st) [
  | reserved charged ↦ write_frame frame charged s
  | refused ↦ (put_stream frame.stream_id st s, refused_failed)
  | waits ↦ (put_stream frame.stream_id st s, blocks)
]

unfoldable pub write_stream : Frame → Stream → Session → Session × Sent
unfolding write_reserved
write_stream frame st s =
    if st.outbound_fin
    then (s, refused_finished)
    else if not (flow_control_enabled s)
    then write_frame frame st s
    else if is_syn frame
    then write_reserved frame (activate_initial_window st) s
    else if not st.window_active
    then (s, refused_not_started)
    else write_reserved frame st s

-- `sendFrame` on a stream, as the methods of `Stream` call it.
unfoldable pub send_frame : Frame → Session → Session × Sent
unfolding write_stream
send_frame frame s = elim (validate_frame_payload frame.payload) [
  | err e ↦ (s, refused_payload)
  | ok valid ↦ elim (lookup frame.stream_id s.streams) [
    | none ↦ (s, refused_closed)
    | some st ↦ write_stream frame st s
  ]
]

-- `Stream.Close`. A stream that the map does not hold any more is not touched.
unfoldable pub close_stream : ℕ → Session → Session
unfolding fail_stream detach_stream
close_stream id s = elim (lookup id s.streams) [
  | none ↦ s
  | some st ↦
      if flow_control_enabled s || not st.outbound_fin
      then fail_stream id (some cancelled) s
      else detach_stream id s
]

-- `Close`.
unfoldable pub close_session : Session → Session
unfolding finish_streams
close_session s =
    let finished = finish_streams s in
    record finished { channel_open = false; events = finished.events ++ (closes_channel ∷ []) }
