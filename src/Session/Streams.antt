-- ===== src/Session/Streams.antt =====
-- internal/session/session.go and flow.go: the frames of application streams, in both directions.
use bitbang_cli.Session.{
  Session, Code, send, insert, lookup, fail_stream, delete, reject_stream, unauthenticated,
  unsupported_stream, handler_error, reset_handler, session_closed, replies, duplicate_syn,
  window_update, send_error, sends,
}
use bitbang_cli.Flow.{
  Stream, Handler, enqueue, reserve_send, Reservation, consume, ReceiveError, advertise, dequeued,
  new_stream, reserved,
}
use bitbang_cli.Wire.{Frame, Bytes, validate_frame_payload, flow_bytes, is_syn, is_fin, is_more}
use bitbang_cli.Prelude.{
  Option, none, some, ℕ, List, if◌then◌else◌, Text, Bool, ◌∷◌, true, not, text_eq, [], ◌==◌, codes,
  leb, ◌||◌, false, is_ok,
}

unfoldable pub receive_error_code : ReceiveError → Code
receive_error_code ReceiveError.stream_closed = Code.receive_overflow
receive_error_code ReceiveError.protocol_error = Code.protocol_error
receive_error_code ReceiveError.flow_control_violation = Code.flow_control_violation
receive_error_code ReceiveError.receive_overflow = Code.receive_overflow

unfoldable pub handler_for : Text → List Handler → Option Handler
handler_for kind [] = none
handler_for kind (h ∷ hs) = if text_eq h.kind kind then some h else handler_for kind hs

-- A missing type is "http".
unfoldable pub kind_or_http : Text → Text
kind_or_http kind = if text_eq kind [] then codes "http" else kind

-- `st.enqueue(frame)`, and `failStream` on its error.
unfoldable pub accept_frame : Frame → Stream → Session → Session
accept_frame frame st s =
    let (st', e) = enqueue frame st in
    let s' : Session = record s { streams = insert frame.stream_id st' s.streams } in
    elim e [
      | none ↦ s'
      | some reason ↦ fail_stream frame.stream_id (receive_error_code reason) true s'
    ]

-- A SYN that opens a stream. `kind` is what JSON decoding found of the payload's type.
unfoldable pub open_stream : Text → Frame → Session → Session
open_stream kind frame s = elim (handler_for (kind_or_http kind) s.handlers) [
  | none ↦ reject_stream frame.stream_id unsupported_stream s
  | some h ↦
      if s.closed
      then s
      else accept_frame frame (new_stream frame.stream_id h (leb 4 s.negotiated_version)) s
]

unfoldable pub handle_stream_frame : (Bytes → Text) → Frame → Session → Session
handle_stream_frame kind_of frame s =
    if not s.is_ready
    then (if is_syn frame then reject_stream frame.stream_id unauthenticated s else s)
    else elim (lookup frame.stream_id s.streams) [
      | none ↦ if is_syn frame then open_stream (kind_of frame.payload) frame s else s
      | some st ↦
          if is_syn frame
          then fail_stream frame.stream_id duplicate_syn true s
          else accept_frame frame st s
    ]

-- `finishState` on the stream of an id.
unfoldable pub finish_state : ℕ → Session → Session
finish_state id s = record s { streams = delete id s.streams }

unfoldable pub mark_receive_closed : ℕ → Stream → Session → Session
mark_receive_closed id st s =
    if st.send_fin
    then finish_state id s
    else record s { streams = insert id (record st { receive_fin = true }) s.streams }

unfoldable pub mark_send_closed : ℕ → Stream → Session → Session
mark_send_closed id st s =
    if st.receive_fin
    then finish_state id s
    else record s { streams = insert id (record st { send_fin = true }) s.streams }

-- `consume` with its announcement: false is the error of `sendWindowUpdate`.
unfoldable pub consume_frame : ℕ → ℕ → Stream → Session → Session × Stream × Bool
consume_frame id bytes st s =
    let (counted, update) = consume bytes st in
    if update == 0
    then (s, counted, true)
    else (send (replies (window_update id update)) s, (advertise update counted).0, s.channel_open)

-- What the stream handler is called with.
pub data Call : Type 0 where
  on_syn on_fin on_dat : Call
  on_fragment : Bool → Call
  no_call : Call

-- The call that `processStreamFrame` makes; `no_call` is its own error.
unfoldable pub call_for : Frame → Stream → Call
call_for frame st =
    if is_syn frame
    then on_syn
    else if is_fin frame
    then (if is_more frame || st.fragmenting then no_call else on_fin)
    else if is_more frame || st.fragmenting
    then (if st.handler.takes_fragments then on_fragment (is_more frame) else no_call)
    else on_dat

-- `st.fragmenting = frame.IsMORE()` after a call of OnFragment, whatever that returned.
unfoldable pub after_call : Call → Stream → Stream
after_call (on_fragment more) st = record st { fragmenting = more }
after_call on_syn st = st
after_call on_fin st = st
after_call on_dat st = st
after_call no_call st = st

-- The end of a round: `dequeued`, and the end of the receive direction on a FIN, or `failStream` when
-- the window could not be announced.
unfoldable pub finish_round : Frame → Session × Stream × Bool → Session
finish_round frame (s, st, fine) =
    let done = dequeued frame st in
    let kept : Session = record s { streams = insert st.id done s.streams } in
    if not fine
    then fail_stream st.id handler_error true kept
    else if is_fin frame
    then mark_receive_closed st.id done s
    else kept

-- The rest of the round after the handler's call, which returned no error.
unfoldable pub settle_frame : Frame → Stream → Session → Session
settle_frame frame st s = finish_round frame (consume_frame st.id (flow_bytes frame) st s)

-- The first session when the call was refused or returned an error, the second when it was `fine`.
unfoldable pub dispatch_call : Call → Bool → Session → Session → Session
dispatch_call no_call fine failed settled = failed
dispatch_call on_syn fine failed settled = if fine then settled else failed
dispatch_call on_fin fine failed settled = if fine then settled else failed
dispatch_call on_dat fine failed settled = if fine then settled else failed
dispatch_call (on_fragment more) fine failed settled = if fine then settled else failed

-- One round of `runStream` on the stream of an id: the next frame of its queue goes to its handler,
-- which is `fine` or returns an error. A SYN is not consumed; its flow bytes are 0.
unfoldable pub run_round : Bool → ℕ → Session → Session
run_round fine id s = elim (lookup id s.streams) [
  | none ↦ s
  | some st ↦ elim st.queue [
    | [] ↦ s
    | frame ∷ rest ↦
        let taken : Stream = record st { queue = rest } in
        let call = call_for frame taken in
        let called = after_call call taken in
        dispatch_call call fine
          (fail_stream id handler_error true
            (record s { streams = insert id (dequeued frame called) s.streams }))
          (settle_frame frame called s)
  ]
]

pub data SendResult : Type 0 where
  sent too_large closed finished failed blocked : SendResult

-- `sendFrame` on a stream once credit is reserved, and the end of the send direction on a FIN.
unfoldable pub write_frame : Frame → Stream → Session → Session × SendResult
write_frame frame st s =
    let kept : Session = record s { streams = insert frame.stream_id st s.streams } in
    let out = send (sends frame.stream_id frame.flags) kept in
    if not s.channel_open
    then (fail_stream frame.stream_id send_error false kept, failed)
    else if is_fin frame
    then (mark_send_closed frame.stream_id st out, sent)
    else (out, sent)

unfoldable pub write_reserved : Frame → Reservation → Session → Session × SendResult
write_reserved frame Reservation.refused s = (s, closed)
write_reserved frame Reservation.waits s = (s, blocked)
write_reserved frame (reserved st) s = write_frame frame st s

-- `sendStreamFrame`: `blocked` is a writer that waits for credit and has sent nothing yet.
unfoldable pub send_stream_frame : Frame → Session → Session × SendResult
send_stream_frame frame s =
    if not (is_ok (validate_frame_payload frame.payload))
    then (s, too_large)
    else if s.closed
    then (s, closed)
    else elim (lookup frame.stream_id s.streams) [
      | none ↦ (s, closed)
      | some st ↦
          if st.send_fin
          then (s, finished)
          else write_reserved frame (reserve_send (flow_bytes frame) st) s
    ]

-- The loop of `Close` over the streams that the map held.
unfoldable pub reset_all : List (ℕ × Stream) → Session → Session
reset_all [] s = s
reset_all ((id, st) ∷ m) s =
    reset_all m (if st.closed then s else reset_handler st session_closed s)

-- `Close`, which runs once.
unfoldable pub close_session : Session → Session
close_session s =
    if s.closed then s else reset_all s.streams (record s { closed = true; streams = [] })
