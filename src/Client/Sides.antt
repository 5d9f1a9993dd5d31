-- ===== src/Client/Sides.antt =====
-- The receiving sides of internal/client/session.go and internal/session/flow.go, frame by frame.
use bitbang_cli.Flow.Receiver.{Receiver, take_frame, finish_frame}
use bitbang_cli.Wire.{Frame, is_fin, is_syn}
use bitbang_cli.Prelude.{ℕ, if◌then◌else◌, Bool, List, Option, ◌∷◌, ◌==◌, true, none, some, []}
use bitbang_cli.Flow
use bitbang_cli.Flow.{ReceiveError, protocol_error, flow_control_violation, receive_overflow}
use bitbang_cli.Client.Stream.{
  Stream, Refusal, enqueue, consume, queue_full, window_exceeded, stream_finished,
  stream_not_started, stream_closed,
}

-- A stream of the connecting side, with the frame that `deliverStream` holds out to the caller.
pub record Holder : Type 0 where
  pub stream : Stream
  pub current : Option Frame

-- The switch of `startDispatcher`; a closed stream is not reported.
unfoldable pub refusal_code : Refusal → ReceiveError
refusal_code queue_full = receive_overflow
refusal_code window_exceeded = flow_control_violation
refusal_code stream_finished = protocol_error
refusal_code stream_not_started = protocol_error
refusal_code stream_closed = ReceiveError.stream_closed

-- A frame arrives, the worker takes the next one, or the worker is done with the one that it holds.
pub data Op : Type 0 where
  arrives : Frame → Op
  takes : Op
  finishes : Op

-- What the peer sees of an operation: nothing, a reset with a code, or a window of so many bytes.
-- `duplicate_syn` is the reset with that code.
pub data Answer : Type 0 where
  silent duplicate_syn : Answer
  resets : ReceiveError → Answer
  announces : ℕ → Answer

unfoldable pub announced : ℕ → Answer
announced update = if update == 0 then silent else announces update

unfoldable pub client_arrives : Bool → Frame → Holder → Holder × Answer
unfolding refusal_code
client_arrives drops frame c =
    let r : Stream × Option Refusal = enqueue drops frame true c.stream in
    (record c { stream = r.0 }, elim r.1 [ none ↦ silent | some e ↦ resets (refusal_code e) ])

unfoldable pub client_takes : List Frame → Holder → Holder
client_takes [] c = c
client_takes (frame ∷ rest) c = record {
  stream = record c.stream { pending = rest };
  current = some frame;
}

-- The window is not announced for a FIN frame.
unfoldable pub client_finishes : Frame → Holder → Holder × Answer
unfolding announced
client_finishes frame c =
    let r : Stream × ℕ = consume frame true c.stream in
    (record { stream = r.0; current = none }, if is_fin frame then silent else announced r.1)

unfoldable pub client_take_next : Option Frame → Holder → Holder × Answer
unfolding client_takes
client_take_next none c = (client_takes c.stream.pending c, silent)
client_take_next (some frame) c = (c, silent)

unfoldable pub client_finish_held : Option Frame → Holder → Holder × Answer
unfolding client_finishes
client_finish_held none c = (c, silent)
client_finish_held (some frame) c = client_finishes frame c

unfoldable pub client_step : Bool → Op → Holder → Holder × Answer
unfolding client_arrives client_take_next client_finish_held
client_step drops (arrives frame) c = client_arrives drops frame c
client_step drops takes c = client_take_next c.current c
client_step drops finishes c = client_finish_held c.current c

-- `handleStreamFrame` of a session that is ready, for a stream that it has.
unfoldable pub listener_arrives : Frame → Receiver → Receiver × Answer
listener_arrives frame r =
    let e : Flow.Stream × Option ReceiveError = Flow.enqueue frame r.stream in
    if is_syn frame
    then (r, duplicate_syn)
    else (record r { stream = e.0 }, elim e.1 [ none ↦ silent | some code ↦ resets code ])

unfoldable pub listener_takes : List Frame → Receiver → Receiver
listener_takes [] r = r
listener_takes (frame ∷ rest) r = take_frame r.stream frame rest

unfoldable pub listener_take_next : Option Frame → Receiver → Receiver × Answer
unfolding listener_takes
listener_take_next none r = (listener_takes r.stream.queue r, silent)
listener_take_next (some frame) r = (r, silent)

unfoldable pub listener_finish_held : Option Frame → Receiver → Receiver × Answer
unfolding announced
listener_finish_held none r = (r, silent)
listener_finish_held (some frame) r =
    ((finish_frame r.stream frame).0, announced (finish_frame r.stream frame).1)

unfoldable pub listener_step : Op → Receiver → Receiver × Answer
unfolding listener_arrives listener_take_next listener_finish_held
listener_step (arrives frame) r = listener_arrives frame r
listener_step takes r = listener_take_next r.current r
listener_step finishes r = listener_finish_held r.current r

-- A reset ends the stream.
unfoldable pub record_answer : Answer → List Answer → List Answer
record_answer silent rest = rest
record_answer duplicate_syn rest = duplicate_syn ∷ []
record_answer (announces max) rest = announces max ∷ rest
record_answer (resets code) rest = resets code ∷ []

unfoldable pub answers {ℓ} : {S : Type ℓ} → (Op → S → S × Answer) → List Op → S → List Answer
unfolding record_answer
answers step [] s = []
answers step (op ∷ ops) s = record_answer (step op s).1 (answers step ops (step op s).0)
