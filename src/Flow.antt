-- ===== src/Flow.antt =====
-- internal/session/flow.go: one stream's receive bounds and its flow-control counters in both
-- directions. Each locked section of the code is one function here. The mutexes, the wake-up channels
-- and `writeMu` have no counterpart: a function here is what runs under the lock.
pub mod Receiver
pub mod Window
pub mod Pair
pub mod Balance
use bitbang_cli.Prelude.{
  ltb, leb, ◌==◌, if◌then◌else◌, length, Text, ℕ, ◌+◌, ◌-◌, ◌%◌, ◌^◌, Bool, true, false, ◌&&◌, ◌||◌,
  not, Option, none, some, List, [], ◌∷◌, ◌++◌,
}
use bitbang_cli.Wire.{
  initial_stream_window, stream_window_update_threshold, max_queued_stream_frames, Frame, is_fin,
  flow_bytes,
}

-- What the session uses of a registered stream handler: its type, and whether it implements
-- FragmentHandler and ResetHandler.
pub record Handler : Type 0 where
  pub kind : Text
  pub takes_fragments : Bool
  pub takes_reset : Bool

-- `queue` is the content of the channel. `queued_bytes` and `queued_frames` are `int`s that never fall
-- below 0 (Flow.Receiver), and `ℕ` here.
pub record Stream : Type 0 where
  pub id : ℕ
  pub handler : Handler
  pub flow : Bool
  pub queue : List Frame
  pub closed : Bool
  pub queued_bytes : ℕ
  pub queued_frames : ℕ
  pub received : ℕ
  pub consumed : ℕ
  pub advertised : ℕ
  pub last_update : ℕ
  pub sent : ℕ
  pub send_max : ℕ
  pub receive_fin : Bool
  pub receive_queued_fin : Bool
  pub send_fin : Bool
  pub fragmenting : Bool

-- `uint64` addition and subtraction.
abbrev pub add64 : ℕ → ℕ → ℕ
add64 a b = (a + b) % 2 ^ 64

abbrev pub sub64 : ℕ → ℕ → ℕ
sub64 a b = (a + 2 ^ 64 - b) % 2 ^ 64

unfoldable pub new_stream : ℕ → Handler → Bool → Stream
new_stream id handler flow = record {
  id = id;
  handler = handler;
  flow = flow;
  queue = [];
  closed = false;
  queued_bytes = 0;
  queued_frames = 0;
  received = 0;
  consumed = 0;
  advertised = if flow then initial_stream_window else 0;
  last_update = 0;
  sent = 0;
  send_max = if flow then initial_stream_window else 0;
  receive_fin = false;
  receive_queued_fin = false;
  send_fin = false;
  fragmenting = false;
}

pub data ReceiveError : Type 0 where
  stream_closed protocol_error flow_control_violation receive_overflow : ReceiveError

-- The locked counters of `enqueue` once its tests have passed, and the `select` on the channel, whose
-- capacity is `max_queued_stream_frames`.
unfoldable pub push_frame : Frame → Stream → Stream × Option ReceiveError
push_frame frame st =
    let counted : Stream = record st {
      received = add64 st.received (flow_bytes frame);
      receive_queued_fin = is_fin frame || st.receive_queued_fin;
      queued_frames = st.queued_frames + 1;
      queued_bytes = st.queued_bytes + length frame.payload;
    } in
    if ltb (length st.queue) max_queued_stream_frames
    then (record counted { queue = st.queue ++ (frame ∷ []) }, none)
    else (
      record counted {
        received = sub64 counted.received (flow_bytes frame);
        receive_queued_fin = not (is_fin frame) && counted.receive_queued_fin;
        queued_frames = counted.queued_frames - 1;
        queued_bytes = counted.queued_bytes - length frame.payload;
      },
      some receive_overflow,
    )

-- The test `bytes > InitialStreamWindow - st.queuedBytes` is on `int`s, and stands here without the
-- subtraction.
unfoldable pub enqueue : Frame → Stream → Stream × Option ReceiveError
unfolding push_frame
enqueue frame st =
    if st.closed
    then (st, some stream_closed)
    else if st.receive_queued_fin
    then (st, some protocol_error)
    else if st.flow
        && (ltb 0 (flow_bytes frame)
            && (ltb st.advertised st.received
                || ltb (st.advertised - st.received) (flow_bytes frame)))
    then (st, some flow_control_violation)
    else if leb max_queued_stream_frames st.queued_frames
        || ltb initial_stream_window (st.queued_bytes + length frame.payload)
    then (st, some receive_overflow)
    else push_frame frame st

unfoldable pub dequeued : Frame → Stream → Stream
dequeued frame st = record st {
  queued_frames = st.queued_frames - 1;
  queued_bytes = st.queued_bytes - length frame.payload;
}

unfoldable pub stop_now : Stream → Stream × Bool
stop_now st = if st.closed then (st, false) else (record st { closed = true }, true)

unfoldable pub update_send_max : ℕ → Stream → Stream
update_send_max max st =
    if not st.closed && ltb st.send_max max then record st { send_max = max } else st

-- One round of the loop of `reserveSend`: `waits` blocks until `updateSendMax` or a close wakes it.
pub data Reservation : Type 0 where
  reserved : Stream → Reservation
  refused : Reservation
  waits : Reservation

unfoldable pub reserve_send : ℕ → Stream → Reservation
reserve_send bytes st =
    if not st.flow || bytes == 0
    then (if st.closed then refused else reserved st)
    else if st.closed
    then refused
    else if leb st.sent st.send_max && leb bytes (st.send_max - st.sent)
    then reserved (record st { sent = add64 st.sent bytes })
    else waits

-- `consume` up to its unlock: the new counters, and the window to announce (0 for none).
unfoldable pub consume : ℕ → Stream → Stream × ℕ
consume bytes st =
    if not st.flow || bytes == 0
    then (st, 0)
    else if st.closed
    then (st, 0)
    else (let consumed = add64 st.consumed bytes in
        if leb stream_window_update_threshold (sub64 consumed st.last_update)
        then (
          record st {
            consumed = consumed;
            last_update = consumed;
            advertised = add64 consumed initial_stream_window;
          },
          add64 consumed initial_stream_window,
        )
        else (record st { consumed = consumed }, 0))

-- The locked section of `sendWindowUpdate`; false is `errStreamClosed`, and nothing is sent.
unfoldable pub advertise : ℕ → Stream → Stream × Bool
advertise max st =
    if st.closed
    then (st, false)
    else ((if ltb st.advertised max then record st { advertised = max } else st), true)
