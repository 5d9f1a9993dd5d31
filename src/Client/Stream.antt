-- ===== src/Client/Stream.antt =====
-- internal/client/session.go: one stream of the connecting side. Each locked section is one function.
use bitbang_cli.Wire.{
  Frame, initial_stream_window, flow_bytes, max_queued_stream_frames, is_fin,
  stream_window_update_threshold,
}
use bitbang_cli.Prelude.{
  ℕ, true, Bool, if◌then◌else◌, [], List, ltb, false, not, Option, ◌+◌, ◌-◌, leb, length, some,
  ◌||◌, ◌&&◌, ◌++◌, ◌==◌, ◌∷◌, none,
}
use bitbang_cli.Flow.{add64, sub64}

-- `pending` is the content of the channel of that name. `queued_bytes` and `queued_frames` are `int`s
-- that never fall below 0 (Client.Account). `failed` says that `streamErr` is set.
pub record Stream : Type 0 where
  pub id : ℕ
  pub pending : List Frame
  pub abandoned : Bool
  pub queued_bytes : ℕ
  pub queued_frames : ℕ
  pub received : ℕ
  pub consumed : ℕ
  pub advertised : ℕ
  pub last_update : ℕ
  pub window_active : Bool
  pub sent : ℕ
  pub send_limit : ℕ
  pub failed : Bool
  pub inbound_fin : Bool
  pub inbound_delivered : Bool
  pub outbound_fin : Bool

unfoldable pub new_stream : ℕ → Stream
new_stream id = record {
  id = id;
  pending = [];
  abandoned = false;
  queued_bytes = 0;
  queued_frames = 0;
  received = 0;
  consumed = 0;
  advertised = 0;
  last_update = 0;
  window_active = false;
  sent = 0;
  send_limit = 0;
  failed = false;
  inbound_fin = false;
  inbound_delivered = false;
  outbound_fin = false;
}

pub data Refusal : Type 0 where
  queue_full window_exceeded stream_closed stream_finished stream_not_started : Refusal

unfoldable pub release : Frame → Stream → Stream
release frame st = record st {
  queued_frames = st.queued_frames - 1;
  queued_bytes = st.queued_bytes - length frame.payload;
}

-- The `select` at the end of `enqueue`. Go takes either case when the stream is abandoned and the
-- channel has room: `drops` says which.
unfoldable pub push_pending : Bool → Frame → Stream → Stream × Option Refusal
unfolding release
push_pending drops frame st =
    if ltb (length st.pending) max_queued_stream_frames && not (st.abandoned && drops)
    then (record st { pending = st.pending ++ (frame ∷ []) }, none)
    else (release frame st, some (if st.abandoned then stream_closed else queue_full))

-- The locked section of `enqueue` behind its tests.
unfoldable pub count_frame : Frame → Stream → Stream
count_frame frame st = record st {
  queued_frames = st.queued_frames + 1;
  queued_bytes = st.queued_bytes + length frame.payload;
  received = add64 st.received (flow_bytes frame);
  inbound_fin = is_fin frame || st.inbound_fin;
}

unfoldable pub enqueue : Bool → Frame → Bool → Stream → Stream × Option Refusal
unfolding push_pending count_frame
enqueue drops frame enforce st =
    if st.inbound_fin
    then (st, some stream_finished)
    else if enforce && not st.window_active
    then (st, some stream_not_started)
    else if enforce
        && (ltb st.advertised st.received || ltb (st.advertised - st.received) (flow_bytes frame))
    then (st, some window_exceeded)
    else if leb max_queued_stream_frames st.queued_frames
        || ltb initial_stream_window (st.queued_bytes + length frame.payload)
    then (st, some queue_full)
    else push_pending drops frame (count_frame frame st)

-- The new counters, and the window to announce (0 for none).
unfoldable pub consume : Frame → Bool → Stream → Stream × ℕ
unfolding release
consume frame flow st =
    let released = release frame st in
    if not flow || flow_bytes frame == 0
    then (released, 0)
    else (let consumed = add64 st.consumed (flow_bytes frame) in
        if ltb (sub64 consumed st.last_update) stream_window_update_threshold
        then (record released { consumed = consumed }, 0)
        else (
          record released {
            consumed = consumed;
            last_update = consumed;
            advertised = add64 initial_stream_window consumed;
          },
          add64 initial_stream_window consumed,
        ))

unfoldable pub update_send_limit : ℕ → Stream → Stream
update_send_limit max st = if ltb st.send_limit max then record st { send_limit = max } else st

unfoldable pub activate_initial_window : Stream → Stream
unfolding update_send_limit
activate_initial_window st =
    if st.window_active
    then st
    else update_send_limit initial_stream_window
        (record st { advertised = initial_stream_window; window_active = true })

-- One round of the loop of `reserveSend`; `waits` blocks until a larger limit, a failure or the end of
-- the session wakes it.
pub data Reservation : Type 0 where
  reserved : Stream → Reservation
  refused : Reservation
  waits : Reservation

unfoldable pub reserve_send : ℕ → Stream → Reservation
reserve_send n st =
    if st.failed
    then refused
    else if leb n (sub64 st.send_limit st.sent)
    then reserved (record st { sent = add64 st.sent n })
    else waits

unfoldable pub fail : Stream → Stream
fail st = record st { failed = true; abandoned = true }
