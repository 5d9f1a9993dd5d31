-- ===== src/Witnesses/Streams.antt =====
-- internal/session/flow.go: one stream, and one stream between two ends.
use bitbang_cli.Prelude.{codes, ◌≡◌, [], ◌∷◌, ◌≢◌, none, some, refl, false, arith}
use bitbang_cli.Wire.{Frame, flow_bytes, flag_dat, is_syn}
use bitbang_cli.Flow.{
  reserve_send, Handler, new_stream, Stream, enqueue, reserved, push_frame, flow_control_violation,
  consume, advertise, dequeued,
}
use bitbang_cli.Flow.Pair.{Pair, open_pair, sends, announce, arrives, takes, finishes}
use bitbang_cli.Flow.Balance.{credit_never_lost, no_false_violation}
use bitbang_cli.Flow.Receiver.{finish_frame, take_frame}
use bitbang_cli.Flow.{enqueue}
use bitbang_cli.Flow.Pair

abbrev web : Handler
web = record { kind = codes "http"; takes_fragments = false; takes_reset = false }

abbrev data_frame : Frame
data_frame = record { stream_id = 5; flags = flag_dat; payload = 9 ∷ [] }

abbrev p0 : Pair
p0 = open_pair 5 web

abbrev sender1 : Stream
sender1 = record p0.sender { sent = 1 }

abbrev p1 : Pair
p1 = record p0 { sender = sender1; wire = data_frame ∷ [] }

first_send : reserve_send (flow_bytes data_frame) p0.sender ≡ reserved sender1
unfolding reserve_send new_stream flow_bytes is_syn open_pair
first_send = refl

reach1 : Pair.Reach p0 p1
unfolding open_pair
reach1 = Pair.next Pair.here (sends data_frame sender1 p0 first_send)

no_false_violation_example : (enqueue data_frame p1.receiver.stream).1 ≢ some flow_control_violation
no_false_violation_example = no_false_violation 5 web data_frame [] reach1 refl

abbrev p2 : Pair
p2 = record p1 {
  wire = [];
  receiver = record {
    stream = (enqueue data_frame p1.receiver.stream).0;
    current = p1.receiver.current;
  };
}

abbrev p3 : Pair
p3 = record p2 { receiver = take_frame p2.receiver.stream data_frame [] }

abbrev p4 : Pair
p4 = record p3 {
  receiver = (finish_frame p3.receiver.stream data_frame).0;
  updates = announce (finish_frame p3.receiver.stream data_frame).1 p3.updates;
}

reach4 : Pair.Reach p0 p4
unfolding reserve_send new_stream flow_bytes is_syn open_pair enqueue push_frame take_frame
reach4 =
    Pair.next
      (Pair.next (Pair.next reach1 (arrives data_frame [] p1 refl (omega arith) refl))
        (takes data_frame [] p2 refl refl))
      (finishes data_frame p3 refl)

settled : (p4.updates ≡ []) × (p4.receiver.current ≡ none) × (p4.receiver.stream.queue ≡ [])
unfolding reserve_send new_stream flow_bytes is_syn open_pair enqueue push_frame take_frame
    finish_frame consume advertise dequeued
settled = (refl, refl, refl)

credit_never_lost_example : (st : Stream) × (reserve_send 32768 p4.sender ≡ reserved st)
credit_never_lost_example =
    credit_never_lost 5 web 32768 reach4 refl settled.0 settled.1 settled.2 (omega arith)
