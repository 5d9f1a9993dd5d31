-- ===== src/Flow/Balance.antt =====
-- internal/session/flow.go: the accounts of the two ends of a stream.
use bitbang_cli.Flow.Pair.{
  Pair, announce, Step, open_pair, Reach, next, sends, arrives, here, takes, finishes, updated,
}
use bitbang_cli.Flow.Window.{credit_returns}
use bitbang_cli.Flow.Receiver.{
  Receiver, Inv, take_frame, finish_frame, enqueue-Inv, finish_frame-Inv, take_frame-Inv,
}
use bitbang_cli.Prelude.{
  ℕ, List, if◌then◌else◌, ◌≤◌, ◌≡◌, arith, ◌∷◌, ◌==◌, ◌++◌, true, [], false, ◌+◌, none, total, ◌<◌,
  ◌^◌, some, ◌⊎◌, refl, total-append, ◌∙◌, inl, ◌≢◌, inr,
}
use bitbang_cli.Wire.{Frame, flow_bytes, stream_window_update_threshold}
use bitbang_cli.Flow.{
  Stream, ℕ, Frame, List, reserve_send, Handler, new_stream, flow_bytes, ◌∷◌, [], reserved, true,
  none, false, enqueue, some, update_send_max, stream_window_update_threshold,
  flow_control_violation, add64,
}

-- The sender's limit rises through the updates under way to the receiver's.
abbrev pub Rises : ℕ → List ℕ → ℕ → Type 0
Rises low [] high = low ≡ high
Rises low (u ∷ us) high = (low ≤ u) × Rises u us high

Rises-le : (low high : ℕ) (us : List ℕ) → Rises low us high → low ≤ high
Rises-le low high [] h = omega arith
Rises-le low high (u ∷ us) h = omega (arith, h.0, Rises-le u high us h.1)

Rises-append :
    (low mid high : ℕ) (us : List ℕ)
    → Rises low us mid
    → mid ≤ high
    → Rises low (us ++ (high ∷ [])) high
Rises-append low mid high [] h k = (omega arith, refl)
Rises-append low mid high (u ∷ us) h k = (h.0, Rises-append u mid high us h.1 k)

pub record IsBalanced (p : Pair) : Type 0 where
  pub receiving : Inv p.receiver
  pub flows : (p.sender.flow ≡ true) × (p.receiver.stream.flow ≡ true)
  pub alive : (p.sender.closed ≡ false) × (p.receiver.stream.closed ≡ false)
  pub balanced : p.sender.sent ≡ p.receiver.stream.received + total flow_bytes p.wire
  pub within : p.sender.sent ≤ p.sender.send_max
  pub rises : Rises p.sender.send_max p.updates p.receiver.stream.advertised

open_pair-IsBalanced : (id : ℕ) (h : Handler) → IsBalanced (open_pair id h)
unfolding open_pair new_stream
open_pair-IsBalanced id h = ground arith

sends-IsBalanced :
    (frame : Frame) (st : Stream) (p : Pair)
    → reserve_send (flow_bytes frame) p.sender ≡ reserved st
    → IsBalanced p
    → IsBalanced (record p { sender = st; wire = p.wire ++ (frame ∷ []) })
unfolding reserve_send
sends-IsBalanced frame st p h v = ground (
  arith,
  total-append flow_bytes p.wire (frame ∷ []),
  Rises-le p.sender.send_max p.receiver.stream.advertised p.updates v.rises,
  v.receiving.window,
  v.receiving.due,
)

enqueue_keeps :
    (frame : Frame) (st : Stream)
    → st.received + flow_bytes frame < 2 ^ 63
    → (enqueue frame st).1 ≡ none
    → ((enqueue frame st).0.flow ≡ st.flow)
      × ((enqueue frame st).0.closed ≡ st.closed)
      × ((enqueue frame st).0.advertised ≡ st.advertised)
      × ((enqueue frame st).0.received ≡ st.received + flow_bytes frame)
unfolding enqueue
enqueue_keeps frame st small h = ground arith

arrives-IsBalanced :
    (frame : Frame) (rest : List Frame) (p : Pair)
    → p.wire ≡ frame ∷ rest
    → p.receiver.stream.received + flow_bytes frame < 2 ^ 63
    → (enqueue frame p.receiver.stream).1 ≡ none
    → IsBalanced p
    → IsBalanced (record p {
      wire = rest;
      receiver = record {
        stream = (enqueue frame p.receiver.stream).0;
        current = p.receiver.current;
      };
    })
arrives-IsBalanced frame rest p w small h v =
    let (f, c, a, r) = enqueue_keeps frame p.receiver.stream small h in
    record {
      receiving = enqueue-Inv frame p.receiver v.flows.1 small h v.receiving;
      flows = (v.flows.0, f ∙ v.flows.1);
      alive = (v.alive.0, c ∙ v.alive.1);
      balanced = ground (arith, v.balanced, r);
      within = v.within;
      rises = rw a v.rises;
    }

finish_keeps :
    (frame : Frame) (st : Stream)
    → ((finish_frame st frame).0.stream.flow ≡ st.flow)
      × ((finish_frame st frame).0.stream.closed ≡ st.closed)
      × ((finish_frame st frame).0.stream.received ≡ st.received)
unfolding finish_frame
finish_keeps frame st = ground arith

finish_announces :
    (frame : Frame) (r : Receiver)
    → Inv r
    → r.current ≡ some frame
    → ((finish_frame r.stream frame).1 ≡ 0)
        × ((finish_frame r.stream frame).0.stream.advertised ≡ r.stream.advertised)
      ⊎ (((finish_frame r.stream frame).1 ≡ (finish_frame r.stream frame).0.stream.advertised)
          × (r.stream.advertised ≤ (finish_frame r.stream frame).0.stream.advertised)
          × (0 < (finish_frame r.stream frame).1))
unfolding finish_frame
finish_announces frame r v h = ground arith

finishes-Rises :
    (frame : Frame) (p : Pair)
    → p.receiver.current ≡ some frame
    → IsBalanced p
    → Rises p.sender.send_max
        (announce (finish_frame p.receiver.stream frame).1 p.updates)
        (finish_frame p.receiver.stream frame).0.stream.advertised
finishes-Rises frame p h v = elim (finish_announces frame p.receiver v.receiving h) [
  | inl (quiet, same) ↦ rw (quiet, same) v.rises
  | inr (update, grows, positive) ↦ ground (
    arith,
    update,
    positive,
    Rises-append p.sender.send_max p.receiver.stream.advertised
        (finish_frame p.receiver.stream frame).0.stream.advertised p.updates v.rises grows,
  )
]

finishes-IsBalanced :
    (frame : Frame) (p : Pair)
    → p.receiver.current ≡ some frame
    → IsBalanced p
    → IsBalanced (record p {
      receiver = (finish_frame p.receiver.stream frame).0;
      updates = announce (finish_frame p.receiver.stream frame).1 p.updates;
    })
finishes-IsBalanced frame p h v =
    let (f, c, r) = finish_keeps frame p.receiver.stream in
    record {
      receiving = finish_frame-Inv p.receiver frame v.flows.1 v.alive.1 h v.receiving;
      flows = (v.flows.0, f ∙ v.flows.1);
      alive = (v.alive.0, c ∙ v.alive.1);
      balanced = ground (arith, v.balanced, r);
      within = v.within;
      rises = finishes-Rises frame p h v;
    }

updated-IsBalanced :
    (max : ℕ) (rest : List ℕ) (p : Pair)
    → p.updates ≡ max ∷ rest
    → IsBalanced p
    → IsBalanced (record p { sender = update_send_max max p.sender; updates = rest })
unfolding update_send_max
updated-IsBalanced max rest p u v = ground arith

takes-IsBalanced :
    (frame : Frame) (rest : List Frame) (p : Pair)
    → p.receiver.current ≡ none
    → p.receiver.stream.queue ≡ frame ∷ rest
    → IsBalanced p
    → IsBalanced (record p { receiver = take_frame p.receiver.stream frame rest })
takes-IsBalanced frame rest p h q v = record {
  receiving = take_frame-Inv p.receiver frame rest h q v.receiving;
  flows = unfold take_frame in v.flows;
  alive = unfold take_frame in v.alive;
  balanced = unfold take_frame in v.balanced;
  within = v.within;
  rises = unfold take_frame in v.rises;
}

Step-IsBalanced : {p q : Pair} → Step p q → IsBalanced p → IsBalanced q
Step-IsBalanced (sends frame st p h) v = sends-IsBalanced frame st p h v
Step-IsBalanced (arrives frame rest p w small h) v = arrives-IsBalanced frame rest p w small h v
Step-IsBalanced (takes frame rest p h q) v = takes-IsBalanced frame rest p h q v
Step-IsBalanced (finishes frame p h) v = finishes-IsBalanced frame p h v
Step-IsBalanced (updated max rest p u) v = updated-IsBalanced max rest p u v

-- In every run of the two ends: the receiver's accounts hold, both are open and run flow control, what
-- the sender has sent is what the receiver has received and what is on the wire, the sender is within
-- its limit, and that limit rises through the updates under way to the receiver's.
pub Reach-IsBalanced : (id : ℕ) (h : Handler) {p : Pair} → Reach (open_pair id h) p → IsBalanced p
Reach-IsBalanced id h here = open_pair-IsBalanced id h
Reach-IsBalanced id h (next r st) = Step-IsBalanced st (Reach-IsBalanced id h r)

enqueue_window :
    (frame : Frame) (st : Stream)
    → st.received + flow_bytes frame ≤ st.advertised
    → (enqueue frame st).1 ≢ some flow_control_violation
unfolding enqueue
enqueue_window frame st h = ground arith

-- Between two ends that run this code the receiver never reports a flow-control violation: in every
-- reachable state the next frame of the data channel lies within the announced window.
pub no_false_violation :
    (id : ℕ) (h : Handler) {p : Pair} (frame : Frame) (rest : List Frame)
    → Reach (open_pair id h) p
    → p.wire ≡ frame ∷ rest
    → (enqueue frame p.receiver.stream).1 ≢ some flow_control_violation
no_false_violation id h {p} frame rest r w =
    let v = Reach-IsBalanced id h r in
    enqueue_window frame p.receiver.stream (
      ground (
        arith,
        v.balanced,
        v.within,
        w,
        Rises-le p.sender.send_max p.receiver.stream.advertised p.updates v.rises,
      ))

-- No stream starves for credit: once the frames and the updates under way have arrived and the worker
-- has processed its queue, the sender can reserve any number of bytes up to half of the initial window.
pub credit_never_lost :
    (id : ℕ) (h : Handler) {p : Pair} (bytes : ℕ)
    → Reach (open_pair id h) p
    → p.wire ≡ []
    → p.updates ≡ []
    → p.receiver.current ≡ none
    → p.receiver.stream.queue ≡ []
    → bytes ≤ stream_window_update_threshold
    → (st : Stream) × (reserve_send bytes p.sender ≡ reserved st)
unfolding reserve_send
credit_never_lost id h {p} bytes r w u c q small =
    let v = Reach-IsBalanced id h r in
    (
      if bytes == 0 then p.sender else record p.sender { sent = add64 p.sender.sent bytes },
      ground (arith, v, credit_returns p.receiver v.receiving c q),
    )
