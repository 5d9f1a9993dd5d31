-- ===== src/Client/Accounts.antt =====
-- The two receiving sides account for a stream alike.
use bitbang_cli.Flow.{Handler}
use bitbang_cli.Wire.{Frame, flow_bytes, is_syn, is_fin}
use bitbang_cli.Prelude.{
  All, on_if, Bool, false, ◌≡◌, arith, List, true, some, length-append, none, ◌+◌, ℕ, ◌≤◌, ◌<◌, ◌^◌,
  Option-cases, ◌∷◌, refl, [], Option, subst, sym, total, if◌then◌else◌,
}
use bitbang_cli.Client.Sides.{
  Holder, client_finishes, client_takes, client_arrives, Answer, listener_takes, listener_arrives,
  announces, resets, announced, silent, client_step, Op, arrives, listener_step, takes, finishes,
  client_take_next, answers, client_finish_held, listener_take_next, listener_finish_held,
  record_answer, duplicate_syn,
}
use bitbang_cli.Flow
use bitbang_cli.Client.Stream.{enqueue, consume, activate_initial_window, new_stream}
use bitbang_cli.Flow.Receiver.{
  Inv, finish_frame, Receiver, take_frame, held, finish_frame-Inv, enqueue-Inv, new-Inv,
}

-- The two sides hold the same frames and the same counters.
pub record Agrees (c : Holder) (r : Receiver) : Type 0 where
  pub frames : c.stream.pending ≡ r.stream.queue
  pub current : c.current ≡ r.current
  pub queued_bytes : c.stream.queued_bytes ≡ r.stream.queued_bytes
  pub queued_frames : c.stream.queued_frames ≡ r.stream.queued_frames
  pub received : c.stream.received ≡ r.stream.received
  pub consumed : c.stream.consumed ≡ r.stream.consumed
  pub advertised : c.stream.advertised ≡ r.stream.advertised
  pub last_update : c.stream.last_update ≡ r.stream.last_update
  pub finished : c.stream.inbound_fin ≡ r.stream.receive_queued_fin
  pub open_client : (c.stream.window_active ≡ true) × (c.stream.abandoned ≡ false)
  pub open_listener : (r.stream.flow ≡ true) × (r.stream.closed ≡ false)

abbrev pub is_reset : Answer → Bool
is_reset silent = false
is_reset duplicate_syn = true
is_reset (announces max) = false
is_reset (resets code) = true

arrives-Agrees :
    (drops : Bool) (frame : Frame) (c : Holder) (r : Receiver)
    → is_syn frame ≡ false
    → Agrees c r
    → Inv r
    → ((client_arrives drops frame c).1 ≡ (listener_arrives frame r).1)
      × (is_reset (listener_arrives frame r).1 ≡ false
          → Agrees (client_arrives drops frame c).0 (listener_arrives frame r).0)
unfolding client_arrives listener_arrives enqueue Flow.enqueue
arrives-Agrees drops frame c r plain a v =
    ground (arith, length-append (held r.current) r.stream.queue)

takes-Agrees :
    (fs gs : List Frame) (c : Holder) (r : Receiver)
    → fs ≡ gs
    → c.stream.pending ≡ fs
    → r.stream.queue ≡ gs
    → r.current ≡ none
    → Agrees c r
    → Inv r
    → Agrees (client_takes fs c) (listener_takes gs r) × Inv (listener_takes gs r)
unfolding client_takes listener_takes take_frame
takes-Agrees [] [] c r e hc hr n a v = (a, v)
takes-Agrees [] (g ∷ gs) c r e hc hr n a v = absurd (ground (arith, e))
takes-Agrees (f ∷ fs) [] c r e hc hr n a v = absurd (ground (arith, e))
takes-Agrees (f ∷ fs) (g ∷ gs) c r e hc hr n a v = (ground arith, ground arith)

finishes-Agrees :
    (frame : Frame) (c : Holder) (r : Receiver)
    → r.current ≡ some frame
    → Agrees c r
    → Inv r
    → ((client_finishes frame c).1
        ≡ (if is_fin frame then silent else announced (finish_frame r.stream frame).1))
      × Agrees (client_finishes frame c).0 (finish_frame r.stream frame).0
unfolding client_finishes finish_frame consume
finishes-Agrees frame c r h a v = ground arith

-- The window that the listener announces for a FIN frame is left out.
unfoldable pub finish_before_fin : Option Frame → Receiver × Answer → Receiver × Answer
finish_before_fin none r = r
finish_before_fin (some frame) r = if is_fin frame then (r.0, silent) else r

-- The listener, whose peer does not look at the window that it announces for a FIN frame.
unfoldable pub listener_before_fin : Op → Receiver → Receiver × Answer
unfolding finish_before_fin
listener_before_fin (arrives frame) r = listener_step (arrives frame) r
listener_before_fin takes r = listener_step takes r
listener_before_fin finishes r = finish_before_fin r.current (listener_step finishes r)

-- No SYN arrives.
abbrev pub IsOpenOp : Op → Type 0
IsOpenOp (arrives frame) = is_syn frame ≡ false
IsOpenOp takes = Unit
IsOpenOp finishes = Unit

-- The bytes that an operation, or a list of them, brings in.
abbrev pub bytes_of : Op → ℕ
bytes_of (arrives frame) = flow_bytes frame
bytes_of takes = 0
bytes_of finishes = 0

-- What one operation does to two sides that agree: the same answer, and if it is no reset, they still
-- agree, the listener's accounts hold, and it has received what came in.
abbrev pub Alike : ℕ → ℕ → Holder × Answer → Receiver × Answer → Type 0
Alike before bytes (c, x) (r, y) =
    (x ≡ y) × (is_reset y ≡ false → Agrees c r × Inv r × (r.stream.received ≤ before + bytes))

received_lem :
    (frame : Frame) (st : Flow.Stream)
    → st.received + flow_bytes frame < 2 ^ 63
    → (Flow.enqueue frame st).1 ≡ none
    → (Flow.enqueue frame st).0.received ≤ st.received + flow_bytes frame
unfolding Flow.enqueue
received_lem frame st small h = ground arith

listener_arrives-Inv :
    (frame : Frame) (r : Receiver)
    → is_syn frame ≡ false
    → r.stream.flow ≡ true
    → r.stream.received + flow_bytes frame < 2 ^ 63
    → Inv r
    → is_reset (listener_arrives frame r).1 ≡ false
    → Inv (listener_arrives frame r).0
      × ((listener_arrives frame r).0.stream.received ≤ r.stream.received + flow_bytes frame)
unfolding listener_arrives
listener_arrives-Inv frame r plain f small v =
    let P : Receiver × Answer → Type 0 = λ y.
      is_reset y.1 ≡ false
      → Inv y.0 × (y.0.stream.received ≤ r.stream.received + flow_bytes frame) in
    on_if P (is_syn frame) _ _ (λ syn. absurd (ground (arith, plain, syn)))
      (λ open_op h.
        (let taken : (Flow.enqueue frame r.stream).1 ≡ none =
            ground (arith, h, Option-cases (Flow.enqueue frame r.stream).1) in
          (enqueue-Inv frame r f small taken v, received_lem frame r.stream small taken)))

finish_received :
    (frame : Frame) (r : Receiver)
    → (finish_frame r.stream frame).0.stream.received ≡ r.stream.received
unfolding finish_frame
finish_received frame r = ground arith

takes_received :
    (gs : List Frame) (r : Receiver) → (listener_takes gs r).stream.received ≤ r.stream.received + 0
unfolding listener_takes take_frame
takes_received [] r = omega arith
takes_received (g ∷ gs) r = omega arith

take_next-Alike :
    (h k : Option Frame) (c : Holder) (r : Receiver)
    → h ≡ k
    → r.current ≡ k
    → Agrees c r
    → Inv r
    → Alike r.stream.received 0 (client_take_next h c) (listener_take_next k r)
unfolding client_take_next listener_take_next
take_next-Alike none none c r e n a v =
    let kept = takes-Agrees c.stream.pending r.stream.queue c r a.frames refl refl n a v in
    (refl, λ ok. (kept.0, kept.1, takes_received r.stream.queue r))
take_next-Alike none (some g) c r e n a v = absurd (ground (arith, e))
take_next-Alike (some f) none c r e n a v = absurd (ground (arith, e))
take_next-Alike (some f) (some g) c r e n a v = (refl, λ ok. (a, v, omega arith))

finish_held-Alike :
    (h k : Option Frame) (c : Holder) (r : Receiver)
    → h ≡ k
    → r.current ≡ k
    → Agrees c r
    → Inv r
    → Alike r.stream.received 0
        (client_finish_held h c)
        (finish_before_fin k (listener_finish_held k r))
unfolding client_finish_held listener_finish_held finish_before_fin
finish_held-Alike none none c r e n a v = (refl, λ ok. (a, v, omega arith))
finish_held-Alike none (some g) c r e n a v = absurd (ground (arith, e))
finish_held-Alike (some f) none c r e n a v = absurd (ground (arith, e))
finish_held-Alike (some f) (some g) c r e n a v =
    let same : f ≡ g = ground (arith, e) in
    let kept = finishes-Agrees g c r n a v in
    let after : Agrees (client_finishes g c).0 (finish_frame r.stream g).0
        × Inv (finish_frame r.stream g).0
        × ((finish_frame r.stream g).0.stream.received ≤ r.stream.received + 0) =
      (
        kept.1,
        finish_frame-Inv r g a.open_listener.0 a.open_listener.1 n v,
        omega (arith, finish_received g r),
      ) in
    subst
      (λ x.
        Alike r.stream.received 0 (client_finish_held (some x) c)
          (finish_before_fin (some g) (listener_finish_held (some g) r)))
      (sym same)
      (on_if (λ y. Alike r.stream.received 0 (client_finish_held (some g) c) y) (is_fin g) _ _
        (λ fin. (ground (arith, kept.0), λ ok. after))
        (λ more. (ground (arith, kept.0), λ ok. after)))

step-Alike :
    (drops : Bool) (op : Op) (c : Holder) (r : Receiver)
    → Agrees c r
    → Inv r
    → IsOpenOp op
    → r.stream.received + bytes_of op < 2 ^ 63
    → Alike r.stream.received (bytes_of op) (client_step drops op c) (listener_before_fin op r)
unfolding client_step listener_step listener_before_fin
step-Alike drops (arrives frame) c r a v plain small =
    let kept = arrives-Agrees drops frame c r plain a v in
    (
      kept.0,
      λ ok.
          (let w = listener_arrives-Inv frame r plain a.open_listener.0 small v ok in
            (kept.1 ok, w.0, w.1)),
    )
step-Alike drops takes c r a v plain small =
    take_next-Alike c.current r.current c r a.current refl a v
step-Alike drops finishes c r a v plain small =
    finish_held-Alike c.current r.current c r a.current refl a v

record_answer_same :
    (x y : Answer) (us vs : List Answer)
    → x ≡ y
    → (is_reset y ≡ false → us ≡ vs)
    → record_answer x us ≡ record_answer y vs
unfolding record_answer
record_answer_same x silent us vs e h = rw (e, h refl)
record_answer_same x duplicate_syn us vs e h = rw e
record_answer_same x (announces max) us vs e h = rw (e, h refl)
record_answer_same x (resets code) us vs e h = rw e

answers-Alike :
    (drops : Bool) (ops : List Op) (c : Holder) (r : Receiver)
    → Agrees c r
    → Inv r
    → All IsOpenOp ops
    → r.stream.received + total bytes_of ops < 2 ^ 63
    → answers (client_step drops) ops c ≡ answers listener_before_fin ops r
unfolding answers
answers-Alike drops [] c r a v plain small = refl
answers-Alike drops (op ∷ ops) c r a v plain small =
    let alike = step-Alike drops op c r a v plain.0 (omega arith) in
    record_answer_same _ _ _ _ alike.0 (λ ok.
      let next = alike.1 ok in
      answers-Alike drops ops (client_step drops op c).0 (listener_before_fin op r).0 next.0 next.1
        plain.1 (omega (arith, next.2)))

-- A stream of the connecting side once its SYN is sent, and one that a listener has opened with flow control,
-- once its SYN is processed.
abbrev pub opened : ℕ → Holder
opened id = record { stream = activate_initial_window (new_stream id); current = none }

abbrev pub accepted : ℕ → Handler → Receiver
accepted id h = record { stream = Flow.new_stream id h true; current = none }

new_received : (id : ℕ) (h : Handler) → (Flow.new_stream id h true).received ≡ 0
unfolding Flow.new_stream
new_received id h = refl

opened-Agrees : (id : ℕ) (h : Handler) → Agrees (opened id) (accepted id h)
unfolding activate_initial_window new_stream Flow.new_stream
opened-Agrees id h = ground arith

-- The connecting side answers like the listener, except for FIN frames: whatever frames but a SYN arrive
-- on a stream that has just been opened and that both sessions keep, whenever the two workers take and
-- finish them, and as long as no handler reports an error, both announce the same windows and end with
-- the same reset, where less than 2^63 bytes are received. The one difference is the window that the
-- listener announces when it finishes a FIN frame, where the connecting side announces none:
-- `listener_before_fin` is the listener without it.
pub answers-opened :
    (drops : Bool) (id : ℕ) (h : Handler) (ops : List Op)
    → All IsOpenOp ops
    → total bytes_of ops < 2 ^ 63
    → answers (client_step drops) ops (opened id) ≡ answers listener_before_fin ops (accepted id h)
answers-opened drops id h ops plain small =
    answers-Alike drops ops (opened id) (accepted id h) (opened-Agrees id h) (new-Inv id h) plain
      (omega (arith, new_received id h))
