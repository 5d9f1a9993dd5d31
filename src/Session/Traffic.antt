-- ===== src/Session/Traffic.antt =====
-- What stream traffic can change of a session: its streams, and the log by events about streams. A
-- predicate that survives both is kept by every operation on streams.
use bitbang_cli.Session.Control.{
  reset_malformed_control, apply_stream_reset, fail_flowing, apply_window_update, Update, Reset,
}
use bitbang_cli.Wire.{Bytes, Frame, is_syn, is_fin, flow_bytes, validate_frame_payload}
use bitbang_cli.Session.Streams.{
  handle_stream_frame, accept_frame, open_stream, handler_for, kind_or_http, mark_receive_closed,
  run_round, finish_round, dispatch_call, settle_frame, write_frame, consume_frame, write_reserved,
  mark_send_closed, finish_state, Call, no_call, on_syn, reset_all, send_stream_frame,
  close_session, SendResult, failed, closed, sent, finished, too_large,
}
use bitbang_cli.Flow.{
  Stream, enqueue, stop_now, new_stream, consume, Reservation, reserved, reserve_send,
}
use bitbang_cli.Prelude.{
  ◌∷◌, ◌≡◌, Bool, true, List, ℕ, false, Bool-cases, inl, Text, Option-cases, leb, inr, not, refl,
  on_if, List-cases, ◌==◌, Option, ◌&&◌, [], none, some, if◌then◌else◌, on_option, is_ok,
}
use bitbang_cli.Session.{
  Session, Event, Bool, replies, window_update, log, stream_reset, sends, resets, Stream,
  fail_stream, reset_handler, reject_stream, send, notify_reset, Frame, Bytes, Code, lookup, insert,
  invalid_control, send_error, session_closed,
}

abbrev pub is_traffic : Event → Bool
is_traffic (replies (window_update id max)) = true
is_traffic (replies (stream_reset id code)) = true
is_traffic (sends id flags) = true
is_traffic (resets id code) = true
is_traffic _ = false

module _ {ℓ} (P : Session → Type ℓ)
    (on_log : (e : Event) (s : Session) → is_traffic e ≡ true → P s → P (log e s))
    (on_streams : (m : List (ℕ × Stream)) (s : Session) → P s → P (record s { streams = m })) where
  send-keeps : (e : Event) (s : Session) → is_traffic e ≡ true → P s → P (send e s)
  unfolding send
  send-keeps e s h v = on_if P s.channel_open (log e s) s (λ _. on_log e s h v) (λ _. v)

  reset_handler-keeps :
      (st : Stream) (code : Code) (s : Session) → P s → P (reset_handler st code s)
  unfolding reset_handler
  reset_handler-keeps st code s v = elim (Bool-cases st.handler.takes_reset) [
    | inl e ↦ rw (e, reset_handler) (on_log _ s refl v)
    | inr e ↦ rw (e, reset_handler) v
  ]

  notify_reset-keeps : (st : Stream) (code : Code) (s : Session) → P s → P (notify_reset st code s)
  unfolding notify_reset
  notify_reset-keeps st code s v = elim (Bool-cases st.flow) [
    | inl e ↦ rw (e, notify_reset) (send-keeps _ s refl v)
    | inr e ↦ rw (e, notify_reset) (send-keeps _ s refl v)
  ]

  pub fail_stream-keeps :
      (id : ℕ) (code : Code) (notify_peer : Bool) (s : Session)
      → P s
      → P (fail_stream id code notify_peer s)
  unfolding fail_stream
  fail_stream-keeps id code notify_peer s v = elim (Option-cases (lookup id s.streams)) [
    | inl e ↦ rw (e, fail_stream) v
    | inr (st, e) ↦ elim (Bool-cases (not (stop_now st).1)) [
      | inl stopped ↦ rw (e, stopped, fail_stream) (on_streams _ s v)
      | inr alive ↦ elim (Bool-cases notify_peer) [
        | inl n ↦
            rw (e, alive, n, fail_stream)
              (notify_reset-keeps st code _ (reset_handler-keeps st code _ (on_streams _ s v)))
        | inr n ↦ rw (e, alive, n, fail_stream) (reset_handler-keeps st code _ (on_streams _ s v))
      ]
    ]
  ]

  pub reject_stream-keeps : (id : ℕ) (code : Code) (s : Session) → P s → P (reject_stream id code s)
  unfolding reject_stream
  reject_stream-keeps id code s v = elim (Bool-cases (leb 4 s.negotiated_version)) [
    | inl flows ↦ rw (flows, reject_stream) (send-keeps _ s refl v)
    | inr old ↦
        rw (old, reject_stream) (send-keeps _ _ refl (send-keeps _ _ refl (send-keeps _ s refl v)))
  ]

  accept_frame-keeps :
      (frame : Frame) (st : Stream) (s : Session) → P s → P (accept_frame frame st s)
  unfolding accept_frame
  accept_frame-keeps frame st s v = elim (Option-cases (enqueue frame st).1) [
    | inl e ↦ rw (e, accept_frame) (on_streams _ s v)
    | inr (reason, e) ↦ rw (e, accept_frame) (fail_stream-keeps _ _ true _ (on_streams _ s v))
  ]

  open_stream-keeps :
      (kind : Text) (frame : Frame) (s : Session) → P s → P (open_stream kind frame s)
  unfolding open_stream
  open_stream-keeps kind frame s v =
      elim (Option-cases (handler_for (kind_or_http kind) s.handlers)) [
        | inl e ↦ rw (e, open_stream) (reject_stream-keeps _ _ s v)
        | inr (h, e) ↦
            rw (e, open_stream)
              (on_if P s.closed s
                (accept_frame frame (new_stream frame.stream_id h (leb 4 s.negotiated_version)) s)
                (λ _. v) (λ _. accept_frame-keeps frame _ s v))
      ]

  pub handle_stream_frame-keeps :
      (kind_of : Bytes → Text) (frame : Frame) (s : Session)
      → P s
      → P (handle_stream_frame kind_of frame s)
  unfolding handle_stream_frame
  handle_stream_frame-keeps kind_of frame s v = elim (Bool-cases (not s.is_ready)) [
    | inl early ↦ elim (Bool-cases (is_syn frame)) [
      | inl syn ↦ rw (early, syn, handle_stream_frame) (reject_stream-keeps _ _ s v)
      | inr more ↦ rw (early, more, handle_stream_frame) v
    ]
    | inr ready_ ↦ elim (Option-cases (lookup frame.stream_id s.streams)) [
      | inl e ↦ elim (Bool-cases (is_syn frame)) [
        | inl syn ↦ rw (ready_, e, syn, handle_stream_frame) (open_stream-keeps _ frame s v)
        | inr more ↦ rw (ready_, e, more, handle_stream_frame) v
      ]
      | inr (st, e) ↦ elim (Bool-cases (is_syn frame)) [
        | inl syn ↦ rw (ready_, e, syn, handle_stream_frame) (fail_stream-keeps _ _ true s v)
        | inr more ↦ rw (ready_, e, more, handle_stream_frame) (accept_frame-keeps frame st s v)
      ]
    ]
  ]

  mark_receive_closed-keeps :
      (id : ℕ) (st : Stream) (s : Session) → P s → P (mark_receive_closed id st s)
  unfolding mark_receive_closed finish_state
  mark_receive_closed-keeps id st s v = elim (Bool-cases st.send_fin) [
    | inl e ↦ rw (e, mark_receive_closed) (on_streams _ s v)
    | inr e ↦ rw (e, mark_receive_closed) (on_streams _ s v)
  ]

  mark_send_closed-keeps : (id : ℕ) (st : Stream) (s : Session) → P s → P (mark_send_closed id st s)
  unfolding mark_send_closed finish_state
  mark_send_closed-keeps id st s v = elim (Bool-cases st.receive_fin) [
    | inl e ↦ rw (e, mark_send_closed) (on_streams _ s v)
    | inr e ↦ rw (e, mark_send_closed) (on_streams _ s v)
  ]

  consume_frame-keeps :
      (id bytes : ℕ) (st : Stream) (s : Session) → P s → P (consume_frame id bytes st s).0
  unfolding consume_frame
  consume_frame-keeps id bytes st s v = elim (Bool-cases ((consume bytes st).1 == 0)) [
    | inl e ↦ rw (e, consume_frame) v
    | inr e ↦ rw (e, consume_frame) (send-keeps _ s refl v)
  ]

  finish_round-keeps :
      (frame : Frame) (r : Session × Stream × Bool) → P r.0 → P (finish_round frame r)
  unfolding finish_round
  finish_round-keeps frame (s, st, true) v = elim (Bool-cases (is_fin frame)) [
    | inl e ↦ rw (e, finish_round) (mark_receive_closed-keeps _ _ s v)
    | inr e ↦ rw (e, finish_round) (on_streams _ s v)
  ]
  finish_round-keeps frame (s, st, false) v = fail_stream-keeps _ _ true _ (on_streams _ s v)

  settle_frame-keeps :
      (frame : Frame) (st : Stream) (s : Session) → P s → P (settle_frame frame st s)
  unfolding settle_frame
  settle_frame-keeps frame st s v = finish_round-keeps frame _ (consume_frame-keeps _ _ st s v)

  dispatch_call-keeps :
      (call : Call) (fine : Bool) (x y : Session) → P x → P y → P (dispatch_call call fine x y)
  unfolding dispatch_call
  dispatch_call-keeps no_call fine x y hx hy = hx
  dispatch_call-keeps on_syn fine x y hx hy = on_if P fine y x (λ _. hy) (λ _. hx)
  dispatch_call-keeps _ fine x y hx hy = on_if P fine y x (λ _. hy) (λ _. hx)

  pub run_round-keeps : (fine : Bool) (id : ℕ) (s : Session) → P s → P (run_round fine id s)
  unfolding run_round
  run_round-keeps fine id s v = elim (Option-cases (lookup id s.streams)) [
    | inl e ↦ rw (e, run_round) v
    | inr (st, e) ↦ elim (List-cases st.queue) [
      | inl q ↦ rw (e, q, run_round) v
      | inr (frame, rest, q) ↦
          rw (e, q, run_round)
            (dispatch_call-keeps _ fine _ _ (fail_stream-keeps _ _ true _ (on_streams _ s v))
              (settle_frame-keeps _ _ s v))
    ]
  ]

  write_frame-keeps :
      (frame : Frame) (st : Stream) (s : Session) → P s → P (write_frame frame st s).0
  unfolding write_frame
  write_frame-keeps frame st s v =
      let kept : Session = record s { streams = insert frame.stream_id st s.streams } in
      let out = send (sends frame.stream_id frame.flags) kept in
      let out_keeps = send-keeps (sends frame.stream_id frame.flags) kept refl (on_streams _ s v) in
      on_if (λ (r : Session × SendResult). P r.0) (not s.channel_open)
        (fail_stream frame.stream_id send_error false kept, failed)
        (if is_fin frame then (mark_send_closed frame.stream_id st out, sent) else (out, sent))
        (λ _. fail_stream-keeps _ _ false kept (on_streams _ s v))
        (λ _.
          on_if (λ (r : Session × SendResult). P r.0) (is_fin frame)
            (mark_send_closed frame.stream_id st out, sent) (out, sent)
            (λ _. mark_send_closed-keeps _ st out out_keeps) (λ _. out_keeps))

  write_reserved-keeps :
      (frame : Frame) (r : Reservation) (s : Session) → P s → P (write_reserved frame r s).0
  unfolding write_reserved
  write_reserved-keeps frame Reservation.refused s v = v
  write_reserved-keeps frame Reservation.waits s v = v
  write_reserved-keeps frame (reserved st) s v = write_frame-keeps frame st s v

  pub send_stream_frame-keeps :
      (frame : Frame) (s : Session) → P s → P (send_stream_frame frame s).0
  unfolding send_stream_frame
  send_stream_frame-keeps frame s v =
      on_if Kept (not (is_ok (validate_frame_payload frame.payload))) (s, too_large) _ (λ _. v)
        (λ _. on_if Kept s.closed (s, closed) _ (λ _. v) (λ _. open_keeps))
    where
      Kept : Session × SendResult → Type ℓ
      Kept r = P r.0

      open_keeps : Kept (elim (lookup frame.stream_id s.streams) [
        | none ↦ (s, closed)
        | some st ↦
            if st.send_fin
            then (s, finished)
            else write_reserved frame (reserve_send (flow_bytes frame) st) s
      ])
      open_keeps =
          on_option Kept (lookup frame.stream_id s.streams) (s, closed) _ (λ _. v)
            λ st _.
              on_if Kept st.send_fin (s, finished) _ (λ _. v)
                (λ _. write_reserved-keeps frame _ s v)

  reset_all-keeps : (m : List (ℕ × Stream)) (s : Session) → P s → P (reset_all m s)
  unfolding reset_all
  reset_all-keeps [] s v = v
  reset_all-keeps ((id, st) ∷ m) s v = reset_all-keeps m _ (
      on_if P st.closed s (reset_handler st session_closed s) (λ _. v)
        (λ _. reset_handler-keeps st session_closed s v))

  pub close_session-keeps :
      (s : Session) → P s → P (record s { closed = true; streams = [] }) → P (close_session s)
  unfolding close_session
  close_session-keeps s v shut =
      on_if P s.closed s (reset_all s.streams (record s { closed = true; streams = [] })) (λ _. v)
        (λ _. reset_all-keeps s.streams _ shut)

  pub apply_window_update-keeps : (u : Update) (s : Session) → P s → P (apply_window_update u s)
  unfolding apply_window_update
  apply_window_update-keeps u s v = elim (Bool-cases (u.stream_id == 0)) [
    | inl e ↦ rw (e, apply_window_update) v
    | inr e ↦ elim (Option-cases (lookup u.stream_id s.streams)) [
      | inl l ↦ rw (e, l, apply_window_update) v
      | inr (st, l) ↦
          rw (e, l, apply_window_update)
            (on_if P (not (leb 4 s.negotiated_version && st.flow)) s _ (λ _. v)
              (λ _.
                on_if P (u.max_bytes == 0) (fail_stream u.stream_id invalid_control true s) _
                  (λ _. fail_stream-keeps _ _ true s v) (λ _. on_streams _ s v)))
    ]
  ]

  fail_flowing-keeps :
      (id : ℕ) (code : Code) (notify_peer : Bool) (s : Session)
      → P s
      → P (fail_flowing id code notify_peer s)
  unfolding fail_flowing
  fail_flowing-keeps id code notify_peer s v = elim (Bool-cases (id == 0)) [
    | inl e ↦ rw (e, fail_flowing) v
    | inr e ↦ elim (Option-cases (lookup id s.streams)) [
      | inl l ↦ rw (e, l, fail_flowing) v
      | inr (st, l) ↦
          rw (e, l, fail_flowing)
            (on_if P (leb 4 s.negotiated_version && st.flow) (fail_stream id code notify_peer s) s
              (λ _. fail_stream-keeps _ _ notify_peer s v) (λ _. v))
    ]
  ]

  pub apply_stream_reset-keeps : (x : Reset) (s : Session) → P s → P (apply_stream_reset x s)
  unfolding apply_stream_reset
  apply_stream_reset-keeps x s v = fail_flowing-keeps _ _ false s v

  pub reset_malformed_control-keeps :
      (target : Option ℕ) (s : Session) → P s → P (reset_malformed_control target s)
  unfolding reset_malformed_control
  reset_malformed_control-keeps none s v = v
  reset_malformed_control-keeps (some id) s v = fail_flowing-keeps id _ true s v
