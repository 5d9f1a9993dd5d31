-- ===== src/Session/Messages.antt =====
-- The dispatch of messages: a predicate that each of the handlers keeps is kept by every input.
use bitbang_cli.Wire.{Bytes, Frame, is_syn, parse_frame}
use bitbang_cli.Session.Streams.{close_session, handle_stream_frame}
use bitbang_cli.Session.Dispatch.{
  step, handle_message, run, Input, arrives, works, writes, closes, says_goodbye, loses_channel,
}
use bitbang_cli.Flow.{Stream}
use bitbang_cli.Prelude.{
  ◌≡◌, true, List, ℕ, Text, [], false, on_if, ◌∷◌, Bool-cases, Result-cases, text_eq, inr, codes,
  if◌then◌else◌, inl, ◌==◌, Option-cases,
}
use bitbang_cli.Session.Traffic.{
  is_traffic, close_session-keeps, run_round-keeps, send_stream_frame-keeps,
  reset_malformed_control-keeps, apply_window_update-keeps, handle_stream_frame-keeps,
  apply_stream_reset-keeps,
}
use bitbang_cli.Session.Control.{
  Decoder, Outside, handle_connect, handle_auth, handle_message_type, handle_envelope,
  handle_control, goodbye, Connect,
}
use bitbang_cli.Session.{
  Session, Event, log, Stream, video_answer, video_candidate, send, replies, control_error, Bytes,
  Frame,
}

module _ {ℓ} (P : Session → Type ℓ) (dec : Decoder) (out : Outside)
    (on_log : (e : Event) (s : Session) → is_traffic e ≡ true → P s → P (log e s))
    (on_streams : (m : List (ℕ × Stream)) (s : Session) → P s → P (record s { streams = m }))
    (on_video : (s : Session) → P s → P (log video_answer s) × P (log video_candidate s))
    (on_connect : (path : Text) (version : ℕ) (s : Session)
      → P s
      → P (handle_connect out path version s))
    (on_auth : (attempt : Text) (s : Session) → P s → P (handle_auth out attempt s))
    (on_close : (s : Session) → P s → P (record s { closed = true; streams = [] }))
    (on_loss : (s : Session) → P s → P (record s { channel_open = false }))
    (on_goodbye : (s : Session) → P s → P (send (replies control_error) s)) where
  message_type-keeps :
      (kind : Text) (m : Connect) (s : Session) → P s → P (handle_message_type out kind m s)
  unfolding handle_message_type
  message_type-keeps kind m s v =
      on_if P (text_eq kind (codes "connect")) (handle_connect out m.path m.version s) _
        (λ _. on_connect m.path m.version s v)
        (λ _.
          on_if P (text_eq kind (codes "auth")) (handle_auth out m.pin s) _ (λ _. on_auth m.pin s v)
            (λ _.
              on_if P (text_eq kind (codes "video_answer"))
                (if s.has_video then log video_answer s else s) _
                (λ _. on_if P s.has_video (log video_answer s) s (λ _. (on_video s v).0) (λ _. v))
                (λ _.
                  on_if P (text_eq kind (codes "video_candidate"))
                    (if s.has_video then log video_candidate s else s) s
                    (λ _.
                      on_if P s.has_video (log video_candidate s) s (λ _. (on_video s v).1)
                        (λ _. v))
                    (λ _. v))))

  envelope-keeps :
      (payload : Bytes) (kind : Text) (s : Session)
      → P s
      → P (handle_envelope dec out payload kind s)
  unfolding handle_envelope
  envelope-keeps payload kind s v = elim (Bool-cases (text_eq kind (codes "window_update"))) [
    | inl w ↦ elim (Option-cases (dec.update payload)) [
      | inl e ↦ rw (w, e, handle_envelope) (reset_malformed_control-keeps P on_log on_streams _ s v)
      | inr (u, e) ↦
          rw (w, e, handle_envelope) (apply_window_update-keeps P on_log on_streams u s v)
    ]
    | inr w ↦ elim (Bool-cases (text_eq kind (codes "stream_reset"))) [
      | inl x ↦ elim (Option-cases (dec.reset payload)) [
        | inl e ↦
            rw (w, x, e, handle_envelope) (reset_malformed_control-keeps P on_log on_streams _ s v)
        | inr (u, e) ↦
            rw (w, x, e, handle_envelope) (apply_stream_reset-keeps P on_log on_streams u s v)
      ]
      | inr x ↦ elim (Option-cases (dec.message payload)) [
        | inl e ↦ rw (w, x, e, handle_envelope) v
        | inr (m, e) ↦ rw (w, x, e, handle_envelope) (message_type-keeps kind m s v)
      ]
    ]
  ]

  control-keeps : (frame : Frame) (s : Session) → P s → P (handle_control dec out frame s)
  unfolding handle_control
  control-keeps frame s v = elim (Bool-cases (is_syn frame)) [
    | inr other ↦ rw (other, handle_control) v
    | inl syn ↦ elim (Option-cases (dec.envelope frame.payload)) [
      | inl e ↦ rw (syn, e, handle_control) v
      | inr (kind, e) ↦ rw (syn, e, handle_control) (envelope-keeps frame.payload kind s v)
    ]
  ]

  message-keeps : (input : Bytes) (s : Session) → P s → P (handle_message dec out input s)
  unfolding handle_message
  message-keeps input s v =
      on_if P s.closed s _ (λ _. v)
        λ _. elim (Result-cases (parse_frame input)) [
          | inr (e, bad) ↦ rw bad v
          | inl (frame, good) ↦ rw good (
              on_if P (frame.stream_id == 0) (handle_control dec out frame s)
                (handle_stream_frame dec.stream_kind frame s) (λ _. control-keeps frame s v)
                (λ _. handle_stream_frame-keeps P on_log on_streams dec.stream_kind frame s v))
        ]

  close-keeps : (s : Session) → P s → P (close_session s)
  close-keeps s v = close_session-keeps P on_log on_streams s v (on_close s v)

  pub step-keeps : (i : Input) (s : Session) → P s → P (step dec out i s)
  unfolding step goodbye
  step-keeps (arrives input) s v = message-keeps input s v
  step-keeps (works fine id) s v = run_round-keeps P on_log on_streams fine id s v
  step-keeps (writes frame) s v = send_stream_frame-keeps P on_log on_streams frame s v
  step-keeps closes s v = close-keeps s v
  step-keeps says_goodbye s v = close-keeps _ (on_goodbye s v)
  step-keeps loses_channel s v = on_loss s v

  pub run-keeps : (is : List Input) (s : Session) → P s → P (run dec out is s)
  unfolding run
  run-keeps [] s v = v
  run-keeps (i ∷ is) s v = run-keeps is _ (step-keeps i s v)
