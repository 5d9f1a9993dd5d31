-- ===== src/Session/Gate.antt =====
-- The PIN gate: what a session with a PIN does before it has been shown the right one.
use bitbang_cli.Session.Admission.{
  presents_pin, attempt_of, Locked, frame_attempt, reset_malformed_control-Locked,
  close_session-Locked, reject_stream-Locked, apply_window_update-Locked, send-Locked,
  apply_stream_reset-Locked, channel-Locked, handle_message_type-Locked,
}
use bitbang_cli.Flow.{Handler}
use bitbang_cli.Session.Streams.{send_stream_frame, run_round, handle_stream_frame}
use bitbang_cli.Session.Dispatch.{
  Input, arrives, works, writes, closes, says_goodbye, loses_channel, run, step, handle_message,
}
use bitbang_cli.Pin.{PinAuth, required, verify}
use bitbang_cli.Wire.{Bytes, parse_frame, is_syn, Frame}
use bitbang_cli.Session.{
  PinAuth, Bytes, Session, lookup, Frame, unauthenticated, new_session, Handler,
}
use bitbang_cli.Prelude.{
  Option, Bool, ◌≡◌, true, Text, false, arith, ℕ, ◌∷◌, [], All, some, ◌==◌, text_eq, codes,
  Bool-cases, refl, inl, inr, Option-cases, List, Result-cases,
}
use bitbang_cli.Session.Control.{
  Decoder, Outside, Connect, handle_control, handle_envelope, goodbye,
}

module _ (pin : Option PinAuth) where
  handle_envelope-Locked :
      (dec : Decoder) (out : Outside) (payload : Bytes) (kind : Text) (s : Session)
      → required pin ≡ true
      → ((m : Connect)
          → dec.message payload ≡ some m
          → text_eq kind (codes "auth") ≡ true
          → verify out.sha256 pin m.pin ≡ false)
      → Locked pin s
      → Locked pin (handle_envelope dec out payload kind s)
  unfolding handle_envelope
  handle_envelope-Locked dec out payload kind s r wrong v =
      elim (Bool-cases (text_eq kind (codes "window_update"))) [
        | inl w ↦ elim (Option-cases (dec.update payload)) [
          | inl e ↦ rw (w, e) (reset_malformed_control-Locked pin _ s v)
          | inr (u, e) ↦ rw (w, e) (apply_window_update-Locked pin u s v)
        ]
        | inr w ↦ elim (Bool-cases (text_eq kind (codes "stream_reset"))) [
          | inl x ↦ elim (Option-cases (dec.reset payload)) [
            | inl e ↦ rw (w, x, e) (reset_malformed_control-Locked pin _ s v)
            | inr (u, e) ↦ rw (w, x, e) (apply_stream_reset-Locked pin u s v)
          ]
          | inr x ↦ elim (Option-cases (dec.message payload)) [
            | inl e ↦ rw (w, x, e) v
            | inr (m, e) ↦
                rw (w, x, e) (handle_message_type-Locked pin out kind m s r (wrong m e) v)
          ]
        ]
      ]

  handle_control-Locked :
      (dec : Decoder) (out : Outside) (frame : Frame) (s : Session)
      → required pin ≡ true
      → ((p : Text) → frame_attempt dec frame ≡ some p → verify out.sha256 pin p ≡ false)
      → Locked pin s
      → Locked pin (handle_control dec out frame s)
  unfolding handle_control frame_attempt
  handle_control-Locked dec out frame s r wrong v = elim (Bool-cases (is_syn frame)) [
    | inr other ↦ rw other v
    | inl syn ↦ elim (Option-cases (dec.envelope frame.payload)) [
      | inl e ↦ rw (syn, e) v
      | inr (kind, e) ↦
          rw (syn, e)
            (handle_envelope-Locked dec out frame.payload kind s r
              (λ m e' k. wrong m.pin (rw (syn, e, k, e') refl)) v)
    ]
  ]

  run_round-Locked :
      (fine : Bool) (id : ℕ) (s : Session) → Locked pin s → Locked pin (run_round fine id s)
  unfolding run_round lookup
  run_round-Locked fine id s v = ground arith

  send_stream_frame-Locked :
      (frame : Frame) (s : Session) → Locked pin s → Locked pin (send_stream_frame frame s).0
  unfolding send_stream_frame lookup
  send_stream_frame-Locked frame s v = ground arith

  handle_stream_frame-Locked :
      (kind_of : Bytes → Text) (frame : Frame) (s : Session)
      → Locked pin s
      → Locked pin (handle_stream_frame kind_of frame s)
  unfolding handle_stream_frame
  handle_stream_frame-Locked kind_of frame s v =
      ground (arith, reject_stream-Locked pin frame.stream_id unauthenticated s v)

  handle_message-Locked :
      (dec : Decoder) (out : Outside) (input : Bytes) (s : Session)
      → required pin ≡ true
      → ((p : Text) → attempt_of dec input ≡ some p → verify out.sha256 pin p ≡ false)
      → Locked pin s
      → Locked pin (handle_message dec out input s)
  unfolding handle_message attempt_of
  handle_message-Locked dec out input s r wrong v = elim (Result-cases (parse_frame input)) [
    | inr (e, bad) ↦ ground (arith, v, bad)
    | inl (frame, good) ↦ elim (Bool-cases (frame.stream_id == 0)) [
      | inl zero_id ↦
          let controlled =
            handle_control-Locked dec out frame s r
              (λ p e. wrong p (ground (arith, good, zero_id, e))) v in
          ground (arith, v, good, zero_id, controlled)
      | inr other ↦
          let streamed = handle_stream_frame-Locked dec.stream_kind frame s v in
          ground (arith, v, good, other, streamed)
    ]
  ]

  step-Locked :
      (dec : Decoder) (out : Outside) (i : Input) (s : Session)
      → required pin ≡ true
      → presents_pin dec out pin i ≡ false
      → Locked pin s
      → Locked pin (step dec out i s)
  unfolding step presents_pin
  step-Locked dec out (arrives input) s r no_pin v =
      handle_message-Locked dec out input s r (λ p e. rw (e, presents_pin) at no_pin) v
  step-Locked dec out (works fine id) s r no_pin v = run_round-Locked fine id s v
  step-Locked dec out (writes frame) s r no_pin v = send_stream_frame-Locked frame s v
  step-Locked dec out closes s r no_pin v = close_session-Locked pin s v
  step-Locked dec out says_goodbye s r no_pin v =
      unfold goodbye in close_session-Locked pin _ (send-Locked pin _ s refl v)
  step-Locked dec out loses_channel s r no_pin v = channel-Locked pin false s v

  run-Locked :
      (dec : Decoder) (out : Outside) (is : List Input) (s : Session)
      → required pin ≡ true
      → All (λ i. presents_pin dec out pin i ≡ false) is
      → Locked pin s
      → Locked pin (run dec out is s)
  unfolding run
  run-Locked dec out [] s r no_pin v = v
  run-Locked dec out (i ∷ is) s r no_pin v =
      run-Locked dec out is _ r no_pin.1 (step-Locked dec out i s r no_pin.0 v)

-- A listener's PIN holds: whatever arrives, as long as no `auth` message presents a PIN that verifies,
-- a new session with a PIN does not become ready or authenticated, opens no stream, asks no handler to
-- connect (and so dials nothing), calls no OnReady, sends no `ready`, and starts no video.
pub run_without_pin :
    (dec : Decoder) (out : Outside) (pin : Option PinAuth) (access : Text) (handlers : List Handler)
    (has_video : Bool) (is : List Input)
    → required pin ≡ true
    → All (λ i. presents_pin dec out pin i ≡ false) is
    → Locked pin (run dec out is (new_session pin access handlers has_video))
unfolding new_session
run_without_pin dec out pin access handlers has_video is r no_pin =
    run-Locked pin dec out is _ r no_pin (ground arith)
