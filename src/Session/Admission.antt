-- ===== src/Session/Admission.antt =====
-- internal/session: the PIN that a message presents, what a session without the right one may have done,
-- and the handlers that keep to it.
use bitbang_cli.Session.Streams.{close_session, reset_all}
use bitbang_cli.Session.Dispatch.{
  Input, arrives, works, writes, closes, says_goodbye, loses_channel,
}
use bitbang_cli.Pin.{PinAuth, required, verify}
use bitbang_cli.Wire.{Bytes, parse_frame, is_syn, Frame}
use bitbang_cli.Session.{
  Event, PinAuth, Bytes, Session, reject_stream, log, replies, send, lookup, auth_result, Code,
  ready, window_update, stream_reset, sends, connects, resets, readies, closes_channel,
  starts_video, auth_required, video_answer, control_error, video_candidate, Frame, invalid_control,
}
use bitbang_cli.Prelude.{
  Option, Bool, ◌≡◌, true, Text, All-append, false, arith, ℕ, ◌∷◌, err, [], none, not, All, some,
  ok, if◌then◌else◌, ◌==◌, text_eq, codes, ◌+◌, Bool-cases, refl, leb, inl, inr,
}
use bitbang_cli.Session.Control.{
  Decoder, Outside, wrong_pin, fail_flowing, apply_window_update, handle_connect, Update,
  note_connect, max_auth_fails, handle_message_type, handle_auth, Connect, apply_stream_reset,
  reset_malformed_control, Reset,
}

-- The PIN that a frame on stream 0 presents, if it is an `auth` message.
unfoldable pub frame_attempt : Decoder → Frame → Option Text
frame_attempt dec frame = if not (is_syn frame) then none else elim (dec.envelope frame.payload) [
  | none ↦ none
  | some kind ↦
      if text_eq kind (codes "auth")
      then elim (dec.message frame.payload) [ none ↦ none | some m ↦ some m.pin ]
      else none
]

unfoldable pub attempt_of : Decoder → Bytes → Option Text
unfolding frame_attempt
attempt_of dec input = elim (parse_frame input) [
  | err e ↦ none
  | ok frame ↦ if frame.stream_id == 0 then frame_attempt dec frame else none
]

-- The input is a message that presents a PIN which the session verifies.
unfoldable pub presents_pin : Decoder → Outside → Option PinAuth → Input → Bool
unfolding attempt_of
presents_pin dec out pin (arrives input) = elim (attempt_of dec input) [
  | none ↦ false
  | some attempt ↦ verify out.sha256 pin attempt
]
presents_pin dec out pin (works fine id) = false
presents_pin dec out pin (writes frame) = false
presents_pin dec out pin closes = false
presents_pin dec out pin says_goodbye = false
presents_pin dec out pin loses_channel = false

-- Not an event of an admitted peer: no handler was asked or reset, nobody was told that the session is
-- ready, and no video was started.
abbrev pub harmless : Event → Bool
harmless (replies auth_required) = true
harmless (replies (auth_result success)) = not success
harmless (replies (ready version caps access)) = false
harmless (replies control_error) = true
harmless (replies (window_update id max)) = true
harmless (replies (stream_reset id code)) = true
harmless (sends id flags) = true
harmless (connects h path) = false
harmless readies = false
harmless (resets id code) = false
harmless closes_channel = true
harmless starts_video = false
harmless video_answer = true
harmless video_candidate = true

abbrev pub Harmless : Event → Type 0
Harmless e = harmless e ≡ true

pub record Locked (pin : Option PinAuth) (s : Session) : Type 0 where
  pub same_pin : s.pin ≡ pin
  pub unready : (s.is_ready ≡ false) × (s.authenticated ≡ false)
  pub no_streams : s.streams ≡ []
  pub quiet : All Harmless s.events

module _ (pin : Option PinAuth) where
  pub log-Locked : (e : Event) (s : Session) → Harmless e → Locked pin s → Locked pin (log e s)
  unfolding log
  log-Locked e s h v = record {
    same_pin = v.same_pin;
    unready = v.unready;
    no_streams = v.no_streams;
    quiet = All-append Harmless s.events (e ∷ []) v.quiet (h, tt);
  }

  pub send-Locked : (e : Event) (s : Session) → Harmless e → Locked pin s → Locked pin (send e s)
  unfolding send
  send-Locked e s h v = ground (arith, log-Locked e s h v)

  pub reject_stream-Locked :
      (id : ℕ) (code : Code) (s : Session) → Locked pin s → Locked pin (reject_stream id code s)
  unfolding reject_stream
  reject_stream-Locked id code s v = elim (Bool-cases (leb 4 s.negotiated_version)) [
    | inl flows ↦ rw flows (send-Locked _ s refl v)
    | inr old ↦ rw old (send-Locked _ _ refl (send-Locked _ _ refl (send-Locked _ s refl v)))
  ]

  pub fail_flowing-Locked :
      (id : ℕ) (code : Code) (notify_peer : Bool) (s : Session)
      → Locked pin s
      → Locked pin (fail_flowing id code notify_peer s)
  unfolding fail_flowing lookup
  fail_flowing-Locked id code notify_peer s v = ground arith

  pub apply_window_update-Locked :
      (u : Update) (s : Session) → Locked pin s → Locked pin (apply_window_update u s)
  unfolding apply_window_update lookup
  apply_window_update-Locked u s v = ground arith

  pub channel-Locked :
      (b : Bool) (s : Session) → Locked pin s → Locked pin (record s { channel_open = b })
  channel-Locked b s v = ground arith

  pub wrong_pin-Locked : (s : Session) → Locked pin s → Locked pin (wrong_pin s)
  unfolding wrong_pin
  wrong_pin-Locked s v =
      let told =
        send-Locked (replies (auth_result false)) (record s { auth_fails = s.auth_fails + 1 }) refl
          (wrap s v) in
      elim (Bool-cases (leb max_auth_fails (s.auth_fails + 1))) [
        | inl last ↦ rw last (log-Locked closes_channel _ refl (channel-Locked false _ told))
        | inr more ↦ rw more told
      ]
    where
      wrap : (s : Session) → Locked pin s → Locked pin (record s { auth_fails = s.auth_fails + 1 })
      wrap s v = ground arith

  pub handle_connect-Locked :
      (out : Outside) (path : Text) (version : ℕ) (s : Session)
      → required pin ≡ true
      → Locked pin s
      → Locked pin (handle_connect out path version s)
  unfolding handle_connect note_connect
  handle_connect-Locked out path version s r v =
      ground (arith, send-Locked (replies auth_required) (note_connect path version s))

  pub handle_message_type-Locked :
      (out : Outside) (kind : Text) (m : Connect) (s : Session)
      → required pin ≡ true
      → (text_eq kind (codes "auth") ≡ true → verify out.sha256 pin m.pin ≡ false)
      → Locked pin s
      → Locked pin (handle_message_type out kind m s)
  unfolding handle_message_type handle_auth
  handle_message_type-Locked out kind m s r wrong v = ground (
    arith,
    handle_connect-Locked out m.path m.version s r v,
    wrong_pin-Locked s v,
    v.same_pin,
    log-Locked video_answer s refl v,
    log-Locked video_candidate s refl v,
  )

  pub apply_stream_reset-Locked :
      (x : Reset) (s : Session) → Locked pin s → Locked pin (apply_stream_reset x s)
  unfolding apply_stream_reset
  apply_stream_reset-Locked x s v = fail_flowing-Locked x.stream_id _ false s v

  pub reset_malformed_control-Locked :
      (target : Option ℕ) (s : Session)
      → Locked pin s
      → Locked pin (reset_malformed_control target s)
  unfolding reset_malformed_control
  reset_malformed_control-Locked none s v = v
  reset_malformed_control-Locked (some id) s v = fail_flowing-Locked id invalid_control true s v

  pub close_session-Locked : (s : Session) → Locked pin s → Locked pin (close_session s)
  unfolding close_session reset_all
  close_session-Locked s v = ground arith
