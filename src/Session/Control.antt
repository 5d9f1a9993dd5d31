-- ===== src/Session/Control.antt =====
-- internal/session/control.go: the stream-0 handshake, and the window updates and resets of flow.go
-- that arrive on stream 0.
use bitbang_cli.Pin.{required, verify}
use bitbang_cli.Flow.{Handler, update_send_max}
use bitbang_cli.Session.Streams.{close_session}
use Prim.Native.Nat.{ℕ}
use bitbang_cli.Session.{
  send, Session, log, Handler, from_peer, replies, Code, readies, auth_result, invalid_control,
  control_error, ready, lookup, auth_required, connects, video_answer, starts_video,
  video_candidate, closes_channel, fail_stream, insert,
}
use bitbang_cli.Wire.{Frame, Bytes, negotiate_swsp_version, is_syn}
use bitbang_cli.Prelude.{
  List, Text, Option, ℕ, map, ◌∷◌, if◌then◌else◌, some, Bool, true, false, ◌==◌, text_eq, not, ◌&&◌,
  ◌+◌, [], codes, leb, none, sort_texts,
}

-- What JSON decoding makes of a payload: `none` is an error of json.Unmarshal. The fields are the
-- structs that the code decodes into; encoding/json itself is not modelled.
pub record Connect : Type 0 where
  pub path : Text
  pub pin : Text
  pub version : ℕ

pub record Update : Type 0 where
  pub stream_id : ℕ
  pub max_bytes : ℕ

pub record Reset : Type 0 where
  pub stream_id : ℕ
  pub code : Text

pub record Decoder : Type 0 where
  pub envelope : Bytes → Option Text
  pub update : Bytes → Option Update
  pub reset : Bytes → Option Reset
  pub target : Bytes → Option ℕ
  pub message : Bytes → Option Connect
  pub stream_kind : Bytes → Text

-- What the session's surroundings decide: the hash of a PIN, and whether a handler's OnConnect accepts
-- a path.
pub record Outside : Type 0 where
  pub sha256 : Text → Bytes
  pub accepts : Handler → Text → Bool

unfoldable pub apply_window_update : Update → Session → Session
apply_window_update u s = if u.stream_id == 0 then s else elim (lookup u.stream_id s.streams) [
  | none ↦ s
  | some st ↦
      if not (leb 4 s.negotiated_version && st.flow)
      then s
      else if u.max_bytes == 0
      then fail_stream u.stream_id invalid_control true s
      else record s { streams = insert u.stream_id (update_send_max u.max_bytes st) s.streams }
]

-- `failStream` on the stream of an id, when flow control is on for it.
unfoldable pub fail_flowing : ℕ → Code → Bool → Session → Session
fail_flowing id code notify_peer s = if id == 0 then s else elim (lookup id s.streams) [
  | none ↦ s
  | some st ↦ if leb 4 s.negotiated_version && st.flow then fail_stream id code notify_peer s else s
]

unfoldable pub apply_stream_reset : Reset → Session → Session
apply_stream_reset r s = fail_flowing r.stream_id (from_peer r.code) false s

unfoldable pub reset_malformed_control : Option ℕ → Session → Session
reset_malformed_control none s = s
reset_malformed_control (some id) s = fail_flowing id invalid_control true s

-- The loop of `notifyHandlers`: false when a handler refused, and its error has been sent.
unfoldable pub notify_handlers :
    (Handler → Text → Bool) → Text → List Handler → Session → Session × Bool
notify_handlers accepts path [] s = (s, true)
notify_handlers accepts path (h ∷ hs) s =
    let asked = log (connects h path) s in
    let rest = notify_handlers accepts path hs asked in
    if accepts h path then rest else (send (replies control_error) asked, false)

unfoldable pub send_ready : Session → Session
send_ready s =
    let caps = sort_texts (map (λ h. h.kind) s.handlers) in
    let told = send (replies (ready s.negotiated_version caps s.access)) s in
    if s.has_video && not s.video_started
    then log starts_video (record told { video_started = true })
    else told

-- `authenticated` and `ready` are set, and the hook is called.
unfoldable pub mark_ready : Session → Session
mark_ready s = log readies (record s { authenticated = true; is_ready = true })

unfoldable pub or_root : Text → Text
or_root path = if text_eq path [] then codes "/" else path

-- The path is stored, and the first connect fixes the version.
unfoldable pub note_connect : Text → ℕ → Session → Session
note_connect path version s = record s {
  connect_path = or_root path;
  negotiated_version =
      if s.negotiated_version == 0 then negotiate_swsp_version version else s.negotiated_version;
}

unfoldable pub handle_connect : Outside → Text → ℕ → Session → Session
handle_connect out path version s =
    let noted = note_connect path version s in
    if required s.pin
    then send (replies auth_required) noted
    else (let (asked, fine) = notify_handlers out.accepts (or_root path) s.handlers noted in
        if fine then send_ready (mark_ready asked) else asked)

abbrev pub max_auth_fails : ℕ
max_auth_fails = 3

-- A wrong PIN, after the delay. `DC.Close()` closes the channel to what is sent later.
unfoldable pub wrong_pin : Session → Session
wrong_pin s =
    let told = send (replies (auth_result false)) (record s { auth_fails = s.auth_fails + 1 }) in
    if leb max_auth_fails (s.auth_fails + 1)
    then log closes_channel (record told { channel_open = false })
    else told

unfoldable pub right_pin : Outside → Session → Session
right_pin out s =
    let (asked, fine) = notify_handlers out.accepts (or_root s.connect_path) s.handlers s in
    if fine then send_ready (send (replies (auth_result true)) (mark_ready asked)) else asked

unfoldable pub handle_auth : Outside → Text → Session → Session
handle_auth out attempt s =
    if not (required s.pin)
    then s
    else if verify out.sha256 s.pin attempt
    then right_pin out s
    else wrong_pin s

unfoldable pub handle_message_type : Outside → Text → Connect → Session → Session
handle_message_type out kind m s =
    if text_eq kind (codes "connect")
    then handle_connect out m.path m.version s
    else if text_eq kind (codes "auth")
    then handle_auth out m.pin s
    else if text_eq kind (codes "video_answer")
    then (if s.has_video then log video_answer s else s)
    else if text_eq kind (codes "video_candidate")
    then (if s.has_video then log video_candidate s else s)
    else s

unfoldable pub handle_envelope : Decoder → Outside → Bytes → Text → Session → Session
handle_envelope dec out payload kind s =
    if text_eq kind (codes "window_update")
    then elim (dec.update payload) [
      | none ↦ reset_malformed_control (dec.target payload) s
      | some u ↦ apply_window_update u s
    ]
    else if text_eq kind (codes "stream_reset")
    then elim (dec.reset payload) [
      | none ↦ reset_malformed_control (dec.target payload) s
      | some r ↦ apply_stream_reset r s
    ]
    else elim (dec.message payload) [ none ↦ s | some m ↦ handle_message_type out kind m s ]

unfoldable pub handle_control : Decoder → Outside → Frame → Session → Session
handle_control dec out frame s =
    if not (is_syn frame) then s else elim (dec.envelope frame.payload) [
      | none ↦ s
      | some kind ↦ handle_envelope dec out frame.payload kind s
    ]

-- `Goodbye`: the reason is sent, and the session serves nothing further.
unfoldable pub goodbye : Session → Session
goodbye s = close_session (send (replies control_error) s)
