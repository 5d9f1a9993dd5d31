-- ===== src/Session/Guesses.antt =====
-- How many wrong PINs one session answers.
use bitbang_cli.Session.Messages.{run-keeps}
use bitbang_cli.Session.Dispatch.{Input, run}
use bitbang_cli.Pin.{required, verify, PinAuth}
use bitbang_cli.Session.Traffic.{is_traffic}
use bitbang_cli.Session.Control.{
  max_auth_fails, right_pin, mark_ready, notify_handlers, handle_connect, wrong_pin, send_ready,
  Outside, note_connect, or_root, handle_auth, Decoder,
}
use bitbang_cli.Flow.{Stream, Handler}
use bitbang_cli.Prelude.{
  sort_texts, List, ◌≤◌, Bool, ◌≡◌, ℕ, ◌++◌, Text, arith, true, ◌∷◌, false, if◌then◌else◌, ◌<◌, [],
  ◌+◌, refl, on_if, map, ◌&&◌, not, Option,
}
use bitbang_cli.Session.{
  send, Session, Event, log, Stream, replies, auth_result, closes_channel, readies, ready, connects,
  control_error, starts_video, auth_required, new_session, video_answer, video_candidate,
}

-- The session told the peer that its PIN was wrong.
abbrev pub is_failure : Event → Bool
is_failure (replies (auth_result false)) = true
is_failure _ = false

abbrev pub failures : List Event → ℕ
failures [] = 0
failures (e ∷ es) = (if is_failure e then 1 else 0) + failures es

failures-snoc :
    (es : List Event) (e : Event)
    → failures (es ++ (e ∷ [])) ≡ failures es + (if is_failure e then 1 else 0)
failures-snoc [] e = omega arith
failures-snoc (x ∷ es) e = omega (arith, failures-snoc es e)

pub record Bounded (s : Session) : Type 0 where
  pub counted : failures s.events ≤ s.auth_fails
  pub open_few : s.channel_open ≡ true → s.auth_fails < max_auth_fails
  pub capped : failures s.events ≤ max_auth_fails

log-Bounded : (e : Event) (s : Session) → is_failure e ≡ false → Bounded s → Bounded (log e s)
unfolding log
log-Bounded e s h v = ground (arith, failures-snoc s.events e)

send-Bounded : (e : Event) (s : Session) → is_failure e ≡ false → Bounded s → Bounded (send e s)
unfolding send
send-Bounded e s h v = ground (arith, log-Bounded e s h v)

-- Only the log, the count and the channel matter.
same-Bounded :
    (s t : Session)
    → t.events ≡ s.events
    → t.auth_fails ≡ s.auth_fails
    → t.channel_open ≡ s.channel_open
    → Bounded s
    → Bounded t
same-Bounded s t e a c v = ground arith

on_log : (e : Event) (s : Session) → is_traffic e ≡ true → Bounded s → Bounded (log e s)
on_log e s t v = log-Bounded e s (traffic_harmless e t) v
  where
    traffic_harmless : (e : Event) → is_traffic e ≡ true → is_failure e ≡ false
    traffic_harmless e t = ground arith

on_streams : (m : List (ℕ × Stream)) (s : Session) → Bounded s → Bounded (record s { streams = m })
on_streams m s v = same-Bounded s _ refl refl refl v

notify_handlers-Bounded :
    (accepts : Handler → Text → Bool) (path : Text) (hs : List Handler) (s : Session)
    → Bounded s
    → Bounded (notify_handlers accepts path hs s).0
unfolding notify_handlers
notify_handlers-Bounded accepts path [] s v = v
notify_handlers-Bounded accepts path (h ∷ hs) s v =
    let asked = log-Bounded (connects h path) s refl v in
    on_if (λ (r : Session × Bool). Bounded r.0) (accepts h path)
      (notify_handlers accepts path hs (log (connects h path) s))
      (send (replies control_error) (log (connects h path) s), false)
      (λ _. notify_handlers-Bounded accepts path hs _ asked)
      (λ _. send-Bounded (replies control_error) _ refl asked)

send_ready-Bounded : (s : Session) → Bounded s → Bounded (send_ready s)
unfolding send_ready
send_ready-Bounded s v =
    let reply : Event =
      replies (ready s.negotiated_version (sort_texts (map (λ h. h.kind) s.handlers)) s.access) in
    let told = send-Bounded reply s refl v in
    on_if Bounded (s.has_video && not s.video_started)
      (log starts_video (record (send reply s) { video_started = true })) (send reply s)
      (λ _. log-Bounded starts_video _ refl (same-Bounded (send reply s) _ refl refl refl told))
      (λ _. told)

mark_ready-Bounded : (s : Session) → Bounded s → Bounded (mark_ready s)
unfolding mark_ready
mark_ready-Bounded s v = log-Bounded readies _ refl (same-Bounded s _ refl refl refl v)

handle_connect-Bounded :
    (out : Outside) (path : Text) (version : ℕ) (s : Session)
    → Bounded s
    → Bounded (handle_connect out path version s)
unfolding handle_connect note_connect
handle_connect-Bounded out path version s v =
    let noted : Session = note_connect path version s in
    let noted_Bounded : Bounded noted = same-Bounded s noted refl refl refl v in
    let asked = notify_handlers out.accepts (or_root path) s.handlers noted in
    let asked_Bounded =
      notify_handlers-Bounded out.accepts (or_root path) s.handlers noted noted_Bounded in
    on_if Bounded (required s.pin) (send (replies auth_required) noted)
      (if asked.1 then send_ready (mark_ready asked.0) else asked.0)
      (λ _. send-Bounded (replies auth_required) noted refl noted_Bounded)
      (λ _.
        on_if Bounded asked.1 (send_ready (mark_ready asked.0)) asked.0
          (λ _. send_ready-Bounded _ (mark_ready-Bounded asked.0 asked_Bounded))
          (λ _. asked_Bounded))

-- A wrong PIN is answered only while the channel is open, and the third closes it.
wrong_pin-Bounded : (s : Session) → Bounded s → Bounded (wrong_pin s)
unfolding wrong_pin send log
wrong_pin-Bounded s v = ground (
  arith,
  failures-snoc s.events (replies (auth_result false)),
  failures-snoc s.events closes_channel,
  failures-snoc (s.events ++ (replies (auth_result false) ∷ [])) closes_channel,
)

right_pin-Bounded : (out : Outside) (s : Session) → Bounded s → Bounded (right_pin out s)
unfolding right_pin
right_pin-Bounded out s v =
    let asked = notify_handlers out.accepts (or_root s.connect_path) s.handlers s in
    let asked_Bounded =
      notify_handlers-Bounded out.accepts (or_root s.connect_path) s.handlers s v in
    on_if Bounded asked.1 (send_ready (send (replies (auth_result true)) (mark_ready asked.0)))
      asked.0
      (λ _. send_ready-Bounded _ (
        send-Bounded (replies (auth_result true)) _ refl
          (mark_ready-Bounded asked.0 asked_Bounded)))
      (λ _. asked_Bounded)

handle_auth-Bounded :
    (out : Outside) (attempt : Text) (s : Session) → Bounded s → Bounded (handle_auth out attempt s)
unfolding handle_auth
handle_auth-Bounded out attempt s v =
    on_if Bounded (not (required s.pin)) s
      (if verify out.sha256 s.pin attempt then right_pin out s else wrong_pin s) (λ _. v)
      (λ _.
        on_if Bounded (verify out.sha256 s.pin attempt) (right_pin out s) (wrong_pin s)
          (λ _. right_pin-Bounded out s v) (λ _. wrong_pin-Bounded s v))

-- One session answers at most three wrong PINs: in every run of a new session, whatever the peer sends,
-- the answers that a PIN was wrong are no more than `max_auth_fails`, and while the data channel is
-- still open fewer wrong PINs than that have been counted.
pub run-Bounded :
    (dec : Decoder) (out : Outside) (pin : Option PinAuth) (access : Text) (handlers : List Handler)
    (has_video : Bool) (is : List Input)
    → Bounded (run dec out is (new_session pin access handlers has_video))
unfolding new_session
run-Bounded dec out pin access handlers has_video is =
    run-keeps Bounded dec out on_log on_streams
      (λ s v. (log-Bounded video_answer s refl v, log-Bounded video_candidate s refl v))
      (handle_connect-Bounded out) (handle_auth-Bounded out)
      (λ s v. same-Bounded s _ refl refl refl v) (λ s v. ground arith)
      (λ s v. send-Bounded (replies control_error) s refl v) is _ (ground arith)
