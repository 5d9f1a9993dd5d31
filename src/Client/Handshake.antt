-- ===== src/Client/Handshake.antt =====
-- internal/client/session.go: the control protocol of the connecting side, from the first frame to
-- `ready`.
use Prim.Native.Nat.{ℕ}
use bitbang_cli.Prelude.{
  Text, List, ◌∷◌, ℕ, ok, [], Bool, ◌+◌, Option, if◌then◌else◌, none, Result, err, some, not, leb,
  text_eq, ◌==◌, ◌&&◌, codes, ltb, ◌||◌,
}
use Prim.Native.String.{[]}
use bitbang_cli.Wire.{Bytes, parse_frame, negotiate_swsp_version, is_syn}

-- The control messages after the first, as json.Unmarshal leaves them: an absent field is empty, and an
-- error leaves every field so.
pub record Control : Type 0 where
  pub kind : Text
  pub success : Bool
  pub caps : List Text
  pub server_version : ℕ
  pub negotiated_version : ℕ
  pub access : Text

-- What the handshake takes from outside: the decoders of the payloads (`verify` is none on an error, and
-- else the type and the hash), the hash of its own nonce, the prompt for a PIN (`none` is nil, and an
-- answer of none its error), and whether the data channel takes the n-th message.
pub record Setting : Type 0 where
  pub verify : Bytes → Option (Text × Text)
  pub control : Bytes → Control
  pub nonce_hash : Text
  pub prompt : Option (ℕ → Option Text)
  pub takes_message : ℕ → Bool

-- What `recvControl` answers: a message, or one of its errors.
pub data Received : Type 0 where
  message : Bytes → Received
  ended : Received

pub data Failure : Type 0 where
  no_answer bad_frame not_verify verify_failed send_failed stray_stream no_prompt prompt_failed
        too_many_pins listener_error unsupported_version invalid_version :
      Failure

pub data Message : Type 0 where
  connect : Message
  auth : Text → Message

-- How the handshake stands: `waits` is a call of `recvControl`, and `panics` a call of the nil prompt.
pub data Outcome : Type 0 where
  waits : Outcome
  panics : Outcome
  fails : Failure → Outcome
  established : ℕ → ℕ → Control → Outcome

pub record Progress : Type 0 where
  pub sent : List Message
  pub outcome : Outcome

unfoldable pub stop : Outcome → Progress
stop o = record { sent = []; outcome = o }

unfoldable pub after : Message → Progress → Progress
after m p = record p { sent = m ∷ p.sent }

-- `setNegotiatedVersion`; the versions are `int`s, and the model leaves out the negative ones, which both
-- of its checks refuse.
unfoldable pub set_negotiated_version : ℕ → ℕ → Result Failure (ℕ × ℕ)
set_negotiated_version server negotiated =
    let server_version : ℕ = if server == 0 then 2 else server in
    let max : ℕ = negotiate_swsp_version server_version in
    if ltb max 2
    then err unsupported_version
    else if negotiated == 0
    then ok (server_version, max)
    else if ltb negotiated 2 || ltb max negotiated
    then err invalid_version
    else ok (server_version, negotiated)

unfoldable pub on_ready : Control → Outcome
unfolding set_negotiated_version
on_ready ctl = elim (set_negotiated_version ctl.server_version ctl.negotiated_version) [
  | ok v ↦ established v.0 v.1 ctl
  | err e ↦ fails e
]

-- A PIN is asked for and sent; `next` is the rest of the loop.
unfoldable pub send_pin : Setting → (ℕ → Option Text) → ℕ → Progress → Progress
unfolding stop after
send_pin set ask retry next = elim (ask retry) [
  | none ↦ stop (fails prompt_failed)
  | some pin ↦
      if set.takes_message (retry + 1) then after (auth pin) next else stop (fails send_failed)
]

unfoldable pub on_auth_required : Setting → ℕ → Progress → Progress
unfolding send_pin stop
on_auth_required set retry next = elim set.prompt [
  | none ↦ stop (fails no_prompt)
  | some ask ↦ send_pin set ask retry next
]

unfoldable pub on_wrong_pin : Setting → ℕ → Progress → Progress
unfolding send_pin stop
on_wrong_pin set retry next =
    if leb 3 retry
    then stop (fails too_many_pins)
    else elim set.prompt [ none ↦ stop panics | some ask ↦ send_pin set ask retry next ]

-- The switch on the type of a control message. `again` is the rest of the loop with the same count of
-- PINs, and `asked` with one more.
unfoldable pub on_control : Setting → Control → ℕ → Progress → Progress → Progress
unfolding on_ready on_auth_required on_wrong_pin stop
on_control set ctl retry again asked =
    if text_eq ctl.kind (codes "ready")
    then stop (on_ready ctl)
    else if text_eq ctl.kind (codes "auth_required")
    then on_auth_required set retry asked
    else if text_eq ctl.kind (codes "auth_result")
    then (if ctl.success then again else on_wrong_pin set retry asked)
    else if text_eq ctl.kind (codes "error")
    then stop (fails listener_error)
    else again

-- What the loop does with one message.
unfoldable pub on_message : Setting → Bytes → ℕ → Progress → Progress → Progress
unfolding on_control stop
on_message set input retry again asked = elim (parse_frame input) [
  | err e ↦ stop (fails bad_frame)
  | ok frame ↦
      if not (frame.stream_id == 0)
      then stop (fails stray_stream)
      else if not (is_syn frame)
      then again
      else on_control set (set.control frame.payload) retry again asked
]

-- The loop behind `connect`.
unfoldable pub control_loop : Setting → ℕ → List Received → Progress
unfolding on_message stop
control_loop set retry [] = stop waits
control_loop set retry (ended ∷ rs) = stop (fails no_answer)
control_loop set retry (message input ∷ rs) =
    on_message set input retry (control_loop set retry rs) (control_loop set (retry + 1) rs)

-- The checks of the first frame; true is the proof that the listener holds its key.
unfoldable pub check_verify : Setting → Bytes → Result Failure (Unit {0})
check_verify set input = elim (parse_frame input) [
  | err e ↦ err bad_frame
  | ok frame ↦
      if not (frame.stream_id == 0 && is_syn frame)
      then err not_verify
      else elim (set.verify frame.payload) [
        | none ↦ err not_verify
        | some m ↦
            if not (text_eq m.0 (codes "verify_nonce_hash"))
            then err not_verify
            else if text_eq m.1 set.nonce_hash
            then ok tt
            else err verify_failed
      ]
]

unfoldable pub handshake : Setting → List Received → Progress
unfolding check_verify control_loop stop after
handshake set [] = stop waits
handshake set (ended ∷ rs) = stop (fails no_answer)
handshake set (message input ∷ rs) = elim (check_verify set input) [
  | err e ↦ stop (fails e)
  | ok proved ↦
      if set.takes_message 0
      then after connect (control_loop set 0 rs)
      else stop (fails send_failed)
]
