-- ===== src/WebSocket.antt =====
-- internal/streamtype/websocket.go: a WebSocket message as the fragments of a stream, and back. The
-- connection's writer, which takes every byte, is a list here, and so is the stream that the fragments
-- are sent on; a send that fails ends the loop and is left out.
pub mod RoundTrip
use Prim.Native.Nat.{ℕ, suc}
use bitbang_cli.Prelude.{
  List, ℕ, Bool, Result, suc, if◌then◌else◌, Option, [], some, false, not, ok, length, none, ◌-◌,
  err, ◌∷◌, ◌==◌, ◌++◌, true, take, drop, ltb, is_empty, zero,
}
use bitbang_cli.Wire.{Bytes, max_chunk_size}

-- A fragment: its payload and its MORE flag.
pub record Fragment : Type 0 where
  pub payload : Bytes
  pub more : Bool

-- The reader behind `src`: its bytes, and whether it fails behind them or is at its end.
pub record Source : Type 0 where
  pub bytes : Bytes
  pub fails : Bool

abbrev pub type_byte : Bool → ℕ
type_byte binary = if binary then 1 else 0

-- The loop of writeWSReader: `start` is the type byte, none after the first fragment. The answer is
-- what was sent, and whether all of the message was.
unfoldable pub write_from : ℕ → Bytes → Source → List Fragment × Bool
write_from zero start src = ([], false)
write_from (suc rounds) start src =
    let room = max_chunk_size - length start in
    let payload = start ++ take room src.bytes in
    let beyond = drop room src.bytes in
    let rest = write_from rounds [] (record src { bytes = beyond }) in
    let last : List Fragment = record { payload = payload; more = false } ∷ [] in
    if ltb (length src.bytes) room
    then (if src.fails then ([], false) else (last, true))
    else if not (is_empty beyond)
    then (record { payload = payload; more = true } ∷ rest.0, rest.1)
    else if src.fails
    then ([], false)
    else (last, true)

-- Each round but the last takes a byte at least.
unfoldable pub write_ws_reader : Bool → Source → List Fragment × Bool
unfolding write_from
write_ws_reader binary src = write_from (suc (length src.bytes)) (type_byte binary ∷ []) src

-- A stream: whether it is connected, the message that is being written, and those written.
pub record WsStream : Type 0 where
  pub connected : Bool
  pub writer : Option (Bool × Bytes)
  pub sent : List (Bool × Bytes)

pub data WsError : Type 0 where
  not_connected missing_type : WsError
  invalid_type : ℕ → WsError

-- `NextWriter` and the type byte.
unfoldable pub next_writer : Bytes → WsStream → Result WsError ((Bool × Bytes) × Bytes)
next_writer payload ws = elim ws.writer [
  | some w ↦ ok (w, payload)
  | none ↦ elim payload [
    | [] ↦ err missing_type
    | t ∷ body ↦
        if t == 0
        then ok ((false, []), body)
        else if t == 1
        then ok ((true, []), body)
        else err (invalid_type t)
  ]
]

unfoldable pub write_fragment : Bytes → Bool → WsStream → WsStream × Option WsError
unfolding next_writer
write_fragment payload more ws =
    if not ws.connected then (ws, some not_connected) else elim (next_writer payload ws) [
      | err e ↦ (ws, some e)
      | ok (w, body) ↦
          let written = w.1 ++ body in
          if more
          then (record ws { writer = some (w.0, written) }, none)
          else (record ws { writer = none; sent = ws.sent ++ ((w.0, written) ∷ []) }, none)
    ]

unfoldable pub write_fragments : List Fragment → WsStream → WsStream × Option WsError
unfolding write_fragment
write_fragments [] ws = (ws, none)
write_fragments (f ∷ fs) ws =
    let r = write_fragment f.payload f.more ws in
    let rest = write_fragments fs r.0 in elim r.1 [ some e ↦ r | none ↦ rest ]
