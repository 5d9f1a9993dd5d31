-- ===== src/Flow/Pair.antt =====
-- A sender and a receiver that both run flow.go, with the frames and the window updates that are under
-- way between them. The data channel is reliable and ordered.
use bitbang_cli.Flow.Receiver.{Receiver, take_frame, finish_frame}
use bitbang_cli.Prelude.{
  ℕ, List, if◌then◌else◌, ◌≡◌, ◌∷◌, ◌==◌, ◌++◌, true, [], ◌+◌, none, ◌<◌, ◌^◌, some,
}
use bitbang_cli.Wire.{Frame, flow_bytes}
use bitbang_cli.Flow.{
  Stream, ℕ, Frame, List, reserve_send, Handler, new_stream, flow_bytes, ◌∷◌, [], reserved, true,
  none, enqueue, some, update_send_max,
}

pub record Pair : Type 0 where
  pub sender : Stream
  pub wire : List Frame
  pub receiver : Receiver
  pub updates : List ℕ

unfoldable pub open_pair : ℕ → Handler → Pair
open_pair id h = record {
  sender = new_stream id h true;
  wire = [];
  receiver = record { stream = new_stream id h true; current = none };
  updates = [];
}

abbrev pub announce : ℕ → List ℕ → List ℕ
announce update us = if update == 0 then us else us ++ (update ∷ [])

-- The two ends of an open stream. A step that an error or a close would follow is left out: it ends
-- the stream. The receiver takes less than 2^63 bytes.
pub data Step : Pair → Pair → Type 0 where
  sends :
      (frame : Frame) (st : Stream) (p : Pair)
      → reserve_send (flow_bytes frame) p.sender ≡ reserved st
      → Step p (record p { sender = st; wire = p.wire ++ (frame ∷ []) })
  arrives :
      (frame : Frame) (rest : List Frame) (p : Pair)
      → p.wire ≡ frame ∷ rest
      → p.receiver.stream.received + flow_bytes frame < 2 ^ 63
      → (enqueue frame p.receiver.stream).1 ≡ none
      → Step p (record p {
        wire = rest;
        receiver = record {
          stream = (enqueue frame p.receiver.stream).0;
          current = p.receiver.current;
        };
      })
  takes :
      (frame : Frame) (rest : List Frame) (p : Pair)
      → p.receiver.current ≡ none
      → p.receiver.stream.queue ≡ frame ∷ rest
      → Step p (record p { receiver = take_frame p.receiver.stream frame rest })
  finishes :
      (frame : Frame) (p : Pair)
      → p.receiver.current ≡ some frame
      → Step p (record p {
        receiver = (finish_frame p.receiver.stream frame).0;
        updates = announce (finish_frame p.receiver.stream frame).1 p.updates;
      })
  updated :
      (max : ℕ) (rest : List ℕ) (p : Pair)
      → p.updates ≡ max ∷ rest
      → Step p (record p { sender = update_send_max max p.sender; updates = rest })

pub data Reach (p : Pair) : Pair → Type 0 where
  here : Reach p p
  next : {q r : Pair} → Reach p q → Step q r → Reach p r
