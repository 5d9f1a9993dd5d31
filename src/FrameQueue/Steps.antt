-- ===== src/FrameQueue/Steps.antt =====
-- The runs of a queue: what one frame source, one publication, the drain goroutine and any number of
-- closers do to it, one locked section or one delivery at a time.
use bitbang_cli.Prelude.{ℕ, ◌≡◌, Bool, true, false, Option, none, some, List, [], ◌∷◌, ◌++◌}
use bitbang_cli.Wire.{Bytes}
use bitbang_cli.FrameQueue.{
  Queue, Verdict, refused, overflowed, queued, direct, Drain, idle, at_batch, delivering, exiting,
  new, set_conn, enqueue, publish, close, drain_frame, drain_refill, drain_done,
}

-- `handoff` is the frame between Enqueue's unlock and the end of its `deliver(data)`. `accepted` and
-- `delivered` record the frames that Enqueue took and those that `deliver` was called with, in order.
pub record System : Type 0 where
  pub queue : Queue
  pub handoff : Option Bytes
  pub drain : Drain
  pub accepted : List Bytes
  pub delivered : List Bytes

unfoldable pub start : Bool → ℕ → System
start conn max_bytes = record {
  queue = new conn max_bytes;
  handoff = none;
  drain = idle;
  accepted = [];
  delivered = [];
}

unfoldable pub record_verdict : Bytes → System → Queue × Verdict → System
record_verdict frame s (q, refused) = record s { queue = q }
record_verdict frame s (q, overflowed) = record s { queue = q }
record_verdict frame s (q, queued) = record s { queue = q; accepted = s.accepted ++ (frame ∷ []) }
record_verdict frame s (q, direct) = record s {
  queue = q;
  accepted = s.accepted ++ (frame ∷ []);
  handoff = some frame;
}

unfoldable pub after_enqueue : Bytes → System → System
unfolding record_verdict
after_enqueue frame s = record_verdict frame s (enqueue frame s.queue)

unfoldable pub started : Option (List Bytes) → Drain → Drain
started none d = d
started (some batch) d = at_batch batch

unfoldable pub after_publish : Option ℕ → System → System
unfolding started
after_publish install s =
    let (q, batch) = publish true install s.queue in
    record s { queue = q; drain = started batch s.drain }

-- The frame source is the data channel's callback, so a frame arrives only when the one before it has
-- been handed over. An owner publishes once, with a delivery function.
pub data Step : System → System → Type 0 where
  arrive : (frame : Bytes) (s : System) → s.handoff ≡ none → Step s (after_enqueue frame s)
  hand_over :
      (frame : Bytes) (s : System)
      → s.handoff ≡ some frame
      → Step s (record s { handoff = none; delivered = s.delivered ++ (frame ∷ []) })
  connect : (conn : Bool) (s : System) → Step s (record s { queue = set_conn conn s.queue })
  publishes :
      (install : Option ℕ) (s : System)
      → s.queue.published ≡ false
      → Step s (after_publish install s)
  drains :
      (frame : Bytes) (rest : List Bytes) (s : System)
      → s.drain ≡ at_batch (frame ∷ rest)
      → Step s (record s { drain = drain_frame s.queue frame rest })
  delivers :
      (frame : Bytes) (rest : List Bytes) (s : System)
      → s.drain ≡ delivering frame rest
      → Step s (record s { drain = at_batch rest; delivered = s.delivered ++ (frame ∷ []) })
  refills :
      (s : System)
      → s.drain ≡ at_batch []
      → Step s (record s { queue = (drain_refill s.queue).0; drain = (drain_refill s.queue).1 })
  ends :
      (s : System)
      → s.drain ≡ exiting
      → Step s (record s { queue = drain_done s.queue; drain = idle })
  closes : (s : System) → Step s (record s { queue = (close s.queue).0 })

pub data Reach (s : System) : System → Type 0 where
  here : Reach s s
  next : {t u : System} → Reach s t → Step t u → Reach s u
