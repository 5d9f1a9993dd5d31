-- ===== src/FrameQueue/Race.antt =====
-- The gap between the last locked section of `drain` and its deferred function.
use mathlib.Core.List.{append-nil}
use bitbang_cli.FrameQueue.Order.{Fifo, Reach-Fifo, QuietReach}
use bitbang_cli.Prelude.{
  ◌∙◌, ap, sym, Option, length, ◌≤◌, ◌≡◌, true, false, some, none, [], ◌∷◌, ◌++◌, arith, List, Bool,
  ℕ,
}
use bitbang_cli.Wire.{Bytes}
use bitbang_cli.FrameQueue.{enqueue, idle, drain_done, drain_refill, set_conn, close, at_batch}
use bitbang_cli.FrameQueue.Steps.{
  System, after_enqueue, Step, arrive, hand_over, connect, publishes, drains, delivers, refills,
  ends, closes, start, Reach, here, next,
}

-- The drain finds the pending list empty, `first` arrives, the deferred function of the drain runs, and
-- `second` arrives and is handed over: five steps of the system.
abbrev pub refilled : System → System
refilled s = record s { queue = (drain_refill s.queue).0; drain = (drain_refill s.queue).1 }

abbrev pub end_drain : System → System
end_drain s = record s { queue = drain_done s.queue; drain = idle }

abbrev pub handed_over : Bytes → System → System
handed_over frame s = record s { handoff = none; delivered = s.delivered ++ (frame ∷ []) }

abbrev pub overtaken : Bytes → Bytes → System → System
overtaken first second s =
    handed_over second (after_enqueue second (end_drain (after_enqueue first (refilled s))))

abbrev pub oldest : List Bytes → Option Bytes
oldest [] = none
oldest (frame ∷ frames) = some frame

oldest_append :
    (first frame : Bytes) (frames : List Bytes)
    → oldest frames ≡ some first
    → oldest (frames ++ (frame ∷ [])) ≡ some first
oldest_append first frame [] h = absurd (ground (arith, h))
oldest_append first frame (oldest_frame ∷ frames) h = h

-- The frame is the oldest of the pending list, and no drain is running or to be started.
record IsStranded (first : Bytes) (s : System) : Type 0 where
  waits : s.queue.closed ≡ false → oldest s.queue.pending ≡ some first
  published : s.queue.published ≡ true
  undrained : s.drain ≡ idle

arrive-IsStranded :
    (first frame : Bytes) (s : System)
    → IsStranded first s
    → IsStranded first (after_enqueue frame s)
unfolding after_enqueue enqueue
arrive-IsStranded first frame s v = ground (arith, oldest_append first frame s.queue.pending)

Step-IsStranded :
    (first : Bytes) {s t : System} → Step s t → IsStranded first s → IsStranded first t
Step-IsStranded first (arrive frame s h) v = arrive-IsStranded first frame s v
Step-IsStranded first (hand_over frame s h) v = ground arith
Step-IsStranded first (connect conn s) v = unfold set_conn in ground arith
Step-IsStranded first (publishes install s h) v = absurd (ground (arith, v.published, h))
Step-IsStranded first (drains frame rest s h) v = absurd (ground (arith, v.undrained, h))
Step-IsStranded first (delivers frame rest s h) v = absurd (ground (arith, v.undrained, h))
Step-IsStranded first (refills s h) v = absurd (ground (arith, v.undrained, h))
Step-IsStranded first (ends s h) v = absurd (ground (arith, v.undrained, h))
Step-IsStranded first (closes s) v = unfold close in ground arith

Reach-IsStranded :
    (first : Bytes) {s t : System} → Reach s t → IsStranded first s → IsStranded first t
Reach-IsStranded first here v = v
Reach-IsStranded first (next r st) v = Step-IsStranded first st (Reach-IsStranded first r v)

-- The accounts of a queue whose drain is at the end of its batch.
at_end :
    {s : System} (rest : List Bytes)
    → Fifo s rest
    → s.drain ≡ at_batch []
    → s.queue.closed ≡ false
    → s.queue.pending ≡ []
    → (s.queue.published ≡ true)
      × (s.queue.dispatching ≡ true)
      × (s.handoff ≡ none)
      × (s.accepted ≡ s.delivered)
at_end {s} rest v d c p = ground (arith, append-nil s.delivered)

-- The overtaking is a run of the queue.
overtaken-Reach :
    (first second : Bytes) (s : System)
    → s.drain ≡ at_batch []
    → s.queue.closed ≡ false
    → s.queue.published ≡ true
    → s.queue.dispatching ≡ true
    → s.handoff ≡ none
    → s.queue.pending ≡ []
    → length first ≤ s.queue.max_bytes
    → Reach s (overtaken first second s)
unfolding after_enqueue enqueue drain_refill drain_done
overtaken-Reach first second s d c p b h e room =
    next
      (next
        (next (next (next here (refills s d)) (arrive first (refilled s) h))
          (ends (after_enqueue first (refilled s)) (ground arith)))
        (arrive second (end_drain (after_enqueue first (refilled s))) (ground arith)))
      (hand_over second _ (ground arith))

overtaken-System :
    (first second : Bytes) (s : System)
    → s.queue.closed ≡ false
    → s.queue.published ≡ true
    → s.queue.dispatching ≡ true
    → s.queue.pending ≡ []
    → length first ≤ s.queue.max_bytes
    → ((overtaken first second s).accepted ≡ (s.accepted ++ (first ∷ [])) ++ (second ∷ []))
      × ((overtaken first second s).delivered ≡ s.delivered ++ (second ∷ []))
      × IsStranded first (overtaken first second s)
unfolding after_enqueue enqueue drain_refill drain_done
overtaken-System first second s c p b e room = ground arith

-- In every run of a queue in which no frame has yet arrived between the last locked section of the drain
-- goroutine and its deferred function, when the drain is at the end of its batch, the queue is open and
-- nothing is pending, a frame within the cap that arrives in that gap is stranded. The drain can look
-- at the list once more, `first` arrive, the deferred function run, and `second` arrive and be handed
-- over. Then all that was accepted before and `second` are delivered, `first`, accepted before
-- `second`, is not, and in every later state in which the queue is open, `first` still waits at the
-- head of the pending list with no drain running.
pub gap_strands_frame :
    (conn : Bool) (max_bytes : ℕ) {s : System}
    → QuietReach (start conn max_bytes) s
    → s.drain ≡ at_batch []
    → s.queue.closed ≡ false
    → s.queue.pending ≡ []
    → (first second : Bytes) → length first ≤ s.queue.max_bytes
    → Reach s (overtaken first second s)
      × ((overtaken first second s).accepted ≡ (s.accepted ++ (first ∷ [])) ++ (second ∷ []))
      × ((overtaken first second s).delivered ≡ s.accepted ++ (second ∷ []))
      × ((u : System)
          → Reach (overtaken first second s) u
          → u.queue.closed ≡ false
          → (oldest u.queue.pending ≡ some first) × (u.drain ≡ idle))
gap_strands_frame conn max_bytes {s} r d c p first second room =
    let (rest, v) = Reach-Fifo conn max_bytes r in
    let a = at_end rest v d c p in
    let after = overtaken-System first second s c a.0 a.1 p room in
    (
      overtaken-Reach first second s d c a.0 a.1 a.2 p room,
      after.0,
      after.1 ∙ ap (λ l. l ++ (second ∷ [])) (sym a.3),
      λ u later open_queue.
          (let w = Reach-IsStranded first later after.2 in (w.waits open_queue, w.undrained)),
    )
