-- ===== src/FrameQueue/Order.antt =====
-- The order of delivery in the runs where no frame arrives between the last locked section of the
-- drain goroutine and its deferred function.
use bitbang_cli.Prelude.{
  if◌then◌else◌, ◌≡◌, ◌≢◌, Bool, true, false, not, Option, none, some, List, [], ◌∷◌, ◌++◌, arith,
  ◌∙◌,
}
use bitbang_cli.FrameQueue.{
  Verdict, refused, overflowed, queued, direct, enqueue, Drain, idle, at_batch, delivering, exiting,
  drain_refill, drain_frame, close, publish, ℕ, drain_done, new, set_conn,
}
use bitbang_cli.FrameQueue.Steps.{
  System, after_enqueue, Step, arrive, after_publish, start, hand_over, connect, publishes, drains,
  delivers, refills, ends, closes,
}
use bitbang_cli.Prelude.{◌≡◌, ◌≢◌, Bool, true, false, not, Option, none, some, List, [], ◌∷◌, ◌++◌}
use bitbang_cli.Wire.{Bytes}
use bitbang_cli.FrameQueue.{enqueue, Drain, idle, at_batch, delivering, exiting}
use bitbang_cli.FrameQueue.Steps.{System, after_enqueue, Step, arrive}
use mathlib.Core.List.{append-nil, append_assoc}

abbrev pub drain_frames : Drain → List Bytes
drain_frames idle = []
drain_frames (at_batch batch) = batch
drain_frames (delivering frame rest) = frame ∷ rest
drain_frames exiting = []

abbrev pub handoff_frames : Option Bytes → List Bytes
handoff_frames none = []
handoff_frames (some frame) = frame ∷ []

abbrev pub is_idle : Drain → Bool
is_idle idle = true
is_idle (at_batch batch) = false
is_idle (delivering frame rest) = false
is_idle exiting = false

-- `rest` is what has been accepted and is on no goroutine's hands: the pending list, until Close
-- drops it.
pub record Fifo (s : System) (rest : List Bytes) : Type 0 where
  pub split :
      s.accepted ≡ s.delivered ++ (drain_frames s.drain ++ (handoff_frames s.handoff ++ rest))
  pub pending : s.queue.closed ≡ false → rest ≡ s.queue.pending
  pub dispatching : s.queue.dispatching ≡ not (is_idle s.drain)
  pub unpublished : s.queue.published ≡ false → (s.drain ≡ idle) × (s.handoff ≡ none)
  pub caught_up :
      s.queue.published ≡ true → s.drain ≡ idle → s.queue.closed ≡ false → s.queue.pending ≡ []
  pub exhausted : s.drain ≡ exiting → s.queue.closed ≡ false → s.queue.pending ≡ []
  pub targeted : s.queue.published ≡ true → s.queue.target ≡ true
  pub handing : s.handoff ≢ none → s.drain ≡ idle

-- The step is not an arrival in the gap before the deferred function of the drain.
abbrev pub IsQuiet : {s t : System} → Step s t → Type 0
IsQuiet (arrive frame s h) = s.drain ≢ exiting
IsQuiet _ = Unit

pub data QuietReach (s : System) : System → Type 0 where
  here : QuietReach s s
  next : {t u : System} → QuietReach s t → (st : Step t u) → IsQuiet st → QuietReach s u

rest_after : Bytes → List Bytes → Verdict → List Bytes
rest_after frame rest refused = rest
rest_after frame rest overflowed = rest
rest_after frame rest queued = rest ++ (frame ∷ [])
rest_after frame rest direct = rest

push_split {ℓ} :
    {A : Type ℓ} (d a b rest : List A) (x : A)
    → (d ++ (a ++ (b ++ rest))) ++ (x ∷ []) ≡ d ++ (a ++ (b ++ (rest ++ (x ∷ []))))
push_split d a b rest x = simp append_assoc

arrive-Fifo :
    (frame : Bytes) (s : System) (rest : List Bytes)
    → s.handoff ≡ none
    → s.drain ≢ exiting
    → Fifo s rest
    → (rest' : List Bytes) × Fifo (after_enqueue frame s) rest'
unfolding after_enqueue enqueue rest_after
arrive-Fifo frame s rest h quiet v = (
  rest_after frame rest (enqueue frame s.queue).1,
  ground (
    arith,
    push_split s.delivered (drain_frames s.drain) (handoff_frames s.handoff) rest frame,
    append-nil s.delivered,
  ),
)

publish-Fifo :
    (install : Option ℕ) (s : System) (rest : List Bytes)
    → s.queue.published ≡ false
    → Fifo s rest
    → (rest' : List Bytes) × Fifo (after_publish install s) rest'
unfolding after_publish publish
publish-Fifo install s rest h v =
    (if s.queue.closed then rest else [], ground (arith, append-nil s.queue.pending))

close-Fifo :
    (s : System) (rest : List Bytes)
    → Fifo s rest
    → Fifo (record s { queue = (close s.queue).0 }) rest
unfolding close
close-Fifo s rest v = ground arith

drains-Fifo :
    (frame : Bytes) (batch : List Bytes) (s : System) (rest : List Bytes)
    → s.drain ≡ at_batch (frame ∷ batch)
    → Fifo s rest
    → (rest' : List Bytes) × Fifo (record s { drain = drain_frame s.queue frame batch }) rest'
unfolding drain_frame
drains-Fifo frame batch s rest h v =
    (if s.queue.closed then (frame ∷ batch) ++ rest else rest, ground arith)

delivers-Fifo :
    (frame : Bytes) (batch : List Bytes) (s : System) (rest : List Bytes)
    → s.drain ≡ delivering frame batch
    → Fifo s rest
    → Fifo (record s { drain = at_batch batch; delivered = s.delivered ++ (frame ∷ []) }) rest
delivers-Fifo frame batch s rest h v =
    ground
      (arith, append_assoc s.delivered (frame ∷ []) (batch ++ (handoff_frames s.handoff ++ rest)))

hand_over-Fifo :
    (frame : Bytes) (s : System) (rest : List Bytes)
    → s.handoff ≡ some frame
    → Fifo s rest
    → Fifo (record s { handoff = none; delivered = s.delivered ++ (frame ∷ []) }) rest
hand_over-Fifo frame s rest h v = ground (arith, append_assoc s.delivered (frame ∷ []) rest)

refills-Fifo :
    (s : System) (rest : List Bytes)
    → s.drain ≡ at_batch []
    → Fifo s rest
    → (rest' : List Bytes) × Fifo
        (record s { queue = (drain_refill s.queue).0; drain = (drain_refill s.queue).1 })
        rest'
unfolding drain_refill
refills-Fifo s rest h v =
    (if s.queue.closed then rest else [], ground (arith, append-nil s.queue.pending))

ends-Fifo :
    (s : System) (rest : List Bytes)
    → s.drain ≡ exiting
    → Fifo s rest
    → Fifo (record s { queue = drain_done s.queue; drain = idle }) rest
unfolding drain_done
ends-Fifo s rest h v = ground arith

Step-Fifo :
    {s t : System} (st : Step s t)
    → IsQuiet st
    → (rest : List Bytes) → Fifo s rest
    → (rest' : List Bytes) × Fifo t rest'
Step-Fifo (arrive frame s h) q rest v = arrive-Fifo frame s rest h q v
Step-Fifo (hand_over frame s h) q rest v = (rest, hand_over-Fifo frame s rest h v)
Step-Fifo (connect conn s) q rest v = (rest, unfold set_conn in ground arith)
Step-Fifo (publishes install s h) q rest v = publish-Fifo install s rest h v
Step-Fifo (drains frame batch s h) q rest v = drains-Fifo frame batch s rest h v
Step-Fifo (delivers frame batch s h) q rest v = (rest, delivers-Fifo frame batch s rest h v)
Step-Fifo (refills s h) q rest v = refills-Fifo s rest h v
Step-Fifo (ends s h) q rest v = (rest, ends-Fifo s rest h v)
Step-Fifo (closes s) q rest v = (rest, close-Fifo s rest v)

pub Reach-Fifo :
    (conn : Bool) (max_bytes : ℕ) {s : System}
    → QuietReach (start conn max_bytes) s
    → (rest : List Bytes) × Fifo s rest
Reach-Fifo conn max_bytes here = ([], unfold start new in ground arith)
Reach-Fifo conn max_bytes (next r st q) =
    let (rest, v) = Reach-Fifo conn max_bytes r in Step-Fifo st q rest v

-- In every run where no frame arrives between the last locked section of the drain goroutine and its
-- deferred function, the delivered frames are a prefix of the accepted ones: none is delivered twice,
-- out of order, or ahead of an earlier one.
pub delivered-prefix :
    (conn : Bool) (max_bytes : ℕ) {s : System}
    → QuietReach (start conn max_bytes) s
    → (rest : List Bytes) × (s.accepted ≡ s.delivered ++ rest)
delivered-prefix conn max_bytes {s} r =
    let (rest, v) = Reach-Fifo conn max_bytes r in
    (drain_frames s.drain ++ (handoff_frames s.handoff ++ rest), v.split)

-- In every run where no frame arrives between the last locked section of the drain goroutine and its
-- deferred function, once the queue is published and still open, and neither the drain goroutine nor
-- an Enqueue is under way, every accepted frame has been delivered.
pub delivered-eq-accepted :
    (conn : Bool) (max_bytes : ℕ) {s : System}
    → QuietReach (start conn max_bytes) s
    → s.queue.published ≡ true
    → s.queue.closed ≡ false
    → s.drain ≡ idle
    → s.handoff ≡ none
    → s.accepted ≡ s.delivered
delivered-eq-accepted conn max_bytes {s} r p c d h =
    let (rest, v) = Reach-Fifo conn max_bytes r in
    let empty : rest ≡ [] = v.pending c ∙ v.caught_up p d c in
    ground (arith, v.split, append-nil s.delivered, empty)
