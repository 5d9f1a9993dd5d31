-- ===== src/FrameQueue/Bounds.antt =====
-- What holds of the queue in every run: the byte count, the cap, and the one release at teardown.
use bitbang_cli.Prelude.{
  length, total, total-append, ℕ, ◌≤◌, ◌≡◌, refl, Bool, true, false, Option, [], ◌∷◌, arith,
}
use bitbang_cli.Wire.{Bytes}
use bitbang_cli.FrameQueue.{
  Queue, new, set_conn, Verdict, refused, overflowed, queued, direct, enqueue, publish, close,
  drain_refill, drain_done,
}
use bitbang_cli.FrameQueue.Steps.{
  System, start, after_enqueue, after_publish, Step, arrive, hand_over, connect, publishes, drains,
  delivers, refills, ends, closes, Reach, here, next, record_verdict,
}

pub record Inv (q : Queue) : Type 0 where
  pub counted : q.pending_bytes ≡ total length q.pending
  pub capped : q.pending_bytes ≤ q.max_bytes
  pub emptied : q.closed ≡ true → q.pending ≡ []
  pub unreleased : q.closed ≡ false → q.released ≡ []
  pub released_once : q.closed ≡ true → q.released ≡ q.owner ∷ []

new-Inv : (conn : Bool) (max_bytes : ℕ) → Inv (new conn max_bytes)
unfolding new
new-Inv conn max_bytes = ground arith

enqueue-Inv : (frame : Bytes) (q : Queue) → Inv q → Inv (enqueue frame q).0
unfolding enqueue
enqueue-Inv frame q v = ground (arith, total-append length q.pending (frame ∷ []))

publish-Inv :
    (deliver : Bool) (install : Option ℕ) (q : Queue) → Inv q → Inv (publish deliver install q).0
unfolding publish
publish-Inv deliver install q v = ground arith

close-Inv : (q : Queue) → Inv q → Inv (close q).0
unfolding close
close-Inv q v = ground arith

drain_refill-Inv : (q : Queue) → Inv q → Inv (drain_refill q).0
unfolding drain_refill
drain_refill-Inv q v = ground arith

-- The queue that Enqueue leaves does not depend on what is recorded of its verdict.
pub record_verdict-queue :
    (frame : Bytes) (s : System) (r : Queue × Verdict) → (record_verdict frame s r).queue ≡ r.0
unfolding record_verdict
record_verdict-queue frame s (q, refused) = refl
record_verdict-queue frame s (q, overflowed) = refl
record_verdict-queue frame s (q, queued) = refl
record_verdict-queue frame s (q, direct) = refl

Step-Inv : {s t : System} → Step s t → Inv s.queue → Inv t.queue
unfolding after_publish after_enqueue set_conn drain_done
Step-Inv (arrive frame s h) v =
    rw (record_verdict-queue frame s (enqueue frame s.queue)) (enqueue-Inv frame s.queue v)
Step-Inv (hand_over frame s h) v = v
Step-Inv (connect conn s) v = ground arith
Step-Inv (publishes install s h) v = publish-Inv true install s.queue v
Step-Inv (drains frame rest s h) v = v
Step-Inv (delivers frame rest s h) v = v
Step-Inv (refills s h) v = drain_refill-Inv s.queue v
Step-Inv (ends s h) v = ground arith
Step-Inv (closes s) v = close-Inv s.queue v

-- In every run of a queue made by New, the byte count is that of the pending frames and stays within
-- the cap; once the queue is closed nothing is pending, and `release` has run exactly once and found
-- what `install` stored; before that it has not run.
pub Reach-Inv :
    (conn : Bool) (max_bytes : ℕ) {s : System} → Reach (start conn max_bytes) s → Inv s.queue
Reach-Inv conn max_bytes here = unfold start in new-Inv conn max_bytes
Reach-Inv conn max_bytes (next r st) = Step-Inv st (Reach-Inv conn max_bytes r)
