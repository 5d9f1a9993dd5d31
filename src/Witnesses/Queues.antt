-- ===== src/Witnesses/Queues.antt =====
-- internal/framequeue/queue.go: a queue with one frame before its publication and one after.
use bitbang_cli.FrameQueue.Bounds.{Inv, Reach-Inv}
use bitbang_cli.FrameQueue.Race.{overtaken, oldest, gap_strands_frame}
use bitbang_cli.Wire.{Bytes}
use bitbang_cli.FrameQueue.Steps.{
  System, start, after_publish, after_enqueue, record_verdict, started, arrive, publishes, drains,
  closes, delivers, refills, ends, hand_over,
}
use bitbang_cli.Prelude.{◌≡◌, List, true, none, some, [], ◌++◌, ◌∷◌, false, refl, ◌≤◌, arith}
use bitbang_cli.FrameQueue.{
  new, close, drain_refill, drain_frame, drain_done, at_batch, idle, enqueue, publish, take_pending,
}
use bitbang_cli.FrameQueue.Steps
use bitbang_cli.FrameQueue.Order.{here, next, delivered-eq-accepted, delivered-prefix, QuietReach}

abbrev s0 : System
s0 = start true 8

abbrev s1 : System
s1 = after_enqueue (1 ∷ []) s0

abbrev s2 : System
s2 = after_publish (some 4) s1

abbrev s3 : System
s3 = record s2 { drain = drain_frame s2.queue (1 ∷ []) [] }

abbrev s4 : System
s4 = record s3 { drain = at_batch []; delivered = s3.delivered ++ ((1 ∷ []) ∷ []) }

abbrev s5 : System
s5 = record s4 { queue = (drain_refill s4.queue).0; drain = (drain_refill s4.queue).1 }

abbrev s6 : System
s6 = record s5 { queue = drain_done s5.queue; drain = idle }

abbrev s7 : System
s7 = after_enqueue (2 ∷ []) s6

abbrev s8 : System
s8 = record s7 { handoff = none; delivered = s7.delivered ++ ((2 ∷ []) ∷ []) }

reach8 : QuietReach s0 s8
unfolding start new after_enqueue record_verdict enqueue after_publish publish take_pending started
    drain_frame drain_refill drain_done
reach8 =
    next
      (next
        (next
          (next
            (next
              (next
                (next (next here (arrive (1 ∷ []) s0 refl) (λ e. cc)) (publishes (some 4) s1 refl)
                  tt)
                (drains (1 ∷ []) [] s2 refl) tt)
              (delivers (1 ∷ []) [] s3 refl) tt)
            (refills s4 refl) tt)
          (ends s5 refl) tt)
        (arrive (2 ∷ []) s6 refl) (λ e. cc))
      (hand_over (2 ∷ []) s7 refl) tt

delivered-prefix_example : (rest : List Bytes) × (s8.accepted ≡ s8.delivered ++ rest)
delivered-prefix_example = delivered-prefix true 8 reach8

settled :
    (s8.queue.published ≡ true)
    × (s8.queue.closed ≡ false)
    × (s8.drain ≡ idle)
    × (s8.handoff ≡ none)
unfolding start new after_enqueue record_verdict enqueue after_publish publish take_pending started
    drain_frame drain_refill drain_done
settled = (refl, refl, refl, refl)

delivered-eq-accepted_example : s8.accepted ≡ s8.delivered
delivered-eq-accepted_example =
    delivered-eq-accepted true 8 reach8 settled.0 settled.1 settled.2 settled.3

closing : Steps.Reach s0 (record s2 { queue = (close s2.queue).0 })
unfolding start new after_enqueue record_verdict enqueue after_publish publish take_pending started
closing =
    Steps.next
      (Steps.next (Steps.next Steps.here (arrive (1 ∷ []) s0 refl)) (publishes (some 4) s1 refl))
      (closes s2)

Reach-Inv_example : Inv ((close s2.queue).0)
Reach-Inv_example = Reach-Inv true 8 closing

quiet4 : QuietReach s0 s4
unfolding start new after_enqueue record_verdict enqueue after_publish publish take_pending started
    drain_frame
quiet4 =
    next
      (next (next (next here (arrive (1 ∷ []) s0 refl) (λ e. cc)) (publishes (some 4) s1 refl) tt)
        (drains (1 ∷ []) [] s2 refl) tt)
      (delivers (1 ∷ []) [] s3 refl) tt

at_end4 : (s4.drain ≡ at_batch []) × (s4.queue.closed ≡ false) × (s4.queue.pending ≡ [])
unfolding start new after_enqueue record_verdict enqueue after_publish publish take_pending started
    drain_frame
at_end4 = (refl, refl, refl)

room4 : 1 ≤ s4.queue.max_bytes
unfolding start new after_enqueue record_verdict enqueue after_publish publish take_pending started
    drain_frame
room4 = omega arith

gap_strands_frame_example :
    let after : System = overtaken (2 ∷ []) (3 ∷ []) s4 in
    Steps.Reach s4 after
    × (after.accepted ≡ (s4.accepted ++ ((2 ∷ []) ∷ [])) ++ ((3 ∷ []) ∷ []))
    × (after.delivered ≡ s4.accepted ++ ((3 ∷ []) ∷ []))
    × ((u : System)
        → Steps.Reach after u
        → u.queue.closed ≡ false
        → (oldest u.queue.pending ≡ some (2 ∷ [])) × (u.drain ≡ idle))
gap_strands_frame_example =
    gap_strands_frame true 8 quiet4 at_end4.0 at_end4.1 at_end4.2 (2 ∷ []) (3 ∷ []) room4
