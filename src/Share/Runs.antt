-- ===== src/Share/Runs.antt =====
-- internal/share/worker.go: what goes on beside the signaling loop of a share, and its runs.
use bitbang_cli.Share.Worker.{
  drop_peer, Worker, teardown, handle_request, load, handle_answer, waiting, build_next,
}
use bitbang_cli.Share.Slots.{release}
use bitbang_cli.Share.{Access}
use bitbang_cli.Prelude.{
  nat_eq, ℕ, Option, none, Bool, Text, List, false, some, ◌∷◌, if◌then◌else◌, true, [], suc, zero,
}
use Prim.Native.Nat.{ℕ, suc}
use bitbang_cli.PeerSet

unfoldable pub without {ℓ} : {A : Type ℓ} → ℕ → List A → List A
without k [] = []
without zero (x ∷ xs) = xs
without (suc k) (x ∷ xs) = x ∷ without k xs

-- The goroutines that run the releases of teardowns: any of those is next.
unfoldable pub release_at : ℕ → Worker → Worker
unfolding load without
release_at k w = elim (load k w.running) [
  | none ↦ w
  | some r ↦ record w { running = without k w.running; slots = release r w.slots }
]

-- `preempt`, which says goodbye and then drops the peer.
unfoldable pub preempt_at : ℕ → Worker → Worker
unfolding drop_peer load without
preempt_at k w = elim (load k w.preempting) [
  | none ↦ w
  | some p ↦
      let v : Worker = elim (load p w.store) [ none ↦ w | some x ↦ drop_peer x.client_id p w ] in
      record v { preempting = without k v.preempting }
]

-- The loop of shutdown, whose teardowns run in any order.
unfoldable pub teardown_all : List ℕ → Worker → Worker
unfolding teardown
teardown_all [] w = w
teardown_all (p ∷ ps) w = teardown_all ps (teardown p w).0

unfoldable pub shutdown : Worker → Worker
unfolding teardown_all
shutdown w =
    if w.closed
    then w
    else (let r = PeerSet.close w.peers in
        teardown_all r.1 (record w { closed = true; peers = r.0 }))

-- What can happen next. A message comes to the signaling loop, which takes it when it waits; a drop
-- comes from the connection's close, the establishment deadline or the refused peer's timer.
pub data Event : Type 0 where
  requests : Text → Bool → Event
  answers : Text → Option Access → Event
  builds shuts : Event
  drops releases preempts : ℕ → Event

abbrev pub waits : Worker → Bool
waits w = elim w.stage [ waiting ↦ true | _ ↦ false ]

unfoldable pub share_step : Event → Worker → Worker
unfolding handle_request handle_answer build_next release_at preempt_at shutdown load drop_peer
share_step (requests id built) w = if waits w then handle_request id built w else w
share_step (answers id result) w = if waits w then handle_answer id result w else w
share_step builds w = build_next w
share_step (releases k) w = release_at k w
share_step (preempts k) w = preempt_at k w
share_step shuts w = shutdown w
share_step (drops p) w = elim (load p w.store) [ none ↦ w | some x ↦ drop_peer x.client_id p w ]

unfoldable pub share_run : List Event → Worker → Worker
unfolding share_step
share_run [] w = w
share_run (e ∷ es) w = share_run es (share_step e w)
