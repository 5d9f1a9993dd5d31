-- ===== src/Share/Drops.antt =====
-- What requests, releases and preemptions keep of a share's peers.
use bitbang_cli.Share.Runs.{without, release_at, preempt_at}
use bitbang_cli.Share.Kept.{
  load-none, later-IsServing, release-Keeps, waiting-IsStage, drop_peer-IsServing, same-IsLater,
}
use bitbang_cli.Share.Reserved.{keyboard}
use bitbang_cli.Share.Owned.{total-without}
use bitbang_cli.Share.Slots.{release}
use bitbang_cli.Share.Keyboard.{IsServing, Keeps, load-append, later-IsStage, load-save, same}
use bitbang_cli.Prelude.{
  ℕ, Text, ◌≡◌, Bool, on_option, on_if, subst, is_empty, some, leb, arith, ◌+◌, true, false, ◌++◌,
  ◌||◌, not, refl, ◌∷◌, total, [], inl, ap, inr, sym, ◌==◌, Bool-cases, length,
}
use Prim.Native.Nat.{ℕ}
use bitbang_cli.Share.Worker.{
  handle_request, Worker, waiting, load, SharePeer, drop_peer, new_share_peer, teardown,
}
use bitbang_cli.PeerSet

pub handle_request-IsServing :
    (id : Text) (built : Bool) (w : Worker)
    → w.stage ≡ waiting
    → IsServing w
    → IsServing (handle_request id built w)
unfolding handle_request
handle_request-IsServing id built w e h =
    on_if IsServing (is_empty id) _ _ (λ c. h)
      (λ c.
        on_if IsServing (leb (w.viewer_limit + 5) (PeerSet.len w.peers) || PeerSet.has id w.peers) _
          _ (λ c. h)
          (λ c.
            on_if IsServing (not built) _ _ (λ c. h)
              (λ c. record {
                peers = λ p x l. elim (load-append p x (new_share_peer id) w.store l) [
                  | inl old ↦
                      let z = h.peers p x old in
                      record { own = z.own; serves = z.serves; quiet = z.quiet; keyed = z.keyed }
                  | inr fresh ↦ record {
                    own = λ q ne. ap (λ (y : SharePeer). total (keyboard q) y.releases) fresh.0;
                    serves = λ c sh i. absurd (ground (arith, fresh.0));
                    quiet = λ c. h.unknown p fresh.1;
                    keyed = λ c k. absurd (ground (arith, fresh.0));
                  }
                ];
                unknown = λ p l. h.unknown p (load-none p (new_share_peer id) w.store l);
                built =
                    waiting-IsStage
                      (record w {
                        store = w.store ++ (new_share_peer id ∷ []);
                        peers =
                            (PeerSet.add_limited id (length w.store) (w.viewer_limit + 5)
                              w.peers).0;
                      })
                      w.stage e;
              })))

pub release_at-IsServing : (k : ℕ) (w : Worker) → IsServing w → IsServing (release_at k w)
unfolding release_at
release_at-IsServing k w h =
    on_option IsServing (load k w.running) _ _ (λ n. h)
      (λ r n.
        let v : Worker = record w { running = without k w.running; slots = release r w.slots } in
        let kept : (p : ℕ) (x : SharePeer)
            → load p w.store ≡ some x
            → x.closed ≡ false
            → Keeps p w
            → Keeps p v =
          λ p x l c keeps.
            release-Keeps p r w v keeps
              (omega (arith, total-without (keyboard p) k r w.running n, (h.peers p x l).quiet c))
              refl refl in
        later-IsServing w v refl (λ p. omega (arith, total-without (keyboard p) k r w.running n))
          kept (later-IsStage w v w.stage (same-IsLater w v refl kept) h.built) h)

-- A peer that was dropped is closed, and the preemptions to come are as they were.
drop_peer_closed :
    (id : Text) (p : ℕ) (x z : SharePeer) (w : Worker)
    → load p w.store ≡ some x
    → load p (drop_peer id p w).store ≡ some z
    → z.closed ≡ true
unfolding drop_peer teardown
drop_peer_closed id p x z w e h =
    ground (arith, load-save p p x (record x { closed = true; releases = [] }) w.store e)

drop_peer_list : (id : Text) (p : ℕ) (w : Worker) → (drop_peer id p w).preempting ≡ w.preempting
unfolding drop_peer teardown
drop_peer_list id p w = ground (arith)

preempted_ends :
    (k p : ℕ) (w v : Worker)
    → load k w.preempting ≡ some p
    → v.preempting ≡ w.preempting
    → ((x : SharePeer) → load p v.store ≡ some x → x.closed ≡ true)
    → IsServing v
    → IsServing (record v { preempting = without k v.preempting })
preempted_ends k p w v n list gone h =
    let u : Worker = record v { preempting = without k v.preempting } in
    let at_k : load k v.preempting ≡ some p = subst (λ l. load k l ≡ some p) (sym list) n in
    let kept : (q : ℕ) (x : SharePeer)
        → load q v.store ≡ some x
        → x.closed ≡ false
        → Keeps q v
        → Keeps q u =
      λ q x l c keeps. elim keeps [
        | inl holder ↦ inl holder
        | inr later ↦
            let ne : (p == q) ≡ false = elim (Bool-cases (p == q)) [
              | inl same ↦
                  let qp : q ≡ p = ground (arith) in
                  let closed = gone x (subst (λ m. load m v.store ≡ some x) qp l) in
                  absurd (ground (arith, closed))
              | inr other ↦ other
            ] in
            inr (ground (arith, total-without (same q) k p v.preempting at_k))
      ] in
    later-IsServing v u refl (λ p. omega (arith)) kept
      (later-IsStage v u v.stage (same-IsLater v u refl kept) h.built) h

pub preempt_at-IsServing : (k : ℕ) (w : Worker) → IsServing w → IsServing (preempt_at k w)
unfolding preempt_at
preempt_at-IsServing k w h =
    on_option IsServing (load k w.preempting) _ _ (λ n. h)
      (λ p n.
        on_option (λ (v : Worker). IsServing (record v { preempting = without k v.preempting }))
          (load p w.store) _ _ (λ nobody. preempted_ends k p w w n refl (λ x l. absurd (cc)) h)
          (λ x l.
            preempted_ends k p w (drop_peer x.client_id p w) n (drop_peer_list x.client_id p w)
              (λ z m. drop_peer_closed x.client_id p x z w l m)
              (drop_peer-IsServing x.client_id p w h)))
