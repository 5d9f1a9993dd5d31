-- ===== src/Share/Kept.antt =====
-- What keeps the invariant of a share's peers: a step that leaves them alone, and one that changes one.
use bitbang_cli.Share.Runs.{teardown_all, shutdown}
use bitbang_cli.Share.Keyboard.{
  IsServing, Keeps, IsStage, later-IsStage, same, IsLater, teardown-IsServing, IsPeer, load-save,
}
use bitbang_cli.Share.Reserved.{keyboard}
use bitbang_cli.Prelude.{
  ℕ, List, ◌≡◌, some, total, ◌++◌, ◌∷◌, ◌==◌, none, [], inr, false, ◌≤◌, arith, suc, inl, zero,
  refl, Bool-cases, subst, true, on_if, Text, Bool, ap, sym, ◌∙◌,
}
use Prim.Native.Nat.{ℕ, suc}
use bitbang_cli.Share.Worker.{Worker, load, save, SharePeer, waiting, Stage, teardown, drop_peer}
use bitbang_cli.Share.Slots.{Release, release, Slots, give_up}
use bitbang_cli.PeerSet

-- The peers as they were, no more releases being called and nobody's keyboard lost.
pub later-IsServing :
    (w v : Worker)
    → v.store ≡ w.store
    → ((p : ℕ) → total (keyboard p) v.running ≤ total (keyboard p) w.running)
    → ((p : ℕ) (x : SharePeer) → load p w.store ≡ some x → x.closed ≡ false → Keeps p w → Keeps p v)
    → IsStage v v.stage
    → IsServing w
    → IsServing v
later-IsServing w v hs hr hk stage h = record {
  peers = λ p x l.
      let before : load p w.store ≡ some x = subst (λ s. load p s ≡ some x) hs l in
      let old = h.peers p x before in
      record {
        own = old.own;
        serves = old.serves;
        quiet = λ c. omega (arith, old.quiet c, hr p);
        keyed = λ c k. hk p x before c (old.keyed c k);
      };
  unknown = λ p l. omega (arith, hr p, h.unknown p (subst (λ s. load p s ≡ none) hs l));
  built = stage;
}

pub same-IsLater :
    (w v : Worker)
    → v.store ≡ w.store
    → ((p : ℕ) (x : SharePeer) → load p w.store ≡ some x → x.closed ≡ false → Keeps p w → Keeps p v)
    → IsLater w v
same-IsLater w v hs hk = record {
  live = λ q z l c. (z, subst (λ s. load q s ≡ some z) hs l, c, refl);
  keeps = λ q z l c k. hk q z (subst (λ s. load q s ≡ some z) hs l) c k;
}

registry-IsServing :
    (w : Worker) (peers : PeerSet.Set ℕ) (closed : Bool)
    → IsServing w
    → IsServing (record w { peers = peers; closed = closed })
registry-IsServing w peers closed h =
    let v : Worker = record w { peers = peers; closed = closed } in
    later-IsServing w v refl (λ p. omega (arith)) (λ p x l c k. k)
      (later-IsStage w v w.stage (same-IsLater w v refl (λ p x l c k. k)) h.built) h

pub drop_peer-IsServing :
    (id : Text) (p : ℕ) (w : Worker) → IsServing w → IsServing (drop_peer id p w)
unfolding drop_peer
drop_peer-IsServing id p w h =
    on_if IsServing (teardown p w).1 _ _
      (λ e. registry-IsServing (teardown p w).0 _ _ (teardown-IsServing p w h))
      (λ e. teardown-IsServing p w h)

teardown_all-IsServing : (ps : List ℕ) (w : Worker) → IsServing w → IsServing (teardown_all ps w)
unfolding teardown_all
teardown_all-IsServing [] w h = h
teardown_all-IsServing (p ∷ ps) w h =
    teardown_all-IsServing ps (teardown p w).0 (teardown-IsServing p w h)

pub shutdown-IsServing : (w : Worker) → IsServing w → IsServing (shutdown w)
unfolding shutdown
shutdown-IsServing w h =
    on_if IsServing w.closed _ _ (λ e. h)
      (λ e.
        let v : Worker = record w { closed = true; peers = (PeerSet.close w.peers).0 } in
        teardown_all-IsServing (PeerSet.close w.peers).1 v
          (registry-IsServing w (PeerSet.close w.peers).0 true h))

pub saved-IsServing :
    (p : ℕ) (x y : SharePeer) (w v : Worker)
    → IsServing w
    → load p w.store ≡ some x
    → v.store ≡ save p y w.store
    → v.running ≡ w.running
    → ((q : ℕ) → Keeps q w → Keeps q v)
    → (IsPeer w p x → IsPeer v p y)
    → IsStage v v.stage
    → IsServing v
saved-IsServing p x y w v h e hs hr hk here stage = record {
  peers = λ q z l.
      let l1 : load q (save p y w.store) ≡ some z = subst (λ s. load q s ≡ some z) hs l in
      elim (Bool-cases (p == q)) [
        | inl same ↦
            let pq : p ≡ q = ground (arith) in
            let yz : y ≡ z = ground (arith, load-save p q x y w.store e) in
            subst (λ n. IsPeer v n z) pq (subst (IsPeer v p) yz (here (h.peers p x e)))
        | inr other ↦
            let old = h.peers q z (ground (arith, load-save p q x y w.store e)) in
            record {
              own = old.own;
              serves = old.serves;
              quiet = λ c. ap (total (keyboard q)) hr ∙ old.quiet c;
              keyed = λ c k. hk q (old.keyed c k);
            }
      ];
  unknown = λ q l.
      let l1 : load q (save p y w.store) ≡ none = subst (λ s. load q s ≡ none) hs l in
      let l2 : load q w.store ≡ none = ground (arith, load-save p q x y w.store e) in
      ap (total (keyboard q)) hr ∙ h.unknown q l2;
  built = stage;
}

pub load-none :
    (q : ℕ) (y : SharePeer) (xs : List SharePeer)
    → load q (xs ++ (y ∷ [])) ≡ none
    → load q xs ≡ none
unfolding load
load-none zero y [] h = refl
load-none (suc q) y [] h = refl
load-none zero y (z ∷ zs) h = h
load-none (suc q) y (z ∷ zs) h = load-none q y zs h

pub waiting-IsStage : (w : Worker) (s : Stage) → s ≡ waiting → IsStage w s
waiting-IsStage w s e = subst (IsStage w) (sym e) tt

release_holder :
    (p : ℕ) (r : Release) (s : Slots)
    → s.control.holder ≡ some p
    → keyboard p r ≡ 0
    → (release r s).control.holder ≡ some p
unfolding release give_up
release_holder p r s h k = ground (arith)

-- A release takes the keyboard from its owner alone.
pub release-Keeps :
    (p : ℕ) (r : Release) (w v : Worker)
    → Keeps p w
    → keyboard p r ≡ 0
    → v.slots ≡ release r w.slots
    → v.preempting ≡ w.preempting
    → Keeps p v
release-Keeps p r w v k none_here hs hp = elim k [
  | inl holder ↦
      inl (ap (λ (s : Slots). s.control.holder) hs ∙ release_holder p r w.slots holder none_here)
  | inr later ↦ inr (subst (λ l. 1 ≤ total (same p) l) (sym hp) later)
]
