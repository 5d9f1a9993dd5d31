-- ===== src/Share/Keyboard.antt =====
-- Which peers of a share have a terminal, and who has the keyboard: the invariants of every step on the
-- peers themselves.
use bitbang_cli.Share.Owned.{torn}
use bitbang_cli.Share.Reserved.{keyboard, viewing}
use bitbang_cli.Prelude.{
  ℕ, List, ◌≢◌, ◌≡◌, some, total, ◌++◌, ◌∷◌, if◌then◌else◌, ◌==◌, none, [], ◌⊎◌, inr, false, ◌≤◌,
  arith, suc, inl, zero, refl, Bool-cases, subst, true, total-append, on_if, on_option, Bool,
}
use Prim.Native.Nat.{ℕ, suc}
use bitbang_cli.Share.Worker.{
  Worker, load, save, SharePeer, Shell, granted, publishing, waiting, arming, Stage, teardown,
}
use bitbang_cli.Share.Slots.{Role, Release, control_role, view_role}

-- A release of the role, for control one of this peer.
abbrev pub reserve : Role → ℕ → Release → ℕ
reserve control_role p = keyboard p
reserve view_role p = viewing

abbrev pub same : ℕ → ℕ → ℕ
same p q = if q == p then 1 else 0

-- The peer has the keyboard, or is about to be dropped by the one that took it.
abbrev pub Keeps : ℕ → Worker → Type 0
Keeps p w = (w.slots.control.holder ≡ some p) ⊎ (1 ≤ total (same p) w.preempting)

-- A peer has its own releases, one of them for the role that its terminal has; until it is torn down
-- none of them is being called, and with the release of the keyboard it keeps that.
pub record IsPeer (w : Worker) (p : ℕ) (x : SharePeer) : Type 0 where
  pub own : (q : ℕ) → q ≢ p → total (keyboard q) x.releases ≡ 0
  pub serves :
      x.closed ≡ false
      → (sh : Shell) → x.installed ≡ some sh
      → sh.refused ≡ none
      → 1 ≤ total (reserve sh.role p) x.releases
  pub quiet : x.closed ≡ false → total (keyboard p) w.running ≡ 0
  pub keyed : x.closed ≡ false → 1 ≤ total (keyboard p) x.releases → Keeps p w

-- What buildSession knows at each stage.
abbrev pub IsStage : Worker → Stage → Type 0
IsStage w waiting = Unit
IsStage w (granted p sh r) =
    (r.role ≡ sh.role)
    × (r.owner ≡ p)
    × ((x : SharePeer) → load p w.store ≡ some x → x.closed ≡ false → 1 ≤ keyboard p r → Keeps p w)
IsStage w (publishing p sh) =
    sh.refused ≡ none
    → (x : SharePeer) → load p w.store ≡ some x
    → x.closed ≡ false
    → 1 ≤ total (reserve sh.role p) x.releases
IsStage w (arming p) = Unit

pub record IsServing (w : Worker) : Type 0 where
  pub peers : (p : ℕ) (x : SharePeer) → load p w.store ≡ some x → IsPeer w p x
  pub unknown : (p : ℕ) → load p w.store ≡ none → total (keyboard p) w.running ≡ 0
  pub built : IsStage w w.stage

pub load-save :
    (p q : ℕ) (x y : SharePeer) (xs : List SharePeer)
    → load p xs ≡ some x
    → load q (save p y xs) ≡ (if p == q then some y else load q xs)
unfolding load save
load-save p q x y [] h = absurd (cc)
load-save zero zero x y (z ∷ zs) h = refl
load-save zero (suc q) x y (z ∷ zs) h = ground (arith)
load-save (suc p) zero x y (z ∷ zs) h = ground (arith)
load-save (suc p) (suc q) x y (z ∷ zs) h = ground (arith, load-save p q x y zs h)

pub load-append :
    (q : ℕ) (x y : SharePeer) (xs : List SharePeer)
    → load q (xs ++ (y ∷ [])) ≡ some x
    → (load q xs ≡ some x) ⊎ ((x ≡ y) × (load q xs ≡ none))
unfolding load
load-append zero x y [] h = inr (ground (arith), refl)
load-append (suc q) x y [] h = absurd (cc)
load-append zero x y (z ∷ zs) h = inl h
load-append (suc q) x y (z ∷ zs) h = load-append q x y zs h

-- The peers that are live afterwards are as they were, and keep the keyboard if they had it.
pub record IsLater (w v : Worker) : Type 0 where
  pub live :
      (q : ℕ) (z : SharePeer)
      → load q v.store ≡ some z
      → z.closed ≡ false
      → (y : SharePeer) × (load q w.store ≡ some y) × (y.closed ≡ false) × (y.releases ≡ z.releases)
  pub keeps :
      (q : ℕ) (z : SharePeer) → load q v.store ≡ some z → z.closed ≡ false → Keeps q w → Keeps q v

pub later-IsStage : (w v : Worker) (s : Stage) → IsLater w v → IsStage w s → IsStage v s
later-IsStage w v waiting k h = tt
later-IsStage w v (arming p) k h = tt
later-IsStage w v (granted p sh r) k h =
    (h.0, h.1, λ x l c keyed. let y = k.live p x l c in k.keeps p x l c (h.2 y.0 y.1 y.2 keyed))
later-IsStage w v (publishing p sh) k h = λ refused x l c.
    let y = k.live p x l c in
    subst (λ rs. 1 ≤ total (reserve sh.role p) rs) y.3 (h refused y.0 y.1 y.2)

torn-IsLater :
    (p : ℕ) (x : SharePeer) (w : Worker) → load p w.store ≡ some x → IsLater w (torn p x w)
torn-IsLater p x w e = record {
  live = λ q z l c.
      let y : SharePeer = record x { closed = true; releases = [] } in
      let ne : (p == q) ≡ false = elim (Bool-cases (p == q)) [
        | inl same ↦ absurd (ground (arith, load-save p q x y w.store e))
        | inr other ↦ other
      ] in
      (z, ground (arith, load-save p q x y w.store e), c, refl);
  keeps = λ q z l c k. k;
}

-- A peer torn down: what it held is being called, and nobody else's.
pub torn-IsServing :
    (p : ℕ) (x : SharePeer) (w : Worker)
    → load p w.store ≡ some x
    → IsServing w
    → IsServing (torn p x w)
torn-IsServing p x w e h = record {
  peers = λ q z l. elim (Bool-cases (p == q)) [
    | inl same ↦
        let pq : p ≡ q = ground (arith) in
        let yz : ◌≡◌ {A = SharePeer} (record x { closed = true; releases = [] }) z =
          ground (arith, load-save p q x (record x { closed = true; releases = [] }) w.store e) in
        subst (IsPeer (torn p x w) q) yz (record {
          own = λ n ne. refl;
          serves = λ c. absurd (cc);
          quiet = λ c. absurd (cc);
          keyed = λ c. absurd (cc);
        })
    | inr other ↦
        let l2 : load q w.store ≡ some z =
          ground (arith, load-save p q x (record x { closed = true; releases = [] }) w.store e) in
        let old = h.peers q z l2 in
        let none_here = (h.peers p x e).own q (ground (arith)) in
        record {
          own = old.own;
          serves = old.serves;
          quiet = λ c.
              omega (arith, total-append (keyboard q) w.running x.releases, none_here, old.quiet c);
          keyed = old.keyed;
        }
  ];
  unknown = λ q l.
      let l2 : load q w.store ≡ none =
        ground (arith, load-save p q x (record x { closed = true; releases = [] }) w.store e) in
      let ne : q ≢ p = λ qp. absurd (ground (arith)) in
      let none_here = (h.peers p x e).own q ne in
      omega (arith, total-append (keyboard q) w.running x.releases, none_here, h.unknown q l2);
  built = later-IsStage w (torn p x w) w.stage (torn-IsLater p x w e) h.built;
}

pub teardown-IsServing : (p : ℕ) (w : Worker) → IsServing w → IsServing (teardown p w).0
unfolding teardown
teardown-IsServing p w h =
    on_option (λ (r : Worker × Bool). IsServing r.0) (load p w.store) _ _ (λ e. h)
      (λ x e.
        on_if (λ (r : Worker × Bool). IsServing r.0) x.closed _ _ (λ c. h)
          (λ c. torn-IsServing p x w e h))
