-- ===== src/Share/Owned.antt =====
-- What the peers, buildSession and the teardowns of a share hold of its slots: a weight summed over the
-- releases that nobody has called yet.
use bitbang_cli.Share.Runs.{shutdown, without, teardown_all}
use Prim.Native.Nat.{ℕ, suc}
use bitbang_cli.Prelude.{
  ◌≡◌, ℕ, ◌∙◌, List, total, refl, ◌+◌, some, true, ◌∷◌, arith, [], suc, ◌++◌, total-append, zero,
  on_option, on_if, ap, subst, Text, Bool, sym, length, is_empty, leb, ◌||◌, not,
}
use bitbang_cli.Share.Worker.{
  teardown, load, Worker, save, SharePeer, Stage, granted, publishing, arming, waiting,
  handle_request, drop_peer, new_share_peer,
}
use bitbang_cli.Share.Slots.{Release}
use bitbang_cli.PeerSet

-- The releases in hand, weighed.
unfoldable pub staged : (Release → ℕ) → Stage → ℕ
staged f waiting = 0
staged f (granted p sh r) = f r
staged f (publishing p sh) = 0
staged f (arming p) = 0

unfoldable pub owned : (Release → ℕ) → Worker → ℕ
unfolding staged
owned f w = total (λ x. total f x.releases) w.store + staged f w.stage + total f w.running

-- Nothing is reserved or given back: releases only change hands.
pub record IsMove (w v : Worker) : Type 0 where
  pub slots_same : v.slots ≡ w.slots
  pub owned_same : (f : Release → ℕ) → owned f v ≡ owned f w

IsMove-refl : (w : Worker) → IsMove w w
IsMove-refl w = record { slots_same = refl; owned_same = λ f. refl }

IsMove-trans : (w v u : Worker) → IsMove w v → IsMove v u → IsMove w u
IsMove-trans w v u a b = record {
  slots_same = b.slots_same ∙ a.slots_same;
  owned_same = λ f. b.owned_same f ∙ a.owned_same f;
}

pub total-save :
    (f : SharePeer → ℕ) (p : ℕ) (x y : SharePeer) (xs : List SharePeer)
    → load p xs ≡ some x
    → total f (save p y xs) + f x ≡ total f xs + f y
unfolding load save
total-save f p x y [] h = cc
total-save f zero x y (z ∷ zs) h = ground (arith)
total-save f (suc p) x y (z ∷ zs) h = omega (arith, total-save f p x y zs h)

pub total-without {ℓ} :
    {A : Type ℓ} (f : A → ℕ) (k : ℕ) (r : A) (xs : List A)
    → load k xs ≡ some r
    → total f (without k xs) + f r ≡ total f xs
unfolding load without
total-without f k r [] h = absurd (cc)
total-without f zero r (z ∷ zs) h = ground (arith)
total-without f (suc k) r (z ∷ zs) h = omega (arith, total-without f k r zs h)

abbrev pub torn : ℕ → SharePeer → Worker → Worker
torn p x w = record w {
  store = save p (record x { closed = true; releases = [] }) w.store;
  running = w.running ++ x.releases;
}

owned-torn :
    (p : ℕ) (x : SharePeer) (w : Worker)
    → load p w.store ≡ some x
    → (f : Release → ℕ) → owned f (torn p x w) ≡ owned f w
unfolding owned
owned-torn p x w e f = omega (
  arith,
  total-save (λ y. total f y.releases) p x (record x { closed = true; releases = [] }) w.store e,
  total-append f w.running x.releases,
)

pub teardown-IsMove : (p : ℕ) (w : Worker) → IsMove w (teardown p w).0
unfolding teardown
teardown-IsMove p w =
    on_option (λ (r : Worker × Bool). IsMove w r.0) (load p w.store) _ _ (λ e. IsMove-refl w)
      (λ x e.
        on_if (λ (r : Worker × Bool). IsMove w r.0) x.closed _ _ (λ c. IsMove-refl w)
          (λ c. record { slots_same = refl; owned_same = owned-torn p x w e }))

-- The registry and the goroutines of `preempt` hold no release.
pub same_hands :
    (w v : Worker)
    → v.slots ≡ w.slots
    → v.store ≡ w.store
    → v.stage ≡ w.stage
    → v.running ≡ w.running
    → IsMove w v
unfolding owned
same_hands w v a b c d = record { slots_same = a; owned_same = λ (f : Release → ℕ). cc }

pub drop_peer-IsMove : (id : Text) (p : ℕ) (w : Worker) → IsMove w (drop_peer id p w)
unfolding drop_peer
drop_peer-IsMove id p w =
    on_if (IsMove w) (teardown p w).1 _ _
      (λ e.
        IsMove-trans w (teardown p w).0 _ (teardown-IsMove p w)
          (same_hands (teardown p w).0 _ refl refl refl refl))
      (λ e. teardown-IsMove p w)

teardown_all-IsMove : (ps : List ℕ) (w : Worker) → IsMove w (teardown_all ps w)
unfolding teardown_all
teardown_all-IsMove [] w = IsMove-refl w
teardown_all-IsMove (p ∷ ps) w =
    IsMove-trans w (teardown p w).0 _ (teardown-IsMove p w)
      (teardown_all-IsMove ps (teardown p w).0)

pub shutdown-IsMove : (w : Worker) → IsMove w (shutdown w)
unfolding shutdown
shutdown-IsMove w =
    on_if (IsMove w) w.closed _ _ (λ e. IsMove-refl w)
      (λ e.
        let v : Worker = record w { closed = true; peers = (PeerSet.close w.peers).0 } in
        IsMove-trans w v _ (same_hands w v refl refl refl refl)
          (teardown_all-IsMove (PeerSet.close w.peers).1 v))

-- A change of a peer that keeps its releases.
pub save-IsMove :
    (p : ℕ) (x y : SharePeer) (w v : Worker)
    → load p w.store ≡ some x
    → y.releases ≡ x.releases
    → v.store ≡ save p y w.store
    → v.slots ≡ w.slots
    → v.running ≡ w.running
    → ((f : Release → ℕ) → staged f v.stage ≡ staged f w.stage)
    → IsMove w v
unfolding owned
save-IsMove p x y w v e h hs a b c = record {
  slots_same = a;
  owned_same = λ (f : Release → ℕ).
      let sum : total (λ z. total f z.releases) w.store ≡ total (λ z. total f z.releases) v.store =
        subst (λ s. total (λ z. total f z.releases) w.store ≡ total (λ z. total f z.releases) s)
          (sym hs) (kept f) in
      omega (arith, sum, c f, ap (total f) b);
}
  where
    kept :
        (f : Release → ℕ)
        → total (λ z. total f z.releases) w.store
          ≡ total (λ z. total f z.releases) (save p y w.store)
    kept f = omega (arith, total-save (λ z. total f z.releases) p x y w.store e, ap (total f) h)

pub handle_request-IsMove :
    (id : Text) (built : Bool) (w : Worker) → IsMove w (handle_request id built w)
unfolding handle_request owned
handle_request-IsMove id built w =
    on_if (IsMove w) (is_empty id) _ _ (λ e. IsMove-refl w)
      (λ e.
        on_if (IsMove w) (leb (w.viewer_limit + 5) (PeerSet.len w.peers) || PeerSet.has id w.peers)
          _ _ (λ e. IsMove-refl w)
          (λ e.
            on_if (IsMove w) (not built) _ _ (λ e. IsMove-refl w)
              (λ e. record { slots_same = refl; owned_same = owned_added })))
  where
    owned_added :
        (f : Release → ℕ)
        → owned f (record w {
          store = w.store ++ (new_share_peer id ∷ []);
          peers = (PeerSet.add_limited id (length w.store) (w.viewer_limit + 5) w.peers).0;
        })
          ≡ owned f w
    owned_added f =
        omega (arith, total-append (λ z. total f z.releases) w.store (new_share_peer id ∷ []))
