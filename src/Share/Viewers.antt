-- ===== src/Share/Viewers.antt =====
-- What the invariants say of a running share: who watches, and who types.
use bitbang_cli.Share.Stages.{waits_stage, on_stage}
use bitbang_cli.Share.Drops.{handle_request-IsServing, release_at-IsServing, preempt_at-IsServing}
use bitbang_cli.Share.Kept.{
  saved-IsServing, waiting-IsStage, shutdown-IsServing, drop_peer-IsServing,
}
use bitbang_cli.Share.Runs.{
  share_run, Event, share_step, requests, waits, answers, releases, preempts, drops, builds, shuts,
}
use bitbang_cli.Share.Reserved.{viewing, keyboard, controlling}
use bitbang_cli.Share.Steps.{share_run-new-IsReserved}
use bitbang_cli.Share.Owned.{owned}
use bitbang_cli.Share.Roles.{
  build_role-IsServing, hold-IsServing, publish-IsServing, arm_refusal-IsServing,
}
use bitbang_cli.Share.Keyboard.{IsServing, Keeps, IsPeer, reserve}
use bitbang_cli.Share.Slots.{Role, view_role, control_role, Release}
use bitbang_cli.Share.{WorkerConfig, Access}
use bitbang_cli.Share.Worker.{
  new_worker, load, handle_answer, build_next, SharePeer, Worker, waiting, save, Shell,
  view_only_share,
}
use bitbang_cli.Prelude.{
  List, Text, ℕ, Option, total, ◌≡◌, refl, if◌then◌else◌, ◌∷◌, on_if, some, [], ◌≤◌, none, arith,
  on_option, suc, false, Bool-cases, zero, ◌≢◌, inr, inl, ap, sym, ◌∙◌,
}
use bitbang_cli.PeerSet

handle_answer-IsServing :
    (id : Text) (result : Option Access) (w : Worker)
    → w.stage ≡ waiting
    → IsServing w
    → IsServing (handle_answer id result w)
unfolding handle_answer
handle_answer-IsServing id result w e h =
    on_option IsServing (PeerSet.get id w.peers) _ _ (λ n. h)
      (λ p n.
        on_option IsServing (load p w.store) _ _ (λ n. h)
          (λ x n.
            on_option IsServing result _ _ (λ c. h)
              (λ access c.
                let y : SharePeer = record x { access = access } in
                let v : Worker = record w { store = save p y w.store } in
                build_role-IsServing id p access v e (
                  saved-IsServing p x y w v h n refl refl (λ q k. k)
                    (λ (old : IsPeer w p x). record {
                      own = old.own;
                      serves = old.serves;
                      quiet = old.quiet;
                      keyed = old.keyed;
                    })
                    (waiting-IsStage v w.stage e)))))

share_step-IsServing : (e : Event) (w : Worker) → IsServing w → IsServing (share_step e w)
unfolding share_step build_next
share_step-IsServing (requests id built) w h =
    on_if IsServing (waits w) _ _ (λ c. handle_request-IsServing id built w (waits_stage w c) h)
      (λ c. h)
share_step-IsServing (answers id result) w h =
    on_if IsServing (waits w) _ _ (λ c. handle_answer-IsServing id result w (waits_stage w c) h)
      (λ c. h)
share_step-IsServing builds w h =
    on_stage IsServing w w.stage refl (λ e. h) (λ p sh r e. hold-IsServing p sh r w e h)
      (λ p sh e. publish-IsServing p sh w e h) (λ p e. arm_refusal-IsServing p w h)
share_step-IsServing shuts w h = shutdown-IsServing w h
share_step-IsServing (releases k) w h = release_at-IsServing k w h
share_step-IsServing (preempts k) w h = preempt_at-IsServing k w h
share_step-IsServing (drops p) w h =
    on_option IsServing (load p w.store) _ _ (λ n. h) (λ x n. drop_peer-IsServing x.client_id p w h)

share_run-IsServing : (es : List Event) (w : Worker) → IsServing w → IsServing (share_run es w)
unfolding share_run
share_run-IsServing [] w h = h
share_run-IsServing (e ∷ es) w h =
    share_run-IsServing es (share_step e w) (share_step-IsServing e w h)

share_run-new-IsServing :
    (cfg : WorkerConfig) (busy : Text) (es : List Event)
    → IsServing (share_run es (new_worker cfg busy))
unfolding new_worker load
share_run-new-IsServing cfg busy es =
    share_run-IsServing es (new_worker cfg busy)
      (record { peers = λ p x l. absurd (cc); unknown = λ p l. refl; built = tt })

-- A live peer whose terminals are opened in the role.
abbrev pub has_terminal : Role → SharePeer → ℕ
has_terminal role x = if x.closed then 0 else elim x.installed [
  | none ↦ 0
  | some sh ↦ elim sh.refused [
    | some why ↦ 0
    | none ↦ elim (sh.role) [
      | control_role ↦ elim role [ control_role ↦ 1 | view_role ↦ 0 ]
      | view_role ↦ elim role [ control_role ↦ 0 | view_role ↦ 1 ]
    ]
  ]
]

by_role :
    (a b : Role) (p : ℕ) (rs : List Release)
    → 1 ≤ total (reserve a p) rs
    → (elim a [
      | control_role ↦ elim b [ control_role ↦ 1 | view_role ↦ 0 ]
      | view_role ↦ elim b [ control_role ↦ 0 | view_role ↦ 1 ]
    ])
      ≤ total (reserve b p) rs
by_role control_role control_role p rs h = h
by_role control_role view_role p rs h = omega (arith)
by_role view_role control_role p rs h = omega (arith)
by_role view_role view_role p rs h = h

terminal_held :
    (role : Role) (p : ℕ) (x : SharePeer)
    → (x.closed ≡ false
        → (sh : Shell) → x.installed ≡ some sh
        → sh.refused ≡ none
        → 1 ≤ total (reserve sh.role p) x.releases)
    → has_terminal role x ≤ total (reserve role p) x.releases
terminal_held role p x serves =
    on_if (λ n. n ≤ total (reserve role p) x.releases) x.closed _ _ (λ c. omega (arith))
      (λ c.
        on_option (λ n. n ≤ total (reserve role p) x.releases) x.installed _ _ (λ n. omega (arith))
          (λ sh i.
            on_option (λ n. n ≤ total (reserve role p) x.releases) sh.refused _ _
              (λ r. by_role sh.role role p x.releases (serves c sh i r)) (λ why r. omega (arith))))

total_mono :
    (f g : SharePeer → ℕ) (xs : List SharePeer)
    → ((p : ℕ) (x : SharePeer) → load p xs ≡ some x → f x ≤ g x)
    → total f xs ≤ total g xs
unfolding load
total_mono f g [] h = omega (arith)
total_mono f g (x ∷ xs) h = omega (arith, h 0 x refl, total_mono f g xs (λ p y l. h (suc p) y l))

load-total :
    (f : SharePeer → ℕ) (p : ℕ) (x : SharePeer) (xs : List SharePeer)
    → load p xs ≡ some x
    → f x ≤ total f xs
unfolding load
load-total f p x [] l = absurd (cc)
load-total f zero x (y ∷ ys) l = ground (arith)
load-total f (suc p) x (y ∷ ys) l = omega (arith, load-total f p x ys l)

keyboard-controlling : (p : ℕ) (rs : List Release) → total (keyboard p) rs ≤ total controlling rs
keyboard-controlling p [] = omega (arith)
keyboard-controlling p (r ∷ rs) = ground (arith, keyboard-controlling p rs)

view_only_filled : view_only_share ≢ []
view_only_filled e = absurd (cc)

-- A release of the keyboard in the hands of a peer is one that is counted.
controls_owned :
    (p : ℕ) (x : SharePeer) (w : Worker)
    → load p w.store ≡ some x
    → 1 ≤ total (keyboard p) x.releases
    → 1 ≤ owned controlling w
unfolding owned
controls_owned p x w l h = omega (
  arith,
  h,
  keyboard-controlling p x.releases,
  load-total (λ y. total controlling y.releases) p x w.store l,
)

-- However a share runs, the live peers with a view-only terminal are at most as many as its limit.
pub viewers_within_limit :
    (cfg : WorkerConfig) (busy : Text) (es : List Event)
    → total (has_terminal view_role) (share_run es (new_worker cfg busy)).store ≤ cfg.viewers
unfolding owned
viewers_within_limit cfg busy es =
    let w = share_run es (new_worker cfg busy) in
    let h = share_run-new-IsReserved cfg busy es in
    let served = share_run-new-IsServing cfg busy es in
    let each =
      total_mono (has_terminal view_role) (λ x. total viewing x.releases) w.store
        (λ p x l. terminal_held view_role p x (served.peers p x l).serves) in
    omega (arith, h.capped, h.counted, each)

-- However a share runs, a live peer with a terminal that can type holds the keyboard or is on its way
-- out, preempted by the one that took it; and on a read-only share there is no such peer.
pub keyboard_is_one :
    (cfg : WorkerConfig) (busy : Text) (es : List Event) (p : ℕ) (x : SharePeer)
    → load p (share_run es (new_worker cfg busy)).store ≡ some x
    → has_terminal control_role x ≡ 1
    → Keeps p (share_run es (new_worker cfg busy)) × (cfg.read_only ≡ false)
keyboard_is_one cfg busy es p x l t =
    let peer = (share_run-new-IsServing cfg busy es).peers p x l in
    let held = terminal_held control_role p x peer.serves in
    (
      peer.keyed (ground (arith)) (omega (arith, held, t)),
      elim (Bool-cases cfg.read_only) [
        | inr no_ban ↦ no_ban
        | inl bans ↦
            let w = share_run es (new_worker cfg busy) in
            let h = share_run-new-IsReserved cfg busy es in
            let ban : (if cfg.read_only then view_only_share else []) ≡ view_only_share =
              ap (λ c. if c then view_only_share else []) bans in
            let nobody = h.barred (λ e. absurd (view_only_filled (sym ban ∙ e))) in
            absurd (omega (arith, nobody, controls_owned p x w l (omega (arith, held, t))))
      ],
    )
