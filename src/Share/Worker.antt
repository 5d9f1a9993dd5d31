-- ===== src/Share/Worker.antt =====
-- internal/share/worker.go and worker_peer.go: the peers of a share. One critical section is one step.
-- The signaling loop is at a `Stage` of buildSession; teardowns, releases and preemptions run beside it.
use bitbang_cli.Share.Slots.{
  Role, acquire, Slots, Release, new_control_slot, release, new_role_slots, take_control, Grant,
  control_role, view_role,
}
use bitbang_cli.Share.{WorkerConfig, Access, access_default, access_control, access_view}
use bitbang_cli.Prelude.{
  nat_eq, ℕ, Option, none, Bool, Text, List, codes, false, some, ◌∷◌, if◌then◌else◌, true, [],
  is_empty, suc, is_some, zero, leb, ◌++◌, ◌+◌, ◌||◌, not, length,
}
use Prim.Native.Nat.{ℕ, suc}
use bitbang_cli.PeerSet

-- The role's command, and the text with which every terminal is refused.
pub record Shell : Type 0 where
  pub role : Role
  pub refused : Option Text

-- A peer, at its place in the store: the pointer to it is that place. `installed` is the published
-- session, `refusal` the armed timer of a refused peer.
pub record SharePeer : Type 0 where
  pub client_id : Text
  pub closed : Bool
  pub access : Access
  pub releases : List Release
  pub installed : Option Shell
  pub refusal : Bool

-- buildSession between its critical sections: waiting for a message, holding a release that no peer
-- owns yet, about to publish, and about to start the timer of a refused peer.
pub data Stage : Type 0 where
  waiting : Stage
  granted : ℕ → Shell → Release → Stage
  publishing : ℕ → Shell → Stage
  arming : ℕ → Stage

-- `running` are the release functions that a teardown has taken and not called yet; `preempting` the
-- peers that a goroutine of `preempt` is to drop.
pub record Worker : Type 0 where
  pub viewer_limit : ℕ
  pub slots : Slots
  pub peers : PeerSet.Set ℕ
  pub store : List SharePeer
  pub stage : Stage
  pub running : List Release
  pub preempting : List ℕ
  pub closed : Bool

abbrev pub new_share_peer : Text → SharePeer
new_share_peer id = record {
  client_id = id;
  closed = false;
  access = access_default;
  releases = [];
  installed = none;
  refusal = false;
}

abbrev pub view_only_share : Text
view_only_share = codes "this share is view-only"

-- `busy` is the text of a full share.
unfoldable pub new_worker : WorkerConfig → Text → Worker
new_worker cfg busy = record {
  viewer_limit = cfg.viewers;
  slots = record {
    control = new_control_slot (if cfg.read_only then view_only_share else []);
    viewers = new_role_slots cfg.viewers busy;
    onces = [];
  };
  peers = PeerSet.new;
  store = [];
  stage = waiting;
  running = [];
  preempting = [];
  closed = false;
}

unfoldable pub load {ℓ} : {A : Type ℓ} → ℕ → List A → Option A
load p [] = none
load zero (x ∷ xs) = some x
load (suc p) (x ∷ xs) = load p xs

unfoldable pub save : ℕ → SharePeer → List SharePeer → List SharePeer
save p y [] = []
save zero y (x ∷ xs) = y ∷ xs
save (suc p) y (x ∷ xs) = x ∷ save p y xs

-- `built` says whether peer.HandleRequest gave a connection.
unfoldable pub handle_request : Text → Bool → Worker → Worker
handle_request id built w =
    if is_empty id
    then w
    else if leb (w.viewer_limit + 5) (PeerSet.len w.peers) || PeerSet.has id w.peers
    then w
    else if not built
    then w
    else record w {
      store = w.store ++ (new_share_peer id ∷ []);
      peers = (PeerSet.add_limited id (length w.store) (w.viewer_limit + 5) w.peers).0;
    }

-- The critical section of teardown: `some releases` is the answer true, with what is to be called.
unfoldable pub teardown : ℕ → Worker → Worker × Bool
unfolding load save
teardown p w = elim (load p w.store) [
  | none ↦ (w, false)
  | some x ↦ if x.closed then (w, false) else (
    record w {
      store = save p (record x { closed = true; releases = [] }) w.store;
      running = w.running ++ x.releases;
    },
    true,
  )
]

unfoldable pub drop_peer : Text → ℕ → Worker → Worker
unfolding teardown
drop_peer id p w =
    let r = teardown p w in
    if r.1 then record r.0 { peers = PeerSet.forget id p r.0.peers } else r.0

-- The first section of buildSession: the role's shell and its slot, or the drop of a peer with no role.
unfoldable pub build_role : Text → ℕ → Access → Worker → Worker
unfolding take_control acquire
build_role id p access w = elim access [
  | access_control ↦
      let r = take_control p w.slots in
      enter (command control_role) r.1.0 (record w {
        slots = r.0;
        preempting = elim r.1.1 [ none ↦ w.preempting | some q ↦ w.preempting ++ (q ∷ []) ];
      })
  | access_view ↦
      let r = acquire p w.slots in enter (command view_role) r.1 (record w { slots = r.0 })
  | access_default ↦ drop_peer id p w
]
  where
    command : Role → Option Text → Shell
    command role refused = record { role = role; refused = refused }

    enter : (Option Text → Shell) → Grant → Worker → Worker
    enter shell g v = record v {
      stage = elim g.0 [
        | none ↦ publishing p (shell (some g.1))
        | some r ↦ granted p (shell none) r
      ];
    }

-- `result` is what conn.HandleAnswer makes of the answer: the role that conn.Access() gives then, or an
-- error, after which the connection is closed.
unfoldable pub handle_answer : Text → Option Access → Worker → Worker
unfolding build_role save load
handle_answer id result w = elim (PeerSet.get id w.peers) [
  | none ↦ w
  | some p ↦ elim (load p w.store) [
    | none ↦ w
    | some x ↦ elim result [
      | none ↦ w
      | some access ↦
          build_role id p access
            (record w { store = save p (record x { access = access }) w.store })
    ]
  ]
]

unfoldable pub hold : ℕ → Shell → Release → Worker → Worker
unfolding load save
hold p sh r w = elim (load p w.store) [
  | none ↦ w
  | some x ↦
      if x.closed then record w { stage = waiting; slots = release r w.slots } else record w {
        stage = publishing p sh;
        store = save p (record x { releases = x.releases ++ (r ∷ []) }) w.store;
      }
]

unfoldable pub publish : ℕ → Shell → Worker → Worker
unfolding load save
publish p sh w = elim (load p w.store) [
  | none ↦ w
  | some x ↦ if x.closed then record w { stage = waiting } else record w {
    stage = if is_some sh.refused then arming p else waiting;
    store = save p (record x { installed = some sh }) w.store;
  }
]

unfoldable pub arm_refusal : ℕ → Worker → Worker
unfolding load save
arm_refusal p w = elim (load p w.store) [
  | none ↦ w
  | some x ↦ record w {
    stage = waiting;
    store = if x.closed then w.store else save p (record x { refusal = true }) w.store;
  }
]

-- The next section of buildSession, where the signaling loop is inside it.
unfoldable pub build_next : Worker → Worker
unfolding hold publish arm_refusal
build_next w = elim w.stage [
  | waiting ↦ w
  | granted p sh r ↦ hold p sh r w
  | publishing p sh ↦ publish p sh w
  | arming p ↦ arm_refusal p w
]
