-- ===== src/FrameQueue.antt =====
-- internal/framequeue/queue.go: the frames of a peer whose session does not exist yet. Each locked
-- section of the code is one function here; `System` adds the goroutines that run between them.
pub mod Steps
pub mod Bounds
pub mod Order
pub mod Race
use bitbang_cli.Prelude.{
  ℕ, ◌+◌, Bool, true, false, not, ◌&&◌, ◌||◌, Option, none, some, List, [], ◌∷◌, ◌++◌, length, ltb,
  leb, if◌then◌else◌,
}
use bitbang_cli.Wire.{Bytes}

abbrev pub default_max_pending_bytes : ℕ
default_max_pending_bytes = 262144

-- `conn` and `target` say whether the connection and the delivery function are set; `conn_closes`
-- counts the calls of `conn.Close()`. `owner` is what Publish's `install` stores, and `released` what
-- Close's `release` found there at each run.
pub record Queue : Type 0 where
  pub closed : Bool
  pub conn : Bool
  pub conn_closes : ℕ
  pub published : Bool
  pub target : Bool
  pub dispatching : Bool
  pub pending : List Bytes
  pub pending_bytes : ℕ
  pub max_bytes : ℕ
  pub owner : Option ℕ
  pub released : List (Option ℕ)

-- `max_bytes` is an `int`; the model's `ℕ` leaves out the negative ones, which go the way of 0.
unfoldable pub new : Bool → ℕ → Queue
new conn max_bytes = record {
  closed = false;
  conn = conn;
  conn_closes = 0;
  published = false;
  target = false;
  dispatching = false;
  pending = [];
  pending_bytes = 0;
  max_bytes = if leb max_bytes 0 then default_max_pending_bytes else max_bytes;
  owner = none;
  released = [];
}

unfoldable pub set_conn : Bool → Queue → Queue
set_conn conn q = record q { conn = conn }

unfoldable pub close_conn : Queue → Queue
close_conn q = if q.conn then record q { conn_closes = q.conn_closes + 1 } else q

-- Where Enqueue sent the frame: nowhere, to the pending list, or to the caller's `deliver(data)`.
pub data Verdict : Type 0 where
  refused overflowed queued direct : Verdict

unfoldable pub enqueue : Bytes → Queue → Queue × Verdict
unfolding close_conn
enqueue frame q =
    if q.closed
    then (q, refused)
    else if not q.published || q.dispatching
    then (if ltb q.max_bytes (q.pending_bytes + length frame) then (close_conn q, overflowed) else (
      record q {
        pending = q.pending ++ (frame ∷ []);
        pending_bytes = q.pending_bytes + length frame;
      },
      queued,
    ))
    else (q, direct)

unfoldable pub take_pending : Queue → Queue × List Bytes
take_pending q = (record q { pending = []; pending_bytes = 0 }, q.pending)

-- `none` is the answer false; `some batch` is true, with the batch that the drain goroutine starts on.
-- `deliver` says whether the argument is non-nil.
unfoldable pub publish : Bool → Option ℕ → Queue → Queue × Option (List Bytes)
unfolding take_pending
publish deliver install q = if q.closed then (q, none) else (
  (take_pending (record q {
    owner = elim install [ none ↦ q.owner | some session ↦ some session ];
    target = deliver || q.target;
    published = true;
    dispatching = true;
  })).0,
  some q.pending,
)

unfoldable pub close : Queue → Queue × Bool
unfolding close_conn
close q = if q.closed then (q, false) else (
  close_conn (record q {
    closed = true;
    released = q.released ++ (q.owner ∷ []);
    pending = [];
    pending_bytes = 0;
  }),
  true,
)

-- The drain goroutine: not running, before the next frame of its batch, inside `deliver(data)`, or
-- returned from its loop with the deferred function still to run.
pub data Drain : Type 0 where
  idle : Drain
  at_batch : List Bytes → Drain
  delivering : Bytes → List Bytes → Drain
  exiting : Drain

-- The locked test before a frame of the batch.
unfoldable pub drain_frame : Queue → Bytes → List Bytes → Drain
drain_frame q frame rest =
    if q.closed then exiting else if q.target then delivering frame rest else at_batch rest

-- The locked section behind the batch.
unfoldable pub drain_refill : Queue → Queue × Drain
unfolding take_pending
drain_refill q = if q.closed then (q, exiting) else (
  (take_pending q).0,
  elim q.pending [ [] ↦ exiting | frame ∷ rest ↦ at_batch (frame ∷ rest) ],
)

-- The deferred function of `drain`.
unfoldable pub drain_done : Queue → Queue
drain_done q = record q { dispatching = false }
